-- ===== src/Influx/Rows/Order.antt =====
-- internal/influx/client.go, seriesToPoints: the order of the keys that is computed for a series is
-- that of each of its points.
use influx_sync.Base.{
  ℕ, ◌≡◌, refl, sym, ap, ◌∙◌, not, Option, none, some, List, [], ◌∷◌, ◌++◌, ◌==◌, if◌then◌else◌,
  if_both, length, Result, ok, ◌>>=◌, >>=-eq-ok, err≢ok, ok-injective, All,
}
use mathlib.Core.Path.{subst}
use influx_sync.Model.Rendering.{
  Bytes, Point, keys, sort_strings, set_key_order, sorted_tag_keys, sorted_field_keys,
}
use influx_sync.Influx.Schema.{Schema}
use influx_sync.Influx.Rows.{
  Json, RowError, is_tag, set_cells, time_index, columns_where, value_at, with_order, with_time,
  row_to_point, rows_to_points, with_index, series_to_points, ts_to_int64,
}
use influx_sync.Influx.Rows.Parts.{IsPart, AreDistinct}
use influx_sync.Influx.Rows.Adding.{IsTimed, Extends, AreNew, set_cells-Extends}
use influx_sync.Influx.Rows.Columns.{time_index-IsTimed, ordered}

-- The key order that SetKeyOrder takes is the one that sorting would give.
abbrev pub IsOrdered : Point → Type 0
IsOrdered p =
    (sorted_tag_keys p ≡ sort_strings (keys p.tags))
    × (sorted_field_keys p ≡ sort_strings (keys p.fields))

with_order-IsOrdered :
    (schema : Option Schema) (columns : List Bytes) (p q r : Point)
    → Extends schema columns p q
    → keys p.tags ≡ []
    → keys p.fields ≡ []
    → p.tag_keys ≡ []
    → p.field_keys ≡ []
    → with_order
        (sort_strings (columns_where (is_tag schema) columns))
        (sort_strings (columns_where (λ col. not (is_tag schema col)) columns))
        q
      ≡ ok r
    → IsOrdered r
unfolding with_order set_key_order sorted_tag_keys sorted_field_keys
with_order-IsOrdered schema columns p q r x no_tags no_fields no_tag_order no_field_order =
    let tag_cols = columns_where (is_tag schema) columns in
    let field_cols = columns_where (λ col. not (is_tag schema col)) columns in
    let tags_part : IsPart (keys q.tags) tag_cols =
      subst (λ t. IsPart t tag_cols) (sym (x.tags_end ∙ ap (λ t. t ++ x.tag_names) no_tags))
        x.tags_part in
    let fields_part : IsPart (keys q.fields) field_cols =
      subst (λ t. IsPart t field_cols) (sym (x.fields_end ∙ ap (λ t. t ++ x.field_names) no_fields))
        x.fields_part in
    let tags_ordered =
      subst
        (λ t.
          (let o =
              if length (sort_strings tag_cols) == length q.tags
              then sort_strings tag_cols
              else t in
            if length o == length q.tags then o else sort_strings (keys q.tags))
          ≡ sort_strings (keys q.tags))
        (sym (x.tag_order ∙ no_tag_order)) (ordered tag_cols q.tags tags_part) in
    let fields_ordered =
      subst
        (λ t.
          (let o =
              if length (sort_strings field_cols) == length q.fields
              then sort_strings field_cols
              else t in
            if length o == length q.fields then o else sort_strings (keys q.fields))
          ≡ sort_strings (keys q.fields))
        (sym (x.field_order ∙ no_field_order)) (ordered field_cols q.fields fields_part) in
    if_both (λ (t : Result RowError Point). t ≡ ok r → IsOrdered r) (length q.fields == 0) _ _
      (λ h e. absurd (err≢ok _ _ e))
      (λ h e. subst IsOrdered (ok-injective _ _ e) (tags_ordered, fields_ordered))

all_new : (cols : List Bytes) → AreNew cols []
all_new [] = tt
all_new (c ∷ cols) = (tt, all_new cols)

at_time :
    (name : Bytes) (columns : List Bytes) (schema : Option Schema) (time_idx : ℕ) (row : List Json)
    (r : Point)
    → IsTimed time_idx 0 columns
    → AreDistinct columns
    → (ts : Option ℕ)
    → with_time ts (λ t.
      set_cells schema time_idx 0
        (record {
          measurement = name;
          tags = [];
          fields = [];
          timestamp = t;
          tag_keys = [];
          field_keys = [];
        })
        columns
        row
      >>= λ p.
          with_order
            (sort_strings (columns_where (is_tag schema) columns))
            (sort_strings (columns_where (λ col. not (is_tag schema col)) columns))
            p)
      ≡ ok r
    → IsOrdered r
unfolding with_time
at_time name columns schema time_idx row r timed distinct none e = absurd (err≢ok _ _ e)
at_time name columns schema time_idx row r timed distinct (some t) e =
    let p : Point = record {
      measurement = name;
      tags = [];
      fields = [];
      timestamp = t;
      tag_keys = [];
      field_keys = [];
    } in
    let (q, got, rest) = >>=-eq-ok (set_cells schema time_idx 0 p columns row) _ r e in
    with_order-IsOrdered schema columns p q r
      (set_cells-Extends schema time_idx 0 p q columns row timed distinct (all_new columns)
        (all_new columns) got)
      refl refl refl refl rest

row_to_point-IsOrdered :
    (name : Bytes) (columns : List Bytes) (schema : Option Schema) (time_idx : ℕ) (row : List Json)
    (r : Point)
    → IsTimed time_idx 0 columns
    → AreDistinct columns
    → row_to_point name columns schema time_idx
        (sort_strings (columns_where (is_tag schema) columns))
        (sort_strings (columns_where (λ col. not (is_tag schema col)) columns))
        row
      ≡ ok r
    → IsOrdered r
unfolding row_to_point
row_to_point-IsOrdered name columns schema time_idx row r timed distinct =
    if_both (λ (t : Result RowError Point). t ≡ ok r → IsOrdered r)
      (not (length row == length columns)) _ _ (λ h e. absurd (err≢ok _ _ e))
      (λ h e.
        at_time name columns schema time_idx row r timed distinct
          (ts_to_int64 (value_at time_idx row)) e)

rows-IsOrdered :
    (one : List Json → Result RowError Point) (rows : List (List Json)) (ps : List Point)
    → ((row : List Json) (p : Point) → one row ≡ ok p → IsOrdered p)
    → rows_to_points one rows ≡ ok ps
    → All IsOrdered ps
unfolding rows_to_points
rows-IsOrdered one [] ps each e = subst (All IsOrdered) (ok-injective _ _ e) tt
rows-IsOrdered one (row ∷ rows) ps each e =
    let (p, got, rest) = >>=-eq-ok (one row) _ ps e in
    let (qs, more, last) = >>=-eq-ok (rows_to_points one rows) _ ps rest in
    subst (All IsOrdered) (ok-injective _ _ last)
      (each row p got, rows-IsOrdered one rows qs each more)

indexed-IsOrdered :
    (name : Bytes) (columns : List Bytes) (rows : List (List Json)) (schema : Option Schema)
    (ps : List Point) (index : Option ℕ)
    → AreDistinct columns
    → time_index 0 columns ≡ index
    → with_index index (λ time_idx.
      rows_to_points
        (row_to_point name columns schema time_idx
          (sort_strings (columns_where (is_tag schema) columns))
          (sort_strings (columns_where (λ col. not (is_tag schema col)) columns)))
        rows)
      ≡ ok ps
    → All IsOrdered ps
unfolding with_index
indexed-IsOrdered name columns rows schema ps none distinct at e = absurd (err≢ok _ _ e)
indexed-IsOrdered name columns rows schema ps (some t) distinct at e =
    rows-IsOrdered _ rows ps
      (λ row p got.
        row_to_point-IsOrdered name columns schema t row p
          (time_index-IsTimed 0 columns t distinct at) distinct got)
      e

-- Every point of a series with distinct columns carries, or leaves out, the order of its tag and field
-- keys such that its keys come as sorting them would have them, also where a row has no value for
-- some columns.
pub series_to_points-IsOrdered :
    (name : Bytes) (columns : List Bytes) (rows : List (List Json)) (schema : Option Schema)
    (ps : List Point)
    → AreDistinct columns
    → series_to_points name columns rows schema ≡ ok ps
    → All IsOrdered ps
unfolding series_to_points
series_to_points-IsOrdered name [] rows schema ps distinct e =
    subst (All IsOrdered) (ok-injective _ _ e) tt
series_to_points-IsOrdered name (c ∷ cols) rows schema ps distinct e =
    indexed-IsOrdered name (c ∷ cols) rows schema ps (time_index 0 (c ∷ cols)) distinct refl e
