-- ===== src/Influx/Rows/Runs.antt =====
-- Tests of the rows and the schemas, and their theorems at concrete inputs.
use influx_sync.Base.{
  ℕ, ◌+◌, ◌≡◌, refl, true, false, some, List, [], ◌∷◌, lookup, store, ok, err, All, arith,
}
use influx_sync.Model.Rendering.{
  Bytes, Point, int64, text, same, before, insert_sorted, sort_strings, set_key_order,
}
use influx_sync.Influx.Schema.{
  Schema, Cache, fresh_at, add_tags, add_types, with_tag_rows, with_field_rows, given_tags,
  fetch_schema, fallback, discovered, cached, serve_schema, ensure_schema, schema_cache_ttl,
  schema_degrade_ttl,
}
use influx_sync.Influx.Schema.Keeping.{ensure_schema-twice}
use influx_sync.Influx.Rows.{
  Json, null, number, string, time_column, integer_type, int_or_readable, int_or_whole, ts_to_int64,
  to_int64, to_float64, to_bool, has_tag, is_tag, type_of, set_field, set_tag, set_string,
  set_typed, set_number, set_untyped, set_known, set_cell, set_cells, time_index, columns_where,
  value_at, with_order, with_time, row_to_point, rows_to_points, with_index, series_to_points,
  row_without_fields,
}
use influx_sync.Influx.Rows.Order.{IsOrdered, series_to_points-IsOrdered}

all_code : ℕ
unfolding same before insert_sorted sort_strings set_key_order fresh_at add_tags add_types
    with_tag_rows with_field_rows given_tags fetch_schema fallback discovered cached serve_schema
    ensure_schema int_or_readable int_or_whole ts_to_int64 to_int64 to_float64 to_bool has_tag
    is_tag type_of set_field set_tag set_string set_typed set_number set_untyped set_known set_cell
    set_cells time_index columns_where value_at with_order with_time row_to_point rows_to_points
    with_index series_to_points lookup store
all_code = 0

abbrev whole_number : ℕ → Json
whole_number n =
    number (record { int = some n; readable = true; odd = false; shown = []; whole = n })

abbrev host : Bytes
host = 104 ∷ []

-- The tag h, and the field v of integers.
abbrev schema : Schema
schema = (fetch_schema [] (some (host ∷ [])) (some ((118 ∷ [], integer_type) ∷ []))).0

abbrev columns : List Bytes
columns = time_column ∷ ((118 ∷ []) ∷ (host ∷ ((97 ∷ []) ∷ [])))

abbrev cells : Json → Json → List Json
cells h a = whole_number 5 ∷ (whole_number 7 ∷ (h ∷ (a ∷ [])))

-- time, v, h, a: a has no type in the schema, and is a string field.
abbrev result : List Point
result =
    record {
      measurement = 109 ∷ [];
      tags = (host, 120 ∷ []) ∷ [];
      fields = (118 ∷ [], int64 7) ∷ ((97 ∷ [], text (121 ∷ [])) ∷ []);
      timestamp = 5;
      tag_keys = host ∷ [];
      field_keys = (97 ∷ []) ∷ ((118 ∷ []) ∷ []);
    }
    ∷ []

row_read :
    series_to_points
      (109 ∷ [])
      columns
      (cells (string (120 ∷ [])) (string (121 ∷ [])) ∷ [])
      (some schema)
    ≡ ok result
unfolding all_code
row_read = refl

-- A row that has values for its tags only fails the whole query.
row_refused :
    series_to_points
      (109 ∷ [])
      columns
      ((whole_number 5 ∷ (null ∷ (string (120 ∷ []) ∷ (null ∷ [])))) ∷ [])
      (some schema)
    ≡ err row_without_fields
unfolding all_code
row_refused = refl

series_to_points-IsOrdered_example : All IsOrdered result
unfolding all_code
series_to_points-IsOrdered_example =
    series_to_points-IsOrdered (109 ∷ []) columns
      (cells (string (120 ∷ [])) (string (121 ∷ [])) ∷ []) (some schema) result
      ((refl, (refl, (refl, tt))), ((refl, (refl, tt)), ((refl, tt), (tt, tt)))) refl

abbrev good : Schema
good = record {
  tags = (host, true) ∷ [];
  field_types = (118 ∷ [], integer_type) ∷ [];
  fetched_at = 0;
  degraded = false;
}

abbrev unknown : Schema
unknown = record { tags = []; field_types = []; fetched_at = 0; degraded = false }

abbrev cache : Cache
cache = (109 ∷ [], good) ∷ []

ensure_schema-twice_example :
    (let first = ensure_schema schema_cache_ttl cache (109 ∷ []) (unknown, false) in
      let second =
        ensure_schema (schema_cache_ttl + schema_degrade_ttl) first.0 (109 ∷ []) (unknown, false) in
      ((first.1.tags ≡ good.tags) × (first.1.field_types ≡ good.field_types))
      × ((second.1.tags ≡ unknown.tags) × (second.1.field_types ≡ unknown.field_types)))
unfolding all_code
ensure_schema-twice_example =
    ensure_schema-twice schema_cache_ttl (schema_cache_ttl + schema_degrade_ttl) cache (109 ∷ [])
      good unknown unknown refl refl (omega arith) (omega arith)
