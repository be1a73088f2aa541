-- ===== src/Influx/Rows/Adding.antt =====
-- internal/influx/client.go, seriesToPoints: the tags and fields that a row adds to its point.
use influx_sync.Base.{
  ℕ, suc, ◌≡◌, inl, inr, refl, sym, ap, ◌∙◌, Bool, true, false, not, ◌&&◌, Option, List, [], ◌∷◌,
  ◌++◌, append_assoc, append-nil, ◌==◌, if◌then◌else◌, if_both, ok, ◌>>=◌, >>=-eq-ok, ok-injective,
  All, All-append, Bool-cases,
}
use mathlib.Core.Path.{subst}
use influx_sync.Model.Rendering.{Bytes, Point, keys, same}
use influx_sync.Influx.Schema.{Schema}
use influx_sync.Influx.Rows.{Json, time_column, is_tag, set_cell, set_cells, columns_where}
use influx_sync.Influx.Rows.Parts.{IsPart, IsNew, AreDistinct, keys-store, none_of, keep, skip}
use influx_sync.Influx.Rows.Cells.{Cell, set_cell-Cell, left, tag, field}

-- The column at `time_idx`, and no other, is named "time".
abbrev pub IsTimed : ℕ → ℕ → List Bytes → Type 0
IsTimed time_idx i [] = Unit {0}
IsTimed time_idx i (c ∷ cols) =
    ((i == time_idx) ≡ same c time_column) × IsTimed time_idx (suc i) cols

IsPart-columns :
    (wanted : Bytes → Bool) (c : Bytes) (ks cols : List Bytes)
    → IsPart ks (columns_where wanted cols)
    → IsPart ks (columns_where wanted (c ∷ cols))
unfolding columns_where
IsPart-columns wanted c ks cols h =
    if_both (IsPart ks) (not (same c time_column) && wanted c) _ _ (λ in_it. skip c ks _ h)
      (λ out. h)

IsPart-column :
    (wanted : Bytes → Bool) (c : Bytes) (ks cols : List Bytes)
    → same c time_column ≡ false
    → wanted c ≡ true
    → IsPart ks (columns_where wanted cols)
    → IsPart (c ∷ ks) (columns_where wanted (c ∷ cols))
unfolding columns_where
IsPart-column wanted c ks cols other is h =
    subst (IsPart (c ∷ ks))
      (sym (
        ap
          (λ b.
            if not b && wanted c then c ∷ columns_where wanted cols else columns_where wanted cols)
          other
        ∙ ap (λ b. if b then c ∷ columns_where wanted cols else columns_where wanted cols) is))
      (keep c ks _ h)

-- The names that a row adds to a point.
pub record Extends (schema : Option Schema) (cols : List Bytes) (p q : Point) : Type 0 where
  pub tag_names : List Bytes
  pub field_names : List Bytes
  pub tags_end : keys q.tags ≡ keys p.tags ++ tag_names
  pub fields_end : keys q.fields ≡ keys p.fields ++ field_names
  pub tags_part : IsPart tag_names (columns_where (is_tag schema) cols)
  pub fields_part : IsPart field_names (columns_where (λ c. not (is_tag schema c)) cols)
  pub tag_order : q.tag_keys ≡ p.tag_keys
  pub field_order : q.field_keys ≡ p.field_keys

same-Extends : (schema : Option Schema) (cols : List Bytes) (p : Point) → Extends schema cols p p
same-Extends schema cols p = record {
  tag_names = [];
  field_names = [];
  tags_end = sym (append-nil (keys p.tags));
  fields_end = sym (append-nil (keys p.fields));
  tags_part = none_of _;
  fields_part = none_of _;
  tag_order = refl;
  field_order = refl;
}

-- A column that adds nothing.
passed-Extends :
    (schema : Option Schema) (c : Bytes) (cols : List Bytes) (p q : Point)
    → Extends schema cols p q
    → Extends schema (c ∷ cols) p q
passed-Extends schema c cols p q x = record {
  tag_names = x.tag_names;
  field_names = x.field_names;
  tags_end = x.tags_end;
  fields_end = x.fields_end;
  tags_part = IsPart-columns _ c x.tag_names cols x.tags_part;
  fields_part = IsPart-columns _ c x.field_names cols x.fields_part;
  tag_order = x.tag_order;
  field_order = x.field_order;
}

-- No column of `cols` is a tag or a field yet.
abbrev pub AreNew : List Bytes → List Bytes → Type 0
AreNew cols ks = All (λ c. IsNew c ks) cols

AreNew-last :
    (c : Bytes) (cols ks : List Bytes)
    → AreNew cols ks
    → All (λ d. same c d ≡ false) cols
    → AreNew cols (ks ++ (c ∷ []))
AreNew-last c [] ks new distinct = tt
AreNew-last c (d ∷ cols) ks new distinct =
    (All-append _ ks (c ∷ []) new.0 (distinct.0, tt), AreNew-last c cols ks new.1 distinct.1)

cell-Extends :
    (schema : Option Schema) (c : Bytes) (cols : List Bytes) (p p' q : Point)
    → same c time_column ≡ false
    → Cell schema c p p'
    → All (λ d. same c d ≡ false) cols
    → AreNew (c ∷ cols) (keys p.tags)
    → AreNew (c ∷ cols) (keys p.fields)
    → (AreNew cols (keys p'.tags) → AreNew cols (keys p'.fields) → Extends schema cols p' q)
    → Extends schema (c ∷ cols) p q
cell-Extends schema c cols p p' q other left distinct new_tags new_fields next =
    passed-Extends schema c cols p q (next new_tags.1 new_fields.1)
cell-Extends schema c cols p p' q other (tag s is) distinct new_tags new_fields next =
    let added = keys-store c s p.tags new_tags.0 in
    let x =
      next (subst (AreNew cols) (sym added) (AreNew-last c cols (keys p.tags) new_tags.1 distinct))
        new_fields.1 in
    record {
      tag_names = c ∷ x.tag_names;
      field_names = x.field_names;
      tags_end =
          x.tags_end
          ∙ ap (λ t. t ++ x.tag_names) added
          ∙ append_assoc (keys p.tags) (c ∷ []) x.tag_names;
      fields_end = x.fields_end;
      tags_part = IsPart-column _ c x.tag_names cols other is x.tags_part;
      fields_part = IsPart-columns _ c x.field_names cols x.fields_part;
      tag_order = x.tag_order;
      field_order = x.field_order;
    }
cell-Extends schema c cols p p' q other (field v is) distinct new_tags new_fields next =
    let added = keys-store c v p.fields new_fields.0 in
    let x = next new_tags.1 (
      subst (AreNew cols) (sym added) (AreNew-last c cols (keys p.fields) new_fields.1 distinct)) in
    record {
      tag_names = x.tag_names;
      field_names = c ∷ x.field_names;
      tags_end = x.tags_end;
      fields_end =
          x.fields_end
          ∙ ap (λ t. t ++ x.field_names) added
          ∙ append_assoc (keys p.fields) (c ∷ []) x.field_names;
      tags_part = IsPart-columns _ c x.tag_names cols x.tags_part;
      fields_part = IsPart-column _ c x.field_names cols other (ap not is) x.fields_part;
      tag_order = x.tag_order;
      field_order = x.field_order;
    }

pub set_cells-Extends :
    (schema : Option Schema) (time_idx i : ℕ) (p q : Point) (cols : List Bytes) (row : List Json)
    → IsTimed time_idx i cols
    → AreDistinct cols
    → AreNew cols (keys p.tags)
    → AreNew cols (keys p.fields)
    → set_cells schema time_idx i p cols row ≡ ok q
    → Extends schema cols p q
unfolding set_cells
set_cells-Extends schema time_idx i p q [] row timed distinct new_tags new_fields e =
    subst (Extends schema [] p) (ok-injective _ _ e) (same-Extends schema [] p)
set_cells-Extends schema time_idx i p q (c ∷ cols) [] timed distinct new_tags new_fields e =
    subst (Extends schema (c ∷ cols) p) (ok-injective _ _ e) (same-Extends schema (c ∷ cols) p)
set_cells-Extends schema time_idx i p q (c ∷ cols) (v ∷ row) timed distinct new_tags new_fields e =
    let next = λ (p' : Point). set_cells schema time_idx (suc i) p' cols row in
    elim (Bool-cases (i == time_idx)) [
      | inl here ↦ passed-Extends schema c cols p q (
          set_cells-Extends schema time_idx (suc i) p q cols row timed.1 distinct.1 new_tags.1
            new_fields.1
            (sym (ap (λ b. (if b then ok p else set_cell schema p c v) >>= next) here) ∙ e))
      | inr there ↦
          let after : (set_cell schema p c v >>= next) ≡ ok q =
            sym (ap (λ b. (if b then ok p else set_cell schema p c v) >>= next) there) ∙ e in
          let (p', got, rest) = >>=-eq-ok (set_cell schema p c v) next q after in
          cell-Extends schema c cols p p' q (sym timed.0 ∙ there)
            (set_cell-Cell schema c p p' v got) distinct.0 new_tags new_fields
            (λ nt nf.
              set_cells-Extends schema time_idx (suc i) p' q cols row timed.1 distinct.1 nt nf rest)
    ]
