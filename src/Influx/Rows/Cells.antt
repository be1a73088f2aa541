-- ===== src/Influx/Rows/Cells.antt =====
-- internal/influx/client.go, seriesToPoints: what one cell of a row does to its point.
use influx_sync.Base.{
  ℕ, ◌≡◌, true, false, Option, none, some, if◌then◌else◌, if_both, store, Result, ok, err≢ok,
  ok-injective,
}
use mathlib.Core.Path.{subst}
use influx_sync.Model.Rendering.{Bytes, Point, FieldValue, same}
use influx_sync.Influx.Schema.{Schema}
use influx_sync.Influx.Rows.{
  Number, Json, null, number, string, boolean, nested, RowError, is_tag, type_of, set_field,
  set_tag, set_string, set_typed, set_number, set_untyped, set_known, set_cell,
}

-- What a cell does to a point.
pub data Cell (schema : Option Schema) (col : Bytes) (p : Point) : Point → Type 0 where
  left : Cell schema col p p
  tag :
      (s : Bytes)
      → is_tag schema col ≡ true
      → Cell schema col p (record p { tags = store same col s p.tags })
  field :
      (v : FieldValue)
      → is_tag schema col ≡ false
      → Cell schema col p (record p { fields = store same col v p.fields })

to_cell :
    (schema : Option Schema) (col : Bytes) (p p' q : Point)
    → Cell schema col p p'
    → ◌≡◌ {A = Result RowError Point} (ok p') (ok q)
    → Cell schema col p q
to_cell schema col p p' q c e = subst (Cell schema col p) (ok-injective _ _ e) c

set_tag-Cell :
    (schema : Option Schema) (col : Bytes) (p q : Point) (v : Json)
    → is_tag schema col ≡ true
    → set_tag p col v ≡ ok q
    → Cell schema col p q
unfolding set_tag
set_tag-Cell schema col p q (string s) is e = to_cell schema col p _ q (tag s is) e
set_tag-Cell schema col p q null is e = absurd (err≢ok _ _ e)
set_tag-Cell schema col p q (number n) is e = absurd (err≢ok _ _ e)
set_tag-Cell schema col p q (boolean b) is e = absurd (err≢ok _ _ e)
set_tag-Cell schema col p q nested is e = absurd (err≢ok _ _ e)

set_string-Cell :
    (schema : Option Schema) (col : Bytes) (p q : Point) (v : Json)
    → is_tag schema col ≡ false
    → set_string p col v ≡ ok q
    → Cell schema col p q
unfolding set_string set_field
set_string-Cell schema col p q (string s) is e = to_cell schema col p _ q (field _ is) e
set_string-Cell schema col p q null is e = absurd (err≢ok _ _ e)
set_string-Cell schema col p q (number n) is e = absurd (err≢ok _ _ e)
set_string-Cell schema col p q (boolean b) is e = absurd (err≢ok _ _ e)
set_string-Cell schema col p q nested is e = absurd (err≢ok _ _ e)

set_typed-Cell :
    (schema : Option Schema) (col : Bytes) (p q : Point) (ft : Bytes) (v : Json)
    → is_tag schema col ≡ false
    → set_typed p col ft v ≡ ok q
    → Cell schema col p q
unfolding set_typed set_field
set_typed-Cell schema col p q ft v is =
    let P = λ (r : Result RowError Point). r ≡ ok q → Cell schema col p q in
    if_both P (same ft _) _ _ (λ h e. to_cell schema col p _ q (field _ is) e)
      (λ h.
        if_both P (same ft _) _ _ (λ h e. to_cell schema col p _ q (field _ is) e)
          (λ h.
            if_both P (same ft _) _ _ (λ h e. to_cell schema col p _ q (field _ is) e)
              (λ h.
                if_both P (same ft _) _ _ (λ h e. set_string-Cell schema col p q v is e)
                  (λ h e. to_cell schema col p _ q left e))))

set_number-Cell :
    (schema : Option Schema) (col : Bytes) (p : Point) (n : Number) (i : Option ℕ)
    → is_tag schema col ≡ false
    → Cell schema col p (set_number p col n i)
unfolding set_number set_field
set_number-Cell schema col p n (some k) is = field _ is
set_number-Cell schema col p n none is =
    if_both (Cell schema col p) n.readable _ _ (λ h. field _ is) (λ h. left)

set_untyped-Cell :
    (schema : Option Schema) (col : Bytes) (p q : Point) (v : Json)
    → is_tag schema col ≡ false
    → set_untyped p col v ≡ ok q
    → Cell schema col p q
unfolding set_untyped set_field
set_untyped-Cell schema col p q (number n) is e =
    to_cell schema col p _ q (set_number-Cell schema col p n n.int is) e
set_untyped-Cell schema col p q (boolean b) is e = to_cell schema col p _ q (field _ is) e
set_untyped-Cell schema col p q (string s) is e = to_cell schema col p _ q (field _ is) e
set_untyped-Cell schema col p q null is e = absurd (err≢ok _ _ e)
set_untyped-Cell schema col p q nested is e = absurd (err≢ok _ _ e)

set_known-Cell :
    (schema : Option Schema) (col : Bytes) (p q : Point) (v : Json) (ft : Option Bytes)
    → is_tag schema col ≡ false
    → set_known p col v ft ≡ ok q
    → Cell schema col p q
unfolding set_known
set_known-Cell schema col p q v none is e = set_untyped-Cell schema col p q v is e
set_known-Cell schema col p q v (some ft) is e = set_typed-Cell schema col p q ft v is e

value-Cell :
    (schema : Option Schema) (col : Bytes) (p q : Point) (v : Json)
    → (if is_tag schema col then set_tag p col v else set_known p col v (type_of schema col)) ≡ ok q
    → Cell schema col p q
value-Cell schema col p q v =
    if_both (λ (r : Result RowError Point). r ≡ ok q → Cell schema col p q) (is_tag schema col) _ _
      (λ is e. set_tag-Cell schema col p q v is e)
      (λ is e. set_known-Cell schema col p q v (type_of schema col) is e)

pub set_cell-Cell :
    (schema : Option Schema) (col : Bytes) (p q : Point) (v : Json)
    → set_cell schema p col v ≡ ok q
    → Cell schema col p q
unfolding set_cell
set_cell-Cell schema col p q null e = to_cell schema col p p q left e
set_cell-Cell schema col p q (number n) e = value-Cell schema col p q (number n) e
set_cell-Cell schema col p q (string s) e = value-Cell schema col p q (string s) e
set_cell-Cell schema col p q (boolean b) e = value-Cell schema col p q (boolean b) e
set_cell-Cell schema col p q nested e = value-Cell schema col p q nested e
