-- ===== src/Influx/Rows.antt =====
-- internal/influx/client.go, seriesToPoints: the points of the rows of a series. A JSON number is
-- what its Int64 and Float64 give; a value that a conversion does not read counts as 0 or false.
pub mod Parts
pub mod Cells
pub mod Adding
pub mod Columns
pub mod Order
mod Runs
use influx_sync.Base.{
  ℕ, zero, suc, ◌+◌, Bool, true, false, not, ◌&&◌, ◌||◌, Option, none, some, List, [], ◌∷◌, ltb,
  ◌==◌, if◌then◌else◌, length, lookup, store, Result, ok, err, ◌>>=◌,
}
use influx_sync.Model.Rendering.{
  Bytes, Point, FieldValue, float, int64, text, bool, same, sort_strings, set_key_order,
}
use influx_sync.Influx.Schema.{Schema}

-- A number, with whether Int64 and Float64 can read it, and with the float as an int64.
pub record Number : Type 0 where
  pub int : Option ℕ
  pub readable : Bool
  pub odd : Bool
  pub shown : Bytes
  pub whole : ℕ

pub data Json : Type 0 where
  null : Json
  number : Number → Json
  string : Bytes → Json
  boolean : Bool → Json
  nested : Json

pub data RowError : Type 0 where
  no_time_column row_mismatch bad_timestamp tag_not_string unsupported_value row_without_fields :
      RowError
  -- A failed type assertion, which stops the program.
  not_a_string : RowError

abbrev pub time_column : Bytes
time_column = 116 ∷ 105 ∷ 109 ∷ 101 ∷ []

abbrev pub integer_type : Bytes
integer_type = 105 ∷ 110 ∷ 116 ∷ 101 ∷ 103 ∷ 101 ∷ 114 ∷ []

abbrev pub float_type : Bytes
float_type = 102 ∷ 108 ∷ 111 ∷ 97 ∷ 116 ∷ []

abbrev pub boolean_type : Bytes
boolean_type = 98 ∷ 111 ∷ 111 ∷ 108 ∷ 101 ∷ 97 ∷ 110 ∷ []

abbrev pub string_type : Bytes
string_type = 115 ∷ 116 ∷ 114 ∷ 105 ∷ 110 ∷ 103 ∷ []

abbrev pub true_text : Bytes
true_text = 116 ∷ 114 ∷ 117 ∷ 101 ∷ []

unfoldable pub int_or_whole : Option ℕ → ℕ → ℕ
int_or_whole none whole = whole
int_or_whole (some n) whole = n

unfoldable pub int_or_readable : Number → Option ℕ → Option ℕ
int_or_readable n (some k) = some k
int_or_readable n none = if n.readable then some n.whole else none

unfoldable pub ts_to_int64 : Json → Option ℕ
unfolding int_or_readable
ts_to_int64 (number n) = int_or_readable n n.int
ts_to_int64 v = none

unfoldable pub to_int64 : Json → ℕ
unfolding int_or_whole
to_int64 (number n) = int_or_whole n.int n.whole
to_int64 v = 0

unfoldable pub to_float64 : Json → FieldValue
to_float64 (number n) = float n.odd n.shown
to_float64 v = float false (48 ∷ [])

unfoldable pub to_bool : Json → Bool
to_bool (boolean b) = b
to_bool (string s) = same s true_text
to_bool v = false

-- schema.tags[col], where there is a schema.
unfoldable pub has_tag : Option Bool → Bool
has_tag none = false
has_tag (some b) = b

unfoldable pub is_tag : Option Schema → Bytes → Bool
unfolding has_tag
is_tag none col = false
is_tag (some e) col = has_tag (lookup same col e.tags)

unfoldable pub type_of : Option Schema → Bytes → Option Bytes
type_of none col = none
type_of (some e) col = lookup same col e.field_types

unfoldable pub set_field : Point → Bytes → FieldValue → Point
set_field p col v = record p { fields = store same col v p.fields }

unfoldable pub set_tag : Point → Bytes → Json → Result RowError Point
set_tag p col (string s) = ok (record p { tags = store same col s p.tags })
set_tag p col v = err tag_not_string

unfoldable pub set_string : Point → Bytes → Json → Result RowError Point
unfolding set_field
set_string p col (string s) = ok (set_field p col (text s))
set_string p col v = err not_a_string

-- A field of a known type. A type of another name leaves the field out.
unfoldable pub set_typed : Point → Bytes → Bytes → Json → Result RowError Point
unfolding set_field set_string
set_typed p col ft v =
    if same ft integer_type
    then ok (set_field p col (int64 (to_int64 v)))
    else if same ft float_type
    then ok (set_field p col (to_float64 v))
    else if same ft boolean_type
    then ok (set_field p col (bool (to_bool v)))
    else if same ft string_type
    then set_string p col v
    else ok p

unfoldable pub set_number : Point → Bytes → Number → Option ℕ → Point
unfolding set_field
set_number p col n (some k) = set_field p col (int64 k)
set_number p col n none = if n.readable then set_field p col (float n.odd n.shown) else p

-- A field of no known type, by its value.
unfoldable pub set_untyped : Point → Bytes → Json → Result RowError Point
unfolding set_field set_number
set_untyped p col (number n) = ok (set_number p col n n.int)
set_untyped p col (boolean b) = ok (set_field p col (bool b))
set_untyped p col (string s) = ok (set_field p col (text s))
set_untyped p col v = err unsupported_value

unfoldable pub set_known : Point → Bytes → Json → Option Bytes → Result RowError Point
set_known p col v none = set_untyped p col v
set_known p col v (some ft) = set_typed p col ft v

unfoldable pub set_cell : Option Schema → Point → Bytes → Json → Result RowError Point
unfolding set_known
set_cell schema p col null = ok p
set_cell schema p col v =
    if is_tag schema col then set_tag p col v else set_known p col v (type_of schema col)

-- The loop over the columns of a row, at the column `i`.
unfoldable pub set_cells :
    Option Schema → ℕ → ℕ → Point → List Bytes → List Json → Result RowError Point
set_cells schema time_idx i p [] row = ok p
set_cells schema time_idx i p (col ∷ cols) [] = ok p
set_cells schema time_idx i p (col ∷ cols) (v ∷ row) =
    (if i == time_idx then ok p else set_cell schema p col v) >>= λ q.
    set_cells schema time_idx (suc i) q cols row

-- The first column that is named "time".
unfoldable pub time_index : ℕ → List Bytes → Option ℕ
time_index i [] = none
time_index i (c ∷ cols) =
    let rest = time_index (suc i) cols in if same c time_column then some i else rest

unfoldable pub columns_where : (Bytes → Bool) → List Bytes → List Bytes
columns_where wanted [] = []
columns_where wanted (c ∷ cols) =
    let rest = columns_where wanted cols in
    if not (same c time_column) && wanted c then c ∷ rest else rest

unfoldable pub value_at : ℕ → List Json → Json
value_at i [] = null
value_at zero (v ∷ row) = v
value_at (suc i) (v ∷ row) = value_at i row

unfoldable pub with_order : List Bytes → List Bytes → Point → Result RowError Point
with_order tag_cols field_cols p =
    if length p.fields == 0
    then err row_without_fields
    else ok (set_key_order p tag_cols field_cols)

unfoldable pub with_time : Option ℕ → (ℕ → Result RowError Point) → Result RowError Point
with_time none next = err bad_timestamp
with_time (some ts) next = next ts

unfoldable pub row_to_point :
    Bytes
    → List Bytes
    → Option Schema
    → ℕ
    → List Bytes
    → List Bytes
    → List Json
    → Result RowError Point
unfolding with_time with_order
row_to_point name columns schema time_idx tag_cols field_cols row =
    if not (length row == length columns)
    then err row_mismatch
    else with_time (ts_to_int64 (value_at time_idx row)) (λ ts.
      set_cells schema time_idx 0
        (record {
          measurement = name;
          tags = [];
          fields = [];
          timestamp = ts;
          tag_keys = [];
          field_keys = [];
        })
        columns row
      >>= λ p. with_order tag_cols field_cols p)

unfoldable pub rows_to_points :
    (List Json → Result RowError Point) → List (List Json) → Result RowError (List Point)
rows_to_points one [] = ok []
rows_to_points one (row ∷ rows) = one row >>= λ p. rows_to_points one rows >>= λ ps. ok (p ∷ ps)

unfoldable pub with_index :
    Option ℕ → (ℕ → Result RowError (List Point)) → Result RowError (List Point)
with_index none next = err no_time_column
with_index (some i) next = next i

unfoldable pub series_to_points :
    Bytes → List Bytes → List (List Json) → Option Schema → Result RowError (List Point)
unfolding with_index
series_to_points name [] rows schema = ok []
series_to_points name (c ∷ cols) rows schema =
    let columns = c ∷ cols in
    with_index (time_index 0 columns) (λ time_idx.
      rows_to_points
        (row_to_point name columns schema time_idx
          (sort_strings (columns_where (is_tag schema) columns))
          (sort_strings (columns_where (λ col. not (is_tag schema col)) columns)))
        rows)
