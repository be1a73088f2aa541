-- ===== src/Model/Rendering.antt =====
-- internal/model/point.go: the line protocol of a point, and the keys of points and series
-- (appendSeriesKey of lineparse.go). A Go map is a list of its entries; a string is its bytes.
use influx_sync.Base.{
  ℕ, zero, suc, ◌+◌, ◌-◌, ◌/◌, ◌%◌, ◌^◌, Bool, true, false, ◌&&◌, ◌||◌, List, [], ◌∷◌, ◌++◌, ltb,
  ◌==◌, if◌then◌else◌, length, Result, ok, err, ◌>>=◌,
}
use influx_sync.Model.Parsing.{backslash, quote, comma, space, equals}

abbrev pub Bytes : Type 0
Bytes = List ℕ

unfoldable pub digits : ℕ → ℕ → Bytes
digits zero n = []
digits (suc fuel) n =
    let more = digits fuel (n / 10) in
    if ltb n 10 then (48 + n) ∷ [] else more ++ ((48 + n % 10) ∷ [])

-- strconv.AppendInt of an int64 that is not negative: at most 19 digits.
unfoldable pub decimal : ℕ → Bytes
decimal n = digits 20 n

-- strconv.AppendInt, of an int64 by its bit pattern.
unfoldable pub decimal_int64 : ℕ → Bytes
decimal_int64 n = if ltb n (2 ^ 63) then decimal n else 45 ∷ decimal (2 ^ 64 - n)

-- Go's < of strings.
unfoldable pub before : Bytes → Bytes → Bool
before s [] = false
before [] (d ∷ t) = true
before (c ∷ s) (d ∷ t) = let rest = before s t in if c == d then rest else ltb c d

unfoldable pub same : Bytes → Bytes → Bool
same [] [] = true
same [] (d ∷ t) = false
same (c ∷ s) [] = false
same (c ∷ s) (d ∷ t) = (c == d) && same s t

unfoldable pub insert_sorted : Bytes → List Bytes → List Bytes
insert_sorted s [] = s ∷ []
insert_sorted s (t ∷ rest) =
    let more = insert_sorted s rest in if before t s then t ∷ more else s ∷ (t ∷ rest)

-- sort.Strings
unfoldable pub sort_strings : List Bytes → List Bytes
sort_strings [] = []
sort_strings (s ∷ rest) = insert_sorted s (sort_strings rest)

abbrev pub keys {ℓ} : {A : Type ℓ} → List (Bytes × A) → List Bytes
keys [] = []
keys ((k, v) ∷ rest) = k ∷ keys rest

-- m[k], and "" for a missing key
unfoldable pub value_of : Bytes → List (Bytes × Bytes) → Bytes
value_of k [] = []
value_of k ((j, v) ∷ rest) = let more = value_of k rest in if same j k then v else more

-- m[k] = v
unfoldable pub put : Bytes → Bytes → List (Bytes × Bytes) → List (Bytes × Bytes)
put k v [] = (k, v) ∷ []
put k v ((j, w) ∷ rest) =
    let more = put k v rest in if same j k then (j, v) ∷ rest else (j, w) ∷ more

unfoldable pub put_all : List (Bytes × Bytes) → List (Bytes × Bytes) → List (Bytes × Bytes)
put_all [] m = m
put_all ((k, v) ∷ rest) m = put_all rest (put k v m)

unfoldable pub len_prefix : Bytes → Bytes
len_prefix s = decimal (length s) ++ (58 ∷ s)

unfoldable pub key_tags : (Bytes → Bytes) → List Bytes → Bytes
key_tags val [] = []
key_tags val (k ∷ rest) =
    len_prefix k ++ (equals ∷ (len_prefix (val k) ++ (124 ∷ key_tags val rest)))

-- appendSeriesKey
unfoldable pub series_text : Bytes → List Bytes → (Bytes → Bytes) → Bytes
series_text meas sorted val = len_prefix meas ++ (124 ∷ key_tags val sorted)

unfoldable pub series_key : Bytes → List (Bytes × Bytes) → Bytes
series_key meas tags = series_text meas (sort_strings (keys tags)) (λ k. value_of k tags)

unfoldable pub series_key_from_pairs : Bytes → List (Bytes × Bytes) → Bytes
series_key_from_pairs meas pairs =
    series_text meas (sort_strings (keys pairs)) (λ k. value_of k (put_all pairs []))

-- `float` carries whether it is NaN or infinite, and its shortest text.
pub data FieldValue : Type 0 where
  float : Bool → Bytes → FieldValue
  int64 : ℕ → FieldValue
  text : Bytes → FieldValue
  bool : Bool → FieldValue
  unsupported : FieldValue

pub record Point : Type 0 where
  pub measurement : Bytes
  pub tags : List (Bytes × Bytes)
  pub fields : List (Bytes × FieldValue)
  pub timestamp : ℕ
  pub tag_keys : List Bytes
  pub field_keys : List Bytes

pub data RenderError : Type 0 where
  no_fields skip_point nan_field unsupported_field : RenderError

-- SetKeyOrder: an order of another length is ignored.
unfoldable pub set_key_order : Point → List Bytes → List Bytes → Point
set_key_order p tag_keys field_keys = record p {
  tag_keys = (if length tag_keys == length p.tags then tag_keys else p.tag_keys);
  field_keys = (if length field_keys == length p.fields then field_keys else p.field_keys);
}

unfoldable pub sorted_tag_keys : Point → List Bytes
sorted_tag_keys p =
    if length p.tag_keys == length p.tags then p.tag_keys else sort_strings (keys p.tags)

unfoldable pub sorted_field_keys : Point → List Bytes
sorted_field_keys p =
    if length p.field_keys == length p.fields then p.field_keys else sort_strings (keys p.fields)

-- Point.Key
unfoldable pub point_key : Point → Bytes
point_key p =
    series_text p.measurement (sorted_tag_keys p) (λ k. value_of k p.tags)
    ++ decimal_int64 p.timestamp

-- A backslash before each byte that `special` accepts.
unfoldable pub escape : (ℕ → Bool) → Bytes → Bytes
escape special [] = []
escape special (c ∷ rest) =
    let more = escape special rest in if special c then backslash ∷ (c ∷ more) else c ∷ more

abbrev pub in_measurement : ℕ → Bool
in_measurement c = (c == comma) || (c == space)

abbrev pub in_tag : ℕ → Bool
in_tag c = (c == comma) || ((c == equals) || (c == space))

abbrev pub in_string : ℕ → Bool
in_string c = (c == backslash) || (c == quote)

unfoldable pub render_tags : (Bytes → Bytes) → List Bytes → Bytes
render_tags val [] = []
render_tags val (k ∷ rest) =
    comma ∷ (escape in_tag k ++ (equals ∷ (escape in_tag (val k) ++ render_tags val rest)))

unfoldable pub render_value : FieldValue → Result RenderError Bytes
render_value (float true shown) = err nan_field
render_value (float false shown) = ok shown
render_value (int64 n) = ok (decimal_int64 n ++ (105 ∷ []))
render_value (text s) = ok (quote ∷ (escape in_string s ++ (quote ∷ [])))
render_value (bool true) = ok (116 ∷ 114 ∷ 117 ∷ 101 ∷ [])
render_value (bool false) = ok (102 ∷ 97 ∷ 108 ∷ 115 ∷ 101 ∷ [])
render_value unsupported = err unsupported_field

unfoldable pub is_nan_or_inf : FieldValue → Bool
is_nan_or_inf (float odd shown) = odd
is_nan_or_inf v = false

unfoldable pub field_of : Bytes → List (Bytes × FieldValue) → FieldValue
field_of k [] = unsupported
field_of k ((j, v) ∷ rest) = let more = field_of k rest in if same j k then v else more

-- The fields that are no NaN and not infinite; `first` tells whether none has been written yet.
unfoldable pub render_fields : (Bytes → FieldValue) → Bool → List Bytes → Result RenderError Bytes
render_fields val true [] = err skip_point
render_fields val false [] = ok []
render_fields val first (k ∷ rest) =
    let skipped = render_fields val first rest in
    let written = render_value (val k) >>= λ shown. render_fields val false rest >>= λ more.
    ok ((if first then [] else comma ∷ []) ++ (escape in_tag k ++ (equals ∷ (shown ++ more)))) in
    if is_nan_or_inf (val k) then skipped else written

unfoldable pub line_protocol : Point → Result RenderError Bytes
line_protocol p =
    if length p.fields == 0
    then err no_fields
    else (render_fields (λ k. field_of k p.fields) true (sorted_field_keys p) >>= λ fields. ok (
        escape in_measurement p.measurement
        ++ (render_tags (λ k. value_of k p.tags) (sorted_tag_keys p)
            ++ (space ∷ (fields ++ (space ∷ decimal_int64 p.timestamp))))))

-- LinesToProtocolBytes: a point without a usable field is passed over, any other error ends it.
add_line : Result RenderError Bytes → Result RenderError Bytes → Result RenderError Bytes
add_line (ok line) (ok more) = ok (line ++ (10 ∷ more))
add_line (ok line) (err e) = err e
add_line (err skip_point) more = more
add_line (err e) more = err e

unfoldable pub lines_to_protocol_bytes : List Point → Result RenderError Bytes
unfolding add_line
lines_to_protocol_bytes [] = ok []
lines_to_protocol_bytes (p ∷ rest) = add_line (line_protocol p) (lines_to_protocol_bytes rest)
