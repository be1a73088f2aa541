-- ===== src/Model/Parsing.antt =====
-- internal/model/lineparse.go: ParseLine, its helpers and the series keys. A loop with an index is a
-- recursion on the rest of the bytes, with the flags that the loop keeps.
use influx_sync.Base.{
  ℕ, ◌+◌, ◌-◌, ◌*◌, ◌^◌, Bool, true, false, not, ◌&&◌, ◌||◌, Option, none, some, List, [], ◌∷◌, ltb,
  leb, ◌==◌, if◌then◌else◌, take, drop,
}

-- The bytes \ " , space = carriage return and : |
abbrev pub backslash : ℕ
backslash = 92

abbrev pub quote : ℕ
quote = 34

abbrev pub comma : ℕ
comma = 44

abbrev pub space : ℕ
space = 32

abbrev pub equals : ℕ
equals = 61

abbrev pub return : ℕ
return = 13

unfoldable pub push_unless : Bool → ℕ → List ℕ → List ℕ
push_unless true c rest = rest
push_unless false c rest = c ∷ rest

unfoldable pub is_nil : List ℕ → Bool
is_nil [] = true
is_nil (c ∷ rest) = false

-- The line without the carriage returns at its end.
unfoldable pub trim_returns : List ℕ → List ℕ
unfolding push_unless is_nil
trim_returns [] = []
trim_returns (c ∷ rest) =
    let more = trim_returns rest in push_unless (is_nil more && (c == return)) c more

push_if : Bool → ℕ → List ℕ → List ℕ
push_if true i is = i ∷ is
push_if false i is = is

-- The places from `i` on of the spaces that are neither escaped nor in quotes.
unfoldable pub spaces : ℕ → Bool → Bool → List ℕ → List ℕ
unfolding push_if
spaces i escaped quoted [] = []
spaces i escaped quoted (c ∷ rest) =
    let free = not escaped in
    push_if (free && not quoted && (c == space)) i (
      spaces (i + 1) (free && (c == backslash))
        (if free && (c == quote) then not quoted else quoted) rest)

-- The last of a list of places.
last_of : ℕ → List ℕ → ℕ
last_of i [] = i
last_of i (j ∷ js) = last_of j js

unfoldable pub last_place : List ℕ → Option ℕ
unfolding last_of
last_place [] = none
last_place (i ∷ is) = some (last_of i is)

unfoldable pub all_digits : List ℕ → Bool
all_digits [] = true
all_digits (c ∷ rest) = leb 48 c && leb c 57 && all_digits rest

unfoldable pub digits_value : ℕ → List ℕ → ℕ
digits_value acc [] = acc
digits_value acc (c ∷ rest) = digits_value (acc * 10 + (c - 48)) rest

-- The timestamp: digits only, at least one, and strconv.ParseInt in the range of int64.
unfoldable pub parse_timestamp : List ℕ → Option ℕ
unfolding is_nil
parse_timestamp tok =
    if is_nil tok || not (all_digits tok)
    then none
    else if ltb (digits_value 0 tok) (2 ^ 63)
    then some (digits_value 0 tok)
    else none

-- What stands before the first unescaped byte that `stop` accepts, and what stands from it on.
unfoldable pub split_at : (ℕ → Bool) → Bool → List ℕ → List ℕ × List ℕ
split_at stop escaped [] = ([], [])
split_at stop escaped (c ∷ rest) =
    let p = split_at stop (not escaped && (c == backslash)) rest in
    if not escaped && stop c then ([], c ∷ rest) else (c ∷ p.0, p.1)

-- A backslash before another byte goes; the last byte stays.
unfoldable pub unescape_from : Bool → List ℕ → List ℕ
unfolding push_unless
unescape_from true [] = backslash ∷ []
unescape_from false [] = []
unescape_from true (c ∷ rest) = c ∷ unescape_from false rest
unescape_from false (c ∷ rest) =
    push_unless (c == backslash) c (unescape_from (c == backslash) rest)

unfoldable pub unescape : List ℕ → List ℕ
unescape s = unescape_from false s

unfoldable pub push_segment : ℕ → List (List ℕ) → List (List ℕ)
push_segment c [] = (c ∷ []) ∷ []
push_segment c (s ∷ segments) = (c ∷ s) ∷ segments

-- The pieces between unescaped commas.
unfoldable pub segments : Bool → List ℕ → List (List ℕ)
unfolding push_segment
segments escaped [] = [] ∷ []
segments escaped (c ∷ rest) =
    let more = segments (not escaped && (c == backslash)) rest in
    if not escaped && (c == comma) then [] ∷ more else push_segment c more

-- splitTagKV behind its search: the first unescaped = is neither the first byte nor the last.
unfoldable pub key_value : List ℕ × List ℕ → Option (List ℕ × List ℕ)
key_value ([], rest) = none
key_value (c ∷ key, []) = none
key_value (c ∷ key, e ∷ []) = none
key_value (c ∷ key, e ∷ (v ∷ value)) = some (c ∷ key, v ∷ value)

unfoldable pub split_tag : List ℕ → Option (List ℕ × List ℕ)
unfolding key_value
split_tag kv = key_value (split_at (λ c. c == equals) false kv)

unfoldable pub add_tag :
    Option (List ℕ × List ℕ) → Option (List (List ℕ × List ℕ)) → Option (List (List ℕ × List ℕ))
add_tag (some (k, v)) (some pairs) = some ((unescape k, unescape v) ∷ pairs)
add_tag (some kv) none = none
add_tag none pairs = none

-- The tags of the pieces; empty pieces are passed over, and one that is no tag fails the line.
unfoldable pub tag_pairs : List (List ℕ) → Option (List (List ℕ × List ℕ))
unfolding is_nil add_tag
tag_pairs [] = some []
tag_pairs (s ∷ rest) =
    let more = tag_pairs rest in if is_nil s then more else add_tag (split_tag s) more

pub record Line : Type 0 where
  pub measurement : List ℕ
  pub tags : List (List ℕ × List ℕ)
  pub timestamp : ℕ

unfoldable pub some_tags : List ℕ → ℕ → Option (List (List ℕ × List ℕ)) → Option Line
some_tags meas ts none = none
some_tags meas ts (some []) = none
some_tags meas ts (some (t ∷ tags)) =
    some (record { measurement = meas; tags = t ∷ tags; timestamp = ts })

-- The tag section, from the byte behind the measurement up to the first unescaped space.
unfoldable pub with_section : List ℕ → ℕ → List ℕ → Option Line
unfolding some_tags
with_section meas ts [] = some (record { measurement = meas; tags = []; timestamp = ts })
with_section meas ts (c ∷ []) =
    if c == comma then some (record { measurement = meas; tags = []; timestamp = ts }) else none
with_section meas ts (c ∷ (d ∷ section)) =
    if c == comma then some_tags meas ts (tag_pairs (segments false (d ∷ section))) else none

unfoldable pub with_measurement : ℕ → List ℕ × List ℕ → Option Line
unfolding is_nil with_section
with_measurement ts (before, rest) =
    if is_nil (unescape before)
    then none
    else with_section (unescape before) ts (split_at (λ c. c == space) false rest).0

abbrev pub ends_measurement : ℕ → Bool
ends_measurement c = (c == comma) || (c == space)

unfoldable pub with_timestamp : List ℕ → Option ℕ → Option Line
unfolding with_measurement
with_timestamp prefix none = none
with_timestamp prefix (some ts) = with_measurement ts (split_at ends_measurement false prefix)

unfoldable pub at_last_space : List ℕ → Option ℕ → Option Line
unfolding with_timestamp
at_last_space line none = none
at_last_space line (some i) = with_timestamp (take i line) (parse_timestamp (drop (i + 1) line))

unfoldable pub parse_line : List ℕ → Option Line
unfolding at_last_space
parse_line line =
    let trimmed = trim_returns line in
    at_last_space trimmed (last_place (spaces 0 false false trimmed))
