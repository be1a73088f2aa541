-- ===== src/Receiver/Text.antt =====
-- The texts that internal/receiver reads: bytes.TrimSpace, and the status in an error's text.
use influx_sync.Base.{
  ℕ, ◌+◌, ◌-◌, ◌*◌, ◌^◌, ◌≡◌, refl, Bool, true, false, ◌&&◌, ◌||◌, Option, none, some, List, [],
  ◌∷◌, ltb, leb, ◌==◌, if◌then◌else◌,
}
use Prim.Native.Char.{code}
use Prim.Native.String.{String}

abbrev pub codes : String → List ℕ
codes String.[] = []
codes (String.◌∷◌ c s) = code c ∷ codes s

-- unicode.IsSpace of the one-, two- and three-byte encodings.
is_space : ℕ → Bool
is_space b = (leb 9 b && leb b 13) || b == 32

is_space2 : ℕ → ℕ → Bool
is_space2 a b = a == 0xc2 && (b == 0x85 || b == 0xa0)

is_space3 : ℕ → ℕ → ℕ → Bool
is_space3 a b c =
    (a == 0xe1 && b == 0x9a && c == 0x80)
    || (a == 0xe2
        && b == 0x80
        && ((leb 0x80 c && leb c 0x8a) || c == 0xa8 || c == 0xa9 || c == 0xaf))
    || (a == 0xe2 && b == 0x81 && c == 0x9f)
    || (a == 0xe3 && b == 0x80 && c == 0x80)

-- len(bytes.TrimSpace(raw)) == 0
unfoldable pub is_blank : List ℕ → Bool
unfolding is_space is_space2 is_space3
is_blank [] = true
is_blank (a ∷ []) = is_space a
is_blank (a ∷ b ∷ []) = if is_space a then is_space b else is_space2 a b
is_blank (a ∷ b ∷ c ∷ rest) =
    let one = is_blank (b ∷ c ∷ rest) in
    let two = is_blank (c ∷ rest) in
    let three = is_blank rest in
    if is_space a
    then one
    else if is_space2 a b
    then two
    else if is_space3 a b c
    then three
    else false

-- What follows the text `p` at the front, if it stands there.
after_prefix : List ℕ → List ℕ → Option (List ℕ)
after_prefix [] s = some s
after_prefix (p ∷ ps) [] = none
after_prefix (p ∷ ps) (c ∷ cs) = if p == c then after_prefix ps cs else none

-- strings.Index, with what follows the first occurrence
after_index : List ℕ → List ℕ → Option (List ℕ)
unfolding after_prefix
after_index p [] = after_prefix p []
after_index p (c ∷ cs) =
    let later = after_index p cs in
    elim (after_prefix p (c ∷ cs)) [ some rest ↦ some rest | none ↦ later ]

is_digit : ℕ → Bool
is_digit c = leb b'0' c && leb c b'9'

digits : ℕ → List ℕ → ℕ
unfolding is_digit
digits n [] = n
digits n (c ∷ cs) = let more = digits (n * 10 + (c - b'0')) cs in if is_digit c then more else n

-- A number needs a digit and must fit an int.
scan_unsigned : List ℕ → Option ℕ
unfolding digits
scan_unsigned [] = none
scan_unsigned (c ∷ cs) =
    if is_digit c
    then (let n = digits 0 (c ∷ cs) in if ltb n (2 ^ 63) then some n else none)
    else none

-- fmt.Sscanf(rest, "%d", &code). A negative number counts as none: no class holds it.
scan_int : List ℕ → Option ℕ
unfolding scan_unsigned
scan_int [] = none
scan_int (c ∷ cs) =
    let later = scan_int cs in
    if c == 32 || c == 9 || c == 13
    then later
    else if c == b'+'
    then scan_unsigned cs
    else scan_unsigned (c ∷ cs)

scan_after : Option (List ℕ) → Option ℕ
unfolding scan_int
scan_after none = none
scan_after (some rest) = scan_int rest

-- The status of an error text of the form "influx: write http 400: ...".
unfoldable pub legacy_status : List ℕ → Option ℕ
unfolding after_index scan_after
legacy_status text = scan_after (after_index (codes "write http ") text)

legacy_400 : legacy_status (codes "influx: write http 400: bad") ≡ some 400
unfolding legacy_status
legacy_400 = refl

legacy_none : legacy_status (codes "dial tcp: timeout") ≡ none
unfolding legacy_status
legacy_none = refl

blank_lines : is_blank (codes " \n\t\r") ≡ true
unfolding is_blank
blank_lines = refl
