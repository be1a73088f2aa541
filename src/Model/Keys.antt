-- ===== src/Model/Keys.antt =====
-- internal/model: a key determines the strings that it is built from.
use influx_sync.Base.{
  ℕ, ◌-◌, ◌^◌, ◌<◌, ◌≡◌, ◌≢◌, refl, ap, sym, ◌∙◌, Bool, true, false, ◌&&◌, ◌||◌, ◌==◌, List, [],
  ◌∷◌, ◌++◌, map, append_assoc, append-nil, leb, ltb, length, All, arith, Bool-cases, inl, inr,
}
use mathlib.Core.Bool.{false≢true}
use mathlib.Core.List.{head-eq_of_cons-eq, tail-eq_of_cons-eq}
use influx_sync.Model.Parsing.{all_digits, digits_value, equals}
use influx_sync.Model.Rendering.{
  Bytes, decimal, decimal_int64, len_prefix, key_tags, series_text, Point, sorted_tag_keys,
  value_of, point_key,
}
use influx_sync.Model.Numbers.{all_digits-digits, digits_value-decimal}

first_digit : (c : ℕ) (s : Bytes) → all_digits (c ∷ s) ≡ true → c < 58 × (all_digits s ≡ true)
unfolding all_digits
first_digit c s h = elim (Bool-cases (leb 48 c && leb c 57)) [
  | inl good ↦ (ground (arith, good), simp good at h)
  | inr bad ↦ absurd (false≢true (simp bad at h))
]

-- Digits end at the first byte that is none, here a colon.
split_colon :
    (s t u v : Bytes)
    → all_digits s ≡ true
    → all_digits t ≡ true
    → s ++ (58 ∷ u) ≡ t ++ (58 ∷ v)
    → (s ≡ t) × (u ≡ v)
split_colon [] [] u v hs ht e = (refl, tail-eq_of_cons-eq e)
split_colon [] (d ∷ t) u v hs ht e =
    absurd (omega (arith, head-eq_of_cons-eq e, (first_digit d t ht).0))
split_colon (c ∷ s) [] u v hs ht e =
    absurd (omega (arith, head-eq_of_cons-eq e, (first_digit c s hs).0))
split_colon (c ∷ s) (d ∷ t) u v hs ht e =
    let first = head-eq_of_cons-eq e in
    let (es, eu) =
      split_colon s t u v (first_digit c s hs).1 (first_digit d t ht).1 (tail-eq_of_cons-eq e) in
    (rw (first, es) refl, eu)

-- Strings of one length in front of something.
split_length : (s t u v : Bytes) → length s ≡ length t → s ++ u ≡ t ++ v → (s ≡ t) × (u ≡ v)
split_length [] [] u v l e = (refl, e)
split_length [] (d ∷ t) u v l e = absurd (omega (arith, l))
split_length (c ∷ s) [] u v l e = absurd (omega (arith, l))
split_length (c ∷ s) (d ∷ t) u v l e =
    let (es, eu) = split_length s t u v (omega (arith, l)) (tail-eq_of_cons-eq e) in
    (rw (head-eq_of_cons-eq e, es) refl, eu)

abbrev pub IsShort : Bytes → Type 0
IsShort s = length s < 10 ^ 20

-- A component `len:value` is read off the front of a key in one way.
split_prefix :
    (s t u v : Bytes)
    → IsShort s
    → IsShort t
    → len_prefix s ++ u ≡ len_prefix t ++ v
    → (s ≡ t) × (u ≡ v)
unfolding len_prefix
split_prefix s t u v hs ht e =
    let whole : decimal (length s) ++ (58 ∷ (s ++ u)) ≡ decimal (length t) ++ (58 ∷ (t ++ v)) =
      sym (append_assoc (decimal (length s)) (58 ∷ s) u)
      ∙ e
      ∙ append_assoc (decimal (length t)) (58 ∷ t) v in
    let (same, rest) =
      split_colon (decimal (length s)) (decimal (length t)) (s ++ u) (t ++ v)
        (unfold decimal in all_digits-digits 20 (length s))
        (unfold decimal in all_digits-digits 20 (length t)) whole in
    let lengths : length s ≡ length t =
      sym (digits_value-decimal (length s) hs)
      ∙ ap (digits_value 0) same
      ∙ digits_value-decimal (length t) ht in
    split_length s t u v lengths rest

has_colon : Bytes → Bool
has_colon [] = false
has_colon (c ∷ s) = (c == 58) || has_colon s

has_colon-append : (s u : Bytes) → has_colon u ≡ true → has_colon (s ++ u) ≡ true
unfolding has_colon
has_colon-append [] u h = h
has_colon-append (c ∷ s) u h = ground (arith, has_colon-append s u h)

has_colon-prefix : (s u : Bytes) → has_colon (len_prefix s ++ u) ≡ true
unfolding len_prefix
has_colon-prefix s u =
    rw (append_assoc (decimal (length s)) (58 ∷ s) u)
      (has_colon-append (decimal (length s)) (58 ∷ (s ++ u)) (unfold has_colon in refl))

module _ (val val' : Bytes → Bytes) where
  -- The first tag of a key, and what is behind it.
  key_tags_front :
      (k z : Bytes) (ks : List Bytes) (val : Bytes → Bytes)
      → key_tags val (k ∷ ks) ++ z
        ≡ len_prefix k ++ (equals ∷ (len_prefix (val k) ++ (124 ∷ (key_tags val ks ++ z))))
  unfolding key_tags
  key_tags_front k z ks val =
      append_assoc (len_prefix k) (equals ∷ (len_prefix (val k) ++ (124 ∷ key_tags val ks))) z
      ∙ ap (λ t. len_prefix k ++ (equals ∷ t))
          (append_assoc (len_prefix (val k)) (124 ∷ key_tags val ks) z)

  key_tags-injective :
      (ks ks' : List Bytes) (z z' : Bytes)
      → All (λ k. IsShort k × IsShort (val k)) ks
      → All (λ k. IsShort k × IsShort (val' k)) ks'
      → has_colon z ≡ false
      → has_colon z' ≡ false
      → key_tags val ks ++ z ≡ key_tags val' ks' ++ z'
      → (ks ≡ ks') × (map val ks ≡ map val' ks') × (z ≡ z')
  unfolding key_tags
  key_tags-injective [] [] z z' h h' n n' e = (refl, refl, e)
  key_tags-injective [] (k ∷ ks) z z' h h' n n' e =
      absurd
        (false≢true (sym n ∙ ap has_colon (e ∙ key_tags_front k z' ks val') ∙ has_colon-prefix k _))
  key_tags-injective (k ∷ ks) [] z z' h h' n n' e = absurd (
      false≢true (sym n' ∙ ap has_colon (sym e ∙ key_tags_front k z ks val) ∙ has_colon-prefix k _))
  key_tags-injective (k ∷ ks) (k' ∷ ks') z z' ((hk, hv), h) ((hk', hv'), h') n n' e =
      let (same_k, e1) =
        split_prefix k k' _ _ hk hk'
          (sym (key_tags_front k z ks val) ∙ e ∙ key_tags_front k' z' ks' val') in
      let (same_v, e2) = split_prefix (val k) (val' k') _ _ hv hv' (tail-eq_of_cons-eq e1) in
      let (es, ev, ez) = key_tags-injective ks ks' z z' h h' n n' (tail-eq_of_cons-eq e2) in
      (rw (same_k, es) refl, rw (same_v, ev) refl, ez)

-- The texts of two series with the same key: the measurements, the tag keys and their values are the
-- same. What stands behind them, a timestamp or nothing, has no colon.
series_text_front :
    (meas z : Bytes) (ks : List Bytes) (val : Bytes → Bytes)
    → series_text meas ks val ++ z ≡ len_prefix meas ++ (124 ∷ (key_tags val ks ++ z))
unfolding series_text
series_text_front meas z ks val = append_assoc (len_prefix meas) (124 ∷ key_tags val ks) z

abbrev pub AreShort : (Bytes → Bytes) → List Bytes → Type 0
AreShort val ks = All (λ k. IsShort k × IsShort (val k)) ks

text_tail-injective :
    (meas meas' z z' : Bytes) (ks ks' : List Bytes) (val val' : Bytes → Bytes)
    → IsShort meas
    → IsShort meas'
    → AreShort val ks
    → AreShort val' ks'
    → has_colon z ≡ false
    → has_colon z' ≡ false
    → series_text meas ks val ++ z ≡ series_text meas' ks' val' ++ z'
    → (meas ≡ meas') × (ks ≡ ks') × (map val ks ≡ map val' ks') × (z ≡ z')
text_tail-injective meas meas' z z' ks ks' val val' hm hm' h h' n n' e =
    let (em, rest) =
      split_prefix meas meas' _ _ hm hm'
        (sym (series_text_front meas z ks val) ∙ e ∙ series_text_front meas' z' ks' val') in
    let (ek, ev, ez) =
      key_tags-injective val val' ks ks' z z' h h' n n' (tail-eq_of_cons-eq rest) in
    (em, ek, ev, ez)

-- Two series with the same key text have the same measurement, the same tag keys in the same order
-- and the same tag values: no choice of the strings makes two keys collide. Strings are shorter than
-- 10 ^ 20 bytes.
pub series_text-injective :
    (meas meas' : Bytes) (ks ks' : List Bytes) (val val' : Bytes → Bytes)
    → IsShort meas
    → IsShort meas'
    → AreShort val ks
    → AreShort val' ks'
    → series_text meas ks val ≡ series_text meas' ks' val'
    → (meas ≡ meas') × (ks ≡ ks') × (map val ks ≡ map val' ks')
unfolding has_colon
series_text-injective meas meas' ks ks' val val' hm hm' h h' e =
    let whole : series_text meas ks val ++ [] ≡ series_text meas' ks' val' ++ [] =
      append-nil _ ∙ e ∙ sym (append-nil _) in
    let (em, ek, ev, _) =
      text_tail-injective meas meas' [] [] ks ks' val val' hm hm' h h' refl refl whole in
    (em, ek, ev)

digits-no_colon : (s : Bytes) → all_digits s ≡ true → has_colon s ≡ false
unfolding has_colon
digits-no_colon [] h = refl
digits-no_colon (c ∷ s) h =
    let (small, more) = first_digit c s h in
    let ne : c == 58 ≡ false = ground (arith, small) in rw (ne, digits-no_colon s more)

timestamp-no_colon : (t : ℕ) → has_colon (decimal_int64 t) ≡ false
unfolding decimal_int64 has_colon
timestamp-no_colon t = elim (Bool-cases (ltb t (2 ^ 63))) [
  | inl pos ↦ simp pos (digits-no_colon (decimal t) (unfold decimal in all_digits-digits 20 t))
  | inr neg ↦
      simp neg (
        digits-no_colon (decimal (2 ^ 64 - t))
          (unfold decimal in all_digits-digits 20 (2 ^ 64 - t)))
]

decimal-injective : (n m : ℕ) → n < 10 ^ 20 → m < 10 ^ 20 → decimal n ≡ decimal m → n ≡ m
decimal-injective n m hn hm e =
    sym (digits_value-decimal n hn) ∙ ap (digits_value 0) e ∙ digits_value-decimal m hm

-- A text of digits is no text with a sign.
no_sign : (n : ℕ) (s : Bytes) → decimal n ≢ 45 ∷ s
unfolding decimal all_digits
no_sign n s e = false≢true (sym (ap all_digits e) ∙ all_digits-digits 20 n)

decimal_int64-injective :
    (t u : ℕ) → t < 2 ^ 64 → u < 2 ^ 64 → decimal_int64 t ≡ decimal_int64 u → t ≡ u
unfolding decimal_int64
decimal_int64-injective t u ht hu e = elim (Bool-cases (ltb t (2 ^ 63))) [
  | inl pos ↦ elim (Bool-cases (ltb u (2 ^ 63))) [
    | inl pos' ↦ decimal-injective t u (omega arith) (omega arith) (simp (pos, pos') at e)
    | inr neg' ↦ absurd (no_sign t _ (simp (pos, neg') at e))
  ]
  | inr neg ↦ elim (Bool-cases (ltb u (2 ^ 63))) [
    | inl pos' ↦ absurd (no_sign u _ (sym (simp (neg, pos') at e)))
    | inr neg' ↦
        let back : 2 ^ 64 - t ≡ 2 ^ 64 - u =
          decimal-injective (2 ^ 64 - t) (2 ^ 64 - u) (omega arith) (omega arith)
            (tail-eq_of_cons-eq (simp (neg, neg') at e)) in
        omega (arith, back, ht, hu)
  ]
]

-- Two points with the same Key have the same measurement, the same tag keys and values in their
-- order, and the same timestamp. Strings are shorter than 10 ^ 20 bytes.
pub point_key-injective :
    (p q : Point)
    → IsShort p.measurement
    → IsShort q.measurement
    → AreShort (λ k. value_of k p.tags) (sorted_tag_keys p)
    → AreShort (λ k. value_of k q.tags) (sorted_tag_keys q)
    → p.timestamp < 2 ^ 64
    → q.timestamp < 2 ^ 64
    → point_key p ≡ point_key q
    → (p.measurement ≡ q.measurement)
      × (sorted_tag_keys p ≡ sorted_tag_keys q)
      × (map (λ k. value_of k p.tags) (sorted_tag_keys p)
          ≡ map (λ k. value_of k q.tags) (sorted_tag_keys q))
      × (p.timestamp ≡ q.timestamp)
unfolding point_key
point_key-injective p q hm hm' h h' ht ht' e =
    let (em, ek, ev, et) =
      text_tail-injective p.measurement q.measurement (decimal_int64 p.timestamp)
        (decimal_int64 q.timestamp) (sorted_tag_keys p) (sorted_tag_keys q) (λ k. value_of k p.tags)
        (λ k. value_of k q.tags) hm hm' h h' (timestamp-no_colon p.timestamp)
        (timestamp-no_colon q.timestamp) e in
    (em, ek, ev, decimal_int64-injective p.timestamp q.timestamp ht ht' et)
