-- ===== src/Model/Numbers.antt =====
-- internal/model: what strconv.AppendInt writes, the timestamp parser reads back.
use influx_sync.Base.{
  ℕ, zero, suc, ◌+◌, ◌-◌, ◌*◌, ◌/◌, ◌%◌, ◌^◌, ◌<◌, ◌≡◌, refl, ◌∙◌, true, ◌&&◌, [], ◌∷◌, ◌++◌, ltb,
  leb, arith, Bool-cases, inl, inr,
}
use mathlib.Core.Bool.{false≢true}
use influx_sync.Model.Parsing.{all_digits, digits_value}
use influx_sync.Model.Rendering.{Bytes, digits, decimal}

digits_value-snoc :
    (acc d : ℕ) (s : Bytes) → digits_value acc (s ++ (d ∷ [])) ≡ digits_value acc s * 10 + (d - 48)
unfolding digits_value
digits_value-snoc acc d [] = refl
digits_value-snoc acc d (c ∷ s) = digits_value-snoc (acc * 10 + (c - 48)) d s

all_digits-snoc :
    (d : ℕ) (s : Bytes)
    → all_digits s ≡ true
    → leb 48 d && leb d 57 ≡ true
    → all_digits (s ++ (d ∷ [])) ≡ true
unfolding all_digits
all_digits-snoc d [] h e = ground (arith, e)
all_digits-snoc d (c ∷ s) h e = elim (Bool-cases (leb 48 c && leb c 57)) [
  | inl good ↦ simp good (all_digits-snoc d s (simp good at h) e)
  | inr bad ↦ absurd (false≢true (simp bad at h))
]

abbrev power : ℕ → ℕ
power zero = 1
power (suc n) = 10 * power n

digits_value-digits : (fuel n : ℕ) → n < power fuel → digits_value 0 (digits fuel n) ≡ n
unfolding digits digits_value
digits_value-digits zero n h = omega arith
digits_value-digits (suc fuel) n h = elim (Bool-cases (ltb n 10)) [
  | inl small ↦ simp small (omega arith)
  | inr big ↦
      let back : digits_value 0 (digits fuel (n / 10)) ≡ n / 10 =
        digits_value-digits fuel (n / 10) (omega arith) in
      let put = digits_value-snoc 0 (48 + n % 10) (digits fuel (n / 10)) in
      simp big (put ∙ omega (arith, back))
]

pub all_digits-digits : (fuel n : ℕ) → all_digits (digits fuel n) ≡ true
unfolding digits all_digits
all_digits-digits zero n = refl
all_digits-digits (suc fuel) n = elim (Bool-cases (ltb n 10)) [
  | inl small ↦ simp small (ground (arith, small))
  | inr big ↦ simp big (
      all_digits-snoc (48 + n % 10) (digits fuel (n / 10)) (all_digits-digits fuel (n / 10))
        (ground arith))
]

pub digits_value-decimal : (n : ℕ) → n < 10 ^ 20 → digits_value 0 (decimal n) ≡ n
unfolding decimal
digits_value-decimal n h = digits_value-digits 20 n (omega arith)
