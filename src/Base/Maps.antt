-- ===== src/Base/Maps.antt =====
-- Go's maps as association lists, with the comparison of the keys as a parameter.
use mathlib.Core.Path.{◌≡◌, sym, ap, ◌∙◌}
use mathlib.Core.Bool.{Bool, true}
use mathlib.Core.Option.{Option, none, some}
use mathlib.Core.List.{List, [], ◌∷◌}
use native.Mathlib.Omega.{arith}
use influx_sync.Base.Tests.{if◌then◌else◌}

module _ {ℓ κ} {K : Type ℓ} {V : Type κ} (eq : K → K → Bool) where
  -- v, ok := m[k]
  unfoldable pub lookup : K → List (K × V) → Option V
  lookup k [] = none
  lookup k ((j, v) ∷ m) = if eq j k then some v else lookup k m

  -- m[k] = v
  unfoldable pub store : K → V → List (K × V) → List (K × V)
  store k v [] = (k, v) ∷ []
  store k v ((j, w) ∷ m) = if eq j k then (k, v) ∷ m else (j, w) ∷ store k v m

  -- delete(m, k)
  unfoldable pub discard : K → List (K × V) → List (K × V)
  discard k [] = []
  discard k ((j, w) ∷ m) = let rest = discard k m in if eq j k then rest else (j, w) ∷ rest

module _ {ℓ} {K : Type ℓ} (eq : K → K → Bool) (eq_sound : (a b : K) → eq a b ≡ true → a ≡ b)
    (eq_refl : (a : K) → eq a a ≡ true) where
  same_key : (i j k : K) → eq i j ≡ true → eq k j ≡ true → eq i k ≡ true
  same_key i j k h h' = ap (λ t. eq t k) (eq_sound i j h ∙ sym (eq_sound k j h')) ∙ eq_refl k

  other_test : (i j k : K) → eq i k ≡ true → eq i j ≡ eq k j
  other_test i j k h = ap (λ t. eq t j) (eq_sound i k h)

  -- What a lookup finds in a changed map.
  pub lookup-store {κ} :
      {V : Type κ} (k j : K) (v : V) (m : List (K × V))
      → lookup eq j (store eq k v m) ≡ (if eq k j then some v else lookup eq j m)
  unfolding lookup store
  lookup-store k j v [] = ground arith
  lookup-store k j v ((i, w) ∷ m) =
      ground (arith, lookup-store k j v m, same_key i j k, other_test i j k)

  pub lookup-discard {κ} :
      {V : Type κ} (k j : K) (m : List (K × V))
      → lookup eq j (discard eq k m) ≡ (if eq k j then none else lookup eq j m)
  unfolding lookup discard
  lookup-discard k j [] = ground arith
  lookup-discard k j ((i, w) ∷ m) =
      ground (arith, lookup-discard k j m, same_key i j k, other_test i j k)
