-- ===== src/Base/Sets.antt =====
-- Go's `map[uint64]struct{}` as a list of keys: membership, insertion, deletion, size.
use Prim.Native.Nat.{ℕ, ◌≤◌, ◌<◌}
use mathlib.Core.Path.{◌≡◌}
use mathlib.Core.Logic.{◌≢◌, ◌⊎◌}
use mathlib.Core.Bool.{Bool, true, false, ◌||◌}
use mathlib.Core.List.{List, [], ◌∷◌}
use native.Mathlib.Omega.{arith}
use influx_sync.Base.Tests.{◌==◌, ltb, if◌then◌else◌}
use influx_sync.Base.Lists.{length}

-- _, ok := m[k]
unfoldable pub has : ℕ → List ℕ → Bool
has k [] = false
has k (x ∷ xs) = x == k || has k xs

-- m[k] = struct{}{}
unfoldable pub insert : ℕ → List ℕ → List ℕ
insert k xs = if has k xs then xs else k ∷ xs

-- delete(m, k)
unfoldable pub delete : ℕ → List ℕ → List ℕ
delete k [] = []
delete k (x ∷ xs) = let rest = delete k xs in if x == k then rest else x ∷ rest

-- for s := range m { if s <= n { delete(m, s) } }
unfoldable pub delete_upto : ℕ → List ℕ → List ℕ
delete_upto n [] = []
delete_upto n (x ∷ xs) = let rest = delete_upto n xs in if ltb n x then x ∷ rest else rest

pub has-insert : (k j : ℕ) (xs : List ℕ) → has j (insert k xs) ≡ (k == j || has j xs)
unfolding insert has
has-insert k j xs = ground arith

pub has-delete :
    (k j : ℕ) (xs : List ℕ) → has j (delete k xs) ≡ (if k == j then false else has j xs)
unfolding delete has
has-delete k j [] = ground arith
has-delete k j (x ∷ xs) = ground (arith, has-delete k j xs)

pub has-delete_upto :
    (n j : ℕ) (xs : List ℕ) → has j (delete_upto n xs) ≡ (if ltb n j then has j xs else false)
unfolding delete_upto has
has-delete_upto n j [] = ground arith
has-delete_upto n j (x ∷ xs) = ground (arith, has-delete_upto n j xs)

pub length-delete-le : (k : ℕ) (xs : List ℕ) → length (delete k xs) ≤ length xs
unfolding delete
length-delete-le k [] = omega arith
length-delete-le k (x ∷ xs) = ground (arith, length-delete-le k xs)

-- Deleting a key that is there shortens the list.
pub length-delete-lt : (k : ℕ) (xs : List ℕ) → has k xs ≡ true → length (delete k xs) < length xs
unfolding delete has
length-delete-lt k [] h = ground arith
length-delete-lt k (x ∷ xs) h = ground (arith, length-delete-lt k xs, length-delete-le k xs)

pub has_of_delete :
    (k s : ℕ) (xs : List ℕ) → has s (delete k xs) ≡ true → (has s xs ≡ true) × (s ≢ k)
has_of_delete k s xs h = ground (arith, has-delete k s xs)

pub has_of_delete_upto :
    (n s : ℕ) (xs : List ℕ) → has s (delete_upto n xs) ≡ true → (has s xs ≡ true) × (n < s)
has_of_delete_upto n s xs h = ground (arith, has-delete_upto n s xs)

pub has_of_insert :
    (k s : ℕ) (xs : List ℕ) → has s (insert k xs) ≡ true → (s ≡ k) ⊎ (has s xs ≡ true)
has_of_insert k s xs h = ground (arith, has-insert k s xs)
