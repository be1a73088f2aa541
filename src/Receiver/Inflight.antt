-- ===== src/Receiver/Inflight.antt =====
-- internal/receiver/receiver.go: the map from the numbers in flight to their reference counts.
use influx_sync.Base.{ℕ, ◌+◌, ◌-◌, ◌≡◌, List, [], ◌∷◌, leb, ◌==◌, if◌then◌else◌, arith}

abbrev pub Counts : Type 0
Counts = List (ℕ × ℕ)

-- m[seq], which is 0 for a missing key
unfoldable pub count_of : ℕ → Counts → ℕ
count_of s [] = 0
count_of s ((k, n) ∷ m) = if k == s then n else count_of s m

-- m[seq]++
unfoldable pub add_count : ℕ → Counts → Counts
add_count s [] = (s, 1) ∷ []
add_count s ((k, n) ∷ m) = if k == s then (k, n + 1) ∷ m else (k, n) ∷ add_count s m

unfoldable pub drop_key : ℕ → Counts → Counts
drop_key s [] = []
drop_key s ((k, n) ∷ m) = let rest = drop_key s m in if k == s then rest else (k, n) ∷ rest

unfoldable pub lower_count : ℕ → Counts → Counts
lower_count s [] = []
lower_count s ((k, n) ∷ m) = if k == s then (k, n - 1) ∷ m else (k, n) ∷ lower_count s m

-- removeInflight: the key goes with its last reference.
unfoldable pub remove_count : ℕ → Counts → Counts
unfolding drop_key lower_count
remove_count s m = if leb (count_of s m) 1 then drop_key s m else lower_count s m

pub count_of-add_count :
    (s k : ℕ) (m : Counts)
    → count_of k (add_count s m) ≡ (if s == k then count_of s m + 1 else count_of k m)
unfolding count_of add_count
count_of-add_count s k [] = ground arith
count_of-add_count s k ((j, n) ∷ m) = ground (arith, count_of-add_count s k m)

count_of-drop_key :
    (s k : ℕ) (m : Counts) → count_of k (drop_key s m) ≡ (if s == k then 0 else count_of k m)
unfolding count_of drop_key
count_of-drop_key s k [] = ground arith
count_of-drop_key s k ((j, n) ∷ m) = ground (arith, count_of-drop_key s k m)

count_of-lower_count :
    (s k : ℕ) (m : Counts)
    → count_of k (lower_count s m) ≡ (if s == k then count_of s m - 1 else count_of k m)
unfolding count_of lower_count
count_of-lower_count s k [] = ground arith
count_of-lower_count s k ((j, n) ∷ m) = ground (arith, count_of-lower_count s k m)

pub count_of-remove_count :
    (s k : ℕ) (m : Counts)
    → count_of k (remove_count s m) ≡ (if s == k then count_of s m - 1 else count_of k m)
unfolding remove_count
count_of-remove_count s k m = ground (arith, count_of-drop_key s k m, count_of-lower_count s k m)

-- A frame that comes and goes leaves every count as it was, also where the same number is in flight
-- on another connection.
pub remove-add_count :
    (s k : ℕ) (m : Counts) → count_of k (remove_count s (add_count s m)) ≡ count_of k m
remove-add_count s k m = ground (
  arith,
  count_of-remove_count s k (add_count s m),
  count_of-add_count s k m,
  count_of-add_count s s m,
)
