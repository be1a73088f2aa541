-- ===== src/Sender/Queries.antt =====
-- internal/sender/poller.go, queryParallel: a window asked for in parts that overlap by a nanosecond,
-- and boundarySet, which drops what two parts both give; PointsEqual of internal/model/point.go.
pub mod Boundary
pub mod Exact
mod Runs
use influx_sync.Base.{
  ℕ, zero, suc, ◌+◌, ◌-◌, ◌*◌, ◌/◌, Bool, true, false, not, ◌&&◌, ◌||◌, Option, none, some, List,
  [], ◌∷◌, ◌++◌, map, ltb, ◌==◌, le_int64, if◌then◌else◌, length, lookup,
}
use influx_sync.Model.Rendering.{
  Bytes, Point, FieldValue, float, int64, text, bool, unsupported, same, point_key,
}

-- "NaN", and "-0", which is the number "0".
abbrev pub nan_text : Bytes
nan_text = 78 ∷ 97 ∷ 78 ∷ []

unfoldable pub number_text : Bytes → Bytes
number_text shown = if same shown (45 ∷ 48 ∷ []) then 48 ∷ [] else shown

unfoldable pub same_bool : Bool → Bool → Bool
same_bool true b = b
same_bool false b = not b

-- Go's == of two field values. A value of another type equals none.
unfoldable pub same_value : FieldValue → FieldValue → Bool
same_value (float odd shown) (float odd' shown') =
    not (same shown nan_text) && same (number_text shown) (number_text shown')
same_value (int64 n) (int64 m) = n == m
same_value (text s) (text t) = same s t
same_value (bool a) (bool b) = same_bool a b
same_value v w = false

module _ {ℓ} {V : Type ℓ} (eq : V → V → Bool) where
  unfoldable pub found : V → Option V → Bool
  found v none = false
  found v (some w) = eq w v

  -- The loop over the entries of one map that looks them up in the other.
  unfoldable pub entries_in : List (Bytes × V) → List (Bytes × V) → Bool
  unfolding found
  entries_in [] m = true
  entries_in ((k, v) ∷ rest) m = found v (lookup same k m) && entries_in rest m

unfoldable pub points_equal : Point → Point → Bool
points_equal a b =
    if not (same a.measurement b.measurement) || not (a.timestamp == b.timestamp)
    then false
    else if not (length a.tags == length b.tags) || not (length a.fields == length b.fields)
    then false
    else entries_in same a.tags b.tags && entries_in same_value a.fields b.fields

abbrev pub boundary_linear_limit : ℕ
boundary_linear_limit = 8

pub record BoundarySet : Type 0 where
  pub small : List Point
  pub big : Option (List Bytes)

abbrev pub empty_set : BoundarySet
empty_set = record { small = []; big = none }

-- s.big[key], in a map that is there.
unfoldable pub with_key : BoundarySet → Bytes → Option (List Bytes) → BoundarySet
with_key s key none = record { small = []; big = some (key ∷ map point_key s.small) }
with_key s key (some big) = record s { big = some (key ∷ big) }

unfoldable pub add_point : BoundarySet → Point → BoundarySet
unfolding with_key
add_point s p =
    if ltb (length s.small) boundary_linear_limit
    then record s { small = s.small ++ (p ∷ []) }
    else with_key s (point_key p) s.big

unfoldable pub any_equal : List Point → Point → Bool
any_equal [] p = false
any_equal (q ∷ qs) p = points_equal q p || any_equal qs p

unfoldable pub any_same : List Bytes → Bytes → Bool
any_same [] key = false
any_same (k ∷ ks) key = same k key || any_same ks key

unfoldable pub in_big : Option (List Bytes) → Bytes → Bool
in_big none key = false
in_big (some big) key = any_same big key

unfoldable pub contains_point : BoundarySet → Point → Bool
contains_point s p = any_equal s.small p || in_big s.big (point_key p)

unfoldable pub add_all : BoundarySet → List Point → BoundarySet
add_all s [] = s
add_all s (p ∷ ps) = add_all (add_point s p) ps

-- What the loop `for j := 0; j < h; j++` appends.
unfoldable pub fresh : BoundarySet → List Point → List Point
fresh s [] = []
fresh s (p ∷ ps) = let rest = fresh s ps in if not (contains_point s p) then p ∷ rest else rest

-- The points at the end that stand at the boundary, with what is before them.
unfoldable pub joined : ℕ → Point → List Point × List Point → List Point × List Point
joined boundary p ([], tail) = if p.timestamp == boundary then ([], p ∷ tail) else (p ∷ [], tail)
joined boundary p (q ∷ front, tail) = (p ∷ (q ∷ front), tail)

unfoldable pub tail_at : ℕ → List Point → List Point × List Point
unfolding joined
tail_at boundary [] = ([], [])
tail_at boundary (p ∷ ps) = joined boundary p (tail_at boundary ps)

-- The points at the start that stand at the boundary, with what is behind them.
unfoldable pub head_at : ℕ → List Point → List Point × List Point
head_at boundary [] = ([], [])
head_at boundary (p ∷ ps) =
    let (head, rest) = head_at boundary ps in
    if p.timestamp == boundary then (p ∷ head, rest) else ([], p ∷ ps)

-- The points of all parts so far, with those of the next one.
unfoldable pub merged :
    List Point → List Point → List Point × List Point → List Point × List Point → List Point
merged all pts (front, []) head = all ++ pts
merged all pts (front, q ∷ tail) ([], rest) = all ++ pts
merged all pts (front, q ∷ tail) (p ∷ head, rest) =
    (front ++ (q ∷ tail)) ++ (fresh (add_all empty_set (q ∷ tail)) (p ∷ head) ++ rest)

unfoldable pub append_part : ℕ → List Point → List Point → List Point
unfolding merged
append_part boundary all pts = merged all pts (tail_at boundary all) (head_at boundary pts)

-- The points so far, and whether a query has failed.
unfoldable pub with_part : ℕ → ℕ → List Point × Bool → Option (List Point) → List Point × Bool
with_part i boundary (all, failed) none = (all, true)
with_part i boundary (all, failed) (some pts) =
    ((if ltb 0 i then append_part boundary all pts else all ++ pts), failed)

unfoldable pub all_or_none : List Point × Bool → Option (List Point)
all_or_none (all, failed) = if failed then none else some all

module _ (query : ℕ → ℕ → Option (List Point)) (start end step : ℕ) where
  -- The answer of the part `i`, where `left` parts are behind it.
  unfoldable pub part : ℕ → ℕ → Option (List Point)
  part zero i = query (start + i * step) end
  part (suc left) i = query (start + i * step) (start + i * step + step + 1)

  -- The parts from `i` on, `left` of them, in their order.
  unfoldable pub merge : ℕ → ℕ → List Point × Bool → List Point × Bool
  unfolding with_part
  merge zero i acc = acc
  merge (suc left) i acc = merge left (i + 1) (with_part i (start + i * step) acc (part left i))

unfoldable pub query_parallel : (ℕ → ℕ → Option (List Point)) → ℕ → ℕ → ℕ → Option (List Point)
unfolding all_or_none
query_parallel query n start end =
    let step = (end - start) / n in
    let parts = merge query start end step n 0 ([], false) in
    if le_int64 n 1
    then query start end
    else if step == 0
    then query start end
    else all_or_none parts
