-- ===== src/Sender/Queries/Exact.antt =====
-- internal/sender/poller.go, queryParallel: the parts put together again.
use influx_sync.Base.{
  ℕ, zero, suc, ◌+◌, ◌-◌, ◌*◌, ◌/◌, ◌≤◌, ◌<◌, ◌≡◌, ◌≢◌, refl, sym, ap, ◌∙◌, Bool, false, Option,
  some, List, [], ◌∷◌, ◌++◌, append_assoc, append-nil, ◌==◌, le_int64, if◌then◌else◌, if_both, All,
  All-map, All-append, ==_refl, ne→==, lt→ltb, arith,
}
use native.Mathlib.Nat.{mul-div-le}
use influx_sync.Model.Rendering.{Point}
use influx_sync.Sender.Queries.{
  joined, tail_at, head_at, merged, append_part, with_part, all_or_none, part, merge,
  query_parallel,
}
use influx_sync.Sender.Queries.Boundary.{IsRegular, fresh-add_all}

abbrev pub AreAt : ℕ → List Point → Type 0
AreAt t = All (λ p. p.timestamp ≡ t)

abbrev pub AreOff : ℕ → List Point → Type 0
AreOff t = All (λ p. p.timestamp ≢ t)

tail_at-at : (b : ℕ) (ys : List Point) → AreAt b ys → tail_at b ys ≡ ([], ys)
unfolding tail_at joined
tail_at-at b [] at = refl
tail_at-at b (p ∷ ys) at =
    ap (joined b p) (tail_at-at b ys at.1)
    ∙ ap (λ t. if t then ([], p ∷ ys) else (p ∷ [], ys)) (ap (λ t. t == b) at.0 ∙ ==_refl b)

joined-off :
    (b : ℕ) (p : Point) (xs ys : List Point) → p.timestamp ≢ b → joined b p (xs, ys) ≡ (p ∷ xs, ys)
unfolding joined
joined-off b p [] ys off =
    ap (λ t. if t then ([], p ∷ ys) else (p ∷ [], ys)) (ne→== p.timestamp b off)
joined-off b p (q ∷ xs) ys off = refl

tail_at-append :
    (b : ℕ) (xs ys : List Point) → AreOff b xs → AreAt b ys → tail_at b (xs ++ ys) ≡ (xs, ys)
unfolding tail_at
tail_at-append b [] ys off at = tail_at-at b ys at
tail_at-append b (p ∷ xs) ys off at =
    ap (joined b p) (tail_at-append b xs ys off.1 at) ∙ joined-off b p xs ys off.0

head_at-off : (b : ℕ) (zs : List Point) → AreOff b zs → head_at b zs ≡ ([], zs)
unfolding head_at
head_at-off b [] off = refl
head_at-off b (p ∷ zs) off =
    ap (λ t. if t then (p ∷ (head_at b zs).0, (head_at b zs).1) else ([], p ∷ zs))
      (ne→== p.timestamp b off.0)

head_at-append :
    (b : ℕ) (ys zs : List Point) → AreAt b ys → AreOff b zs → head_at b (ys ++ zs) ≡ (ys, zs)
unfolding head_at
head_at-append b [] zs at off = head_at-off b zs off
head_at-append b (p ∷ ys) zs at off =
    ap
      (λ t.
        if t
        then (p ∷ (head_at b (ys ++ zs)).0, (head_at b (ys ++ zs)).1)
        else ([], p ∷ (ys ++ zs)))
      (ap (λ t. t == b) at.0 ∙ ==_refl b)
    ∙ ap (λ r. (p ∷ r.0, r.1)) (head_at-append b ys zs at.1 off)

merged-same :
    (xs ys zs : List Point)
    → All IsRegular ys
    → merged (xs ++ ys) (ys ++ zs) (xs, ys) (ys, zs) ≡ xs ++ (ys ++ zs)
unfolding merged
merged-same xs [] zs regular = ap (λ t. t ++ zs) (append-nil xs)
merged-same xs (q ∷ ys) zs regular =
    ap (λ t. (xs ++ (q ∷ ys)) ++ (t ++ zs)) (fresh-add_all (q ∷ ys) regular)
    ∙ append_assoc xs (q ∷ ys) zs

append_part-same :
    (b : ℕ) (xs ys zs : List Point)
    → AreOff b xs
    → AreAt b ys
    → AreOff b zs
    → All IsRegular ys
    → append_part b (xs ++ ys) (ys ++ zs) ≡ xs ++ (ys ++ zs)
unfolding append_part
append_part-same b xs ys zs before at behind regular =
    ap (λ t. merged (xs ++ ys) (ys ++ zs) t (head_at b (ys ++ zs)))
      (tail_at-append b xs ys before at)
    ∙ ap (merged (xs ++ ys) (ys ++ zs) (xs, ys)) (head_at-append b ys zs at behind)
    ∙ merged-same xs ys zs regular

one_more : (i step : ℕ) → (i + 1) * step ≡ i * step + step
one_more i step = ground arith

-- The points of `count` nanoseconds from `s` on.
unfoldable pub between : (ℕ → List Point) → ℕ → ℕ → List Point
between points s zero = []
between points s (suc count) = points s ++ between points (s + 1) count

pub between-append :
    (points : ℕ → List Point) (s m k : ℕ)
    → between points s (m + k) ≡ between points s m ++ between points (s + m) k
unfolding between
between-append points s zero k =
    let here : s ≡ s + 0 = omega arith in
    let all : 0 + k ≡ k = omega arith in
    ap (between points s) all ∙ ap (λ t. between points t k) here
between-append points s (suc m) k =
    let more : suc m + k ≡ suc (m + k) = omega arith in
    ap (between points s) more
    ∙ ap (λ t. points s ++ t)
        (between-append points (s + 1) m k
          ∙ ap (λ t. between points (s + 1) m ++ between points t k) (omega arith))
    ∙ sym (append_assoc (points s) (between points (s + 1) m) (between points (s + suc m) k))

-- Every point stands at its time, and equals itself.
abbrev pub IsDated : (ℕ → List Point) → Type 0
IsDated points = (t : ℕ) → All (λ p. (p.timestamp ≡ t) × IsRegular p) (points t)

module _ (points : ℕ → List Point) (dated : IsDated points) where
  pub between-within :
      (s count : ℕ)
      → All (λ p. (s ≤ p.timestamp) × (p.timestamp < s + count)) (between points s count)
  unfolding between
  between-within s zero = tt
  between-within s (suc count) =
      All-append _ (points s) (between points (s + 1) count)
        (All-map _ _ (points s) (λ p h. (omega (arith, h.0), omega (arith, h.0))) (dated s))
        (All-map _ _ (between points (s + 1) count)
          (λ p h. (omega (arith, h.0), omega (arith, h.1))) (between-within (s + 1) count))

  append_part-between :
      (s m k : ℕ)
      → append_part (s + m) (between points s (m + 1)) (between points (s + m) (suc k))
        ≡ between points s (m + suc k)
  unfolding between
  append_part-between s m k =
      let xs = between points s m in
      let ys = points (s + m) in
      let zs = between points (s + m + 1) k in
      let before = between-within s m in
      let behind = between-within (s + m + 1) k in
      ap (λ t. append_part (s + m) t (ys ++ zs))
        (between-append points s m 1 ∙ ap (λ t. xs ++ t) (append-nil ys))
      ∙ append_part-same (s + m) xs ys zs (All-map _ _ xs (λ p h e. omega (arith, h.1, e)) before)
          (All-map _ _ ys (λ p h. h.0) (dated (s + m)))
          (All-map _ _ zs (λ p h e. omega (arith, h.0, e)) behind)
          (All-map _ _ ys (λ p h. h.1) (dated (s + m)))
      ∙ sym (between-append points s m (suc k))

  with_part-between :
      (i s m count : ℕ)
      → 0 < i
      → 0 < count
      → with_part i (s + m) (between points s (m + 1), false) (some (between points (s + m) count))
        ≡ (between points s (m + count), false)
  unfolding with_part
  with_part-between i s m zero later some_time = ground arith
  with_part-between i s m (suc k) later some_time =
      let part = between points (s + m) (suc k) in
      ap
        (λ t. (
          (if t
              then append_part (s + m) (between points s (m + 1)) part
              else between points s (m + 1) ++ part),
          false,
        ))
        (lt→ltb 0 i later)
      ∙ ap (λ t. (t, false)) (append_part-between s m k)

  module _ (query : ℕ → ℕ → Option (List Point))
      (exact : (s e : ℕ) → query s e ≡ some (between points s (e - s))) (start end step : ℕ)
      (some_time : 0 < step) where
    merge-between :
        (left i : ℕ)
        → 0 < i
        → start + i * step + suc left * step ≤ end
        → merge query start end step (suc left) i (between points start (i * step + 1), false)
          ≡ (between points start (end - start), false)
    unfolding merge part
    merge-between zero i later fits =
        let b = start + i * step in
        ap (with_part i b (between points start (i * step + 1), false)) (exact b end)
        ∙ with_part-between i start (i * step) (end - b) later (omega (arith, fits, some_time))
        ∙ ap (λ t. (between points start t, false)) (omega (arith, fits, some_time))
    merge-between (suc left) i later fits =
        let b = start + i * step in
        let acc : List Point × Bool = (between points start (i * step + 1), false) in
        let next : with_part i b acc (query b (b + step + 1))
            ≡ (between points start ((i + 1) * step + 1), false) =
          ap (with_part i b acc) (exact b (b + step + 1))
          ∙ with_part-between i start (i * step) (b + step + 1 - b) later (omega arith)
          ∙ ap (λ t. (between points start t, false)) (omega (arith, one_more i step)) in
        ap (merge query start end step (suc left) (i + 1)) next
        ∙ merge-between left (i + 1) (omega arith)
            (omega (arith, fits, one_more i step, one_more (suc left) step))

    parts-between :
        (left : ℕ)
        → start + suc (suc left) * step ≤ end
        → all_or_none (merge query start end step (suc (suc left)) 0 ([], false))
          ≡ some (between points start (end - start))
    unfolding merge part with_part all_or_none
    parts-between left fits =
        let begins : start + 0 * step ≡ start = omega arith in
        let size : start + 0 * step + step + 1 - (start + 0 * step) ≡ 1 * step + 1 = omega arith in
        let first : with_part 0 (start + 0 * step) ([], false)
              (query (start + 0 * step) (start + 0 * step + step + 1))
            ≡ (between points start (1 * step + 1), false) =
          ap (with_part 0 (start + 0 * step) ([], false))
            (exact (start + 0 * step) (start + 0 * step + step + 1))
          ∙ ap (λ t. (between points t (start + 0 * step + step + 1 - (start + 0 * step)), false))
              begins
          ∙ ap (λ t. (between points start t, false)) size in
        ap (λ t. all_or_none (merge query start end step (suc left) 1 t)) first
        ∙ ap all_or_none
            (merge-between left 1 (omega arith) (omega (arith, fits, one_more (suc left) step)))

several_parts :
    (points : ℕ → List Point) (query : ℕ → ℕ → Option (List Point)) (n start end : ℕ)
    → IsDated points
    → ((s e : ℕ) → query s e ≡ some (between points s (e - s)))
    → le_int64 n 1 ≡ false
    → ((end - start) / n == 0) ≡ false
    → all_or_none (merge query start end ((end - start) / n) n 0 ([], false)) ≡ query start end
several_parts points query zero start end dated exact several long = ground arith
several_parts points query (suc zero) start end dated exact several long = ground arith
several_parts points query (suc (suc left)) start end dated exact several long =
    let step = (end - start) / suc (suc left) in
    let some_time : 0 < step = ground (arith, long) in
    let fits = mul-div-le (end - start) (suc (suc left)) in
    parts-between points dated query exact start end step some_time left
      (omega (arith, fits, some_time, one_more (suc left) step))
    ∙ sym (exact start end)

-- Where the source answers each query with the points of its nanoseconds, in order, and every point
-- equals itself, the parts put together are the answer to one query for the whole window, for any
-- number of parts.
pub query_parallel-whole :
    (points : ℕ → List Point) (query : ℕ → ℕ → Option (List Point)) (n start end : ℕ)
    → IsDated points
    → ((s e : ℕ) → query s e ≡ some (between points s (e - s)))
    → query_parallel query n start end ≡ query start end
unfolding query_parallel
query_parallel-whole points query n start end dated exact =
    let step = (end - start) / n in
    if_both (λ r. r ≡ query start end) (le_int64 n 1) _ _ (λ one. refl)
      (λ several.
        if_both (λ r. r ≡ query start end) (step == 0) _ _ (λ short. refl)
          (λ long. several_parts points query n start end dated exact several long))
