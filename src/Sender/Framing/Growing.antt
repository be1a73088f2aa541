-- ===== src/Sender/Framing/Growing.antt =====
-- internal/sender/poller.go, appendBatch: whatever it returns, it only puts frames at the end of the
-- log's queue.
use influx_sync.Base.{
  ℕ, zero, suc, ◌+◌, ◌/◌, ◌^◌, ◌≤◌, ◌<◌, ◌≡◌, refl, sym, ap, ◌∙◌, List, [], ◌∷◌, ◌++◌, ltb,
  if◌then◌else◌, length, drop, Result, ok, err, arith, All, append-nil, length-append, length-take,
  Result-cases, if_both, inl, inr, All-append,
}
use mathlib.Core.Path.{subst}
use influx_sync.Protocol.{Compression, header_size}
use influx_sync.Wal.{Wal, WalError, append_batch}
use influx_sync.Wal.Queue.{Queue, Represents}
use influx_sync.Wal.Appending.{stamped, append_batch-Represents}
use influx_sync.Model.Rendering.{Point}
use influx_sync.Sender.Framing.{
  is_frame_too_large, encode_points, groups, good_done, append_good, and_then, collect_group,
  collect, append_points,
}
use influx_sync.Sender.Framing.Holding.{
  Outcome, flat, Holds, encode_points-long, append_good-Holds, Holds-append,
}
use influx_sync.Sender.Framing.Complete.{flat-groups}

-- At most `n` frames more are at the end of the queue.
pub record Grown (w w' : Wal) (q : Queue) (n : ℕ) : Type 0 where
  pub frames : List (List ℕ)
  pub held : Holds w w' q frames
  pub few : length frames ≤ n

same-Grown : (w : Wal) (q : Queue) (n : ℕ) → Represents w q → Grown w w q n
same-Grown w q n r = record {
  frames = [];
  held = record {
    queue = subst (λ t. Represents w t) (sym (append-nil q)) r;
    next = omega arith;
    cursor = refl;
  };
  few = omega arith;
}

good_done_accepted :
    (p : Wal × Result WalError (List ℕ)) (seqs : List ℕ)
    → p.1 ≡ ok seqs
    → good_done p ≡ ((good_done p).0, ok tt)
unfolding good_done
good_done_accepted (w, r) seqs e =
    ap (λ t. good_done (w, t)) e ∙ sym (ap (λ t. ((good_done (w, t)).0, ok tt)) e)

-- Frames that Encode has made are accepted.
append_good_accepted :
    (w : Wal) (q : Queue) (good : List (List ℕ))
    → Represents w q
    → w.cp.next_seq + length good < 2 ^ 64
    → All (λ fb. header_size ≤ length fb) good
    → append_good w good ≡ ((append_good w good).0, ok tt)
unfolding append_good
append_good_accepted w q [] r room long = refl
append_good_accepted w q (fb ∷ good) r room long =
    good_done_accepted (append_batch w (fb ∷ good)) _
      (append_batch-Represents w (fb ∷ good) q r room long).1

-- Whether the first part fails or not.
and_then_both :
    (P : Wal → Type 0) (p : Outcome) (next : Wal → Outcome)
    → P p.0
    → P (next p.0).0
    → P (and_then p next).0
unfolding and_then
and_then_both P (w, ok u) next here there = there
and_then_both P (w, err e) next here there = here

abbrev SplitGrows : (Wal → List Point → Outcome) → Type 0
SplitGrows split =
    (w : Wal) (q : Queue) (g : List Point)
    → Represents w q
    → w.cp.next_seq + length g < 2 ^ 64
    → Grown w (split w g).0 q (length g)

abbrev Grows : (Wal → List (List ℕ) → Outcome) → ℕ → Type 0
Grows next n =
    (w : Wal) (q : Queue) (good : List (List ℕ))
    → Represents w q
    → w.cp.next_seq + length good + n < 2 ^ 64
    → All (λ fb. header_size ≤ length fb) good
    → Grown w (next w good).0 q (length good + n)

Grown-up : (w w' : Wal) (q : Queue) (m n : ℕ) → m ≤ n → Grown w w' q m → Grown w w' q n
Grown-up w w' q m n le h = record { frames = h.frames; held = h.held; few = omega (arith, h.few) }

Grown-then :
    (w v w' : Wal) (q : Queue) (m n : ℕ) (h : Grown w v q m)
    → Grown v w' (q ++ stamped w.cp.next_seq h.frames) n
    → Grown w w' q (m + n)
Grown-then w v w' q m n h k = record {
  frames = h.frames ++ k.frames;
  held = Holds-append w v w' q h.frames k.frames h.held k.held;
  few = omega (arith, h.few, k.few, length-append h.frames k.frames);
}

module _ (split : Wal → List Point → Outcome) (next : Wal → List (List ℕ) → Outcome) (n : ℕ)
    (splits : SplitGrows split) (grows : Grows next n) (w : Wal) (q : Queue) (good : List (List ℕ))
    (g : List Point) (r : Represents w q) (filled : 0 < length g)
    (room : w.cp.next_seq + length good + (length g + n) < 2 ^ 64)
    (long : All (λ fb. header_size ≤ length fb) good) where
  split_grows :
      Grown w
        (and_then (append_good w good) (λ v. and_then (split v g) (λ u. next u []))).0
        q
        (length good + (length g + n))
  split_grows =
      let v : Wal = (append_good w good).0 in
      let held =
        append_good-Holds w v q good r (omega (arith, room)) long
          (append_good_accepted w q good r (omega (arith, room)) long) in
      let first : Grown w v q (length good) = record {
        frames = good;
        held = held;
        few = omega arith;
      } in
      let u : Wal = (split v g).0 in
      let mid =
        splits v (q ++ stamped w.cp.next_seq good) g held.queue (omega (arith, held.next, room)) in
      let both = Grown-then w v u q (length good) (length g) first mid in
      let last =
        grows u (q ++ stamped w.cp.next_seq both.frames) [] both.held.queue
          (omega (arith, both.held.next, both.few, room)) tt in
      let whole = Grown-then w u (next u []).0 q (length good + length g) (0 + n) both last in
      let P : Wal → Type 0 = λ x. Grown w x q (length good + (length g + n)) in
      and_then_both P (append_good w good) (λ v. and_then (split v g) (λ u. next u []))
        (Grown-up w v q (length good) _ (omega arith) first)
        (and_then_both P (split v g) (λ u. next u [])
          (Grown-up w u q (length good + length g) _ (omega arith) both)
          (Grown-up w (next u []).0 q _ _ (omega arith) whole))

  group_grows :
      (c : Compression) (typ batch : ℕ)
      → Grown w
          (collect_group split next batch w good g (encode_points c typ g)).0
          q
          (length good + (length g + n))
  unfolding collect_group
  group_grows c typ batch = elim (Result-cases (encode_points c typ g)) [
    | inl (fb, made) ↦ rw (made) (
        Grown-up w _ q _ _ (omega (arith, filled, length-append good (fb ∷ []))) (
          grows w q (good ++ (fb ∷ [])) r
            (omega (arith, room, filled, length-append good (fb ∷ [])))
            (All-append _ good (fb ∷ []) long (encode_points-long c typ g fb made, tt))))
    | inr (x, failed) ↦ rw (failed) (
        if_both (λ (p : Outcome). Grown w p.0 q (length good + (length g + n)))
          (is_frame_too_large x) _ _
          (λ large.
            if_both (λ (p : Outcome). Grown w p.0 q (length good + (length g + n))) (ltb 1 batch) _
              _ (λ many. split_grows)
              (λ single.
                Grown-up w _ q _ _ (omega arith) (grows w q good r (omega (arith, room)) long)))
          (λ other. same-Grown w q _ r))
  ]

collect-Grows :
    (c : Compression) (typ : ℕ) (split : Wal → List Point → Outcome) (batch : ℕ)
    → SplitGrows split
    → (gs : List (List Point)) → All (λ g. 0 < length g) gs
    → Grows (collect c typ split batch gs) (length (flat gs))
unfolding collect
collect-Grows c typ split batch splits [] filled w q good r room long = record {
  frames = good;
  held =
      append_good-Holds w _ q good r (omega (arith, room)) long
        (append_good_accepted w q good r (omega (arith, room)) long);
  few = omega arith;
}
collect-Grows c typ split batch splits (g ∷ gs) (some_point, filled) w q good r room long =
    let size : length (g ++ flat gs) ≡ length g + length (flat gs) = length-append g (flat gs) in
    Grown-up w _ q _ _ (omega (arith, size)) (
      group_grows split (collect c typ split batch gs) (length (flat gs)) splits
        (collect-Grows c typ split batch splits gs filled) w q good g r some_point
        (omega (arith, size, room)) long c typ batch)

groups_filled :
    (fuel batch : ℕ) (ps : List Point) → 0 < batch → All (λ g. 0 < length g) (groups fuel batch ps)
unfolding groups
groups_filled zero batch ps h = tt
groups_filled (suc fuel) batch [] h = tt
groups_filled (suc fuel) batch (p ∷ ps) h =
    (omega (arith, length-take batch (p ∷ ps)), groups_filled fuel batch (drop batch (p ∷ ps)) h)

-- Whatever appendBatch returns, the log's queue is the one before with frames at its end, at most one
-- for each point.
pub append_points-Grown :
    (fuel : ℕ) (c : Compression) (typ batch : ℕ) (w : Wal) (q : Queue) (ps : List Point)
    → Represents w q
    → w.cp.next_seq + length ps < 2 ^ 64
    → Grown w (append_points fuel c typ batch w ps).0 q (length ps)
unfolding append_points
append_points-Grown zero c typ batch w q ps r room = same-Grown w q (length ps) r
append_points-Grown (suc fuel) c typ batch w q ps r room =
    let size : ℕ = if ltb batch 1 then 1 else batch in
    let positive : 0 < size = ground arith in
    let whole : flat (groups (length ps) size ps) ≡ ps =
      flat-groups (length ps) size ps positive (omega arith) in
    Grown-up w _ q _ _ (omega (arith, ap length whole)) (
      collect-Grows c typ (append_points fuel c typ (size / 2)) size
        (λ w q g. append_points-Grown fuel c typ (size / 2) w q g) (groups (length ps) size ps)
        (groups_filled (length ps) size ps positive) w q [] r (omega (arith, ap length whole, room))
        tt)
