-- ===== src/Sender/Framing/Complete.antt =====
-- internal/sender/poller.go, appendBatch: every point of a window comes into one frame of the log, in
-- order, but for a point that is too large for a frame of its own.
use influx_sync.Base.{
  ℕ, zero, suc, ◌+◌, ◌/◌, ◌^◌, ◌≤◌, ◌<◌, ◌≡◌, refl, sym, ap, ◌∙◌, true, List, [], ◌∷◌, ◌++◌, ltb,
  ltb→lt, ltb→ge, if◌then◌else◌, length, take, drop, ok, err, arith, All, append_assoc, append-nil,
  length-append, take-append-drop, length-drop, length-take, Result-cases, Bool-cases, inl, inr,
  err≢ok, All-append,
}
use mathlib.Core.Path.{subst}
use influx_sync.Protocol.{Compression, header_size}
use influx_sync.Wal.{Wal}
use influx_sync.Wal.Queue.{Queue, Represents}
use influx_sync.Wal.Appending.{stamped}
use influx_sync.Model.Rendering.{Point}
use influx_sync.Sender.Framing.{
  FrameError, is_frame_too_large, encode_points, groups, append_good, and_then, collect_group,
  collect, append_points,
}
use influx_sync.Sender.Framing.Holding.{
  Splits, Outcome, Fits, flat, Framed, Framed-append, encode_points-long, Holds, append_good-Holds,
  Appends, and_then_ok, Holds-append, one_point, no_points, framed, left_out,
}

-- What the rest of the loop does with the points `ps`.
abbrev Collects : Compression → ℕ → (Wal → List (List ℕ) → Outcome) → List Point → Type 0
Collects c typ next ps =
    (w w' : Wal) (q : Queue) (good : List (List ℕ))
    → Represents w q
    → w.cp.next_seq + length good + length ps < 2 ^ 64
    → All (λ fb. header_size ≤ length fb) good
    → next w good ≡ (w', ok tt)
    → Appends c typ w w' q good ps

module _ (c : Compression) (typ : ℕ) (next : Wal → List (List ℕ) → Outcome) (ps : List Point)
    (spec : Collects c typ next ps) (w w' : Wal) (q : Queue) (good : List (List ℕ)) (g : List Point)
    (filled : 0 < length g) (r : Represents w q)
    (room : w.cp.next_seq + length good + length (g ++ ps) < 2 ^ 64)
    (long : All (λ fb. header_size ≤ length fb) good) where
  group_framed :
      (fb : List ℕ)
      → encode_points c typ g ≡ ok fb
      → next w (good ++ (fb ∷ [])) ≡ (w', ok tt)
      → Appends c typ w w' q good (g ++ ps)
  group_framed fb coded_ok e =
      let rest =
        spec w w' q (good ++ (fb ∷ [])) r
          (omega (arith, room, filled, length-append good (fb ∷ []), length-append g ps))
          (All-append _ good (fb ∷ []) long (encode_points-long c typ g fb coded_ok, tt)) e in
      record {
        more = fb ∷ rest.more;
        of_points = framed g ps fb rest.more coded_ok rest.of_points;
        held = subst (λ t. Holds w w' q t) (append_assoc good (fb ∷ []) rest.more) rest.held;
        few = omega (arith, rest.few, filled, length-append g ps);
      }

  group_split :
      (split : Wal → List Point → Outcome)
      → Splits c typ split
      → and_then (append_good w good) (λ v. and_then (split v g) (λ u. next u [])) ≡ (w', ok tt)
      → Appends c typ w w' q good (g ++ ps)
  group_split split splits e =
      let (v, flushed, e1) =
        and_then_ok (append_good w good) (λ v. and_then (split v g) (λ u. next u [])) w' e in
      let (u, halves, e2) = and_then_ok (split v g) (λ u. next u []) w' e1 in
      let first = append_good-Holds w v q good r (omega (arith, room)) long flushed in
      let mid =
        splits v u (q ++ stamped w.cp.next_seq good) g first.queue
          (omega (arith, first.next, room, length-append g ps)) halves in
      let both = Holds-append w v u q good mid.more first mid.held in
      let rest =
        spec u w' (q ++ stamped w.cp.next_seq (good ++ mid.more)) [] both.queue
          (omega (arith, both.next, mid.few, room, length-append good mid.more, length-append g ps))
          tt e2 in
      record {
        more = mid.more ++ rest.more;
        of_points = Framed-append c typ g ps mid.more rest.more mid.of_points rest.of_points;
        held =
            subst (λ t. Holds w w' q t) (append_assoc good mid.more rest.more)
              (Holds-append w u w' q (good ++ mid.more) rest.more both rest.held);
        few =
            omega (arith, mid.few, rest.few, length-append mid.more rest.more, length-append g ps);
      }

  group_left_out :
      (x : FrameError)
      → encode_points c typ g ≡ err x
      → is_frame_too_large x ≡ true
      → length g ≤ 1
      → next w good ≡ (w', ok tt)
      → Appends c typ w w' q good (g ++ ps)
  group_left_out x coded_err large single e =
      let rest = spec w w' q good r (omega (arith, room, length-append g ps)) long e in
      let (p, alone) = one_point g (filled, single) in
      record {
        more = rest.more;
        of_points =
            subst (λ t. Framed c typ (t ++ ps) rest.more) (sym alone)
              (left_out p ps x rest.more
                (subst (λ t. encode_points c typ t ≡ err x) alone coded_err) large rest.of_points);
        held = rest.held;
        few = omega (arith, rest.few, length-append g ps);
      }

  group-Appends :
      (split : Wal → List Point → Outcome) (batch : ℕ)
      → (1 < batch → Splits c typ split)
      → length g ≤ batch
      → collect_group split next batch w good g (encode_points c typ g) ≡ (w', ok tt)
      → Appends c typ w w' q good (g ++ ps)
  unfolding collect_group
  group-Appends split batch splits fits e = elim (Result-cases (encode_points c typ g)) [
    | inl (fb, coded_ok) ↦
        group_framed fb coded_ok (sym (ap (collect_group split next batch w good g) coded_ok) ∙ e)
    | inr (x, coded_err) ↦
        let e' : collect_group split next batch w good g (err x) ≡ (w', ok tt) =
          sym (ap (collect_group split next batch w good g) coded_err) ∙ e in
        elim (Bool-cases (is_frame_too_large x)) [
          | inr other ↦ absurd (err≢ok _ _ (ap (λ p. p.1) (simp (other) at e')))
          | inl large ↦ elim (Bool-cases (ltb 1 batch)) [
            | inl many ↦ group_split split (splits (ltb→lt 1 batch many)) (simp (large, many) at e')
            | inr single ↦
                group_left_out x coded_err large (omega (arith, fits, ltb→ge 1 batch single))
                  (simp (large, single) at e')
          ]
        ]
  ]

collect-Collects :
    (c : Compression) (typ : ℕ) (split : Wal → List Point → Outcome) (batch : ℕ)
    → (1 < batch → Splits c typ split)
    → (gs : List (List Point)) → All (Fits batch) gs
    → Collects c typ (collect c typ split batch gs) (flat gs)
unfolding collect
collect-Collects c typ split batch splits [] fits w w' q good r room long e = record {
  more = [];
  of_points = no_points;
  held =
      subst (λ t. Holds w w' q t) (sym (append-nil good))
        (append_good-Holds w w' q good r (omega arith) long e);
  few = omega arith;
}
collect-Collects c typ split batch splits (g ∷ gs) (fit, fits) w w' q good r room long e =
    group-Appends c typ (collect c typ split batch gs) (flat gs)
      (collect-Collects c typ split batch splits gs fits) w w' q good g fit.0 r room long split
      batch splits fit.1 e

groups-Fits :
    (fuel batch : ℕ) (ps : List Point) → 0 < batch → All (Fits batch) (groups fuel batch ps)
unfolding groups
groups-Fits zero batch ps h = tt
groups-Fits (suc fuel) batch [] h = tt
groups-Fits (suc fuel) batch (p ∷ ps) h =
    let size = length-take batch (p ∷ ps) in
    ((omega (arith, size), omega (arith, size)), groups-Fits fuel batch (drop batch (p ∷ ps)) h)

pub flat-groups :
    (fuel batch : ℕ) (ps : List Point)
    → 0 < batch
    → length ps ≤ fuel
    → flat (groups fuel batch ps) ≡ ps
unfolding groups
flat-groups zero batch [] h le = refl
flat-groups zero batch (p ∷ ps) h le = absurd (omega arith)
flat-groups (suc fuel) batch [] h le = refl
flat-groups (suc fuel) batch (p ∷ ps) h le =
    ap (λ t. take batch (p ∷ ps) ++ t)
      (flat-groups fuel batch (drop batch (p ∷ ps)) h (omega (arith, length-drop batch (p ∷ ps))))
    ∙ take-append-drop batch (p ∷ ps)

pub append_points-Appends :
    (fuel : ℕ) (c : Compression) (typ batch : ℕ)
    → batch < fuel
    → (w w' : Wal) (q : Queue) (ps : List Point) → Represents w q
    → w.cp.next_seq + length ps < 2 ^ 64
    → append_points fuel c typ batch w ps ≡ (w', ok tt)
    → Appends c typ w w' q [] ps
unfolding append_points
append_points-Appends zero c typ batch enough w w' q ps r room e = absurd (omega arith)
append_points-Appends (suc fuel) c typ batch enough w w' q ps r room e =
    let size : ℕ = if ltb batch 1 then 1 else batch in
    let positive : 0 < size = ground arith in
    let whole : flat (groups (length ps) size ps) ≡ ps =
      flat-groups (length ps) size ps positive (omega arith) in
    let half : 1 < size → Splits c typ (append_points fuel c typ (size / 2)) =
      λ many. append_points-Appends fuel c typ (size / 2) (ground (arith, many)) in
    subst (λ t. Appends c typ w w' q [] t) whole
      (collect-Collects c typ (append_points fuel c typ (size / 2)) size half
        (groups (length ps) size ps) (groups-Fits (length ps) size ps positive) w w' q [] r
        (omega (arith, ap length whole, room)) tt e)
