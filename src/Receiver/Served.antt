-- ===== src/Receiver/Served.antt =====
-- internal/receiver/receiver.go: a number that last_seq has reached belongs to a frame that is in
-- InfluxDB or in the dead-letter directory.
use influx_sync.Base.{
  ℕ, ◌+◌, ◌-◌, ◌^◌, ◌≤◌, ◌<◌, ◌≡◌, inl, inr, refl, sym, ◌∙◌, Bool, true, false, ◌||◌, List, [], ◌∷◌,
  ◌==◌, arith, Bool-cases,
}
use native.Mathlib.Decide.{dec_lt}
use mathlib.Core.Bool.{false≢true}
use influx_sync.SeqTracker.{SeqTracker, seq_jump_limit, close_gap, done}
use influx_sync.SeqTracker.Prefix.{
  IsTracking, IsTracking-mono, done-IsTracking, close_gap-IsTracking,
}
use influx_sync.SeqTracker.Stopping.{done_advanced}
use influx_sync.Receiver.{Config, DlqMeta, Env, Receiver, advance_seq, mark_done, warn_gap}

-- The number of a payload in InfluxDB.
abbrev pub is_stored : ℕ → List (ℕ × List ℕ) → Bool
is_stored s [] = false
is_stored s ((k, raw) ∷ rest) = k == s || is_stored s rest

-- The number of a dead letter.
abbrev pub is_dead : ℕ → List DlqMeta → Bool
is_dead s [] = false
is_dead s (m ∷ rest) = m.seq_num == s || is_dead s rest

abbrev pub is_kept : ℕ → Receiver → Bool
is_kept s r = is_stored s r.stored || is_dead s r.dead

-- The frame with this number is kept. Numbers stay far below the int64 limit.
abbrev pub Kept : Receiver → ℕ → Type 0
Kept r s = (is_kept s r ≡ true) × (s < 2 ^ 62)

pub record IsServing (base : ℕ) (r : Receiver) : Type 0 where
  pub tracking : IsTracking (Kept r) base r.seq_ord
  pub agree : r.last_seq ≡ r.seq_ord.last
  pub base_fits : base < 2 ^ 62
  pub started : base ≤ r.last_seq

tracked_fits :
    {base : ℕ} (r : Receiver) (t : SeqTracker)
    → IsTracking (Kept r) base t
    → base < 2 ^ 62
    → t.last < 2 ^ 62
tracked_fits {base} r t k h = elim (dec_lt base t.last) [
  | yes up ↦ (k.covered t.last up (omega arith)).1
  | no low ↦ omega arith
]

pub last_fits : {base : ℕ} {r : Receiver} → IsServing base r → r.last_seq < 2 ^ 62
last_fits {base} {r} s = omega (arith, s.agree, tracked_fits r r.seq_ord s.tracking s.base_fits)

pub Kept-same :
    (r r' : Receiver) (s : ℕ) → r'.stored ≡ r.stored → r'.dead ≡ r.dead → Kept r s → Kept r' s
Kept-same r r' s es ed (k, fits) = (rw (es, ed) k, fits)

-- The same tracker and at least the same frames kept.
pub IsServing-more :
    {base : ℕ} (r r' : Receiver)
    → ((s : ℕ) → Kept r s → Kept r' s)
    → r'.seq_ord ≡ r.seq_ord
    → r'.last_seq ≡ r.last_seq
    → IsServing base r
    → IsServing base r'
IsServing-more {base} r r' more eo el s = record {
  tracking = rw eo (IsTracking-mono more s.tracking);
  agree = rw (eo, el) s.agree;
  base_fits = s.base_fits;
  started = omega (arith, el, s.started);
}

module _ (cfg : Config) (env : Env) where
  -- advance_seq touches last_seq and its file alone.
  pub record SameBut (r r' : Receiver) : Type 0 where
    pub seq_ord : r'.seq_ord ≡ r.seq_ord
    pub stored : r'.stored ≡ r.stored
    pub dead : r'.dead ≡ r.dead
    pub relayed : r'.relayed ≡ r.relayed
    pub inflight : r'.inflight_seq ≡ r.inflight_seq

  pub advance_seq_keeps : (r : Receiver) (seq : ℕ) → SameBut r (advance_seq cfg env r seq)
  unfolding advance_seq
  advance_seq_keeps r seq = record {
    seq_ord = ground arith;
    stored = ground arith;
    dead = ground arith;
    relayed = ground arith;
    inflight = ground arith;
  }

  pub advance_seq_raises :
      (r : Receiver) (seq : ℕ)
      → r.last_seq < seq
      → seq < 2 ^ 62
      → (advance_seq cfg env r seq).last_seq ≡ seq
  unfolding advance_seq
  advance_seq_raises r seq up fits = ground arith

  pub mark_done_keeps :
      (r : Receiver) (seq : ℕ)
      → let r' = mark_done cfg env r seq in
        (r'.stored ≡ r.stored) × (r'.dead ≡ r.dead) × (r'.inflight_seq ≡ r.inflight_seq)
  unfolding mark_done
  mark_done_keeps r seq =
      let (t, advanced) = done r.seq_ord seq in
      let k = advance_seq_keeps (record r { seq_ord = t }) t.last in
      elim (Bool-cases advanced) [
        | inl up ↦ rw up (k.stored, k.dead, k.inflight)
        | inr stay ↦ rw stay (refl, refl, refl)
      ]

  -- A tracker that has moved on from `r`'s, and last_seq with it.
  pub move-IsServing :
      {base : ℕ} (r : Receiver) (t : SeqTracker)
      → IsServing base r
      → IsTracking (Kept r) base t
      → r.last_seq < t.last
      → IsServing base (advance_seq cfg env (record r { seq_ord = t }) t.last)
  move-IsServing {base} r t s k up =
      let r1 : Receiver = record r { seq_ord = t } in
      let same = advance_seq_keeps r1 t.last in
      let small = tracked_fits r t k s.base_fits in
      let more : (x : ℕ) → Kept r x → Kept (advance_seq cfg env r1 t.last) x =
        λ x. Kept-same r (advance_seq cfg env r1 t.last) x same.stored same.dead in
      record {
        tracking = rw same.seq_ord (IsTracking-mono more k);
        agree = rw same.seq_ord (advance_seq_raises r1 t.last up small);
        base_fits = s.base_fits;
        started = omega (arith, advance_seq_raises r1 t.last up small, s.started);
      }

  -- Marking a kept frame as done keeps the invariant.
  pub mark_done-IsServing :
      {base : ℕ} (r : Receiver) (seq : ℕ)
      → IsServing base r
      → Kept r seq
      → seq ≤ r.last_seq + seq_jump_limit
      → IsServing base (mark_done cfg env r seq)
  unfolding mark_done
  mark_done-IsServing {base} r seq s kept near =
      let low = last_fits s in
      let d = done r.seq_ord seq in
      let k : IsTracking (Kept r) base d.0 =
        done-IsTracking r.seq_ord seq s.tracking (omega (arith, s.agree)) (omega (arith, s.agree))
          kept in
      let (le, says) =
        done_advanced r.seq_ord seq s.tracking (omega arith) (omega (arith, s.agree)) kept in
      elim (Bool-cases d.1) [
        | inl up ↦ rw up (move-IsServing r d.0 s k (omega (arith, s.agree, says.0 up)))
        | inr stay ↦
            let still : d.0.last ≡ r.seq_ord.last = elim (dec_lt r.seq_ord.last d.0.last) [
              | yes up ↦ absurd (false≢true (sym stay ∙ says.1 up))
              | no low ↦ omega arith
            ] in
            rw stay (record {
              tracking = k;
              agree = s.agree ∙ sym still;
              base_fits = s.base_fits;
              started = s.started;
            })
      ]

  -- The frames that a first frame of a connection is taken to vouch for are kept.
  abbrev pub Vouched : ℕ → Receiver → ℕ → Type 0
  Vouched frame_idx r seq = frame_idx ≡ 0 → (s : ℕ) → r.last_seq < s → s < seq → Kept r s

  -- What the start of a frame's handling leaves in place.
  pub record Begun (r r' : Receiver) : Type 0 where
    pub stored : r'.stored ≡ r.stored
    pub dead : r'.dead ≡ r.dead
    pub up : r.last_seq ≤ r'.last_seq

  warn_gap_same :
      (r : Receiver) (seq : ℕ)
      → let r' = warn_gap env r seq in
        (r'.stored ≡ r.stored)
        × (r'.dead ≡ r.dead)
        × (r'.last_seq ≡ r.last_seq)
        × (r'.seq_ord ≡ r.seq_ord)
        × (r'.inflight_seq ≡ r.inflight_seq)
  unfolding warn_gap
  warn_gap_same r seq = ground arith

  pub warn-IsServing :
      {base : ℕ} (r : Receiver) (seq : ℕ)
      → IsServing base r
      → IsServing base (warn_gap env r seq) × Begun r (warn_gap env r seq)
  warn-IsServing {base} r seq s =
      let (es, ed, el, eo, _) = warn_gap_same r seq in
      (
        IsServing-more r (warn_gap env r seq) (λ x. Kept-same r (warn_gap env r seq) x es ed) eo el
            s,
        record { stored = es; dead = ed; up = omega arith },
      )

  -- Closing the gap before a number all of whose missing predecessors are kept.
  pub close-IsServing :
      {base : ℕ} (r : Receiver) (seq : ℕ)
      → IsServing base r
      → r.last_seq + 1 < seq
      → seq < 2 ^ 62
      → ((s : ℕ) → r.last_seq < s → s < seq → Kept r s)
      → let t = close_gap r.seq_ord (seq - 1) in
        let r' = advance_seq cfg env (record r { seq_ord = t }) t.last in
        IsServing base r' × Begun r r' × (r'.last_seq ≡ seq - 1)
  close-IsServing {base} r seq s gap small vouched =
      let t = close_gap r.seq_ord (seq - 1) in
      let k : IsTracking (Kept r) base t =
        close_gap-IsTracking r.seq_ord (seq - 1) s.tracking (omega arith)
          (λ x lo hi. vouched x (omega (arith, s.agree)) (omega arith)) in
      let at : t.last ≡ seq - 1 = unfold close_gap in ground (arith, s.agree) in
      let same = advance_seq_keeps (record r { seq_ord = t }) t.last in
      let raised =
        advance_seq_raises (record r { seq_ord = t }) t.last (omega arith) (omega arith) in
      (
        move-IsServing r t s k (omega arith),
        record { stored = same.stored; dead = same.dead; up = omega arith },
        raised ∙ at,
      )
