-- ===== src/SeqTracker/Prefix.antt =====
-- What seqTracker of internal/receiver/receiver.go keeps true of last_seq.
use influx_sync.Base.{
  ℕ, zero, suc, ◌+◌, ◌≤◌, ◌<◌, ◌≡◌, Bool, true, false, [], ltb, leb, length, arith, add64, IsU64,
  has, insert, delete_upto, Bool-cases, tests, inl, inr, sym, has_of_delete, has_of_delete_upto,
  has_of_insert, ge→ltb, leb→gt,
}
use native.Mathlib.Decide.{dec_le}
use mathlib.Core.Path.{subst}
use influx_sync.SeqTracker.{
  SeqTracker, seq_jump_limit, seq_pending_limit, close_gap, advance_one, advance, drop_overflow,
  done,
}

no_member : (s : ℕ) → has s [] ≡ true → ⊥
unfolding has
no_member s h = cc

-- Of every number above `base` that last_seq has reached, and of every one that waits in `pending`,
-- `P` holds. With `P` for "the frame is done", last_seq never passes a frame that is not.
pub record IsTracking (P : ℕ → Type 0) (base : ℕ) (t : SeqTracker) : Type 0 where
  pub last_fits : IsU64 t.last
  pub above : (s : ℕ) → has s t.pending ≡ true → t.last < s
  pub fits : (s : ℕ) → has s t.pending ≡ true → IsU64 s
  pub covered : (s : ℕ) → base < s → s ≤ t.last → P s
  pub held : (s : ℕ) → has s t.pending ≡ true → P s

module _ {P : ℕ → Type 0} {base : ℕ} where
  pub next_fits :
      {t : SeqTracker}
      → IsTracking P base t
      → has (add64 t.last 1) t.pending ≡ true
      → add64 t.last 1 ≡ t.last + 1
  next_fits {t} k h = omega (arith, k.above (add64 t.last 1) h, k.last_fits)

  pub advance_one-IsTracking :
      {t : SeqTracker}
      → IsTracking P base t
      → has (add64 t.last 1) t.pending ≡ true
      → IsTracking P base (advance_one t)
  unfolding advance_one
  advance_one-IsTracking {t} k h =
      let next : add64 t.last 1 ≡ t.last + 1 = next_fits k h in
      record {
        last_fits = omega arith;
        above = λ s hs.
            let (old, ne) = has_of_delete (add64 t.last 1) s t.pending hs in
            omega (arith, k.above s old);
        fits = λ s hs. k.fits s (has_of_delete (add64 t.last 1) s t.pending hs).0;
        covered = λ s lo hi. elim (dec_le s t.last) [
          | yes old ↦ k.covered s lo old
          | no new ↦
              let e : add64 t.last 1 ≡ s = omega arith in subst P e (k.held (add64 t.last 1) h)
        ];
        held = λ s hs. k.held s (has_of_delete (add64 t.last 1) s t.pending hs).0;
      }

  advance-IsTracking :
      (fuel : ℕ) (t : SeqTracker) (advanced : Bool)
      → IsTracking P base t
      → IsTracking P base (advance fuel t advanced).0
  unfolding advance
  advance-IsTracking zero t advanced k = k
  advance-IsTracking (suc fuel) t advanced k = elim (Bool-cases (has (add64 t.last 1) t.pending)) [
    | inl ready ↦
        rw ready (advance-IsTracking fuel (advance_one t) true (advance_one-IsTracking k ready))
    | inr gap ↦ rw gap k
  ]

  empty-IsTracking :
      {t : SeqTracker} → IsTracking P base t → IsTracking P base (record t { pending = [] })
  empty-IsTracking {t} k = record {
    last_fits = k.last_fits;
    above = λ s hs. absurd (no_member s hs);
    fits = λ s hs. absurd (no_member s hs);
    covered = k.covered;
    held = λ s hs. absurd (no_member s hs);
  }

  drop_overflow-IsTracking :
      (t : SeqTracker) → IsTracking P base t → IsTracking P base (drop_overflow t)
  unfolding drop_overflow
  drop_overflow-IsTracking t k = elim (Bool-cases (ltb seq_pending_limit (length t.pending))) [
    | inl over ↦ rw over (empty-IsTracking k)
    | inr fine ↦ rw fine k
  ]

  pub insert-IsTracking :
      {t : SeqTracker} (seq : ℕ)
      → IsTracking P base t
      → t.last < seq
      → IsU64 seq
      → P seq
      → IsTracking P base (record t { pending = insert seq t.pending })
  insert-IsTracking {t} seq k new hs hp = record {
    last_fits = k.last_fits;
    above = λ s m. elim (has_of_insert seq s t.pending m) [
      | inl e ↦ omega arith
      | inr old ↦ k.above s old
    ];
    fits = λ s m. elim (has_of_insert seq s t.pending m) [
      | inl e ↦ omega arith
      | inr old ↦ k.fits s old
    ];
    covered = k.covered;
    held = λ s m. elim (has_of_insert seq s t.pending m) [
      | inl e ↦ subst P (sym e) hp
      | inr old ↦ k.held s old
    ];
  }

  -- `done` keeps the tracker's invariant whenever the frame that it reports is done and is no jump
  -- of more than seq_jump_limit past last_seq: last_seq never passes a frame that is not done.
  pub done-IsTracking :
      (t : SeqTracker) (seq : ℕ)
      → IsTracking P base t
      → IsU64 (t.last + seq_jump_limit)
      → seq ≤ t.last + seq_jump_limit
      → P seq
      → IsTracking P base (done t seq).0
  unfolding done
  done-IsTracking t seq k room near hp = elim (Bool-cases (leb seq t.last)) [
    | inl old ↦ rw old k
    | inr new ↦
        let far : ltb (add64 t.last seq_jump_limit) seq ≡ false = ge→ltb _ _ (omega arith) in
        let in_range : IsU64 seq = omega arith in
        rw (new, far)
          (drop_overflow-IsTracking _ (
            advance-IsTracking (suc (length (insert seq t.pending)))
              (record t { pending = insert seq t.pending }) false
              (insert-IsTracking seq k (leb→gt seq t.last new) in_range hp)))
  ]

  closed :
      {t : SeqTracker} (last : ℕ)
      → IsTracking P base t
      → IsU64 last
      → ((s : ℕ) → t.last < s → s ≤ last → P s)
      → t.last ≤ last
      → IsTracking P base (record { last = last; pending = delete_upto last t.pending })
  closed {t} last k hl filled up = record {
    last_fits = hl;
    above = λ s m. (has_of_delete_upto last s t.pending m).1;
    fits = λ s m. k.fits s (has_of_delete_upto last s t.pending m).0;
    covered = λ s lo hi. elim (dec_le s t.last) [
      | yes old ↦ k.covered s lo old
      | no new ↦ filled s (omega arith) hi
    ];
    held = λ s m. k.held s (has_of_delete_upto last s t.pending m).0;
  }

  -- Closing a gap keeps the invariant whenever everything up to the closed end is done.
  pub close_gap-IsTracking :
      (t : SeqTracker) (up_to : ℕ)
      → IsTracking P base t
      → IsU64 up_to
      → ((s : ℕ) → t.last < s → s ≤ up_to → P s)
      → IsTracking P base (close_gap t up_to)
  unfolding close_gap
  close_gap-IsTracking t up_to k hu filled = elim (Bool-cases (ltb t.last up_to)) [
    | inl forward ↦ rw forward (closed up_to k hu filled (omega (tests)))
    | inr stale ↦
        rw stale (closed t.last k k.last_fits (λ s lo hi. absurd (omega arith)) (omega arith))
  ]

-- The invariant for a weaker claim about frames.
pub IsTracking-mono :
    {P Q : ℕ → Type 0} {base : ℕ} {t : SeqTracker}
    → ((s : ℕ) → P s → Q s)
    → IsTracking P base t
    → IsTracking Q base t
IsTracking-mono {t} f k = record {
  last_fits = k.last_fits;
  above = k.above;
  fits = k.fits;
  covered = λ s lo hi. f s (k.covered s lo hi);
  held = λ s h. f s (k.held s h);
}
