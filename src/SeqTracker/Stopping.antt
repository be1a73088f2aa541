-- ===== src/SeqTracker/Stopping.antt =====
-- internal/receiver/receiver.go, the loop of done: it ends by its own test, and what it reports.
use influx_sync.Base.{
  ℕ, zero, suc, ◌+◌, ◌≤◌, ◌<◌, ◌≡◌, refl, Bool, true, false, ltb, leb, length, arith, add64, IsU64,
  has, insert, length-delete-lt, Bool-cases, tests, inl, inr, ◌⊎◌, ◌↔◌, ◌∙◌, sym, leb→gt,
}
use mathlib.Core.Bool.{false≢true}
use influx_sync.SeqTracker.{SeqTracker, seq_jump_limit, advance_one, advance, drop_overflow, done}
use influx_sync.SeqTracker.Prefix.{IsTracking, next_fits, advance_one-IsTracking, insert-IsTracking}

-- `advance` ends by its test: with a round for each member of `pending` and one more, the number
-- after last_seq is not waiting.
advance_stops :
    (fuel : ℕ) (t : SeqTracker) (advanced : Bool)
    → length t.pending < fuel
    → let t' = (advance fuel t advanced).0 in has (add64 t'.last 1) t'.pending ≡ false
unfolding advance
advance_stops zero t advanced h = absurd (omega arith)
advance_stops (suc fuel) t advanced h = elim (Bool-cases (has (add64 t.last 1) t.pending)) [
  | inl ready ↦ rw ready (
      advance_stops fuel (advance_one t) true
        (unfold advance_one in omega (arith, length-delete-lt (add64 t.last 1) t.pending ready)))
  | inr gap ↦ rw gap gap
]

drop_overflow-gap :
    (t : SeqTracker)
    → has (add64 t.last 1) t.pending ≡ false
    → has (add64 (drop_overflow t).last 1) (drop_overflow t).pending ≡ false
unfolding drop_overflow has
drop_overflow-gap t h = ground arith

abbrev Stopped : SeqTracker → Type 0
Stopped t = has (add64 t.last 1) t.pending ≡ false

-- After every `done` the number after last_seq is not waiting: last_seq has gone as far as it can.
pub done_stops :
    (t : SeqTracker) (seq : ℕ)
    → has (add64 t.last 1) t.pending ≡ false
    → has (add64 (done t seq).0.last 1) (done t seq).0.pending ≡ false
unfolding done
done_stops t seq h = elim (Bool-cases (leb seq t.last)) [
  | inl old ↦ rw old h
  | inr new ↦ elim (Bool-cases (ltb (add64 t.last seq_jump_limit) seq)) [
    | inl far ↦ rw (new, far) (unfold has in refl)
    | inr near ↦
        let start : SeqTracker = record t { pending = insert seq t.pending } in
        rw (new, near)
          (drop_overflow-gap _
            (advance_stops (suc (length start.pending)) start false (omega arith)))
  ]
]

-- What `advance` says of its move: a round raises last_seq, and the flag tells whether one was made.
abbrev Says : SeqTracker → Bool → SeqTracker × Bool → Type 0
Says t advanced r =
    (t.last ≤ r.0.last)
    × (advanced ≡ true → r.1 ≡ true)
    × (r.1 ≡ false → r.0.last ≡ t.last)
    × (r.1 ≡ true → (advanced ≡ true) ⊎ (t.last < r.0.last))

advance-Says :
    {P : ℕ → Type 0} {base : ℕ} (fuel : ℕ) (t : SeqTracker) (advanced : Bool)
    → IsTracking P base t
    → Says t advanced (advance fuel t advanced)
unfolding advance
advance-Says zero t advanced k = (omega arith, λ h. h, λ _. refl, λ h. inl h)
advance-Says {P} {base} (suc fuel) t advanced k =
    elim (Bool-cases (has (add64 t.last 1) t.pending)) [
      | inl ready ↦
          let up : (advance_one t).last ≡ t.last + 1 = unfold advance_one in next_fits k ready in
          let (le, stays, _, _) =
            advance-Says fuel (advance_one t) true (advance_one-IsTracking k ready) in
          rw ready (
            omega arith,
            λ _. stays refl,
            λ h. absurd (false≢true (sym h ∙ stays refl)),
            λ _. inr (omega arith),
          )
      | inr gap ↦ rw gap (omega arith, λ h. h, λ _. refl, λ h. inl h)
    ]

drop_overflow-last : (t : SeqTracker) → (drop_overflow t).last ≡ t.last
unfolding drop_overflow
drop_overflow-last t = ground arith

-- `done` never lowers last_seq, and answers `true` exactly when it has raised it. The tracker's
-- invariant holds, and the number and last_seq + 100000 are below 2 ^ 64.
pub done_advanced :
    {P : ℕ → Type 0} {base : ℕ} (t : SeqTracker) (seq : ℕ)
    → IsTracking P base t
    → IsU64 seq
    → IsU64 (t.last + seq_jump_limit)
    → P seq
    → (t.last ≤ (done t seq).0.last) × (((done t seq).1 ≡ true) ↔ (t.last < (done t seq).0.last))
unfolding done
done_advanced t seq k hs room hp = elim (Bool-cases (leb seq t.last)) [
  | inl old ↦ rw old (omega arith, ((λ h. absurd (false≢true h)), λ h. absurd (omega arith)))
  | inr new ↦ elim (Bool-cases (ltb (add64 t.last seq_jump_limit) seq)) [
    | inl far ↦ rw (new, far) (omega tests, ((λ _. omega tests), λ _. refl))
    | inr near ↦
        let start : SeqTracker = record t { pending = insert seq t.pending } in
        let r = advance (suc (length start.pending)) start false in
        let says : Says start false r =
          advance-Says (suc (length start.pending)) start false
            (insert-IsTracking seq k (leb→gt seq t.last new) hs hp) in
        let raised : r.1 ≡ true → t.last < r.0.last =
          λ h. elim (says.3 h) [ inl bad ↦ absurd (false≢true bad) | inr up ↦ up ] in
        let told : t.last < r.0.last → r.1 ≡ true =
          λ up. elim (Bool-cases r.1) [ inl e ↦ e | inr e ↦ absurd (omega (arith, says.2 e)) ] in
        rw (new, near, drop_overflow-last r.0) (says.0, (raised, told))
  ]
]
