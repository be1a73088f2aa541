-- ===== src/Wal/Batches.antt =====
-- internal/wal/wal.go, AppendBatch: the number and the cursor behind a batch.
use influx_sync.Base.{
  ℕ, ◌+◌, ◌^◌, ◌≤◌, ◌<◌, ◌≡◌, refl, ap, ◌∙◌, List, [], ◌∷◌, ◌++◌, length, arith, Result, ok, err,
  Bool-cases, inl, inr, add64, sym, ltb, err≢ok, if_both,
}
use influx_sync.Protocol.{header_size}
use influx_sync.Wal.{
  Wal, WalError, ensure_space, write_record, notify_append, append_one, append_frames, batch_done,
  append_batch, rotate,
}

-- A batch of one frame that is too short leaves the log as it is.
pub append_batch_refused :
    (w w' : Wal) (frame : List ℕ) (e : WalError)
    → append_batch w (frame ∷ []) ≡ (w', err e)
    → w' ≡ w
unfolding append_batch append_frames batch_done
append_batch_refused w w' frame e h = ground arith

-- A batch of one frame takes one number.
pub append_batch_one :
    (w w' : Wal) (frame : List ℕ) (seqs : List ℕ)
    → append_batch w (frame ∷ []) ≡ (w', ok seqs)
    → (header_size ≤ length frame) × (w'.cp.next_seq ≡ add64 w.cp.next_seq 1)
unfolding append_batch append_frames batch_done append_one write_record notify_append ensure_space
    rotate
append_batch_one w w' frame seqs h = ground arith

append_one-next_seq :
    (w : Wal) (frame : List ℕ) → (append_one w frame).cp.next_seq ≡ add64 w.cp.next_seq 1
unfolding append_one write_record ensure_space rotate
append_one-next_seq w frame = ground arith

append_frames-next_seq :
    (w w' : Wal) (seqs seqs' : List ℕ) (frames : List (List ℕ))
    → w.cp.next_seq + length frames < 2 ^ 64
    → append_frames w seqs frames ≡ (w', ok seqs')
    → w'.cp.next_seq ≡ w.cp.next_seq + length frames
unfolding append_frames
append_frames-next_seq w w' seqs seqs' [] room e =
    let same : w.cp.next_seq ≡ w'.cp.next_seq = ap (λ p. p.0.cp.next_seq) e in omega (arith, same)
append_frames-next_seq w w' seqs seqs' (frame ∷ rest) room e =
    elim (Bool-cases (ltb (length frame) header_size)) [
      | inl short ↦ absurd (ground (arith, e, short))
      | inr long ↦
          let one = append_one-next_seq w frame in
          let step : append_frames w seqs (frame ∷ rest)
              ≡ append_frames (append_one w frame) (seqs ++ (w.cp.next_seq ∷ [])) rest =
            rw (long) refl in
          let more =
            append_frames-next_seq (append_one w frame) w' (seqs ++ (w.cp.next_seq ∷ [])) seqs' rest
              (omega (arith, one, room)) (sym step ∙ e) in
          omega (arith, one, more, room)
    ]

batch_done_ok :
    (p : Wal × Result WalError (List ℕ)) (w' : Wal) (seqs : List ℕ)
    → batch_done p ≡ (w', ok seqs)
    → (v : Wal) × (more : List ℕ) × (p ≡ (v, ok more)) × (v.cp.next_seq ≡ w'.cp.next_seq)
unfolding batch_done notify_append
batch_done_ok (v, ok more) w' seqs e = (v, more, refl, ap (λ p. p.0.cp.next_seq) e)
batch_done_ok (v, err x) w' seqs e = absurd (err≢ok _ _ (ap (λ p. p.1) e))

-- A batch takes a number for each frame.
pub append_batch-next_seq :
    (w w' : Wal) (seqs : List ℕ) (frames : List (List ℕ))
    → w.cp.next_seq + length frames < 2 ^ 64
    → append_batch w frames ≡ (w', ok seqs)
    → w'.cp.next_seq ≡ w.cp.next_seq + length frames
unfolding append_batch
append_batch-next_seq w w' seqs [] room e =
    let same : w.cp.next_seq ≡ w'.cp.next_seq = ap (λ p. p.0.cp.next_seq) e in omega (arith, same)
append_batch-next_seq w w' seqs (frame ∷ rest) room e =
    let (v, more, h, same) = batch_done_ok (append_frames w [] (frame ∷ rest)) w' seqs e in
    omega (arith, same, append_frames-next_seq w v [] more (frame ∷ rest) room h)

append_one-cursor : (w : Wal) (frame : List ℕ) → (append_one w frame).cp.cursor_ns ≡ w.cp.cursor_ns
unfolding append_one write_record ensure_space rotate
append_one-cursor w frame = ground arith

append_frames-cursor :
    (w : Wal) (seqs : List ℕ) (frames : List (List ℕ))
    → (append_frames w seqs frames).0.cp.cursor_ns ≡ w.cp.cursor_ns
unfolding append_frames
append_frames-cursor w seqs [] = refl
append_frames-cursor w seqs (frame ∷ rest) =
    if_both (λ (p : Wal × Result WalError (List ℕ)). p.0.cp.cursor_ns ≡ w.cp.cursor_ns)
      (ltb (length frame) header_size) _ _ (λ short. refl)
      (λ long.
        append_frames-cursor (append_one w frame) (seqs ++ (w.cp.next_seq ∷ [])) rest
        ∙ append_one-cursor w frame)

batch_done-cursor :
    (p : Wal × Result WalError (List ℕ)) → (batch_done p).0.cp.cursor_ns ≡ p.0.cp.cursor_ns
unfolding batch_done notify_append
batch_done-cursor (w, ok seqs) = refl
batch_done-cursor (w, err e) = refl

-- AppendBatch leaves the cursor alone.
pub append_batch-cursor :
    (w : Wal) (frames : List (List ℕ)) → (append_batch w frames).0.cp.cursor_ns ≡ w.cp.cursor_ns
unfolding append_batch
append_batch-cursor w [] = refl
append_batch-cursor w (frame ∷ rest) =
    batch_done-cursor (append_frames w [] (frame ∷ rest)) ∙ append_frames-cursor w [] (frame ∷ rest)
