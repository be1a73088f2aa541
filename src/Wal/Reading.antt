-- ===== src/Wal/Reading.antt =====
-- internal/wal/wal.go, PeekBatch and Peek: the oldest unconfirmed frames are read back.
use influx_sync.Base.{
  ℕ, ◌+◌, Option, none, some, List, [], ◌∷◌, ltb, leb, if◌then◌else◌, length, take, drop, Result,
  ok, err,
}
use influx_sync.Wal.Segments.{Files, content, remove, read_at}
use influx_sync.Wal.{
  record_head_len, FrameIndex, WalError, Wal, empty, index_out_of_range, read_frame,
}

-- The files that PeekBatch reads: the current segment is not among them while curFile is nil.
unfoldable pub readable : Wal → Files
readable w = if w.cur_open then w.files else remove w.cur_seg w.files

-- The bytes of one frame, read back behind its record head.
unfoldable pub frame_at : Files → FrameIndex → Option (List ℕ)
frame_at files fi = elim (content fi.seg files) [
  | none ↦ none
  | some c ↦ read_at (fi.offset + record_head_len) fi.length c
]

read_each :
    ℕ → Option (List ℕ) → Result WalError (List (ℕ × List ℕ)) → Result WalError (List (ℕ × List ℕ))
read_each seq none rest = err (read_frame seq)
read_each seq (some b) (ok out) = ok ((seq, b) ∷ out)
read_each seq (some b) (err e) = err e

unfoldable pub read_frames : Files → List FrameIndex → Result WalError (List (ℕ × List ℕ))
unfolding read_each
read_frames files [] = ok []
read_frames files (fi ∷ rest) = read_each fi.seq (frame_at files fi) (read_frames files rest)

-- The oldest `n` unconfirmed frames; all of them where `n` is not positive.
unfoldable pub peek_batch : Wal → ℕ → Result WalError (List (ℕ × List ℕ))
peek_batch w n =
    let pending = drop w.acked w.index in
    if leb (length w.index) w.acked
    then err empty
    else if ltb 0 n
    then read_frames (readable w) (take n pending)
    else read_frames (readable w) pending

unfoldable pub first_frame : Result WalError (List (ℕ × List ℕ)) → Result WalError (ℕ × List ℕ)
first_frame (err e) = err e
first_frame (ok []) = err index_out_of_range
first_frame (ok (f ∷ rest)) = ok f

unfoldable pub peek : Wal → Result WalError (ℕ × List ℕ)
unfolding first_frame
peek w = first_frame (peek_batch w 1)
