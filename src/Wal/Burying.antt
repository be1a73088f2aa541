-- ===== src/Wal/Burying.antt =====
-- internal/wal/wal.go, MoveToDLQ: the oldest frame goes to the dead letters; and PendingCount and
-- PendingBytes.
use influx_sync.Base.{
  ℕ, ◌+◌, ◌-◌, Option, none, some, List, [], ◌∷◌, ltb, ◌==◌, if◌then◌else◌, length, get_elem?, drop,
  Result, err,
}
use influx_sync.Wal.{
  record_head_len, FrameIndex, WalError, Wal, read_frame, dlq_unknown, dlq_over_capacity,
}
use influx_sync.Wal.Reading.{frame_at}
use influx_sync.Wal.Commit.{commit}

unfoldable pub pending_count : Wal → ℕ
pending_count w = length w.index - w.acked

sum_bytes : List FrameIndex → ℕ
sum_bytes [] = 0
sum_bytes (fi ∷ rest) = record_head_len + fi.length + sum_bytes rest

unfoldable pub pending_bytes : Wal → ℕ
unfolding sum_bytes
pending_bytes w = sum_bytes (drop w.acked w.index)

-- writeDLQ: the frame, and `text` bytes of its reason.
unfoldable pub bury : Wal → ℕ → ℕ → ℕ → Option (List ℕ) → Wal × Result WalError (Unit {0})
bury w now seq text none = (w, err (read_frame seq))
bury w now seq text (some frame) =
    if ltb w.dlq_max w.dead_size
    then (w, err (dlq_over_capacity w.dead_size))
    else commit
        (record w { dead = (seq, frame) ∷ w.dead; dead_size = w.dead_size + (length frame + text) })
        now seq

unfoldable pub move_at : Wal → ℕ → ℕ → ℕ → Option FrameIndex → Wal × Result WalError (Unit {0})
unfolding bury
move_at w now seq text none = (w, err (dlq_unknown seq))
move_at w now seq text (some fi) =
    if fi.seq == seq then bury w now seq text (frame_at w.files fi) else (w, err (dlq_unknown seq))

unfoldable pub move_to_dlq : Wal → ℕ → ℕ → ℕ → Wal × Result WalError (Unit {0})
unfolding move_at
move_to_dlq w now seq text = move_at w now seq text (get_elem? w.index w.acked)
