-- ===== src/Wal/Commit.antt =====
-- internal/wal/wal.go, commitLocked: the oldest frame is confirmed, and the segments that no frame
-- needs are removed.
use influx_sync.Base.{
  ℕ, zero, suc, ◌+◌, ◌-◌, Bool, true, false, not, Option, none, some, List, [], ◌∷◌, ltb, ◌==◌,
  if◌then◌else◌, get_elem?, drop, Result, ok, err,
}
use influx_sync.Wal.Segments.{remove}
use influx_sync.Wal.{
  record_head_len, checkpoint_interval, FrameIndex, WalError, Wal, persist, index_out_of_range,
  commit_out_of_order,
}

unfoldable pub persist_throttled : Wal → ℕ → Wal
unfolding persist
persist_throttled w now = if ltb (now - w.last_cp) checkpoint_interval then w else persist w now

unfoldable pub after_segment : ℕ → Option FrameIndex → Bool
after_segment k none = true
after_segment k (some fi) = not (fi.seg == k)

-- Whether the oldest segment holds no unconfirmed frame.
unfoldable pub seg_done : Wal → Bool
unfolding after_segment
seg_done w = after_segment w.cp.seg_start (get_elem? w.index w.acked)

-- The oldest segment goes, and with the current one the next number is current.
unfoldable pub remove_segment : Wal → Wal
remove_segment w =
    let at_end = w.cp.seg_start == w.cur_seg in
    record w {
      files = remove w.cp.seg_start w.files;
      cp = record w.cp { seg_start = w.cp.seg_start + 1; acked_bytes = 0 };
      index = drop w.acked w.index;
      acked = 0;
      cur_open = (if at_end then false else w.cur_open);
      cur_seg = (if at_end then w.cur_seg + 1 else w.cur_seg);
      cur_offset = (if at_end then 0 else w.cur_offset);
    }

unfoldable pub no_frames : List FrameIndex → Bool
no_frames [] = true
no_frames (fi ∷ rest) = false

-- The loop that removes the segments that are done, and whether it removed one.
unfoldable pub remove_segments : ℕ → Wal → Bool → Wal × Bool
unfolding no_frames
remove_segments zero w removed = (w, removed)
remove_segments (suc fuel) w removed =
    let next = remove_segment w in
    let rest = remove_segments fuel next true in
    if seg_done w then (if no_frames next.index then (next, true) else rest) else (w, removed)

-- Segment numbers rise, so a round for each number up to the current one is enough.
unfoldable pub removal_rounds : Wal → ℕ
removal_rounds w = suc (suc w.cur_seg - w.cp.seg_start)

unfoldable pub persist_commit : ℕ → Wal × Bool → Wal
unfolding persist persist_throttled
persist_commit now (w, removed) = if removed then persist w now else persist_throttled w now

unfoldable pub confirm : Wal → FrameIndex → Wal
confirm w fi = record w {
  acked = w.acked + 1;
  cp = record w.cp { acked_bytes = fi.offset + record_head_len + fi.length };
}

unfoldable pub commit_at : Wal → ℕ → ℕ → Option FrameIndex → Wal × Result WalError (Unit {0})
unfolding confirm removal_rounds persist_commit
commit_at w now seq none = (w, err index_out_of_range)
commit_at w now seq (some fi) =
    if fi.seq == seq
    then (persist_commit now (remove_segments (removal_rounds w) (confirm w fi) false), ok tt)
    else (w, err (commit_out_of_order seq fi.seq))

-- With nothing unconfirmed the error's own text reads w.index[w.acked], out of range.
unfoldable pub commit : Wal → ℕ → ℕ → Wal × Result WalError (Unit {0})
unfolding commit_at
commit w now seq = commit_at w now seq (get_elem? w.index w.acked)
