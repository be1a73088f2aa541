-- ===== src/Wal/Recovery/Runs.antt =====
-- Tests of the recovery, and its theorems at concrete inputs.
use influx_sync.Base.{
  ℕ, true, false, ◌≡◌, refl, List, [], ◌∷◌, ◌++◌, arith, ok, err, some, ◌⊎◌, All, take, length, ◌%◌,
  ◌^◌, ◌<◌,
}
use influx_sync.Bytes.{put_uint, read_uint}
use influx_sync.Protocol.{encode_raw, put_header, header_of, check_header, parse_header}
use influx_sync.Wal.{Wal, Checkpoint, FrameIndex, rotate, record_head_len}
use influx_sync.Wal.Recovery.{
  inside_acked, Disk, record_len, bad_len, is_header, header_agrees, is_candidate, resync_from,
  lesser, resync_record, skip_at, skip_corrupt, at_end, or_resume, entry_at, with_entry,
  take_record, index_from, index_segment, max_seq, opened, open_wal, scan_segments, load_checkpoint,
  last_segment_idx, seg_numbers, remove_below, first_alive, index_all,
}
use influx_sync.Wal.Segments.{content, remove, truncate, create}
use influx_sync.Wal.Recovery.Records.{
  IsFrame, encode_raw-IsFrame, segment_of, record_of, entries_of, entry_of,
}
use influx_sync.Wal.Recovery.Tails.{index_segment-torn, index_segment-cut}
use influx_sync.Wal.Recovery.Scanning.{Indexes, index_segment_fuel, index_segment-Indexes}
use influx_sync.Wal.Recovery.Opening.{open_wal-next_seq}

code : ℕ
unfolding content remove truncate create record_len bad_len is_header header_agrees is_candidate
    resync_from lesser resync_record skip_at skip_corrupt at_end or_resume entry_at with_entry
    take_record index_from index_segment max_seq opened open_wal scan_segments load_checkpoint
    last_segment_idx seg_numbers remove_below first_alive index_all segment_of record_of entries_of
    entry_of put_uint read_uint encode_raw put_header header_of check_header parse_header rotate
code = 0

abbrev frame_7 : List ℕ
frame_7 = encode_raw 1 7 (10 ∷ 20 ∷ []) 99

abbrev frame_8 : List ℕ
frame_8 = encode_raw 1 8 (30 ∷ []) 98

frame_7-IsFrame : IsFrame frame_7
frame_7-IsFrame =
    encode_raw-IsFrame 1 7 (10 ∷ 20 ∷ []) 99 (omega arith) (omega arith) (omega arith) (omega arith)

frame_8-IsFrame : IsFrame frame_8
frame_8-IsFrame =
    encode_raw-IsFrame 1 8 (30 ∷ []) 98 (omega arith) (omega arith) (omega arith) (omega arith)

-- Two records, the first one confirmed, and the head of a third.
index_segment-torn_example :
    index_segment 3 (segment_of (frame_7 ∷ frame_8 ∷ []) ++ (0 ∷ 0 ∷ 0 ∷ [])) 26
    ≡ ok (record {
      bytes = segment_of (frame_7 ∷ frame_8 ∷ []);
      entries = entries_of 3 26 0 (frame_7 ∷ frame_8 ∷ []);
    })
unfolding code
index_segment-torn_example =
    index_segment-torn 3 26 (frame_7 ∷ frame_8 ∷ []) (0 ∷ 0 ∷ 0 ∷ [])
      (frame_7-IsFrame, (frame_8-IsFrame, tt)) (omega arith) (omega arith)

-- The second record has lost the last byte of its payload.
index_segment-cut_example :
    index_segment 3
      (segment_of (frame_7 ∷ [])
        ++ (put_uint record_head_len (length frame_8 % 2 ^ 32) ++ take 20 frame_8))
      0
    ≡ ok (record {
      bytes =
          segment_of (frame_7 ∷ [])
          ++ (put_uint record_head_len (length frame_8 % 2 ^ 32) ++ take 20 frame_8);
      entries = entries_of 3 0 0 (frame_7 ∷ (frame_8 ∷ []));
    })
unfolding code
index_segment-cut_example =
    index_segment-cut 3 0 20 (frame_7 ∷ []) frame_8 (frame_7-IsFrame, tt) frame_8-IsFrame
      (omega arith) (omega arith)

-- A bad record before a good one: the bad one is left out.
abbrev damaged : List ℕ
damaged = (0 ∷ 0 ∷ 0 ∷ 0 ∷ 5 ∷ []) ++ record_of frame_8

damaged_indexed :
    index_segment 0 damaged 0 ≡ ok (record { bytes = damaged; entries = entry_of 0 5 frame_8 ∷ [] })
unfolding code
damaged_indexed = refl

index_segment_fuel_example : index_from 100 0 damaged 0 0 ≡ index_segment 0 damaged 0
unfolding code
index_segment_fuel_example = index_segment_fuel 0 0 100 damaged (omega arith)

index_segment-Indexes_example :
    Indexes 0 damaged 0 0 (entry_of 0 5 frame_8 ∷ [])
    × ((damaged ≡ damaged) ⊎ ((n : ℕ) × (damaged ≡ take n damaged)))
unfolding code
index_segment-Indexes_example =
    index_segment-Indexes 0 0 damaged
      (record { bytes = damaged; entries = entry_of 0 5 frame_8 ∷ [] }) damaged_indexed

-- Nothing is confirmed where nothing else is left to read: a bad record before the confirmed bytes.
inside_acked_refused : index_segment 4 (0 ∷ 0 ∷ 0 ∷ 0 ∷ []) 2 ≡ err (inside_acked 4 0)
unfolding code
inside_acked_refused = refl

abbrev restart_checkpoint : Checkpoint
restart_checkpoint = record {
  cursor_ns = 5000;
  next_seq = 8;
  seg_start = 2;
  acked_bytes = 26;
  backfill_ns = 0;
}

abbrev restart_disk : Disk
restart_disk = record {
  files = (1, segment_of (frame_7 ∷ [])) ∷ (2, segment_of (frame_7 ∷ frame_8 ∷ [])) ∷ [];
  saved = some restart_checkpoint;
  legacy = false;
  dead = [];
  dead_size = 0;
}

-- The stale segment is gone, the confirmed frame is left out, and the next number is past the frame's.
abbrev restarted : Wal
restarted = record {
  cp = record restart_checkpoint { next_seq = 9 };
  index = entry_of 2 26 frame_8 ∷ [];
  acked = 0;
  cur_seg = 2;
  cur_open = true;
  cur_offset = 51;
  seg_size = 60;
  dlq_max = 1073741824;
  files = (2, segment_of (frame_7 ∷ frame_8 ∷ [])) ∷ [];
  saved = restart_checkpoint;
  last_cp = 0;
  notified = false;
  legacy_checkpoint = false;
  dead = [];
  dead_size = 0;
}

restart_opened : open_wal 60 restart_disk ≡ ok restarted
unfolding code
restart_opened = refl

open_wal-next_seq_example : All (λ (fi : FrameIndex). fi.seq < 9) (entry_of 2 26 frame_8 ∷ [])
unfolding code
open_wal-next_seq_example = open_wal-next_seq 60 restart_disk restarted restart_opened (omega arith)
