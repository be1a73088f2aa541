-- ===== src/Wal/Runs.antt =====
-- Tests of the write-ahead log, and its theorems at concrete inputs.
use influx_sync.Base.{
  ℕ, ◌≡◌, refl, true, false, List, [], ◌∷◌, arith, ok, err, ◌≤◌, ◌↔◌, if◌then◌else◌,
}
use mathlib.Core.Bool.{false≢true}
use influx_sync.Bytes.{put_uint}
use influx_sync.Wal.{
  append, Wal, backfill_all_ns, cursor_regress, index_out_of_range, rotate, ensure_space,
  write_record, notify_append, append_encoded, set_seq, append_one, append_frames, batch_done,
  append_batch, persist, set_cursor, rewinds, apply_backfill_policy,
}
use influx_sync.Wal.Reading.{peek_batch}
use influx_sync.Wal.Commit.{commit}
use influx_sync.Wal.Burying.{move_to_dlq}
use influx_sync.Wal.Segments.{content, create}
use influx_sync.Wal.Queue.{Represents}
use influx_sync.Wal.Appending.{
  append_encoded-Represents, append_batch-Represents, peek_batch-oldest,
}
use influx_sync.Wal.Moving.{buried, move_to_dlq-commit}
use influx_sync.Wal.Cursor.{Rewinds, apply_backfill_policy-once}
use influx_sync.Protocol.{compress}
use influx_sync.Protocol.Plain.{plain, plain-IsLossless}
use influx_sync.Protocol.RoundTrip.{encode_complete}
use influx_sync.Wal.Encoding.{IsCarried, append-IsCarried, append_succeeds}
use influx_sync.Wal.Stopping.{HasStopped, commit-HasStopped}
use influx_sync.Wal.Confirming.{commit-Represents}

-- An empty log, with segments of 60 bytes.
abbrev fresh : Wal
fresh = record {
  cp = record { cursor_ns = 5000; next_seq = 1; seg_start = 0; acked_bytes = 0; backfill_ns = 0 };
  index = [];
  acked = 0;
  cur_seg = 0;
  cur_open = false;
  cur_offset = 0;
  seg_size = 60;
  dlq_max = 1000;
  files = [];
  saved = record {
    cursor_ns = 5000;
    next_seq = 1;
    seg_start = 0;
    acked_bytes = 0;
    backfill_ns = 0;
  };
  last_cp = 0;
  notified = false;
  legacy_checkpoint = false;
  dead = [];
  dead_size = 0;
}

fresh-Represents : Represents fresh []
fresh-Represents = record {
  stands = record { holds = tt; ordered = omega arith; numbered = tt; acked_fits = omega arith };
  open_file = λ o. absurd (false≢true o);
  closed = λ shut. tt;
}

abbrev frame : ℕ → List ℕ
frame b = 80 ∷ 87 ∷ 1 ∷ 1 ∷ 0 ∷ 0 ∷ 0 ∷ 0 ∷ 0 ∷ 0 ∷ 0 ∷ 0 ∷ 0 ∷ 0 ∷ 0 ∷ 1 ∷ 1 ∷ 2 ∷ 3 ∷ 4 ∷ b ∷ []

abbrev numbered : ℕ → ℕ → List ℕ
numbered seq b =
    80 ∷ 87 ∷ 1 ∷ 1 ∷ 0 ∷ 0 ∷ 0 ∷ 0 ∷ 0 ∷ 0 ∷ 0 ∷ seq ∷ 0 ∷ 0 ∷ 0 ∷ 1 ∷ 1 ∷ 2 ∷ 3 ∷ 4 ∷ b ∷ []

abbrev three : List (List ℕ)
three = frame 7 ∷ frame 8 ∷ frame 9 ∷ []

abbrev filled : Wal
filled = (append_batch fresh three).0

-- Two frames fill a segment, and the third begins another.
third_segment : filled.cur_seg ≡ 1
unfolding append_batch append_frames batch_done notify_append append_one write_record ensure_space
    rotate create content set_seq put_uint
third_segment = refl

append_encoded-Represents_example :
    ((append_encoded fresh 1 1 (numbered 1 7)).1 ≡ ok tt)
    × Represents (append_encoded fresh 1 1 (numbered 1 7)).0 ((1, numbered 1 7) ∷ [])
append_encoded-Represents_example =
    (append_encoded-Represents fresh 1 1 (numbered 1 7) [] fresh-Represents (omega arith)).0 refl

abbrev queued : List (ℕ × List ℕ)
queued = (1, set_seq 1 (frame 7)) ∷ (2, set_seq 2 (frame 8)) ∷ (3, set_seq 3 (frame 9)) ∷ []

append_batch-Represents_example :
    Represents (append_batch fresh three).0 queued
    × ((append_batch fresh three).1 ≡ ok (1 ∷ 2 ∷ 3 ∷ []))
append_batch-Represents_example =
    append_batch-Represents fresh three [] fresh-Represents (omega arith)
      (omega arith, (omega arith, (omega arith, tt)))

peek_batch-oldest_example :
    peek_batch (append_batch fresh three).0 2
    ≡ ok ((1, set_seq 1 (frame 7)) ∷ (2, set_seq 2 (frame 8)) ∷ [])
peek_batch-oldest_example =
    peek_batch-oldest (append_batch fresh three).0 2 queued append_batch-Represents_example.0

commit-Represents_example :
    Represents
      (commit (append_batch fresh three).0 9 1).0
      ((2, set_seq 2 (frame 8)) ∷ (3, set_seq 3 (frame 9)) ∷ [])
    × ((commit (append_batch fresh three).0 9 1).1 ≡ ok tt)
commit-Represents_example =
    (commit-Represents (append_batch fresh three).0 9 1 1 (set_seq 1 (frame 7))
        ((2, set_seq 2 (frame 8)) ∷ (3, set_seq 3 (frame 9)) ∷ [])
        append_batch-Represents_example.0).0
      refl

-- With nothing unconfirmed Commit ends in an index out of range, in the text of its own error.
commit_empty : commit fresh 9 1 ≡ (fresh, err index_out_of_range)
unfolding commit
commit_empty = refl

-- A cursor does not go back.
cursor_kept : (set_cursor fresh 9 4000).1 ≡ err cursor_regress
unfolding set_cursor
cursor_kept = refl

cursor_moved : (set_cursor fresh 9 6000).0.saved.cursor_ns ≡ 6000
unfolding set_cursor persist
cursor_moved = refl

-- A policy that asks for all the data takes the cursor back.
backfill_all : (apply_backfill_policy fresh 9 backfill_all_ns 100).0.cp.cursor_ns ≡ 100
unfolding apply_backfill_policy persist rewinds
backfill_all = refl

abbrev head_moved : Wal
head_moved = buried (append_batch fresh three).0 1 (set_seq 1 (frame 7)) 30

dlq_room : (append_batch fresh three).0.dead_size ≤ (append_batch fresh three).0.dlq_max
unfolding append_batch append_frames batch_done notify_append append_one write_record ensure_space
    rotate create content set_seq put_uint
dlq_room = omega arith

move_to_dlq-commit_example : move_to_dlq (append_batch fresh three).0 9 1 30 ≡ commit head_moved 9 1
move_to_dlq-commit_example =
    (move_to_dlq-commit (append_batch fresh three).0 9 1 30 1 (set_seq 1 (frame 7))
        ((2, set_seq 2 (frame 8)) ∷ (3, set_seq 3 (frame 9)) ∷ [])
        append_batch-Represents_example.0).0
      refl dlq_room

apply_backfill_policy-once_example :
    let p = apply_backfill_policy fresh 9 backfill_all_ns 100 in
    ((p.1 ≡ true) ↔ Rewinds fresh backfill_all_ns 100)
    × (p.0.cp.cursor_ns ≡ (if p.1 then 100 else 5000))
    × (apply_backfill_policy p.0 10 backfill_all_ns 50 ≡ (p.0, false))
    × Represents p.0 []
apply_backfill_policy-once_example =
    apply_backfill_policy-once fresh 9 10 backfill_all_ns 100 50 [] fresh-Represents

commit-HasStopped_example : HasStopped (commit (append_batch fresh three).0 9 1).0
commit-HasStopped_example =
    commit-HasStopped (append_batch fresh three).0 9 1 (set_seq 1 (frame 7))
      ((2, set_seq 2 (frame 8)) ∷ (3, set_seq 3 (frame 9)) ∷ []) append_batch-Represents_example.0

encoded : (append plain fresh 4 (1 ∷ 2 ∷ [])).1 ≡ ok tt
encoded = append_succeeds plain fresh 4 (1 ∷ 2 ∷ []) _ (
    encode_complete plain 4 1 (1 ∷ 2 ∷ []) (1 ∷ 2 ∷ []) (omega arith) (omega arith)
      (unfold compress in refl) (omega arith))

append-IsCarried_example :
    (frame : List ℕ) × IsCarried plain 4 (1 ∷ 2 ∷ []) (1, frame)
    × Represents (append plain fresh 4 (1 ∷ 2 ∷ [])).0 ((1, frame) ∷ [])
    × ((append plain fresh 4 (1 ∷ 2 ∷ [])).0.cp.next_seq ≡ 2)
append-IsCarried_example =
    append-IsCarried plain fresh 4 (1 ∷ 2 ∷ []) [] plain-IsLossless fresh-Represents (omega arith)
      (omega arith) (omega arith) encoded
