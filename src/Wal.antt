-- ===== src/Wal.antt =====
-- internal/wal/wal.go, cursor.go and dlq.go: the segmented write-ahead log. The calls of the file
-- system succeed, but for a read past the end of a file.
pub mod Reading
pub mod Commit
pub mod Burying
pub mod Segments
pub mod Queue
pub mod Writing
pub mod Appending
pub mod Batches
pub mod Confirming
pub mod Encoding
pub mod Moving
pub mod Numbering
pub mod Stopping
pub mod Recovery
pub mod Cursor
mod Runs
use influx_sync.Base.{
  ℕ, zero, suc, ◌+◌, ◌-◌, ◌*◌, ◌%◌, ◌^◌, ◌≡◌, Bool, true, false, not, ◌&&◌, ◌||◌, Option, none,
  some, List, [], ◌∷◌, ◌++◌, ltb, leb, ◌==◌, le_int64, if◌then◌else◌, length, get_elem?, get_or,
  take, drop, add64, Result, ok, err,
}
use influx_sync.Bytes.{put_uint}
use influx_sync.Protocol
use influx_sync.Protocol.{Compression, header_size, encode}
use influx_sync.Wal.Segments.{Files, content, create, append_to, remove, read_at}

abbrev pub record_head_len : ℕ
record_head_len = 4

abbrev pub checkpoint_interval : ℕ
checkpoint_interval = 1000000000

-- The int64 -1, by its bit pattern.
abbrev pub backfill_all_ns : ℕ
backfill_all_ns = 2 ^ 64 - 1

abbrev pub backfill_none_ns : ℕ
backfill_none_ns = 0

pub record Checkpoint : Type 0 where
  pub cursor_ns : ℕ
  pub next_seq : ℕ
  pub seg_start : ℕ
  pub acked_bytes : ℕ
  pub backfill_ns : ℕ

pub record FrameIndex : Type 0 where
  pub seg : ℕ
  pub offset : ℕ
  pub length : ℕ
  pub seq : ℕ
  pub typ : ℕ

-- `index_out_of_range` is Go's panic, not an error value.
pub data WalError : Type 0 where
  empty index_out_of_range cursor_regress : WalError
  frame_too_short read_frame dlq_unknown dlq_over_capacity : ℕ → WalError
  out_of_order_append commit_out_of_order : ℕ → ℕ → WalError
  encode_failed : Protocol.Error → WalError

-- `cur_open` tells whether curFile is not nil, `files` and `saved` are the directory, `dead` is the
-- dead-letter directory with its size.
pub record Wal : Type 0 where
  pub cp : Checkpoint
  pub index : List FrameIndex
  pub acked : ℕ
  pub cur_seg : ℕ
  pub cur_open : Bool
  pub cur_offset : ℕ
  pub seg_size : ℕ
  pub dlq_max : ℕ
  pub files : Files
  pub saved : Checkpoint
  pub last_cp : ℕ
  pub notified : Bool
  pub legacy_checkpoint : Bool
  pub dead : List (ℕ × List ℕ)
  pub dead_size : ℕ

unfoldable pub rotate : Wal → Wal
rotate w =
    let files = create w.cur_seg w.files in
    record w {
      files = files;
      cur_open = true;
      cur_offset = elim (content w.cur_seg files) [ none ↦ 0 | some c ↦ length c ];
    }

unfoldable pub ensure_space : Wal → ℕ → Wal
ensure_space w need =
    if not w.cur_open
    then rotate w
    else if leb (w.cur_offset + need) w.seg_size
    then w
    else rotate (record w { cur_seg = w.cur_seg + 1 })

-- One record in the current segment: its length, the frame, and its entry in the index.
unfoldable pub write_record : Wal → ℕ → ℕ → List ℕ → Wal
write_record w typ seq frame = record w {
  files = append_to w.cur_seg (put_uint 4 (length frame % 2 ^ 32) ++ frame) w.files;
  index =
      w.index
      ++ (record {
        seg = w.cur_seg;
        offset = w.cur_offset;
        length = length frame;
        seq = seq;
        typ = typ;
      }
          ∷ []);
  cur_offset = w.cur_offset + (record_head_len + length frame);
  cp = record w.cp { next_seq = add64 seq 1 };
}

notify_append : Wal → Wal
notify_append w = record w { notified = true }

unfoldable pub append_encoded : Wal → ℕ → ℕ → List ℕ → Wal × Result WalError (Unit {0})
unfolding notify_append
append_encoded w typ seq frame =
    if seq == w.cp.next_seq
    then (
      notify_append (write_record (ensure_space w (length frame + record_head_len)) typ seq frame),
      ok tt,
    )
    else (w, err (out_of_order_append seq w.cp.next_seq))

-- binary.BigEndian.PutUint64(fb[4:12], seq)
unfoldable pub set_seq : ℕ → List ℕ → List ℕ
set_seq seq frame = take 4 frame ++ (put_uint 8 seq ++ drop 12 frame)

-- One frame of a batch: it gets the next number, and the type that its header holds.
unfoldable pub append_one : Wal → List ℕ → Wal
append_one w frame =
    let room = ensure_space w (length frame + record_head_len) in
    write_record room (get_or frame 3 0) room.cp.next_seq (set_seq room.cp.next_seq frame)

-- The loop of AppendBatch, with the numbers given so far. The frames before a short one stay.
unfoldable pub append_frames : Wal → List ℕ → List (List ℕ) → Wal × Result WalError (List ℕ)
append_frames w seqs [] = (w, ok seqs)
append_frames w seqs (frame ∷ rest) =
    let more = append_frames (append_one w frame) (seqs ++ (w.cp.next_seq ∷ [])) rest in
    if ltb (length frame) header_size then (w, err (frame_too_short (length frame))) else more

batch_done : Wal × Result WalError (List ℕ) → Wal × Result WalError (List ℕ)
unfolding notify_append
batch_done (w, ok seqs) = (notify_append w, ok seqs)
batch_done (w, err e) = (w, err e)

unfoldable pub append_batch : Wal → List (List ℕ) → Wal × Result WalError (List ℕ)
unfolding batch_done
append_batch w [] = (w, ok [])
append_batch w (frame ∷ rest) = batch_done (append_frames w [] (frame ∷ rest))

append_if_encoded : Wal → ℕ → Result Protocol.Error (List ℕ) → Wal × Result WalError (Unit {0})
append_if_encoded w typ (err e) = (w, err (encode_failed e))
append_if_encoded w typ (ok frame) = append_encoded w typ w.cp.next_seq frame

-- Append: encode under the next number, and append.
unfoldable pub append : Compression → Wal → ℕ → List ℕ → Wal × Result WalError (Unit {0})
unfolding append_if_encoded
append c w typ payload = append_if_encoded w typ (encode c typ w.cp.next_seq payload)

unfoldable pub persist : Wal → ℕ → Wal
persist w now = record w { saved = w.cp; last_cp = now }

-- `ts < cp.CursorNs` is an error; equal is none.
unfoldable pub set_cursor : Wal → ℕ → ℕ → Wal × Result WalError (Unit {0})
unfolding persist
set_cursor w now ts =
    if le_int64 w.cp.cursor_ns ts
    then (persist (record w { cp = record w.cp { cursor_ns = ts } }) now, ok tt)
    else (w, err cursor_regress)

-- `0 < b` and `b < cursor`, of int64 values
rewinds : Wal → ℕ → ℕ → Bool
rewinds w policy_ns boundary_ns =
    not (policy_ns == backfill_none_ns)
    && not (le_int64 boundary_ns 0)
    && not (le_int64 w.cp.cursor_ns boundary_ns)

unfoldable pub apply_backfill_policy : Wal → ℕ → ℕ → ℕ → Wal × Bool
unfolding persist rewinds
apply_backfill_policy w now policy_ns boundary_ns =
    if w.legacy_checkpoint
    then (
      persist (record w { legacy_checkpoint = false; cp = record w.cp { backfill_ns = policy_ns } })
          now,
      false,
    )
    else if w.cp.backfill_ns == policy_ns
    then (w, false)
    else (let back = rewinds w policy_ns boundary_ns in
        (
          persist
              (record w {
                cp = record w.cp {
                  cursor_ns = (if back then boundary_ns else w.cp.cursor_ns);
                  backfill_ns = policy_ns;
                };
              })
              now,
          back,
        ))
