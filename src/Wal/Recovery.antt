-- ===== src/Wal/Recovery.antt =====
-- internal/wal/wal.go: Open, scanSegments, indexSegment, resyncRecord, lastSegmentIdx and Close. A
-- directory holds its segment files, the checkpoint file and the dead letters; names that are no
-- segment's are left out, and the checkpoint file is well formed where there is one.
pub mod Records
pub mod Tails
pub mod Scanning
pub mod Opening
mod Runs
use influx_sync.Base.{
  ℕ, zero, suc, ◌+◌, ◌-◌, Bool, true, false, not, ◌&&◌, ◌||◌, Option, none, some, List, [], ◌∷◌,
  ◌++◌, ltb, leb, ◌==◌, if◌then◌else◌, length, take, drop, add64, Result, ok, err,
}
use influx_sync.Bytes.{read_uint}
use influx_sync.Protocol
use influx_sync.Protocol.{Header, header_size, max_frame_len, parse_header}
use influx_sync.Wal.{Wal, Checkpoint, FrameIndex, record_head_len, persist, rotate}
use influx_sync.Wal.Segments.{Files, content, create, truncate, remove}

-- A corrupt record before the confirmed offset: the segment and the place.
pub data RecoveryError : Type 0 where
  inside_acked : ℕ → ℕ → RecoveryError

-- The number in a record's head, where four bytes can be read.
unfoldable pub record_len : List ℕ → ℕ → ℕ
record_len c off = read_uint 0 (take record_head_len (drop off c))

unfoldable pub bad_len : ℕ → Bool
bad_len n = (n == 0) || ltb max_frame_len n

unfoldable pub is_header : ℕ → Result Protocol.Error Header → Bool
is_header n (err e) = false
is_header n (ok h) = n == header_size + h.length

-- The header behind a record's head parses, and it gives the length that the head gives.
unfoldable pub header_agrees : List ℕ → ℕ → ℕ → Bool
unfolding is_header
header_agrees c off n =
    is_header n (parse_header (take header_size (drop (off + record_head_len) c)))

-- A record could begin at `p`, and all of it lies in the file.
unfoldable pub is_candidate : List ℕ → ℕ → Bool
is_candidate c p =
    let n = record_len c p in
    not (bad_len n) && leb (p + record_head_len + n) (length c) && header_agrees c p n

-- The loop of resyncRecord from `p` on, with `rounds` places to go.
unfoldable pub resync_from : ℕ → List ℕ → ℕ → Option ℕ
resync_from zero c p = none
resync_from (suc rounds) c p =
    let rest = resync_from rounds c (p + 1) in if is_candidate c p then some p else rest

unfoldable pub lesser : ℕ → ℕ → ℕ
lesser a b = if leb a b then a else b

-- The places behind `bad` at which a head and a header still lie before the limit of the search.
unfoldable pub resync_record : List ℕ → ℕ → Option ℕ
unfolding lesser
resync_record c bad =
    let limit = lesser (bad + (max_frame_len + record_head_len)) (length c) in
    resync_from (limit - (record_head_len + header_size) - bad) c (bad + 1)

-- skipCorrupt: go on at a later record, or truncate the file, or refuse.
pub data Skip : Type 0 where
  resume : ℕ → Skip
  truncated refused : Skip

unfoldable pub skip_at : ℕ → ℕ → Option ℕ → Skip
skip_at skip bad (some next) = resume next
skip_at skip bad none = if ltb bad skip then refused else truncated

unfoldable pub skip_corrupt : List ℕ → ℕ → ℕ → Skip
unfolding skip_at
skip_corrupt c skip bad = skip_at skip bad (resync_record c bad)

-- What indexing a segment leaves: its bytes and its entries in the index.
pub record Indexed : Type 0 where
  pub bytes : List ℕ
  pub entries : List FrameIndex

-- The scan ends behind a bad record at `bad`, also where it could go on.
unfoldable pub at_end : ℕ → List ℕ → ℕ → Skip → Result RecoveryError Indexed
at_end k c bad (resume next) = ok (record { bytes = c; entries = [] })
at_end k c bad truncated = ok (record { bytes = take bad c; entries = [] })
at_end k c bad refused = err (inside_acked k bad)

-- The scan goes on where it can.
unfoldable pub or_resume :
    (ℕ → Result RecoveryError Indexed) → ℕ → List ℕ → ℕ → Skip → Result RecoveryError Indexed
unfolding at_end
or_resume scan k c bad (resume next) = scan next
or_resume scan k c bad s = at_end k c bad s

unfoldable pub entry_at : ℕ → List ℕ → ℕ → ℕ → Result Protocol.Error Header → List FrameIndex
entry_at k c off n (err e) = []
entry_at k c off n (ok h) =
    record { seg = k; offset = off; length = n; seq = h.seq; typ = h.typ } ∷ []

unfoldable pub with_entry :
    List FrameIndex → Result RecoveryError Indexed → Result RecoveryError Indexed
with_entry more (ok r) = ok (record r { entries = more ++ r.entries })
with_entry more (err e) = err e

-- A valid record: its entry where it is not confirmed, and the scan behind it.
unfoldable pub take_record :
    ℕ → List ℕ → ℕ → ℕ → Result RecoveryError Indexed → Result RecoveryError Indexed
unfolding entry_at with_entry
take_record k c skip off rest =
    let n = record_len c off in
    let header = parse_header (take header_size (drop (off + record_head_len) c)) in
    with_entry (if leb (off + record_head_len + n) skip then [] else entry_at k c off n header) rest

-- The loop of indexSegment from `off` on. Each round moves the offset on.
unfoldable pub index_from : ℕ → ℕ → List ℕ → ℕ → ℕ → Result RecoveryError Indexed
unfolding at_end or_resume
index_from zero k c skip off = ok (record { bytes = c; entries = [] })
index_from (suc fuel) k c skip off =
    let n = record_len c off in
    let bad = skip_corrupt c skip off in
    let resumed = or_resume (index_from fuel k c skip) k c off bad in
    let rest = index_from fuel k c skip (off + (record_head_len + n)) in
    if leb (length c) off
    then ok (record { bytes = c; entries = [] })
    else if ltb (length c) (off + record_head_len)
    then at_end k c off bad
    else if bad_len n
    then resumed
    else if ltb (length c) (off + record_head_len + header_size)
    then at_end k c off bad
    else if header_agrees c off n
    then take_record k c skip off rest
    else resumed

unfoldable pub index_segment : ℕ → List ℕ → ℕ → Result RecoveryError Indexed
index_segment k c skip = index_from (length c + 1) k c skip 0

insert_number : ℕ → List ℕ → List ℕ
insert_number k [] = k ∷ []
insert_number k (j ∷ rest) =
    let more = insert_number k rest in if ltb j k then j ∷ more else k ∷ (j ∷ rest)

-- The numbers of the segments, sorted.
unfoldable pub seg_numbers : Files → List ℕ
unfolding insert_number
seg_numbers [] = []
seg_numbers ((k, c) ∷ rest) = insert_number k (seg_numbers rest)

unfoldable pub remove_below : ℕ → List ℕ → Files → Files
remove_below start [] files = files
remove_below start (k ∷ ks) files =
    remove_below start ks (if ltb k start then remove k files else files)

-- The first number that is not before `start`.
unfoldable pub first_alive : ℕ → List ℕ → Option ℕ
first_alive start [] = none
first_alive start (k ∷ ks) = let rest = first_alive start ks in if ltb k start then rest else some k

or_empty : Option (List ℕ) → List ℕ
or_empty none = []
or_empty (some c) = c

set_content : ℕ → List ℕ → Files → Files
set_content k c files = truncate k (length c) files

-- The files and the index behind one more segment.
indexed_segment :
    ℕ
    → Files × List FrameIndex
    → Result RecoveryError Indexed
    → Result RecoveryError (Files × List FrameIndex)
unfolding set_content
indexed_segment k (files, index) (ok r) = ok (set_content k r.bytes files, index ++ r.entries)
indexed_segment k p (err e) = err e

then_scan :
    (Files × List FrameIndex → Result RecoveryError (Files × List FrameIndex))
    → Result RecoveryError (Files × List FrameIndex)
    → Result RecoveryError (Files × List FrameIndex)
then_scan scan (ok p) = scan p
then_scan scan (err e) = err e

-- The segments from `start` on are indexed in order, the first one behind its confirmed bytes.
unfoldable pub index_all :
    ℕ → ℕ → List ℕ → Files × List FrameIndex → Result RecoveryError (Files × List FrameIndex)
unfolding or_empty indexed_segment then_scan
index_all start acked [] p = ok p
index_all start acked (k ∷ ks) p =
    let rest = index_all start acked ks p in
    let here =
      indexed_segment k p
        (index_segment k (or_empty (content k p.0)) (if k == start then acked else 0)) in
    let scanned = then_scan (index_all start acked ks) here in if ltb k start then rest else scanned

pub record Disk : Type 0 where
  pub files : Files
  pub saved : Option Checkpoint
  pub legacy : Bool
  pub dead : List (ℕ × List ℕ)
  pub dead_size : ℕ

-- The oldest segment there is, where the checkpoint's is gone.
from_alive : Checkpoint → Option ℕ → Checkpoint
from_alive cp none = record cp { acked_bytes = 0 }
from_alive cp (some first) =
    if ltb cp.seg_start first then record cp { seg_start = first; acked_bytes = 0 } else cp

unfoldable pub scan_segments :
    Checkpoint → Files → Result RecoveryError (Checkpoint × Files × List FrameIndex)
unfolding from_alive
scan_segments cp files =
    let numbers = seg_numbers files in
    let kept = remove_below cp.seg_start numbers files in
    let cp' = from_alive cp (first_alive cp.seg_start numbers) in
    elim (index_all cp'.seg_start cp'.acked_bytes numbers (kept, [])) [
      | ok p ↦ ok (cp', p.0, p.1)
      | err e ↦ err e
    ]

unfoldable pub max_seq : List FrameIndex → ℕ
max_seq [] = 0
max_seq (fi ∷ rest) = let more = max_seq rest in if ltb more fi.seq then fi.seq else more

greatest : ℕ → List ℕ → ℕ
greatest last [] = last
greatest last (k ∷ ks) = greatest (if ltb last k then k else last) ks

-- lastSegmentIdx
unfoldable pub last_segment_idx : ℕ → List ℕ → ℕ
unfolding greatest
last_segment_idx start [] = start
last_segment_idx start (k ∷ ks) = greatest k ks

no_checkpoint : Checkpoint
no_checkpoint = record {
  cursor_ns = 0;
  next_seq = 0;
  seg_start = 0;
  acked_bytes = 0;
  backfill_ns = 0;
}

unfoldable pub load_checkpoint : Option Checkpoint → Checkpoint
unfolding no_checkpoint
load_checkpoint none = no_checkpoint
load_checkpoint (some cp) = cp

default_segment_size : ℕ
default_segment_size = 67108864

abbrev pub default_dlq_max_size : ℕ
default_dlq_max_size = 1073741824

-- Behind the scan: the next number is past every number that was found, and the last segment is open.
unfoldable pub opened :
    ℕ
    → Disk
    → Result RecoveryError (Checkpoint × Files × List FrameIndex)
    → Result RecoveryError Wal
unfolding load_checkpoint default_segment_size
opened seg_size disk (err e) = err e
opened seg_size disk (ok (cp, files, index)) =
    let least = add64 (max_seq index) 1 in
    ok (
      rotate (record {
        cp = record cp { next_seq = (if ltb cp.next_seq least then least else cp.next_seq) };
        index = index;
        acked = 0;
        cur_seg = last_segment_idx cp.seg_start (seg_numbers files);
        cur_open = false;
        cur_offset = 0;
        seg_size = (if seg_size == 0 then default_segment_size else seg_size);
        dlq_max = default_dlq_max_size;
        files = files;
        saved = load_checkpoint disk.saved;
        last_cp = 0;
        notified = false;
        legacy_checkpoint = disk.legacy;
        dead = disk.dead;
        dead_size = disk.dead_size;
      }))

unfoldable pub open_wal : ℕ → Disk → Result RecoveryError Wal
unfolding opened load_checkpoint
open_wal seg_size disk =
    opened seg_size disk (scan_segments (load_checkpoint disk.saved) disk.files)

-- Close: the current segment is shut and the checkpoint written.
unfoldable pub close_wal : Wal → ℕ → Wal
unfolding persist
close_wal w now = persist (record w { cur_open = false }) now
