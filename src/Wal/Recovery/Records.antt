-- ===== src/Wal/Recovery/Records.antt =====
-- internal/wal/wal.go, indexSegment: segments of whole records, of records with a torn tail, and of
-- records whose last payload is cut.
use influx_sync.Base.{
  ℕ, suc, ◌+◌, ◌-◌, ◌%◌, ◌^◌, ◌≤◌, ◌<◌, ◌≡◌, refl, sym, ap, ◌∙◌, List, [], ◌∷◌, ◌++◌, leb,
  if◌then◌else◌, length, take, drop, Result, ok, err, arith, length-append, take-append,
  drop-append, All, IsU64, append_assoc, append-nil,
}
use influx_sync.Bytes.{put_uint, read_uint, length-put_uint, read-put_uint}
use influx_sync.Protocol.{Header, header_size, max_frame_len, parse_header, header_of, encode_raw}
use influx_sync.Protocol.HeaderLaws.{parse_header_ok}
use influx_sync.Protocol.RawFrames.{parse-encode_raw}
use influx_sync.Protocol.RawFrames.{length-encode_raw}
use influx_sync.Wal.{FrameIndex, record_head_len}
use influx_sync.Wal.Segments.{take-append_short, drop-append_at}
use influx_sync.Wal.Recovery.{
  RecoveryError, Indexed, record_len, bad_len, header_agrees, is_header, entry_at, with_entry,
  take_record, index_from, index_segment,
}

-- What a segment holds for one frame.
unfoldable pub record_of : List ℕ → List ℕ
record_of f = put_uint record_head_len (length f % 2 ^ 32) ++ f

unfoldable pub segment_of : List (List ℕ) → List ℕ
segment_of [] = []
segment_of (f ∷ fs) = record_of f ++ segment_of fs

abbrev pub frame_header : List ℕ → Header
frame_header f = header_of (take header_size f)

-- A frame whose header parses and gives the frame's length.
pub record IsFrame (f : List ℕ) : Type 0 where
  pub whole : header_size ≤ length f
  pub small : length f ≤ max_frame_len
  pub parses : parse_header (take header_size f) ≡ ok (frame_header f)
  pub agrees : length f ≡ header_size + (frame_header f).length

unfoldable pub entry_of : ℕ → ℕ → List ℕ → FrameIndex
entry_of k off f = record {
  seg = k;
  offset = off;
  length = length f;
  seq = (frame_header f).seq;
  typ = (frame_header f).typ;
}

-- The entries of the frames that end behind the first `skip` bytes.
unfoldable pub entries_of : ℕ → ℕ → ℕ → List (List ℕ) → List FrameIndex
unfolding entry_of
entries_of k skip off [] = []
entries_of k skip off (f ∷ fs) =
    let next = off + (record_head_len + length f) in
    (if leb next skip then [] else entry_of k off f ∷ []) ++ entries_of k skip next fs

record_len-at :
    (pre b : List ℕ) (n : ℕ)
    → n ≤ max_frame_len
    → record_len (pre ++ (put_uint record_head_len (n % 2 ^ 32) ++ b)) (length pre) ≡ n
unfolding record_len
record_len-at pre b n small =
    let head : List ℕ = put_uint record_head_len (n % 2 ^ 32) in
    let four : length head ≡ record_head_len = length-put_uint record_head_len (n % 2 ^ 32) in
    ap (read_uint 0) (
      ap (take record_head_len) (drop-append pre (head ++ b))
      ∙ ap (λ (t : ℕ). take t (head ++ b)) (sym four)
      ∙ take-append head b)
    ∙ read-put_uint record_head_len (n % 2 ^ 32) (omega arith)
    ∙ omega arith

header-at :
    (pre b : List ℕ) (n : ℕ)
    → header_size ≤ length b
    → take header_size
        (drop (length pre + record_head_len) (pre ++ (put_uint record_head_len n ++ b)))
      ≡ take header_size b
header-at pre b n whole =
    let head : List ℕ = put_uint record_head_len n in
    let four : length head ≡ record_head_len = length-put_uint record_head_len n in
    ap (take header_size) (
      drop-append_at pre (head ++ b) record_head_len
      ∙ ap (λ (t : ℕ). drop t (head ++ b)) (sym four)
      ∙ drop-append head b)

-- One round of the scan at a record whose header is there.
pub index_from-step :
    (fuel k skip : ℕ) (pre b : List ℕ) (n : ℕ) (h : Header)
    → 0 < n
    → n ≤ max_frame_len
    → header_size ≤ length b
    → parse_header (take header_size b) ≡ ok h
    → n ≡ header_size + h.length
    → (let c = pre ++ (put_uint record_head_len (n % 2 ^ 32) ++ b) in
        let next = length pre + (record_head_len + n) in
        index_from (suc fuel) k c skip (length pre)
        ≡ with_entry
            (if leb next skip then [] else entry_at k c (length pre) n (ok h))
            (index_from fuel k c skip next))
unfolding index_from take_record header_agrees is_header bad_len
index_from-step fuel k skip pre b n h positive small whole parses agrees =
    let c : List ℕ = pre ++ (put_uint record_head_len (n % 2 ^ 32) ++ b) in
    let len : record_len c (length pre) ≡ n = record_len-at pre b n small in
    let head : parse_header (take header_size (drop (length pre + record_head_len) c)) ≡ ok h =
      ap parse_header (header-at pre b (n % 2 ^ 32) whole) ∙ parses in
    let size : length c ≡ length pre + (record_head_len + length b) = omega (
      arith,
      length-append pre (put_uint record_head_len (n % 2 ^ 32) ++ b),
      length-append (put_uint record_head_len (n % 2 ^ 32)) b,
      length-put_uint record_head_len (n % 2 ^ 32),
    ) in
    ground (arith, len, head, size, agrees)

with_entry-with_entry :
    (xs ys : List FrameIndex) (r : Result RecoveryError Indexed)
    → with_entry xs (with_entry ys r) ≡ with_entry (xs ++ ys) r
unfolding with_entry
with_entry-with_entry xs ys (ok r) =
    ap (λ t. ok (record r { entries = t })) (sym (append_assoc xs ys r.entries))
with_entry-with_entry xs ys (err e) = refl

pub length-record_of : (f : List ℕ) → length (record_of f) ≡ record_head_len + length f
unfolding record_of
length-record_of f = omega (
  arith,
  length-append (put_uint record_head_len (length f % 2 ^ 32)) f,
  length-put_uint record_head_len (length f % 2 ^ 32),
)

index_from-record :
    (fuel k skip : ℕ) (pre f rest : List ℕ)
    → IsFrame f
    → (let c = pre ++ (record_of f ++ rest) in
        let next = length pre + (record_head_len + length f) in
        index_from (suc fuel) k c skip (length pre)
        ≡ with_entry
            (if leb next skip then [] else entry_of k (length pre) f ∷ [])
            (index_from fuel k c skip next))
unfolding record_of entry_of entry_at
index_from-record fuel k skip pre f rest fr =
    let head : List ℕ = put_uint record_head_len (length f % 2 ^ 32) in
    let first : take header_size (f ++ rest) ≡ take header_size f =
      take-append_short header_size f rest fr.whole in
    let e : pre ++ ((head ++ f) ++ rest) ≡ pre ++ (head ++ (f ++ rest)) =
      ap (λ t. pre ++ t) (append_assoc head f rest) in
    rw (e) (
      index_from-step fuel k skip pre (f ++ rest) (length f) (frame_header f)
        (omega (arith, fr.whole)) fr.small (omega (arith, fr.whole, length-append f rest))
        (ap parse_header first ∙ fr.parses) fr.agrees)

with_entry-nil : (r : Result RecoveryError Indexed) → with_entry [] r ≡ r
unfolding with_entry
with_entry-nil (ok r) = refl
with_entry-nil (err e) = refl

-- The scan of records, from the first of them to what follows them.
index_from-records :
    (fs : List (List ℕ)) (fuel k skip : ℕ) (pre tail : List ℕ)
    → All IsFrame fs
    → (let c = pre ++ (segment_of fs ++ tail) in
        index_from (length fs + fuel) k c skip (length pre)
        ≡ with_entry
            (entries_of k skip (length pre) fs)
            (index_from fuel k c skip (length (pre ++ segment_of fs))))
unfolding segment_of entries_of
index_from-records [] fuel k skip pre tail h =
    let none_left : 0 + fuel ≡ fuel = omega arith in
    rw (none_left, append-nil pre)
      (sym (with_entry-nil (index_from fuel k (pre ++ tail) skip (length pre))))
index_from-records (f ∷ fs) fuel k skip pre tail (fr, h) =
    let pre' : List ℕ = pre ++ record_of f in
    let rest : List ℕ = segment_of fs ++ tail in
    let inner : pre ++ ((record_of f ++ segment_of fs) ++ tail) ≡ pre ++ (record_of f ++ rest) =
      ap (λ t. pre ++ t) (append_assoc (record_of f) (segment_of fs) tail) in
    let outer : pre ++ (record_of f ++ rest) ≡ pre' ++ rest =
      sym (append_assoc pre (record_of f) rest) in
    let last : pre ++ (record_of f ++ segment_of fs) ≡ pre' ++ segment_of fs =
      sym (append_assoc pre (record_of f) (segment_of fs)) in
    let next : length pre + (record_head_len + length f) ≡ length pre' =
      omega (arith, length-append pre (record_of f), length-record_of f) in
    let rounds : suc (length fs) + fuel ≡ suc (length fs + fuel) = omega arith in
    let more : List FrameIndex =
      if leb (length pre + (record_head_len + length f)) skip
      then []
      else entry_of k (length pre) f ∷ [] in
    rw (rounds, inner)
      (index_from-record (length fs + fuel) k skip pre f rest fr
        ∙ ap (with_entry more)
            (rw (outer, next, last) (index_from-records fs fuel k skip pre' tail h))
        ∙ with_entry-with_entry more _ _)

length-segment_of : (fs : List (List ℕ)) → length fs ≤ length (segment_of fs)
unfolding segment_of
length-segment_of [] = omega arith
length-segment_of (f ∷ fs) =
    omega
      (arith, length-segment_of fs, length-append (record_of f) (segment_of fs), length-record_of f)

-- Where the scan of what follows the records is known.
pub index_segment-records :
    (k skip : ℕ) (fs : List (List ℕ)) (tail : List ℕ) (r : Result RecoveryError Indexed)
    → All IsFrame fs
    → ((fuel : ℕ)
        → index_from (suc fuel) k (segment_of fs ++ tail) skip (length (segment_of fs)) ≡ r)
    → index_segment k (segment_of fs ++ tail) skip ≡ with_entry (entries_of k skip 0 fs) r
unfolding index_segment
index_segment-records k skip fs tail r h behind =
    let c : List ℕ = segment_of fs ++ tail in
    let fuel : ℕ = length c - length fs in
    let enough : length c + 1 ≡ length fs + suc fuel =
      omega (arith, length-segment_of fs, length-append (segment_of fs) tail) in
    rw (enough) (
      index_from-records fs (suc fuel) k skip [] tail h
      ∙ ap (with_entry (entries_of k skip 0 fs)) (behind fuel))

pub entries_of-append :
    (k skip off : ℕ) (fs gs : List (List ℕ))
    → entries_of k skip off (fs ++ gs)
      ≡ entries_of k skip off fs ++ entries_of k skip (off + length (segment_of fs)) gs
unfolding entries_of segment_of
entries_of-append k skip off [] gs = let same : off + 0 ≡ off = omega arith in rw (same) refl
entries_of-append k skip off (f ∷ fs) gs =
    let next : ℕ = off + (record_head_len + length f) in
    let more : List FrameIndex = if leb next skip then [] else entry_of k off f ∷ [] in
    let same : off + length (record_of f ++ segment_of fs) ≡ next + length (segment_of fs) =
      omega (arith, length-append (record_of f) (segment_of fs), length-record_of f) in
    rw (same)
      (ap (λ t. more ++ t) (entries_of-append k skip next fs gs) ∙ sym (append_assoc more _ _))

-- The frames that encodeRaw lays out.
pub encode_raw-IsFrame :
    (typ seq : ℕ) (payload : List ℕ) (crc : ℕ)
    → typ < 256
    → IsU64 seq
    → crc < 2 ^ 32
    → header_size + length payload ≤ max_frame_len
    → IsFrame (encode_raw typ seq payload crc)
encode_raw-IsFrame typ seq payload crc ht hs hc hl =
    let f : List ℕ = encode_raw typ seq payload crc in
    let parsed = parse-encode_raw typ seq payload crc ht hs hc hl in
    let same = (parse_header_ok (take header_size f) _ parsed).0 in
    let size : length f ≡ header_size + length payload = length-encode_raw typ seq payload crc in
    record {
      whole = omega (arith, size);
      small = omega (arith, size);
      parses = parsed ∙ ap ok (sym same);
      agrees = size ∙ ap (λ (h : Header). header_size + h.length) (sym same);
    }
