-- ===== src/Wal/Recovery/Tails.antt =====
-- internal/wal/wal.go, indexSegment: what a crash in the middle of a record leaves behind the
-- records of a segment.
use influx_sync.Base.{
  ℕ, zero, suc, ◌+◌, ◌-◌, ◌%◌, ◌^◌, ◌≤◌, ◌<◌, ◌≡◌, refl, sym, ap, ◌∙◌, true, none, List, [], ◌∷◌,
  ◌++◌, leb, if◌then◌else◌, length, take, Result, ok, arith, length-append, take-append, take_all,
  All, append-nil, length-take, le→leb,
}
use influx_sync.Bytes.{put_uint, length-put_uint}
use influx_sync.Protocol.{header_size, parse_header}
use influx_sync.Wal.{FrameIndex, record_head_len}
use influx_sync.Wal.Recovery.{
  RecoveryError, Indexed, resync_record, resync_from, skip_corrupt, skip_at, lesser, truncated,
  at_end, or_resume, with_entry, index_from, index_segment, entry_at,
}
use influx_sync.Wal.Recovery.Records.{
  IsFrame, frame_header, segment_of, entries_of, entry_of, index_from-step, index_segment-records,
  entries_of-append,
}

-- No later record fits into what is left.
resync_record-end : (c : List ℕ) (off : ℕ) → length c < off + 24 → resync_record c off ≡ none
unfolding resync_record lesser resync_from
resync_record-end c off short =
    let limit : ℕ = if leb (off + 1048580) (length c) then off + 1048580 else length c in
    let no_place : limit - 24 - off ≡ 0 = ground arith in rw (no_place) refl

skip_corrupt-end :
    (c : List ℕ) (skip off : ℕ)
    → length c < off + 24
    → skip ≤ off
    → skip_corrupt c skip off ≡ truncated
unfolding skip_corrupt skip_at
skip_corrupt-end c skip off short behind = ground (arith, resync_record-end c off short)

-- The scan ends at a torn record that is shorter than a head and a header.
index_from-torn :
    (fuel k skip : ℕ) (pre tail : List ℕ)
    → length tail < 24
    → skip ≤ length pre
    → index_from (suc fuel) k (pre ++ tail) skip (length pre)
      ≡ ok (record { bytes = pre; entries = [] })
unfolding index_from at_end or_resume
index_from-torn fuel k skip pre tail short behind =
    let c : List ℕ = pre ++ tail in
    let size : length c ≡ length pre + length tail = length-append pre tail in
    let bad : skip_corrupt c skip (length pre) ≡ truncated =
      skip_corrupt-end c skip (length pre) (omega arith) behind in
    let cut : take (length pre) c ≡ pre = take-append pre tail in
    let scanned : List ℕ → Result RecoveryError Indexed =
      λ t. ok (record { bytes = t; entries = [] }) in
    let at_cut : at_end k c (length pre) truncated ≡ scanned pre = ap scanned cut in
    let at_eof : length c ≤ length pre → scanned c ≡ scanned pre =
      λ le. ap scanned (sym (take_all (length pre) c le) ∙ cut) in
    ground (arith, bad, at_cut, at_eof)

-- A segment of records with a torn record behind them, of which less than a head and a header was
-- written: the file is cut back to the records, and the index has an entry for each of them that
-- does not end before the confirmed bytes.
pub index_segment-torn :
    (k skip : ℕ) (fs : List (List ℕ)) (tail : List ℕ)
    → All IsFrame fs
    → length tail < 24
    → skip ≤ length (segment_of fs)
    → index_segment k (segment_of fs ++ tail) skip
      ≡ ok (record { bytes = segment_of fs; entries = entries_of k skip 0 fs })
unfolding with_entry
index_segment-torn k skip fs tail h short confirmed =
    index_segment-records k skip fs tail _ h
      (λ fuel. index_from-torn fuel k skip (segment_of fs) tail short confirmed)
    ∙ ap (λ t. ok (record { bytes = segment_of fs; entries = t })) (append-nil _)

take-take_short : (n m : ℕ) (xs : List ℕ) → n ≤ m → take n (take m xs) ≡ take n xs
take-take_short zero m xs h = refl
take-take_short (suc n) zero xs h = absurd (omega arith)
take-take_short (suc n) (suc m) [] h = refl
take-take_short (suc n) (suc m) (x ∷ xs) h = ap (λ t. x ∷ t) (take-take_short n m xs (omega arith))

index_from-eof :
    (fuel k skip off : ℕ) (c : List ℕ)
    → length c ≤ off
    → index_from fuel k c skip off ≡ ok (record { bytes = c; entries = [] })
unfolding index_from
index_from-eof zero k skip off c h = refl
index_from-eof (suc fuel) k skip off c h =
    let over : leb (length c) off ≡ true = le→leb _ _ h in rw (over) refl

-- The scan of a record whose header is there and whose payload is cut, at the end of the file.
index_from-cut :
    (fuel k skip m : ℕ) (pre f : List ℕ)
    → IsFrame f
    → header_size ≤ m
    → m < length f
    → (let c = pre ++ (put_uint record_head_len (length f % 2 ^ 32) ++ take m f) in
        index_from (suc fuel) k c skip (length pre)
        ≡ ok (record { bytes = c; entries = entries_of k skip (length pre) (f ∷ []) }))
unfolding entries_of entry_of entry_at with_entry
index_from-cut fuel k skip m pre f fr head cut =
    let c : List ℕ = pre ++ (put_uint record_head_len (length f % 2 ^ 32) ++ take m f) in
    let next : ℕ = length pre + (record_head_len + length f) in
    let size : length (take m f) ≡ m = omega (arith, length-take m f) in
    let over : length c ≤ next = omega (
      arith,
      size,
      length-append pre (put_uint record_head_len (length f % 2 ^ 32) ++ take m f),
      length-append (put_uint record_head_len (length f % 2 ^ 32)) (take m f),
      length-put_uint record_head_len (length f % 2 ^ 32),
    ) in
    let header : parse_header (take header_size (take m f)) ≡ ok (frame_header f) =
      ap parse_header (take-take_short header_size m f head) ∙ fr.parses in
    let more : List FrameIndex = if leb next skip then [] else entry_of k (length pre) f ∷ [] in
    index_from-step fuel k skip pre (take m f) (length f) (frame_header f) (omega (arith, fr.whole))
      fr.small (omega (arith, size)) header fr.agrees
    ∙ ap (with_entry more) (index_from-eof fuel k skip next c over)

-- A torn record behind the records of a segment, of which the head and the header were written but
-- not the whole payload: it stays in the file, and the index has an entry for it as for a whole one.
pub index_segment-cut :
    (k skip m : ℕ) (fs : List (List ℕ)) (f : List ℕ)
    → All IsFrame fs
    → IsFrame f
    → header_size ≤ m
    → m < length f
    → (let c = segment_of fs ++ (put_uint record_head_len (length f % 2 ^ 32) ++ take m f) in
        index_segment k c skip
        ≡ ok (record { bytes = c; entries = entries_of k skip 0 (fs ++ (f ∷ [])) }))
unfolding with_entry
index_segment-cut k skip m fs f h fr head cut =
    let c : List ℕ = segment_of fs ++ (put_uint record_head_len (length f % 2 ^ 32) ++ take m f) in
    let at : 0 + length (segment_of fs) ≡ length (segment_of fs) = omega arith in
    let entries = rw (at) at (entries_of-append k skip 0 fs (f ∷ [])) in
    index_segment-records k skip fs _ _ h
      (λ fuel. index_from-cut fuel k skip m (segment_of fs) f fr head cut)
    ∙ ap (λ t. ok (record { bytes = c; entries = t })) (sym entries)
