-- ===== src/Wal/Recovery/Scanning.antt =====
-- internal/wal/wal.go, indexSegment and resyncRecord on files with any content: the scan ends, and
-- what it puts into the index are records of the file.
use influx_sync.Base.{
  ℕ, zero, suc, ◌+◌, ◌≤◌, ◌<◌, ◌≡◌, refl, ap, true, false, some, List, [], ◌∷◌, ◌++◌, ltb, leb,
  leb→gt, length, take, drop, Result, ok, err, arith, ◌⊎◌, if_both, inl, inr, Result-cases,
  Option-cases,
}
use influx_sync.Protocol.{Header, header_size, parse_header}
use influx_sync.Protocol
use influx_sync.Wal.{FrameIndex, record_head_len}
use influx_sync.Wal.Recovery.{
  RecoveryError, Indexed, Skip, resume, truncated, refused, record_len, header_agrees, is_header,
  bad_len, resync_record, resync_from, skip_corrupt, skip_at, at_end, or_resume, with_entry,
  take_record, index_from, index_segment, entry_at,
}

resync_from-above : (rounds : ℕ) (c : List ℕ) (p q : ℕ) → resync_from rounds c p ≡ some q → p ≤ q
unfolding resync_from
resync_from-above zero c p q e = ground arith
resync_from-above (suc rounds) c p q e = ground (arith, resync_from-above rounds c (p + 1) q)

resync_record-above : (c : List ℕ) (bad next : ℕ) → resync_record c bad ≡ some next → bad < next
unfolding resync_record
resync_record-above c bad next e = omega (arith, resync_from-above _ c (bad + 1) next e)

-- Where the scan goes on is behind the bad record.
skip_corrupt-above :
    (c : List ℕ) (skip off next : ℕ) → skip_corrupt c skip off ≡ resume next → off < next
unfolding skip_corrupt skip_at
skip_corrupt-above c skip off next e = elim (Option-cases (resync_record c off)) [
  | inl nowhere ↦ absurd (ground (arith, nowhere))
  | inr (p, found) ↦
      let same : p ≡ next = ground (arith, found) in
      omega (arith, resync_record-above c off p found)
]

or_resume-same :
    (f g : ℕ → Result RecoveryError Indexed) (k : ℕ) (c : List ℕ) (off : ℕ) (s : Skip)
    → ((next : ℕ) → s ≡ resume next → f next ≡ g next)
    → or_resume f k c off s ≡ or_resume g k c off s
unfolding or_resume
or_resume-same f g k c off (resume next) h = h next refl
or_resume-same f g k c off truncated h = refl
or_resume-same f g k c off refused h = refl

index_from-enough :
    (a b k skip : ℕ) (c : List ℕ) (off : ℕ)
    → length c < a + off
    → length c < b + off
    → index_from a k c skip off ≡ index_from b k c skip off
unfolding index_from
index_from-enough zero zero k skip c off ha hb = refl
index_from-enough zero (suc b) k skip c off ha hb = ground arith
index_from-enough (suc a) zero k skip c off ha hb = ground arith
index_from-enough (suc a) (suc b) k skip c off ha hb =
    let n : ℕ = record_len c off in
    let bad : Skip = skip_corrupt c skip off in
    let resumed : or_resume (index_from a k c skip) k c off bad
        ≡ or_resume (index_from b k c skip) k c off bad =
      or_resume-same _ _ k c off bad (λ next e.
        index_from-enough a b k skip c next
          (omega (arith, skip_corrupt-above c skip off next e, ha))
          (omega (arith, skip_corrupt-above c skip off next e, hb))) in
    let onward : index_from a k c skip (off + (record_head_len + n))
        ≡ index_from b k c skip (off + (record_head_len + n)) =
      index_from-enough a b k skip c (off + (record_head_len + n)) (omega (arith, ha))
        (omega (arith, hb)) in
    rw (resumed, onward) refl

-- The scan of a file with any content ends: more rounds than a file has bytes change nothing.
pub index_segment_fuel :
    (k skip fuel : ℕ) (c : List ℕ)
    → length c < fuel
    → index_from fuel k c skip 0 ≡ index_segment k c skip
unfolding index_segment
index_segment_fuel k skip fuel c h =
    index_from-enough fuel (length c + 1) k skip c 0 (omega arith) (omega arith)

-- The index entries are records of the file `c`, in order from `lo` on: each is of this segment, ends
-- behind the confirmed bytes, has a header that gives its length, number and type, and begins where
-- the one before ended or later.
abbrev pub Indexes : ℕ → List ℕ → ℕ → ℕ → List FrameIndex → Type 0
Indexes k c skip lo [] = Unit {0}
Indexes k c skip lo (fi ∷ is) =
    (fi.seg ≡ k)
    × (lo ≤ fi.offset)
    × (skip < fi.offset + record_head_len + fi.length)
    × ((h : Header) × (parse_header (take header_size (drop (fi.offset + record_head_len) c))
          ≡ ok h)
        × (fi.length ≡ header_size + h.length)
        × (fi.seq ≡ h.seq)
        × (fi.typ ≡ h.typ))
    × Indexes k c skip (fi.offset + record_head_len + fi.length) is

Scanned : ℕ → List ℕ → ℕ → ℕ → Result RecoveryError Indexed → Type 0
Scanned k c skip lo (ok r) =
    Indexes k c skip lo r.entries × ((r.bytes ≡ c) ⊎ ((n : ℕ) × (r.bytes ≡ take n c)))
Scanned k c skip lo (err e) = Unit {0}

Indexes-down :
    (k : ℕ) (c : List ℕ) (skip lo lo' : ℕ) (is : List FrameIndex)
    → lo ≤ lo'
    → Indexes k c skip lo' is
    → Indexes k c skip lo is
Indexes-down k c skip lo lo' [] le h = tt
Indexes-down k c skip lo lo' (fi ∷ is) le (s, o, rest, z, m) = (s, omega arith, rest, z, m)

Scanned-down :
    (k : ℕ) (c : List ℕ) (skip lo lo' : ℕ) (r : Result RecoveryError Indexed)
    → lo ≤ lo'
    → Scanned k c skip lo' r
    → Scanned k c skip lo r
unfolding Scanned
Scanned-down k c skip lo lo' (ok r) le (h, b) = (Indexes-down k c skip lo lo' r.entries le h, b)
Scanned-down k c skip lo lo' (err e) le h = tt

Scanned-same :
    (k : ℕ) (c : List ℕ) (skip lo : ℕ)
    → Scanned k c skip lo (ok (record { bytes = c; entries = [] }))
unfolding Scanned
Scanned-same k c skip lo = (tt, inl refl)

Scanned-at_end :
    (k : ℕ) (c : List ℕ) (skip lo bad : ℕ) (s : Skip) → Scanned k c skip lo (at_end k c bad s)
unfolding Scanned at_end
Scanned-at_end k c skip lo bad (resume next) = (tt, inl refl)
Scanned-at_end k c skip lo bad truncated = (tt, inr (bad, refl))
Scanned-at_end k c skip lo bad refused = tt

Scanned-or_resume :
    (f : ℕ → Result RecoveryError Indexed) (k : ℕ) (c : List ℕ) (skip lo bad : ℕ) (s : Skip)
    → ((next : ℕ) → s ≡ resume next → Scanned k c skip lo (f next))
    → Scanned k c skip lo (or_resume f k c bad s)
unfolding Scanned or_resume
Scanned-or_resume f k c skip lo bad (resume next) h = h next refl
Scanned-or_resume f k c skip lo bad truncated h = Scanned-at_end k c skip lo bad truncated
Scanned-or_resume f k c skip lo bad refused h = tt

Scanned-take_record :
    (k : ℕ) (c : List ℕ) (skip off : ℕ) (rest : Result RecoveryError Indexed)
    → header_agrees c off (record_len c off) ≡ true
    → Scanned k c skip (off + (record_head_len + record_len c off)) rest
    → Scanned k c skip off (take_record k c skip off rest)
unfolding Scanned take_record with_entry entry_at header_agrees is_header
Scanned-take_record k c skip off (err e) agrees h = tt
Scanned-take_record k c skip off (ok r) agrees (h, b) =
    let n : ℕ = record_len c off in
    let header : Result Protocol.Error Header =
      parse_header (take header_size (drop (off + record_head_len) c)) in
    let skipped : leb (off + record_head_len + n) skip ≡ true → Indexes k c skip off r.entries =
      λ e. Indexes-down k c skip off (off + (record_head_len + n)) r.entries (omega arith) h in
    let kept : leb (off + record_head_len + n) skip ≡ false
        → Indexes k c skip off (entry_at k c off n header ++ r.entries) =
      λ e. elim (Result-cases header) [
        | inl (h', parsed) ↦
            let size : n ≡ header_size + h'.length = ground (arith, agrees, parsed) in
            let next : off + (record_head_len + n) ≡ off + record_head_len + n = omega arith in
            let behind : Indexes k c skip (off + record_head_len + n) r.entries = rw next at h in
            rw (ap (entry_at k c off n) parsed)
              (refl, omega arith, leb→gt _ _ e, (h', parsed, size, refl, refl), behind)
        | inr (e', failed) ↦ absurd (ground (arith, agrees, failed))
      ] in
    (
      if_both (λ more. Indexes k c skip off (more ++ r.entries))
          (leb (off + record_head_len + n) skip) [] (entry_at k c off n header) skipped kept,
      b,
    )

index_from-Scanned :
    (fuel k skip : ℕ) (c : List ℕ) (off : ℕ) → Scanned k c skip off (index_from fuel k c skip off)
unfolding index_from
index_from-Scanned zero k skip c off = Scanned-same k c skip off
index_from-Scanned (suc fuel) k skip c off =
    let n : ℕ = record_len c off in
    let bad : Skip = skip_corrupt c skip off in
    let P : Result RecoveryError Indexed → Type 0 = Scanned k c skip off in
    let same : P (ok (record { bytes = c; entries = [] })) = Scanned-same k c skip off in
    let ended : P (at_end k c off bad) = Scanned-at_end k c skip off off bad in
    let resumed : P (or_resume (index_from fuel k c skip) k c off bad) =
      Scanned-or_resume (index_from fuel k c skip) k c skip off off bad (λ next e.
        Scanned-down k c skip off next _ (omega (arith, skip_corrupt-above c skip off next e))
          (index_from-Scanned fuel k skip c next)) in
    if_both P (leb (length c) off) _ _ (λ eof. same)
      (λ more.
        if_both P (ltb (length c) (off + record_head_len)) _ _ (λ torn. ended)
          (λ has_head.
            if_both P (bad_len n) _ _ (λ e. resumed)
              (λ good.
                if_both P (ltb (length c) (off + record_head_len + header_size)) _ _ (λ torn. ended)
                  (λ has_header.
                    if_both P (header_agrees c off n) _ _
                      (λ agrees.
                        Scanned-take_record k c skip off _ agrees
                          (index_from-Scanned fuel k skip c (off + (record_head_len + n))))
                      (λ e. resumed)))))

-- Indexing a file with any content, where it is not refused, gives entries that are records of the
-- file: in order and without overlap, each behind the confirmed bytes and with its header's length,
-- number and type. The file is left as it is or cut.
pub index_segment-Indexes :
    (k skip : ℕ) (c : List ℕ) (r : Indexed)
    → index_segment k c skip ≡ ok r
    → Indexes k c skip 0 r.entries × ((r.bytes ≡ c) ⊎ ((n : ℕ) × (r.bytes ≡ take n c)))
unfolding Scanned index_segment
index_segment-Indexes k skip c r e =
    let scanned : Scanned k c skip 0 (index_segment k c skip) =
      index_from-Scanned (length c + 1) k skip c 0 in
    rw e at scanned
