-- ===== src/Wal/Recovery/Opening.antt =====
-- internal/wal/wal.go, Open: the numbers that an opened log gives out.
use influx_sync.Base.{
  ℕ, ◌-◌, ◌≤◌, ◌<◌, ◌≡◌, ◌^◌, List, [], ◌∷◌, ltb, if◌then◌else◌, ok, arith, All, All-map, inl, inr,
  Result-cases, add64, sym, ap, ok-injective, ◌∙◌,
}
use influx_sync.Wal.{Wal, FrameIndex, rotate}
use influx_sync.Wal.Recovery.{Disk, max_seq, opened, open_wal, scan_segments, load_checkpoint}

max_seq-bounds : (is : List FrameIndex) → All (λ fi. fi.seq ≤ max_seq is) is
unfolding max_seq
max_seq-bounds [] = tt
max_seq-bounds (fi ∷ is) = (ground arith, All-map _ _ is (λ x h. ground arith) (max_seq-bounds is))

-- An opened log gives out numbers past the number of every frame in its index, where no number in
-- the index is the last one of 64 bits.
pub open_wal-next_seq :
    (seg_size : ℕ) (disk : Disk) (w : Wal)
    → open_wal seg_size disk ≡ ok w
    → max_seq w.index < 2 ^ 64 - 1
    → All (λ fi. fi.seq < w.cp.next_seq) w.index
unfolding open_wal opened rotate
open_wal-next_seq seg_size disk w e small =
    elim (Result-cases (scan_segments (load_checkpoint disk.saved) disk.files)) [
      | inr (x, failed) ↦ absurd (ground (arith, failed))
      | inl ((cp, files, index), scanned) ↦
          let least : ℕ = add64 (max_seq index) 1 in
          let same = ok-injective _ w (sym (ap (opened seg_size disk) scanned) ∙ e) in
          let index_same : w.index ≡ index = sym (ap (λ (v : Wal). v.index) same) in
          let next_same : w.cp.next_seq ≡ (if ltb cp.next_seq least then least else cp.next_seq) =
            sym (ap (λ (v : Wal). v.cp.next_seq) same) in
          let fits : max_seq index < 2 ^ 64 - 1 = rw (index_same) at small in
          let next : max_seq index < w.cp.next_seq = ground (arith, next_same) in
          rw (index_same)
            (All-map _ _ index (λ x le. omega (arith, le, next)) (max_seq-bounds index))
    ]
