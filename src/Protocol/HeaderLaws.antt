-- ===== src/Protocol/HeaderLaws.antt =====
-- The 20-byte header of internal/protocol: what putHeader writes, ParseHeader reads, and back.
use influx_sync.Base.{
  ℕ, ◌+◌, ◌^◌, ◌≤◌, ◌<◌, ◌≡◌, refl, List, [], ◌∷◌, ◌++◌, arith, ltb, length, take, All, IsByte, ok,
}
use influx_sync.Bytes.{put_uint, read_uint, read-put_uint, put-read_uint, read_uint-lt}
use influx_sync.Protocol.{
  Header, magic, version, header_size, max_frame_len, put_header, header_of, check_header,
  parse_header,
}
use influx_sync.Base.{ge→ltb, length-append, false}

-- The fields fit their widths.
pub record HeaderFits (h : Header) : Type 0 where
  pub magic_fits : h.magic < 2 ^ 16
  pub version_fits : h.version < 2 ^ 8
  pub typ_fits : h.typ < 2 ^ 8
  pub seq_fits : h.seq < 2 ^ 64
  pub length_fits : h.length < 2 ^ 32
  pub crc_fits : h.crc < 2 ^ 32

pub length-put_header : (h : Header) → length (put_header h) ≡ header_size
unfolding put_header put_uint
length-put_header h = refl

pub header_of-put_header :
    (h : Header) (rest : List ℕ) → HeaderFits h → header_of (put_header h ++ rest) ≡ h
unfolding header_of put_header put_uint
header_of-put_header h rest fits = λ i. record {
  magic = read-put_uint 2 h.magic fits.magic_fits i;
  version = h.version;
  typ = h.typ;
  seq = read-put_uint 8 h.seq fits.seq_fits i;
  length = read-put_uint 4 h.length fits.length_fits i;
  crc = read-put_uint 4 h.crc fits.crc_fits i;
}

pub parse-put_header :
    (h : Header) (rest : List ℕ)
    → HeaderFits h
    → parse_header (put_header h ++ rest) ≡ check_header h
unfolding parse_header
parse-put_header h rest fits =
    let long : ltb (length (put_header h ++ rest)) header_size ≡ false =
      ge→ltb _ _ (omega (arith, length-append (put_header h) rest, length-put_header h)) in
    rw (long, header_of-put_header h rest fits)

-- What ParseHeader lets through is its input's header, with the magic, the version and a length
-- within the frame limit.
pub parse_header_ok :
    (buf : List ℕ) (h : Header)
    → parse_header buf ≡ ok h
    → (header_of buf ≡ h)
      × (header_size ≤ length buf)
      × (h.magic ≡ magic)
      × (h.version ≡ version)
      × (header_size + h.length ≤ max_frame_len)
unfolding parse_header check_header
parse_header_ok buf h e = ground arith

put_read : (n : ℕ) (bs : List ℕ) → length bs ≡ n → All IsByte bs → put_uint n (read_uint 0 bs) ≡ bs
put_read n bs e h = rw (← e) (put-read_uint bs h)

-- Reading a header and writing it again gives the bytes that were read.
pub put-header_of :
    (buf : List ℕ)
    → header_size ≤ length buf
    → All IsByte buf
    → put_header (header_of buf) ≡ take header_size buf
unfolding put_header header_of
put-header_of
      (a ∷ b ∷ v ∷ t ∷ s1 ∷ s2 ∷ s3 ∷ s4 ∷ s5 ∷ s6 ∷ s7 ∷ s8 ∷ l1 ∷ l2 ∷ l3 ∷ l4 ∷ c1 ∷ c2 ∷ c3 ∷ c4
        ∷ rest)
      n h =
    simp (
      put_read 2 (a ∷ b ∷ []) refl (omega arith),
      put_read 8 (s1 ∷ s2 ∷ s3 ∷ s4 ∷ s5 ∷ s6 ∷ s7 ∷ s8 ∷ []) refl (omega arith),
      put_read 4 (l1 ∷ l2 ∷ l3 ∷ l4 ∷ []) refl (omega arith),
      put_read 4 (c1 ∷ c2 ∷ c3 ∷ c4 ∷ []) refl (omega arith),
    )
put-header_of _ n h = absurd (omega arith)

-- The header of bytes fits its fields.
pub header_of-HeaderFits :
    (buf : List ℕ) → header_size ≤ length buf → All IsByte buf → HeaderFits (header_of buf)
unfolding header_of
header_of-HeaderFits
      (a ∷ b ∷ v ∷ t ∷ s1 ∷ s2 ∷ s3 ∷ s4 ∷ s5 ∷ s6 ∷ s7 ∷ s8 ∷ l1 ∷ l2 ∷ l3 ∷ l4 ∷ c1 ∷ c2 ∷ c3 ∷ c4
        ∷ rest)
      n h =
    record {
      magic_fits = read_uint-lt (a ∷ b ∷ []) (omega arith);
      version_fits = omega arith;
      typ_fits = omega arith;
      seq_fits = read_uint-lt (s1 ∷ s2 ∷ s3 ∷ s4 ∷ s5 ∷ s6 ∷ s7 ∷ s8 ∷ []) (omega arith);
      length_fits = read_uint-lt (l1 ∷ l2 ∷ l3 ∷ l4 ∷ []) (omega arith);
      crc_fits = read_uint-lt (c1 ∷ c2 ∷ c3 ∷ c4 ∷ []) (omega arith);
    }
header_of-HeaderFits _ n h = absurd (omega arith)
