-- ===== src/Protocol.antt =====
-- internal/protocol/frame.go and codec.go: the frame, its 20-byte header, encoding, decoding,
-- compression and the limits on sizes.
pub mod HeaderLaws
pub mod RawFrames
pub mod RoundTrip
pub mod Plain
mod Runs
use influx_sync.Base.{
  ℕ, ◌+◌, ◌-◌, ◌*◌, ◌%◌, ◌^◌, Bool, Option, none, some, List, [], ◌∷◌, ◌++◌, ltb, ◌==◌,
  if◌then◌else◌, length, get_or, take, drop, Result, ok, err, ◌>>=◌,
}
use influx_sync.Bytes.{put_uint, read_uint, slice}
use influx_sync.Crc.{checksum_ieee}

abbrev pub magic : ℕ
magic = 0x5057

abbrev pub version : ℕ
version = 0x01

abbrev pub header_size : ℕ
header_size = 20

abbrev pub max_frame_len : ℕ
max_frame_len = 2 ^ 20

abbrev pub max_decompressed_len : ℕ
max_decompressed_len = 16 * 2 ^ 20

abbrev pub type_data : ℕ
type_data = 0x01

abbrev pub type_heartbeat : ℕ
type_heartbeat = 0x02

abbrev pub type_data_zstd : ℕ
type_data_zstd = 0x04

abbrev pub ack_success : ℕ
ack_success = 0xff

abbrev pub ack_fail : ℕ
ack_fail = 0x00

pub data Error : Type 0 where
  heartbeat_payload compress_failed decompress_failed decompressed_too_large : Error
  payload_too_large frame_too_large unsupported_type : ℕ → Error
  header_too_short frame_too_short bad_magic bad_version too_large bad_crc : ℕ → Error
  length_mismatch : ℕ → ℕ → Error

pub record Header : Type 0 where
  pub magic : ℕ
  pub version : ℕ
  pub typ : ℕ
  pub seq : ℕ
  pub length : ℕ
  pub crc : ℕ

pub record Frame : Type 0 where
  pub version : ℕ
  pub typ : ℕ
  pub seq : ℕ
  pub crc : ℕ
  pub payload : List ℕ

unfoldable pub is_heartbeat : Frame → Bool
is_heartbeat f = f.typ == type_heartbeat

-- The 20 bytes that putHeader writes into its buffer.
unfoldable pub put_header : Header → List ℕ
put_header h =
    put_uint 2 h.magic
    ++ (h.version ∷ h.typ ∷ (put_uint 8 h.seq ++ (put_uint 4 h.length ++ put_uint 4 h.crc)))

-- The header that the first 20 bytes of `buf` hold.
unfoldable pub header_of : List ℕ → Header
header_of buf = record {
  magic = read_uint 0 (slice 0 2 buf);
  version = get_or buf 2 0;
  typ = get_or buf 3 0;
  seq = read_uint 0 (slice 4 12 buf);
  length = read_uint 0 (slice 12 16 buf);
  crc = read_uint 0 (slice 16 20 buf);
}

unfoldable pub check_header : Header → Result Error Header
check_header h =
    if h.magic == magic
    then (if h.version == version
        then (if ltb max_frame_len (header_size + h.length) then err (too_large h.length) else ok h)
        else err (bad_version h.version))
    else err (bad_magic h.magic)

unfoldable pub parse_header : List ℕ → Result Error Header
parse_header buf =
    if ltb (length buf) header_size
    then err (header_too_short (length buf))
    else check_header (header_of buf)

unfoldable pub encode_raw : ℕ → ℕ → List ℕ → ℕ → List ℕ
encode_raw typ seq payload crc =
    put_header (record {
      magic = magic;
      version = version;
      typ = typ;
      seq = seq;
      length = length payload % 2 ^ 32;
      crc = crc;
    })
    ++ payload

check_frame : List ℕ → Header → Result Error Frame
check_frame bytes h =
    if length bytes == header_size + h.length
    then (if checksum_ieee (drop header_size bytes) == h.crc
        then ok (record {
          version = h.version;
          typ = h.typ;
          seq = h.seq;
          crc = h.crc;
          payload = drop header_size bytes;
        })
        else err (bad_crc h.seq))
    else err (length_mismatch h.length (length bytes - header_size))

unfoldable pub decode : List ℕ → Result Error Frame
unfolding check_frame
decode bytes =
    if ltb (length bytes) header_size
    then err (frame_too_short (length bytes))
    else (parse_header (take header_size bytes) >>= check_frame bytes)

-- What a decompressor's reader delivers: bytes, and then its end or an error.
pub record Stream : Type 0 where
  pub bytes : List ℕ
  pub failed : Bool

-- compress/gzip and klauspost/compress/zstd: `gzip` is NewWriterLevel, Write and Close, `zstd` is
-- EncodeAll; `gunzip` and `unzstd` are `none` where the reader cannot be opened or reset.
pub record Compression : Type 0 where
  pub gzip : List ℕ → Option (List ℕ)
  pub zstd : List ℕ → List ℕ
  pub gunzip : List ℕ → Option Stream
  pub unzstd : List ℕ → Option Stream

-- io.ReadAll over an io.LimitedReader of `limit` bytes: at the limit the reader ends with no error.
unfoldable pub read_all : ℕ → Stream → Result Error (List ℕ)
read_all limit s =
    if ltb (length s.bytes) limit
    then (if s.failed then err decompress_failed else ok s.bytes)
    else ok (take limit s.bytes)

read_opened : Option Stream → Result Error (List ℕ)
unfolding read_all
read_opened none = err decompress_failed
read_opened (some s) = read_all (max_decompressed_len + 1) s

gzip_compress : Option (List ℕ) → Result Error (List ℕ)
gzip_compress none = err compress_failed
gzip_compress (some bs) = ok bs

module _ (c : Compression) where
  open c use {gzip, zstd, gunzip, unzstd}

  unfoldable pub compress : ℕ → List ℕ → Result Error (List ℕ)
  unfolding gzip_compress
  compress typ payload =
      if typ == type_data
      then gzip_compress (gzip payload)
      else if typ == type_data_zstd
      then ok (zstd payload)
      else err (unsupported_type typ)

  frame_compressed : ℕ → ℕ → List ℕ → Result Error (List ℕ)
  frame_compressed typ seq compressed =
      if ltb max_frame_len (header_size + length compressed)
      then err (frame_too_large (header_size + length compressed))
      else ok (encode_raw typ seq compressed (checksum_ieee compressed))

  unfoldable pub encode : ℕ → ℕ → List ℕ → Result Error (List ℕ)
  unfolding frame_compressed
  encode typ seq payload =
      if typ == type_heartbeat
      then (if ltb 0 (length payload) then err heartbeat_payload else ok (encode_raw typ seq [] 0))
      else if ltb max_decompressed_len (length payload)
      then err (payload_too_large (length payload))
      else (compress typ payload >>= frame_compressed typ seq)

  read_frame : Frame → Result Error (List ℕ)
  unfolding read_opened
  read_frame f =
      if f.typ == type_data
      then read_opened (gunzip f.payload)
      else if f.typ == type_data_zstd
      then read_opened (unzstd f.payload)
      else err (unsupported_type f.typ)

  check_size : List ℕ → Result Error (List ℕ)
  check_size out =
      if ltb max_decompressed_len (length out) then err decompressed_too_large else ok out

  unfoldable pub decompress : Frame → Result Error (List ℕ)
  unfolding read_frame check_size
  decompress f = read_frame f >>= check_size

  unfoldable pub encode_heartbeat : ℕ → Result Error (List ℕ)
  encode_heartbeat seq = encode type_heartbeat seq []
