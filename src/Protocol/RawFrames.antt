-- ===== src/Protocol/RawFrames.antt =====
-- internal/protocol/codec.go, encodeRaw: ParseHeader and Decode of the frames it builds.
use influx_sync.Base.{
  ℕ, ◌+◌, ◌%◌, ◌^◌, ◌≤◌, ◌<◌, ◌≡◌, refl, List, [], ◌++◌, arith, ==_refl, length, take, drop, IsU64,
  ok, ge→ltb,
}
use native.Mathlib.Nat.{mod-eq_of_lt}
use mathlib.Core.List.{append-nil}
use influx_sync.Bytes.{put_uint}
use influx_sync.Crc.{checksum_ieee, checksum_ieee-IsU32}
use influx_sync.Protocol.{
  Header, Frame, magic, version, header_size, max_frame_len, put_header, check_header, parse_header,
  decode, encode_raw,
}
use influx_sync.Protocol.HeaderLaws.{parse-put_header}

abbrev pub sent_frame : ℕ → ℕ → List ℕ → Frame
sent_frame typ seq compressed = record {
  version = version;
  typ = typ;
  seq = seq;
  crc = checksum_ieee compressed;
  payload = compressed;
}

pub length-encode_raw :
    (typ seq : ℕ) (payload : List ℕ) (crc : ℕ)
    → length (encode_raw typ seq payload crc) ≡ header_size + length payload
unfolding encode_raw put_header put_uint
length-encode_raw typ seq payload crc = omega arith

take-put_header :
    (h : Header) (rest : List ℕ) → take header_size (put_header h ++ rest) ≡ put_header h
unfolding put_header put_uint
take-put_header h rest = refl

check_header_sent :
    (h : Header)
    → h.magic ≡ magic
    → h.version ≡ version
    → header_size + h.length ≤ max_frame_len
    → check_header h ≡ ok h
unfolding check_header
check_header_sent h hm hv hl = ground arith

-- The fields of a frame that encode_raw lays out are found again.
pub parse-encode_raw :
    (typ seq : ℕ) (payload : List ℕ) (crc : ℕ)
    → typ < 256
    → IsU64 seq
    → crc < 2 ^ 32
    → header_size + length payload ≤ max_frame_len
    → parse_header (take header_size (encode_raw typ seq payload crc))
      ≡ ok (record {
        magic = magic;
        version = version;
        typ = typ;
        seq = seq;
        length = length payload;
        crc = crc;
      })
unfolding encode_raw
parse-encode_raw typ seq payload crc ht hs hc hl =
    let fits : length payload % 2 ^ 32 ≡ length payload = mod-eq_of_lt (omega arith) in
    let h : Header = record {
      magic = magic;
      version = version;
      typ = typ;
      seq = seq;
      length = length payload;
      crc = crc;
    } in
    rw
      (
        fits,
        take-put_header h payload,
        ← append-nil (put_header h),
        parse-put_header h [] (record {
          magic_fits = omega arith;
          version_fits = omega arith;
          typ_fits = ht;
          seq_fits = hs;
          length_fits = omega arith;
          crc_fits = hc;
        }),
      )
      (check_header_sent h refl refl hl)

pub drop-encode_raw :
    (typ seq : ℕ) (payload : List ℕ) (crc : ℕ)
    → drop header_size (encode_raw typ seq payload crc) ≡ payload
unfolding encode_raw put_header put_uint
drop-encode_raw typ seq payload crc = refl

pub decode-encode_raw :
    (typ seq : ℕ) (payload : List ℕ)
    → typ < 256
    → IsU64 seq
    → header_size + length payload ≤ max_frame_len
    → decode (encode_raw typ seq payload (checksum_ieee payload)) ≡ ok (sent_frame typ seq payload)
unfolding decode
decode-encode_raw typ seq payload ht hs hl = rw (
  ge→ltb (length (encode_raw typ seq payload (checksum_ieee payload))) header_size
      (omega (arith, length-encode_raw typ seq payload (checksum_ieee payload))),
  parse-encode_raw typ seq payload (checksum_ieee payload) ht hs (checksum_ieee-IsU32 payload) hl,
  length-encode_raw typ seq payload (checksum_ieee payload),
  drop-encode_raw typ seq payload (checksum_ieee payload),
  ==_refl (header_size + length payload),
  ==_refl (checksum_ieee payload),
)
