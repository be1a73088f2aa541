-- ===== src/Protocol/Runs.antt =====
-- Tests of the protocol, and its theorems at concrete inputs.
use influx_sync.Base.{ℕ, ◌+◌, ◌≤◌, ◌≡◌, refl, List, [], ◌∷◌, ◌++◌, arith, length, take, ok, err}
use influx_sync.Bytes.{put_uint, read_uint}
use influx_sync.Crc.{checksum_ieee}
use influx_sync.Protocol.{
  Frame, version, header_size, max_frame_len, put_header, header_of, check_header, parse_header,
  encode_raw, encode, compress, decode, decompress, bad_crc, bad_magic,
}
use influx_sync.Protocol.RoundTrip.{decompress-decode-encode, decode_sound, decode-encode}
use influx_sync.Protocol.RawFrames.{sent_frame}
use influx_sync.Protocol.Plain.{plain, plain-IsLossless}

abbrev payload : List ℕ
payload = 109 ∷ 32 ∷ 118 ∷ 61 ∷ 49 ∷ []

abbrev wire : List ℕ
wire =
    80 ∷ 87 ∷ 1 ∷ 1 ∷ 0 ∷ 0 ∷ 0 ∷ 0 ∷ 0 ∷ 0 ∷ 0 ∷ 7 ∷ 0 ∷ 0 ∷ 0 ∷ 5 ∷ 108 ∷ 248 ∷ 183 ∷ 185 ∷ 109
    ∷ 32 ∷ 118 ∷ 61 ∷ 49 ∷ []

abbrev frame : Frame
frame = record { version = 1; typ = 1; seq = 7; crc = 0x6cf8b7b9; payload = payload }

encodes : encode plain 1 7 payload ≡ ok wire
unfolding encode compress encode_raw put_header put_uint checksum_ieee
encodes = refl

decodes : decode wire ≡ ok frame
unfolding decode parse_header header_of check_header read_uint checksum_ieee
decodes = refl

-- One payload bit flipped.
flipped : decode (take 24 wire ++ (50 ∷ [])) ≡ err (bad_crc 7)
unfolding decode parse_header header_of check_header read_uint checksum_ieee
flipped = refl

wrong_magic : decode (81 ∷ wire) ≡ err (bad_magic 0x5150)
unfolding decode parse_header header_of check_header read_uint checksum_ieee
wrong_magic = refl

decompress-decode-encode_example :
    (f : Frame) × (decode wire ≡ ok f)
    × (f.typ ≡ 1)
    × (f.seq ≡ 7)
    × (decompress plain f ≡ ok payload)
decompress-decode-encode_example =
    decompress-decode-encode plain 1 7 payload wire plain-IsLossless (omega arith) (omega arith)
      (omega arith) encodes

decode-encode_example :
    (z : List ℕ) × (decode wire ≡ ok (sent_frame 1 7 z))
    × (length wire ≡ header_size + length z)
    × (length wire ≤ max_frame_len)
decode-encode_example = decode-encode plain 1 7 payload wire (omega arith) (omega arith) encodes

decode_sound_example :
    (wire ≡ encode_raw 1 7 payload 0x6cf8b7b9)
    × (◌≡◌ {A = ℕ} 1 version)
    × (0x6cf8b7b9 ≡ checksum_ieee payload)
    × (length wire ≤ max_frame_len)
decode_sound_example = decode_sound wire frame (omega arith) decodes
