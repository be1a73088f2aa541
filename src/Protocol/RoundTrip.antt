-- ===== src/Protocol/RoundTrip.antt =====
-- internal/protocol/codec.go: Encode, then Decode and Decompress, and what Decode accepts.
use influx_sync.Base.{
  ℕ, ◌+◌, ◌%◌, ◌^◌, ◌≤◌, ◌<◌, ◌≡◌, ◌≢◌, refl, ap, sym, ◌∙◌, ◌⊎◌, inl, inr, false, some, List, [],
  ◌∷◌, ◌++◌, arith, ◌==◌, length, take, drop, All, IsByte, IsU64, ok, ◌>>=◌, take-append-drop,
  ge→ltb, lt→ltb, length-take, length-drop, All-take, Bool-cases, Result-cases, take_all,
}
use influx_sync.Crc.{checksum_ieee}
use influx_sync.Protocol.{
  Header, Frame, magic, version, header_size, max_frame_len, max_decompressed_len, type_data,
  type_heartbeat, type_data_zstd, put_header, parse_header, decode, encode_raw, Compression,
  read_opened, compress, encode, check_size, decompress,
}
use influx_sync.Protocol.HeaderLaws.{parse_header_ok, put-header_of}
use influx_sync.Protocol.RawFrames.{sent_frame, length-encode_raw, decode-encode_raw}

-- The frame that a receiver should see.

length_zero : (xs : List ℕ) → length xs ≤ 0 → xs ≡ []
length_zero [] h = refl
length_zero (x ∷ xs) h = absurd (omega arith)

checksum-empty : checksum_ieee [] ≡ 0
unfolding checksum_ieee
checksum-empty = refl

-- Every way to a result of Encode.
pub encode_ok :
    (c : Compression) (typ seq : ℕ) (payload bytes : List ℕ)
    → encode c typ seq payload ≡ ok bytes
    → (z : List ℕ) × (bytes ≡ encode_raw typ seq z (checksum_ieee z))
      × (header_size + length z ≤ max_frame_len)
      × (((typ ≡ type_heartbeat) × (payload ≡ []) × (z ≡ []))
          ⊎ ((typ ≢ type_heartbeat)
              × (compress c typ payload ≡ ok z)
              × (length payload ≤ max_decompressed_len)))
unfolding encode
encode_ok c typ seq payload bytes e = elim (Bool-cases (typ == type_heartbeat)) [
  | inl beat ↦
      let empty : payload ≡ [] = length_zero payload (ground arith) in
      ([], ground (arith, empty, checksum-empty), omega arith, inl (ground arith, empty, refl))
  | inr other ↦ elim (Result-cases (compress c typ payload)) [
    | inl (z, hz) ↦
        (z, ground (arith, hz), ground (arith, hz), inr (ground arith, hz, ground arith))
    | inr (x, hx) ↦ absurd (ground (arith, hx))
  ]
]

-- Decode gives back the frame that Encode was asked to send, whatever its type.
pub decode-encode :
    (c : Compression) (typ seq : ℕ) (payload bytes : List ℕ)
    → typ < 256
    → IsU64 seq
    → encode c typ seq payload ≡ ok bytes
    → (z : List ℕ) × (decode bytes ≡ ok (sent_frame typ seq z))
      × (length bytes ≡ header_size + length z)
      × (length bytes ≤ max_frame_len)
decode-encode c typ seq payload bytes ht hs e =
    let (z, eq, fits, _) = encode_ok c typ seq payload bytes e in
    (
      z,
      rw eq (decode-encode_raw typ seq z ht hs fits),
      rw eq (length-encode_raw typ seq z (checksum_ieee z)),
      rw (eq, length-encode_raw) fits,
    )

-- Encode succeeds on every payload within the limits that its compressor handles.
pub encode_complete :
    (c : Compression) (typ seq : ℕ) (payload z : List ℕ)
    → typ ≢ type_heartbeat
    → length payload ≤ max_decompressed_len
    → compress c typ payload ≡ ok z
    → header_size + length z ≤ max_frame_len
    → encode c typ seq payload ≡ ok (encode_raw typ seq z (checksum_ieee z))
unfolding encode
encode_complete c typ seq payload z hb small e fits = ground (arith, e)

-- Decompression gives back what compression was given. These are the documented contracts of
-- compress/gzip and of klauspost/compress/zstd.
pub record IsLossless (c : Compression) : Type 0 where
  pub gunzip-gzip :
      (payload z : List ℕ)
      → c.gzip payload ≡ some z
      → c.gunzip z ≡ some (record { bytes = payload; failed = false })
  pub unzstd-zstd :
      (payload : List ℕ)
      → c.unzstd (c.zstd payload) ≡ some (record { bytes = payload; failed = false })

delivered :
    (c : Compression) (payload : List ℕ)
    → length payload ≤ max_decompressed_len
    → (read_opened (some (record { bytes = payload; failed = false })) >>= check_size c)
      ≡ ok payload
unfolding read_opened check_size
delivered c payload small = rw (
  lt→ltb (length payload) (max_decompressed_len + 1) (omega arith),
  ge→ltb max_decompressed_len (length payload) small,
)

compress_known :
    (c : Compression) (typ : ℕ) (payload z : List ℕ)
    → compress c typ payload ≡ ok z
    → ((typ ≡ type_data) × (c.gzip payload ≡ some z))
      ⊎ ((typ ≡ type_data_zstd) × (c.zstd payload ≡ z))
unfolding compress
compress_known c typ payload z e = elim (Bool-cases (typ == type_data)) [
  | inl gz ↦ inl (ground arith, ground arith)
  | inr other ↦ inr (ground arith, ground arith)
]

decompress-compress :
    (c : Compression) (typ seq : ℕ) (payload z : List ℕ)
    → IsLossless c
    → length payload ≤ max_decompressed_len
    → compress c typ payload ≡ ok z
    → decompress c (sent_frame typ seq z) ≡ ok payload
unfolding decompress
decompress-compress c typ seq payload z l small e = elim (compress_known c typ payload z e) [
  | inl (gz, hz) ↦ rw (gz, l.gunzip-gzip payload z hz) (delivered c payload small)
  | inr (zs, hz) ↦ rw (zs, ← hz, l.unzstd-zstd payload) (delivered c payload small)
]

-- A data frame carries its payload: encoded, decoded and decompressed it is what was sent, under the
-- type and the number that it was sent with.
pub decompress-decode-encode :
    (c : Compression) (typ seq : ℕ) (payload bytes : List ℕ)
    → IsLossless c
    → typ < 256
    → typ ≢ type_heartbeat
    → IsU64 seq
    → encode c typ seq payload ≡ ok bytes
    → (f : Frame) × (decode bytes ≡ ok f)
      × (f.typ ≡ typ)
      × (f.seq ≡ seq)
      × (decompress c f ≡ ok payload)
decompress-decode-encode c typ seq payload bytes l ht hb hs e =
    let (z, eq, fits, how) = encode_ok c typ seq payload bytes e in
    elim how [
      | inl (beat, _, _) ↦ absurd (hb beat)
      | inr (_, hz, small) ↦ (
        sent_frame typ seq z,
        rw eq (decode-encode_raw typ seq z ht hs fits),
        refl,
        refl,
        decompress-compress c typ seq payload z l small hz,
      )
    ]

decode_ok :
    (bytes : List ℕ) (f : Frame)
    → decode bytes ≡ ok f
    → (h : Header) × (parse_header (take header_size bytes) ≡ ok h)
      × (length bytes ≡ header_size + h.length)
      × (checksum_ieee (drop header_size bytes) ≡ h.crc)
      × (f ≡ record {
        version = h.version;
        typ = h.typ;
        seq = h.seq;
        crc = h.crc;
        payload = drop header_size bytes;
      })
unfolding decode
decode_ok bytes f e = elim (Result-cases (parse_header (take header_size bytes))) [
  | inl (h, hh) ↦ (h, hh, ground (arith, hh), ground (arith, hh), ground (arith, hh))
  | inr (x, hx) ↦ absurd (ground (arith, hx))
]

abbrev sent_header : ℕ → ℕ → ℕ → ℕ → Header
sent_header typ seq crc len = record {
  magic = magic;
  version = version;
  typ = typ;
  seq = seq;
  length = len;
  crc = crc;
}

-- A decoded frame's bytes are the ones that encode_raw lays out for it: Decode accepts nothing else.
pub decode_sound :
    (bytes : List ℕ) (f : Frame)
    → All IsByte bytes
    → decode bytes ≡ ok f
    → (bytes ≡ encode_raw f.typ f.seq f.payload f.crc)
      × (f.version ≡ version)
      × (f.crc ≡ checksum_ieee f.payload)
      × (length bytes ≤ max_frame_len)
unfolding encode_raw
decode_sound bytes f hb e =
    let (h, hp, hl, hc, hf) = decode_ok bytes f e in
    let head = take header_size bytes in
    let body = drop header_size bytes in
    let (hh, hn, hm, hv, hx) = parse_header_ok head h hp in
    let again : put_header h ≡ head = rw (← hh) (
      put-header_of head hn (All-take IsByte header_size bytes hb)
      ∙ take_all header_size head (omega (arith, length-take header_size bytes))) in
    let same : h.length ≡ length body % 2 ^ 32 = omega (arith, length-drop header_size bytes) in
    let fields : h ≡ sent_header h.typ h.seq h.crc (length body % 2 ^ 32) = λ i. record {
      magic = hm i;
      version = hv i;
      typ = h.typ;
      seq = h.seq;
      length = same i;
      crc = h.crc;
    } in
    let layout : bytes ≡ encode_raw h.typ h.seq body h.crc =
      sym (take-append-drop header_size bytes)
      ∙ ap (λ (t : List ℕ). t ++ body) (sym again ∙ ap put_header fields) in
    rw hf (layout, hv, sym hc, omega arith)
