-- ===== src/Wal/Encoding.antt =====
-- internal/wal/wal.go: Append encodes a payload and puts the frame at the end of the queue.
use influx_sync.Base.{
  ℕ, ◌+◌, ◌^◌, ◌<◌, ◌≡◌, ◌≢◌, refl, sym, false, List, [], ◌∷◌, ◌++◌, arith, ne→==, ==_refl, err≢ok,
  ok, Result-cases, inl, inr,
}
use influx_sync.Protocol.{
  Compression, encode, Frame, decode, decompress, is_heartbeat, type_heartbeat,
}
use influx_sync.Protocol.RoundTrip.{IsLossless, decode-encode, decompress-decode-encode}
use influx_sync.Protocol.RawFrames.{sent_frame}
use influx_sync.Wal.{Wal, encode_failed, append_encoded, append_if_encoded, append}
use influx_sync.Wal.Queue.{Queue, Numbered, Represents}
use influx_sync.Wal.Appending.{append_encoded-Represents}

-- The bytes are those of a data frame that has the number.
abbrev pub IsFramed : ℕ × List ℕ → Type 0
IsFramed (n, b) = (f : Frame) × (decode b ≡ ok f) × (is_heartbeat f ≡ false) × (f.seq ≡ n)

numbered_last :
    (next n : ℕ) (b : List ℕ) (q : Queue) → Numbered next (q ++ ((n, b) ∷ [])) → n + 1 ≡ next
numbered_last next n b [] (e, _) = omega (arith, e)
numbered_last next n b ((s, c) ∷ q) (_, h) = numbered_last next n b q h

-- What Append that answers no error has done, with Encode's frame of the payload under the next number.
appended :
    (c : Compression) (w : Wal) (typ : ℕ) (payload : List ℕ) (q : Queue)
    → Represents w q
    → w.cp.next_seq + 1 < 2 ^ 64
    → (append c w typ payload).1 ≡ ok tt
    → (frame : List ℕ) × (encode c typ w.cp.next_seq payload ≡ ok frame)
      × Represents (append c w typ payload).0 (q ++ ((w.cp.next_seq, frame) ∷ []))
      × ((append c w typ payload).0.cp.next_seq ≡ w.cp.next_seq + 1)
unfolding append append_if_encoded
appended c w typ payload q r room done = elim (Result-cases (encode c typ w.cp.next_seq payload)) [
  | inr (e, failed) ↦ absurd (err≢ok (encode_failed e) tt (simp failed at done))
  | inl (frame, made) ↦
      let n = w.cp.next_seq in
      let (_, r') = (append_encoded-Represents w typ n frame q r room).0 refl in
      let more : n + 1 ≡ (append_encoded w typ n frame).0.cp.next_seq =
        numbered_last _ n frame q r'.numbered in
      (frame, made, rw made r', rw made (sym more))
]

-- For a type other than the heartbeat, the bytes that were put decode to a data frame of the number.
pub append-Represents :
    (c : Compression) (w : Wal) (typ : ℕ) (payload : List ℕ) (q : Queue)
    → Represents w q
    → w.cp.next_seq + 1 < 2 ^ 64
    → typ < 256
    → typ ≢ type_heartbeat
    → (append c w typ payload).1 ≡ ok tt
    → (frame : List ℕ) × IsFramed (w.cp.next_seq, frame)
      × Represents (append c w typ payload).0 (q ++ ((w.cp.next_seq, frame) ∷ []))
      × ((append c w typ payload).0.cp.next_seq ≡ w.cp.next_seq + 1)
append-Represents c w typ payload q r room byte no_beat done =
    let n = w.cp.next_seq in
    let (frame, made, r', more) = appended c w typ payload q r room done in
    let (z, dec, _, _) = decode-encode c typ n payload frame byte (omega arith) made in
    let beat : is_heartbeat (sent_frame typ n z) ≡ false =
      unfold is_heartbeat in ne→== typ type_heartbeat no_beat in
    (frame, (sent_frame typ n z, dec, beat, refl), r', more)

-- The bytes are those of a frame that carries the payload, under its type and number.
abbrev pub IsCarried : Compression → ℕ → List ℕ → ℕ × List ℕ → Type 0
IsCarried c typ payload (n, b) =
    (f : Frame) × (decode b ≡ ok f) × (f.typ ≡ typ) × (f.seq ≡ n) × (decompress c f ≡ ok payload)

-- Append of a payload, of a type other than the heartbeat, that answers no error has put one frame at
-- the end of the queue, under the next number: decoded and decompressed by a lossless compressor it is
-- the payload, under that type and number. A number must be left behind it.
pub append-IsCarried :
    (c : Compression) (w : Wal) (typ : ℕ) (payload : List ℕ) (q : Queue)
    → IsLossless c
    → Represents w q
    → w.cp.next_seq + 1 < 2 ^ 64
    → typ < 256
    → typ ≢ type_heartbeat
    → (append c w typ payload).1 ≡ ok tt
    → (frame : List ℕ) × IsCarried c typ payload (w.cp.next_seq, frame)
      × Represents (append c w typ payload).0 (q ++ ((w.cp.next_seq, frame) ∷ []))
      × ((append c w typ payload).0.cp.next_seq ≡ w.cp.next_seq + 1)
append-IsCarried c w typ payload q lossless r room byte no_beat done =
    let n = w.cp.next_seq in
    let (frame, made, r', more) = appended c w typ payload q r room done in
    (
      frame,
      decompress-decode-encode c typ n payload frame lossless byte no_beat (omega arith) made,
      r',
      more,
    )

-- Append answers no error where Encode answers none.
pub append_succeeds :
    (c : Compression) (w : Wal) (typ : ℕ) (payload frame : List ℕ)
    → encode c typ w.cp.next_seq payload ≡ ok frame
    → (append c w typ payload).1 ≡ ok tt
unfolding append append_if_encoded append_encoded
append_succeeds c w typ payload frame made = rw (made, ==_refl w.cp.next_seq)
