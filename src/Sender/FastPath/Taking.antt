-- ===== src/Sender/FastPath/Taking.antt =====
-- internal/sender/fastpath.go, ServeHTTP: the frame that a request puts at the end of the log's queue.
use influx_sync.Base.{
  ℕ, ◌+◌, ◌^◌, ◌≤◌, ◌<◌, ◌≡◌, refl, sym, ap, true, false, List, [], ◌∷◌, ◌++◌, ltb, ◌==◌, length,
  Result, ok, err, arith, inl, inr, ◌⊎◌, ge→ltb, lt→ltb,
}
use mathlib.Core.Path.{subst}
use influx_sync.Protocol.{Compression, encode, header_size}
use influx_sync.Protocol.RoundTrip.{encode_ok}
use influx_sync.Protocol.RawFrames.{length-encode_raw}
use influx_sync.Crc.{checksum_ieee}
use influx_sync.Wal.{Wal, WalError, append_batch, set_seq}
use influx_sync.Wal.Queue.{Queue, Represents}
use influx_sync.Wal.Appending.{append_batch-Represents}
use influx_sync.Wal.Batches.{append_batch_one}
use influx_sync.Model.Rendering.{Bytes}
use influx_sync.Sender.FastPath.{
  FastPath, Push, split_lines, sort_lines, read_limited, forward, framed, appended, with_body,
  signalled, gate_shut, is_off, serve, backpressure,
}
use influx_sync.Sender.FastPath.Forwarded.{body_of, serve-Outcome}

append_one-Represents :
    (w w' : Wal) (fb : List ℕ) (seqs : List ℕ) (q : Queue)
    → Represents w q
    → w.cp.next_seq + 1 < 2 ^ 64
    → append_batch w (fb ∷ []) ≡ (w', ok seqs)
    → Represents w' (q ++ ((w.cp.next_seq, set_seq w.cp.next_seq fb) ∷ []))
append_one-Represents w w' fb seqs q r room e =
    let long : header_size ≤ length fb = (append_batch_one w w' fb seqs e).0 in
    subst
      (λ (p : Wal × Result _ _).
        Represents p.0 (q ++ ((w.cp.next_seq, set_seq w.cp.next_seq fb) ∷ [])))
      e (append_batch-Represents w (fb ∷ []) q r (omega arith) (long, tt)).0

-- Whatever a request is, the log stands for the queue it stood for, and the set of the forwarded
-- points is the same, or the queue has one frame more, under the next number: the frame that encodes
-- the accepted lines of the body.
pub serve-Represents :
    (c : Compression) (f : FastPath) (push : Push) (q : Queue)
    → Represents f.wal q
    → f.wal.cp.next_seq + 1 < 2 ^ 64
    → (let f' = serve c f push in
        (Represents f'.wal q × (f'.dedup ≡ f.dedup))
        ⊎ ((fb : List ℕ) × (encode c f.cfg.compression 0
                (sort_lines f.cfg (split_lines (body_of f push))).out
              ≡ ok fb)
            × Represents f'.wal (q ++ ((f.wal.cp.next_seq, set_seq f.wal.cp.next_seq fb) ∷ []))))
serve-Represents c f push q r room = elim (serve-Outcome c f push) [
  | inl (log, set) ↦ inl (subst (λ w. Represents w q) (sym log) r, set)
  | inr (fb, seqs, encoded, log, set) ↦
      inr (fb, encoded, append_one-Represents f.wal _ fb seqs q r room log)
]

appended-wal :
    (f : FastPath) (clock : ℕ → ℕ) (keys : List (Bytes × ℕ)) (p : Wal × Result WalError (List ℕ))
    → (appended f clock keys p).wal ≡ p.0
unfolding appended backpressure
appended-wal f clock keys (w, err e) = refl
appended-wal f clock keys (w, ok seqs) = refl

-- A request to a fast path that is on is taken, where its body is read whole, is neither empty nor
-- past the limit, has a line that is accepted and can be encoded, and the gate is open: the log then
-- has the frame of the accepted lines at the end of its queue.
pub serve_taken :
    (c : Compression) (f : FastPath) (push : Push) (q : Queue) (fb : List ℕ)
    → Represents f.wal q
    → f.wal.cp.next_seq + 1 < 2 ^ 64
    → is_off f.cfg.mode ≡ false
    → f.active ≡ true
    → push.body.failed ≡ false
    → 0 < length push.body.bytes
    → length push.body.bytes ≤ f.cfg.max_batch_bytes
    → gate_shut push.at_yellow ≡ false
    → 0 < length (sort_lines f.cfg (split_lines push.body.bytes)).out
    → encode c f.cfg.compression 0 (sort_lines f.cfg (split_lines push.body.bytes)).out ≡ ok fb
    → Represents
        (serve c f push).wal
        (q ++ ((f.wal.cp.next_seq, set_seq f.wal.cp.next_seq fb) ∷ []))
unfolding serve with_body signalled forward framed read_limited
serve_taken c f push q fb r room on active whole filled fits open_gate lines encoded =
    let (z, layout, _, _) = encode_ok c f.cfg.compression 0 _ fb encoded in
    let long : header_size ≤ length fb =
      omega (arith, ap length layout, length-encode_raw f.cfg.compression 0 z (checksum_ieee z)) in
    let below : ltb (length push.body.bytes) (f.cfg.max_batch_bytes + 1) ≡ true =
      lt→ltb _ _ (omega arith) in
    let some_bytes : (length push.body.bytes == 0) ≡ false = ground arith in
    let not_over : ltb f.cfg.max_batch_bytes (length push.body.bytes) ≡ false = ge→ltb _ _ fits in
    let some_lines : (length (sort_lines f.cfg (split_lines push.body.bytes)).out == 0) ≡ false =
      ground arith in
    simp
      (on, active, below, whole, some_bytes, not_over, open_gate, some_lines, encoded, appended-wal)
      (append_batch-Represents f.wal (fb ∷ []) q r (omega arith) (long, tt)).0
