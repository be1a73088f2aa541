-- ===== src/Receiver/EarlyClose.antt =====
-- internal/receiver/receiver.go: what HandleFrame does with frame index 0 when the missing frames
-- are not kept. internal/transport/tcp_server.go gives index 0 to every zstd frame.
use influx_sync.Base.{
  ℕ, ◌+◌, ◌-◌, ◌^◌, ◌≤◌, ◌<◌, ◌≡◌, ◌≢◌, ◌∙◌, refl, sym, ap, true, false, arith, add64, List, ◌∷◌,
  Option, none, some, Result, ok, err, inl, inr, ne→==, le→leb, gt→leb, ge→ltb, lt→ltb, Bool-cases,
}
use native.Mathlib.Decide.{dec_lt}
use influx_sync.Protocol.{Compression, Frame, Error, is_heartbeat, decode, decompress, ack_success}
use influx_sync.SeqTracker.{SeqTracker, seq_jump_limit, close_gap, done}
use influx_sync.SeqTracker.Prefix.{
  IsTracking, IsTracking-mono, done-IsTracking, close_gap-IsTracking,
}
use influx_sync.SeqTracker.Stopping.{done_advanced}
use influx_sync.Receiver.{
  Config, WriteError, Env, Receiver, mark_done, none_inflight, try_close_gap, close_or_warn,
  note_gap, classify_write_error, dlq_meta, isolate, relay, write_failed, write_raw, deliver,
  begin_frame, end_frame, handle_frame,
}
use influx_sync.Receiver.Text.{is_blank}
use influx_sync.Receiver.Inflight.{add_count}
use influx_sync.Receiver.Served.{
  is_kept, IsServing, last_fits, mark_done_keeps, advance_seq_keeps, advance_seq_raises,
}

-- The tracker's numbers are below 2 ^ 62, whether or not their frames are kept.
record IsSmall (base : ℕ) (r : Receiver) : Type 0 where
  tracking : IsTracking (λ s. s < 2 ^ 62) base r.seq_ord
  agree : r.last_seq ≡ r.seq_ord.last
  base_fits : base < 2 ^ 62

IsSmall-tracker :
    {base : ℕ} (t : SeqTracker)
    → IsTracking (λ s. s < 2 ^ 62) base t
    → base < 2 ^ 62
    → t.last < 2 ^ 62
IsSmall-tracker {base} t k h = elim (dec_lt base t.last) [
  | yes up ↦ k.covered t.last up (omega arith)
  | no low ↦ omega arith
]

-- No number but `seq` is kept that was not, or lost, and last_seq does not go back.
record Passes (seq : ℕ) (r r' : Receiver) : Type 0 where
  up : r.last_seq ≤ r'.last_seq
  others : (x : ℕ) → x ≢ seq → is_kept x r' ≡ is_kept x r

module _ (cfg : Config) (env : Env) where
  closes :
      {base : ℕ} (r : Receiver) (seq : ℕ)
      → IsServing base r
      → r.last_seq + 1 < seq
      → seq ≤ r.last_seq + seq_jump_limit
      → seq < 2 ^ 62
      → none_inflight (seq - (r.last_seq + 1)) (r.last_seq + 1) (add_count seq r.inflight_seq)
        ≡ true
      → let r' = begin_frame cfg env 0 seq r in
        (r'.last_seq ≡ seq - 1)
        × (r'.stored ≡ r.stored)
        × (r'.dead ≡ r.dead)
        × (r'.seq_ord ≡ close_gap r.seq_ord (seq - 1))
  unfolding begin_frame note_gap try_close_gap close_or_warn
  closes r seq s gap near small clear =
      let low = last_fits s in
      let r1 : Receiver = record r { inflight_seq = add_count seq r.inflight_seq } in
      let t = close_gap r1.seq_ord (seq - 1) in
      let at : t.last ≡ seq - 1 = unfold close_gap in ground (arith, s.agree) in
      let same = advance_seq_keeps cfg env (record r1 { seq_ord = t }) t.last in
      let raised =
        advance_seq_raises cfg env (record r1 { seq_ord = t }) t.last (omega arith) (omega arith) in
      rw
        (
          lt→ltb (add64 r.last_seq 1) seq (omega arith),
          ge→ltb (add64 r.last_seq seq_jump_limit) seq (omega arith),
          gt→leb seq (add64 r.last_seq 1) (omega arith),
          clear,
        )
        (raised ∙ at, same.stored, same.dead, same.seq_ord)

  -- The gap is closed over numbers whose frames may be missing.
  begun-IsSmall :
      {base : ℕ} (r r' : Receiver) (seq : ℕ)
      → IsServing base r
      → r.last_seq + 1 < seq
      → seq < 2 ^ 62
      → r'.last_seq ≡ seq - 1
      → r'.seq_ord ≡ close_gap r.seq_ord (seq - 1)
      → IsSmall base r'
  begun-IsSmall {base} r r' seq s gap small at closed =
      let t = close_gap r.seq_ord (seq - 1) in
      let end : t.last ≡ seq - 1 = unfold close_gap in ground (arith, s.agree) in
      record {
        tracking = rw closed (
            close_gap-IsTracking r.seq_ord (seq - 1) (IsTracking-mono (λ x k. k.1) s.tracking)
              (omega arith) (λ x lo hi. omega arith));
        agree = at ∙ sym end ∙ ap (λ (o : SeqTracker). o.last) (sym closed);
        base_fits = s.base_fits;
      }

  mark_done-le :
      {base : ℕ} (r : Receiver) (seq : ℕ)
      → IsSmall base r
      → seq < 2 ^ 62
      → seq ≤ r.last_seq + seq_jump_limit
      → r.last_seq ≤ (mark_done cfg env r seq).last_seq
  unfolding mark_done
  mark_done-le {base} r seq s small near =
      let low = IsSmall-tracker r.seq_ord s.tracking s.base_fits in
      let d = done r.seq_ord seq in
      let k : IsTracking (λ x. x < 2 ^ 62) base d.0 =
        done-IsTracking r.seq_ord seq s.tracking (omega (arith, low)) (omega (arith, s.agree))
          small in
      let fits = IsSmall-tracker d.0 k s.base_fits in
      let (le, says) =
        done_advanced r.seq_ord seq s.tracking (omega arith) (omega (arith, low)) small in
      elim (Bool-cases d.1) [
        | inl up ↦
            let raised =
              advance_seq_raises cfg env (record r { seq_ord = d.0 }) d.0.last
                (omega (arith, s.agree, says.0 up)) fits in
            rw up (omega (arith, raised, s.agree, le))
        | inr stay ↦ rw stay (omega arith)
      ]

  -- A number is marked in a receiver that keeps one frame more, or none.
  marked-Passes :
      {base : ℕ} (r r1 : Receiver) (seq : ℕ)
      → IsSmall base r
      → r1.seq_ord ≡ r.seq_ord
      → r1.last_seq ≡ r.last_seq
      → ((x : ℕ) → x ≢ seq → is_kept x r1 ≡ is_kept x r)
      → seq < 2 ^ 62
      → seq ≤ r.last_seq + seq_jump_limit
      → Passes seq r (mark_done cfg env r1 seq)
  marked-Passes r r1 seq s eo el others small near =
      let (es, ed, _) = mark_done_keeps cfg env r1 seq in
      let s1 : IsSmall _ r1 = record {
        tracking = rw eo s.tracking;
        agree = rw (eo, el) s.agree;
        base_fits = s.base_fits;
      } in
      record {
        up = omega (arith, el, mark_done-le r1 seq s1 small (omega (arith, el)));
        others = λ x ne. rw (es, ed) (others x ne);
      }

  same-Passes : (seq : ℕ) (r : Receiver) → Passes seq r r
  same-Passes seq r = record { up = omega arith; others = λ x ne. refl }

  relay_same :
      (f : Frame) (raw : List ℕ) (r : Receiver)
      → let r' = relay cfg env f raw r in
        (r'.stored ≡ r.stored)
        × (r'.dead ≡ r.dead)
        × (r'.last_seq ≡ r.last_seq)
        × (r'.seq_ord ≡ r.seq_ord)
  unfolding relay
  relay_same f raw r = ground arith

  isolate-Passes :
      {base : ℕ} (f : Frame) (status : ℕ) (raw : List ℕ) (r : Receiver)
      → IsSmall base r
      → f.seq < 2 ^ 62
      → f.seq ≤ r.last_seq + seq_jump_limit
      → Passes f.seq r (isolate cfg env f status raw r).0
  unfolding isolate dlq_meta
  isolate-Passes f status raw r s small near = elim (Bool-cases env.dlq_ok) [
    | inl wrote ↦ simp wrote (
        marked-Passes r (record r { dead = dlq_meta f true status raw ∷ r.dead }) f.seq s refl refl
          (λ x ne. rw (ne→== f.seq x (λ e. ne (sym e))) refl) small near)
    | inr failed ↦ simp failed (same-Passes f.seq r)
  ]

  write-Passes :
      {base : ℕ} (f : Frame) (raw : List ℕ) (r : Receiver) (w : Option WriteError)
      → IsSmall base r
      → f.seq < 2 ^ 62
      → f.seq ≤ r.last_seq + seq_jump_limit
      → Passes f.seq r (write_raw cfg env f raw r w).0
  unfolding write_raw write_failed
  write-Passes f raw r none s small near =
      let r1 : Receiver = record r { stored = (f.seq, raw) ∷ r.stored } in
      let (es, ed, el, eo) = relay_same f raw r1 in
      marked-Passes r (relay cfg env f raw r1) f.seq s eo el
        (λ x ne. rw (es, ed, ne→== f.seq x (λ e. ne (sym e))) refl) small near
  write-Passes f raw r (some e) s small near = elim (Bool-cases (classify_write_error e).0) [
    | inr transient ↦ rw transient (same-Passes f.seq r)
    | inl poison ↦ rw poison (isolate-Passes f (classify_write_error e).1 raw r s small near)
  ]

  deliver-Passes :
      {base : ℕ} (f : Frame) (r : Receiver) (raw : Result Error (List ℕ))
      → IsSmall base r
      → f.seq < 2 ^ 62
      → f.seq ≤ r.last_seq + seq_jump_limit
      → Passes f.seq r (deliver cfg env f r raw).0
  unfolding deliver
  deliver-Passes f r (err e) s small near = same-Passes f.seq r
  deliver-Passes f r (ok raw) s small near = elim (Bool-cases (is_blank raw)) [
    | inl blank ↦ rw blank (same-Passes f.seq r)
    | inr text ↦ rw text (write-Passes f raw r env.write s small near)
  ]

  -- HandleFrame of a frame with index 0, past a gap that nothing in flight is part of.
  first_frame-Passes :
      (c : Compression) {base : ℕ} (r : Receiver) (bytes : List ℕ) (f : Frame)
      → IsServing base r
      → decode bytes ≡ ok f
      → is_heartbeat f ≡ false
      → r.last_seq + 1 < f.seq
      → f.seq ≤ r.last_seq + seq_jump_limit
      → f.seq < 2 ^ 62
      → none_inflight (f.seq - (r.last_seq + 1)) (r.last_seq + 1) (add_count f.seq r.inflight_seq)
        ≡ true
      → let r' = (handle_frame c cfg env 0 r bytes).0 in
        (f.seq ≤ r'.last_seq + 1) × ((x : ℕ) → x ≢ f.seq → is_kept x r' ≡ is_kept x r)
  unfolding handle_frame end_frame
  first_frame-Passes c r bytes f s dec not_beat gap near small clear =
      let r1 = begin_frame cfg env 0 f.seq r in
      let (el, es, ed, eo) = closes r f.seq s gap near small clear in
      let p =
        deliver-Passes f r1 (decompress c f) (begun-IsSmall r r1 f.seq s gap small el eo) small
          (omega arith) in
      rw (dec, not_beat, gt→leb f.seq r.last_seq (omega arith))
        (omega (arith, p.up, el), λ x ne. p.others x ne ∙ rw (es, ed) refl)

duplicate :
    (c : Compression) (cfg : Config) (env : Env) (k : ℕ) (r : Receiver) (bytes : List ℕ) (g : Frame)
    → decode bytes ≡ ok g
    → is_heartbeat g ≡ false
    → g.seq ≤ r.last_seq
    → handle_frame c cfg env k r bytes ≡ (r, ack_success)
unfolding handle_frame
duplicate c cfg env k r bytes g dec not_beat old =
    rw (dec, not_beat, le→leb g.seq r.last_seq old) refl

-- Where a receiver's invariant holds, a frame with index 0 comes whose number is past last_seq + 1, by
-- at most 100000 and below 2 ^ 62, and none of the numbers between is in flight. Whatever becomes of that frame,
-- HandleFrame acknowledges each missing frame that comes right behind it as a duplicate: the state
-- stays as it is, and the missing frame is kept only if it was kept before.
pub early_close :
    (c : Compression) (cfg : Config) (env env' : Env) {base : ℕ} (r : Receiver) (k : ℕ)
    (bytes bytes' : List ℕ) (f g : Frame)
    → IsServing base r
    → decode bytes ≡ ok f
    → is_heartbeat f ≡ false
    → f.seq ≤ r.last_seq + seq_jump_limit
    → f.seq < 2 ^ 62
    → none_inflight (f.seq - (r.last_seq + 1)) (r.last_seq + 1) (add_count f.seq r.inflight_seq)
      ≡ true
    → decode bytes' ≡ ok g
    → is_heartbeat g ≡ false
    → r.last_seq < g.seq
    → g.seq < f.seq
    → let r' = (handle_frame c cfg env 0 r bytes).0 in
      (handle_frame c cfg env' k r' bytes' ≡ (r', ack_success))
      × (is_kept g.seq r' ≡ is_kept g.seq r)
early_close c cfg env env' r k bytes bytes' f g s dec not_beat near small clear dec' not_beat' lo
      hi =
    let r' = (handle_frame c cfg env 0 r bytes).0 in
    let (up, others) =
      first_frame-Passes cfg env c r bytes f s dec not_beat (omega arith) near small clear in
    let dup : handle_frame c cfg env' k r' bytes' ≡ (r', ack_success) =
      duplicate c cfg env' k r' bytes' g dec' not_beat' (omega (arith, up)) in
    (dup, others g.seq (λ e. omega (arith, e)))
