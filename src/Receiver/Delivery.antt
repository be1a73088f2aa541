-- ===== src/Receiver/Delivery.antt =====
-- internal/receiver/receiver.go: HandleFrame keeps every acknowledged frame.
use influx_sync.Base.{
  ℕ, ◌+◌, ◌-◌, ◌^◌, ◌≤◌, ◌<◌, ◌≡◌, inl, inr, refl, true, false, Option, none, some, List, ◌∷◌, ltb,
  leb, ◌==◌, ==_iff, arith, tests, add64, Result, ok, err, Bool-cases, gt→leb,
}
use influx_sync.Protocol.{
  Compression, Frame, Error, is_heartbeat, decode, decompress, ack_success, ack_fail,
}
use influx_sync.SeqTracker.{seq_jump_limit}
use influx_sync.Receiver.{
  Config, WriteError, Env, Receiver, mark_done, none_inflight, try_close_gap, close_or_warn,
  note_gap, classify_write_error, dlq_meta, isolate, relay, write_failed, write_raw, deliver,
  begin_frame, end_frame, handle_frame,
}
use influx_sync.Receiver.Text.{is_blank}
use influx_sync.Receiver.Inflight.{add_count}
use influx_sync.Receiver.Served.{
  Kept, IsServing, last_fits, Kept-same, IsServing-more, mark_done_keeps, mark_done-IsServing,
  Vouched, Begun, warn-IsServing, close-IsServing,
}

module _ (cfg : Config) (env : Env) where
  abbrev Serves : ℕ → Receiver → Receiver → Type 0
  Serves base r r' = IsServing base r' × Begun cfg env r r'

  Begun-refl : (r : Receiver) → Begun cfg env r r
  Begun-refl r = record { stored = refl; dead = refl; up = omega arith }

  attempt-IsServing :
      {base : ℕ} (r : Receiver) (seq : ℕ)
      → IsServing base r
      → r.last_seq + 1 < seq
      → seq < 2 ^ 62
      → ((s : ℕ) → r.last_seq < s → s < seq → Kept r s)
      → Serves base r (close_or_warn env seq r (try_close_gap cfg env r seq))
  unfolding close_or_warn try_close_gap
  attempt-IsServing {base} r seq s gap small vouched =
      let far : leb seq (add64 r.last_seq 1) ≡ false = gt→leb _ _ (omega arith) in
      elim (Bool-cases (none_inflight (seq - (r.last_seq + 1)) (r.last_seq + 1) r.inflight_seq)) [
        | inl clear ↦
            let (sv, bg, _) = close-IsServing cfg env r seq s gap small vouched in
            rw (far, clear)
              (
                IsServing-more _ _ (λ x k. k) refl refl sv,
                record { stored = bg.stored; dead = bg.dead; up = bg.up },
              )
        | inr busy ↦ rw (far, busy) (warn-IsServing cfg env r seq s)
      ]

  note-IsServing :
      {base : ℕ} (frame_idx seq : ℕ) (r : Receiver)
      → IsServing base r
      → seq < 2 ^ 62
      → Vouched cfg env frame_idx r seq
      → Serves base r (note_gap cfg env frame_idx seq r)
  unfolding note_gap
  note-IsServing {base} frame_idx seq r s small vouched =
      let low = last_fits s in
      elim (Bool-cases (ltb (add64 r.last_seq 1) seq)) [
        | inr next ↦ rw next (s, Begun-refl r)
        | inl gap ↦ elim (Bool-cases (ltb (add64 r.last_seq seq_jump_limit) seq)) [
          | inl jump ↦ rw (gap, jump) (warn-IsServing cfg env r seq s)
          | inr near ↦ elim (Bool-cases (frame_idx == 0)) [
            | inl first ↦
                rw (gap, near, first)
                  (attempt-IsServing r seq s (omega tests) small
                    (vouched ((==_iff frame_idx 0).0 first)))
            | inr later ↦ rw (gap, near, later) (warn-IsServing cfg env r seq s)
          ]
        ]
      ]

  relay_same :
      (f : Frame) (raw : List ℕ) (r : Receiver)
      → let r' = relay cfg env f raw r in
        (r'.stored ≡ r.stored)
        × (r'.dead ≡ r.dead)
        × (r'.last_seq ≡ r.last_seq)
        × (r'.seq_ord ≡ r.seq_ord)
        × (r'.inflight_seq ≡ r.inflight_seq)
  unfolding relay
  relay_same f raw r = ground arith

  -- What an attempt to deliver the frame `seq` leaves: the invariant, everything that was kept, and
  -- the frame itself if it is acknowledged.
  pub record Ends (base : ℕ) (seq : ℕ) (r r' : Receiver) (ack : ℕ) : Type 0 where
    pub serving : IsServing base r'
    pub keeps : (s : ℕ) → Kept r s → Kept r' s
    pub acked : ack ≡ ack_success → Kept r' seq

  nacked : {base : ℕ} (seq : ℕ) (r : Receiver) → IsServing base r → Ends base seq r r ack_fail
  nacked seq r s = record { serving = s; keeps = λ x k. k; acked = λ e. absurd (omega arith) }

  -- One more frame kept, and then its number marked as done.
  marked :
      {base : ℕ} (seq : ℕ) (r r1 : Receiver)
      → IsServing base r
      → ((s : ℕ) → Kept r s → Kept r1 s)
      → r1.seq_ord ≡ r.seq_ord
      → r1.last_seq ≡ r.last_seq
      → Kept r1 seq
      → seq ≤ r.last_seq + seq_jump_limit
      → Ends base seq r (mark_done cfg env r1 seq) ack_success
  marked seq r r1 s more eo el kept near =
      let (es, ed, _) = mark_done_keeps cfg env r1 seq in
      let still : (x : ℕ) → Kept r1 x → Kept (mark_done cfg env r1 seq) x =
        λ x. Kept-same r1 (mark_done cfg env r1 seq) x es ed in
      record {
        serving =
            mark_done-IsServing cfg env r1 seq (IsServing-more r r1 more eo el s) kept
              (omega arith);
        keeps = λ x k. still x (more x k);
        acked = λ _. still seq kept;
      }

  stored-IsServing :
      {base : ℕ} (f : Frame) (raw : List ℕ) (r : Receiver)
      → IsServing base r
      → f.seq < 2 ^ 62
      → f.seq ≤ r.last_seq + seq_jump_limit
      → let p = write_raw cfg env f raw r none in Ends base f.seq r p.0 p.1
  unfolding write_raw
  stored-IsServing f raw r s small near =
      let r1 : Receiver = record r { stored = (f.seq, raw) ∷ r.stored } in
      let (es, ed, el, eo, _) = relay_same f raw r1 in
      let more : (x : ℕ) → Kept r x → Kept (relay cfg env f raw r1) x =
        λ x k. Kept-same r1 (relay cfg env f raw r1) x es ed (ground (arith, k)) in
      marked f.seq r (relay cfg env f raw r1) s more eo el
        (Kept-same r1 (relay cfg env f raw r1) f.seq es ed (ground arith)) near

  isolate-IsServing :
      {base : ℕ} (f : Frame) (status : ℕ) (raw : List ℕ) (r : Receiver)
      → IsServing base r
      → f.seq < 2 ^ 62
      → f.seq ≤ r.last_seq + seq_jump_limit
      → let p = isolate cfg env f status raw r in Ends base f.seq r p.0 p.1
  unfolding isolate
  isolate-IsServing f status raw r s small near = elim (Bool-cases env.dlq_ok) [
    | inl wrote ↦ simp wrote (
        marked f.seq r (record r { dead = dlq_meta f true status raw ∷ r.dead }) s
          (λ x k. ground (arith, k)) refl refl (ground arith) near)
    | inr failed ↦ simp failed (nacked f.seq r s)
  ]

  write-IsServing :
      {base : ℕ} (f : Frame) (raw : List ℕ) (r : Receiver) (w : Option WriteError)
      → IsServing base r
      → f.seq < 2 ^ 62
      → f.seq ≤ r.last_seq + seq_jump_limit
      → let p = write_raw cfg env f raw r w in Ends base f.seq r p.0 p.1
  write-IsServing f raw r none s small near = stored-IsServing f raw r s small near
  write-IsServing f raw r (some e) s small near = elim (Bool-cases (classify_write_error e).0) [
    | inl poison ↦
        unfold write_raw write_failed in
        rw poison (isolate-IsServing f (classify_write_error e).1 raw r s small near)
    | inr transient ↦ unfold write_raw write_failed in rw transient (nacked f.seq r s)
  ]

  deliver-IsServing :
      {base : ℕ} (f : Frame) (r : Receiver) (raw : Result Error (List ℕ))
      → IsServing base r
      → f.seq < 2 ^ 62
      → f.seq ≤ r.last_seq + seq_jump_limit
      → let p = deliver cfg env f r raw in Ends base f.seq r p.0 p.1
  unfolding deliver
  deliver-IsServing f r (err e) s small near = nacked f.seq r s
  deliver-IsServing f r (ok raw) s small near = elim (Bool-cases (is_blank raw)) [
    | inl blank ↦ rw blank (nacked f.seq r s)
    | inr text ↦ rw text (write-IsServing f raw r env.write s small near)
  ]

  end-IsServing :
      {base : ℕ} (seq : ℕ) (r : Receiver) (p : Receiver × ℕ)
      → Ends base seq r p.0 p.1
      → let q = end_frame seq p in Ends base seq r q.0 q.1
  unfolding end_frame
  end-IsServing seq r (r', ack) e = record {
    serving = IsServing-more r' _ (λ x k. k) refl refl e.serving;
    keeps = e.keeps;
    acked = e.acked;
  }

  begin-IsServing :
      {base : ℕ} (frame_idx seq : ℕ) (r : Receiver)
      → IsServing base r
      → seq < 2 ^ 62
      → Vouched cfg env frame_idx r seq
      → Serves base r (begin_frame cfg env frame_idx seq r)
  unfolding begin_frame
  begin-IsServing frame_idx seq r s small vouched =
      let r1 : Receiver = record r { inflight_seq = add_count seq r.inflight_seq } in
      let (sv, bg) =
        note-IsServing frame_idx seq r1 (IsServing-more r r1 (λ x k. k) refl refl s) small
          vouched in
      (sv, record { stored = bg.stored; dead = bg.dead; up = bg.up })

-- For a data frame whose number is above `base`, HandleFrame keeps the invariant that every number
-- above `base` that last_seq has reached, and every number that waits to join it, is in InfluxDB or in
-- the dead-letter directory; it loses nothing that was kept; and it answers 0xff only if the frame is
-- kept. The number is below 2 ^ 62 and no jump past seq_jump_limit, and the frames missing before a
-- frame of index 0 are kept.
pub handle_frame-IsServing :
    (c : Compression) (cfg : Config) (env : Env) {base : ℕ} (frame_idx : ℕ) (r : Receiver)
    (bytes : List ℕ) (f : Frame)
    → IsServing base r
    → decode bytes ≡ ok f
    → is_heartbeat f ≡ false
    → base < f.seq
    → f.seq < 2 ^ 62
    → f.seq ≤ r.last_seq + seq_jump_limit
    → Vouched cfg env frame_idx r f.seq
    → let p = handle_frame c cfg env frame_idx r bytes in
      IsServing base p.0 × ((s : ℕ) → Kept r s → Kept p.0 s) × (p.1 ≡ ack_success → Kept p.0 f.seq)
unfolding handle_frame
handle_frame-IsServing c cfg env {base} frame_idx r bytes f s dec not_beat new small near vouched =
    elim (Bool-cases (leb f.seq r.last_seq)) [
      | inl dup ↦
          rw (dec, not_beat, dup)
            (s, (λ x k. k), λ _. s.tracking.covered f.seq new (omega (tests, s.agree)))
      | inr fresh ↦
          let r1 = begin_frame cfg env frame_idx f.seq r in
          let (sv, bg) = begin-IsServing cfg env frame_idx f.seq r s small vouched in
          let d = deliver-IsServing cfg env f r1 (decompress c f) sv small (omega (arith, bg.up)) in
          let e = end-IsServing cfg env f.seq r1 (deliver cfg env f r1 (decompress c f)) d in
          rw (dec, not_beat, fresh)
            (e.serving, (λ x k. e.keeps x (Kept-same r r1 x bg.stored bg.dead k)), e.acked)
    ]
