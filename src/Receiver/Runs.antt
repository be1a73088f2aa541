-- ===== src/Receiver/Runs.antt =====
-- Tests of the receiver, and its theorems at concrete inputs.
use influx_sync.Base.{
  ℕ, ◌≡◌, refl, Bool, true, false, none, some, List, [], ◌∷◌, arith, ok, has, insert, delete,
  delete_upto,
}
use influx_sync.Bytes.{read_uint}
use influx_sync.Crc.{checksum_ieee}
use influx_sync.Protocol.{
  Frame, decode, parse_header, header_of, check_header, is_heartbeat, decompress, read_all,
  ack_success,
}
use influx_sync.Protocol.Plain.{plain}
use influx_sync.SeqTracker.{done, init, advance, advance_one, drop_overflow, close_gap}
use influx_sync.Receiver.{
  Config, http, Env, Receiver, new_receiver, handle_frame, begin_frame, note_gap, warn_gap,
  gap_warn_allowed, try_close_gap, none_inflight, mark_done, advance_seq, relay, isolate,
  classify_write_error,
}
use influx_sync.Receiver.Text.{is_blank}
use influx_sync.Receiver.Inflight.{count_of, add_count, remove_count}
use influx_sync.Receiver.Served.{Kept, is_kept, IsServing}
use influx_sync.Receiver.Delivery.{handle_frame-IsServing}
use influx_sync.Receiver.History.{
  Reach, start, next, data_frame, new_receiver-IsServing, Reach-kept,
}
use influx_sync.Receiver.EarlyClose.{early_close}

-- A frame with the payload "m v=1", of type `typ` and number `seq`, for `seq` below 256.
abbrev wire : ℕ → ℕ → List ℕ
wire typ seq =
    80 ∷ 87 ∷ 1 ∷ typ ∷ 0 ∷ 0 ∷ 0 ∷ 0 ∷ 0 ∷ 0 ∷ 0 ∷ seq ∷ 0 ∷ 0 ∷ 0 ∷ 5 ∷ 108 ∷ 248 ∷ 183 ∷ 185
    ∷ 109 ∷ 32 ∷ 118 ∷ 61 ∷ 49 ∷ []

abbrev frame : ℕ → ℕ → Frame
frame typ seq = record {
  version = 1;
  typ = typ;
  seq = seq;
  crc = 0x6cf8b7b9;
  payload = 109 ∷ 32 ∷ 118 ∷ 61 ∷ 49 ∷ [];
}

abbrev cfg : Config
cfg = record { last_seq_file = true; relay_wal = true; relay_dlq_dir = true }

abbrev calm : Env
calm = record {
  write = none;
  dlq_ok = true;
  relay_ok = true;
  relay_dlq_ok = true;
  save_ok = true;
  now = 1000;
}

decodes6 : decode (wire 1 6) ≡ ok (frame 1 6)
unfolding decode parse_header header_of check_header read_uint checksum_ieee
decodes6 = refl

decodes_zstd : decode (wire 4 6) ≡ ok (frame 4 6)
unfolding decode parse_header header_of check_header read_uint checksum_ieee
decodes_zstd = refl

-- What is left of a run to look at: last_seq, the numbers that are kept, and the answer.
abbrev shown : Receiver × ℕ → ℕ × Bool × Bool × ℕ
shown (r, ack) = (r.last_seq, is_kept 6 r, is_kept 7 r, ack)

abbrev handled : Env → ℕ → ℕ → ℕ → Receiver → Receiver × ℕ
handled env frame_idx typ seq r = handle_frame plain cfg env frame_idx r (wire typ seq)

all_code : ℕ
unfolding handle_frame note_gap warn_gap gap_warn_allowed try_close_gap none_inflight mark_done
    advance_seq relay isolate classify_write_error begin_frame is_heartbeat decode parse_header
    header_of check_header read_uint checksum_ieee decompress read_all is_blank count_of add_count
    remove_count done init advance advance_one drop_overflow close_gap has insert delete delete_upto
    new_receiver
all_code = 0

written : shown (handled calm 0 1 6 (new_receiver 5)) ≡ (6, true, false, 0xff)
unfolding all_code
written = refl

poison :
    shown (handled (record calm { write = some (http 400) }) 0 1 6 (new_receiver 5))
    ≡ (6, true, false, 0xff)
unfolding all_code
poison = refl

transient :
    shown (handled (record calm { write = some (http 503) }) 0 1 6 (new_receiver 5))
    ≡ (5, false, false, 0)
unfolding all_code
transient = refl

-- Frame 6 is refused once, frame 7 comes behind it on the same connection, and frame 6 again. As
-- gzip frames (indices 0, 1 and 2) all are kept.
abbrev resent : ℕ → (ℕ → ℕ) → Receiver × ℕ
resent typ idx =
    handled calm (idx 2) typ 6
      (handled calm (idx 1) typ 7
        (handled (record calm { write = some (http 503) }) (idx 0) typ 6 (new_receiver 5)).0).0

resent_gzip : shown (resent 1 (λ i. i)) ≡ (7, true, true, 0xff)
unfolding all_code
resent_gzip = refl

-- As zstd frames (index 0 for each) frame 6 is acknowledged and kept nowhere.
resent_zstd : shown (resent 4 (λ i. 0)) ≡ (7, false, true, 0xff)
unfolding all_code
resent_zstd = refl

handle_frame-IsServing_example :
    let p = handle_frame plain cfg calm 0 (new_receiver 5) (wire 1 6) in
    IsServing 5 p.0
    × ((s : ℕ) → Kept (new_receiver 5) s → Kept p.0 s)
    × (p.1 ≡ ack_success → Kept p.0 6)
unfolding new_receiver init is_heartbeat
handle_frame-IsServing_example =
    handle_frame-IsServing plain cfg calm 0 (new_receiver 5) (wire 1 6) (frame 1 6)
      (new_receiver-IsServing 5 (omega arith)) decodes6 refl (omega arith) (omega arith)
      (omega arith) (λ e s lo hi. absurd (omega arith))

run : Reach plain cfg 5 (handle_frame plain cfg calm 0 (new_receiver 5) (wire 1 6)).0
unfolding new_receiver init is_heartbeat
run = next start (
    data_frame calm 0 (new_receiver 5) (wire 1 6) (frame 1 6) decodes6 refl (record {
      past = omega arith;
      small = omega arith;
      near = omega arith;
      vouched = λ e s lo hi. absurd (omega arith);
    }))

reached : (handle_frame plain cfg calm 0 (new_receiver 5) (wire 1 6)).0.last_seq ≡ 6
unfolding all_code
reached = refl

Reach-kept_example : is_kept 6 (handle_frame plain cfg calm 0 (new_receiver 5) (wire 1 6)).0 ≡ true
Reach-kept_example =
    Reach-kept plain cfg 5 (handle_frame plain cfg calm 0 (new_receiver 5) (wire 1 6)).0
      (omega arith) run 6 (omega arith) (omega (arith, reached))

decodes7 : decode (wire 4 7) ≡ ok (frame 4 7)
unfolding decode parse_header header_of check_header read_uint checksum_ieee
decodes7 = refl

early_close_example :
    let r' = (handle_frame plain cfg calm 0 (new_receiver 5) (wire 4 7)).0 in
    (handle_frame plain cfg calm 1 r' (wire 4 6) ≡ (r', ack_success))
    × (is_kept 6 r' ≡ is_kept 6 (new_receiver 5))
unfolding new_receiver init is_heartbeat none_inflight add_count count_of
early_close_example =
    early_close plain cfg calm calm (new_receiver 5) 1 (wire 4 7) (wire 4 6) (frame 4 7) (frame 4 6)
      (new_receiver-IsServing 5 (omega arith)) decodes7 refl (omega arith) (omega arith) refl
      decodes_zstd refl (omega arith) (omega arith)
