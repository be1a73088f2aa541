-- ===== src/Receiver.antt =====
-- internal/receiver/receiver.go and dlq.go: one frame after another is decoded, checked against
-- last_seq, written to InfluxDB or isolated in the dead-letter directory, relayed, and acknowledged.
pub mod Text
pub mod Inflight
pub mod Served
pub mod Delivery
pub mod History
pub mod EarlyClose
mod Runs
use influx_sync.Base.{
  ℕ, zero, suc, ◌+◌, ◌-◌, ◌*◌, ◌%◌, ◌^◌, Bool, true, false, ◌&&◌, ◌||◌, Option, none, some, List,
  [], ◌∷◌, le_int64, ltb, leb, ◌==◌, if◌then◌else◌, length, add64, Result, ok, err,
}
use influx_sync.Protocol.{
  Compression, Frame, Error, is_heartbeat, decode, decompress, ack_success, ack_fail,
}
use influx_sync.SeqTracker.{SeqTracker, seq_jump_limit, init, close_gap, done}
use influx_sync.Receiver.Text.{is_blank, legacy_status}
use influx_sync.Receiver.Inflight.{Counts, count_of, add_count, remove_count}

-- Which of the optional parts the configuration turns on.
pub record Config : Type 0 where
  pub last_seq_file : Bool
  pub relay_wal : Bool
  pub relay_dlq_dir : Bool

-- An error of client.WriteRaw: a *WriteHTTPError, or any other error with its text.
pub data WriteError : Type 0 where
  http : ℕ → WriteError
  other : List ℕ → WriteError

pub record DlqMeta : Type 0 where
  pub seq_num : ℕ
  pub frame_type : ℕ
  pub permanent : Bool
  pub http_status : ℕ
  pub uncompressed_bytes : ℕ
  pub payload : List ℕ

-- What the world answers during one call: WriteRaw's error, whether each file could be written,
-- whether the relay WAL took the payload, and the clock in nanoseconds.
pub record Env : Type 0 where
  pub write : Option WriteError
  pub dlq_ok : Bool
  pub relay_ok : Bool
  pub relay_dlq_ok : Bool
  pub save_ok : Bool
  pub now : ℕ

-- The receiver's own state, and behind it what it has left outside: the payloads in InfluxDB, the
-- dead letters, the relay WAL, the relay's dead letters and the file with last_seq.
pub record Receiver : Type 0 where
  pub last_seq : ℕ
  pub seq_ord : SeqTracker
  pub inflight_seq : Counts
  pub gap_warned : ℕ
  pub gap_warned_at : ℕ
  pub persist_at : ℕ
  pub stored : List (ℕ × List ℕ)
  pub dead : List DlqMeta
  pub relayed : List (ℕ × List ℕ)
  pub relay_dead : List DlqMeta
  pub saved : Option ℕ

abbrev second : ℕ
second = 1000000000

abbrev gap_warn_reset_window : ℕ
gap_warn_reset_window = 300 * second

-- New, with what the last_seq file held.
unfoldable pub new_receiver : ℕ → Receiver
new_receiver seq = record {
  last_seq = seq;
  seq_ord = init seq;
  inflight_seq = [];
  gap_warned = 0;
  gap_warned_at = 0;
  persist_at = 0;
  stored = [];
  dead = [];
  relayed = [];
  relay_dead = [];
  saved = some seq;
}

raise_last_seq : ℕ → Receiver → Receiver
raise_last_seq seq r = if le_int64 seq r.last_seq then r else record r { last_seq = seq }

persist : Env → ℕ → Receiver → Receiver
persist env seq r = if ltb env.now r.persist_at then r else record r {
  persist_at = env.now + second;
  saved = (if env.save_ok then some seq else r.saved);
}

unfoldable pub advance_seq : Config → Env → Receiver → ℕ → Receiver
unfolding raise_last_seq persist
advance_seq cfg env r seq =
    if cfg.last_seq_file then persist env seq (raise_last_seq seq r) else raise_last_seq seq r

unfoldable pub mark_done : Config → Env → Receiver → ℕ → Receiver
mark_done cfg env r seq =
    let (t, advanced) = done r.seq_ord seq in
    if advanced
    then advance_seq cfg env (record r { seq_ord = t }) t.last
    else record r { seq_ord = t }

unfoldable pub gap_warn_allowed : Env → Receiver → Bool
gap_warn_allowed env r =
    r.gap_warned == 0
    || leb r.gap_warned r.last_seq
    || ltb gap_warn_reset_window (env.now - r.gap_warned_at)

-- The branch that only logs: Warn or Error with the mark, or Debug.
unfoldable pub warn_gap : Env → Receiver → ℕ → Receiver
warn_gap env r seq =
    if gap_warn_allowed env r then record r { gap_warned = seq; gap_warned_at = env.now } else r

-- Whether none of `n` numbers from `s` on is in flight.
unfoldable pub none_inflight : ℕ → ℕ → Counts → Bool
none_inflight zero s m = true
none_inflight (suc n) s m = count_of s m == 0 && none_inflight n (s + 1) m

unfoldable pub try_close_gap : Config → Env → Receiver → ℕ → Receiver × Bool
try_close_gap cfg env r seq =
    if leb seq (add64 r.last_seq 1)
    then (r, false)
    else if none_inflight (seq - (r.last_seq + 1)) (r.last_seq + 1) r.inflight_seq
    then (let t = close_gap r.seq_ord (seq - 1) in
        (advance_seq cfg env (record r { seq_ord = t }) t.last, true))
    else (r, false)

close_or_warn : Env → ℕ → Receiver → Receiver × Bool → Receiver
close_or_warn env seq r (closed, true) = record closed { gap_warned = 0 }
close_or_warn env seq r (kept, false) = warn_gap env kept seq

-- The handling of a number past last_seq + 1.
unfoldable pub note_gap : Config → Env → ℕ → ℕ → Receiver → Receiver
unfolding close_or_warn
note_gap cfg env frame_idx seq r =
    if ltb (add64 r.last_seq 1) seq
    then (if ltb (add64 r.last_seq seq_jump_limit) seq
        then warn_gap env r seq
        else if frame_idx == 0
        then close_or_warn env seq r (try_close_gap cfg env r seq)
        else warn_gap env r seq)
    else r

classify_status : ℕ → Bool × ℕ
classify_status code = (leb 400 code && ltb code 500, code)

classify_legacy : Option ℕ → Bool × ℕ
unfolding classify_status
classify_legacy none = (false, 0)
classify_legacy (some code) = if ltb code 400 then (false, 0) else classify_status code

-- Whether a write error is permanent, and the status that the dead letter records.
unfoldable pub classify_write_error : WriteError → Bool × ℕ
unfolding classify_status classify_legacy
classify_write_error (http code) = classify_status code
classify_write_error (other text) = classify_legacy (legacy_status text)

dlq_meta : Frame → Bool → ℕ → List ℕ → DlqMeta
dlq_meta f permanent status raw = record {
  seq_num = f.seq;
  frame_type = f.typ;
  permanent = permanent;
  http_status = status;
  uncompressed_bytes = length raw;
  payload = f.payload;
}

-- A permanent error: the dead letter, and then the number counts as done.
unfoldable pub isolate : Config → Env → Frame → ℕ → List ℕ → Receiver → Receiver × ℕ
unfolding dlq_meta
isolate cfg env f status raw r =
    if env.dlq_ok
    then (
      mark_done cfg env (record r { dead = dlq_meta f true status raw ∷ r.dead }) f.seq,
      ack_success,
    )
    else (r, ack_fail)

unfoldable pub relay : Config → Env → Frame → List ℕ → Receiver → Receiver
unfolding dlq_meta
relay cfg env f raw r =
    if cfg.relay_wal
    then (if env.relay_ok
        then record r { relayed = (f.typ, raw) ∷ r.relayed }
        else if cfg.relay_dlq_dir && env.relay_dlq_ok
        then record r { relay_dead = dlq_meta f false 0 raw ∷ r.relay_dead }
        else r)
    else r

write_failed : Config → Env → Frame → List ℕ → Receiver → Bool × ℕ → Receiver × ℕ
write_failed cfg env f raw r (permanent, status) =
    if permanent then isolate cfg env f status raw r else (r, ack_fail)

-- client.WriteRaw and what follows it.
unfoldable pub write_raw :
    Config → Env → Frame → List ℕ → Receiver → Option WriteError → Receiver × ℕ
unfolding write_failed
write_raw cfg env f raw r none = (
  mark_done cfg env (relay cfg env f raw (record r { stored = (f.seq, raw) ∷ r.stored })) f.seq,
  ack_success,
)
write_raw cfg env f raw r (some e) = write_failed cfg env f raw r (classify_write_error e)

deliver : Config → Env → Frame → Receiver → Result Error (List ℕ) → Receiver × ℕ
unfolding write_raw
deliver cfg env f r (err e) = (r, ack_fail)
deliver cfg env f r (ok raw) =
    if is_blank raw then (r, ack_fail) else write_raw cfg env f raw r env.write

unfoldable pub begin_frame : Config → Env → ℕ → ℕ → Receiver → Receiver
begin_frame cfg env frame_idx seq r =
    note_gap cfg env frame_idx seq (record r { inflight_seq = add_count seq r.inflight_seq })

-- The deferred removeInflight.
unfoldable pub end_frame : ℕ → Receiver × ℕ → Receiver × ℕ
end_frame seq (r, ack) = (record r { inflight_seq = remove_count seq r.inflight_seq }, ack)

module _ (c : Compression) (cfg : Config) where
  unfoldable pub handle_decoded : Env → ℕ → Receiver → Result Error Frame → Receiver × ℕ
  unfolding deliver end_frame
  handle_decoded env frame_idx r (err e) = (r, ack_fail)
  handle_decoded env frame_idx r (ok f) =
      if is_heartbeat f
      then (r, ack_success)
      else if leb f.seq r.last_seq
      then (r, ack_success)
      else end_frame f.seq
          (deliver cfg env f (begin_frame cfg env frame_idx f.seq r) (decompress c f))

  unfoldable pub handle_frame : Env → ℕ → Receiver → List ℕ → Receiver × ℕ
  unfolding handle_decoded
  handle_frame env frame_idx r bytes = handle_decoded env frame_idx r (decode bytes)
