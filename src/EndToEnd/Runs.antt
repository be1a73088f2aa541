-- ===== src/EndToEnd/Runs.antt =====
-- The sender and the receiver at a concrete run, and their theorem at it.
use influx_sync.Base.{ℕ, ◌≡◌, refl, true, false, none, some, List, [], ◌∷◌, arith, ok}
use mathlib.Core.Bool.{false≢true}
use influx_sync.Crc.{checksum_ieee}
use influx_sync.Protocol.{encode, encode_raw, compress}
use influx_sync.Protocol.RoundTrip.{encode_complete}
use influx_sync.Protocol.Plain.{plain}
use influx_sync.Receiver.{Config, Env, new_receiver, handle_frame}
use influx_sync.Wal.{Wal, append}
use influx_sync.Wal.Queue.{Queue, Represents}
use influx_sync.Wal.Encoding.{IsFramed, append-Represents, append_succeeds}
use influx_sync.Transport.Client.{Link}
use influx_sync.Sender.{SenderConfig, Sender}
use influx_sync.Sender.Exchange.{IsSending}

abbrev cfg : Config
cfg = record { last_seq_file = true; relay_wal = true; relay_dlq_dir = true }

abbrev scfg : SenderConfig
scfg = record {
  max_retry = 10;
  backoff_base = 1000000000;
  backoff_max = 60000000000;
  heartbeat_interval = 30000000000;
  idle_sleep = 200000000;
  pipeline = 1;
}

abbrev calm : Env
calm = record {
  write = none;
  dlq_ok = true;
  relay_ok = true;
  relay_dlq_ok = true;
  save_ok = true;
  now = 1000;
}

-- An empty log whose next number is 6.
abbrev fresh : Wal
fresh = record {
  cp = record { cursor_ns = 5000; next_seq = 6; seg_start = 0; acked_bytes = 0; backfill_ns = 0 };
  index = [];
  acked = 0;
  cur_seg = 0;
  cur_open = false;
  cur_offset = 0;
  seg_size = 60;
  dlq_max = 1000;
  files = [];
  saved = record {
    cursor_ns = 5000;
    next_seq = 6;
    seg_start = 0;
    acked_bytes = 0;
    backfill_ns = 0;
  };
  last_cp = 0;
  notified = false;
  legacy_checkpoint = false;
  dead = [];
  dead_size = 0;
}

abbrev idle_sender : Sender
idle_sender = record {
  wal = fresh;
  client = record { connected = false; sent = []; reads = 0 };
  retry_count = 0;
  last_heartbeat = 0;
  cache = none;
}

idle-IsSending : IsSending idle_sender []
idle-IsSending = record {
  log = record {
    stands = record { holds = tt; ordered = omega arith; numbered = tt; acked_fits = omega arith };
    open_file = λ o. absurd (false≢true o);
    closed = λ shut. tt;
  };
  cache_fits = tt;
}

-- The bytes of the line "m v=1".
abbrev payload : List ℕ
payload = 109 ∷ 32 ∷ 118 ∷ 61 ∷ 49 ∷ []

-- Type 4 is a zstd data frame.
made : encode plain 4 6 payload ≡ ok (encode_raw 4 6 payload (checksum_ieee payload))
unfolding compress
made = encode_complete plain 4 6 payload payload (omega arith) (omega arith) refl (omega arith)

encoded : (append plain fresh 4 payload).1 ≡ ok tt
encoded =
    append_succeeds plain fresh 4 payload (encode_raw 4 6 payload (checksum_ieee payload)) made

abbrev loaded : Sender
loaded = record idle_sender { wal = (append plain fresh 4 payload).0 }

-- The one frame that is in the log.
abbrev put :
    (frame : List ℕ) × IsFramed (6, frame)
    × Represents loaded.wal ((6, frame) ∷ [])
    × (loaded.wal.cp.next_seq ≡ 7)
put =
    append-Represents plain fresh 4 payload [] idle-IsSending.log (omega arith) (omega arith)
      (omega arith) encoded

-- The frame is handled, and the answer comes back.
abbrev answering : Link
answering = record {
  dial_ok = true;
  send_ok = λ i. true;
  answers = λ j. some (handle_frame plain cfg calm 0 (new_receiver 5) put.0).1;
  now = 2000;
}

abbrev acking : Link
acking = record { dial_ok = true; send_ok = λ i. true; answers = λ j. some 0xff; now = 2000 }
