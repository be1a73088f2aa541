-- ===== src/EndToEnd.antt =====
-- The sender's loop in stop-and-wait mode (internal/sender/sender.go) on its log (internal/wal) with
-- the receiver (internal/receiver) behind the connection: what the two can do, in any order.
pub mod Safety
mod Runs
use influx_sync.Base.{ℕ, ◌+◌, ◌^◌, ◌≤◌, ◌<◌, ◌≡◌, ◌≢◌, ◌⊎◌, List, [], some, ok}
use influx_sync.Protocol.{Compression, type_heartbeat, ack_success}
use influx_sync.SeqTracker.{seq_jump_limit}
use influx_sync.Receiver.{Config, Env, Receiver, new_receiver, handle_frame}
use influx_sync.Wal.{append}
use influx_sync.Wal.Reading.{peek}
use influx_sync.Wal.Queue.{Represents}
use influx_sync.Transport.Client.{Link}
use influx_sync.Sender.{SenderConfig, Sender, run_step}
use influx_sync.Sender.Exchange.{answer}
use influx_sync.Sender.Exchange.{IsSending}

module _ (c : Compression) (cfg : Config) (scfg : SenderConfig) where
  -- The payload is appended; the loop has a pass that the receiver does not see; or it has a pass
  -- whose frame the receiver handles, and the answer comes back or is lost.
  pub data Round : Sender → Receiver → Sender → Receiver → Type 0 where
    appended :
        (s : Sender) (r : Receiver) (typ : ℕ) (payload : List ℕ)
        → typ < 256
        → typ ≢ type_heartbeat
        → s.wal.cp.next_seq + 1 < 2 ^ 62
        → (append c s.wal typ payload).1 ≡ ok tt
        → Round s r (record s { wal = (append c s.wal typ payload).0 }) r
    unseen :
        (s : Sender) (r : Receiver) (link : Link) (links : List Link)
        → answer link s.client ≢ some ack_success
        → Round s r (run_step c scfg link links s) r
    handled :
        (s : Sender) (r : Receiver) (link : Link) (links : List Link) (env : Env) (frame_idx n : ℕ)
        (frame : List ℕ)
        → peek s.wal ≡ ok (n, frame)
        → n ≤ r.last_seq + seq_jump_limit
        → (answer link s.client ≡ some (handle_frame c cfg env frame_idx r frame).1)
          ⊎ (answer link s.client ≢ some ack_success)
        → Round s r (run_step c scfg link links s) (handle_frame c cfg env frame_idx r frame).0

  -- Rounds from a sender with an empty log whose next number follows the receiver's last one.
  pub data Reach (base : ℕ) : Sender → Receiver → Type 0 where
    start :
        (s : Sender)
        → IsSending s []
        → s.wal.cp.next_seq ≡ base + 1
        → base + 1 < 2 ^ 62
        → Reach base s (new_receiver base)
    next : {s s' : Sender} {r r' : Receiver} → Reach base s r → Round s r s' r' → Reach base s' r'
