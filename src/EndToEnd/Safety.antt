-- ===== src/EndToEnd/Safety.antt =====
-- What has left the sender's log is kept by the receiver.
use influx_sync.Base.{ℕ, ◌+◌, ◌^◌, ◌<◌, Option, length, All}
use influx_sync.Protocol.{Frame, decode, is_heartbeat}
use influx_sync.Receiver.{Receiver}
use influx_sync.Receiver.Served.{Kept, IsServing}
use influx_sync.Wal.{Wal}
use influx_sync.Wal.Queue.{Queue}
use influx_sync.Wal.Encoding.{IsFramed}
use influx_sync.Sender.{Sender}
use influx_sync.Sender.Exchange.{IsSending}

-- The log holds data frames, and every number past `base` and before them is kept.
pub record IsSafe (base : ℕ) (s : Sender) (r : Receiver) (q : Queue) : Type 0 where
  pub sending : IsSending s q
  pub serving : IsServing base r
  pub framed : All IsFramed q
  pub settled : (k : ℕ) → base < k → k + length q < s.wal.cp.next_seq → Kept r k
  pub ahead : base + length q < s.wal.cp.next_seq
  pub small : s.wal.cp.next_seq < 2 ^ 62
