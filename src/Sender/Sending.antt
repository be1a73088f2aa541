-- ===== src/Sender/Sending.antt =====
-- internal/sender/sender.go: a pass of the loop of Run in stop-and-wait mode, on the queue that the
-- log stands for.
use influx_sync.Base.{
  ℕ, ◌-◌, ◌≡◌, inl, inr, refl, ◌∙◌, Bool, true, false, List, [], ltb, arith, Bool-cases, Result, ok,
  err,
}
use influx_sync.Protocol
use influx_sync.Protocol.{Compression, encode_heartbeat, ack_fail}
use influx_sync.Wal.{Wal}
use influx_sync.Wal.Queue.{Queue, Represents}
use influx_sync.Wal.Appending.{peek_empty}
use influx_sync.Transport.Client.{Client, Link, close, send_frame, wait_ack, take_answer}
use influx_sync.Sender.{
  SenderConfig, Sender, with_client, connect, send_one, with_answer, read_ack, waited, beat,
  send_heartbeat, idle, on_peek, run_step,
}
use influx_sync.Sender.Exchange.{connect-same}

-- The cached frame is the head of the queue, or its number is before all of the queue.

beat-same :
    (link : Link) (frame : List ℕ) (p : Sender × Bool)
    → ((beat link frame p).wal ≡ p.0.wal) × ((beat link frame p).cache ≡ p.0.cache)
unfolding beat waited send_one with_client send_frame read_ack with_answer wait_ack take_answer
    close
beat-same link frame (s, false) = (refl, refl)
beat-same link frame (s, true) = ground arith

send_heartbeat-same :
    (link : Link) (e : Result Protocol.Error (List ℕ)) (s : Sender)
    → ((send_heartbeat link e s).wal ≡ s.wal) × ((send_heartbeat link e s).cache ≡ s.cache)
unfolding send_heartbeat
send_heartbeat-same link (err e) s = (refl, refl)
send_heartbeat-same link (ok frame) s =
    let (bw, bc) = beat-same link frame (connect link s) in
    let (cw, cc, _, _) = connect-same link s in (bw ∙ cw, bc ∙ cc)

-- With an empty log a pass sends at most a heartbeat, and leaves the log as it is.
pub run_step_empty :
    (c : Compression) (cfg : SenderConfig) (link : Link) (links : List Link) (s : Sender)
    → Represents s.wal []
    → let s' = run_step c cfg link links s in (s'.wal ≡ s.wal) × (s'.cache ≡ s.cache)
unfolding run_step on_peek idle
run_step_empty c cfg link links s r =
    let (hw, hc) = send_heartbeat-same link (encode_heartbeat c 0) s in
    elim (Bool-cases (ltb (link.now - s.last_heartbeat) cfg.heartbeat_interval)) [
      | inl early ↦ simp (peek_empty s.wal r, early) (refl, refl)
      | inr late ↦ simp (peek_empty s.wal r, late) (hw, hc)
    ]
