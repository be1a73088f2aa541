-- ===== src/Sender.antt =====
-- internal/sender/sender.go: the loop that sends the oldest unconfirmed frame, waits for its ACK and
-- commits it, and the sliding window of runPipeline. One pass of the loop of Run is one `run_step`.
pub mod Backoff
pub mod Exchange
pub mod Sending
pub mod Dedup
pub mod FastPath
pub mod Framing
pub mod Queries
pub mod Poller
mod Runs
use influx_sync.Base.{
  ℕ, zero, suc, ◌+◌, ◌-◌, ◌*◌, ◌%◌, ◌^◌, Bool, true, false, not, Option, none, some, List, [], ◌∷◌,
  ltb, leb, ◌==◌, le_int64, if◌then◌else◌, Result, ok, err,
}
use influx_sync.Protocol
use influx_sync.Protocol.{Compression, encode_heartbeat, ack_success, ack_fail}
use influx_sync.Wal.{Wal, WalError, empty}
use influx_sync.Wal.Reading.{peek, peek_batch}
use influx_sync.Wal.Commit.{commit}
use influx_sync.Transport.Client.{Client, Link, ensure_connected, close, send_frame, wait_ack}

pub record SenderConfig : Type 0 where
  pub max_retry : ℕ
  pub backoff_base : ℕ
  pub backoff_max : ℕ
  pub heartbeat_interval : ℕ
  pub idle_sleep : ℕ
  pub pipeline : ℕ

or_default : ℕ → ℕ → ℕ
or_default default n = if n == 0 then default else n

-- The configuration that NewSender completes. A setting below 0 counts as 0.
unfoldable pub with_defaults : SenderConfig → SenderConfig
unfolding or_default
with_defaults cfg = record {
  max_retry = or_default 10 cfg.max_retry;
  backoff_base = or_default 1000000000 cfg.backoff_base;
  backoff_max = or_default 60000000000 cfg.backoff_max;
  heartbeat_interval = or_default 30000000000 cfg.heartbeat_interval;
  idle_sleep = or_default 200000000 cfg.idle_sleep;
  pipeline = or_default 1 cfg.pipeline;
}

-- The loop of backoff with `rounds` doublings to go, of int64 values.
unfoldable pub doubled : ℕ → ℕ → ℕ → ℕ
doubled max zero d = d
doubled max (suc rounds) d =
    let twice = d * 2 % 2 ^ 64 in
    let rest = doubled max rounds twice in if le_int64 max twice then max else rest

unfoldable pub backoff : SenderConfig → ℕ → ℕ
backoff cfg zero = 0
backoff cfg (suc n) = doubled cfg.backoff_max n cfg.backoff_base

-- The local variables of Run, with the log and the connection.
pub record Sender : Type 0 where
  pub wal : Wal
  pub client : Client
  pub retry_count : ℕ
  pub last_heartbeat : ℕ
  pub cache : Option (ℕ × List ℕ)

with_client : Sender → Client × Bool → Sender × Bool
with_client s (c, done) = (record s { client = c }, done)

-- retryCount++
pub retry : Sender → Sender
retry s = record s { retry_count = s.retry_count + 1 }

-- retryCount++, and at most MaxRetry
retry_capped : SenderConfig → Sender → Sender
retry_capped cfg s =
    let n = s.retry_count + 1 in
    record s { retry_count = (if ltb cfg.max_retry n then cfg.max_retry else n) }

unfoldable pub connect : Link → Sender → Sender × Bool
unfolding with_client
connect link s = with_client s (ensure_connected link s.client)

unfoldable pub send_one : Link → ℕ → List ℕ → Sender → Sender × Bool
unfolding with_client
send_one link i frame s = with_client s (send_frame link i frame s.client)

with_answer : Sender → Client × Option ℕ → Sender × Option ℕ
with_answer s (c, ack) = (record s { client = c }, ack)

unfoldable pub read_ack : Link → Sender → Sender × Option ℕ
unfolding with_answer
read_ack link s = with_answer s (wait_ack link s.client)

hang_up : Sender → Sender
hang_up s = record s { client = close s.client }

committed : Sender → Wal × Result WalError (Unit {0}) → Sender × Bool
committed s (w, ok u) = (record s { wal = w; retry_count = 0 }, true)
committed s (w, err e) = (record s { wal = w }, false)

unfoldable pub commit_head : Link → ℕ → Sender → Sender × Bool
unfolding committed
commit_head link seq s = committed s (commit s.wal link.now seq)

-- What Run does at the ACK of the frame `seq`.
on_ack : SenderConfig → Link → ℕ → Sender × Option ℕ → Sender
unfolding commit_head retry retry_capped
on_ack cfg link seq (s, none) = retry s
on_ack cfg link seq (s, some ack) =
    if ack == ack_success
    then (commit_head link seq s).0
    else if ack == ack_fail
    then retry_capped cfg s
    else retry s

await_ack : SenderConfig → Link → ℕ → Sender × Bool → Sender
unfolding on_ack retry
await_ack cfg link seq (s, false) = retry s
await_ack cfg link seq (s, true) = on_ack cfg link seq (read_ack link s)

-- One frame of stop and wait.
unfoldable pub send_and_wait : SenderConfig → Link → ℕ → List ℕ → Sender → Sender
unfolding await_ack
send_and_wait cfg link seq frame s = await_ack cfg link seq (send_one link 0 frame s)

use_cache : Sender → ℕ → List ℕ → Option (ℕ × List ℕ) → Sender × List ℕ
use_cache s seq frame none = (record s { cache = some (seq, frame) }, frame)
use_cache s seq frame (some (k, cached)) =
    if k == seq then (s, cached) else (record s { cache = some (seq, frame) }, frame)

-- The frame that Run sends: the cached one while the head of the log has its number.
unfoldable pub with_cache : Sender → ℕ → List ℕ → Sender × List ℕ
unfolding use_cache
with_cache s seq frame = use_cache s seq frame s.cache

-- The frames of a window are sent; the answer is the rest from the frame on that could not be sent.
unfoldable pub send_window :
    SenderConfig → Link → ℕ → List (ℕ × List ℕ) → Sender → Sender × Option (List (ℕ × List ℕ))
unfolding retry_capped
send_window cfg link i [] s = (s, none)
send_window cfg link i (f ∷ rest) s =
    let p = send_one link i f.1 s in
    let more = send_window cfg link (i + 1) rest p.0 in
    if p.1 then more else (retry_capped cfg p.0, some (f ∷ rest))

-- What runPipeline does at one ACK byte: true to go on with the next frame.
window_ack : SenderConfig → Link → ℕ → Sender × Option ℕ → Sender × Bool
unfolding retry_capped retry hang_up
window_ack cfg link seq (s, none) = (retry_capped cfg s, false)
window_ack cfg link seq (s, some ack) =
    if ack == ack_success
    then ((commit_head link seq s).0, true)
    else if ack == ack_fail
    then (hang_up (retry_capped cfg s), false)
    else (hang_up (retry s), false)

-- The ACKs of a window are read in order; the answer is the rest from the frame on that is to be
-- sent again.
unfoldable pub read_window :
    SenderConfig → Link → List (ℕ × List ℕ) → Sender → Sender × Option (List (ℕ × List ℕ))
unfolding window_ack
read_window cfg link [] s = (s, none)
read_window cfg link (f ∷ rest) s =
    let p = window_ack cfg link f.0 (read_ack link s) in
    let more = read_window cfg link rest p.0 in if p.1 then more else (p.0, some (f ∷ rest))

reconnected : SenderConfig → Sender × Bool → Sender
unfolding retry_capped
reconnected cfg (s, linked) = if linked then s else retry_capped cfg s

-- Behind a failed send or ACK: the connection is made again, and the window is what is left.
again : SenderConfig → Link → List (ℕ × List ℕ) → Sender → Sender × Option (List (ℕ × List ℕ))
unfolding reconnected
again cfg link left s = (reconnected cfg (connect link s), some left)

after_read :
    SenderConfig → Link → Sender × Option (List (ℕ × List ℕ)) → Sender × Option (List (ℕ × List ℕ))
unfolding again
after_read cfg link (s, none) = (s, none)
after_read cfg link (s, some left) = again cfg link left s

after_send :
    SenderConfig
    → Link
    → List (ℕ × List ℕ)
    → Sender × Option (List (ℕ × List ℕ))
    → Sender × Option (List (ℕ × List ℕ))
unfolding after_read again
after_send cfg link frames (s, none) = after_read cfg link (read_window cfg link frames s)
after_send cfg link frames (s, some left) = again cfg link left s

-- One pass of the loop of runPipeline, none where the whole window is confirmed.
unfoldable pub window_round :
    SenderConfig → Link → List (ℕ × List ℕ) → Sender → Sender × Option (List (ℕ × List ℕ))
unfolding after_send
window_round cfg link frames s = after_send cfg link frames (send_window cfg link 0 frames s)

next_round : (List (ℕ × List ℕ) → Sender → Sender) → Sender × Option (List (ℕ × List ℕ)) → Sender
next_round again (s, none) = s
next_round again (s, some left) = again left s

-- The loop of runPipeline, until the window is confirmed or the context is done: behind `links`.
unfoldable pub window_rounds : SenderConfig → List Link → List (ℕ × List ℕ) → Sender → Sender
unfolding next_round
window_rounds cfg [] frames s = s
window_rounds cfg (link ∷ links) frames s =
    next_round (window_rounds cfg links) (window_round cfg link frames s)

or_single : ℕ → List ℕ → Result WalError (List (ℕ × List ℕ)) → List (ℕ × List ℕ)
or_single seq frame (err e) = (seq, frame) ∷ []
or_single seq frame (ok frames) = frames

unfoldable pub run_pipeline : SenderConfig → List Link → ℕ → List ℕ → Sender → Sender
unfolding or_single
run_pipeline cfg links seq frame s =
    window_rounds cfg links (or_single seq frame (peek_batch s.wal cfg.pipeline)) s

waited : Link → Sender × Bool → Sender
waited link (s, false) = s
waited link (s, true) = (read_ack link s).0

beat : Link → List ℕ → Sender × Bool → Sender
unfolding waited
beat link frame (s, false) = s
beat link frame (s, true) = waited link (send_one link 0 frame s)

-- sendHeartbeat: its ACK is read and not looked at.
send_heartbeat : Link → Result Protocol.Error (List ℕ) → Sender → Sender
unfolding beat
send_heartbeat link (err e) s = s
send_heartbeat link (ok frame) s = beat link frame (connect link s)

idle : Compression → SenderConfig → Link → Sender → Sender
unfolding send_heartbeat
idle c cfg link s =
    if ltb (link.now - s.last_heartbeat) cfg.heartbeat_interval
    then s
    else record (send_heartbeat link (encode_heartbeat c 0) s) { last_heartbeat = link.now }

-- Behind EnsureConnected: a round of the window, or one frame.
with_connection : SenderConfig → Link → List Link → ℕ → List ℕ → Sender × Bool → Sender
unfolding retry
with_connection cfg link links seq frame (s, false) = retry s
with_connection cfg link links seq frame (s, true) =
    if ltb 1 cfg.pipeline
    then run_pipeline cfg links seq frame s
    else send_and_wait cfg link seq frame s

cached_send : SenderConfig → Link → List Link → ℕ → Sender × List ℕ → Sender
unfolding with_connection
cached_send cfg link links seq (s, frame) =
    with_connection cfg link links seq frame (connect link s)

on_peek :
    Compression → SenderConfig → Link → List Link → Result WalError (ℕ × List ℕ) → Sender → Sender
unfolding idle cached_send
on_peek c cfg link links (err empty) s = idle c cfg link s
on_peek c cfg link links (err e) s = s
on_peek c cfg link links (ok (seq, frame)) s =
    cached_send cfg link links seq (with_cache s seq frame)

-- One pass of the loop of Run; `links` are the rounds of its window.
unfoldable pub run_step : Compression → SenderConfig → Link → List Link → Sender → Sender
unfolding on_peek
run_step c cfg link links s = on_peek c cfg link links (peek s.wal) s
