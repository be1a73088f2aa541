-- ===== src/Transport/Client.antt =====
-- internal/transport/tcp_client.go: the one connection of the sender. A frame is written whole or the
-- connection fails.
use influx_sync.Base.{ℕ, ◌+◌, Bool, true, false, Option, none, some, List, [], ◌∷◌, if◌then◌else◌}

-- `sent` holds the frames written to the present connection, the last one first, and `reads` the
-- number of ACK bytes read from it.
pub record Client : Type 0 where
  pub connected : Bool
  pub sent : List (List ℕ)
  pub reads : ℕ

-- What the network answers during one round: whether a dial succeeds, whether the i-th SendFrame
-- does, and the j-th ACK byte of the connection, none where it does not come in time. `now` is the
-- clock, in nanoseconds.
pub record Link : Type 0 where
  pub dial_ok : Bool
  pub send_ok : ℕ → Bool
  pub answers : ℕ → Option ℕ
  pub now : ℕ

unfoldable pub ensure_connected : Link → Client → Client × Bool
ensure_connected link c =
    if c.connected
    then (c, true)
    else if link.dial_ok
    then (record { connected = true; sent = []; reads = 0 }, true)
    else (c, false)

unfoldable pub close : Client → Client
close c = record c { connected = false }

-- The `i`-th SendFrame of the round.
unfoldable pub send_frame : Link → ℕ → List ℕ → Client → Client × Bool
unfolding close
send_frame link i frame c =
    if c.connected
    then (if link.send_ok i then (record c { sent = frame ∷ c.sent }, true) else (close c, false))
    else (c, false)

unfoldable pub take_answer : Client → Option ℕ → Client × Option ℕ
unfolding close
take_answer c none = (close c, none)
take_answer c (some ack) = (record c { reads = c.reads + 1 }, some ack)

unfoldable pub wait_ack : Link → Client → Client × Option ℕ
unfolding take_answer
wait_ack link c = if c.connected then take_answer c (link.answers c.reads) else (c, none)
