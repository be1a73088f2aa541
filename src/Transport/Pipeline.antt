-- ===== src/Transport/Pipeline.antt =====
-- internal/transport/tcp_server.go: connPipeline and the two loops of handleConn, the one that reads
-- frames and starts their handlers, and the one that writes the ACKs. A method that waits on the
-- condition variable is a test that holds when it goes on.
pub mod Order
mod Runs
use influx_sync.Base.{
  ℕ, zero, suc, ◌+◌, ◌-◌, ◌<◌, ◌≡◌, Bool, true, false, Option, none, some, List, [], ◌∷◌, ◌++◌, ltb,
  ◌==◌, if◌then◌else◌,
}
use influx_sync.Protocol.{type_data, ack_fail}

pub record ConnPipeline : Type 0 where
  pub next : ℕ
  pub results : List (ℕ × ℕ)
  pub closed : Bool

unfoldable pub new_conn_pipeline : ConnPipeline
new_conn_pipeline = record { next = 0; results = []; closed = false }

unfoldable pub result_of : ℕ → List (ℕ × ℕ) → Option ℕ
result_of idx [] = none
result_of idx ((i, ack) ∷ rest) =
    let more = result_of idx rest in if i == idx then some ack else more

unfoldable pub delete_result : ℕ → List (ℕ × ℕ) → List (ℕ × ℕ)
delete_result idx [] = []
delete_result idx ((i, ack) ∷ rest) =
    let more = delete_result idx rest in if i == idx then more else (i, ack) ∷ more

unfoldable pub set_result : ℕ → ℕ → ConnPipeline → ConnPipeline
set_result idx ack p = record p { results = (idx, ack) ∷ delete_result idx p.results }

unfoldable pub taken : ℕ → ConnPipeline → Option ℕ → Option (ℕ × ConnPipeline)
taken idx p none = none
taken idx p (some ack) = some (ack, record p { results = delete_result idx p.results })

-- nextResult: none where it waits on, or ends because the connection is closed.
unfoldable pub next_result : ℕ → ConnPipeline → Option (ℕ × ConnPipeline)
next_result idx p = taken idx p (result_of idx p.results)

unfoldable pub close : ConnPipeline → ConnPipeline
close p = record p { closed = true }

unfoldable pub advance : ConnPipeline → ConnPipeline
advance p = record p { next = p.next + 1 }

-- awaitInflight goes on.
unfoldable pub await_inflight : ℕ → ℕ → ConnPipeline → Bool
await_inflight idx max p = ltb (idx - p.next) max

-- One connection: the pipeline, the frames whose handlers have started, the data frames read, the
-- frame index of a frame that has been read whole and waits for room, whether the loop that reads is
-- on, the number that the writer waits for and whether it is on, the bytes written, and the frame
-- indices given to the handlers, the last one first.
pub record Conn : Type 0 where
  pub pipe : ConnPipeline
  pub idx : ℕ
  pub data_idx : ℕ
  pub waiting : Option ℕ
  pub read_on : Bool
  pub write_idx : ℕ
  pub write_on : Bool
  pub written : List ℕ
  pub handed : List ℕ

unfoldable pub new_conn : Conn
new_conn = record {
  pipe = new_conn_pipeline;
  idx = 0;
  data_idx = 0;
  waiting = none;
  read_on = true;
  write_idx = 0;
  write_on = true;
  written = [];
  handed = [];
}

-- A whole frame of type `typ` has come, and gets its frame index.
unfoldable pub read_frame : ℕ → Conn → Conn
read_frame typ c =
    let first = typ == type_data in
    record c {
      data_idx = (if first then c.data_idx + 1 else c.data_idx);
      waiting = some (if first then c.data_idx else 0);
    }

-- awaitInflight went on for the frame that waits: its handler starts.
unfoldable pub start_handler : ℕ → Conn → Conn
start_handler fidx c = record c { idx = c.idx + 1; waiting = none; handed = fidx ∷ c.handed }

-- The loop that reads returns, with the deferred close.
unfoldable pub leave : Conn → Conn
leave c = record c { pipe = close c.pipe; read_on = false }

-- A header that ParseHeader refuses: the loop that reads writes AckFail itself, ahead of the ACKs of
-- the frames in flight, and returns. `sent` says that the write succeeds.
unfoldable pub refuse_header : Bool → Conn → Conn
unfolding leave
refuse_header sent c =
    leave (record c { written = (if sent then c.written ++ (ack_fail ∷ []) else c.written) })

unfoldable pub finish : ℕ → ℕ → Conn → Conn
finish i ack c = record c { pipe = set_result i ack c.pipe }

-- An ACK is written: the next result is there, and the write succeeds.
unfoldable pub write_ack : ℕ → ConnPipeline → Conn → Conn
write_ack ack p c = record c {
  pipe = advance p;
  write_idx = c.write_idx + 1;
  written = c.written ++ (ack ∷ []);
}

-- The next result is there and its write fails: the writer returns.
unfoldable pub fail_write : ConnPipeline → Conn → Conn
fail_write p c = record c { pipe = close p; write_on = false }

-- The frames read whole, with the one that waits.
unfoldable pub frames_read : Conn → ℕ
frames_read c = elim c.waiting [ none ↦ c.idx | some fidx ↦ c.idx + 1 ]
