-- ===== src/Transport/Pipeline/Runs.antt =====
-- Tests of a connection, and its theorem at a concrete run.
use influx_sync.Base.{ℕ, zero, suc, ◌+◌, ◌≤◌, ◌≡◌, refl, arith, some, [], ◌∷◌, true}
use influx_sync.Protocol.{type_data_zstd}
use influx_sync.Transport.Pipeline.{
  Conn, new_conn, new_conn_pipeline, read_frame, start_handler, leave, refuse_header, finish,
  set_result, next_result, taken, result_of, delete_result, write_ack, advance, close,
  await_inflight, frames_read,
}
use influx_sync.Transport.Pipeline.Order.{
  IsWritten, Reach, start, then_, reading, refusing, starting, finishing, writing, acks_in_order,
}

-- Frame 0 is stored, frame 1 is refused.
abbrev answer : ℕ → ℕ
answer zero = 0xff
answer (suc i) = 0

abbrev received : ℕ → Conn → Conn
received fidx c = start_handler fidx (read_frame 1 c)

-- Two frames are read, and the second one's handler ends first. Then a header is refused.
abbrev both_done : Conn
both_done = finish 0 0xff (finish 1 0 (received 1 (received 0 new_conn)))

abbrev refused : Conn
refused = refuse_header true both_done

abbrev one_written : Conn
one_written =
    write_ack 0xff (record refused.pipe { results = delete_result 0 refused.pipe.results }) refused

all_code : ℕ
unfolding new_conn new_conn_pipeline read_frame start_handler leave refuse_header finish set_result
    next_result taken result_of delete_result write_ack advance close await_inflight frames_read
all_code = 0

run : Reach 4 answer one_written
unfolding all_code
run =
    let first =
      then_ (then_ start (reading new_conn 1 refl refl))
        (starting (read_frame 1 new_conn) 0 refl refl refl) in
    let c = received 0 new_conn in
    let second =
      then_ (then_ first (reading c 1 refl refl)) (starting (read_frame 1 c) 1 refl refl refl) in
    let ended =
      then_ (then_ second (finishing (received 1 c) 1 (omega arith)))
        (finishing (finish 1 0 (received 1 c)) 0 (omega arith)) in
    then_ (then_ ended (refusing both_done true refl refl)) (writing refused 0xff _ refl refl)

acks_in_order_example :
    IsWritten answer one_written
    × (one_written.pipe.next ≤ one_written.idx)
    × (one_written.idx ≤ one_written.pipe.next + 4)
    × (frames_read one_written ≤ one_written.pipe.next + 4 + 1)
acks_in_order_example = acks_in_order 4 answer one_written run

-- The AckFail of the header has overtaken the ACK of frame 0.
overtaken : one_written.written ≡ 0 ∷ 0xff ∷ []
unfolding all_code
overtaken = refl

-- Only gzip data frames are counted: each zstd frame is given the index 0.
zstd_indices : (read_frame type_data_zstd (received 0 (received 0 new_conn))).waiting ≡ some 0
unfolding all_code
zstd_indices = refl
