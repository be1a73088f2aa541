-- ===== src/SeqTracker.antt =====
-- internal/receiver/receiver.go: seqTracker, which moves last_seq over the contiguous prefix of the
-- frames that are done, whatever order they end in.
pub mod Prefix
pub mod Stopping
mod Runs
use influx_sync.Base.{
  ℕ, zero, suc, ◌^◌, Bool, true, false, List, [], ltb, leb, if◌then◌else◌, length, add64, has,
  insert, delete, delete_upto,
}

abbrev pub seq_jump_limit : ℕ
seq_jump_limit = 100000

abbrev pub seq_pending_limit : ℕ
seq_pending_limit = 65536

-- `pending` is the set of the frames that are done and not contiguous.
pub record SeqTracker : Type 0 where
  pub last : ℕ
  pub pending : List ℕ

unfoldable pub new_seq_tracker : SeqTracker
new_seq_tracker = record { last = 0; pending = [] }

unfoldable pub init : ℕ → SeqTracker
init v = record { last = v; pending = [] }

unfoldable pub close_gap : SeqTracker → ℕ → SeqTracker
close_gap t up_to =
    let last = if ltb t.last up_to then up_to else t.last in
    record { last = last; pending = delete_upto last t.pending }

-- One round of the loop of `done`: the next number leaves `pending`.
unfoldable pub advance_one : SeqTracker → SeqTracker
advance_one t = record { last = add64 t.last 1; pending = delete (add64 t.last 1) t.pending }

-- The loop of `done`. A round shortens `pending`, so `length pending + 1` rounds are enough.
unfoldable pub advance : ℕ → SeqTracker → Bool → SeqTracker × Bool
advance zero t advanced = (t, advanced)
advance (suc fuel) t advanced =
    let rest = advance fuel (advance_one t) true in
    if has (add64 t.last 1) t.pending then rest else (t, advanced)

-- Past the limit the set is emptied; `last` stays.
unfoldable pub drop_overflow : SeqTracker → SeqTracker
drop_overflow t = if ltb seq_pending_limit (length t.pending) then record t { pending = [] } else t

unfoldable pub done : SeqTracker → ℕ → SeqTracker × Bool
done t seq =
    if leb seq t.last
    then (t, false)
    else if ltb (add64 t.last seq_jump_limit) seq
    then (record { last = seq; pending = [] }, true)
    else (let pending = insert seq t.pending in
        let (t', advanced) =
          advance (suc (length pending)) (record t { pending = pending }) false in
        (drop_overflow t', advanced))
