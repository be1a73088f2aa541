-- ===== src/Sender/Framing.antt =====
-- internal/sender/poller.go, appendFrames and appendBatch: the points of a window as frames of the
-- log, with frames that are too large split in halves. The workers only compute frames: their order
-- makes no difference to what is collected.
pub mod Holding
pub mod Complete
pub mod Growing
use influx_sync.Base.{
  ℕ, zero, suc, ◌+◌, ◌-◌, ◌/◌, Bool, true, false, List, [], ◌∷◌, ◌++◌, ltb, leb, ◌==◌,
  if◌then◌else◌, length, take, drop, Result, ok, err,
}
use influx_sync.Protocol
use influx_sync.Protocol.{
  Compression, type_data_zstd, encode, payload_too_large, frame_too_large, too_large,
}
use influx_sync.Wal.{Wal, WalError, append_batch}
use influx_sync.Model.Rendering.{RenderError, Point, lines_to_protocol_bytes}

-- An error on the way to the log.
pub data FrameError : Type 0 where
  render : RenderError → FrameError
  coding : Protocol.Error → FrameError
  log : WalError → FrameError

is_coding_too_large : Protocol.Error → Bool
is_coding_too_large (payload_too_large n) = true
is_coding_too_large (frame_too_large n) = true
is_coding_too_large (too_large n) = true
is_coding_too_large e = false

-- isFrameTooLarge
unfoldable pub is_frame_too_large : FrameError → Bool
unfolding is_coding_too_large
is_frame_too_large (coding e) = is_coding_too_large e
is_frame_too_large (render e) = false
is_frame_too_large (log e) = false

coded : Result Protocol.Error (List ℕ) → Result FrameError (List ℕ)
coded (ok fb) = ok fb
coded (err e) = err (coding e)

encoded_payload : Compression → ℕ → Result RenderError (List ℕ) → Result FrameError (List ℕ)
unfolding coded
encoded_payload c typ (ok payload) = coded (encode c typ 0 payload)
encoded_payload c typ (err e) = err (render e)

-- One frame, with 0 in the place of its number.
unfoldable pub encode_points : Compression → ℕ → List Point → Result FrameError (List ℕ)
unfolding encoded_payload
encode_points c typ ps =
    encoded_payload c (if typ == 0 then type_data_zstd else typ) (lines_to_protocol_bytes ps)

-- The points in groups of `batch`; each round takes one group.
unfoldable pub groups : ℕ → ℕ → List Point → List (List Point)
groups zero batch ps = []
groups (suc fuel) batch [] = []
groups (suc fuel) batch (p ∷ ps) = take batch (p ∷ ps) ∷ groups fuel batch (drop batch (p ∷ ps))

good_done : Wal × Result WalError (List ℕ) → Wal × Result FrameError (Unit {0})
good_done (w, ok seqs) = (w, ok tt)
good_done (w, err e) = (w, err (log e))

-- appendGood, where there is a frame to append.
unfoldable pub append_good : Wal → List (List ℕ) → Wal × Result FrameError (Unit {0})
unfolding good_done
append_good w [] = (w, ok tt)
append_good w (fb ∷ good) = good_done (append_batch w (fb ∷ good))

unfoldable pub and_then :
    Wal × Result FrameError (Unit {0})
    → (Wal → Wal × Result FrameError (Unit {0}))
    → Wal × Result FrameError (Unit {0})
and_then (w, ok u) next = next w
and_then (w, err e) next = (w, err e)

-- One group behind the frames `good` that wait for the log: its frame waits too; a group that is too
-- large is split behind them, and a point that is too large alone is left out.
unfoldable pub collect_group :
    (Wal → List Point → Wal × Result FrameError (Unit {0}))
    → (Wal → List (List ℕ) → Wal × Result FrameError (Unit {0}))
    → ℕ
    → Wal
    → List (List ℕ)
    → List Point
    → Result FrameError (List ℕ)
    → Wal × Result FrameError (Unit {0})
collect_group split next batch w good g (ok fb) = next w (good ++ (fb ∷ []))
collect_group split next batch w good g (err e) =
    if is_frame_too_large e
    then (if ltb 1 batch
        then and_then (append_good w good) (λ w'. and_then (split w' g) (λ w''. next w'' []))
        else next w good)
    else (w, err e)

-- The loop over the groups; `split` is appendBatch of half the size.
unfoldable pub collect :
    Compression
    → ℕ
    → (Wal → List Point → Wal × Result FrameError (Unit {0}))
    → ℕ
    → List (List Point)
    → Wal
    → List (List ℕ)
    → Wal × Result FrameError (Unit {0})
collect c typ split batch [] w good = append_good w good
collect c typ split batch (g ∷ gs) w good =
    collect_group split (collect c typ split batch gs) batch w good g (encode_points c typ g)

-- appendBatch. The batch is halved at each split, so `batch` rounds are enough.
unfoldable pub append_points :
    ℕ → Compression → ℕ → ℕ → Wal → List Point → Wal × Result FrameError (Unit {0})
append_points zero c typ batch w ps = (w, ok tt)
append_points (suc fuel) c typ batch w ps =
    let size = if ltb batch 1 then 1 else batch in
    collect c typ (append_points fuel c typ (size / 2)) size (groups (length ps) size ps) w []

-- effectiveBatchPoints
unfoldable pub effective_batch_points : Bool → ℕ → ℕ
effective_batch_points degraded batch_points = if degraded then batch_points / 2 else batch_points

unfoldable pub append_frames :
    Compression → ℕ → Bool → ℕ → Wal → List Point → Wal × Result FrameError (Unit {0})
append_frames c typ degraded batch_points w ps =
    let halved = effective_batch_points degraded batch_points in
    let batch = if halved == 0 then batch_points else halved in
    append_points (batch + 1) c typ batch w ps
