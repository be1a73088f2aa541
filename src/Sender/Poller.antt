-- ===== src/Sender/Poller.antt =====
-- internal/sender/poller.go: the windows of a poll, the backpressure of Run, and pollOnce with its
-- slices and its prefetch. Times are nanoseconds from 1970 on; a query gives its points or fails.
pub mod Window
pub mod Advancing
pub mod Polling
mod Runs
use influx_sync.Base.{
  ℕ, zero, suc, ◌+◌, ◌-◌, ◌*◌, ◌^◌, Bool, true, false, not, ◌&&◌, Option, none, some, List, [], ◌∷◌,
  ltb, leb, ◌==◌, le_int64, if◌then◌else◌, length, Result, ok, err,
}
use influx_sync.Protocol.{Compression, type_data_zstd}
use influx_sync.Wal
use influx_sync.Wal.{Wal, WalError}
use influx_sync.Model.Rendering.{Bytes, Point}
use influx_sync.Sender.FastPath
use influx_sync.Sender.FastPath.{FastPath, filter}
use influx_sync.Sender.Queries.{query_parallel}
use influx_sync.Sender.Framing.{FrameError, append_frames}

pub record PollerConfig : Type 0 where
  pub interval : ℕ
  pub window : ℕ
  pub watermark : ℕ
  pub max_window : ℕ
  pub batch_points : ℕ
  pub window_target : ℕ
  pub query_limit : ℕ
  pub parallel_queries : ℕ
  pub min_signal_interval : ℕ
  pub tag_columns : List Bytes
  pub measurements : List Bytes
  pub compression : ℕ

positive_or : ℕ → ℕ → ℕ
positive_or default n = if le_int64 n 0 then default else n

-- The configuration that NewPoller completes.
unfoldable pub with_defaults : PollerConfig → PollerConfig
unfolding positive_or
with_defaults cfg = record cfg {
  interval = positive_or 1000000000 cfg.interval;
  window = positive_or 5000000000 cfg.window;
  watermark = positive_or 10000000000 cfg.watermark;
  max_window = positive_or 30000000000 cfg.max_window;
  batch_points = positive_or 10000 cfg.batch_points;
  query_limit = positive_or 100000 cfg.query_limit;
  parallel_queries = positive_or 4 cfg.parallel_queries;
  min_signal_interval = positive_or 200000000 cfg.min_signal_interval;
  compression = (if cfg.compression == 0 then type_data_zstd else cfg.compression);
}

-- One hour.
abbrev pub empty_skip_max_window : ℕ
empty_skip_max_window = 3600000000000

-- The loop of windowSize with `rounds` doublings to go.
unfoldable pub doubled_window : ℕ → ℕ → ℕ
doubled_window zero w = w
doubled_window (suc rounds) w =
    let rest = doubled_window rounds (w * 2) in if ltb w empty_skip_max_window then rest else w

unfoldable pub window_size : ℕ → ℕ → ℕ
window_size window streak =
    let w = doubled_window streak window in
    if ltb empty_skip_max_window w then empty_skip_max_window else w

unfoldable pub window_target : PollerConfig → ℕ
window_target cfg = if ltb 0 cfg.window_target then cfg.window_target else cfg.batch_points

pub data Pressure : Type 0 where
  normal degraded paused : Pressure

-- The bytes of a disk that are in use, and all of them. Without a size nothing counts as in use.
pub record Usage : Type 0 where
  pub used : ℕ
  pub total : ℕ

unfoldable pub at_least : ℕ → Usage → Bool
at_least percent u = if u.total == 0 then false else leb (percent * u.total) (100 * u.used)

-- The state machine of Run: from 80 percent on a pause, which ends below 60 percent.
unfoldable pub next_pressure : Pressure → Usage → Pressure
next_pressure normal u =
    if at_least 80 u then paused else if at_least 60 u then degraded else normal
next_pressure degraded u =
    if at_least 80 u then paused else if at_least 60 u then degraded else normal
next_pressure paused u = if at_least 60 u then paused else normal

-- A query for the next window that was sent ahead, with its answer.
pub record Slot : Type 0 where
  pub cursor : ℕ
  pub end : ℕ
  pub blocked : Bool
  pub points : Option (List Point)

pub record Poller : Type 0 where
  pub cfg : PollerConfig
  pub wal : Wal
  pub fast_path : Option FastPath
  pub underfill_streak : ℕ
  pub prefetch : Option Slot

-- What the outside answers during one poll: the clock at its start, at the prefetch and at the write
-- of a checkpoint, QueryRange, and whether Run is in the degraded state.
pub record Env : Type 0 where
  pub now : ℕ
  pub later : ℕ
  pub saved_at : ℕ
  pub query : ℕ → ℕ → Option (List Point)
  pub degraded : Bool

-- The fast path is told the start of the window, and drops what it has forwarded.
unfoldable pub filter_window : Option FastPath → ℕ → List Point → Option FastPath × List Point
filter_window none cursor ps = (none, ps)
filter_window (some f) cursor ps =
    let r = filter (FastPath.set_cursor f cursor) ps in (some r.0, r.1)

unfoldable pub cursor_saved : Wal × Result WalError (Unit {0}) → Wal × Bool
cursor_saved (w, ok u) = (w, true)
cursor_saved (w, err e) = (w, false)

-- SetCursor behind the frames, and whether both succeeded.
unfoldable pub saved : ℕ → ℕ → Wal × Result FrameError (Unit {0}) → Wal × Bool
unfolding cursor_saved
saved now end (w, err e) = (w, false)
saved now end (w, ok u) = cursor_saved (Wal.set_cursor w now end)

module _ (c : Compression) (env : Env) where
  -- The frames of the points, and then the cursor at `end`.
  unfoldable pub save_points : Poller → ℕ → List Point → Wal × Bool
  save_points p end ps =
      saved env.saved_at end
        (append_frames c p.cfg.compression env.degraded p.cfg.batch_points p.wal ps)

  -- The query for the window from `cursor` on, where there is one that is not sliced.
  unfoldable pub next_slot : Poller → ℕ → Option Slot
  next_slot p cursor =
      let size = window_size p.cfg.window p.underfill_streak in
      let max_end = env.later - p.cfg.watermark in
      let over = ltb max_end (cursor + size) in
      let end = if over then max_end else cursor + size in
      if ltb p.cfg.max_window size
      then p.prefetch
      else if leb end cursor
      then p.prefetch
      else some (record {
        cursor = cursor;
        end = end;
        blocked = over;
        points = query_parallel env.query p.cfg.parallel_queries cursor end;
      })

  -- launchPrefetch, where no query is under way.
  unfoldable pub launch_prefetch : Poller → ℕ → Poller
  launch_prefetch p cursor = record p { prefetch = next_slot p cursor }

  -- Behind the frames and the cursor of a window.
  unfoldable pub window_saved : Poller → Bool → Wal × Bool → Poller × Bool
  window_saved p blocked (w, done) =
      if done
      then (record p { wal = w }, blocked)
      else (record p { wal = w; prefetch = none }, false)

  -- The points of the window from `cursor` to `end`; a query that failed makes the window small.
  unfoldable pub with_points : Poller → ℕ → ℕ → Bool → Option (List Point) → Poller × Bool
  unfolding window_saved filter_window
  with_points p cursor end blocked none = (record p { underfill_streak = 0 }, false)
  with_points p cursor end blocked (some ps) =
      let p1 = launch_prefetch p end in
      let streak = if ltb (length ps) (window_target p.cfg) then p.underfill_streak + 1 else 0 in
      let (fp, rest) = filter_window p.fast_path cursor ps in
      let p2 = record p1 { underfill_streak = streak; fast_path = fp } in
      window_saved p2 blocked (save_points p2 end rest)

  -- The prefetched answer where it is for this cursor, and else a query.
  unfoldable pub consume : Poller → ℕ → ℕ → Bool → Option Slot → Poller × Bool
  consume p cursor end blocked none =
      with_points p cursor end blocked (query_parallel env.query p.cfg.parallel_queries cursor end)
  consume p cursor end blocked (some slot) =
      if slot.cursor == cursor
      then with_points p cursor slot.end slot.blocked slot.points
      else with_points p cursor end blocked
          (query_parallel env.query p.cfg.parallel_queries cursor end)

  -- Behind a slice with too few points: the next one, where it is saved.
  unfoldable pub slice_saved : (Poller → Poller × Bool) → Poller → Wal × Bool → Poller × Bool
  slice_saved next p (w, done) =
      let rest = next (record p { wal = w; underfill_streak = p.underfill_streak + 1 }) in
      if done then rest else (record p { wal = w }, false)

  unfoldable pub dense_saved : Poller → Bool → Wal × Bool → Poller × Bool
  dense_saved p blocked (w, done) =
      if done then (record p { wal = w }, blocked) else (record p { wal = w }, false)

  unfoldable pub told : Option FastPath → ℕ → Option FastPath
  told none cursor = none
  told (some f) cursor = some (FastPath.set_cursor f cursor)

  unfoldable pub empty_saved : (Poller → Poller × Bool) → Poller → Wal × Bool → Poller × Bool
  empty_saved next p (w, done) =
      let rest = next (record p { wal = w }) in if done then rest else (record p { wal = w }, false)

  -- One slice from `s` to `e`.
  unfoldable pub with_slice :
      (Poller → Poller × Bool) → Poller → ℕ → ℕ → Bool → Option (List Point) → Poller × Bool
  unfolding slice_saved dense_saved empty_saved filter_window told cursor_saved
  with_slice next p s e blocked none = (record p { underfill_streak = 0 }, false)
  with_slice next p s e blocked (some []) =
      let p1 = record p {
        underfill_streak = p.underfill_streak + 1;
        fast_path = told p.fast_path s;
      } in
      empty_saved next p1 (cursor_saved (Wal.set_cursor p1.wal env.saved_at e))
  with_slice next p s e blocked (some (x ∷ xs)) =
      let (fp, rest) = filter_window p.fast_path s (x ∷ xs) in
      let p1 = record p { fast_path = fp } in
      let sparse = slice_saved next p1 (save_points p1 e rest) in
      let p2 = record p1 { underfill_streak = 0 } in
      if ltb (length rest) (window_target p.cfg)
      then sparse
      else dense_saved p2 blocked (save_points p2 e rest)

  -- The loop of pollSliced from `s` on. A slice is not empty, so that it ends.
  unfoldable pub slices : ℕ → ℕ → Bool → ℕ → Poller → Poller × Bool
  slices zero end blocked s p = (p, blocked)
  slices (suc fuel) end blocked s p =
      let e = if ltb end (s + p.cfg.max_window) then end else s + p.cfg.max_window in
      let rest =
        with_slice (slices fuel end blocked e) p s e blocked
          (query_parallel env.query p.cfg.parallel_queries s e) in
      if ltb s end then rest else (p, blocked)

  unfoldable pub poll_sliced : Poller → ℕ → ℕ → Bool → Poller × Bool
  poll_sliced p cursor end blocked =
      slices (end - cursor + 1) end blocked cursor (record p { prefetch = none })

  unfoldable pub poll_once : Poller → Poller × Bool
  poll_once p =
      let cursor = p.wal.cp.cursor_ns in
      let size = window_size p.cfg.window p.underfill_streak in
      let max_end = env.now - p.cfg.watermark in
      let over = ltb max_end (cursor + size) in
      let watched = if over then max_end else cursor + size in
      let wide = ltb p.cfg.max_window (watched - cursor) in
      let end = if (p.underfill_streak == 0) && wide then cursor + p.cfg.max_window else watched in
      if leb end cursor
      then (p, false)
      else if ltb 0 p.underfill_streak && ltb p.cfg.max_window (end - cursor)
      then poll_sliced p cursor end over
      else consume (record p { prefetch = none }) cursor end over p.prefetch
