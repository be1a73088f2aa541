-- ===== src/Sender/Poller/Runs.antt =====
-- Tests of the poller, and its theorems at concrete inputs.
use influx_sync.Base.{
  ℕ, Bool, ◌+◌, ◌≡◌, refl, false, List, [], ◌∷◌, some, none, ◌-◌, ◌&&◌, if◌then◌else◌, leb, ltb,
  ◌==◌,
}
use influx_sync.Sender.Queries.{query_parallel}
use influx_sync.Sender.Queries.Exact.{between}
use influx_sync.Bytes.{put_uint}
use influx_sync.Crc.{checksum_ieee}
use influx_sync.Protocol.{encode, compress, encode_raw, put_header}
use influx_sync.Protocol.Plain.{plain}
use influx_sync.Model.Rendering.{
  Point, int64, digits, decimal, decimal_int64, before, same, insert_sorted, sort_strings, value_of,
  sorted_tag_keys, sorted_field_keys, escape, render_tags, render_value, is_nan_or_inf, field_of,
  render_fields, line_protocol, lines_to_protocol_bytes,
}
use influx_sync.Wal.{
  Wal, set_seq, append_batch, append_frames, append_one, ensure_space, rotate, write_record,
  set_cursor, persist,
}
use influx_sync.Wal.Segments.{create, content, append_to}
use influx_sync.Sender.Framing
use influx_sync.Sender.Framing.{
  encode_points, groups, append_good, and_then, collect_group, collect, append_points,
  effective_batch_points,
}
use influx_sync.Sender.Poller.{
  Poller, PollerConfig, Env, normal, paused, at_least, next_pressure, with_defaults, doubled_window,
  window_size, window_target, save_points, next_slot, launch_prefetch, window_saved, with_points,
  consume, with_slice, slices, poll_sliced, poll_once, filter_window, saved, cursor_saved,
}

abbrev start : ℕ
start = 1700000000000000000

abbrev empty_log : Wal
empty_log = record {
  cp = record { cursor_ns = start; next_seq = 1; seg_start = 0; acked_bytes = 0; backfill_ns = 0 };
  index = [];
  acked = 0;
  cur_seg = 0;
  cur_open = false;
  cur_offset = 0;
  seg_size = 1000;
  dlq_max = 1000;
  files = [];
  saved = record {
    cursor_ns = start;
    next_seq = 1;
    seg_start = 0;
    acked_bytes = 0;
    backfill_ns = 0;
  };
  last_cp = 0;
  notified = false;
  legacy_checkpoint = false;
  dead = [];
  dead_size = 0;
}

abbrev settings : PollerConfig
settings = record {
  interval = 1000000000;
  window = 5000000000;
  watermark = 10000000000;
  max_window = 30000000000;
  batch_points = 1;
  window_target = 0;
  query_limit = 100000;
  parallel_queries = 1;
  min_signal_interval = 200000000;
  tag_columns = [];
  measurements = [];
  compression = 4;
}

abbrev poller : Poller
poller = record {
  cfg = settings;
  wal = empty_log;
  fast_path = none;
  underfill_streak = 0;
  prefetch = none;
}

-- m v=1i at the start of the window
abbrev point : Point
point = record {
  measurement = 109 ∷ [];
  tags = [];
  fields = (118 ∷ [], int64 1) ∷ [];
  timestamp = start;
  tag_keys = [];
  field_keys = [];
}

abbrev env : Env
env = record {
  now = start + 100000000000;
  later = start + 100000000000;
  saved_at = start;
  query = λ s e. some (if leb s start && ltb start e then point ∷ [] else []);
  degraded = false;
}

all_code : ℕ
unfolding digits decimal decimal_int64 before same insert_sorted sort_strings value_of
    sorted_tag_keys sorted_field_keys escape render_tags render_value is_nan_or_inf field_of
    render_fields line_protocol lines_to_protocol_bytes encode compress encode_raw put_header
    put_uint checksum_ieee append_batch append_frames append_one ensure_space rotate write_record
    set_seq create content append_to set_cursor persist encode_points groups append_good and_then
    collect_group collect append_points effective_batch_points Framing.append_frames at_least
    next_pressure with_defaults doubled_window window_size window_target save_points next_slot
    launch_prefetch window_saved with_points consume with_slice slices poll_sliced poll_once
    filter_window saved cursor_saved query_parallel
all_code = 0

-- The cursor moves by the window.
cursor_moved : (poll_once plain env poller).0.wal.cp.cursor_ns ≡ start + 5000000000
unfolding all_code
cursor_moved = refl

-- A pause that began at 85 of 100 ends below 60.
pause_held :
    next_pressure
      (next_pressure normal (record { used = 85; total = 100 }))
      (record { used = 70; total = 100 })
    ≡ paused
unfolding all_code
pause_held = refl

-- The source has the one point.
abbrev source : ℕ → List Point
source t = if t == start then point ∷ [] else []

abbrev Answers : ℕ → ℕ → List Point → Type 0
Answers s e ps = ps ≡ between source s (e - s)
