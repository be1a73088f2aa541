-- ===== src/Sender/FastPath.antt =====
-- internal/sender/fastpath.go: FastPath, which takes the batches that the source database pushes and
-- puts their lines into the log, and Filter, which drops the points that it has forwarded.
pub mod Lines
pub mod Forwarded
pub mod Skipping
pub mod Taking
mod Runs
use influx_sync.Base.{
  ℕ, zero, suc, ◌+◌, ◌*◌, ◌^◌, Bool, true, false, not, ◌&&◌, ◌||◌, Option, none, some, List, [],
  ◌∷◌, ◌++◌, ltb, leb, ◌==◌, le_int64, if◌then◌else◌, length, take, Result, ok, err,
}
use influx_sync.Protocol
use influx_sync.Protocol.{Compression, Stream, max_decompressed_len, type_data_zstd, encode}
use influx_sync.Wal.{Wal, WalError, append_batch}
use influx_sync.Model.Parsing.{Line, parse_line}
use influx_sync.Model.Rendering.{Bytes, same, Point, series_key, series_key_from_pairs}
use influx_sync.Sender.Dedup.{Dedup, new_dedup, contains, add_keys}
use influx_sync.Sender.Dedup

pub data Mode : Type 0 where
  off auto on : Mode

pub record FastPathConfig : Type 0 where
  pub mode : Option Mode
  pub dedup_window : ℕ
  pub measurements : List Bytes
  pub max_batch_bytes : ℕ
  pub compression : ℕ

abbrev pub min_ns_timestamp : ℕ
min_ns_timestamp = 10 ^ 15

abbrev pub max_ns_timestamp : ℕ
max_ns_timestamp = 5 * 10 ^ 18

-- What happened to the batches, the lines and the points.
pub record Metrics : Type 0 where
  pub batches : ℕ
  pub signal_only : ℕ
  pub dropped_oversize : ℕ
  pub dropped_backpressure : ℕ
  pub dropped_precision : ℕ
  pub line_skipped : ℕ
  pub points : ℕ
  pub dedup_hits : ℕ

-- `signals` counts the calls of notify.
pub record FastPath : Type 0 where
  pub wal : Wal
  pub dedup : Dedup
  pub cfg : FastPathConfig
  pub metrics : Metrics
  pub signals : ℕ
  pub active : Bool

unfoldable pub is_off : Option Mode → Bool
is_off none = false
is_off (some off) = true
is_off (some auto) = false
is_off (some on) = false

or_auto : Option Mode → Option Mode
or_auto none = some auto
or_auto (some m) = some m

no_metrics : Metrics
no_metrics = record {
  batches = 0;
  signal_only = 0;
  dropped_oversize = 0;
  dropped_backpressure = 0;
  dropped_precision = 0;
  line_skipped = 0;
  points = 0;
  dedup_hits = 0;
}

unfoldable pub new_fast_path : Wal → FastPathConfig → FastPath
unfolding is_off or_auto no_metrics
new_fast_path w cfg = record {
  wal = w;
  dedup = new_dedup cfg.dedup_window;
  cfg = record cfg {
    mode = or_auto cfg.mode;
    max_batch_bytes =
        (if le_int64 cfg.max_batch_bytes 0 then max_decompressed_len else cfg.max_batch_bytes);
    compression = (if cfg.compression == 0 then type_data_zstd else cfg.compression);
  };
  metrics = no_metrics;
  signals = 0;
  active = not (is_off cfg.mode);
}

unfoldable pub enabled : FastPath → Bool
unfolding is_off
enabled f = not (is_off f.cfg.mode)

unfoldable pub set_cursor : FastPath → ℕ → FastPath
set_cursor f cursor_ns = record f { dedup = Dedup.set_cursor f.dedup cursor_ns }

-- The points that were not forwarded, and the number of the others.
unfoldable pub filter_points : Dedup → List Point → List Point × ℕ
filter_points d [] = ([], 0)
filter_points d (p ∷ ps) =
    let (out, hits) = filter_points d ps in
    if contains d (series_key p.measurement p.tags) p.timestamp
    then (out, hits + 1)
    else (p ∷ out, hits)

unfoldable pub filter : FastPath → List Point → FastPath × List Point
filter f ps =
    let (out, hits) = filter_points f.dedup ps in
    (record f { metrics = record f.metrics { dedup_hits = f.metrics.dedup_hits + hits } }, out)

unfoldable pub one_of : Bytes → List Bytes → Bool
one_of meas [] = false
one_of meas (m ∷ ms) = same m meas || one_of meas ms

unfoldable pub measurement_allowed : List Bytes → Bytes → Bool
measurement_allowed [] meas = true
measurement_allowed (m ∷ ms) meas = one_of meas (m ∷ ms)

-- The key and the time of a line that is forwarded.
unfoldable pub key_of_line : FastPathConfig → Option Line → Option (Bytes × ℕ)
key_of_line cfg none = none
key_of_line cfg (some l) =
    if not (le_int64 min_ns_timestamp l.timestamp) || not (le_int64 l.timestamp max_ns_timestamp)
    then none
    else if measurement_allowed cfg.measurements l.measurement
    then some (series_key_from_pairs l.measurement l.tags, l.timestamp)
    else none

unfoldable pub accept_line : FastPathConfig → Bytes → Option (Bytes × ℕ)
unfolding key_of_line
accept_line cfg line = key_of_line cfg (parse_line line)

-- bytes.Split at the line feed.
unfoldable pub push_first : ℕ → List Bytes → List Bytes
push_first b [] = (b ∷ []) ∷ []
push_first b (line ∷ lines) = (b ∷ line) ∷ lines

unfoldable pub split_lines : Bytes → List Bytes
split_lines [] = [] ∷ []
split_lines (b ∷ rest) =
    let lines = split_lines rest in if b == 10 then [] ∷ lines else push_first b lines

-- The bytes to forward, the keys of their points and the number of lines that are skipped.
pub record Sorted : Type 0 where
  pub out : Bytes
  pub keys : List (Bytes × ℕ)
  pub skipped : ℕ

unfoldable pub sort_line : Bytes → Sorted → Option (Bytes × ℕ) → Sorted
sort_line line rest none = record rest { skipped = rest.skipped + 1 }
sort_line line rest (some key) = record rest {
  out = line ++ (10 ∷ rest.out);
  keys = key ∷ rest.keys;
}

unfoldable pub sort_lines : FastPathConfig → List Bytes → Sorted
unfolding sort_line
sort_lines cfg [] = record { out = []; keys = []; skipped = 0 }
sort_lines cfg (line ∷ lines) =
    let rest = sort_lines cfg lines in
    let sorted = sort_line line rest (accept_line cfg line) in
    if length line == 0 then rest else sorted

-- One request: its body, what the gate answers where there is one, whether the log's disk is at the
-- yellow line, and the clock at each registration.
pub record Push : Type 0 where
  pub body : Stream
  pub at_yellow : Option Bool
  pub clock : ℕ → ℕ

-- io.ReadAll over an io.LimitReader of `limit` bytes.
unfoldable pub read_limited : ℕ → Stream → Option Bytes
read_limited limit s =
    if ltb (length s.bytes) limit
    then (if s.failed then none else some s.bytes)
    else some (take limit s.bytes)

unfoldable pub oversize : FastPath → FastPath
oversize f = record f {
  metrics = record f.metrics { dropped_oversize = f.metrics.dropped_oversize + 1 };
}

unfoldable pub backpressure : FastPath → FastPath
backpressure f = record f {
  metrics = record f.metrics { dropped_backpressure = f.metrics.dropped_backpressure + 1 };
}

-- Behind AppendBatch: with an error nothing is registered.
unfoldable pub appended :
    FastPath → (ℕ → ℕ) → List (Bytes × ℕ) → Wal × Result WalError (List ℕ) → FastPath
unfolding backpressure
appended f clock keys (w, err e) = backpressure (record f { wal = w })
appended f clock keys (w, ok seqs) = record f {
  wal = w;
  dedup = add_keys clock 0 keys f.dedup;
  metrics = record f.metrics { points = f.metrics.points + length keys };
}

unfoldable pub framed :
    FastPath → (ℕ → ℕ) → List (Bytes × ℕ) → Result Protocol.Error (List ℕ) → FastPath
unfolding oversize appended
framed f clock keys (err e) = oversize f
framed f clock keys (ok fb) = appended f clock keys (append_batch f.wal (fb ∷ []))

-- The lines of a body: without any that is forwarded nothing is appended.
unfoldable pub forward : Compression → FastPath → (ℕ → ℕ) → Sorted → FastPath
unfolding framed
forward c f clock s =
    let counted = record f.metrics { line_skipped = f.metrics.line_skipped + s.skipped } in
    if length s.out == 0
    then record f { metrics = record counted { dropped_precision = counted.dropped_precision + 1 } }
    else framed (record f { metrics = counted }) clock s.keys (encode c f.cfg.compression 0 s.out)

unfoldable pub gate_shut : Option Bool → Bool
gate_shut none = false
gate_shut (some yellow) = yellow

unfoldable pub with_body : Compression → FastPath → Push → Option Bytes → FastPath
unfolding oversize backpressure gate_shut
with_body c f push none = oversize f
with_body c f push (some body) =
    if length body == 0
    then oversize f
    else if ltb f.cfg.max_batch_bytes (length body)
    then oversize f
    else if gate_shut push.at_yellow
    then backpressure f
    else forward c f push.clock (sort_lines f.cfg (split_lines body))

unfoldable pub signalled : FastPath → FastPath
signalled f = record f {
  signals = f.signals + 1;
  metrics = record f.metrics { batches = f.metrics.batches + 1 };
}

-- ServeHTTP, which answers 204 in any case.
unfoldable pub serve : Compression → FastPath → Push → FastPath
unfolding with_body signalled is_off
serve c f push =
    let f' = signalled f in
    if is_off f.cfg.mode || not f.active
    then record f' { metrics = record f'.metrics { signal_only = f'.metrics.signal_only + 1 } }
    else with_body c f' push (read_limited (f.cfg.max_batch_bytes + 1) push.body)
