-- ===== src/Sender/FastPath/Runs.antt =====
-- Tests of the fast path, and its theorems at concrete inputs.
use influx_sync.Base.{
  ℕ, ◌≡◌, ◌++◌, refl, false, List, [], ◌∷◌, arith, ok, some, All, ◌+◌, ◌⊎◌, lookup, store, discard,
  has, insert, bit_or,
}
use mathlib.Core.Bool.{false≢true}
use influx_sync.Bytes.{put_uint}
use influx_sync.Crc.{checksum_ieee}
use influx_sync.Protocol.{encode, compress, encode_raw, put_header}
use influx_sync.Protocol.Plain.{plain}
use influx_sync.Model.Parsing.{
  parse_line, trim_returns, spaces, last_place, all_digits, digits_value, parse_timestamp, split_at,
  unescape_from, unescape, segments, push_unless, is_nil, push_segment, with_section,
  with_measurement, with_timestamp, at_last_space,
}
use influx_sync.Model.Rendering.{
  Bytes, Point, series_key, float, digits, decimal, before, same, insert_sorted, sort_strings,
  value_of, put, put_all, len_prefix, key_tags, series_text, series_key_from_pairs,
}
use influx_sync.Wal.{
  Wal, set_seq, append_batch, append_frames, append_one, ensure_space, rotate, write_record,
}
use influx_sync.Wal.Segments.{create, content, append_to}
use influx_sync.Wal.Queue.{Represents}
use influx_sync.Sender.Dedup.{
  contains, new_dedup, id_of, drop_ref, drop_refs, evict_parts, evict, second_of, offset_of, pack,
  register, new_series, add_as, add, in_part, contains_as, add_keys, or_zero, or_none,
}
use influx_sync.Sender.FastPath.{
  FastPath, FastPathConfig, Push, on, new_fast_path, serve, filter, sort_lines, split_lines,
  accept_line, forward, framed, appended, with_body, key_of_line, filter_points, sort_line,
  push_first, read_limited, measurement_allowed, one_of, is_off, signalled, gate_shut,
}
use influx_sync.Sender.FastPath.Forwarded.{body_of}
use influx_sync.Sender.FastPath.Lines.{sort_lines_again}
use influx_sync.Sender.FastPath.Skipping.{created, pushed, forwarded, IsCovered, filter-IsCovered}
use influx_sync.Sender.FastPath.Taking.{serve-Represents, serve_taken}

abbrev empty_log : Wal
empty_log = record {
  cp = record { cursor_ns = 5000; next_seq = 1; seg_start = 0; acked_bytes = 0; backfill_ns = 0 };
  index = [];
  acked = 0;
  cur_seg = 0;
  cur_open = false;
  cur_offset = 0;
  seg_size = 1000;
  dlq_max = 1000;
  files = [];
  saved = record {
    cursor_ns = 5000;
    next_seq = 1;
    seg_start = 0;
    acked_bytes = 0;
    backfill_ns = 0;
  };
  last_cp = 0;
  notified = false;
  legacy_checkpoint = false;
  dead = [];
  dead_size = 0;
}

empty_log-Represents : Represents empty_log []
empty_log-Represents = record {
  stands = record { holds = tt; ordered = omega arith; numbered = tt; acked_fits = omega arith };
  open_file = λ o. absurd (false≢true o);
  closed = λ shut. tt;
}

abbrev settings : FastPathConfig
settings = record {
  mode = some on;
  dedup_window = 0;
  measurements = [];
  max_batch_bytes = 0;
  compression = 0;
}

abbrev path : FastPath
path = new_fast_path empty_log settings

-- m v=1 1700000000000000000 and a line feed
abbrev one_line : Bytes
one_line =
    109 ∷ 32 ∷ 118 ∷ 61 ∷ 49 ∷ 32 ∷ 49 ∷ 55 ∷ 48 ∷ 48 ∷ 48 ∷ 48 ∷ 48 ∷ 48 ∷ 48 ∷ 48 ∷ 48 ∷ 48 ∷ 48
    ∷ 48 ∷ 48 ∷ 48 ∷ 48 ∷ 48 ∷ 48 ∷ 10 ∷ []

-- The line, and the same measurement at a time in seconds.
abbrev two_lines : Bytes
two_lines = one_line ++ (109 ∷ 32 ∷ 118 ∷ 61 ∷ 49 ∷ 32 ∷ 49 ∷ 55 ∷ [])

abbrev request : Push
request = record {
  body = record { bytes = two_lines; failed = false };
  at_yellow = some false;
  clock = λ n. 1700000001000000000 + n;
}

all_code : ℕ
unfolding parse_line trim_returns spaces last_place all_digits digits_value parse_timestamp split_at
    unescape_from unescape segments push_unless is_nil push_segment with_section with_measurement
    with_timestamp at_last_space digits decimal before same insert_sorted sort_strings value_of put
    put_all len_prefix key_tags series_text series_key series_key_from_pairs lookup store discard
    has insert bit_or new_dedup id_of drop_ref drop_refs evict_parts evict second_of offset_of pack
    register new_series add_as add in_part contains_as contains add_keys or_zero or_none
    new_fast_path serve filter filter_points sort_lines sort_line split_lines push_first accept_line
    key_of_line forward framed appended with_body read_limited measurement_allowed one_of is_off
    signalled gate_shut forwarded encode compress encode_raw put_header put_uint checksum_ieee
    append_batch append_frames append_one ensure_space rotate write_record set_seq create content
    append_to
all_code = 0

-- The second line has no time in nanoseconds: it is skipped.
two_lines_sorted :
    sort_lines (new_fast_path empty_log settings).cfg (split_lines two_lines) ≡ record {
      out = one_line;
      keys = (49 ∷ 58 ∷ 109 ∷ 124 ∷ [], 1700000000000000000) ∷ [];
      skipped = 1;
    }
unfolding all_code
two_lines_sorted = refl

sort_lines_again_example :
    sort_lines settings (split_lines (sort_lines settings (split_lines two_lines)).out)
    ≡ record (sort_lines settings (split_lines two_lines)) { skipped = 0 }
sort_lines_again_example = sort_lines_again settings two_lines

abbrev point_of : ℕ → Point
point_of ts = record {
  measurement = 109 ∷ [];
  tags = [];
  fields = (118 ∷ [], float false (49 ∷ [])) ∷ [];
  timestamp = ts;
  tag_keys = [];
  field_keys = [];
}

abbrev points : List Point
points = point_of 1700000000000000000 ∷ point_of 1700000000000000001 ∷ []

-- The point that was pushed is dropped, the other one is not.
pushed_point_skipped :
    (filter (serve plain path request) points).1 ≡ point_of 1700000000000000001 ∷ []
unfolding all_code
pushed_point_skipped = refl

filter-IsCovered_example :
    All
      (IsCovered (forwarded plain path request ++ []) (filter (serve plain path request) points).1)
      points
filter-IsCovered_example =
    filter-IsCovered plain (serve plain path request) (forwarded plain path request ++ []) points
      (pushed path [] request (created empty_log settings)) (omega arith, (omega arith, tt))

abbrev frame : List ℕ
frame = encode_raw 0x04 0 one_line (checksum_ieee one_line)

one_line_encoded : encode plain 0x04 0 one_line ≡ ok frame
unfolding all_code
one_line_encoded = refl

serve-Represents_example :
    (Represents (serve plain path request).wal [] × ((serve plain path request).dedup ≡ path.dedup))
    ⊎ ((fb : List ℕ) × (encode plain path.cfg.compression 0
            (sort_lines path.cfg (split_lines (body_of path request))).out
          ≡ ok fb)
        × Represents (serve plain path request).wal ((1, set_seq 1 fb) ∷ []))
unfolding all_code
serve-Represents_example = serve-Represents plain path request [] empty_log-Represents (omega arith)

serve_taken_example : Represents (serve plain path request).wal ((1, set_seq 1 frame) ∷ [])
unfolding all_code
serve_taken_example =
    serve_taken plain path request [] frame empty_log-Represents (omega arith) refl refl refl
      (omega arith) (omega arith) refl (omega arith) one_line_encoded
