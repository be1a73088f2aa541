-- ===== src/Model/Runs.antt =====
-- Tests of the line protocol and of the keys, and their theorems at concrete inputs.
use influx_sync.Base.{ℕ, ◌≡◌, refl, arith, some, List, [], ◌∷◌, ◌++◌, map, ok}
use influx_sync.Model.Parsing.{
  parse_line, trim_returns, spaces, last_place, all_digits, digits_value, parse_timestamp, split_at,
  unescape_from, unescape, segments, split_tag, tag_pairs, push_unless, is_nil, push_segment,
  key_value, add_tag, some_tags, with_section, with_measurement, with_timestamp, space,
}
use influx_sync.Model.Rendering.{
  Bytes, int64, Point, digits, decimal, decimal_int64, before, same, insert_sorted, sort_strings,
  value_of, put, put_all, len_prefix, key_tags, series_text, series_key, series_key_from_pairs,
  sorted_tag_keys, sorted_field_keys, point_key, escape, in_measurement, render_tags, render_value,
  is_nan_or_inf, field_of, render_fields, line_protocol,
}
use influx_sync.Model.Keys.{point_key-injective}
use influx_sync.Model.RoundTrip.{parse-render}

-- The point "m,a=x y f=1i 7", with a space in the tag's value.
abbrev point : Point
point = record {
  measurement = 109 ∷ [];
  tags = (97 ∷ [], 120 ∷ 32 ∷ 121 ∷ []) ∷ [];
  fields = (102 ∷ [], int64 1) ∷ [];
  timestamp = 7;
  tag_keys = [];
  field_keys = [];
}

abbrev line : Bytes
line = 109 ∷ 44 ∷ 97 ∷ 61 ∷ 120 ∷ 92 ∷ 32 ∷ 121 ∷ 32 ∷ 102 ∷ 61 ∷ 49 ∷ 105 ∷ 32 ∷ 55 ∷ []

all_code : ℕ
unfolding parse_line trim_returns spaces last_place all_digits digits_value parse_timestamp split_at
    unescape_from unescape segments split_tag tag_pairs push_unless is_nil push_segment key_value
    add_tag some_tags with_section with_measurement with_timestamp digits decimal decimal_int64
    before same insert_sorted sort_strings value_of put put_all len_prefix key_tags series_text
    series_key series_key_from_pairs sorted_tag_keys sorted_field_keys point_key escape render_tags
    render_value is_nan_or_inf field_of render_fields line_protocol
all_code = 0

written : line_protocol point ≡ ok line
unfolding all_code
written = refl

read_back :
    parse_line line
    ≡ some (record {
      measurement = 109 ∷ [];
      tags = (97 ∷ [], 120 ∷ 32 ∷ 121 ∷ []) ∷ [];
      timestamp = 7;
    })
unfolding all_code
read_back = refl

-- A measurement that ends with a backslash takes the comma behind it and the tag along.
backslash_lost :
    parse_line (
      escape in_measurement (109 ∷ 92 ∷ [])
      ++ (44 ∷ 97 ∷ 61 ∷ 98 ∷ 32 ∷ 102 ∷ 61 ∷ 49 ∷ 32 ∷ 55 ∷ []))
    ≡ some (record { measurement = 109 ∷ 44 ∷ 97 ∷ 61 ∷ 98 ∷ []; tags = []; timestamp = 7 })
unfolding all_code
backslash_lost = refl

-- Two entries of a map, in either order, and the pairs of a line give one key.
keys_agree :
    series_key (109 ∷ []) ((99 ∷ [], 100 ∷ []) ∷ (97 ∷ [], 98 ∷ []) ∷ [])
    ≡ series_key_from_pairs (109 ∷ []) ((97 ∷ [], 98 ∷ []) ∷ (99 ∷ [], 100 ∷ []) ∷ [])
unfolding all_code
keys_agree = refl

abbrev tags : List (Bytes × Bytes)
tags = (99 ∷ [], 100 ∷ []) ∷ (97 ∷ [], 98 ∷ []) ∷ []

abbrev swapped : List (Bytes × Bytes)
swapped = (97 ∷ [], 98 ∷ []) ∷ (99 ∷ [], 100 ∷ []) ∷ []

abbrev tagged : List (Bytes × Bytes) → Point
tagged ts = record {
  measurement = 109 ∷ [];
  tags = ts;
  fields = (102 ∷ [], int64 1) ∷ [];
  timestamp = 7;
  tag_keys = [];
  field_keys = [];
}

point_key-injective_example :
    (◌≡◌ {A = Bytes} (109 ∷ []) (109 ∷ []))
    × (sorted_tag_keys (tagged tags) ≡ sorted_tag_keys (tagged swapped))
    × (map (λ k. value_of k tags) (sorted_tag_keys (tagged tags))
        ≡ map (λ k. value_of k swapped) (sorted_tag_keys (tagged swapped)))
    × (◌≡◌ {A = ℕ} 7 7)
unfolding all_code
point_key-injective_example =
    point_key-injective (tagged tags) (tagged swapped) (omega arith) (omega arith)
      ((omega arith, omega arith), ((omega arith, omega arith), tt))
      ((omega arith, omega arith), ((omega arith, omega arith), tt)) (omega arith) (omega arith)
      refl

parse-render_example :
    with_timestamp
      (escape in_measurement (109 ∷ 32 ∷ [])
        ++ (render_tags (λ k. value_of k tags) ((97 ∷ []) ∷ (99 ∷ []) ∷ [])
            ++ (space ∷ 102 ∷ 61 ∷ 49 ∷ [])))
      (some 7)
    ≡ some (record { measurement = 109 ∷ 32 ∷ []; tags = swapped; timestamp = 7 })
unfolding value_of same is_nil
parse-render_example =
    parse-render (λ k. value_of k tags) (109 ∷ 32 ∷ []) 7 ((97 ∷ []) ∷ (99 ∷ []) ∷ [])
      (102 ∷ 61 ∷ 49 ∷ []) ((omega arith, (omega arith, tt)), refl)
      (
        (((omega arith, tt), refl), ((omega arith, tt), refl)),
        ((((omega arith, tt), refl), ((omega arith, tt), refl)), tt),
      )
