-- ===== src/Sender/Queries/Runs.antt =====
-- Tests of the parallel queries, and their theorem at concrete inputs.
use influx_sync.Base.{
  ℕ, ◌-◌, ◌≡◌, refl, true, false, Option, none, some, List, [], ◌∷◌, ◌==◌, if◌then◌else◌, lookup,
  arith,
}
use influx_sync.Model.Rendering.{
  Bytes, Point, int64, float, same, digits, decimal, decimal_int64, before, insert_sorted,
  sort_strings, value_of, len_prefix, key_tags, series_text, sorted_tag_keys, point_key,
}
use influx_sync.Sender.Queries.{
  nan_text, number_text, same_bool, same_value, found, entries_in, points_equal, empty_set,
  with_key, add_point, any_equal, any_same, in_big, contains_point, add_all, fresh, joined, tail_at,
  head_at, merged, append_part, with_part, all_or_none, part, merge, query_parallel,
}
use influx_sync.Sender.Queries.Exact.{IsDated, between, query_parallel-whole}

abbrev field : Bytes
field = 118 ∷ []

-- m,h=<host> v=<n>i at `t`
abbrev sample : ℕ → ℕ → ℕ → Point
sample host n t = record {
  measurement = 109 ∷ [];
  tags = (104 ∷ [], host ∷ []) ∷ [];
  fields = (field, int64 n) ∷ [];
  timestamp = t;
  tag_keys = [];
  field_keys = [];
}

abbrev source : ℕ → List Point
source t = sample 97 1 t ∷ (sample 98 2 t ∷ [])

abbrev query : ℕ → ℕ → Option (List Point)
query s e = some (between source s (e - s))

all_code : ℕ
unfolding number_text same_bool same_value found entries_in points_equal with_key add_point
    any_equal any_same in_big contains_point add_all fresh joined tail_at head_at merged append_part
    with_part all_or_none part merge query_parallel same lookup between digits decimal decimal_int64
    before insert_sorted sort_strings value_of len_prefix key_tags series_text sorted_tag_keys
    point_key
all_code = 0

-- The parts from 10 to 14 and from 13 to 17 both give the points at 13.
joined_once : query_parallel query 2 10 17 ≡ query 10 17
unfolding all_code
joined_once = refl

-- A part that fails fails all.
part_failed : query_parallel (λ s e. if s == 13 then none else query s e) 2 10 17 ≡ none
unfolding all_code
part_failed = refl

-- A point with a NaN does not equal itself.
abbrev odd_point : Point
odd_point = record (sample 97 1 5) { fields = (field, float true nan_text) ∷ [] }

nan_differs : points_equal odd_point odd_point ≡ false
unfolding all_code
nan_differs = refl

-- Behind eight points the set goes over to keys, which leave the fields out.
fields_left_out :
    contains_point
      (add_all empty_set (
        sample 1 0 5
        ∷ (sample 2 0 5
            ∷ (sample 3 0 5
                ∷ (sample 4 0 5
                    ∷ (sample 5 0 5
                        ∷ (sample 6 0 5
                            ∷ (sample 7 0 5 ∷ (sample 8 0 5 ∷ (sample 9 0 5 ∷ []))))))))))
      (sample 9 1 5)
    ≡ true
unfolding all_code
fields_left_out = refl

regular : (host n t : ℕ) → points_equal (sample host n t) (sample host n t) ≡ true
unfolding all_code
regular host n t = ground arith

source-IsDated : IsDated source
source-IsDated t = ((refl, regular 97 1 t), ((refl, regular 98 2 t), tt))

query_parallel-whole_example : query_parallel query 2 10 17 ≡ query 10 17
query_parallel-whole_example =
    query_parallel-whole source query 2 10 17 source-IsDated (λ s e. refl)
