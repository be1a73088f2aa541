-- ===== src/Influx/Paging/Runs.antt =====
-- Tests of the pages of a query, and their theorem at a concrete source.
use influx_sync.Base.{
  ℕ, zero, suc, ◌+◌, ◌-◌, ◌≤◌, ◌≡◌, refl, sym, ap, Bool, true, false, ◌&&◌, Option, some, List, [],
  ◌∷◌, ◌++◌, ltb, leb, ◌==◌, if◌then◌else◌, length, take, drop, All, Bool-cases, inl, inr, lookup,
  arith,
}
use mathlib.Core.Path.{subst}
use influx_sync.Model.Rendering.{
  Point, int64, same, digits, decimal, decimal_int64, before, insert_sorted, sort_strings, value_of,
  len_prefix, key_tags, series_text, sorted_tag_keys, point_key,
}
use influx_sync.Sender.Queries.{
  same_value, found, entries_in, points_equal, with_key, add_point, any_equal, any_same, in_big,
  contains_point, add_all,
}
use influx_sync.Sender.Queries.Boundary.{IsRegular}
use influx_sync.Sender.Queries.Exact.{between, IsDated}
use influx_sync.Influx.Paging.{
  QueryOptions, with_default_pages, last_ts, kept, carry, dense_keys, dense_added, dense_options,
  most_dense, dense_page, dense, dense_done, page, pages_from, query_range,
}
use influx_sync.Influx.Paging.Dense.{IsApart}
use influx_sync.Influx.Paging.Source.{IsSource}
use influx_sync.Influx.Paging.Whole.{query_range-whole}

-- <name>,h=<host> v=1i at `t`
abbrev sample : ℕ → ℕ → ℕ → Point
sample name host t = record {
  measurement = name ∷ [];
  tags = (104 ∷ [], host ∷ []) ∷ [];
  fields = (118 ∷ [], int64 1) ∷ [];
  timestamp = t;
  tag_keys = [];
  field_keys = [];
}

abbrev options : QueryOptions
options = record { measurements = []; limit = 2; max_pages = 4; offset = 0; tag_columns = [] }

abbrev rows : List Point
rows = sample 109 97 5 ∷ (sample 109 98 5 ∷ (sample 109 99 5 ∷ []))

-- Three points, all at 5.
abbrev points : ℕ → List Point
points t = if t == 5 then rows else []

abbrev query : ℕ → ℕ → QueryOptions → Option (List Point)
query s e o = some (take o.limit (drop o.offset (between points s (e - s))))

all_code : ℕ
unfolding with_default_pages last_ts kept carry dense_keys dense_added dense_options dense_page
    dense dense_done page pages_from query_range same_value found entries_in points_equal with_key
    add_point any_equal any_same in_big contains_point add_all same lookup between digits decimal
    decimal_int64 before insert_sorted sort_strings value_of len_prefix key_tags series_text
    sorted_tag_keys point_key
all_code = 0

-- More points at one nanosecond than a page has rows.
dense_taken : query_range query 3 9 options ≡ some rows
unfolding all_code
dense_taken = refl

-- InfluxDB applies LIMIT to each measurement, and gives their rows one after the other. The rows of
-- "a" at 6 and 7 are behind the last row of the first page, at 8, and never come.
abbrev two_measurements : ℕ → ℕ → QueryOptions → Option (List Point)
two_measurements s e o =
    let a : ℕ → List Point = λ t. if ltb t 8 then sample 97 97 t ∷ [] else [] in
    let b : ℕ → List Point = λ t. if t == 8 then sample 98 97 t ∷ [] else [] in
    some (
      take o.limit (drop o.offset (between a s (e - s)))
      ++ take o.limit (drop o.offset (between b s (e - s))))

rows_lost :
    query_range two_measurements 4 9 options
    ≡ some (sample 97 97 4 ∷ (sample 97 97 5 ∷ (sample 98 97 8 ∷ [])))
unfolding all_code
rows_lost = refl

-- The query for one nanosecond asks for all measurements, also where the window is that of "m".
abbrev filtered : ℕ → ℕ → QueryOptions → Option (List Point)
filtered s e o =
    let b : ℕ → List Point = λ t. if t == 5 then sample 98 97 t ∷ [] else [] in
    elim o.measurements [
      | [] ↦ some (take o.limit (drop o.offset (between points s (e - s) ++ between b s (e - s))))
      | m ∷ ms ↦ query s e o
    ]

other_measurement :
    query_range filtered 3 9 (record options { measurements = (109 ∷ []) ∷ [] })
    ≡ some (rows ++ (sample 98 97 5 ∷ []))
unfolding all_code
other_measurement = refl

between_points :
    (s count : ℕ) → (if leb s 5 && ltb 5 (s + count) then rows else []) ≡ between points s count
unfolding between
between_points s zero = ground arith
between_points s (suc count) = ground (arith, between_points (s + 1) count)

shown_IsApart : (b : Bool) → IsApart (if b then rows else [])
unfolding all_code
shown_IsApart true = ((((refl, refl), ((refl, refl), tt))), ((((refl, refl), tt)), (tt, tt)))
shown_IsApart false = tt

points-IsDated : IsDated points
unfolding all_code
points-IsDated t =
    let here : t == 5 ≡ true → 5 ≡ t = λ h. ground (arith, h) in
    elim (Bool-cases (t == 5)) [
      | inl h ↦
          subst (λ b. All (λ p. (p.timestamp ≡ t) × IsRegular p) (if b then rows else [])) (sym h)
            ((here h, refl), ((here h, refl), ((here h, refl), tt)))
      | inr h ↦
          subst (λ b. All (λ p. (p.timestamp ≡ t) × IsRegular p) (if b then rows else [])) (sym h)
            tt
    ]

points-few : (t : ℕ) → length (points t) ≤ most_dense
points-few t = ground arith

source : IsSource points query
source = record {
  dated = points-IsDated;
  once = λ s count.
      subst IsApart (between_points s count) (shown_IsApart (leb s 5 && ltb 5 (s + count)));
  exact = λ s e o. refl;
  few = points-few;
}

query_range-whole_example : query_range query 3 9 options ≡ some (between points 3 6)
query_range-whole_example =
    query_range-whole points query options 3 9 source refl (omega arith) (omega arith) (omega arith)
      (omega arith) (omega (arith, ap length (between_points 3 6)))
