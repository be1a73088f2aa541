-- ===== src/Influx/Runs.antt =====
-- Tests of the InfluxDB client, and its theorems at concrete inputs.
use influx_sync.Base.{
  ℕ, ◌-◌, ◌*◌, ◌≡◌, ◌/◌, leb, ◌≤◌, refl, true, [], ◌∷◌, Option, some, ltb, if◌then◌else◌, arith,
}
use influx_sync.Influx.Oldest.{
  oldest_start, oldest_by_shards, earlier, is_database, or_counted, probe_oldest_data, hour,
  shifted, span, counted, widen, halved, bisect, converge, oldest_by_count_binary,
}
use influx_sync.Influx.Oldest.Bisecting.{oldest_by_count_binary-now, oldest_by_count_binary-zero}
use influx_sync.Model.Rendering.{same}

abbrev now : ℕ
now = 1700000000000000000

-- A source with one point at `t`.
abbrev one_at : ℕ → ℕ → ℕ → Option ℕ
one_at t s e = some (if ltb t s then 0 else if ltb t e then 1 else 0)

-- A point of three hours ago: the search ends at the time of the query.
now_found : oldest_by_count_binary (one_at (now - 3 * hour)) now ≡ some now
unfolding shifted span counted widen halved bisect converge oldest_by_count_binary
now_found = refl

-- The start of the only shard group of the database "a" is taken.
shard_found :
    probe_oldest_data (one_at (now - 3 * hour)) now (97 ∷ []) (
      some (
        record { complete = true; database = some (98 ∷ []); start_time = some 5 }
        ∷ (record { complete = true; database = some (97 ∷ []); start_time = some 9 } ∷ [])))
    ≡ some 9
unfolding same is_database earlier oldest_start oldest_by_shards or_counted probe_oldest_data
shard_found = refl

-- How many points are at `s` or later, where there is one of three hours and one of ninety minutes ago.
abbrev two_from : ℕ → ℕ
two_from s = if leb s (now - 3 * hour) then 2 else if leb s (now - hour - hour / 2) then 1 else 0

two_from_falls : (s t : ℕ) → s ≤ t → two_from t ≤ two_from s
two_from_falls s t h = ground arith

oldest_by_count_binary-now_example :
    oldest_by_count_binary (λ s e. some (two_from s)) now ≡ some now
oldest_by_count_binary-now_example =
    oldest_by_count_binary-now (λ s e. some (two_from s)) now two_from (omega arith) (λ s h. refl)
      two_from_falls (omega arith) (omega arith)

-- How many points are at `s` or later, where the only one is of a day ago.
abbrev old_from : ℕ → ℕ
old_from s = if leb s (now - 24 * hour) then 1 else 0

old_from_falls : (s t : ℕ) → s ≤ t → old_from t ≤ old_from s
old_from_falls s t h = ground arith

oldest_by_count_binary-zero_example : oldest_by_count_binary (λ s e. some (old_from s)) now ≡ some 0
oldest_by_count_binary-zero_example =
    oldest_by_count_binary-zero (λ s e. some (old_from s)) now old_from (omega arith) (λ s h. refl)
      old_from_falls (omega arith) refl
