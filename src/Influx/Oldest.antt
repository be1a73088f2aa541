-- ===== src/Influx/Oldest.antt =====
-- internal/influx/client.go, ProbeOldestData: the time of the oldest point, from the shard groups or by
-- counting. Times are int64 values by their bit patterns; `now` is not negative.
pub mod Bisecting
use influx_sync.Base.{
  ℕ, zero, suc, ◌-◌, ◌*◌, ◌^◌, ◌%◌, Bool, true, false, not, ◌&&◌, ◌||◌, Option, none, some, List,
  [], ◌∷◌, ltb, leb, ◌==◌, le_int64, add64, sub64, div_int64, if◌then◌else◌,
}
use influx_sync.Model.Rendering.{Bytes, same}

-- What `SHOW SHARD GROUPS` gives for a shard group: whether its row has the columns, the database, and
-- its start_time where time.Parse can read it.
pub record ShardGroup : Type 0 where
  pub complete : Bool
  pub database : Option Bytes
  pub start_time : Option ℕ

unfoldable pub is_database : Bytes → Option Bytes → Bool
is_database name none = false
is_database name (some db) = same db name

-- The smaller of the start so far and of the next one; 0 is no start.
unfoldable pub earlier : ℕ → Option ℕ → ℕ
earlier oldest none = oldest
earlier oldest (some t) = if oldest == 0 || not (le_int64 oldest t) then t else oldest

unfoldable pub oldest_start : Bytes → ℕ → List ShardGroup → ℕ
unfolding is_database earlier
oldest_start name oldest [] = oldest
oldest_start name oldest (row ∷ rows) =
    oldest_start name
      (if row.complete && is_database name row.database
        then earlier oldest row.start_time
        else oldest)
      rows

-- oldestByShards; `none` is an error.
unfoldable pub oldest_by_shards : Bytes → Option (List ShardGroup) → Option ℕ
oldest_by_shards name none = none
oldest_by_shards name (some rows) =
    let oldest = oldest_start name 0 rows in if oldest == 0 then none else some oldest

-- One hour, and one millisecond.
abbrev pub hour : ℕ
hour = 3600000000000

abbrev pub millisecond : ℕ
millisecond = 1000000

-- base << i
unfoldable pub shifted : ℕ → ℕ
shifted i = hour * 2 ^ i % 2 ^ 64

-- The span of the round `i`, which does not reach before 0.
unfoldable pub span : ℕ → ℕ → ℕ
unfolding shifted
span now i = if le_int64 (shifted i) 0 || ltb now (shifted i) then now else shifted i

-- What the widening of the window found: nothing at all, or how many points are behind `lo`.
pub data Extent : Type 0 where
  nothing : Extent
  behind : ℕ → ℕ → Extent

-- `count start end` is countPoints; `none` is its error.
module _ (count : ℕ → ℕ → Option ℕ) (now : ℕ) where
  -- The round `i` with its count; `prev` is the count before.
  unfoldable pub counted : (ℕ → Option Extent) → ℕ → ℕ → Option ℕ → Option Extent
  counted next i prev none = none
  counted next i prev (some cnt) =
      let rest = next cnt in
      if cnt == 0 && leb 4 i
      then some nothing
      else if (ltb 0 cnt && ltb 0 i) && cnt == prev
      then some (behind (sub64 now (shifted (i - 1))) cnt)
      else rest

  -- The loop that widens the window, with `left` rounds to go. When none is left it is an error.
  unfoldable pub widen : ℕ → ℕ → ℕ → Option Extent
  unfolding counted span
  widen zero i prev = none
  widen (suc left) i prev = counted (widen left (suc i)) i prev (count (sub64 now (span now i)) now)

  unfoldable pub halved : (ℕ → ℕ → Option ℕ) → ℕ → ℕ → ℕ → ℕ → Option ℕ → Option ℕ
  halved next total lo hi mid none = none
  halved next total lo hi mid (some cnt) =
      next (if leb total cnt then lo else mid) (if leb total cnt then mid else hi)

  -- The loop that halves the interval from `lo` to `hi`. Its length is an int64, so that 64 rounds of
  -- fuel are enough.
  unfoldable pub bisect : ℕ → ℕ → ℕ → ℕ → Option ℕ
  unfolding halved
  bisect zero total lo hi = none
  bisect (suc fuel) total lo hi =
      let mid = add64 lo (div_int64 (sub64 hi lo) 2) in
      let rest = halved (bisect fuel total) total lo hi mid (count mid now) in
      if le_int64 (sub64 hi lo) millisecond then some hi else rest

  unfoldable pub converge : Option Extent → Option ℕ
  converge none = none
  converge (some nothing) = some 0
  converge (some (behind lo total)) = bisect 64 total lo now

  unfoldable pub oldest_by_count_binary : Option ℕ
  unfolding converge
  oldest_by_count_binary = converge (widen 40 0 (2 ^ 64 - 1))

-- ProbeOldestData: by counting where the shard groups do not tell.
unfoldable pub or_counted : Option ℕ → Option ℕ → Option ℕ
or_counted (some oldest) counted = if le_int64 oldest 0 then counted else some oldest
or_counted none counted = counted

unfoldable pub probe_oldest_data :
    (ℕ → ℕ → Option ℕ) → ℕ → Bytes → Option (List ShardGroup) → Option ℕ
unfolding or_counted
probe_oldest_data count now name rows =
    or_counted (oldest_by_shards name rows) (oldest_by_count_binary count now)
