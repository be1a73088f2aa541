-- ===== src/Influx/Paging.antt =====
-- internal/influx/client.go, QueryRange: the rows of a window, page by page. The set of the rows that
-- two pages share, pointSet, is the same code as boundarySet of internal/sender/poller.go.
pub mod Dense
pub mod Cutting
pub mod Source
pub mod Steps
pub mod Whole
mod Runs
use influx_sync.Base.{
  ℕ, zero, suc, ◌+◌, ◌-◌, ◌*◌, ◌^◌, ◌%◌, Bool, true, false, not, ◌&&◌, Option, none, some, List, [],
  ◌∷◌, ◌++◌, map, ltb, ◌==◌, le_int64, if◌then◌else◌, length,
}
use influx_sync.Model.Rendering.{Bytes, Point, point_key}
use influx_sync.Sender.Queries.{BoundarySet, empty_set, add_point, contains_point, any_same}

pub record QueryOptions : Type 0 where
  pub measurements : List Bytes
  pub limit : ℕ
  pub max_pages : ℕ
  pub offset : ℕ
  pub tag_columns : List Bytes

unfoldable pub with_default_pages : QueryOptions → QueryOptions
with_default_pages opt = record opt {
  limit = (if le_int64 opt.limit 0 then 10000 else opt.limit);
  max_pages = (if le_int64 opt.max_pages 0 then 1000 else opt.max_pages);
}

-- The timestamp of the last row.
unfoldable pub last_ts : Point → List Point → ℕ
last_ts r [] = r.timestamp
last_ts r (s ∷ rows) = last_ts s rows

-- The rows of a page that are no repetition of the page before.
unfoldable pub kept : ℕ → ℕ → ℕ → BoundarySet → List Point → List Point
kept start end from carried [] = []
kept start end from carried (r ∷ rows) =
    let rest = kept start end from carried rows in
    if not (ltb r.timestamp end)
    then rest
    else if ((r.timestamp == from) && not (from == start)) && contains_point carried r
    then rest
    else r ∷ rest

-- The rows at `last`, for the next page.
unfoldable pub carry : ℕ → BoundarySet → List Point → BoundarySet
carry last carried [] = carried
carry last carried (r ∷ rows) =
    carry last (if r.timestamp == last then add_point carried r else carried) rows

-- The keys behind the rows at the nanosecond `ts`, and those of its rows whose key is new.
unfoldable pub dense_keys : ℕ → List Bytes → List Point → List Bytes
dense_keys ts keys [] = keys
dense_keys ts keys (r ∷ rows) =
    dense_keys ts
      (if (r.timestamp == ts) && not (any_same keys (point_key r))
        then point_key r ∷ keys
        else keys)
      rows

unfoldable pub dense_added : ℕ → List Bytes → List Point → List Point
dense_added ts keys [] = []
dense_added ts keys (r ∷ rows) =
    let skipped = dense_added ts keys rows in
    let added = r ∷ dense_added ts (point_key r ∷ keys) rows in
    if (r.timestamp == ts) && not (any_same keys (point_key r)) then added else skipped

abbrev pub most_dense : ℕ
most_dense = 10000000

-- `query from end opt` is queryOnce; `none` is an error.
module _ (query : ℕ → ℕ → QueryOptions → Option (List Point)) where
  -- The options of the query for one nanosecond, which are neither the measurements nor the tag
  -- columns of the window.
  unfoldable pub dense_options : ℕ → ℕ → QueryOptions
  dense_options limit offset = record {
    measurements = [];
    limit = limit * 10 % 2 ^ 64;
    max_pages = 0;
    offset = offset;
    tag_columns = [];
  }

  unfoldable pub dense_page :
      (ℕ → List Bytes → List Point → Option (List Point))
      → ℕ
      → ℕ
      → ℕ
      → List Bytes
      → List Point
      → Option (List Point)
      → Option (List Point)
  dense_page next ts limit offset keys acc none = none
  dense_page next ts limit offset keys acc (some big) =
      let found = acc ++ dense_added ts keys big in
      let rest = next (offset + length big) (dense_keys ts keys big) found in
      if ltb (length big) (limit * 10 % 2 ^ 64)
      then some found
      else if ltb most_dense (offset + length big)
      then none
      else rest

  -- The loop over the rows of one nanosecond. A round adds a row to the offset at least, so that it
  -- ends by its own bound.
  unfoldable pub dense : ℕ → ℕ → ℕ → ℕ → List Bytes → List Point → Option (List Point)
  unfolding dense_options dense_page
  dense zero ts limit offset keys acc = none
  dense (suc fuel) ts limit offset keys acc =
      dense_page (dense fuel ts limit) ts limit offset keys acc
        (query ts (ts + 1) (dense_options limit offset))

  unfoldable pub dense_done :
      (List Point → Option (List Point)) → Option (List Point) → Option (List Point)
  dense_done next none = none
  dense_done next (some acc) = next acc

  -- What follows a page. `rounds` bounds the rounds of the loop over one nanosecond.
  unfoldable pub page :
      (ℕ → BoundarySet → ℕ → List Point → Option (List Point))
      → ℕ
      → QueryOptions
      → ℕ
      → ℕ
      → ℕ
      → BoundarySet
      → ℕ
      → List Point
      → Option (List Point)
      → Option (List Point)
  unfolding dense_done
  page next rounds opt start end from carried pages acc none = none
  page next rounds opt start end from carried pages acc (some []) = some acc
  page next rounds opt start end from carried pages acc (some (r ∷ rs)) =
      let rows = r ∷ rs in
      let last = last_ts r rs in
      let found = acc ++ kept start end from carried rows in
      let shared = carry last empty_set rows in
      let more = next last shared (pages - 1) found in
      let behind =
        dense_done (next (last + 1) shared pages)
          (dense rounds last opt.limit 0 (map point_key rows) found) in
      if ltb (length rows) opt.limit
      then some found
      else if last == from
      then behind
      else if (pages - 1) == 0
      then none
      else more

  -- The loop over the pages: each begins later than the one before it.
  unfoldable pub pages_from :
      ℕ → ℕ → QueryOptions → ℕ → ℕ → ℕ → BoundarySet → ℕ → List Point → Option (List Point)
  unfolding page
  pages_from zero rounds opt start end from carried pages acc = none
  pages_from (suc fuel) rounds opt start end from carried pages acc =
      let rest =
        page (pages_from fuel rounds opt start end) rounds opt start end from carried pages acc
          (query from end (record opt { max_pages = pages })) in
      if not (ltb from end) then some acc else rest

  unfoldable pub query_range : ℕ → ℕ → QueryOptions → Option (List Point)
  unfolding with_default_pages
  query_range start end opt =
      let o = with_default_pages opt in
      pages_from (end - start + 1) (most_dense + 1) o start end start empty_set o.max_pages []
