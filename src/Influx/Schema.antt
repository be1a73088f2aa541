-- ===== src/Influx/Schema.antt =====
-- internal/influx/client.go, ensureSchema: the tag keys and field types of a measurement, with a cache.
-- The calls for one measurement come one after the other.
pub mod Keeping
use influx_sync.Base.{
  ℕ, ◌-◌, Bool, true, false, not, Option, none, some, List, [], ◌∷◌, ltb, if◌then◌else◌, lookup,
  store,
}
use influx_sync.Model.Rendering.{Bytes, same}

pub record Schema : Type 0 where
  pub tags : List (Bytes × Bool)
  pub field_types : List (Bytes × Bytes)
  pub fetched_at : ℕ
  pub degraded : Bool

-- One hour, and 30 seconds.
abbrev pub schema_cache_ttl : ℕ
schema_cache_ttl = 3600000000000

abbrev pub schema_degrade_ttl : ℕ
schema_degrade_ttl = 30000000000

unfoldable pub fresh_at : ℕ → Schema → Bool
fresh_at now e =
    ltb (now - e.fetched_at) (if e.degraded then schema_degrade_ttl else schema_cache_ttl)

-- The tag keys from a list of names, each with true.
unfoldable pub add_tags : List Bytes → List (Bytes × Bool) → List (Bytes × Bool)
add_tags [] tags = tags
add_tags (k ∷ ks) tags = add_tags ks (store same k true tags)

unfoldable pub add_types : List (Bytes × Bytes) → List (Bytes × Bytes) → List (Bytes × Bytes)
add_types [] types = types
add_types ((k, t) ∷ rows) types = add_types rows (store same k t types)

unfoldable pub with_tag_rows : Schema → Option (List Bytes) → Schema × Bool
with_tag_rows e none = (e, false)
with_tag_rows e (some ks) = (record e { tags = add_tags ks e.tags }, true)

unfoldable pub with_field_rows : Schema × Bool → Option (List (Bytes × Bytes)) → Schema × Bool
with_field_rows (e, fine) none = (e, false)
with_field_rows (e, fine) (some rows) =
    (record e { field_types = add_types rows e.field_types }, fine)

unfoldable pub given_tags : List Bytes → Option (List Bytes) → Option (List Bytes)
given_tags [] rows = rows
given_tags (k ∷ ks) rows = some (k ∷ ks)

-- fetchSchema: the schema from the answers of the two SHOW queries, where their rows are read, and
-- whether both succeeded. Where tag columns are given their query is not made.
unfoldable pub fetch_schema :
    List Bytes → Option (List Bytes) → Option (List (Bytes × Bytes)) → Schema × Bool
unfolding with_tag_rows with_field_rows given_tags
fetch_schema tag_columns tag_rows field_rows =
    with_field_rows
      (with_tag_rows (record { tags = []; field_types = []; fetched_at = 0; degraded = false })
        (given_tags tag_columns tag_rows))
      field_rows

abbrev pub Cache : Type 0
Cache = List (Bytes × Schema)

-- What a failed discovery leaves in the cache: the schema that was there, unless it is degraded
-- already, and else what was found.
unfoldable pub fallback : ℕ → Schema → Option Schema → Schema
fallback now entry none = record entry { degraded = true; fetched_at = now }
fallback now entry (some prev) =
    if not prev.degraded
    then record prev { degraded = true; fetched_at = now }
    else record entry { degraded = true; fetched_at = now }

unfoldable pub discovered : ℕ → Option Schema → Schema × Bool → Schema
unfolding fallback
discovered now prev (entry, fine) =
    if fine then record entry { fetched_at = now } else fallback now entry prev

unfoldable pub cached : ℕ → Cache → Bytes → Schema → Cache × Schema
cached now cache m entry = (store same m entry cache, entry)

unfoldable pub serve_schema : ℕ → Cache → Bytes → Schema × Bool → Option Schema → Cache × Schema
unfolding cached
serve_schema now cache m fetched none = cached now cache m (discovered now none fetched)
serve_schema now cache m fetched (some e) =
    if fresh_at now e then (cache, e) else cached now cache m (discovered now (some e) fetched)

-- ensureSchema at `now`, with what fetchSchema gives if it is called.
unfoldable pub ensure_schema : ℕ → Cache → Bytes → Schema × Bool → Cache × Schema
unfolding serve_schema
ensure_schema now cache m fetched = serve_schema now cache m fetched (lookup same m cache)
