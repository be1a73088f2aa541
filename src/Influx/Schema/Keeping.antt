-- ===== src/Influx/Schema/Keeping.antt =====
-- internal/influx/client.go, ensureSchema: what the cache of schemas keeps.
use influx_sync.Base.{
  ℕ, ◌+◌, ◌-◌, ◌≤◌, ◌≡◌, ap, ◌∙◌, Bool, true, false, not, some, ltb, if◌then◌else◌, lookup, store,
  lookup-store, ge→ltb, arith,
}
use influx_sync.Model.Rendering.{Bytes, same}
use influx_sync.Sender.Dedup.Evicting.{same_sound, same_refl}
use influx_sync.Influx.Schema.{
  Schema, Cache, schema_cache_ttl, schema_degrade_ttl, fresh_at, fallback, discovered, cached,
  serve_schema, ensure_schema,
}

-- A call that finds a schema which is no longer fresh.
serve_old :
    (now : ℕ) (cache : Cache) (m : Bytes) (fetched : Schema × Bool) (e : Schema)
    → lookup same m cache ≡ some e
    → fresh_at now e ≡ false
    → ensure_schema now cache m fetched
      ≡ (store same m (discovered now (some e) fetched) cache, discovered now (some e) fetched)
unfolding ensure_schema serve_schema
serve_old now cache m fetched e h old =
    ap (serve_schema now cache m fetched) h
    ∙ ap (λ b. if b then (cache, e) else cached now cache m (discovered now (some e) fetched)) old

good_expired :
    (now : ℕ) (e : Schema)
    → e.degraded ≡ false
    → e.fetched_at + schema_cache_ttl ≤ now
    → fresh_at now e ≡ false
unfolding fresh_at
good_expired now e healthy old =
    ap (λ b. ltb (now - e.fetched_at) (if b then schema_degrade_ttl else schema_cache_ttl)) healthy
    ∙ ge→ltb (now - e.fetched_at) schema_cache_ttl (omega (arith, old))

-- A discovery that fails where the cached good schema is past its hour keeps the tags and field types
-- of that schema once. A second failure, at least 30 s later, drops them: the schema is then what the
-- failed discovery found.
pub ensure_schema-twice :
    (t t' : ℕ) (cache : Cache) (m : Bytes) (good found found' : Schema)
    → lookup same m cache ≡ some good
    → good.degraded ≡ false
    → good.fetched_at + schema_cache_ttl ≤ t
    → t + schema_degrade_ttl ≤ t'
    → (let first = ensure_schema t cache m (found, false) in
        let second = ensure_schema t' first.0 m (found', false) in
        ((first.1.tags ≡ good.tags) × (first.1.field_types ≡ good.field_types))
        × ((second.1.tags ≡ found'.tags) × (second.1.field_types ≡ found'.field_types)))
unfolding discovered fallback fresh_at
ensure_schema-twice t t' cache m good found found' here healthy old again =
    let after : Schema = record good { degraded = true; fetched_at = t } in
    let left : discovered t (some good) (found, false) ≡ after =
      ap (λ b. if not b then after else record found { degraded = true; fetched_at = t }) healthy in
    let first : ensure_schema t cache m (found, false) ≡ (store same m after cache, after) =
      serve_old t cache m (found, false) good here (good_expired t good healthy old)
      ∙ ap (λ d. (store same m d cache, d)) left in
    let there : lookup same m (store same m after cache) ≡ some after =
      lookup-store same same_sound same_refl m m after cache
      ∙ ap (λ b. if b then some after else lookup same m cache) (same_refl m) in
    let second =
      serve_old t' (store same m after cache) m (found', false) after there
        (ge→ltb (t' - t) schema_degrade_ttl (omega (arith, again))) in
    (
      (ap (λ r. r.1.tags) first, ap (λ r. r.1.field_types) first),
      (
        ap (λ c. (ensure_schema t' c m (found', false)).1.tags) (ap (λ r. r.0) first)
            ∙ ap (λ r. r.1.tags) second,
        ap (λ c. (ensure_schema t' c m (found', false)).1.field_types) (ap (λ r. r.0) first)
            ∙ ap (λ r. r.1.field_types) second,
      ),
    )
