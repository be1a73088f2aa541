-- ===== src/Sender/FastPath/Skipping.antt =====
-- internal/sender/fastpath.go, Filter: a point that the poller skips has been forwarded.
use influx_sync.Base.{
  ℕ, ◌^◌, ◌<◌, ◌≡◌, refl, sym, ap, ◌∙◌, true, false, List, [], ◌∷◌, ◌++◌, ◌==◌, if◌then◌else◌,
  arith, All, All-map, Bool-cases, inl, inr, ◌⊎◌, ==_refl, add64,
}
use mathlib.Core.List.{Memᴰ}
use mathlib.Core.Path.{subst}
use influx_sync.Protocol.{Compression}
use influx_sync.Wal.{Wal}
use influx_sync.Wal.Batches.{append_batch_one}
use influx_sync.Model.Rendering.{Point, series_key}
use influx_sync.Sender.Dedup.{Dedup, contains}
use influx_sync.Sender.Dedup.Evicting.{Added, IsSound, set_cursor-IsSound}
use influx_sync.Sender.Dedup.Sound.{add_keys-IsSound, new_dedup-IsSound, contains-added}
use influx_sync.Sender.FastPath.{
  FastPath, FastPathConfig, Push, new_fast_path, set_cursor, filter_points, filter, split_lines,
  sort_lines, serve,
}
use influx_sync.Sender.FastPath.Lines.{sort_lines-IsNs}
use influx_sync.Sender.FastPath.Forwarded.{body_of, serve-Outcome}

-- The points whose lines a request put into the log: none where the log's next number is the same.
unfoldable pub forwarded : Compression → FastPath → Push → Added
forwarded c f push =
    if (serve c f push).wal.cp.next_seq == f.wal.cp.next_seq
    then []
    else (sort_lines f.cfg (split_lines (body_of f push))).keys

-- What a fast path can become, with the points that it has put into the log. Others use the log too.
pub data Reaches (c : Compression) : FastPath → Added → Type 0 where
  created : (w : Wal) (cfg : FastPathConfig) → Reaches c (new_fast_path w cfg) []
  pushed :
      (f : FastPath) (added : Added) (push : Push)
      → Reaches c f added
      → Reaches c (serve c f push) (forwarded c f push ++ added)
  moved :
      (f : FastPath) (added : Added) (cursor_ns : ℕ)
      → Reaches c f added
      → Reaches c (set_cursor f cursor_ns) added
  filtered :
      (f : FastPath) (added : Added) (ps : List Point)
      → Reaches c f added
      → Reaches c (filter f ps).0 added
  elsewhere :
      (f : FastPath) (added : Added) (w : Wal)
      → Reaches c f added
      → Reaches c (record f { wal = w }) added

next_differs : (n m : ℕ) → m ≡ add64 n 1 → (m == n) ≡ false
next_differs n m e = ground (arith, e)

serve-IsSound :
    (c : Compression) (f : FastPath) (push : Push) (added : Added)
    → IsSound f.dedup added
    → IsSound (serve c f push).dedup (forwarded c f push ++ added)
unfolding forwarded
serve-IsSound c f push added v = elim (serve-Outcome c f push) [
  | inl (log, set) ↦
      let same : ((serve c f push).wal.cp.next_seq == f.wal.cp.next_seq) ≡ true =
        ap (λ (w : Wal). w.cp.next_seq == f.wal.cp.next_seq) log ∙ ==_refl f.wal.cp.next_seq in
      rw (same) (subst (λ d. IsSound d added) (sym set) v)
  | inr (fb, seqs, encoded, log, set) ↦
      let next = (append_batch_one f.wal (serve c f push).wal fb seqs log).1 in
      rw (next_differs f.wal.cp.next_seq (serve c f push).wal.cp.next_seq next) (
        subst (λ d. IsSound d ((sort_lines f.cfg (split_lines (body_of f push))).keys ++ added))
          (sym set) (add_keys-IsSound push.clock 0 _ added f.dedup v (sort_lines-IsNs f.cfg _)))
]

Reaches-IsSound :
    (c : Compression) (f : FastPath) (added : Added) → Reaches c f added → IsSound f.dedup added
unfolding new_fast_path set_cursor filter
Reaches-IsSound c f added (created w cfg) = new_dedup-IsSound cfg.dedup_window
Reaches-IsSound c f' added' (pushed f added push r) =
    serve-IsSound c f push added (Reaches-IsSound c f added r)
Reaches-IsSound c f' added' (moved f added cursor_ns r) =
    set_cursor-IsSound f.dedup cursor_ns added (Reaches-IsSound c f added r)
Reaches-IsSound c f' added' (filtered f added ps r) = Reaches-IsSound c f added r
Reaches-IsSound c f' added' (elsewhere f added w r) = Reaches-IsSound c f added r

-- A point is among `out`, or it was forwarded.
abbrev pub IsCovered : Added → List Point → Point → Type 0
IsCovered added out p = Memᴰ p out ⊎ Memᴰ (series_key p.measurement p.tags, p.timestamp) added

pub filter_points-IsCovered :
    (d : Dedup) (added : Added) (ps : List Point)
    → IsSound d added
    → All (λ p. p.timestamp < 2 ^ 64) ps
    → All (IsCovered added (filter_points d ps).0) ps
unfolding filter_points
filter_points-IsCovered d added [] v h = tt
filter_points-IsCovered d added (p ∷ ps) v (small, h) =
    let out = (filter_points d ps).0 in
    let rest = filter_points-IsCovered d added ps v h in
    elim (Bool-cases (contains d (series_key p.measurement p.tags) p.timestamp)) [
      | inl hit ↦
          let same : (filter_points d (p ∷ ps)).0 ≡ out = rw (hit) refl in
          subst (λ t. All (IsCovered added t) (p ∷ ps)) (sym same)
            (inr (contains-added d _ p.timestamp added v small hit), rest)
      | inr miss ↦
          let same : (filter_points d (p ∷ ps)).0 ≡ p ∷ out = rw (miss) refl in
          subst (λ t. All (IsCovered added t) (p ∷ ps)) (sym same)
            (
              inl (Memᴰ.head refl),
              All-map (IsCovered added out) (IsCovered added (p ∷ out)) ps
                  (λ x covered. elim covered [ inl m ↦ inl (Memᴰ.tail m) | inr m ↦ inr m ]) rest,
            )
    ]

-- Each point that is given to Filter is among the points that it returns, or its line was in a frame
-- that the log took, whatever the fast path has done before.
pub filter-IsCovered :
    (c : Compression) (f : FastPath) (added : Added) (ps : List Point)
    → Reaches c f added
    → All (λ p. p.timestamp < 2 ^ 64) ps
    → All (IsCovered added (filter f ps).1) ps
unfolding filter
filter-IsCovered c f added ps r h =
    filter_points-IsCovered f.dedup added ps (Reaches-IsSound c f added r) h
