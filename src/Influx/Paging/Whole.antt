-- ===== src/Influx/Paging/Whole.antt =====
-- internal/influx/client.go, QueryRange: the pages put together.
use influx_sync.Base.{
  ℕ, zero, suc, ◌+◌, ◌-◌, ◌*◌, ◌^◌, ◌≤◌, ◌<◌, ◌≡◌, refl, ap, ◌∙◌, not, Option, some, List, [], ◌∷◌,
  ◌++◌, append-nil, ltb, if◌then◌else◌, if_both, length, take, drop, All-map, le_int64, arith,
}
use influx_sync.Model.Rendering.{Point}
use influx_sync.Sender.Queries.{BoundarySet, empty_set, contains_point, any_equal, in_big}
use influx_sync.Sender.Queries.Exact.{between}
use influx_sync.Influx.Paging.{
  QueryOptions, with_default_pages, most_dense, page, pages_from, query_range,
}
use influx_sync.Influx.Paging.Source.{IsSource, Window, IsReady, ahead}
use influx_sync.Influx.Paging.Steps.{page_rows}

none_first : (ps : List Point) → ¬ (0 < length ps) → ps ≡ []
none_first [] h = refl
none_first (p ∷ ps) h = absurd (h (omega arith))

some_factor : (n m : ℕ) → 0 < n * m → 0 < n
some_factor zero m h = absurd (omega (arith, h))
some_factor (suc n) m h = omega arith

positive_same : (n default : ℕ) → 0 < n → n < 2 ^ 63 → (if le_int64 n 0 then default else n) ≡ n
positive_same n default h small = ground arith

module _ (w : Window) where
  open w use {points, query, source, opt, start, end, no_offset, some_rows, small}

  pages_from-whole :
      (fuel rounds from pages : ℕ) (carried : BoundarySet) (acc : List Point)
      → most_dense < rounds
      → end - from < fuel
      → IsReady w from carried pages acc
      → pages_from query fuel rounds opt start end from carried pages acc
        ≡ some (between points start (end - start))
  unfolding pages_from
  pages_from-whole zero rounds from pages carried acc enough fueled ready = absurd (omega arith)
  pages_from-whole (suc fuel) rounds from pages carried acc enough fueled ready =
      let whole = between points start (end - start) in
      let answer : query from end (record opt { max_pages = pages })
          ≡ some (take opt.limit (ahead w from)) =
        source.exact from end (record opt { max_pages = pages })
        ∙ ap (λ n. some (take opt.limit (drop n (ahead w from)))) no_offset in
      if_both (λ t. t ≡ some whole) (not (ltb from end)) _ _
        (λ past.
          let at_end : from ≡ end = ground (arith, past, ready.within) in
          let none_old : ready.old ≡ [] =
            none_first ready.old (λ some_old. omega (arith, at_end, (ready.first some_old).1)) in
          ap some (
            ready.done
            ∙ ap (λ t. between points start (from - start) ++ t) none_old
            ∙ append-nil (between points start (from - start))
            ∙ ap (λ t. between points start (t - start)) at_end))
        (λ before_end.
          let opened : from < end = ground (arith, before_end) in
          ap
            (page query (pages_from query fuel rounds opt start end) rounds opt start end from
              carried pages acc)
            answer
          ∙ page_rows w (pages_from query fuel rounds opt start end) rounds from pages carried acc
              enough
              (λ from' carried' pages' acc' further ready'.
                pages_from-whole fuel rounds from' pages' carried' acc' enough
                  (omega (arith, further, fueled, ready'.within)) ready')
              ready opened (take opt.limit (ahead w from)) refl)

  first-IsReady :
      start ≤ end
      → 2 * length (between points start (end - start)) < opt.max_pages * opt.limit
      → IsReady w start empty_set opt.max_pages []
  unfolding contains_point any_equal in_big between
  first-IsReady begun room =
      let nothing : 0 ≡ start - start = omega arith in
      record {
        old = [];
        new = points start;
        begun = omega arith;
        within = begun;
        done = ap (λ n. between points start n ++ []) nothing;
        split = refl;
        known = tt;
        unknown = All-map _ _ (points start) (λ p h. refl) (source.dated start);
        first = λ h. absurd (omega (arith, h));
        short = omega arith;
        room = omega (arith, room);
      }

-- QueryRange answers with all points of the window, each once and in the order of their times, from a
-- source that gives the first rows of a window. The limits are positive, and half of the rows that
-- the pages could hold are more than the window has.
pub query_range-whole :
    (points : ℕ → List Point) (query : ℕ → ℕ → QueryOptions → Option (List Point))
    (opt : QueryOptions) (start end : ℕ)
    → IsSource points query
    → opt.offset ≡ 0
    → 0 < opt.limit
    → opt.limit < 2 ^ 59
    → opt.max_pages < 2 ^ 63
    → start ≤ end
    → 2 * length (between points start (end - start)) < opt.max_pages * opt.limit
    → query_range query start end opt ≡ some (between points start (end - start))
unfolding query_range with_default_pages
query_range-whole points query opt start end source no_offset some_rows small few begun room =
    let w : Window = record {
      points = points;
      query = query;
      source = source;
      opt = opt;
      start = start;
      end = end;
      no_offset = no_offset;
      some_rows = some_rows;
      small = small;
    } in
    let paged : 0 < opt.max_pages = some_factor opt.max_pages opt.limit (omega (arith, room)) in
    let limit_same : (if le_int64 opt.limit 0 then 10000 else opt.limit) ≡ opt.limit =
      positive_same opt.limit 10000 some_rows (omega (arith, small)) in
    let pages_same : (if le_int64 opt.max_pages 0 then 1000 else opt.max_pages) ≡ opt.max_pages =
      positive_same opt.max_pages 1000 paged few in
    ap
      (λ n.
        pages_from query (end - start + 1) (most_dense + 1)
          (record opt {
            limit = n;
            max_pages = (if le_int64 opt.max_pages 0 then 1000 else opt.max_pages);
          })
          start end start empty_set (if le_int64 opt.max_pages 0 then 1000 else opt.max_pages) [])
      limit_same
    ∙ ap
        (λ n.
          pages_from query (end - start + 1) (most_dense + 1) (record opt { max_pages = n }) start
            end start empty_set n [])
        pages_same
    ∙ pages_from-whole w (end - start + 1) (most_dense + 1) start opt.max_pages empty_set []
        (omega arith) (omega arith) (first-IsReady w begun room)
