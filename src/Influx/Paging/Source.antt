-- ===== src/Influx/Paging/Source.antt =====
-- internal/influx/client.go, QueryRange: the source, and what the loop over the pages has at a page.
use influx_sync.Base.{
  ℕ, suc, ◌+◌, ◌-◌, ◌*◌, ◌^◌, ◌%◌, ◌≤◌, ◌<◌, ◌≡◌, ◌≢◌, ◌⊎◌, inl, inr, sym, ap, ◌∙◌, true, false,
  Option, some, List, [], ◌++◌, map, append_assoc, append-nil, length, take, drop, All, All-map,
  All-append, All-take, All-both, All-parts, take-append_past, take_all, arith,
}
use mathlib.Core.Path.{subst}
use influx_sync.Model.Rendering.{Point, point_key}
use influx_sync.Sender.Queries.{BoundarySet, contains_point}
use influx_sync.Sender.Queries.Boundary.{IsRegular, any_same-Memᴰ, any_same-apart, listed}
use influx_sync.Sender.Queries.Exact.{AreAt, between, between-append, between-within, IsDated}
use influx_sync.Influx.Paging.{QueryOptions, kept, most_dense, dense_options, dense}
use influx_sync.Influx.Paging.Dense.{IsApart, AreBehind, IsApart-parts, dense-whole}
use influx_sync.Influx.Paging.Cutting.{kept-new}

-- A source that holds `points`, each once, and gives the rows of a window in the order of their times.
pub record IsSource (points : ℕ → List Point) (query : ℕ → ℕ → QueryOptions → Option (List Point))
    : Type 0 where
  pub dated : IsDated points
  pub once : (s count : ℕ) → IsApart (between points s count)
  pub exact :
      (s e : ℕ) (o : QueryOptions)
      → query s e o ≡ some (take o.limit (drop o.offset (between points s (e - s))))
  pub few : (t : ℕ) → length (points t) ≤ most_dense

-- A window of a source that QueryRange asks for.
pub record Window : Type 0 where
  pub points : ℕ → List Point
  pub query : ℕ → ℕ → QueryOptions → Option (List Point)
  pub source : IsSource points query
  pub opt : QueryOptions
  pub start : ℕ
  pub end : ℕ
  pub no_offset : opt.offset ≡ 0
  pub some_rows : 0 < opt.limit
  pub small : opt.limit < 2 ^ 59

module _ (w : Window) where
  open w use {points, query, source, opt, start, end, no_offset, some_rows, small}

  abbrev pub ahead : ℕ → List Point
  ahead from = between points from (end - from)

  -- What the loop has at the start of a page: the points before `from`, and the first of those at it.
  pub record IsReady (from : ℕ) (carried : BoundarySet) (pages : ℕ) (acc : List Point)
      : Type 0 where
    pub old : List Point
    pub new : List Point
    pub begun : start ≤ from
    pub within : from ≤ end
    pub done : acc ≡ between points start (from - start) ++ old
    pub split : points from ≡ old ++ new
    pub known : All (λ r. contains_point carried r ≡ true) old
    pub unknown : All (λ r. contains_point carried r ≡ false) new
    pub first : 0 < length old → (from ≢ start) × (from < end)
    pub short : length old ≤ opt.limit
    pub room : 2 * length (ahead from) < pages * opt.limit + length old

  pub joined_at :
      (a b : ℕ)
      → start ≤ a
      → a ≤ b
      → between points start (a - start) ++ between points a (b - a)
        ≡ between points start (b - start)
  joined_at a b begun within =
      let here : a ≡ start + (a - start) = omega (arith, begun) in
      let all : a - start + (b - a) ≡ b - start = omega (arith, begun, within) in
      ap (λ t. between points start (a - start) ++ between points t (b - a)) here
      ∙ sym (between-append points start (a - start) (b - a))
      ∙ ap (between points start) all

  pub opened_at :
      (from b : ℕ)
      → from < b
      → between points from (b - from) ≡ points from ++ between points (from + 1) (b - from - 1)
  unfolding between
  opened_at from b opened =
      let more : b - from ≡ suc (b - from - 1) = omega (arith, opened) in
      ap (between points from) more

  -- The rows of a page that are kept are those behind the rows that were taken before.
  pub found_lem :
      (from : ℕ) (carried : BoundarySet) (pages : ℕ) (acc : List Point)
      → IsReady from carried pages acc
      → from < end
      → acc ++ kept start end from carried (take opt.limit (ahead from))
        ≡ between points start (from - start) ++ take opt.limit (ahead from)
  found_lem from carried pages acc ready opened =
      let rest = between points (from + 1) (end - from - 1) in
      let many = opt.limit - length ready.old in
      let all : ahead from ≡ ready.old ++ (ready.new ++ rest) =
        opened_at from end opened
        ∙ ap (λ t. t ++ rest) ready.split
        ∙ append_assoc ready.old ready.new rest in
      let rows : take opt.limit (ahead from) ≡ ready.old ++ take many (ready.new ++ rest) =
        ap (take opt.limit) all
        ∙ take-append_past opt.limit ready.old (ready.new ++ rest)
        ∙ ap (λ t. t ++ take many (ready.new ++ rest)) (take_all opt.limit ready.old ready.short) in
      let within = between-within points source.dated from (end - from) in
      let (old_at, _) = All-parts _ ready.old ready.new (
        subst (AreAt from) ready.split
          (All-map _ _ (points from) (λ p h. h.0) (source.dated from))) in
      let behind = between-within points source.dated (from + 1) (end - from - 1) in
      let fresh : All (λ r. (r.timestamp ≢ from) ⊎ (contains_point carried r ≡ false))
          (take many (ready.new ++ rest)) =
        All-take _ many (ready.new ++ rest) (
          All-append _ ready.new rest (All-map _ _ ready.new (λ r h. inr h) ready.unknown)
            (All-map _ _ rest (λ r h. inl (λ e. omega (arith, h.0, e))) behind)) in
      ap (λ t. acc ++ kept start end from carried t) rows
      ∙ ap (λ t. acc ++ t)
          (kept-new start end from carried ready.old (take many (ready.new ++ rest))
            (All-both _ _ ready.old old_at ready.known) (λ h. (ready.first h).0) fresh
            (subst (All (λ r. r.timestamp < end)) rows (
              All-take _ opt.limit (ahead from)
                (All-map _ _ (ahead from) (λ r h. omega (arith, h.1, opened)) within))))
      ∙ ap (λ t. t ++ take many (ready.new ++ rest)) ready.done
      ∙ append_assoc (between points start (from - start)) ready.old (take many (ready.new ++ rest))
      ∙ ap (λ t. between points start (from - start) ++ t) (sym rows)

  pub points-IsApart : (t : ℕ) → IsApart (points t)
  unfolding between
  points-IsApart t = subst IsApart (append-nil (points t)) (source.once t 1)

  one_nanosecond :
      (t offset : ℕ)
      → query t (t + 1) (dense_options query opt.limit offset)
        ≡ some (take (opt.limit * 10 % 2 ^ 64) (drop offset (points t)))
  unfolding dense_options between
  one_nanosecond t offset =
      let one : t + 1 - t ≡ 1 = omega arith in
      source.exact t (t + 1) (dense_options query opt.limit offset)
      ∙ ap (λ n. some (take (opt.limit * 10 % 2 ^ 64) (drop offset (between points t n)))) one
      ∙ ap (λ ps. some (take (opt.limit * 10 % 2 ^ 64) (drop offset ps))) (append-nil (points t))

  -- The rows of a nanosecond that were not on the page come behind those that were.
  pub dense_lem :
      (t rounds : ℕ) (rows left acc : List Point)
      → most_dense < rounds
      → points t ≡ rows ++ left
      → dense query rounds t opt.limit 0 (map point_key rows) acc ≡ some (acc ++ left)
  dense_lem t rounds rows left acc enough split =
      let apart = subst IsApart split (points-IsApart t) in
      let (_, _, behind) = IsApart-parts rows left apart in
      let few = source.few t in
      let size = ap length split in
      dense-whole query t opt.limit (points t) (one_nanosecond t) (omega (arith, some_rows, small))
        rounds 0 (map point_key rows) acc rows left split
        (subst (AreAt t) split (All-map _ _ (points t) (λ p h. h.0) (source.dated t)))
        (All-map _ _ rows (λ p h. any_same-Memᴰ p rows h.1)
          (listed IsRegular rows
            (All-parts _ rows left (
              subst (All IsRegular) split
                (All-map _ _ (points t) (λ p h. h.1) (source.dated t)))).0))
        (All-map _ _ left (λ q h. any_same-apart q rows h) behind) apart
        (omega (arith, enough, size, few)) (omega (arith, size, few))

  pub one_more :
      (t : ℕ)
      → start ≤ t
      → between points start (t - start) ++ points t ≡ between points start (t + 1 - start)
  unfolding between
  one_more t begun =
      let one : 1 ≡ t + 1 - t = omega arith in
      ap (λ ps. between points start (t - start) ++ ps)
        (sym (append-nil (points t)) ∙ ap (between points t) one)
      ∙ joined_at t (t + 1) begun (omega arith)

  -- The rows of the next nanosecond are apart from those of this one.
  pub next_behind : (t : ℕ) → AreBehind (points t) (points (t + 1))
  unfolding between
  next_behind t =
      let (_, _, behind) = IsApart-parts (points t) (points (t + 1) ++ []) (source.once t 2) in
      subst (AreBehind (points t)) (append-nil (points (t + 1))) behind
