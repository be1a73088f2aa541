-- ===== src/Influx/Paging/Cutting.antt =====
-- internal/influx/client.go, QueryRange: the rows of a page, in the order of their nanoseconds.
use influx_sync.Base.{
  ℕ, zero, suc, ◌+◌, ◌-◌, ◌≤◌, ◌<◌, ◌≡◌, ◌≢◌, ◌⊎◌, inl, inr, refl, sym, ap, ◌∙◌, true, false, List,
  [], ◌∷◌, ◌++◌, append_assoc, append-nil, leb, ◌==◌, if◌then◌else◌, length, take, drop, All,
  Bool-cases, ==_refl, ne→==, leb→le, leb→gt, length-append, take-append_past, take-append-drop,
  length-take, take_all, arith,
}
use influx_sync.Model.Rendering.{Point}
use influx_sync.Sender.Queries.{BoundarySet, add_point, contains_point, add_all}
use influx_sync.Sender.Queries.Exact.{AreAt, AreOff, between}
use influx_sync.Influx.Paging.{last_ts, kept, carry}

-- The first rows end in the first points of a nanosecond `at`.
pub record Cut (points : ℕ → List Point) (from count n : ℕ) : Type 0 where
  pub at : ℕ
  pub first : Point
  pub more : List Point
  pub left : List Point
  pub begins : from ≤ at
  pub ends : at < from + count
  pub split : points at ≡ (first ∷ more) ++ left
  pub taken : take n (between points from count) ≡ between points from (at - from) ++ (first ∷ more)

-- A list with something in it, by its first element.
some_first : (xs : List Point) → 0 < length xs → (x : Point) × (rest : List Point) × (xs ≡ x ∷ rest)
some_first [] h = absurd (omega arith)
some_first (x ∷ rest) h = (x, rest, refl)

cut_here :
    (points : ℕ → List Point) (count from n : ℕ)
    → 0 < n
    → n ≤ length (points from)
    → Cut points from (suc count) n
unfolding between
cut_here points count from n h within =
    let (p, rest, e) =
      some_first (take n (points from)) (omega (arith, length-take n (points from), h, within)) in
    let none_more : n - length (points from) ≡ 0 = omega arith in
    let empty : 0 ≡ from - from = omega arith in
    record {
      at = from;
      first = p;
      more = rest;
      left = drop n (points from);
      begins = omega arith;
      ends = omega arith;
      split = sym (take-append-drop n (points from)) ∙ ap (λ t. t ++ drop n (points from)) e;
      taken =
          take-append_past n (points from) (between points (from + 1) count)
          ∙ ap (λ m. take n (points from) ++ take m (between points (from + 1) count)) none_more
          ∙ append-nil (take n (points from))
          ∙ e
          ∙ ap (λ m. between points from m ++ (p ∷ rest)) empty;
    }

cut_behind :
    (points : ℕ → List Point) (count from n : ℕ)
    → length (points from) < n
    → Cut points (from + 1) count (n - length (points from))
    → Cut points from (suc count) n
unfolding between
cut_behind points count from n over c =
    let longer : suc (c.at - (from + 1)) ≡ c.at - from = omega (arith, c.begins) in
    record {
      at = c.at;
      first = c.first;
      more = c.more;
      left = c.left;
      begins = omega (arith, c.begins);
      ends = omega (arith, c.ends);
      split = c.split;
      taken =
          take-append_past n (points from) (between points (from + 1) count)
          ∙ ap (λ t. t ++ take (n - length (points from)) (between points (from + 1) count))
              (take_all n (points from) (omega (arith, over)))
          ∙ ap (λ t. points from ++ t) c.taken
          ∙ sym (
              append_assoc (points from) (between points (from + 1) (c.at - (from + 1)))
                (c.first ∷ c.more))
          ∙ ap (λ m. between points from m ++ (c.first ∷ c.more)) longer;
    }

pub cut :
    (points : ℕ → List Point) (count from n : ℕ)
    → 0 < n
    → n ≤ length (between points from count)
    → Cut points from count n
unfolding between
cut points zero from n h fits = absurd (omega arith)
cut points (suc count) from n h fits = elim (Bool-cases (leb n (length (points from)))) [
  | inl within ↦ cut_here points count from n h (leb→le n (length (points from)) within)
  | inr past ↦
      let over = leb→gt n (length (points from)) past in
      let size = length-append (points from) (between points (from + 1) count) in
      cut_behind points count from n over (
        cut points count (from + 1) (n - length (points from)) (omega (arith, over))
          (omega (arith, size, fits)))
]

-- last_ts, with the value for no rows.
last_or : ℕ → List Point → ℕ
last_or d [] = d
last_or d (r ∷ rows) = last_or r.timestamp rows

last_ts-or : (d : ℕ) (r : Point) (rows : List Point) → last_ts r rows ≡ last_or d (r ∷ rows)
unfolding last_ts last_or
last_ts-or d r [] = refl
last_ts-or d r (s ∷ rows) = last_ts-or r.timestamp s rows

last_or-at : (t d : ℕ) (rows : List Point) → d ≡ t → AreAt t rows → last_or d rows ≡ t
unfolding last_or
last_or-at t d [] h at = h
last_or-at t d (r ∷ rows) h at = last_or-at t r.timestamp rows at.0 at.1

last_or-append :
    (t d : ℕ) (before : List Point) (p : Point) (rows : List Point)
    → AreAt t (p ∷ rows)
    → last_or d (before ++ (p ∷ rows)) ≡ t
unfolding last_or
last_or-append t d [] p rows at = last_or-at t p.timestamp rows at.0 at.1
last_or-append t d (r ∷ before) p rows at = last_or-append t r.timestamp before p rows at

pub last_ts-append :
    (t : ℕ) (before : List Point) (p : Point) (rows : List Point) (r : Point) (rs : List Point)
    → r ∷ rs ≡ before ++ (p ∷ rows)
    → AreAt t (p ∷ rows)
    → last_ts r rs ≡ t
last_ts-append t before p rows r rs e at =
    last_ts-or 0 r rs ∙ ap (last_or 0) e ∙ last_or-append t 0 before p rows at

carry-at :
    (t : ℕ) (s : BoundarySet) (rows : List Point) → AreAt t rows → carry t s rows ≡ add_all s rows
unfolding carry add_all
carry-at t s [] at = refl
carry-at t s (r ∷ rows) at =
    let here : (r.timestamp == t) ≡ true = ap (λ n. n == t) at.0 ∙ ==_refl t in
    ap (λ b. carry t (if b then add_point s r else s) rows) here
    ∙ carry-at t (add_point s r) rows at.1

-- The set for the next page is that of the rows at the last nanosecond.
pub carry-append :
    (t : ℕ) (s : BoundarySet) (before rows : List Point)
    → AreOff t before
    → AreAt t rows
    → carry t s (before ++ rows) ≡ add_all s rows
unfolding carry
carry-append t s [] rows off at = carry-at t s rows at
carry-append t s (r ∷ before) rows off at =
    ap (λ b. carry t (if b then add_point s r else s) (before ++ rows)) (ne→== r.timestamp t off.0)
    ∙ carry-append t s before rows off.1 at

-- The rows of a page that repeat the page before it are left out, and no others.
pub kept-new :
    (start end from : ℕ) (carried : BoundarySet) (old new : List Point)
    → All (λ r. (r.timestamp ≡ from) × (contains_point carried r ≡ true)) old
    → (0 < length old → from ≢ start)
    → All (λ r. (r.timestamp ≢ from) ⊎ (contains_point carried r ≡ false)) new
    → All (λ r. r.timestamp < end) (old ++ new)
    → kept start end from carried (old ++ new) ≡ new
unfolding kept
kept-new start end from carried [] [] repeated later fresh within = refl
kept-new start end from carried [] (r ∷ new) repeated later fresh within =
    ground
      (arith, fresh.0, within.0, kept-new start end from carried [] new tt later fresh.1 within.1)
kept-new start end from carried (r ∷ old) new repeated later fresh within =
    let other : from ≢ start = later (omega arith) in
    ground (
      arith,
      repeated.0,
      within.0,
      other,
      kept-new start end from carried old new repeated.1 (λ h. other) fresh within.1,
    )
