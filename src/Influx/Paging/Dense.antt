-- ===== src/Influx/Paging/Dense.antt =====
-- internal/influx/client.go, QueryRange: the loop over the rows of one nanosecond takes all of them.
use influx_sync.Base.{
  ℕ, zero, suc, ◌+◌, ◌-◌, ◌*◌, ◌^◌, ◌%◌, ◌≤◌, ◌<◌, ◌≡◌, refl, sym, ap, ◌∙◌, true, false, not, ◌&&◌,
  Option, some, List, [], ◌∷◌, ◌++◌, append_assoc, ltb, ◌==◌, if_both, length, take, drop,
  All-parts, All, All-both, take-append_past, drop-append_past, drop-drop, All-map, All-take,
  All-drop, ltb→lt, ltb→ge, length-take, length-drop, length-append, take_all, take-append-drop,
  arith,
}
use mathlib.Core.Path.{subst}
use influx_sync.Model.Rendering.{Bytes, Point, point_key}
use influx_sync.Sender.Queries.{any_same}
use influx_sync.Sender.Queries.Boundary.{AreApart}
use influx_sync.Influx.Paging.{
  QueryOptions, dense_keys, dense_added, most_dense, dense_options, dense_page, dense,
}

abbrev pub IsApart : List Point → Type 0
IsApart [] = Unit {0}
IsApart (p ∷ ps) = All (AreApart p) ps × IsApart ps

abbrev pub In : List Bytes → Point → Type 0
In keys p = any_same keys (point_key p) ≡ true

abbrev pub NotIn : List Bytes → Point → Type 0
NotIn keys p = any_same keys (point_key p) ≡ false

abbrev IsAt : ℕ → Point → Type 0
IsAt ts p = p.timestamp ≡ ts

NotIn-cons :
    (keys : List Bytes) (r q : Point) → AreApart r q → NotIn keys q → NotIn (point_key r ∷ keys) q
unfolding any_same
NotIn-cons keys r q apart out = ground (arith, apart.1, out)

-- The rows whose keys are there are passed over, and the others taken.
dense_added-new :
    (ts : ℕ) (keys : List Bytes) (old new : List Point)
    → All (IsAt ts) (old ++ new)
    → All (In keys) old
    → All (NotIn keys) new
    → IsApart new
    → dense_added ts keys (old ++ new) ≡ new
unfolding dense_added
dense_added-new ts keys [] [] at there out apart = refl
dense_added-new ts keys [] (r ∷ new) at there out apart =
    let next =
      dense_added-new ts (point_key r ∷ keys) [] new at.1 tt
        (All-map _ _ new (λ q h. NotIn-cons keys r q h.0 h.1) (All-both _ _ new apart.0 out.1))
        apart.1 in
    ground (arith, at.0, out.0, next)
dense_added-new ts keys (r ∷ old) new at there out apart =
    ground (arith, at.0, there.0, dense_added-new ts keys old new at.1 there.1 out apart)

dense_keys-In :
    (ts : ℕ) (rows : List Point) (q : Point) (keys : List Bytes)
    → In keys q
    → In (dense_keys ts keys rows) q
unfolding dense_keys any_same
dense_keys-In ts [] q keys h = h
dense_keys-In ts (r ∷ rows) q keys h = dense_keys-In ts rows q _ (
    if_both (λ k. In k q) ((r.timestamp == ts) && not (any_same keys (point_key r))) _ _
      (λ new. ground (arith, h)) (λ old. h))

dense_keys-NotIn :
    (ts : ℕ) (rows : List Point) (q : Point) (keys : List Bytes)
    → NotIn keys q
    → All (λ r. AreApart r q) rows
    → NotIn (dense_keys ts keys rows) q
unfolding dense_keys
dense_keys-NotIn ts [] q keys h apart = h
dense_keys-NotIn ts (r ∷ rows) q keys h apart =
    dense_keys-NotIn ts rows q _
      (if_both (λ k. NotIn k q) ((r.timestamp == ts) && not (any_same keys (point_key r))) _ _
        (λ new. NotIn-cons keys r q apart.0 h) (λ old. h))
      apart.1

-- What is apart from each point before it.
abbrev pub AreBehind : List Point → List Point → Type 0
AreBehind ps = All (λ q. All (λ p. AreApart p q) ps)

none_before : (qs : List Point) → AreBehind [] qs
none_before [] = tt
none_before (q ∷ qs) = (tt, none_before qs)

pub IsApart-parts :
    (ps qs : List Point) → IsApart (ps ++ qs) → IsApart ps × IsApart qs × AreBehind ps qs
IsApart-parts [] qs h = (tt, h, none_before qs)
IsApart-parts (p ∷ ps) qs h =
    let (left, right, across) = IsApart-parts ps qs h.1 in
    let (near, far) = All-parts (AreApart p) ps qs h.0 in
    ((near, left), right, All-both (AreApart p) _ qs far across)

module _ (query : ℕ → ℕ → QueryOptions → Option (List Point)) (ts limit : ℕ) (rows : List Point)
    (exact : (offset : ℕ)
      → query ts (ts + 1) (dense_options query limit offset)
        ≡ some (take (limit * 10 % 2 ^ 64) (drop offset rows)))
    (some_rows : 0 < limit * 10 % 2 ^ 64) where
  -- The rows of the nanosecond from `offset` on are `old`, whose keys are there, and `new`.
  pub dense-whole :
      (fuel offset : ℕ) (keys : List Bytes) (acc old new : List Point)
      → drop offset rows ≡ old ++ new
      → All (IsAt ts) (old ++ new)
      → All (In keys) old
      → All (NotIn keys) new
      → IsApart (old ++ new)
      → length (old ++ new) < fuel
      → offset + length (old ++ new) ≤ most_dense
      → dense query fuel ts limit offset keys acc ≡ some (acc ++ new)
  unfolding dense dense_page
  dense-whole zero offset keys acc old new here at there out apart enough few = absurd (omega arith)
  dense-whole (suc fuel) offset keys acc old new here at there out apart enough few =
      let most = limit * 10 % 2 ^ 64 in
      let less = most - length old in
      let big = take most (old ++ new) in
      let parts : big ≡ take most old ++ take less new = take-append_past most old new in
      let left : drop most (old ++ new) ≡ drop most old ++ drop less new =
        drop-append_past most old new in
      let whole : take less new ++ drop less new ≡ new = take-append-drop less new in
      let (_, new_apart, _) = IsApart-parts old new apart in
      let (taken_apart, _, _) =
        IsApart-parts (take less new) (drop less new) (subst IsApart (sym whole) new_apart) in
      let added : dense_added ts keys big ≡ take less new =
        ap (dense_added ts keys) parts
        ∙ dense_added-new ts keys (take most old) (take less new)
            (subst (All (IsAt ts)) parts (All-take _ most (old ++ new) at))
            (All-take _ most old there) (All-take _ less new out) taken_apart in
      let size = length-take most (old ++ new) in
      let all = length-append old new in
      ap (dense_page query (dense query fuel ts limit) ts limit offset keys acc)
        (exact offset ∙ ap (λ t. some (take most t)) here)
      ∙ if_both (λ r. r ≡ some (acc ++ new)) (ltb (length big) most) _ _
          (λ last.
            let short = ltb→lt (length big) most last in
            ap (λ t. some (acc ++ t)) (added ∙ take_all less new (omega (arith, size, all, short))))
          (λ full.
            let long = ltb→ge (length big) most full in
            if_both (λ r. r ≡ some (acc ++ new)) (ltb most_dense (offset + length big)) _ _
              (λ too_many.
                let over = ltb→lt most_dense (offset + length big) too_many in
                absurd (omega (arith, over, size, few)))
              (λ fine.
                let filled : length big ≡ most = omega (arith, size, long) in
                let (_, rest_apart, across) =
                  IsApart-parts big (drop most (old ++ new))
                    (subst IsApart (sym (take-append-drop most (old ++ new))) apart) in
                let (_, behind) =
                  All-parts _ (drop most old) (drop less new) (subst (AreBehind big) left across) in
                let rest = length-drop most (old ++ new) in
                let less_left = ap length left in
                dense-whole fuel (offset + length big) (dense_keys ts keys big)
                  (acc ++ dense_added ts keys big) (drop most old) (drop less new)
                  (ap (λ n. drop (offset + n) rows) filled
                    ∙ sym (drop-drop most offset rows)
                    ∙ ap (drop most) here
                    ∙ left)
                  (subst (All (IsAt ts)) left (All-drop _ most (old ++ new) at))
                  (All-map _ _ (drop most old) (λ q h. dense_keys-In ts big q keys h)
                    (All-drop _ most old there))
                  (All-map _ _ (drop less new) (λ q h. dense_keys-NotIn ts big q keys h.0 h.1)
                    (All-both _ _ (drop less new) (All-drop _ less new out) behind))
                  (subst IsApart left rest_apart)
                  (omega (arith, enough, rest, less_left, long, size, some_rows))
                  (omega (arith, few, rest, less_left, filled, size))
                ∙ ap some (
                    ap (λ t. (acc ++ t) ++ drop less new) added
                    ∙ append_assoc acc (take less new) (drop less new)
                    ∙ ap (λ t. acc ++ t) whole)))
