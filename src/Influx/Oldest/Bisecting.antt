-- ===== src/Influx/Oldest/Bisecting.antt =====
-- internal/influx/client.go, oldestByCountBinary: where the search by counting ends.
use influx_sync.Base.{
  ℕ, zero, suc, ◌+◌, ◌-◌, ◌*◌, ◌/◌, ◌^◌, ◌≤◌, ◌<◌, ◌≡◌, ◌≢◌, refl, sym, ap, ◌∙◌, true, false,
  Option, some, ltb, leb, ◌||◌, ◌&&◌, ◌==◌, le_int64, add64, sub64, div_int64, if◌then◌else◌,
  if_both, min, leb→le, le→leb, leb→gt, gt→leb, arith, Bool-cases, inl, inr,
}
use mathlib.Core.Bool.{true≢false}
use mathlib.Core.Path.{subst}
use native.Mathlib.Nat.{pow-suc, pow-le-pow_right, one-le-pow}
use influx_sync.Influx.Oldest.{
  hour, millisecond, shifted, span, Extent, counted, widen, halved, bisect, converge,
  oldest_by_count_binary,
}

length_back : (now d : ℕ) → now < 2 ^ 61 → d < 2 ^ 62 → sub64 now (sub64 now d) ≡ d
length_back now d small near = omega arith

-- The middle of the `d` nanoseconds before `now`.
middle :
    (now d : ℕ)
    → now < 2 ^ 61
    → d < 2 ^ 62
    → add64 (sub64 now d) (div_int64 (sub64 now (sub64 now d)) 2) ≡ sub64 now (d - d / 2)
middle now d small near =
    let half : add64 (sub64 now d) (div_int64 d 2) ≡ sub64 now (d - d / 2) = ground arith in
    ap (λ t. add64 (sub64 now d) (div_int64 t 2)) (length_back now d small near) ∙ half

sub64_within : (now d : ℕ) → now < 2 ^ 61 → d ≤ now → sub64 now d ≡ now - d
sub64_within now d small near = omega arith

le_int64_small : (a b : ℕ) → a < 2 ^ 63 → b < 2 ^ 63 → le_int64 a b ≡ leb a b
le_int64_small a b ha hb = ground arith

shifted_small : (i : ℕ) → i ≤ 21 → shifted i ≡ hour * 2 ^ i
unfolding shifted
shifted_small i h = omega (arith, pow-le-pow_right {n = 2} (omega arith) h)

span-min : (now i : ℕ) → i ≤ 21 → span now i ≡ min now (hour * 2 ^ i)
unfolding span
span-min now i h =
    let few : 2 ^ i ≤ 2 ^ 21 = pow-le-pow_right {n = 2} (omega arith) h in
    let one : 1 ≤ 2 ^ i = one-le-pow i 2 (omega arith) in
    ap (λ t. if le_int64 t 0 || ltb now t then now else t) (shifted_small i h)
    ∙ ap (λ b. if b || ltb now (hour * 2 ^ i) then now else hour * 2 ^ i)
        (le_int64_small (hour * 2 ^ i) 0 (omega (arith, few)) (omega arith)
          ∙ gt→leb (hour * 2 ^ i) 0 (omega (arith, one)))
    ∙ ground arith

module _ (count : ℕ → ℕ → Option ℕ) (now : ℕ) (points : ℕ → ℕ) (small : now < 2 ^ 61)
    (counts : (s : ℕ) → s ≤ now → count s now ≡ some (points s))
    (falls : (s t : ℕ) → s ≤ t → points t ≤ points s) where
  -- Where no middle has all points behind it, the interval is halved towards its end.
  bisect-now :
      (fuel total d reach : ℕ)
      → reach ≤ now
      → d ≤ 2 * reach
      → d ≤ 2 ^ fuel * millisecond
      → points (now - reach) < total
      → bisect count now (suc fuel) total (sub64 now d) now ≡ some now
  unfolding bisect halved
  bisect-now zero total d reach back twice rounds missing =
      let test : le_int64 (sub64 now (sub64 now d)) millisecond ≡ true =
        ap (λ t. le_int64 t millisecond) (length_back now d small (omega arith))
        ∙ le_int64_small d millisecond (omega arith) (omega arith)
        ∙ le→leb d millisecond (omega arith) in
      if_both (λ r. r ≡ some now) (le_int64 (sub64 now (sub64 now d)) millisecond) _ _
        (λ short. refl) (λ long. absurd (true≢false (sym test ∙ long)))
  bisect-now (suc fuel) total d reach back twice rounds missing =
      let left = d - d / 2 in
      let lo = sub64 now d in
      let mid = add64 lo (div_int64 (sub64 now lo) 2) in
      let at_mid : mid ≡ sub64 now left = middle now d small (omega arith) in
      let answer : count mid now ≡ some (points (now - left)) =
        ap (λ t. count t now) (at_mid ∙ sub64_within now left small (omega arith))
        ∙ counts (now - left) (omega arith) in
      let some_missing : leb total (points (now - left)) ≡ false =
        gt→leb total (points (now - left))
          (omega (arith, missing, falls (now - reach) (now - left) (omega arith))) in
      if_both (λ r. r ≡ some now) (le_int64 (sub64 now lo) millisecond) _ _ (λ short. refl)
        (λ long.
          ap (halved count now (bisect count now (suc fuel) total) total lo now mid) answer
          ∙ ap
              (λ b.
                bisect count now (suc fuel) total (if b then lo else mid) (if b then mid else now))
              some_missing
          ∙ ap (λ t. bisect count now (suc fuel) total t now) at_mid
          ∙ bisect-now fuel total left reach back (omega arith)
              (omega (arith, pow-suc 2 fuel, rounds)) missing)

  answer : (i : ℕ) → i ≤ 21 → count (sub64 now (span now i)) now ≡ some (points (now - span now i))
  answer i h =
      ap (λ t. count t now) (sub64_within now (span now i) small (omega (arith, span-min now i h)))
      ∙ counts (now - span now i) (omega arith)

  more : (i : ℕ) → suc i ≤ 21 → points (now - span now i) ≤ points (now - span now (suc i))
  more i h =
      falls (now - span now (suc i)) (now - span now i)
        (omega (arith, span-min now i (omega arith), span-min now (suc i) h, pow-suc 2 i))

  whole_span : (i : ℕ) → 20 ≤ i → i ≤ 21 → span now i ≡ now
  whole_span i late h =
      let many : 2 ^ 20 ≤ 2 ^ i = pow-le-pow_right {n = 2} (omega arith) late in
      omega (arith, small, many, span-min now i h)

  first_half :
      (j : ℕ)
      → j ≤ 19
      → points (now - span now j) < points (now - span now (suc j))
      → hour * 2 ^ j ≤ now
  first_half j h grows = elim (Bool-cases (leb (hour * 2 ^ j) now)) [
    | inl fits ↦ leb→le _ _ fits
    | inr past ↦
        let over = leb→gt (hour * 2 ^ j) now past in
        let here : span now j ≡ now = omega (arith, span-min now j (omega arith), over) in
        let next : span now (suc j) ≡ now =
          omega (arith, span-min now (suc j) (omega arith), over, pow-suc 2 j) in
        absurd
          (omega (arith, grows, ap (λ t. points (now - t)) here, ap (λ t. points (now - t)) next))
  ]

  last_round :
      (j : ℕ) → j ≡ 19 → points (now - span now (suc (suc j))) ≡ points (now - span now (suc j))
  last_round j last =
      ap (λ t. points (now - t))
        (whole_span (suc (suc j)) (omega arith) (omega arith)
          ∙ sym (whole_span (suc j) (omega arith) (omega arith)))

  -- The search from a window whose first half has a point.
  found_now :
      (j total : ℕ)
      → j ≤ 19
      → points (now - span now j) < total
      → points (now - span now j) < points (now - span now (suc j))
      → bisect count now 64 total (sub64 now (shifted (suc (suc j) - 1))) now ≡ some now
  found_now j total h missing grows =
      let reach = hour * 2 ^ j in
      let fits : reach ≤ now = first_half j h grows in
      let open_span : span now j ≡ reach = omega (arith, span-min now j (omega arith), fits) in
      let length : shifted (suc (suc j) - 1) ≡ 2 * reach =
        ap shifted (omega arith)
        ∙ shifted_small (suc j) (omega arith)
        ∙ omega (arith, pow-suc 2 j) in
      ap (λ t. bisect count now 64 total (sub64 now t) now) length
      ∙ bisect-now 63 total (2 * reach) reach fits (omega arith) (omega (arith, fits))
          (subst (λ t. points (now - t) < total) open_span missing)

  -- The rounds behind the one that found more than the one before it.
  widen-now :
      (left j : ℕ)
      → j ≤ 19
      → 20 ≤ j + left
      → points (now - span now j) < points (now - span now (suc j))
      → converge count now (widen count now left (suc (suc j)) (points (now - span now (suc j))))
        ≡ some now
  unfolding widen counted converge
  widen-now zero j end room grows = absurd (omega arith)
  widen-now (suc left) j end room grows =
      let i = suc (suc j) in
      let prev = points (now - span now (suc j)) in
      let cnt = points (now - span now i) in
      let widened = more (suc j) (omega arith) in
      ap (λ a. converge count now (counted count now (widen count now left (suc i)) i prev a))
        (answer i (omega arith))
      ∙ if_both (λ r. converge count now r ≡ some now) (cnt == 0 && leb 4 i) _ _
          (λ none_yet. absurd (ground (arith, none_yet, widened, grows)))
          (λ some_yet.
            if_both (λ r. converge count now r ≡ some now) ((ltb 0 cnt && ltb 0 i) && cnt == prev) _
              _ (λ found. found_now j cnt end (omega (arith, widened, grows)) grows)
              (λ wider.
                let new : cnt ≢ prev = λ e. absurd (ground (arith, wider, grows, e)) in
                let early : j < 19 = ground (arith, end, new, last_round j) in
                widen-now left (suc j) early (omega (arith, room)) (omega (arith, widened, new))))

  first_round :
      (next : ℕ → Option Extent) (prev cnt : ℕ)
      → counted count now next 0 prev (some cnt) ≡ next cnt
  unfolding counted
  first_round next prev cnt = ground arith

  second_round :
      (next : ℕ → Option Extent) (prev cnt : ℕ)
      → prev < cnt
      → counted count now next 1 prev (some cnt) ≡ next cnt
  unfolding counted
  second_round next prev cnt grows = ground arith

  -- Where a point is between one and two hours old, the search by counting ends at the time of the
  -- query, whatever is older. The count is that of the points from a time on.
  pub oldest_by_count_binary-now :
      2 * hour ≤ now
      → points (now - hour) < points (now - 2 * hour)
      → oldest_by_count_binary count now ≡ some now
  unfolding oldest_by_count_binary widen
  oldest_by_count_binary-now room grows =
      let here : span now 0 ≡ hour = omega (arith, span-min now 0 (omega arith), room) in
      let next : span now 1 ≡ 2 * hour = omega (arith, span-min now 1 (omega arith), room) in
      let prev = points (now - span now 0) in
      let more_points : prev < points (now - span now 1) =
        omega (arith, grows, ap (λ t. points (now - t)) here, ap (λ t. points (now - t)) next) in
      ap (λ a. converge count now (counted count now (widen count now 39 1) 0 (2 ^ 64 - 1) a))
        (answer 0 (omega arith))
      ∙ ap (converge count now) (first_round (widen count now 39 1) (2 ^ 64 - 1) prev)
      ∙ ap (λ a. converge count now (counted count now (widen count now 38 2) 1 prev a))
          (answer 1 (omega arith))
      ∙ ap (converge count now)
          (second_round (widen count now 38 2) prev (points (now - span now 1)) more_points)
      ∙ widen-now 38 0 (omega arith) (omega arith) more_points

  empty_round :
      (next : ℕ → Option Extent) (i prev : ℕ)
      → i < 4
      → counted count now next i prev (some 0) ≡ next 0
  unfolding counted
  empty_round next i prev early = ground arith

  none_counted :
      (i : ℕ)
      → i ≤ 4
      → 16 * hour ≤ now
      → points (now - 16 * hour) ≡ 0
      → count (sub64 now (span now i)) now ≡ some 0
  none_counted i early room none_since =
      let few : 2 ^ i ≤ 2 ^ 4 = pow-le-pow_right {n = 2} (omega arith) early in
      let within = span-min now i (omega (arith, early)) in
      let none_here : points (now - span now i) ≡ 0 = omega (
        arith,
        none_since,
        falls (now - 16 * hour) (now - span now i) (omega (arith, within, few, room)),
      ) in
      answer i (omega (arith, early)) ∙ ap some none_here

  -- Where no point is from the last 16 hours, the search by counting answers 0, which stands for an
  -- empty database, whatever is older.
  pub oldest_by_count_binary-zero :
      16 * hour ≤ now → points (now - 16 * hour) ≡ 0 → oldest_by_count_binary count now ≡ some 0
  unfolding oldest_by_count_binary widen counted
  oldest_by_count_binary-zero room none_since =
      let start = 2 ^ 64 - 1 in
      let quiet = λ (i : ℕ) (h : i ≤ 4). none_counted i h room none_since in
      let pass = λ (left i prev : ℕ) (h : i < 4).
        ap (counted count now (widen count now left (suc i)) i prev) (quiet i (omega (arith, h)))
        ∙ empty_round (widen count now left (suc i)) i prev h in
      ap (converge count now) (
        pass 39 0 start (omega arith)
        ∙ pass 38 1 0 (omega arith)
        ∙ pass 37 2 0 (omega arith)
        ∙ pass 36 3 0 (omega arith)
        ∙ ap (counted count now (widen count now 35 5) 4 0) (quiet 4 (omega arith)))
