-- ===== src/Sender/Backoff.antt =====
-- internal/sender/sender.go: the closed form of backoff.
use influx_sync.Base.{
  ℕ, zero, suc, ◌*◌, ◌%◌, ◌^◌, ◌≤◌, ◌<◌, ◌≡◌, refl, sym, leb, le_int64, if◌then◌else◌, arith, tests,
  inl, inr, Bool-cases, leb→gt,
}
use influx_sync.Sender.{SenderConfig, doubled, backoff}

-- 2 to the n, by recursion.
abbrev pub doublings : ℕ → ℕ → ℕ
doublings zero d = d
doublings (suc n) d = doublings n (d * 2)

doublings-up : (n d : ℕ) → d ≤ doublings n d
doublings-up zero d = omega arith
doublings-up (suc n) d = omega (arith, doublings-up n (d * 2))

-- `a` where it is at most `max`, and `max` otherwise.
abbrev pub capped : ℕ → ℕ → ℕ
capped max a = if leb a max then a else max

-- Values below 2 ^ 63 are compared as they are.
small_le : (a b : ℕ) → a < 2 ^ 63 → b < 2 ^ 63 → le_int64 a b ≡ leb a b
small_le a b ha hb = ground arith

capped_at : (max a : ℕ) → max ≤ a → capped max a ≡ max
capped_at max a h = ground arith

-- One doubling and the rest of the loop, whose value below the cap is given.
doubling-capped :
    (max n d : ℕ)
    → d < 2 ^ 62
    → max < 2 ^ 62
    → (d * 2 < max → doubled max n (d * 2) ≡ capped max (doublings n (d * 2)))
    → doubled max (suc n) d ≡ capped max (doublings (suc n) d)
unfolding doubled
doubling-capped max n d small max_small rest =
    let same : d * 2 % 2 ^ 64 ≡ d * 2 = omega arith in
    let test : le_int64 max (d * 2) ≡ leb max (d * 2) =
      small_le max (d * 2) (omega arith) (omega arith) in
    elim (Bool-cases (leb max (d * 2))) [
      | inl over ↦
          let up : d * 2 ≤ doublings n (d * 2) = doublings-up n (d * 2) in
          let top : capped max (doublings n (d * 2)) ≡ max =
            capped_at max (doublings n (d * 2)) (omega (tests, over, up)) in
          simp (same, test, over) (sym top)
      | inr under ↦ simp (same, test, under) (rest (leb→gt max (d * 2) under))
    ]

below-capped : (max n d : ℕ) → d < max → max < 2 ^ 62 → doubled max n d ≡ capped max (doublings n d)
unfolding doubled
below-capped max zero d under small = ground arith
below-capped max (suc n) d under small =
    doubling-capped max n d (omega arith) small (λ below. below-capped max n (d * 2) below small)

-- The pause before retry n is nothing for the first try, the base for the first retry, and for each
-- later one the base doubled n - 1 times, at most the cap. Base and cap are below 2 ^ 62 ns.
pub backoff-capped :
    (cfg : SenderConfig)
    → cfg.backoff_base < 2 ^ 62
    → cfg.backoff_max < 2 ^ 62
    → (backoff cfg 0 ≡ 0)
      × (backoff cfg 1 ≡ cfg.backoff_base)
      × ((n : ℕ)
          → backoff cfg (suc (suc n)) ≡ capped cfg.backoff_max (doublings (suc n) cfg.backoff_base))
unfolding backoff doubled
backoff-capped cfg base_small max_small = (
  refl,
  refl,
  λ n.
      doubling-capped cfg.backoff_max n cfg.backoff_base base_small max_small
        (λ below. below-capped cfg.backoff_max n (cfg.backoff_base * 2) below max_small),
)
