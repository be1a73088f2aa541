-- ===== src/Sender/Poller/Polling.antt =====
-- internal/sender/poller.go, pollOnce: a poll as a whole, and the size of its window.
use influx_sync.Base.{
  ℕ, zero, suc, ◌*◌, ◌^◌, ◌≤◌, ◌<◌, ◌≡◌, ap, ◌∙◌, min, some, List, ltb, if◌then◌else◌, length,
  arith, ltb→ge, Bool-cases, inl, inr,
}
use native.Mathlib.Nat.{pow-suc}
use influx_sync.Protocol.{Compression}
use influx_sync.Wal.Queue.{Queue}
use influx_sync.Model.Rendering.{Point}
use influx_sync.Sender.Dedup.Evicting.{Added}
use influx_sync.Sender.Queries.{query_parallel}
use influx_sync.Sender.Poller.{Poller, Env, empty_skip_max_window, doubled_window, window_size}
use influx_sync.Sender.Poller.Window.{AreTimed}
use influx_sync.Sender.Poller.Advancing.{Polled}

two_pow-pos : (n : ℕ) → 0 < 2 ^ n
two_pow-pos zero = omega arith
two_pow-pos (suc n) = omega (arith, pow-suc 2 n, two_pow-pos n)

w_le_product : (w t : ℕ) → 0 < t → w ≤ w * t
w_le_product w zero h = absurd (omega arith)
w_le_product w (suc t) h = omega arith

doubled_window-min :
    (streak w : ℕ)
    → min (doubled_window streak w) empty_skip_max_window
      ≡ min (w * 2 ^ streak) empty_skip_max_window
unfolding doubled_window
doubled_window-min zero w = omega arith
doubled_window-min (suc n) w = elim (Bool-cases (ltb w empty_skip_max_window)) [
  | inl small ↦
      let product : w * 2 ^ suc n ≡ (w * 2) * 2 ^ n =
        omega (arith, ap (λ (t : ℕ). w * t) (pow-suc 2 n)) in
      rw (small, product) (doubled_window-min n (w * 2))
  | inr large ↦ rw (large) (
      let product = w_le_product w (2 ^ suc n) (two_pow-pos (suc n)) in
      omega (arith, ltb→ge w empty_skip_max_window large, product))
]

-- The window of a poll is the configured one, doubled once for each poll in a row that found too
-- little, but at most an hour.
pub window_size-min :
    (window streak : ℕ)
    → window_size window streak ≡ min (window * 2 ^ streak) empty_skip_max_window
unfolding window_size
window_size-min window streak =
    let w = doubled_window streak window in
    let capped : (if ltb empty_skip_max_window w then empty_skip_max_window else w)
        ≡ min w empty_skip_max_window =
      ground arith in
    capped ∙ doubled_window-min streak window

module _ (c : Compression) (typ : ℕ) (answers : ℕ → ℕ → List Point → Type 0) (added : Added)
    (env : Env) (most : ℕ)
    (honest : (n s e : ℕ) (ps : List Point)
      → query_parallel env.query n s e ≡ some ps
      → answers s e ps)
    (timed : (s e : ℕ) (ps : List Point) → answers s e ps → AreTimed ps × (length ps ≤ most)) where
  abbrev Result : Poller → Poller → Queue → Type 0
  Result p p' q = Polled c typ answers added p.wal p' q
