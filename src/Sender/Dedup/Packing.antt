-- ===== src/Sender/Dedup/Packing.antt =====
-- internal/sender/fastpath.go: an entry of the set determines the point's series number and time.
use influx_sync.Base.{
  ℕ, zero, suc, ◌+◌, ◌*◌, ◌/◌, ◌%◌, ◌^◌, ◌≤◌, ◌<◌, ◌≡◌, ap, ◌∙◌, max, arith, bit_or,
}
use native.Mathlib.Nat.{pow-suc}
use influx_sync.Sender.Dedup.{pack, second, second_of, offset_of}

-- The bits of a number alone.
bit_or-zero : (n a : ℕ) → a < 2 ^ n → bit_or n a 0 ≡ a
unfolding bit_or
bit_or-zero zero a h = omega arith
bit_or-zero (suc n) a h =
    let half : a / 2 < 2 ^ n = omega (arith, pow-suc 2 n, h) in
    omega (arith, bit_or-zero n (a / 2) half)

-- A number that is shifted past the bits of another.
bit_or-shifted :
    (k n a b : ℕ) → a < 2 ^ n → b < 2 ^ k → bit_or (k + n) (a * 2 ^ k) b ≡ a * 2 ^ k + b
unfolding bit_or
bit_or-shifted zero n a b ha hb =
    let none_b : b ≡ 0 = omega arith in
    let width : 0 + n ≡ n = omega arith in
    let whole : a * 2 ^ 0 ≡ a = omega arith in
    rw (none_b, width, whole) (bit_or-zero n a ha ∙ omega arith)
bit_or-shifted (suc k) n a b ha hb =
    let p : ℕ = a * 2 ^ k in
    let twice : a * 2 ^ suc k ≡ 2 * p = omega (arith, ap (λ (t : ℕ). a * t) (pow-suc 2 k)) in
    let width : suc k + n ≡ suc (k + n) = omega arith in
    let even : 2 * p % 2 ≡ 0 = omega arith in
    let half : 2 * p / 2 ≡ p = omega arith in
    let low : max 0 (b % 2) ≡ b % 2 = omega arith in
    rw (twice, width, even, half, low)
      (omega (arith, bit_or-shifted k n a (b / 2) ha (omega (arith, pow-suc 2 k, hb))))

pack-sum : (id offset : ℕ) → id < 2 ^ 34 → offset < 2 ^ 30 → pack id offset ≡ id * 2 ^ 30 + offset
unfolding pack
pack-sum id offset hi ho =
    let small : id * 2 ^ 30 % 2 ^ 64 ≡ id * 2 ^ 30 = omega arith in
    rw (small) (bit_or-shifted 30 34 id offset hi ho)

-- Times from 1970 to 2262.
abbrev pub IsNs : ℕ → Type 0
IsNs ts = (second ≤ ts) × (ts < 2 ^ 63)

pub offset-IsNs : (ts : ℕ) → IsNs ts → offset_of ts ≡ ts % second
unfolding offset_of second_of
offset-IsNs ts (lo, hi) = ground arith

-- A time that has the second of a time after 1970 is one itself.
pub second-IsNs : (ts t : ℕ) → IsNs t → ts < 2 ^ 64 → second_of ts ≡ second_of t → IsNs ts
unfolding second_of
second-IsNs ts t (lo, hi) small e = ground arith

-- An entry of a partition is that of one series and time only.
pub pack-injective :
    (id id' ts t : ℕ)
    → id < 2 ^ 34
    → id' < 2 ^ 34
    → IsNs ts
    → IsNs t
    → second_of ts ≡ second_of t
    → pack id (offset_of ts) ≡ pack id' (offset_of t)
    → (id ≡ id') × (ts ≡ t)
unfolding second_of
pack-injective id id' ts t hi hi' n m es e =
    let sums : id * 2 ^ 30 + ts % second ≡ id' * 2 ^ 30 + t % second =
      rw
        (
          offset-IsNs ts n,
          offset-IsNs t m,
          pack-sum id (ts % second) hi (omega arith),
          pack-sum id' (t % second) hi' (omega arith),
        )
        at e in
    let seconds : ts / second ≡ t / second = ground (arith, es) in
    (omega (arith, sums), omega (arith, sums, seconds))
