-- ===== src/Bytes.antt =====
-- encoding/binary's BigEndian and slices, as internal/protocol and internal/wal use them. A byte
-- slice is a list of numbers.
use influx_sync.Base.{
  ℕ, zero, suc, ◌+◌, ◌-◌, ◌*◌, ◌/◌, ◌%◌, ◌^◌, ◌<◌, ◌≡◌, refl, List, [], ◌∷◌, arith, length, take,
  drop, All, IsByte, ap, ◌∙◌,
}
use native.Mathlib.Nat.{
  pow-suc, div-add-mod, div-div-eq-div-mul, mod-eq_of_lt, one-le-pow, add-mul-div_right, add_comm,
  div-eq_of_lt,
}
use mathlib.Core.Path.{ap₂}

-- The `n` bytes of PutUint16, PutUint32 and PutUint64 (n = 2, 4, 8), most significant first.
unfoldable pub put_uint : ℕ → ℕ → List ℕ
put_uint zero v = []
put_uint (suc n) v = (v / 256 ^ n % 256) ∷ put_uint n v

-- Uint16, Uint32 and Uint64 of the bytes, onto what was read before.
unfoldable pub read_uint : ℕ → List ℕ → ℕ
read_uint acc [] = acc
read_uint acc (b ∷ bs) = read_uint (acc * 256 + b) bs

-- buf[lo:hi], for hi ≤ len(buf)
abbrev pub slice : ℕ → ℕ → List ℕ → List ℕ
slice lo hi bs = take (hi - lo) (drop lo bs)

pub length-put_uint : (n v : ℕ) → length (put_uint n v) ≡ n
unfolding put_uint
length-put_uint zero v = refl
length-put_uint (suc n) v = ap suc (length-put_uint n v)

pub put_uint-IsByte : (n v : ℕ) → All IsByte (put_uint n v)
unfolding put_uint
put_uint-IsByte zero v = tt
put_uint-IsByte (suc n) v = (omega arith, put_uint-IsByte n v)

pub read_uint-put_uint : (n v acc : ℕ) → read_uint acc (put_uint n v) ≡ acc * 256 ^ n + v % 256 ^ n
unfolding read_uint put_uint
read_uint-put_uint zero v acc = omega arith
read_uint-put_uint (suc n) v acc = omega (
  arith,
  read_uint-put_uint n v (acc * 256 + v / 256 ^ n % 256),
  pow-suc 256 n,
  div-add-mod v (256 ^ n),
  ap (λ (t : ℕ). 256 ^ n * t) (div-add-mod (v / 256 ^ n) 256),
  div-add-mod v (256 ^ n * 256),
  ap (λ (t : ℕ). 256 ^ n * 256 * t) (div-div-eq-div-mul v (256 ^ n) 256),
  ap (λ (t : ℕ). v % t) (pow-suc 256 n),
  ap (λ (t : ℕ). acc * t) (pow-suc 256 n),
)

-- A value that fits `n` bytes is read back.
pub read-put_uint : (n v : ℕ) → v < 256 ^ n → read_uint 0 (put_uint n v) ≡ v
read-put_uint n v h = omega (arith, read_uint-put_uint n v 0, mod-eq_of_lt h)

read_uint-shift :
    (bs : List ℕ) (acc : ℕ) → read_uint acc bs ≡ acc * 256 ^ length bs + read_uint 0 bs
unfolding read_uint
read_uint-shift [] acc = omega arith
read_uint-shift (b ∷ bs) acc = omega (
  arith,
  read_uint-shift bs (acc * 256 + b),
  read_uint-shift bs (0 * 256 + b),
  pow-suc 256 (length bs),
  ap (λ (t : ℕ). acc * t) (pow-suc 256 (length bs)),
)

pub read_uint-lt : (bs : List ℕ) → All IsByte bs → read_uint 0 bs < 256 ^ length bs
unfolding read_uint
read_uint-lt [] h = omega arith
read_uint-lt (b ∷ bs) h =
    grind (arith, read_uint-shift bs (0 * 256 + b), read_uint-lt bs h.1, pow-suc 256 (length bs))

put_uint_mod : (n k v : ℕ) → put_uint n (k * 256 ^ n + v) ≡ put_uint n v
unfolding put_uint
put_uint_mod zero k v = refl
put_uint_mod (suc n) k v =
    let e : k * 256 ^ suc n + v ≡ v + (k * 256) * 256 ^ n =
      omega (arith, ap (λ (t : ℕ). k * t) (pow-suc 256 n)) in
    let q : (v + (k * 256) * 256 ^ n) / 256 ^ n ≡ v / 256 ^ n + k * 256 =
      add-mul-div_right v (k * 256) (one-le-pow n 256 (omega arith)) in
    let top : (v + (k * 256) * 256 ^ n) / 256 ^ n % 256 ≡ v / 256 ^ n % 256 = rw q (omega arith) in
    let low : put_uint n (v + (k * 256) * 256 ^ n) ≡ put_uint n v =
      rw (add_comm v ((k * 256) * 256 ^ n)) (put_uint_mod n (k * 256) v) in
    rw e (ap₂ ◌∷◌ top low)

-- The bytes that were read are written back.
pub put-read_uint : (bs : List ℕ) → All IsByte bs → put_uint (length bs) (read_uint 0 bs) ≡ bs
unfolding put_uint read_uint
put-read_uint [] h = refl
put-read_uint (b ∷ bs) h =
    let n = length bs in
    let r = read_uint 0 bs in
    let e : read_uint (0 * 256 + b) bs ≡ b * 256 ^ n + r =
      omega (arith, read_uint-shift bs (0 * 256 + b)) in
    let q : (r + b * 256 ^ n) / 256 ^ n ≡ r / 256 ^ n + b =
      add-mul-div_right r b (one-le-pow n 256 (omega arith)) in
    let z : r / 256 ^ n ≡ 0 = div-eq_of_lt (read_uint-lt bs h.1) in
    let top : (b * 256 ^ n + r) / 256 ^ n % 256 ≡ b =
      rw (add_comm (b * 256 ^ n) r, q, z) (omega arith) in
    rw e (ap₂ ◌∷◌ top (put_uint_mod n b r ∙ put-read_uint bs h.1))
