-- ===== src/Wal/Segments.antt =====
-- The segment files of internal/wal as a list of numbered contents: what os.OpenFile with O_CREATE,
-- Write with O_APPEND, ReadAt, Truncate and os.Remove do to them.
use influx_sync.Base.{
  ℕ, zero, suc, ◌+◌, ◌≤◌, ◌≡◌, refl, ap, true, Option, none, some, List, [], ◌∷◌, ◌++◌, leb, ◌==◌,
  if◌then◌else◌, length, take, drop, arith, length-append, le→leb, drop-append, take-append,
}

abbrev pub Files : Type 0
Files = List (ℕ × List ℕ)

unfoldable pub content : ℕ → Files → Option (List ℕ)
content k [] = none
content k ((j, c) ∷ fs) = if j == k then some c else content k fs

-- O_CREATE: an existing file stays as it is.
unfoldable pub create : ℕ → Files → Files
create k [] = (k, []) ∷ []
create k ((j, c) ∷ fs) = if j == k then (j, c) ∷ fs else (j, c) ∷ create k fs

unfoldable pub append_to : ℕ → List ℕ → Files → Files
append_to k more [] = []
append_to k more ((j, c) ∷ fs) =
    if j == k then (j, c ++ more) ∷ fs else (j, c) ∷ append_to k more fs

unfoldable pub truncate : ℕ → ℕ → Files → Files
truncate k n [] = []
truncate k n ((j, c) ∷ fs) = if j == k then (j, take n c) ∷ fs else (j, c) ∷ truncate k n fs

unfoldable pub remove : ℕ → Files → Files
remove k [] = []
remove k ((j, c) ∷ fs) = let rest = remove k fs in if j == k then rest else (j, c) ∷ rest

-- ReadAt of `n` bytes: all of them, or an error.
unfoldable pub read_at : ℕ → ℕ → List ℕ → Option (List ℕ)
read_at off n c = if leb (off + n) (length c) then some (take n (drop off c)) else none

pub content-create :
    (k j : ℕ) (fs : Files)
    → content j (create k fs) ≡ (
        if k == j then (elim (content k fs) [ none ↦ some [] | some c ↦ some c ]) else content j fs)
unfolding content create
content-create k j [] = ground arith
content-create k j ((i, c) ∷ fs) = ground (arith, content-create k j fs)

pub content-append_to :
    (k j : ℕ) (more : List ℕ) (fs : Files)
    → content j (append_to k more fs) ≡ (
        if k == j
        then (elim (content k fs) [ none ↦ none | some c ↦ some (c ++ more) ])
        else content j fs)
unfolding content append_to
content-append_to k j more [] = ground arith
content-append_to k j more ((i, c) ∷ fs) = ground (arith, content-append_to k j more fs)

pub content-remove :
    (k j : ℕ) (fs : Files) → content j (remove k fs) ≡ (if k == j then none else content j fs)
unfolding content remove
content-remove k j [] = ground arith
content-remove k j ((i, c) ∷ fs) = ground (arith, content-remove k j fs)

pub take-append_short : (n : ℕ) (c more : List ℕ) → n ≤ length c → take n (c ++ more) ≡ take n c
take-append_short zero c more h = refl
take-append_short (suc n) [] more h = absurd (omega arith)
take-append_short (suc n) (x ∷ c) more h =
    ap (λ t. x ∷ t) (take-append_short n c more (omega arith))

-- What is read stays the same when the file grows.
read_at-append_ok :
    (off n : ℕ) (c more : List ℕ)
    → off + n ≤ length c
    → take n (drop off (c ++ more)) ≡ take n (drop off c)
read_at-append_ok zero n c more h = take-append_short n c more (omega arith)
read_at-append_ok (suc off) n [] more h = absurd (omega arith)
read_at-append_ok (suc off) n (x ∷ c) more h = read_at-append_ok off n c more (omega arith)

pub read_at-append :
    (off n : ℕ) (c more : List ℕ) {b : List ℕ}
    → read_at off n c ≡ some b
    → read_at off n (c ++ more) ≡ some b
unfolding read_at
read_at-append off n c more {b} h =
    ground (arith, length-append c more, read_at-append_ok off n c more)

pub drop-append_at : (c rest : List ℕ) (k : ℕ) → drop (length c + k) (c ++ rest) ≡ drop k rest
drop-append_at [] rest k = ap (λ (n : ℕ). drop n rest) (omega arith)
drop-append_at (x ∷ c) rest k =
    (let e : suc (length c) + k ≡ suc (length c + k) = omega arith in
      rw e (drop-append_at c rest k))

-- A record that was written at the end is read back, behind its head.
pub read_at-record :
    (c head body rest : List ℕ)
    → read_at (length c + length head) (length body) (c ++ (head ++ (body ++ rest))) ≡ some body
unfolding read_at
read_at-record c head body rest =
    let fits : leb (length c + length head + length body) (length (c ++ (head ++ (body ++ rest))))
        ≡ true =
      le→leb _ _ (
        omega (
          arith,
          length-append c (head ++ (body ++ rest)),
          length-append head (body ++ rest),
          length-append body rest,
        )) in
    rw (
      fits,
      drop-append_at c (head ++ (body ++ rest)) (length head),
      drop-append head (body ++ rest),
      take-append body rest,
    )
