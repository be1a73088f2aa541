-- ===== src/Sender/Queries/Boundary.antt =====
-- internal/sender/poller.go: boundarySet contains what was added to it.
use influx_sync.Base.{
  ◌≡◌, refl, ap, ◌⊎◌, inl, inr, true, Option, none, some, List, [], ◌∷◌, map, ltb, if_both, length,
  All, All-map, All-append, false, arith,
}
use mathlib.Core.Path.{subst}
use mathlib.Core.List.{Memᴰ}
use mathlib.Core.List.Memᴰ as Memᴰ
use influx_sync.Model.Rendering.{Bytes, Point, same, point_key}
use influx_sync.Sender.Dedup.Evicting.{same_refl}
use influx_sync.Sender.Queries.{
  points_equal, BoundarySet, empty_set, with_key, add_point, any_equal, any_same, in_big,
  contains_point, add_all, fresh, boundary_linear_limit,
}

-- A point that equals itself, as one without NaN does.
abbrev pub IsRegular : Point → Type 0
IsRegular p = points_equal p p ≡ true

-- Where a set keeps a point.
abbrev pub Keeps : BoundarySet → Point → Type 0
Keeps s p = Memᴰ p s.small ⊎ (in_big s.big (point_key p) ≡ true)

any_equal-Memᴰ : (p : Point) (qs : List Point) → IsRegular p → Memᴰ p qs → any_equal qs p ≡ true
unfolding any_equal
any_equal-Memᴰ p [] regular m = elim m [ ]
any_equal-Memᴰ p (q ∷ qs) regular (Memᴰ.head h) =
    let first = subst (λ t. points_equal t p ≡ true) h regular in ground (arith, first)
any_equal-Memᴰ p (q ∷ qs) regular (Memᴰ.tail m) = ground (arith, any_equal-Memᴰ p qs regular m)

pub any_same-Memᴰ :
    (p : Point) (qs : List Point) → Memᴰ p qs → any_same (map point_key qs) (point_key p) ≡ true
unfolding any_same
any_same-Memᴰ p [] m = elim m [ ]
any_same-Memᴰ p (q ∷ qs) (Memᴰ.head h) =
    let first = subst (λ t. same (point_key t) (point_key p) ≡ true) h (same_refl (point_key p)) in
    ground (arith, first)
any_same-Memᴰ p (q ∷ qs) (Memᴰ.tail m) = ground (arith, any_same-Memᴰ p qs m)

pub contains_point-Keeps :
    (s : BoundarySet) (p : Point) → IsRegular p → Keeps s p → contains_point s p ≡ true
unfolding contains_point
contains_point-Keeps s p regular (inl m) = ground (arith, any_equal-Memᴰ p s.small regular m)
contains_point-Keeps s p regular (inr h) = ground (arith, h)

key_same : (p q : Point) → p ≡ q → same (point_key q) (point_key p) ≡ true
key_same p q e = subst (λ t. same (point_key t) (point_key p) ≡ true) e (same_refl (point_key p))

with_key-Keeps :
    (s : BoundarySet) (p q : Point)
    → Keeps s p ⊎ (p ≡ q)
    → (big : Option (List Bytes)) → s.big ≡ big
    → Keeps (with_key s (point_key q) big) p
unfolding with_key in_big any_same
with_key-Keeps s p q (inl (inl m)) none h = inr (ground (arith, any_same-Memᴰ p s.small m))
with_key-Keeps s p q (inl (inr k)) none h =
    inr (ground (arith, k, ap (λ b. in_big b (point_key p)) h))
with_key-Keeps s p q (inr e) none h = inr (ground (arith, key_same p q e))
with_key-Keeps s p q (inl (inl m)) (some big) h = inl m
with_key-Keeps s p q (inl (inr k)) (some big) h =
    inr (ground (arith, k, ap (λ b. in_big b (point_key p)) h))
with_key-Keeps s p q (inr e) (some big) h = inr (ground (arith, key_same p q e))

add_point-Keeps : (s : BoundarySet) (p q : Point) → Keeps s p ⊎ (p ≡ q) → Keeps (add_point s q) p
unfolding add_point
add_point-Keeps s p q either =
    if_both (λ r. Keeps r p) (ltb (length s.small) boundary_linear_limit) _ _
      (λ few. elim either [
        | inl (inl m) ↦ inl (Memᴰ.append_left (q ∷ []) m)
        | inl (inr k) ↦ inr k
        | inr e ↦ inl (Memᴰ.append_right s.small (Memᴰ.head e))
      ])
      (λ many. with_key-Keeps s p q either s.big refl)

pub add_all-Keeps :
    (ps : List Point) (s : BoundarySet) (p : Point) → Keeps s p ⊎ Memᴰ p ps → Keeps (add_all s ps) p
unfolding add_all
add_all-Keeps [] s p (inl k) = k
add_all-Keeps [] s p (inr m) = elim m [ ]
add_all-Keeps (q ∷ ps) s p (inl k) =
    add_all-Keeps ps (add_point s q) p (inl (add_point-Keeps s p q (inl k)))
add_all-Keeps (q ∷ ps) s p (inr (Memᴰ.head e)) =
    add_all-Keeps ps (add_point s q) p (inl (add_point-Keeps s p q (inr e)))
add_all-Keeps (q ∷ ps) s p (inr (Memᴰ.tail m)) = add_all-Keeps ps (add_point s q) p (inr m)

fresh_none :
    (s : BoundarySet) (ps : List Point) → All (λ p. contains_point s p ≡ true) ps → fresh s ps ≡ []
unfolding fresh
fresh_none s [] all = refl
fresh_none s (p ∷ ps) all = ground (arith, all.0, fresh_none s ps all.1)

pub listed : (P : Point → Type 0) (ps : List Point) → All P ps → All (λ p. P p × Memᴰ p ps) ps
listed P [] all = tt
listed P (p ∷ ps) all = (
  (all.0, Memᴰ.head refl),
  All-map _ _ ps (λ x both. (both.0, Memᴰ.tail both.1)) (listed P ps all.1),
)

pub add_all-contains :
    (ps : List Point)
    → All IsRegular ps
    → All (λ p. contains_point (add_all empty_set ps) p ≡ true) ps
add_all-contains ps regular =
    All-map _ _ ps
      (λ p (m : IsRegular p × Memᴰ p ps).
        contains_point-Keeps (add_all empty_set ps) p m.0 (add_all-Keeps ps empty_set p (inr m.1)))
      (listed IsRegular ps regular)

-- A point of a list is not fresh for the set of the list.
pub fresh-add_all : (ps : List Point) → All IsRegular ps → fresh (add_all empty_set ps) ps ≡ []
fresh-add_all ps regular = fresh_none (add_all empty_set ps) ps (add_all-contains ps regular)

-- Two points that neither the comparison nor the keys take for one.
abbrev pub AreApart : Point → Point → Type 0
AreApart p q = (points_equal p q ≡ false) × (same (point_key p) (point_key q) ≡ false)

-- A set that was never given anything like a point.
abbrev Lacks : BoundarySet → Point → Type 0
Lacks s q = All (λ p. AreApart p q) s.small × (in_big s.big (point_key q) ≡ false)

any_equal-apart :
    (q : Point) (ps : List Point) → All (λ p. AreApart p q) ps → any_equal ps q ≡ false
unfolding any_equal
any_equal-apart q [] h = refl
any_equal-apart q (p ∷ ps) h = ground (arith, h.0.0, any_equal-apart q ps h.1)

pub any_same-apart :
    (q : Point) (ps : List Point)
    → All (λ p. AreApart p q) ps
    → any_same (map point_key ps) (point_key q) ≡ false
unfolding any_same
any_same-apart q [] h = refl
any_same-apart q (p ∷ ps) h = ground (arith, h.0.1, any_same-apart q ps h.1)

with_key-Lacks :
    (s : BoundarySet) (q p : Point)
    → AreApart p q
    → Lacks s q
    → (big : Option (List Bytes)) → in_big big (point_key q) ≡ false
    → Lacks (with_key s (point_key p) big) q
unfolding with_key in_big any_same
with_key-Lacks s q p apart h none none_there =
    (tt, ground (arith, apart.1, any_same-apart q s.small h.0))
with_key-Lacks s q p apart h (some big) there = (h.0, ground (arith, apart.1, there))

add_all-Lacks :
    (ps : List Point) (s : BoundarySet) (q : Point)
    → All (λ p. AreApart p q) ps
    → Lacks s q
    → Lacks (add_all s ps) q
unfolding add_all add_point
add_all-Lacks [] s q apart h = h
add_all-Lacks (p ∷ ps) s q apart h = add_all-Lacks ps (add_point s p) q apart.1 (
    if_both (λ r. Lacks r q) (ltb (length s.small) boundary_linear_limit) _ _
      (λ few. (All-append _ s.small (p ∷ []) h.0 (apart.0, tt), h.1))
      (λ many. with_key-Lacks s q p apart.0 h s.big h.1))

-- The set of a list does not contain what is apart from it.
pub contains_point-apart :
    (ps : List Point) (q : Point)
    → All (λ p. AreApart p q) ps
    → contains_point (add_all empty_set ps) q ≡ false
unfolding contains_point in_big
contains_point-apart ps q apart =
    let h = add_all-Lacks ps empty_set q apart (tt, refl) in
    let s = add_all empty_set ps in ground (arith, any_equal-apart q s.small h.0, h.1)
