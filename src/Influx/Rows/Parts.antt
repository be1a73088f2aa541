-- ===== src/Influx/Rows/Parts.antt =====
-- Lists of column names, and the names of a map that has grown.
use influx_sync.Base.{
  ◌≤◌, ◌≡◌, refl, ap, ◌∙◌, false, List, [], ◌∷◌, ◌++◌, if◌then◌else◌, length, store, All, arith,
}
use influx_sync.Model.Rendering.{Bytes, keys, same}

-- The names `ks` are some of `cs`, in their order.
pub data IsPart : List Bytes → List Bytes → Type 0 where
  none_of : (cs : List Bytes) → IsPart [] cs
  keep : (k : Bytes) (ks cs : List Bytes) → IsPart ks cs → IsPart (k ∷ ks) (k ∷ cs)
  skip : (c : Bytes) (ks cs : List Bytes) → IsPart ks cs → IsPart ks (c ∷ cs)

length-IsPart : (ks cs : List Bytes) → IsPart ks cs → length ks ≤ length cs
length-IsPart ks cs (none_of ds) = omega arith
length-IsPart ks cs (keep k ks' cs' h) = omega (arith, length-IsPart ks' cs' h)
length-IsPart ks cs (skip c ks' cs' h) = omega (arith, length-IsPart ks' cs' h)

pub whole-IsPart : (ks cs : List Bytes) → IsPart ks cs → length ks ≡ length cs → ks ≡ cs
whole-IsPart ks cs (none_of []) e = refl
whole-IsPart ks cs (none_of (c ∷ cs')) e = absurd (omega arith)
whole-IsPart ks cs (keep k ks' cs' h) e =
    ap (λ t. k ∷ t) (whole-IsPart ks' cs' h (omega (arith, e)))
whole-IsPart ks cs (skip c ks' cs' h) e = absurd (omega (arith, e, length-IsPart ks' cs' h))

-- A name that is none of `ks`.
abbrev pub IsNew : Bytes → List Bytes → Type 0
IsNew c = All (λ k. same k c ≡ false)

abbrev pub AreDistinct : List Bytes → Type 0
AreDistinct [] = Unit {0}
AreDistinct (c ∷ cs) = All (λ d. same c d ≡ false) cs × AreDistinct cs

pub keys-store {ℓ} :
    {V : Type ℓ} (k : Bytes) (v : V) (m : List (Bytes × V))
    → IsNew k (keys m)
    → keys (store same k v m) ≡ keys m ++ (k ∷ [])
unfolding store
keys-store k v [] new = refl
keys-store k v ((j, w) ∷ m) new =
    ap (λ b. keys (if b then (k, v) ∷ m else (j, w) ∷ store same k v m)) new.0
    ∙ ap (λ t. j ∷ t) (keys-store k v m new.1)
