-- ===== src/Influx/Rows/Columns.antt =====
-- internal/influx/client.go, seriesToPoints: the column of the time, and the orders that sorting gives.
use influx_sync.Base.{
  ℕ, suc, ◌≤◌, ◌<◌, ◌≡◌, inl, inr, refl, sym, ap, ◌∙◌, true, false, some, List, [], ◌∷◌, ◌==◌,
  ==_iff, if◌then◌else◌, if_both, length, All, All-map, Bool-cases, arith,
}
use mathlib.Core.Bool.{true≢false}
use mathlib.Core.Option.{none-ne-some, some-injective}
use influx_sync.Model.Rendering.{Bytes, keys, same, before, insert_sorted, sort_strings}
use influx_sync.Sender.Dedup.Evicting.{same_sound, same_refl}
use influx_sync.Influx.Rows.{time_column, time_index}
use influx_sync.Influx.Rows.Parts.{IsPart, whole-IsPart, AreDistinct}
use influx_sync.Influx.Rows.Adding.{IsTimed}

not_time : (c d : Bytes) → same c time_column ≡ true → same c d ≡ false → same d time_column ≡ false
not_time c d is other = elim (Bool-cases (same d time_column)) [
  | inl also ↦
      let one : c ≡ d = same_sound c time_column is ∙ sym (same_sound d time_column also) in
      absurd (true≢false (sym (ap (same c) (sym one) ∙ same_refl c) ∙ other))
  | inr fine ↦ fine
]

-- Behind the time column no other has its name.
behind_time :
    (time_idx i : ℕ) (cols : List Bytes)
    → time_idx < i
    → All (λ d. same d time_column ≡ false) cols
    → IsTimed time_idx i cols
behind_time time_idx i [] past none_named = tt
behind_time time_idx i (c ∷ cols) past none_named =
    (ground (arith, none_named.0), behind_time time_idx (suc i) cols (omega arith) none_named.1)

time_index-le : (i : ℕ) (cols : List Bytes) (t : ℕ) → time_index i cols ≡ some t → i ≤ t
unfolding time_index
time_index-le i [] t e = absurd (none-ne-some t e)
time_index-le i (c ∷ cols) t e = ground (arith, e, time_index-le (suc i) cols t)

pub time_index-IsTimed :
    (i : ℕ) (cols : List Bytes) (t : ℕ)
    → AreDistinct cols
    → time_index i cols ≡ some t
    → IsTimed t i cols
unfolding time_index
time_index-IsTimed i [] t distinct e = tt
time_index-IsTimed i (c ∷ cols) t distinct e = elim (Bool-cases (same c time_column)) [
  | inl is ↦
      let here : i ≡ t =
        some-injective _ _ (sym (ap (λ b. if b then some i else time_index (suc i) cols) is) ∙ e) in
      (
        ground (arith, is, here),
        behind_time t (suc i) cols (omega (arith, here))
            (All-map _ _ cols (λ d h. not_time c d is h) distinct.0),
      )
  | inr other ↦
      let rest : time_index (suc i) cols ≡ some t =
        sym (ap (λ b. if b then some i else time_index (suc i) cols) other) ∙ e in
      let past = time_index-le (suc i) cols t rest in
      (ground (arith, other, past), time_index-IsTimed (suc i) cols t distinct.1 rest)
]

length-insert_sorted : (s : Bytes) (xs : List Bytes) → length (insert_sorted s xs) ≡ suc (length xs)
unfolding insert_sorted
length-insert_sorted s [] = refl
length-insert_sorted s (x ∷ xs) =
    if_both (λ t. length t ≡ suc (suc (length xs))) (before x s) (x ∷ insert_sorted s xs)
      (s ∷ (x ∷ xs)) (λ h. omega (arith, length-insert_sorted s xs)) (λ h. refl)

length-sort_strings : (xs : List Bytes) → length (sort_strings xs) ≡ length xs
unfolding sort_strings
length-sort_strings [] = refl
length-sort_strings (x ∷ xs) =
    omega (arith, length-insert_sorted x (sort_strings xs), length-sort_strings xs)

length-keys {ℓ} : {V : Type ℓ} (m : List (Bytes × V)) → length (keys m) ≡ length m
length-keys [] = refl
length-keys ((k, v) ∷ m) = omega (arith, length-keys m)

none_sorted {ℓ} :
    {V : Type ℓ} (m : List (Bytes × V)) → (0 == length m) ≡ true → [] ≡ sort_strings (keys m)
unfolding sort_strings
none_sorted [] h = refl
none_sorted ((k, v) ∷ m) h = ground (arith, h)

-- The order that is taken for a map, from that of all columns.
pub ordered {ℓ} :
    {V : Type ℓ} (cols : List Bytes) (m : List (Bytes × V))
    → IsPart (keys m) cols
    → (let o = if length (sort_strings cols) == length m then sort_strings cols else [] in
        if length o == length m then o else sort_strings (keys m))
      ≡ sort_strings (keys m)
ordered cols m part =
    let sorted = sort_strings (keys m) in
    if_both (λ (o : List Bytes). (if length o == length m then o else sorted) ≡ sorted)
      (length (sort_strings cols) == length m) _ _
      (λ all.
        let count = (==_iff (length (sort_strings cols)) (length m)).0 all in
        let whole : keys m ≡ cols =
          whole-IsPart (keys m) cols part
            (omega (arith, count, length-sort_strings cols, length-keys m)) in
        if_both (λ (o : List Bytes). o ≡ sorted) (length (sort_strings cols) == length m) _ _
          (λ h. ap sort_strings (sym whole)) (λ h. refl))
      (λ some_left.
        if_both (λ (o : List Bytes). o ≡ sorted) (0 == length m) _ _ (λ h. none_sorted m h)
          (λ h. refl))
