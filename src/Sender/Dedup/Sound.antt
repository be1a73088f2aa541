-- ===== src/Sender/Dedup/Sound.antt =====
-- internal/sender/fastpath.go, fastDedup: every point that the set contains was added to it.
use influx_sync.Base.{
  ℕ, ◌+◌, ◌^◌, ◌<◌, ◌≡◌, refl, ap, ◌∙◌, true, some, [], ◌∷◌, arith, All, ◌++◌, lookup, has,
  Option-cases, inl, inr,
}
use mathlib.Core.Option.{none-ne-some}
use mathlib.Core.List.{Memᴰ}
use mathlib.Core.List.Memᴰ as Memᴰ
use influx_sync.Model.Rendering.{Bytes, same}
use influx_sync.Sender.Dedup.{
  Dedup, same_number, second_of, offset_of, pack, add, in_part, add_keys, contains_as, contains,
  new_dedup,
}
use influx_sync.Sender.Dedup.Packing.{IsNs, second-IsNs, pack-injective}
use influx_sync.Sender.Dedup.Evicting.{Added, IsSound}
use influx_sync.Sender.Dedup.Storing.{IsSound-more, add-IsSound}

-- An entry behind the registration of `new` in the partition `s`: it is the new one, or an old one.

IsSound-append :
    (d : Dedup) (keys added : Added)
    → IsSound d added
    → All (λ k. IsNs k.1) keys
    → IsSound d (keys ++ added)
IsSound-append d [] added v ns = v
IsSound-append d ((key, ts) ∷ keys) added v (n, ns) =
    IsSound-more d key ts (keys ++ added) (IsSound-append d keys added v ns) n

add_listed :
    (clock : ℕ → ℕ) (n : ℕ) (keys added : Added) (d : Dedup)
    → IsSound d added
    → ((key : Bytes) (ts : ℕ) → Memᴰ (key, ts) keys → Memᴰ (key, ts) added)
    → IsSound (add_keys clock n keys d) added
unfolding add_keys
add_listed clock n [] added d v sub = v
add_listed clock n ((key, ts) ∷ keys) added d v sub =
    add_listed clock (n + 1) keys added (add d (clock n) key ts)
      (add-IsSound d (clock n) key ts added v (sub key ts (Memᴰ.head refl)))
      (λ k t m. sub k t (Memᴰ.tail m))

-- Adding points with times from 1970 to 2262 keeps the set sound, with these points among the added.
pub add_keys-IsSound :
    (clock : ℕ → ℕ) (n : ℕ) (keys added : Added) (d : Dedup)
    → IsSound d added
    → All (λ k. IsNs k.1) keys
    → IsSound (add_keys clock n keys d) (keys ++ added)
add_keys-IsSound clock n keys added d v ns =
    add_listed clock n keys (keys ++ added) d (IsSound-append d keys added v ns)
      (λ k t m. Memᴰ.append_left added m)

pub new_dedup-IsSound : (retention : ℕ) → IsSound (new_dedup retention) []
unfolding new_dedup lookup
new_dedup-IsSound retention = record {
  limit = omega arith;
  times = λ k t m. absurd (Memᴰ.not-nil m);
  known = λ k id h. absurd (none-ne-some _ h);
  distinct = λ k k' id h h'. absurd (none-ne-some _ h);
  entries = λ sec part packed h m. absurd (none-ne-some _ h);
}

-- A point that the set contains was added.
pub contains-added :
    (d : Dedup) (key : Bytes) (ts : ℕ) (added : Added)
    → IsSound d added
    → ts < 2 ^ 64
    → contains d key ts ≡ true
    → Memᴰ (key, ts) added
unfolding contains contains_as in_part
contains-added d key ts added v small hit = elim (Option-cases (lookup same key d.series)) [
  | inl nothing ↦ absurd (ground (arith, hit, nothing))
  | inr (id, named) ↦ elim (Option-cases (lookup same_number (second_of ts) d.parts)) [
    | inl nothing ↦ absurd (ground (arith, hit, named, nothing))
    | inr (part, there) ↦
        let held : has (pack id (offset_of ts)) part ≡ true = ground (arith, hit, named, there) in
        let o = v.entries (second_of ts) part (pack id (offset_of ts)) there held in
        let its_time : IsNs o.ts = v.times o.key o.ts o.listed in
        let this_time : IsNs ts = second-IsNs ts o.ts its_time small o.its_second in
        let (ids, times) =
          pack-injective id o.id ts o.ts (omega (arith, v.limit, v.known key id named))
            (omega (arith, v.limit, o.known)) this_time its_time o.its_second o.its_entry in
        let keys : key ≡ o.key = o.alone key (named ∙ ap some ids) in
        Memᴰ.cast (λ i. (keys i, times i)) o.listed
  ]
]
