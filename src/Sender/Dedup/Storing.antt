-- ===== src/Sender/Dedup/Storing.antt =====
-- internal/sender/fastpath.go, Add: the point that is added and the ones that stay are sound.
use influx_sync.Base.{
  ℕ, ◌^◌, ◌<◌, ◌≡◌, sym, ap, ◌∙◌, true, ◌||◌, some, List, ◌∷◌, leb, ◌==◌, if◌then◌else◌, arith,
  sub64, leb→gt, if_both, ==_refl, lookup, store, has, insert, lookup-store, has-insert, Bool-cases,
  Option-cases, inl, inr, ◌⊎◌,
}
use mathlib.Core.Path.{subst}
use mathlib.Core.Option.{some-injective}
use mathlib.Core.List.{Memᴰ}
use mathlib.Core.List.Memᴰ as Memᴰ
use influx_sync.Model.Rendering.{Bytes, same}
use influx_sync.Sender.Dedup.{
  Dedup, same_number, evict, second_of, offset_of, pack, register, new_series, add_as, add, or_none,
}
use influx_sync.Sender.Dedup.Packing.{IsNs}
use influx_sync.Sender.Dedup.Evicting.{
  same_number_sound, same_sound, same_refl, Added, IsSound, evict-IsSound,
}

stored_entry :
    (s sec new packed : ℕ) (parts : List (ℕ × List ℕ)) (part : List ℕ)
    → lookup same_number sec
        (store same_number s (insert new (or_none (lookup same_number s parts))) parts)
      ≡ some part
    → has packed part ≡ true
    → ((sec ≡ s) × (packed ≡ new))
      ⊎ ((old : List ℕ) × (lookup same_number sec parts ≡ some old) × (has packed old ≡ true))
unfolding or_none has
stored_entry s sec new packed parts part h m =
    let held : List ℕ = or_none (lookup same_number s parts) in
    let found : (if same_number s sec then some (insert new held) else lookup same_number sec parts)
        ≡ some part =
      sym (lookup-store same_number same_number_sound ==_refl s sec (insert new held) parts) ∙ h in
    elim (Bool-cases (same_number s sec)) [
      | inr other ↦ inr (part, simp (other) at found, m)
      | inl here ↦
          let same_sec : s ≡ sec = same_number_sound s sec here in
          let whole : insert new held ≡ part = some-injective _ _ (simp (here) at found) in
          let either : (new == packed || has packed held) ≡ true =
            sym (has-insert new packed held) ∙ ap (has packed) whole ∙ m in
          elim (Bool-cases (new == packed)) [
            | inl new_one ↦ inl (sym same_sec, sym (same_number_sound new packed new_one))
            | inr old_one ↦ elim (Option-cases (lookup same_number s parts)) [
              | inl nothing ↦ absurd (ground (arith, either, old_one, nothing))
              | inr (old, there) ↦ inr (
                old,
                subst (λ t. lookup same_number t parts ≡ some old) same_sec there,
                ground (arith, either, old_one, there),
              )
            ]
          ]
    ]

-- A new point is registered under a number that stands for its series only.
register-IsSound :
    (d : Dedup) (key : Bytes) (id ts : ℕ) (added : Added)
    → IsSound d added
    → Memᴰ (key, ts) added
    → lookup same key d.series ≡ some id
    → IsSound (register d id ts) added
unfolding register
register-IsSound d key id ts added v listed named = record {
  limit = v.limit;
  times = v.times;
  known = v.known;
  distinct = v.distinct;
  entries = λ sec part packed h m.
      elim (stored_entry (second_of ts) sec (pack id (offset_of ts)) packed d.parts part h m) [
        | inl (at, it) ↦ record {
          key = key;
          ts = ts;
          id = id;
          listed = listed;
          its_second = at;
          its_entry = it;
          known = v.known key id named;
          alone = λ k e. v.distinct k key id e named;
        }
        | inr (old, there, in_old) ↦
            let o = v.entries sec old packed there in_old in
            record {
              key = o.key;
              ts = o.ts;
              id = o.id;
              listed = o.listed;
              its_second = o.its_second;
              its_entry = o.its_entry;
              known = o.known;
              alone = o.alone;
            }
      ];
}

stored_name :
    (k key : Bytes) (next id : ℕ) (m : List (Bytes × ℕ))
    → lookup same k (store same key next m) ≡ some id
    → ((k ≡ key) × (id ≡ next)) ⊎ (lookup same k m ≡ some id)
stored_name k key next id m h =
    let found : (if same key k then some next else lookup same k m) ≡ some id =
      sym (lookup-store same same_sound same_refl key k next m) ∙ h in
    elim (Bool-cases (same key k)) [
      | inl here ↦ inl (sym (same_sound key k here), sym (ground (arith, found, here)))
      | inr other ↦ inr (simp (other) at found)
    ]

new_series-IsSound :
    (d : Dedup) (key : Bytes) (added : Added)
    → IsSound d added
    → d.next_id < 2 ^ 34
    → IsSound (new_series d key) added
unfolding new_series
new_series-IsSound d key added v room = record {
  limit = omega arith;
  times = v.times;
  known = λ k id h. elim (stored_name k key d.next_id id d.series h) [
    | inl (_, e) ↦ omega (arith, e)
    | inr e ↦ omega (arith, v.known k id e)
  ];
  distinct = λ k k' id h h'. elim (stored_name k key d.next_id id d.series h) [
    | inl (e, n) ↦ elim (stored_name k' key d.next_id id d.series h') [
      | inl (e', _) ↦ e ∙ sym e'
      | inr e' ↦ absurd (omega (arith, n, v.known k' id e'))
    ]
    | inr e ↦ elim (stored_name k' key d.next_id id d.series h') [
      | inl (_, n) ↦ absurd (omega (arith, n, v.known k id e))
      | inr e' ↦ v.distinct k k' id e e'
    ]
  ];
  entries = λ sec part packed h m.
      let o = v.entries sec part packed h m in
      record {
        key = o.key;
        ts = o.ts;
        id = o.id;
        listed = o.listed;
        its_second = o.its_second;
        its_entry = o.its_entry;
        known = omega (arith, o.known);
        alone = λ k e. elim (stored_name k key d.next_id o.id d.series e) [
          | inl (_, e') ↦ absurd (omega (arith, o.known, e'))
          | inr e' ↦ o.alone k e'
        ];
      };
}

lookup-new_series :
    (d : Dedup) (key : Bytes) → lookup same key (new_series d key).series ≡ some d.next_id
unfolding new_series
lookup-new_series d key =
    let whole = lookup-store same same_sound same_refl key key d.next_id d.series in
    simp (same_refl key) at whole

pub IsSound-more :
    (d : Dedup) (key : Bytes) (ts : ℕ) (added : Added)
    → IsSound d added
    → IsNs ts
    → IsSound d ((key, ts) ∷ added)
IsSound-more d key ts added v ns = record {
  limit = v.limit;
  times = λ k t m. elim (Memᴰ.cases_cons m) [
    | inl e ↦ subst IsNs (sym (ap (λ (p : Bytes × ℕ). p.1) e)) ns
    | inr m' ↦ v.times k t m'
  ];
  known = v.known;
  distinct = v.distinct;
  entries = λ sec part packed h m.
      let o = v.entries sec part packed h m in
      record {
        key = o.key;
        ts = o.ts;
        id = o.id;
        listed = Memᴰ.tail o.listed;
        its_second = o.its_second;
        its_entry = o.its_entry;
        known = o.known;
        alone = o.alone;
      };
}

add_as-IsSound :
    (d : Dedup) (key : Bytes) (ts : ℕ) (added : Added)
    → IsSound d added
    → Memᴰ (key, ts) added
    → IsSound (add_as d key ts (lookup same key d.series)) added
unfolding add_as
add_as-IsSound d key ts added v listed = elim (Option-cases (lookup same key d.series)) [
  | inr (id, named) ↦ rw (named) (register-IsSound d key id ts added v listed named)
  | inl nothing ↦ rw (nothing) (
      if_both (λ d'. IsSound d' added) (leb (2 ^ 34) d.next_id) _ _ (λ full. v)
        (λ room.
          register-IsSound (new_series d key) key d.next_id ts added
            (new_series-IsSound d key added v (leb→gt _ _ room)) listed (lookup-new_series d key)))
]

pub add-IsSound :
    (d : Dedup) (now : ℕ) (key : Bytes) (ts : ℕ) (added : Added)
    → IsSound d added
    → Memᴰ (key, ts) added
    → IsSound (add d now key ts) added
unfolding add
add-IsSound d now key ts added v listed =
    add_as-IsSound (evict (sub64 now d.retention) d) key ts added (evict-IsSound _ d _ v) listed
