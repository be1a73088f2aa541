-- ===== src/Sender/Dedup/Evicting.antt =====
-- internal/sender/fastpath.go, fastDedup: what the set's entries stand for, which eviction keeps.
use influx_sync.Base.{
  ℕ, ◌^◌, ◌≤◌, ◌<◌, ◌≡◌, refl, ◌∙◌, true, Option, none, some, List, [], ◌∷◌, le_int64,
  if◌then◌else◌, arith, ltb, if_both, ==_refl, lookup, discard, has, lookup-discard,
}
use mathlib.Core.Bool.{false≢true}
use mathlib.Core.List.{Memᴰ}
use influx_sync.Model.Rendering.{Bytes, same}
use influx_sync.Sender.Dedup.{
  Dedup, same_number, id_of, forget_name, drop_ref, drop_refs, evict_parts, evict, set_cursor,
  second_of, offset_of, pack, or_zero,
}
use influx_sync.Sender.Dedup.Packing.{IsNs}

pub same_number_sound : (a b : ℕ) → same_number a b ≡ true → a ≡ b
same_number_sound a b h = ground arith

pub same_sound : (a b : Bytes) → same a b ≡ true → a ≡ b
unfolding same
same_sound [] [] h = refl
same_sound [] (d ∷ t) h = absurd (false≢true h)
same_sound (c ∷ s) [] h = absurd (false≢true h)
same_sound (c ∷ s) (d ∷ t) h =
    let first : c ≡ d = ground (arith, h) in
    let rest : same s t ≡ true = ground (arith, h) in λ i. first i ∷ same_sound s t rest i

pub same_refl : (a : Bytes) → same a a ≡ true
unfolding same
same_refl [] = refl
same_refl (c ∷ s) = rw (==_refl c, same_refl s) refl

-- The points that were added, with their series.
abbrev pub Added : Type 0
Added = List (Bytes × ℕ)

-- An entry stands for a point that was added, and its number for no other series.
pub record Origin (d : Dedup) (added : Added) (sec packed : ℕ) : Type 0 where
  pub key : Bytes
  pub ts : ℕ
  pub id : ℕ
  pub listed : Memᴰ (key, ts) added
  pub its_second : sec ≡ second_of ts
  pub its_entry : packed ≡ pack id (offset_of ts)
  pub known : id < d.next_id
  pub alone : (k : Bytes) → lookup same k d.series ≡ some id → k ≡ key

pub record IsSound (d : Dedup) (added : Added) : Type 0 where
  pub limit : d.next_id ≤ 2 ^ 34
  pub times : (key : Bytes) (ts : ℕ) → Memᴰ (key, ts) added → IsNs ts
  pub known : (k : Bytes) (id : ℕ) → lookup same k d.series ≡ some id → id < d.next_id
  pub distinct :
      (k k' : Bytes) (id : ℕ)
      → lookup same k d.series ≡ some id
      → lookup same k' d.series ≡ some id
      → k ≡ k'
  pub entries :
      (sec : ℕ) (part : List ℕ) (packed : ℕ)
      → lookup same_number sec d.parts ≡ some part
      → has packed part ≡ true
      → Origin d added sec packed

-- `d'` has no series and no entry that `d` does not have.
record Shrinks (d d' : Dedup) : Type 0 where
  next : d'.next_id ≡ d.next_id
  names :
      (k : Bytes) (id : ℕ) → lookup same k d'.series ≡ some id → lookup same k d.series ≡ some id
  places :
      (sec : ℕ) (part : List ℕ)
      → lookup same_number sec d'.parts ≡ some part
      → lookup same_number sec d.parts ≡ some part

Shrinks-refl : (d : Dedup) → Shrinks d d
Shrinks-refl d = record { next = refl; names = λ k id h. h; places = λ sec part h. h }

Shrinks-trans : (a b c : Dedup) → Shrinks a b → Shrinks b c → Shrinks a c
Shrinks-trans a b c x y = record {
  next = y.next ∙ x.next;
  names = λ k id h. x.names k id (y.names k id h);
  places = λ sec part h. x.places sec part (y.places sec part h);
}

IsSound-Shrinks : (d d' : Dedup) (added : Added) → Shrinks d d' → IsSound d added → IsSound d' added
IsSound-Shrinks d d' added s v = record {
  limit = omega (arith, s.next, v.limit);
  times = v.times;
  known = λ k id h. omega (arith, s.next, v.known k id (s.names k id h));
  distinct = λ k k' id h h'. v.distinct k k' id (s.names k id h) (s.names k' id h');
  entries = λ sec part packed h m.
      let o = v.entries sec part packed (s.places sec part h) m in
      record {
        key = o.key;
        ts = o.ts;
        id = o.id;
        listed = o.listed;
        its_second = o.its_second;
        its_entry = o.its_entry;
        known = omega (arith, s.next, o.known);
        alone = λ k e. o.alone k (s.names k o.id e);
      };
}

lookup-discard-some :
    (k j : Bytes) (id : ℕ) (m : List (Bytes × ℕ))
    → lookup same j (discard same k m) ≡ some id
    → lookup same j m ≡ some id
lookup-discard-some k j id m h = ground (arith, lookup-discard same same_sound same_refl k j m, h)

forget_name-Shrinks : (d : Dedup) (id : ℕ) (name : Option Bytes) → Shrinks d (forget_name d id name)
unfolding forget_name
forget_name-Shrinks d id none = record {
  next = refl;
  names = λ k id h. h;
  places = λ sec part h. h;
}
forget_name-Shrinks d id (some name) = record {
  next = refl;
  names = λ k id h. lookup-discard-some name k id d.series h;
  places = λ sec part h. h;
}

drop_ref-Shrinks : (d : Dedup) (packed : ℕ) → Shrinks d (drop_ref d packed)
unfolding drop_ref
drop_ref-Shrinks d packed =
    if_both (Shrinks d) (ltb 1 (or_zero (lookup same_number (id_of packed) d.id_refs))) _ _
      (λ more. record { next = refl; names = λ k id h. h; places = λ sec part h. h })
      (λ last. forget_name-Shrinks d (id_of packed) (lookup same_number (id_of packed) d.id_name))

drop_refs-Shrinks : (part : List ℕ) (d : Dedup) → Shrinks d (drop_refs d part)
unfolding drop_refs
drop_refs-Shrinks [] d = Shrinks-refl d
drop_refs-Shrinks (packed ∷ rest) d =
    Shrinks-trans d (drop_ref d packed) _ (drop_ref-Shrinks d packed)
      (drop_refs-Shrinks rest (drop_ref d packed))

drop_part-Shrinks :
    (sec : ℕ) (d : Dedup) → Shrinks d (record d { parts = discard same_number sec d.parts })
drop_part-Shrinks sec d = record {
  next = refl;
  names = λ k id h. h;
  places = λ j part h.
      ground (arith, lookup-discard same_number same_number_sound ==_refl sec j d.parts, h);
}

evict_parts-Shrinks :
    (cut : ℕ) (ps : List (ℕ × List ℕ)) (d : Dedup) → Shrinks d (evict_parts cut ps d)
unfolding evict_parts
evict_parts-Shrinks cut [] d = Shrinks-refl d
evict_parts-Shrinks cut ((sec, part) ∷ ps) d =
    let dropped = drop_refs d part in
    let next =
      if le_int64 cut sec
      then d
      else record dropped { parts = discard same_number sec dropped.parts } in
    Shrinks-trans d next _
      (if_both (Shrinks d) (le_int64 cut sec) _ _ (λ kept. Shrinks-refl d)
        (λ old.
          Shrinks-trans d dropped _ (drop_refs-Shrinks part d) (drop_part-Shrinks sec dropped)))
      (evict_parts-Shrinks cut ps next)

pub evict-IsSound :
    (cut_ns : ℕ) (d : Dedup) (added : Added) → IsSound d added → IsSound (evict cut_ns d) added
unfolding evict
evict-IsSound cut_ns d added = IsSound-Shrinks d _ added (evict_parts-Shrinks _ d.parts d)

pub set_cursor-IsSound :
    (d : Dedup) (cursor_ns : ℕ) (added : Added)
    → IsSound d added
    → IsSound (set_cursor d cursor_ns) added
unfolding set_cursor
set_cursor-IsSound d cursor_ns added v =
    evict-IsSound _ (record d { cursor_ns = cursor_ns }) added
      (record {
        limit = v.limit;
        times = v.times;
        known = v.known;
        distinct = v.distinct;
        entries = λ sec part packed h m.
            let o = v.entries sec part packed h m in
            record {
              key = o.key;
              ts = o.ts;
              id = o.id;
              listed = o.listed;
              its_second = o.its_second;
              its_entry = o.its_entry;
              known = o.known;
              alone = o.alone;
            };
      })
