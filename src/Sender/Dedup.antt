-- ===== src/Sender/Dedup.antt =====
-- internal/sender/fastpath.go, fastDedup: the set of the points that the fast path has forwarded, by
-- seconds, with a number for each series.
pub mod Packing
pub mod Evicting
pub mod Storing
pub mod Sound
use influx_sync.Base.{
  ℕ, zero, suc, ◌+◌, ◌-◌, ◌*◌, ◌/◌, ◌%◌, ◌^◌, Bool, true, false, not, Option, none, some, List, [],
  ◌∷◌, ltb, leb, ◌==◌, le_int64, if◌then◌else◌, max, length, lookup, store, discard, has, insert,
  sub64, div_int64, bit_or,
}
use influx_sync.Model.Rendering.{Bytes, same}

abbrev pub second : ℕ
second = 1000000000

-- A second and an offset in it are int64 values, by their bit patterns.
pub record Dedup : Type 0 where
  pub series : List (Bytes × ℕ)
  pub id_name : List (ℕ × Bytes)
  pub id_refs : List (ℕ × ℕ)
  pub next_id : ℕ
  pub parts : List (ℕ × List ℕ)
  pub retention : ℕ
  pub cursor_ns : ℕ

abbrev pub same_number : ℕ → ℕ → Bool
same_number a b = a == b

-- newFastDedup; a retention that is not positive is 15 seconds.
unfoldable pub new_dedup : ℕ → Dedup
new_dedup retention = record {
  series = [];
  id_name = [];
  id_refs = [];
  next_id = 0;
  parts = [];
  retention = (if le_int64 retention 0 then 15 * second else retention);
  cursor_ns = 0;
}

unfoldable pub id_of : ℕ → ℕ
id_of packed = packed / 2 ^ 30

unfoldable pub or_zero : Option ℕ → ℕ
or_zero none = 0
or_zero (some n) = n

-- The series and the name of a number that no entry refers to.
unfoldable pub forget_name : Dedup → ℕ → Option Bytes → Dedup
forget_name d id none = record d { id_refs = discard same_number id d.id_refs }
forget_name d id (some name) = record d {
  series = discard same name d.series;
  id_name = discard same_number id d.id_name;
  id_refs = discard same_number id d.id_refs;
}

-- One entry less for its series.
unfoldable pub drop_ref : Dedup → ℕ → Dedup
unfolding or_zero forget_name
drop_ref d packed =
    let id = id_of packed in
    let refs = or_zero (lookup same_number id d.id_refs) in
    if ltb 1 refs
    then record d { id_refs = store same_number id (refs - 1) d.id_refs }
    else forget_name d id (lookup same_number id d.id_name)

unfoldable pub drop_refs : Dedup → List ℕ → Dedup
drop_refs d [] = d
drop_refs d (packed ∷ rest) = drop_refs (drop_ref d packed) rest

-- The loop of evictLocked over the partitions `ps`.
unfoldable pub evict_parts : ℕ → List (ℕ × List ℕ) → Dedup → Dedup
evict_parts cut [] d = d
evict_parts cut ((sec, part) ∷ ps) d =
    let dropped = drop_refs d part in
    evict_parts cut ps (
      if le_int64 cut sec
      then d
      else record dropped { parts = discard same_number sec dropped.parts })

unfoldable pub evict : ℕ → Dedup → Dedup
evict cut_ns d = evict_parts (div_int64 cut_ns second) d.parts d

unfoldable pub set_cursor : Dedup → ℕ → Dedup
set_cursor d cursor_ns = evict (sub64 cursor_ns d.retention) (record d { cursor_ns = cursor_ns })

unfoldable pub second_of : ℕ → ℕ
second_of ts = div_int64 ts second

unfoldable pub offset_of : ℕ → ℕ
unfolding second_of
offset_of ts = sub64 ts (second_of ts * second % 2 ^ 64)

-- id<<30 | uint64(offset)
unfoldable pub pack : ℕ → ℕ → ℕ
pack id offset = bit_or 64 (id * 2 ^ 30 % 2 ^ 64) offset

unfoldable pub or_none : Option (List ℕ) → List ℕ
or_none none = []
or_none (some part) = part

-- The entry of a point whose series has the number `id`; it is counted the first time.
unfoldable pub register : Dedup → ℕ → ℕ → Dedup
unfolding or_none or_zero
register d id ts =
    let sec = second_of ts in
    let part = or_none (lookup same_number sec d.parts) in
    let packed = pack id (offset_of ts) in
    record d {
      parts = store same_number sec (insert packed part) d.parts;
      id_refs =
          (if has packed part
            then d.id_refs
            else store same_number id (or_zero (lookup same_number id d.id_refs) + 1) d.id_refs);
    }

unfoldable pub new_series : Dedup → Bytes → Dedup
new_series d key = record d {
  series = store same key d.next_id d.series;
  id_name = store same_number d.next_id key d.id_name;
  next_id = d.next_id + 1;
}

-- With 2 ^ 34 series the point is not registered.
unfoldable pub add_as : Dedup → Bytes → ℕ → Option ℕ → Dedup
add_as d key ts (some id) = register d id ts
add_as d key ts none =
    if leb (2 ^ 34) d.next_id then d else register (new_series d key) d.next_id ts

unfoldable pub add : Dedup → ℕ → Bytes → ℕ → Dedup
add d now key ts =
    let kept = evict (sub64 now d.retention) d in add_as kept key ts (lookup same key kept.series)

-- The loop of ServeHTTP over the points: registered in order, at the `n`th reading of the clock and
-- those after.
unfoldable pub add_keys : (ℕ → ℕ) → ℕ → List (Bytes × ℕ) → Dedup → Dedup
add_keys clock n [] d = d
add_keys clock n ((key, ts) ∷ keys) d = add_keys clock (n + 1) keys (add d (clock n) key ts)

unfoldable pub in_part : ℕ → Option (List ℕ) → Bool
in_part packed none = false
in_part packed (some part) = has packed part

unfoldable pub contains_as : Dedup → ℕ → Option ℕ → Bool
unfolding in_part
contains_as d ts none = false
contains_as d ts (some id) =
    in_part (pack id (offset_of ts)) (lookup same_number (second_of ts) d.parts)

unfoldable pub contains : Dedup → Bytes → ℕ → Bool
unfolding contains_as
contains d key ts = contains_as d ts (lookup same key d.series)

sum_parts : List (ℕ × List ℕ) → ℕ
sum_parts [] = 0
sum_parts ((sec, part) ∷ ps) = length part + sum_parts ps

-- Len
unfoldable pub size : Dedup → ℕ
unfolding sum_parts
size d = sum_parts d.parts
