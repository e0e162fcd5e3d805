-- ===== src/Dom/SkipMap.antt =====
-- Skip maps: `SKMapRef::iterator` of dom/skmapref-iterator.cpp and dom/skmapref.hpp, on the items of
-- include/Xemeiah/kern/format/skmap.h. An item has a `next` at every level up to its own; 0 is
-- NullPtr. `none` is a failed check. The pointer that the allocator gives to a new item and the values
-- of `rand` are arguments.
pub mod Chains
pub mod Find
pub mod Frame
pub mod Insert
pub mod HeadInsertion
pub mod InnerInsertion
pub mod Insertion
pub mod Link
pub mod Lookup
pub mod Walk
pub mod HeadErasure
pub mod Erase
pub mod Erasure
pub mod Position
pub mod Splicing
pub mod Unlink
mod Tests
use xemeiah.Prelude.{
  ℕ, zero, suc, ◌+◌, ◌-◌, ◌%◌, Bool, true, false, not, ◌&&◌, ◌||◌, Option, none, some, ◌==◌, leb,
  ltb, if◌then◌else◌, assert_bug, update,
}

pub record SkMapItem : Type 0 where
  pub level : ℕ
  pub hash : ℕ
  pub value : ℕ
  pub next : ℕ → ℕ

-- The header with its configuration, and the items by their pointers.
pub record SkMap : Type 0 where
  pub head : ℕ
  pub max_level : ℕ
  pub probability : ℕ → ℕ
  pub item : ℕ → SkMapItem

-- In the source the trace has 64 pointers, and `max_level` is 32.
pub record Iterator : Type 0 where
  pub current : ℕ
  pub trace : ℕ → ℕ

unfoldable pub reset : Iterator
reset = record { current = 0; trace = λ l. 0 }

-- The constructor of an iterator.
unfoldable pub begin : SkMap → Iterator
unfolding reset
begin m = record reset { current = m.head }

unfoldable pub is_positionned : Iterator → Bool
is_positionned i = not (i.current == 0)

unfoldable pub get_hash : SkMap → Iterator → Option ℕ
unfolding assert_bug
get_hash m i = assert_bug (not (i.current == 0)) (some (m.item i.current).hash)

unfoldable pub get_value : SkMap → Iterator → Option ℕ
unfolding assert_bug
get_value m i = assert_bug (not (i.current == 0)) (some (m.item i.current).value)

abbrev pub alter_item : ℕ → (SkMapItem → SkMapItem) → SkMap → SkMap
alter_item p f m = record m { item = update m.item p (f (m.item p)) }

unfoldable pub set_value : ℕ → SkMap → Iterator → SkMap
set_value value m i = alter_item i.current (λ s. record s { value = value }) m

-- operator++, which leaves the trace.
unfoldable pub advance : SkMap → Iterator → Iterator
advance m i = record i { current = (m.item i.current).next 0 }

-- One round of the loop of `findClosest`: it ends, or goes on at a level and an item.
pub data Round : Type 0 where
  failed : Round
  found : Iterator → Round
  walk : (level current : ℕ) → (trace : ℕ → ℕ) → Round

-- With no next item before the hash, the trace gets the item, and the level goes down.
unfoldable pub descend : ℕ → ℕ → SkMap → (level current : ℕ) → (ℕ → ℕ) → Round
descend last hash m level current trace =
    if level == 0
    then found (record { current = last; trace = update trace level current })
    else walk (level - 1) current (update trace level current)

unfoldable pub round : ℕ → SkMap → (level current : ℕ) → (ℕ → ℕ) → Round
unfolding descend
round hash m level current trace =
    let here = m.item current in
    let next = here.next level in
    if not (current % 32 == 0) || not (ltb here.level m.max_level)
    then failed
    else if here.hash == hash
    then (if level == 0 then found (record { current = current; trace = trace }) else failed)
    else if not (leb here.hash hash) || not (leb level here.level)
    then failed
    else if next == 0
    then descend current hash m level current trace
    else if leb hash (m.item next).hash
    then descend (if (m.item next).hash == hash then next else current) hash m level current trace
    else walk level next trace

unfoldable pub find_loop : ℕ → ℕ → SkMap → (level current : ℕ) → (ℕ → ℕ) → Option Iterator
unfolding round
find_loop zero hash m level current trace = none
find_loop (suc fuel) hash m level current trace = elim (round hash m level current trace) [
  | failed ↦ none
  | found i ↦ some i
  | walk level' current' trace' ↦ find_loop fuel hash m level' current' trace'
]

unfoldable pub find_closest : ℕ → ℕ → SkMap → Option Iterator
unfolding find_loop
find_closest fuel hash m =
    if m.head == 0
    then some (record { current = 0; trace = λ l. 0 })
    else if (m.item m.head).hash == hash
    then some (record { current = m.head; trace = λ l. 0 })
    else if ltb hash (m.item m.head).hash
    then some (record { current = 0; trace = λ l. 0 })
    else find_loop fuel hash m (m.max_level - 1) m.head (λ l. 0)

-- The loop that rolls the level of a new item; the n-th call of `rand` is `rand n`.
unfoldable pub level_from : (rand probability : ℕ → ℕ) → (left level : ℕ) → ℕ
level_from rand probability zero level = level
level_from rand probability (suc left) level =
    let rest = level_from rand probability left (suc level) in
    if leb (rand level % 256) (probability level) then rest else level

unfoldable pub new_level : (ℕ → ℕ) → SkMap → ℕ
unfolding level_from
new_level rand m = level_from rand m.probability (m.max_level - 1) 0

-- `getNewItemPtr`, which puts the item at the new pointer.
unfoldable pub get_new_item_ptr : (p level hash value : ℕ) → SkMap → SkMap
get_new_item_ptr p level hash value m = record m {
  item = update m.item p (record { level = level; hash = hash; value = value; next = λ l. 0 });
}

-- The first head gets the highest level.
unfoldable pub insert_first : (p hash value : ℕ) → SkMap → SkMap
unfolding get_new_item_ptr
insert_first p hash value m = record (get_new_item_ptr p (m.max_level - 1) hash value m) {
  head = p;
}

-- The head is recycled for the new entry, and the new item gets what the head had.
unfoldable pub insert_before_head : (p level hash value : ℕ) → SkMap → SkMap
unfolding get_new_item_ptr
insert_before_head p level hash value m =
    let head = m.item m.head in
    let m₁ = get_new_item_ptr p level head.hash head.value m in
    let m₂ =
      alter_item p (λ s. record s { next = λ l. if leb l level then head.next l else s.next l })
        m₁ in
    alter_item m.head
      (λ s. record s {
        hash = hash;
        value = value;
        next = λ l. if leb l level then p else s.next l;
      })
      m₂

-- The new item between the item of the trace and the one behind it, at one level.
abbrev pub link_level : (p before level : ℕ) → SkMap → SkMap
link_level p before level m =
    let after = (m.item before).next level in
    alter_item p (λ s. record s { next = update s.next level after })
      (alter_item before (λ s. record s { next = update s.next level p }) m)

-- The loop over the levels, from `level` on.
unfoldable pub link_levels : (p hash : ℕ) → (ℕ → ℕ) → (left level : ℕ) → SkMap → Option SkMap
unfolding assert_bug
link_levels p hash trace zero level m = some m
link_levels p hash trace (suc left) level m =
    assert_bug (not (trace level == 0) && ltb (m.item (trace level)).hash hash)
      (link_levels p hash trace left (suc level) (link_level p (trace level) level m))

-- `insert`. After an insertion before the head the iterator is what it was: the source assigns a
-- local variable.
unfoldable pub insert : (ℕ → ℕ) → (p hash value : ℕ) → SkMap → Iterator → Option (SkMap × Iterator)
unfolding assert_bug link_levels insert_first insert_before_head get_new_item_ptr new_level
insert rand p hash value m i =
    let level = new_level rand m in
    let here = m.item i.current in
    if i.current == 0
    then (if m.head == 0
        then some (insert_first p hash value m, record i { current = p })
        else assert_bug (ltb hash (m.item m.head).hash)
            (some (insert_before_head p level hash value m, i)))
    else assert_bug
        (ltb here.hash hash && ((here.next 0 == 0) || ltb hash (m.item (here.next 0)).hash))
        (elim (link_levels p hash i.trace (level + 1) 0 (get_new_item_ptr p level hash value m)) [
          | none ↦ none
          | some m' ↦ some (m', record i { current = p })
        ])

-- `erase` of the head: it takes over the item behind it, which is the one that is freed.
unfoldable pub steal_next : (q : ℕ) → (left level : ℕ) → SkMap → Option SkMap
unfolding assert_bug
steal_next q zero level m = some m
steal_next q (suc left) level m = assert_bug ((m.item m.head).next level == q) (
    steal_next q left (suc level)
      (alter_item m.head (λ s. record s { next = update s.next level ((m.item q).next level) }) m))

-- The loop that takes the item out at each of its levels.
unfoldable pub unlink_levels : (q : ℕ) → (ℕ → ℕ) → (left level : ℕ) → SkMap → Option SkMap
unfolding assert_bug
unlink_levels q trace zero level m = some m
unlink_levels q trace (suc left) level m =
    let item = m.item (trace level) in
    assert_bug (not (trace level == 0) && (leb level item.level && (item.next level == q))) (
      unlink_levels q trace left (suc level) (
        alter_item (trace level)
          (λ s. record s { next = update s.next level ((m.item q).next level) }) m))

-- The item is set to 0 and its segment freed.
unfoldable pub free_item : ℕ → SkMap → SkMap
free_item q m = record m {
  item = update m.item q (record { level = 0; hash = 0; value = 0; next = λ l. 0 });
}

-- The result has the map and the pointer to free.
unfoldable pub erase_head : SkMap → Option (SkMap × ℕ)
unfolding steal_next
erase_head m =
    let q = (m.item m.head).next 0 in
    if q == 0
    then some (record m { head = 0 }, m.head)
    else elim (steal_next q ((m.item q).level + 1) 0 m) [
      | none ↦ none
      | some m' ↦ some (
        alter_item m.head (λ s. record s { hash = (m.item q).hash; value = (m.item q).value }) m',
        q,
      )
    ]

unfoldable pub erase_inner : SkMap → Iterator → Option (SkMap × ℕ)
unfolding unlink_levels
erase_inner m i = elim (unlink_levels i.current i.trace ((m.item i.current).level + 1) 0 m) [
  | none ↦ none
  | some m' ↦ some (m', i.current)
]

-- `erase`; with no current item it is not implemented. Afterwards the iterator stands nowhere.
unfoldable pub erase : SkMap → Iterator → Option (SkMap × Iterator)
unfolding erase_head erase_inner free_item
erase m i =
    if i.current == 0
    then none
    else elim (if m.head == i.current then erase_head m else erase_inner m i) [
      | none ↦ none
      | some (m', q) ↦ some (free_item q m', record i { current = 0 })
    ]
