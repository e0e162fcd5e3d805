-- ===== src/Dom/SkipMap/Tests.antt =====
-- A skip map with two levels and the hashes 10 and 30, of which the first has both levels.
use xemeiah.Dom.SkipMap.Chains.{Represents, entries}
use xemeiah.Dom.SkipMap.Erase.{SearchErases, erase-Represents}
use xemeiah.Dom.SkipMap.Find.{Located, find_closest-Located}
use xemeiah.Dom.SkipMap.Insert.{Inserts, insert-Represents}
use xemeiah.Dom.SkipMap.Lookup.{value_at, lookup, insert-lookup}
use xemeiah.Dom.SkipMap.{
  SkMapItem, SkMap, Iterator, begin, reset, is_positionned, advance, find_closest, find_loop, round,
  descend, insert, insert_before_head, get_new_item_ptr, new_level, level_from, erase, erase_inner,
  erase_head, unlink_levels, steal_next, free_item, get_hash,
}
use xemeiah.Prelude.{
  ℕ, ◌≤◌, ◌≡◌, refl, true, false, [], ◌∷◌, some, none, ◌==◌, if◌then◌else◌, arith, assert_bug,
}

abbrev two_items : ℕ → SkMapItem
two_items p =
    if p == 32
    then record { level = 1; hash = 10; value = 100; next = λ l. if l == 0 then 64 else 0 }
    else record { level = 0; hash = 30; value = 300; next = λ l. 0 }

abbrev two_map : SkMap
two_map = record { head = 32; max_level = 2; probability = λ l. 128; item = two_items }

two_map-Represents : Represents two_map (32 ∷ 64 ∷ [])
two_map-Represents = (
  refl,
  refl,
  (
    omega arith,
    omega arith,
    omega arith,
    (λ l le. ground arith),
    (omega arith, _),
    (omega arith, omega arith, omega arith, (λ l le. refl), _, _),
  ),
)

find_closest-Located_example :
    (i : Iterator) × (find_closest 4 20 two_map ≡ some i) × Located two_map 20 (32 ∷ 64 ∷ []) i
find_closest-Located_example =
    find_closest-Located 4 20 two_map (32 ∷ 64 ∷ []) two_map-Represents (omega arith)

insert-Represents_example : Inserts 4 (λ n. 0) 96 20 200 two_map (32 ∷ 64 ∷ [])
insert-Represents_example =
    insert-Represents 4 (λ n. 0) 96 20 200 two_map (32 ∷ 64 ∷ []) (omega arith) two_map-Represents
      (omega arith, (omega arith, _)) (omega arith, omega arith, refl) (omega arith)

erase-Represents_example : SearchErases 4 64 two_map (32 ∷ 64 ∷ [])
erase-Represents_example =
    erase-Represents 4 64 two_map (32 ∷ 64 ∷ []) two_map-Represents refl (omega arith)

insert-lookup_example :
    (i : Iterator) × (m' : SkMap) × (i' : Iterator) × (n : ℕ) × (find_closest 4 20 two_map ≡ some i)
    × (insert (λ n. 0) 96 20 200 two_map i ≡ some (m', i'))
    × ((more k : ℕ)
        → n ≤ more
        → (j : Iterator) × (find_closest more k m' ≡ some j)
          × (value_at k m' j
              ≡ (if 20 == k then some 200 else lookup k (entries two_items (32 ∷ 64 ∷ [])))))
insert-lookup_example =
    insert-lookup 4 (λ n. 0) 96 20 200 two_map (32 ∷ 64 ∷ []) (omega arith) two_map-Represents
      (omega arith, (omega arith, _)) (omega arith, omega arith, refl) (omega arith)

-- After an insertion before the head the iterator stands nowhere.
insert_before_head_test :
    (elim (insert (λ n. 0) 96 5 50 two_map reset) [
      | none ↦ true
      | some (m', i') ↦ is_positionned i'
    ])
    ≡ false
unfolding insert insert_before_head get_new_item_ptr new_level level_from reset is_positionned
    assert_bug
insert_before_head_test = refl

-- The hash of the head after the search for 30, and then after an erasure there.
erase_test :
    (elim (find_closest 4 30 two_map) [
      | none ↦ none
      | some i ↦ elim (erase two_map i) [ none ↦ none | some (m', i') ↦ some ((m'.item 32).next 0) ]
    ])
    ≡ some 0
unfolding find_closest find_loop round descend erase erase_inner unlink_levels free_item assert_bug
erase_test = refl

erase_head_test :
    (elim (erase two_map (begin two_map)) [ none ↦ none | some (m', i') ↦ get_hash m' (begin m') ])
    ≡ some 30
unfolding begin erase erase_head steal_next free_item get_hash assert_bug
erase_head_test = refl

advance_test : get_hash two_map (advance two_map (begin two_map)) ≡ some 30
unfolding advance begin get_hash assert_bug
advance_test = refl
