-- ===== src/Dom/SkipMap/Lookup.antt =====
-- Reading a skip map: `findClosest`, then the hash and the value of the iterator.
use xemeiah.Dom.SkipMap.Chains.{
  Items, Above, Linked, Represents, entries, last_below, last_below-Above,
}
use xemeiah.Dom.SkipMap.Find.{find_closest-Located}
use xemeiah.Dom.SkipMap.Frame.{insert_entry, Absent}
use xemeiah.Dom.SkipMap.HeadInsertion.{Fresh}
use xemeiah.Dom.SkipMap.Insert.{insert-Represents}
use xemeiah.Dom.SkipMap.{SkMap, Iterator, find_closest, insert, get_value}
use xemeiah.Prelude.{
  ℕ, ◌+◌, ◌≤◌, ◌<◌, ◌≡◌, refl, ◌≢◌, ◌&&◌, List, [], ◌∷◌, Option, none, some, ◌==◌, leb, ltb,
  if◌then◌else◌, arith, length, assert_bug, ap, ◌∙◌, Bool-cases, inl, inr, ltb→lt,
}

-- The value of the hash in the entries.
unfoldable pub lookup : ℕ → List (ℕ × ℕ) → Option ℕ
lookup hash [] = none
lookup hash ((h, v) ∷ l) = if h == hash then some v else lookup hash l

-- The value of the iterator, if it stands at the hash.
unfoldable pub value_at : ℕ → SkMap → Iterator → Option ℕ
unfolding get_value
value_at hash m i =
    if i.current == 0 then none else if (m.item i.current).hash == hash then get_value m i else none

lookup-Above :
    (item : Items) (hash bound : ℕ) (ps : List ℕ)
    → hash ≤ bound
    → Above item bound ps
    → lookup hash (entries item ps) ≡ none
unfolding lookup
lookup-Above item hash bound [] le above = refl
lookup-Above item hash bound (q ∷ qs) le (less, above) =
    ground (arith, lookup-Above item hash bound qs le above)

abbrev value_of : Items → (hash q : ℕ) → Option ℕ
value_of item hash q =
    if q == 0 then none else if (item q).hash == hash then some (item q).value else none

abbrev pick : Items → (hash q b : ℕ) → ℕ
pick item hash q b = if leb 0 (item q).level && ltb (item q).hash (hash + 1) then q else b

Represents-Linked : (m : SkMap) (ps : List ℕ) → Represents m ps → Linked m.item m.max_level ps
Represents-Linked m [] r = _
Represents-Linked m (p ∷ ps) (e, top, linked) = linked

value_at-value_of :
    (hash : ℕ) (m : SkMap) (i : Iterator) → value_at hash m i ≡ value_of m.item hash i.current
unfolding value_at get_value assert_bug
value_at-value_of hash m i = ground arith

-- From an item that is not behind the hash the last item that is not behind it has what the entries
-- have.
last_below-lookup :
    (item : Items) (max_level hash b : ℕ) (ps : List ℕ)
    → Linked item max_level ps
    → (b ≢ 0 → (item b).hash < hash)
    → value_of item hash (last_below item 0 (hash + 1) b ps) ≡ lookup hash (entries item ps)
unfolding lookup
last_below-lookup item max_level hash b [] linked less = ground arith
last_below-lookup item max_level hash b (q ∷ qs) (ne, aligned, small, chains, sorted, rest) less =
    elim (Bool-cases ((item q).hash == hash)) [
      | inl here ↦
          let picked : pick item hash q b ≡ q = ground arith in
          let found : last_below item 0 (hash + 1) (pick item hash q b) qs ≡ q =
            ap (λ (c : ℕ). last_below item 0 (hash + 1) c qs) picked
            ∙ last_below-Above item 0 (hash + 1) (item q).hash q qs (ground arith) sorted in
          ap (value_of item hash) found ∙ ground arith
      | inr other ↦ elim (Bool-cases (ltb (item q).hash hash)) [
        | inl near ↦
            let picked : pick item hash q b ≡ q = ground arith in
            ap (λ (c : ℕ). value_of item hash (last_below item 0 (hash + 1) c qs)) picked
            ∙ last_below-lookup item max_level hash q qs rest (λ n. ltb→lt (item q).hash hash near)
            ∙ rw other refl
        | inr far ↦
            let skipped : pick item hash q b ≡ b = ground arith in
            ap (λ (c : ℕ). value_of item hash (last_below item 0 (hash + 1) c qs)) skipped
            ∙ last_below-lookup item max_level hash b qs rest less
            ∙ rw other refl
      ]
    ]

-- `findClosest` stands at the hash just if an item has it, and then at its value.
find_closest-lookup :
    (fuel hash : ℕ) (m : SkMap) (ps : List ℕ)
    → Represents m ps
    → m.max_level + length ps ≤ fuel
    → (i : Iterator) × (find_closest fuel hash m ≡ some i)
      × (value_at hash m i ≡ lookup hash (entries m.item ps))
unfolding value_at get_value
find_closest-lookup fuel hash m ps r enough =
    let (i, run, at) = find_closest-Located fuel hash m ps r enough in
    (
      i,
      run,
      value_at-value_of hash m i
          ∙ ap (value_of m.item hash) at.current
          ∙ last_below-lookup m.item m.max_level hash 0 ps (Represents-Linked m ps r)
              (λ n. absurd (n refl)),
    )

lookup-insert_entry :
    (hash value k : ℕ) (l : List (ℕ × ℕ))
    → lookup hash l ≡ none
    → lookup k (insert_entry hash value l) ≡ (if hash == k then some value else lookup k l)
unfolding lookup insert_entry
lookup-insert_entry hash value k [] absent = refl
lookup-insert_entry hash value k ((h, v) ∷ l) absent =
    ground (arith, lookup-insert_entry hash value k l)

lookup-Absent :
    (item : Items) (hash : ℕ) (ps : List ℕ)
    → Absent item hash ps
    → lookup hash (entries item ps) ≡ none
unfolding lookup
lookup-Absent item hash [] absent = refl
lookup-Absent item hash (q ∷ qs) (differ, absent) =
    ground (arith, lookup-Absent item hash qs absent)

-- After `findClosest` and `insert` of a hash that no item has, a search with enough fuel gives the new
-- value at that hash, and what it gave before at every other.
pub insert-lookup :
    (fuel : ℕ) (rand : ℕ → ℕ) (p hash value : ℕ) (m : SkMap) (ps : List ℕ)
    → 0 < m.max_level
    → Represents m ps
    → Absent m.item hash ps
    → Fresh p ps
    → m.max_level + length ps ≤ fuel
    → (i : Iterator) × (m' : SkMap) × (i' : Iterator) × (n : ℕ) × (find_closest fuel hash m
        ≡ some i)
      × (insert rand p hash value m i ≡ some (m', i'))
      × ((more k : ℕ)
          → n ≤ more
          → (j : Iterator) × (find_closest more k m' ≡ some j)
            × (value_at k m' j ≡ (if hash == k then some value else lookup k (entries m.item ps))))
insert-lookup fuel rand p hash value m ps pos r absent fresh enough =
    let (i, m', i', find, run, done) =
      insert-Represents fuel rand p hash value m ps pos r absent fresh enough in
    (
      i,
      m',
      i',
      m'.max_level + length done.items,
      find,
      run,
      λ more k le.
          let (j, found, at) = find_closest-lookup more k m' done.items done.represents le in
          (
            j,
            found,
            at
                ∙ ap (lookup k) done.contents
                ∙ lookup-insert_entry hash value k (entries m.item ps)
                    (lookup-Absent m.item hash ps absent),
          ),
    )
