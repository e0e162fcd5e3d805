-- ===== src/Dom/SkipMap/Insert.antt =====
-- `findClosest` and `insert`, against a sorted list of entries.
use xemeiah.Dom.SkipMap.Chains.{
  Items, Above, Above-trans, Linked, Represents, entries, last_below, last_below-Above,
}
use xemeiah.Dom.SkipMap.Find.{find_closest-Located, last_below-head}
use xemeiah.Dom.SkipMap.Frame.{insert_entry, Absent}
use xemeiah.Dom.SkipMap.HeadInsertion.{Fresh, Inserted, first-Inserted, before_head-Inserted}
use xemeiah.Dom.SkipMap.InnerInsertion.{inner-Represents}
use xemeiah.Dom.SkipMap.Splicing.{insert_item}
use xemeiah.Dom.SkipMap.{
  SkMap, Iterator, find_closest, level_from, new_level, get_new_item_ptr, insert_first,
  insert_before_head, link_levels, insert,
}
use xemeiah.Prelude.{
  ℕ, zero, suc, ◌+◌, ◌-◌, ◌≤◌, ◌<◌, ◌≡◌, refl, ◌≢◌, true, false, ◌&&◌, ◌||◌, List, [], ◌∷◌, some,
  ◌==◌, leb, ltb, if◌then◌else◌, arith, length, assert_bug-true, subst, sym, ap, ◌∙◌, Bool-cases,
  inl, inr, ltb→lt,
}

level_from-bound :
    (rand probability : ℕ → ℕ) (left level : ℕ)
    → level_from rand probability left level ≤ level + left
unfolding level_from
level_from-bound rand probability zero level = omega arith
level_from-bound rand probability (suc left) level =
    ground (arith, level_from-bound rand probability left (suc level))

new_level-bound : (rand : ℕ → ℕ) (m : SkMap) → 0 < m.max_level → new_level rand m < m.max_level
unfolding new_level
new_level-bound rand m pos = omega (arith, level_from-bound rand m.probability (m.max_level - 1) 0)

-- An item before the hash, whose next item is behind it: the checks of `insert`.
abbrev Stops : Items → (hash q : ℕ) → Type 0
Stops item hash q =
    (q ≢ 0)
    × ((ltb (item q).hash hash
          && (((item q).next 0 == 0) || ltb hash (item ((item q).next 0)).hash))
        ≡ true)

-- Where the search stops in front of a hash that no item has.
closest-Absent :
    (item : Items) (max_level hash c : ℕ) (ps : List ℕ)
    → c ≢ 0
    → (item c).hash < hash
    → Absent item hash ps
    → Linked item max_level (c ∷ ps)
    → Stops item hash (last_below item 0 (hash + 1) c ps)
closest-Absent item max_level hash c [] ne less absent (n, a, small, chains, sorted, rest) =
    (ne, ground (arith, chains 0))
closest-Absent item max_level hash c (q ∷ qs) ne less (differ, absent)
      (n, a, small, chains, sorted, rest) =
    let (q_ne, q_aligned, q_small, q_chains, q_sorted, q_rest) = rest in
    let next : (item c).next 0 ≡ q = ground (arith, chains 0) in
    elim (Bool-cases (ltb hash (item q).hash)) [
      | inl behind ↦
          let less_q = ltb→lt hash (item q).hash behind in
          let all_above : Above item hash (q ∷ qs) =
            (less_q, Above-trans item hash (item q).hash qs (omega arith) q_sorted) in
          let stays = last_below-Above item 0 (hash + 1) hash c (q ∷ qs) (omega arith) all_above in
          subst (Stops item hash) (sym stays) (ne, ground (arith, ap item next))
      | inr later ↦
          let picked : (if leb 0 (item q).level && ltb (item q).hash (hash + 1) then q else c) ≡ q =
            ground arith in
          subst (λ (b : ℕ). Stops item hash (last_below item 0 (hash + 1) b qs)) (sym picked)
            (closest-Absent item max_level hash q qs q_ne (ground arith) absent rest)
    ]

module _ (rand : ℕ → ℕ) (p hash value : ℕ) (m : SkMap) (i : Iterator) where
  insert-first :
      i.current ≡ 0
      → m.head ≡ 0
      → insert rand p hash value m i ≡ some (insert_first p hash value m, record i { current = p })
  unfolding insert
  insert-first here empty =
      let a : (i.current == 0) ≡ true = ground arith in
      let b : (m.head == 0) ≡ true = ground arith in rw (insert, a, b) refl

  insert-head :
      i.current ≡ 0
      → m.head ≢ 0
      → hash < (m.item m.head).hash
      → insert rand p hash value m i
        ≡ some (insert_before_head p (new_level rand m) hash value m, i)
  unfolding insert
  insert-head here there less =
      let a : (i.current == 0) ≡ true = ground arith in
      let b : (m.head == 0) ≡ false = ground arith in
      rw (insert, a, b) (assert_bug-true _ (ground arith))

  insert-inner :
      (m' : SkMap)
      → Stops m.item hash i.current
      → link_levels p hash i.trace
          (new_level rand m + 1)
          0
          (get_new_item_ptr p (new_level rand m) hash value m)
        ≡ some m'
      → insert rand p hash value m i ≡ some (m', record i { current = p })
  unfolding insert
  insert-inner m' (ne, checks) run =
      let a : (i.current == 0) ≡ false = ground arith in
      rw (insert, a) (assert_bug-true _ checks ∙ rw run refl)

-- The search, then the insertion.
abbrev pub Inserts : (fuel : ℕ) → (ℕ → ℕ) → (p hash value : ℕ) → SkMap → List ℕ → Type 0
Inserts fuel rand p hash value m ps =
    (i : Iterator) × (m' : SkMap) × (i' : Iterator) × (find_closest fuel hash m ≡ some i)
    × (insert rand p hash value m i ≡ some (m', i'))
    × Inserted m' (insert_entry hash value (entries m.item ps))

module _ (fuel : ℕ) (rand : ℕ → ℕ) (p hash value : ℕ) (m : SkMap) where
  Inserts-head :
      (rest : List ℕ)
      → Represents m (m.head ∷ rest)
      → Fresh p (m.head ∷ rest)
      → m.max_level + suc (length rest) ≤ fuel
      → hash < (m.item m.head).hash
      → Inserts fuel rand p hash value m (m.head ∷ rest)
  Inserts-head rest (e, top, linked) fresh enough less =
      let (i, run, at) = find_closest-Located fuel hash m (m.head ∷ rest) (e, top, linked) enough in
      let (ne, aligned, small, chains, sorted, below) = linked in
      let all_above : Above m.item hash (m.head ∷ rest) =
        (less, Above-trans m.item hash (m.item m.head).hash rest (omega arith) sorted) in
      let nowhere : i.current ≡ 0 =
        at.current
        ∙ last_below-Above m.item 0 (hash + 1) hash 0 (m.head ∷ rest) (omega arith) all_above in
      (
        i,
        insert_before_head p (new_level rand m) hash value m,
        i,
        run,
        insert-head rand p hash value m i nowhere ne less,
        before_head-Inserted m rest p (new_level rand m) hash value top linked fresh
            (new_level-bound rand m (omega arith)) less,
      )

  Inserts-inner :
      (rest : List ℕ)
      → Represents m (m.head ∷ rest)
      → Absent m.item hash rest
      → Fresh p (m.head ∷ rest)
      → m.max_level + suc (length rest) ≤ fuel
      → (m.item m.head).hash < hash
      → Inserts fuel rand p hash value m (m.head ∷ rest)
  Inserts-inner rest (e, top, linked) absent fresh enough less =
      let (i, run, at) = find_closest-Located fuel hash m (m.head ∷ rest) (e, top, linked) enough in
      let h = m.head in
      let (ne, aligned, small, chains, sorted, below) = linked in
      let (m', linking, represents, contents) =
        inner-Represents m h rest p (new_level rand m) hash value i.trace linked fresh
          (new_level-bound rand m (omega arith)) less
          (λ l lt. at.trace less l lt ∙ last_below-head fuel hash m l hash rest (omega arith) less)
          top refl absent in
      let stops = closest-Absent m.item m.max_level hash h rest ne less absent linked in
      let here =
        at.current ∙ last_below-head fuel hash m 0 (hash + 1) rest (omega arith) (omega arith) in
      (
        i,
        m',
        record i { current = p },
        run,
        insert-inner rand p hash value m i m' (subst (Stops m.item hash) (sym here) stops) linking,
        record {
          items = h ∷ insert_item m.item hash p rest;
          represents = represents;
          contents = contents;
        },
      )

-- `findClosest` and then `insert` of a hash that no item has pass their checks, whatever `rand` gives,
-- and leave a map that stands for the entries with the new one in its place. The new item lies at
-- an aligned pointer that no item has; fuel for the levels and the items is enough.
pub insert-Represents :
    (fuel : ℕ) (rand : ℕ → ℕ) (p hash value : ℕ) (m : SkMap) (ps : List ℕ)
    → 0 < m.max_level
    → Represents m ps
    → Absent m.item hash ps
    → Fresh p ps
    → m.max_level + length ps ≤ fuel
    → Inserts fuel rand p hash value m ps
unfolding insert_entry
insert-Represents fuel rand p hash value m [] pos e absent fresh enough =
    let (i, run, at) = find_closest-Located fuel hash m [] e enough in
    (
      i,
      insert_first p hash value m,
      record i { current = p },
      run,
      insert-first rand p hash value m i at.current e,
      first-Inserted m p hash value pos fresh,
    )
insert-Represents fuel rand p hash value m (h ∷ rest) pos (e, top, linked) (differ, absent) fresh
      enough =
    subst (λ (q : ℕ). Inserts fuel rand p hash value m (q ∷ rest)) e
      (elim (Bool-cases (ltb hash (m.item m.head).hash)) [
        | inl before ↦
            Inserts-head fuel rand p hash value m rest (refl, rw e top, rw e linked) (rw e fresh)
              enough (ltb→lt hash (m.item m.head).hash before)
        | inr behind ↦
            let differ' : (m.item m.head).hash ≢ hash = rw e differ in
            Inserts-inner fuel rand p hash value m rest (refl, rw e top, rw e linked) absent
              (rw e fresh) enough (ground arith)
      ])
