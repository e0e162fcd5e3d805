-- ===== src/Dom/SkipMap/Chains.antt =====
-- The list that a skip map stands for: its items in order, linked at every level.
use xemeiah.Dom.SkipMap.{SkMapItem, SkMap}
use xemeiah.Prelude.{
  ℕ, suc, ◌+◌, ◌%◌, ◌≤◌, ◌<◌, ◌≡◌, refl, ◌≢◌, Bool, true, false, ◌&&◌, List, [], ◌∷◌, leb, ltb,
  if◌then◌else◌, arith, map, length, Bool-cases, inl, inr, subst, sym, leb→le,
}

abbrev pub Items : Type 0
Items = ℕ → SkMapItem

-- From the pointer `first`, the links of one level run through those items of the list that have it.
abbrev pub Chain : Items → (level first : ℕ) → List ℕ → Type 0
Chain item level first [] = first ≡ 0
Chain item level first (p ∷ ps) =
    if leb level (item p).level
    then (first ≡ p) × Chain item level ((item p).next level) ps
    else Chain item level first ps

-- Every item of the list has a greater hash.
abbrev pub Above : Items → ℕ → List ℕ → Type 0
Above item hash [] = Unit
Above item hash (p ∷ ps) = (hash < (item p).hash) × Above item hash ps

-- The items lie at aligned pointers, in the order of their hashes, and the links of every item, at
-- each of its levels, run through what follows it.
abbrev pub Linked : Items → (max_level : ℕ) → List ℕ → Type 0
Linked item max_level [] = Unit
Linked item max_level (p ∷ ps) =
    (p ≢ 0)
    × (p % 32 ≡ 0)
    × ((item p).level < max_level)
    × ((level : ℕ) → level ≤ (item p).level → Chain item level ((item p).next level) ps)
    × Above item (item p).hash ps
    × Linked item max_level ps

-- The map is empty, or its head has every level.
abbrev pub Represents : SkMap → List ℕ → Type 0
Represents m [] = m.head ≡ 0
Represents m (p ∷ ps) =
    (m.head ≡ p) × (suc (m.item p).level ≡ m.max_level) × Linked m.item m.max_level (p ∷ ps)

-- The entries of the items.
abbrev pub entry : Items → ℕ → ℕ × ℕ
entry item p = ((item p).hash, (item p).value)

abbrev pub entries : Items → List ℕ → List (ℕ × ℕ)
entries item ps = map (entry item) ps

-- The last item that has the level and a hash below, or else `before`.
abbrev pub last_below : Items → (level hash before : ℕ) → List ℕ → ℕ
last_below item level hash before [] = before
last_below item level hash before (p ∷ ps) =
    last_below item level hash
      (if leb level (item p).level && ltb (item p).hash hash then p else before) ps

pub Above-trans : (item : Items) (a b : ℕ) (ps : List ℕ) → a ≤ b → Above item b ps → Above item a ps
Above-trans item a b [] le o = o
Above-trans item a b (p ∷ ps) le (o, rest) = (omega arith, Above-trans item a b ps le rest)

-- Behind a hash that is not below there is nothing to find.
pub last_below-Above :
    (item : Items) (level hash bound before : ℕ) (ps : List ℕ)
    → hash ≤ bound + 1
    → Above item bound ps
    → last_below item level hash before ps ≡ before
last_below-Above item level hash bound before [] le o = refl
last_below-Above item level hash bound before (p ∷ ps) le (o, rest) =
    let lacks : (leb level (item p).level && ltb (item p).hash hash) ≡ false = ground arith in
    rw lacks (last_below-Above item level hash bound before ps le rest)

pub last_below-at_least :
    (item : Items) (max_level hash l b : ℕ) (ps : List ℕ)
    → Linked item max_level ps
    → Above item (item b).hash ps
    → (item b).hash ≤ (item (last_below item l hash b ps)).hash
last_below-at_least item max_level hash l b [] linked above = omega arith
last_below-at_least item max_level hash l b (q ∷ qs) (ne, aligned, small, chains, sorted, rest)
      (less, above) =
    elim (Bool-cases (leb l (item q).level && ltb (item q).hash hash)) [
      | inl picks ↦
          let ih = last_below-at_least item max_level hash l q qs rest sorted in
          rw picks (omega (arith, ih))
      | inr skips ↦ rw skips (last_below-at_least item max_level hash l b qs rest above)
    ]

-- What a link at a level reaches: nothing, so that no item there has the level; or an item, with
-- what follows it.
pub data Reached (item : Items) (max_level level hash first : ℕ) (ps : List ℕ) : Type 0 where
  nothing :
      first ≡ 0
      → ((before : ℕ) → last_below item level hash before ps ≡ before)
      → Reached item max_level level hash first ps
  something :
      (rest : List ℕ)
      → level ≤ (item first).level
      → Linked item max_level (first ∷ rest)
      → length rest < length ps
      → ((h before l : ℕ)
          → (item first).hash < h
          → l ≤ level
          → last_below item l h before ps ≡ last_below item l h first rest)
      → (hash ≤ (item first).hash → (before : ℕ) → last_below item level hash before ps ≡ before)
      → Reached item max_level level hash first ps

Reached-later :
    (item : Items) (max_level level hash first p : ℕ) (ps : List ℕ)
    → leb level (item p).level ≡ false
    → Reached item max_level level hash first ps
    → Reached item max_level level hash first (p ∷ ps)
Reached-later item max_level level hash first p ps lacks (nothing e none_there) =
    nothing e (λ before. rw lacks (none_there before))
Reached-later item max_level level hash first p ps lacks
      (something rest has_level linked short go stop) =
    something rest has_level linked (omega arith)
      (λ h before l less le.
        go h (if leb l (item p).level && ltb (item p).hash h then p else before) l less le)
      (λ ge before. rw lacks (stop ge before))

Chain-Reached :
    (item : Items) (max_level level hash first p : ℕ) (ps : List ℕ)
    → leb level (item p).level ≡ true
    → first ≡ p
    → Linked item max_level (p ∷ ps)
    → Reached item max_level level hash first (p ∷ ps)
Chain-Reached item max_level level hash first p ps yes_level e linked =
    subst (λ (q : ℕ). Reached item max_level level hash q (p ∷ ps)) (sym e)
      (something ps (leb→le level (item p).level yes_level) linked (omega arith)
        (λ h before l less le.
          let picks : (leb l (item p).level && ltb (item p).hash h) ≡ true = ground arith in
          rw picks refl)
        (λ ge before.
          let lacks : (leb level (item p).level && ltb (item p).hash hash) ≡ false = ground arith in
          let (ne, aligned, small, chains, above, rest) = linked in
          rw lacks (last_below-Above item level hash (item p).hash before ps (omega arith) above)))

pub reach :
    (item : Items) (max_level level hash first : ℕ) (ps : List ℕ)
    → Chain item level first ps
    → Linked item max_level ps
    → Reached item max_level level hash first ps
reach item max_level level hash first [] e linked = nothing e (λ before. refl)
reach item max_level level hash first (p ∷ ps) chain linked =
    elim (Bool-cases (leb level (item p).level)) [
      | inl yes_level ↦
          let (e, rest) =
            subst
              (λ (b : Bool).
                if b
                then (first ≡ p) × Chain item level ((item p).next level) ps
                else Chain item level first ps)
              yes_level chain in
          Chain-Reached item max_level level hash first p ps yes_level e linked
      | inr lacks ↦
          let (ne, aligned, small, chains, above, rest) = linked in
          Reached-later item max_level level hash first p ps lacks (
            reach item max_level level hash first ps
              (subst
                (λ (b : Bool).
                  if b
                  then (first ≡ p) × Chain item level ((item p).next level) ps
                  else Chain item level first ps)
                lacks chain)
              rest)
    ]
