-- ===== src/Kern/QNameMap.antt =====
-- `QNameMap` of src/kern/qnamemap.hpp: an `ArrayMap` of `ArrayMap`s. A `LocalMap` is reached only
-- through its slot, so it is kept there.
use xemeiah.Kern.ArrayMap
use xemeiah.Prelude.{
  ℕ, ◌*◌, ◌^◌, ◌<◌, ◌≡◌, refl, ◌⊎◌, inl, inr, Bool, true, false, List, [], Option, none, some, ◌==◌,
  if◌then◌else◌, ◌&&◌, arith, length, Option-cases, Bool-cases, sym, ◌∙◌, subst,
}

abbrev pub LocalMap : Type 0 → Type 0
LocalMap B = List (Option B)

-- A key that `ArrayMap.put` can write: inside the array, or from 1 to 2 ^ 15 - 1.
abbrev pub Room : {A : Type 0} → List (Option A) → ℕ → Type 0
Room map key = (key < length map) ⊎ ((0 < key) × (key * 2 < 2 ^ 16))

module _ {A : Type 0} where
  -- The map that the prefix has, or a new one put there.
  unfoldable pub put :
      List (Option (LocalMap A))
      → (prefix_id local_id : ℕ) → A
      → Option (List (Option (LocalMap A)))
  put ns_map prefix_id local_id key = elim (ArrayMap.get ns_map prefix_id) [
    | some local_map ↦ elim (ArrayMap.put local_map local_id key) [
      | none ↦ none
      | some local_map' ↦ ArrayMap.put ns_map prefix_id local_map'
    ]
    | none ↦ elim (ArrayMap.put ns_map prefix_id []) [
      | none ↦ none
      | some ns_map' ↦ elim (ArrayMap.put [] local_id key) [
        | none ↦ none
        | some local_map' ↦ ArrayMap.put ns_map' prefix_id local_map'
      ]
    ]
  ]

  unfoldable pub get : List (Option (LocalMap A)) → (prefix_id local_id : ℕ) → Option A
  get ns_map prefix_id local_id = elim (ArrayMap.get ns_map prefix_id) [
    | none ↦ none
    | some local_map ↦ ArrayMap.get local_map local_id
  ]

  -- The local map of a prefix, empty if the prefix has none.
  unfoldable pub local_map_of : List (Option (LocalMap A)) → ℕ → LocalMap A
  local_map_of ns_map prefix_id = elim (ArrayMap.get ns_map prefix_id) [
    | none ↦ []
    | some local_map ↦ local_map
  ]

  get-nil : (i : ℕ) → ArrayMap.get {A = A} [] i ≡ none
  unfolding ArrayMap.get
  get-nil i = ground arith

  get-local_map_of :
      (ns_map : List (Option (LocalMap A))) (prefix_id local_id : ℕ)
      → get ns_map prefix_id local_id ≡ ArrayMap.get (local_map_of ns_map prefix_id) local_id
  unfolding get local_map_of
  get-local_map_of ns_map prefix_id local_id = elim (Option-cases (ArrayMap.get ns_map prefix_id)) [
    | inl e ↦ rw (get, local_map_of, e) (sym (get-nil local_id))
    | inr (m, e) ↦ rw (get, local_map_of, e)
  ]

  get-found :
      (ns_map : List (Option (LocalMap A))) (p i : ℕ) {local_map : LocalMap A}
      → ArrayMap.get ns_map p ≡ some local_map
      → get ns_map p i ≡ ArrayMap.get local_map i
  unfolding get
  get-found ns_map p i e = rw (get, e)

  get-agree :
      (ns_map ns_map' : List (Option (LocalMap A))) (p i : ℕ)
      → ArrayMap.get ns_map p ≡ ArrayMap.get ns_map' p
      → get ns_map p i ≡ get ns_map' p i
  unfolding get
  get-agree ns_map ns_map' p i e = rw (get, e)

  -- A map with a new local map of one prefix, which has one key more.
  get-replaced :
      (ns_map ns_map' : List (Option (LocalMap A)))
      → (prefix_id local_id : ℕ) → (key : A) → (local_map' : LocalMap A)
      → ((p : ℕ)
          → ArrayMap.get ns_map' p
            ≡ (if prefix_id == p then some local_map' else ArrayMap.get ns_map p))
      → ((i : ℕ)
          → ArrayMap.get local_map' i
            ≡ (if local_id == i then some key else ArrayMap.get (local_map_of ns_map prefix_id) i))
      → (p i : ℕ)
      → get ns_map' p i ≡ (if (prefix_id == p) && (local_id == i) then some key else get ns_map p i)
  get-replaced ns_map ns_map' prefix_id local_id key local_map' outer inner p i =
      elim (Bool-cases (prefix_id == p)) [
        | inl same ↦
            let e : prefix_id ≡ p = ground arith in
            let found : ArrayMap.get ns_map' p ≡ some local_map' = outer p ∙ rw same in
            get-found ns_map' p i found ∙ inner i ∙ rw (same, e, get-local_map_of)
        | inr differ ↦ get-agree ns_map' ns_map p i (outer p ∙ rw differ) ∙ rw differ
      ]

  room-found :
      (ns_map : List (Option (LocalMap A))) (prefix_id : ℕ) {local_map : LocalMap A}
      → ArrayMap.get ns_map prefix_id ≡ some local_map
      → prefix_id < length ns_map
  unfolding ArrayMap.get
  room-found ns_map prefix_id e = ground arith

  local_map_of-found :
      (ns_map : List (Option (LocalMap A))) (p : ℕ) {local_map : LocalMap A}
      → ArrayMap.get ns_map p ≡ some local_map
      → local_map_of ns_map p ≡ local_map
  unfolding local_map_of
  local_map_of-found ns_map p e = rw (local_map_of, e) refl

  local_map_of-missing :
      (ns_map : List (Option (LocalMap A))) (p : ℕ)
      → ArrayMap.get ns_map p ≡ none
      → local_map_of ns_map p ≡ []
  unfolding local_map_of
  local_map_of-missing ns_map p e = rw (local_map_of, e) refl

  put-found :
      (ns_map : List (Option (LocalMap A))) (prefix_id local_id : ℕ) (key : A)
      → {local_map local_map' : LocalMap A} → {r : Option (List (Option (LocalMap A)))}
      → ArrayMap.get ns_map prefix_id ≡ some local_map
      → ArrayMap.put local_map local_id key ≡ some local_map'
      → ArrayMap.put ns_map prefix_id local_map' ≡ r
      → put ns_map prefix_id local_id key ≡ r
  unfolding put
  put-found ns_map prefix_id local_id key found inner outer = rw (put, found, inner) outer

  put-new :
      (ns_map : List (Option (LocalMap A))) (prefix_id local_id : ℕ) (key : A)
      → {ns_map' : List (Option (LocalMap A))} → {local_map' : LocalMap A}
      → {r : Option (List (Option (LocalMap A)))} → ArrayMap.get ns_map prefix_id ≡ none
      → ArrayMap.put ns_map prefix_id [] ≡ some ns_map'
      → ArrayMap.put [] local_id key ≡ some local_map'
      → ArrayMap.put ns_map' prefix_id local_map' ≡ r
      → put ns_map prefix_id local_id key ≡ r
  unfolding put
  put-new ns_map prefix_id local_id key found fresh inner outer =
      rw (put, found, fresh, inner) outer

  -- Of two writes to one slot the second stays.
  overwrite :
      (test : Bool) (x y z u : Option (LocalMap A))
      → y ≡ (if test then z else u)
      → (if test then x else y) ≡ (if test then x else u)
  overwrite true x y z u e = refl
  overwrite false x y z u e = e

  -- What `put` returns, given what it writes in the local map.
  put-run :
      (ns_map : List (Option (LocalMap A))) (prefix_id local_id : ℕ) (key : A)
      → {local_map' : LocalMap A} → Room ns_map prefix_id
      → ArrayMap.put (local_map_of ns_map prefix_id) local_id key ≡ some local_map'
      → (ns_map' : List (Option (LocalMap A))) × (put ns_map prefix_id local_id key ≡ some ns_map')
        × ((p : ℕ)
            → ArrayMap.get ns_map' p
              ≡ (if prefix_id == p then some local_map' else ArrayMap.get ns_map p))
  put-run ns_map prefix_id local_id key {local_map' = local_map'} room inner =
      elim (Option-cases (ArrayMap.get ns_map prefix_id)) [
        | inr (local_map, found) ↦
            let (ns_map', outer, at) = ArrayMap.put-get ns_map prefix_id local_map' room in
            let mine = local_map_of-found ns_map prefix_id found in
            let inner' = subst (λ m. ArrayMap.put m local_id key ≡ some local_map') mine inner in
            (ns_map', put-found ns_map prefix_id local_id key found inner' outer, at)
        | inl missing ↦
            let (ns_map1, fresh, at1) = ArrayMap.put-get ns_map prefix_id [] room in
            let there : ArrayMap.get ns_map1 prefix_id ≡ some [] = at1 prefix_id ∙ ground arith in
            let (ns_map', outer, at) =
              ArrayMap.put-get ns_map1 prefix_id local_map'
                (inl (room-found ns_map1 prefix_id there)) in
            let mine = local_map_of-missing ns_map prefix_id missing in
            let inner' = subst (λ m. ArrayMap.put m local_id key ≡ some local_map') mine inner in
            (
              ns_map',
              put-new ns_map prefix_id local_id key missing fresh inner' outer,
              λ p. at p ∙ overwrite (prefix_id == p) _ _ (some []) (ArrayMap.get ns_map p) (at1 p),
            )
      ]

  -- With room for the prefix in the map, and for the local id in the local map of the prefix, `put`
  -- succeeds; `get` then gives the key at that name, and what it gave before at every other.
  pub get-put :
      (ns_map : List (Option (LocalMap A))) (prefix_id local_id : ℕ) (key : A)
      → Room ns_map prefix_id
      → Room (local_map_of ns_map prefix_id) local_id
      → (ns_map' : List (Option (LocalMap A))) × (put ns_map prefix_id local_id key ≡ some ns_map')
        × ((p i : ℕ)
            → get ns_map' p i
              ≡ (if (prefix_id == p) && (local_id == i) then some key else get ns_map p i))
  get-put ns_map prefix_id local_id key outer_room inner_room =
      let (local_map', inner, inner_at) =
        ArrayMap.put-get (local_map_of ns_map prefix_id) local_id key inner_room in
      let (ns_map', run, at) = put-run ns_map prefix_id local_id key outer_room inner in
      (ns_map', run, get-replaced ns_map ns_map' prefix_id local_id key local_map' at inner_at)
