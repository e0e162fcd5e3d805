-- ===== src/Kern/ArrayMap.antt =====
-- `ArrayMap` of include/Xemeiah/kern/arraymap.h: an array that is grown to twice the key. Both its
-- instances have KeyId for TKey, of 32 bits, but the loop that clears the new slots counts in a
-- LocalKeyId, of 16 bits. A slot that holds NULL is `none`. A run that fails is `none` too: a write
-- outside the array, a read below it, or a loop that does not end.
use native.Mathlib.Nat.{mod-eq_of_lt, mod-eq-sub-mod}
use xemeiah.Prelude.{
  take, ℕ, zero, suc, ◌-◌, ◌*◌, ◌%◌, ◌^◌, ◌≤◌, ◌<◌, ◌≡◌, refl, ◌≢◌, ◌⊎◌, inl, inr, true, false,
  List, [], ◌∷◌, Option, none, some, ◌==◌, leb, ltb, if◌then◌else◌, arith, length, set, Bool-cases,
  Option-cases, sym, ◌∙◌, ap,
}

-- Twice a key that is 0 or at least 2 ^ 15 is, in 32 bits, no more than the key or at least 2 ^ 16.
double-small :
    (key : ℕ)
    → key < 2 ^ 32
    → (key ≡ 0) ⊎ (2 ^ 15 ≤ key)
    → key * 2 % 2 ^ 32 < 2 ^ 16
    → key * 2 % 2 ^ 32 ≤ key
double-small key fits (inl e) small = rw e (omega arith)
double-small key fits (inr big) small = elim (Bool-cases (ltb (key * 2) (2 ^ 32))) [
  | inl e ↦
      let size : key * 2 % 2 ^ 32 ≡ key * 2 = mod-eq_of_lt (ground arith) in absurd (omega arith)
  | inr e ↦
      let less : (key * 2 - 2 ^ 32) % 2 ^ 32 ≡ key * 2 - 2 ^ 32 = mod-eq_of_lt (omega arith) in
      let big_enough : 2 ^ 32 ≤ key * 2 = ground arith in
      rw (mod-eq-sub-mod big_enough, less) (omega arith)
]

module _ {A : Type 0} where
  -- The slot at an index; outside the array as if it held NULL.
  abbrev pub slot : List (Option A) → ℕ → Option A
  slot [] i = none
  slot (x ∷ xs) zero = x
  slot (x ∷ xs) (suc i) = slot xs i

  -- `realloc`, and NULL in every new slot.
  unfoldable pub resize : ℕ → List (Option A) → List (Option A)
  resize zero map = []
  resize (suc n) [] = none ∷ resize n []
  resize (suc n) (x ∷ map) = x ∷ resize n map

  write : List (Option A) → ℕ → A → Option (List (Option A))
  write map key value = if ltb key (length map) then some (set map key (some value)) else none

  -- The new slots are cleared from `(LocalKeyId) alloced` on; the counter never reaches a size of
  -- 2 ^ 16 or more, and the loop does not end.
  grow : List (Option A) → ℕ → Option (List (Option A))
  unfolding resize
  grow map new_size =
      if ltb new_size (2 ^ 16)
      then some (resize new_size (take (length map % 2 ^ 16) map))
      else none

  unfoldable pub put : List (Option A) → ℕ → A → Option (List (Option A))
  unfolding grow write
  put map key value =
      if leb (length map) key
      then elim (grow map (key * 2 % 2 ^ 32)) [ none ↦ none | some map' ↦ write map' key value ]
      else write map key value

  unfoldable pub get : List (Option A) → ℕ → Option A
  get map key = if leb (length map) key then none else slot map key

  -- The scan of `getLastKey`, from the slot below `n` downwards.
  last_below : List (Option A) → ℕ → Option ℕ
  last_below map zero = none
  last_below map (suc n) =
      let rest = last_below map n in elim (slot map n) [ none ↦ rest | some v ↦ some n ]

  unfoldable pub get_last_key : List (Option A) → Option ℕ
  unfolding last_below
  get_last_key map = if length map == 0 then some 0 else last_below map (length map)

  slot-resize :
      (n : ℕ) (map : List (Option A)) (i : ℕ) → length map ≤ n → slot (resize n map) i ≡ slot map i
  unfolding resize
  slot-resize zero [] i h = refl
  slot-resize zero (x ∷ map) i h = absurd (omega arith)
  slot-resize (suc n) [] zero h = refl
  slot-resize (suc n) [] (suc i) h = slot-resize n [] i (omega arith)
  slot-resize (suc n) (x ∷ map) zero h = refl
  slot-resize (suc n) (x ∷ map) (suc i) h = slot-resize n map i (omega arith)

  length-resize : (n : ℕ) (map : List (Option A)) → length (resize n map) ≡ n
  unfolding resize
  length-resize zero map = refl
  length-resize (suc n) [] = ap suc (length-resize n [])
  length-resize (suc n) (x ∷ map) = ap suc (length-resize n map)

  slot-set :
      (map : List (Option A)) (k i : ℕ) (v : Option A)
      → k < length map
      → slot (set map k v) i ≡ (if k == i then v else slot map i)
  slot-set [] k i v h = elim h [ ]
  slot-set (x ∷ map) zero zero v h = refl
  slot-set (x ∷ map) zero (suc i) v h = ground arith
  slot-set (x ∷ map) (suc k) zero v h = ground arith
  slot-set (x ∷ map) (suc k) (suc i) v h = slot-set map k i v (omega arith) ∙ ground arith

  slot-outside : (map : List (Option A)) (i : ℕ) → length map ≤ i → slot map i ≡ none
  slot-outside [] i h = refl
  slot-outside (x ∷ map) zero h = absurd (omega arith)
  slot-outside (x ∷ map) (suc i) h = slot-outside map i (omega arith)

  get-slot : (map : List (Option A)) (i : ℕ) → get map i ≡ slot map i
  unfolding get
  get-slot map i = ground (arith, slot-outside map i)

  write-get :
      (map : List (Option A)) (key : ℕ) (value : A)
      → key < length map
      → (map' : List (Option A)) × (write map key value ≡ some map')
        × ((k : ℕ) → slot map' k ≡ (if key == k then some value else slot map k))
  unfolding write
  write-get map key value h =
      (set map key (some value), ground arith, λ k. slot-set map key k (some value) h)

  take-all : (map : List (Option A)) → take (length map) map ≡ map
  take-all [] = refl
  take-all (x ∷ map) = ap (λ l. x ∷ l) (take-all map)

  grow-some :
      (map : List (Option A)) (n : ℕ)
      → length map ≤ n
      → n < 2 ^ 16
      → grow map n ≡ some (resize n map)
  unfolding grow
  grow-some map n inside fits =
      let small : ltb n (2 ^ 16) ≡ true = ground arith in
      let whole : length map % 2 ^ 16 ≡ length map = mod-eq_of_lt (omega arith) in
      rw (small, whole, take-all) refl

  put-grown :
      (map : List (Option A)) (key : ℕ) (value : A) {map' : List (Option A)}
      → {r : Option (List (Option A))} → leb (length map) key ≡ true
      → key * 2 % 2 ^ 32 ≡ key * 2
      → grow map (key * 2) ≡ some map'
      → write map' key value ≡ r
      → put map key value ≡ r
  unfolding put
  put-grown map key value out size grown run = rw (out, size, grown) run

  -- `put` succeeds at a key inside the array, and at any key from 1 to 2 ^ 15 - 1; then `get` gives
  -- the value at that key and what it gave before at every other.
  pub put-get :
      (map : List (Option A)) (key : ℕ) (value : A)
      → (key < length map) ⊎ ((0 < key) × (key * 2 < 2 ^ 16))
      → (map' : List (Option A)) × (put map key value ≡ some map')
        × ((k : ℕ) → get map' k ≡ (if key == k then some value else get map k))
  unfolding put
  put-get map key value room = elim (Bool-cases (leb (length map) key)) [
    | inl out ↦
        let (pos, fits) = outside room out in
        let size : key * 2 % 2 ^ 32 ≡ key * 2 = mod-eq_of_lt (omega arith) in
        let grown = grow-some map (key * 2) (ground arith) fits in
        let len = length-resize (key * 2) map in
        let (map', run, at) = write-get (resize (key * 2) map) key value (omega arith) in
        (
          map',
          put-grown map key value out size grown run,
          λ k. get-slot map' k ∙ at k ∙ rw (get-slot, slot-resize (key * 2) map k (ground arith)),
        )
    | inr inside ↦
        let (map', run, at) = write-get map key value (ground arith) in
        (map', rw inside run, λ k. get-slot map' k ∙ at k ∙ rw get-slot)
  ]
    where
      outside :
          (key < length map) ⊎ ((0 < key) × (key * 2 < 2 ^ 16))
          → leb (length map) key ≡ true
          → (0 < key) × (key * 2 < 2 ^ 16)
      outside (inl h) out = absurd (ground arith)
      outside (inr h) out = h

  write-outside :
      (map : List (Option A)) (key : ℕ) (value : A) → length map ≤ key → write map key value ≡ none
  unfolding write
  write-outside map key value out = ground arith

  grow-length :
      (map : List (Option A)) (n : ℕ)
      → (grow map n ≡ none)
        ⊎ ((map' : List (Option A)) × (grow map n ≡ some map') × (length map' ≡ n) × (n < 2 ^ 16))
  unfolding grow
  grow-length map n = elim (Bool-cases (ltb n (2 ^ 16))) [
    | inl e ↦ inr (
      resize n (take (length map % 2 ^ 16) map),
      rw e,
      length-resize n (take (length map % 2 ^ 16) map),
      ground arith,
    )
    | inr e ↦ inl (rw e)
  ]

  put-failed :
      (map : List (Option A)) (key : ℕ) (value : A)
      → leb (length map) key ≡ true
      → grow map (key * 2 % 2 ^ 32) ≡ none
      → put map key value ≡ none
  unfolding put
  put-failed map key value out e = rw (out, e)

  put-short :
      (map : List (Option A)) (key : ℕ) (value : A) {map' : List (Option A)}
      → leb (length map) key ≡ true
      → grow map (key * 2 % 2 ^ 32) ≡ some map'
      → write map' key value ≡ none
      → put map key value ≡ none
  unfolding put
  put-short map key value out e run = rw (out, e) run

  -- Beyond the array `put` fails at key 0 and at every key from 2 ^ 15 on: it writes outside the
  -- array, or its loop does not end.
  pub put-outside :
      (map : List (Option A)) (key : ℕ) (value : A)
      → length map ≤ key
      → key < 2 ^ 32
      → (key ≡ 0) ⊎ (2 ^ 15 ≤ key)
      → put map key value ≡ none
  put-outside map key value out fits bad = elim (grow-length map (key * 2 % 2 ^ 32)) [
    | inl e ↦ put-failed map key value (ground arith) e
    | inr (map', e, len, small) ↦
        put-short map key value (ground arith) e
          (write-outside map' key value (omega (arith, double-small key fits bad small)))
  ]

  last_below-greatest :
      (map : List (Option A)) (n key : ℕ) (value : A)
      → slot map key ≡ some value
      → key < n
      → (last : ℕ) × (last_below map n ≡ some last)
        × ((v : A) × (slot map last ≡ some v))
        × ((k : ℕ) → k < n → slot map k ≢ none → k ≤ last)
  unfolding last_below
  last_below-greatest map zero key value at h = elim h [ ]
  last_below-greatest map (suc n) key value at h = elim (Option-cases (slot map n)) [
    | inr (v, e) ↦ (n, rw (last_below, e), (v, e), λ k l ne. omega arith)
    | inl e ↦
        let below : key < n = ground arith in
        let (last, run, found, top) = last_below-greatest map n key value at below in
        (last, rw (last_below, e) run, found, λ k l ne. top k (ground arith) ne)
  ]

  -- If some key is bound, `getLastKey` does not run below the array, and returns a bound key that no
  -- bound key exceeds.
  pub get_last_key-greatest :
      (map : List (Option A)) (key : ℕ) (value : A)
      → get map key ≡ some value
      → (last : ℕ) × (get_last_key map ≡ some last)
        × ((v : A) × (get map last ≡ some v))
        × ((k : ℕ) → get map k ≢ none → k ≤ last)
  unfolding get_last_key
  get_last_key-greatest map key value at =
      let at' : slot map key ≡ some value = sym (get-slot map key) ∙ at in
      let inside : key < length map = ground (arith, slot-outside map key) in
      let (last, run, (v, found), top) =
        last_below-greatest map (length map) key value at' inside in
      let some_slot : (length map == 0) ≡ false = ground arith in
      (
        last,
        rw some_slot run,
        (v, get-slot map last ∙ found),
        λ k ne.
            top k (ground (arith, get-slot map k, slot-outside map k))
              (λ z. ne (get-slot map k ∙ z)),
      )
