-- ===== src/Kern/HashBucket.antt =====
-- `HashBucketTemplate` of include/Xemeiah/kern/hashbucket.h: key strings are lists of bytes, a bucket
-- is the list of its entries, and the table gives the bucket of every hash.
use xemeiah.Prelude.{
  ℕ, ◌+◌, ◌-◌, ◌*◌, ◌%◌, ◌^◌, ◌≡◌, refl, Bool, true, false, ◌&&◌, List, [], ◌∷◌, Option, none, some,
  ◌==◌, if◌then◌else◌, arith, update, Option-cases, inl, inr, ◌↔◌, ◌≢◌, Bool-cases, ap,
}

-- `strcmp` is 0.
unfoldable pub str_eq : List ℕ → List ℕ → Bool
str_eq [] [] = true
str_eq (a ∷ x) (b ∷ y) = (a == b) && str_eq x y
str_eq x y = false

pub str_eq-eq : (x y : List ℕ) → (str_eq x y ≡ true) ↔ (x ≡ y)
unfolding str_eq
str_eq-eq [] [] = (λ _. refl, λ _. refl)
str_eq-eq [] (b ∷ y) = ground arith
str_eq-eq (a ∷ x) [] = ground arith
str_eq-eq (a ∷ x) (b ∷ y) = ground (arith, str_eq-eq x y)

-- h = c + (h << 6) + (h << 16) - h, in 32 bits.
hash_step : ℕ → ℕ → ℕ
hash_step c h = (c + h * 2 ^ 6 % 2 ^ 32 + h * 2 ^ 16 % 2 ^ 32 + (2 ^ 32 - h)) % 2 ^ 32

hash_from : ℕ → List ℕ → ℕ
hash_from h [] = h
hash_from h (c ∷ key) = hash_from (hash_step c h) key

unfoldable pub get_hash : List ℕ → ℕ
unfolding hash_from hash_step
get_hash key = hash_from 0x245 key % 0x100

pub record HashEntry : Type 0 where
  pub key_id : ℕ
  pub key : List ℕ

abbrev pub HashEntries : Type 0
HashEntries = ℕ → List HashEntry

-- The first entry with the name; 0 if there is none.
unfoldable pub find : List HashEntry → List ℕ → ℕ
find [] key_name = 0
find (entry ∷ rest) key_name =
    if str_eq entry.key key_name then entry.key_id else find rest key_name

unfoldable pub get : HashEntries → List ℕ → ℕ
unfolding find
get table key_name = find (table (get_hash key_name)) key_name

unfoldable pub put : HashEntries → ℕ → List ℕ → HashEntries
put table key_id key_name =
    update table (get_hash key_name)
      (record { key_id = key_id; key = key_name } ∷ table (get_hash key_name))

-- Without the first entry that has both the name and the id; `none` is the call of `Bug`.
unfoldable pub unlink : List HashEntry → ℕ → List ℕ → Option (List HashEntry)
unlink [] key_id key_name = none
unlink (entry ∷ rest) key_id key_name =
    let deeper = unlink rest key_id key_name in
    if str_eq entry.key key_name && (entry.key_id == key_id)
    then some rest
    else elim deeper [ none ↦ none | some rest' ↦ some (entry ∷ rest') ]

unfoldable pub remove : HashEntries → ℕ → List ℕ → Option HashEntries
remove table key_id key_name = elim (unlink (table (get_hash key_name)) key_id key_name) [
  | none ↦ none
  | some rest ↦ some (update table (get_hash key_name) rest)
]

str_eq_refl : (x : List ℕ) → str_eq x x ≡ true
str_eq_refl x = (str_eq-eq x x).1 refl

-- A name that was put gives its id, and every other name what it gave before, collisions included.
pub get-put_name :
    (table : HashEntries) (key_id : ℕ) (key_name other : List ℕ)
    → get (put table key_id key_name) other
      ≡ (if str_eq key_name other then key_id else get table other)
unfolding get put
get-put_name table key_id key_name other = ground (arith, str_eq-eq key_name other)

unlink-others :
    (entries : List HashEntry) (key_id : ℕ) (key_name other : List ℕ) (rest : List HashEntry)
    → unlink entries key_id key_name ≡ some rest
    → str_eq key_name other ≡ false
    → find rest other ≡ find entries other
unfolding unlink find
unlink-others [] key_id key_name other rest run differ = ground arith
unlink-others (entry ∷ entries) key_id key_name other rest run differ =
    elim (Option-cases (unlink entries key_id key_name)) [
      | inl e ↦ ground (arith, str_eq-eq entry.key key_name)
      | inr (deeper, e) ↦
          let ih = unlink-others entries key_id key_name other deeper e differ in
          ground (arith, str_eq-eq entry.key key_name)
    ]

-- A removal leaves what every other name gives.
pub remove-others :
    (table table' : HashEntries) (key_id : ℕ) (key_name other : List ℕ)
    → remove table key_id key_name ≡ some table'
    → str_eq key_name other ≡ false
    → get table' other ≡ get table other
unfolding remove get
remove-others table table' key_id key_name other run differ =
    elim (Option-cases (unlink (table (get_hash key_name)) key_id key_name)) [
      | inl e ↦ ground arith
      | inr (rest, e) ↦
          let lem = unlink-others (table (get_hash key_name)) key_id key_name other rest e differ in
          ground arith
    ]

-- The entries put one after the other, the first of the list last.
abbrev pub puts : List (ℕ × List ℕ) → HashEntries → HashEntries
puts [] table = table
puts ((key_id, key_name) ∷ later) table = put (puts later table) key_id key_name

-- No entry of the list has both the id and the name.
abbrev pub Lacks : ℕ → List ℕ → List (ℕ × List ℕ) → Type 0
Lacks key_id key_name [] = Unit
Lacks key_id key_name ((id, name) ∷ later) =
    ((str_eq name key_name && (id == key_id)) ≡ false) × Lacks key_id key_name later

unlink-puts :
    (table : HashEntries) (key_id : ℕ) (key_name : List ℕ) (later : List (ℕ × List ℕ))
    → Lacks key_id key_name later
    → unlink (puts later (put table key_id key_name) (get_hash key_name)) key_id key_name
      ≡ some (puts later table (get_hash key_name))
unfolding put unlink
unlink-puts table key_id key_name [] lacks = ground (arith, str_eq_refl key_name)
unlink-puts table key_id key_name ((id, name) ∷ later) (differ, lacks) =
    let ih = unlink-puts table key_id key_name later lacks in
    elim (Bool-cases (get_hash name == get_hash key_name)) [
      | inl same ↦
          let e : get_hash name ≡ get_hash key_name = ground arith in rw (same, e, differ, ih) refl
      | inr other ↦ rw other ih
    ]

puts-elsewhere :
    (table : HashEntries) (key_id hash : ℕ) (key_name : List ℕ) (later : List (ℕ × List ℕ))
    → get_hash key_name ≢ hash
    → puts later (put table key_id key_name) hash ≡ puts later table hash
unfolding put
puts-elsewhere table key_id hash key_name [] ne = ground arith
puts-elsewhere table key_id hash key_name ((id, name) ∷ later) ne =
    let ih = puts-elsewhere table key_id hash key_name later ne in
    elim (Bool-cases (get_hash name == hash)) [
      | inl same ↦ let e : get_hash name ≡ hash = ground arith in rw (same, e, ih) refl
      | inr other ↦ rw other ih
    ]

-- A put, then any puts of other names or other ids, whatever their buckets, then the removal of what
-- was put first: it succeeds, and the table is that of the other puts alone.
pub remove-puts :
    (table : HashEntries) (key_id : ℕ) (key_name : List ℕ) (later : List (ℕ × List ℕ))
    → Lacks key_id key_name later
    → (table' : HashEntries) × (remove (puts later (put table key_id key_name)) key_id key_name
        ≡ some table')
      × ((hash : ℕ) → table' hash ≡ puts later table hash)
unfolding remove
remove-puts table key_id key_name later lacks =
    let run = unlink-puts table key_id key_name later lacks in
    (
      update (puts later (put table key_id key_name)) (get_hash key_name)
          (puts later table (get_hash key_name)),
      rw (remove, run) refl,
      λ hash. elim (Bool-cases (get_hash key_name == hash)) [
        | inl same ↦
            let e : get_hash key_name ≡ hash = ground arith in rw same (ap (puts later table) e)
        | inr other ↦ rw other (puts-elsewhere table key_id hash key_name later (ground arith))
      ],
    )
