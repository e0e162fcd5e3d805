-- ===== src/Kern/KeyCache/Interning.antt =====
-- Interned names: the bucket and the map of the cache agree.
use xemeiah.Kern.ArrayMap
use xemeiah.Kern.HashBucket
use xemeiah.Kern.KeyCache.Names.{is_valid-colon, after_colon-none}
use xemeiah.Kern.KeyCache.{
  Name, KeyCache, new_key_cache, or_whole, is_valid, get_local_key, add_key_at, add_key, intern,
  key_id_of_name,
}
use xemeiah.Kern.KeyId.{get_namespace_id, get_local_key_id, get_key_id, get_key_id-parts}
use xemeiah.Kern.QNameMap
use xemeiah.Prelude.{
  ℕ, ◌+◌, ◌%◌, ◌^◌, ◌≤◌, ◌<◌, ◌≡◌, refl, ◌≢◌, Bool, true, false, List, ◌∷◌, ◌++◌, Option, some,
  ◌==◌, if◌then◌else◌, arith, sym, ap, ◌∙◌, Bool-cases, inl, inr, ◌⊎◌,
}

pub record IsValid (k : KeyCache) : Type 0 where
  pub named :
      (name : Name)
      → HashBucket.get k.keys_bucket name ≢ 0
      → get_local_key k (HashBucket.get k.keys_bucket name) ≡ some name
  pub keyed :
      (id : ℕ) (name : Name)
      → get_local_key k id ≡ some name
      → (HashBucket.get k.keys_bucket name ≡ id)
        × (id ≢ 0)
        × (id ≤ k.standalone_local_key_id)
        × (is_valid name ≡ true)
  pub small : k.standalone_local_key_id < 2 ^ 16
  pub qnames :
      (p l : ℕ) (s : Name)
      → QNameMap.get k.qname_map p l ≡ some s
      → (a : Name) × (b : Name) × (get_local_key k p ≡ some a)
        × (get_local_key k l ≡ some b)
        × (s ≡ a ++ (58 ∷ b))

pub new_key_cache-IsValid : IsValid new_key_cache
unfolding new_key_cache get_local_key HashBucket.get HashBucket.find ArrayMap.get QNameMap.get
new_key_cache-IsValid = record {
  named = λ name ne. absurd (ne refl);
  keyed = λ id name e. ground arith;
  small = omega arith;
  qnames = λ p l s e. ground arith;
}

-- A name that has a key gets that key, and the cache stays.
pub key_id_of_name-known :
    (ns_id id : ℕ) (name : Name) (create : Bool) (k : KeyCache)
    → IsValid k
    → get_local_key k id ≡ some name
    → key_id_of_name ns_id name create k ≡ some (get_key_id ns_id id, k)
unfolding key_id_of_name intern or_whole
key_id_of_name-known ns_id id name create k v at =
    let (found, ne, le, ok) = v.keyed id name at in
    let no_colon = is_valid-colon name ok in
    let plain = after_colon-none name no_colon in
    let there : (id == 0) ≡ false = ground arith in rw (plain, ok, no_colon, found, there) refl

-- What interning leaves: a valid cache in which the key has the name, and every other key what it
-- had.
pub record Interned (ns_id : ℕ) (name : Name) (k : KeyCache) (key_id : ℕ) (k' : KeyCache)
    : Type 0 where
  pub valid : IsValid k'
  pub namespace : get_namespace_id key_id ≡ ns_id
  pub local : get_local_key k' (get_local_key_id key_id) ≡ some name
  pub kept : (id : ℕ) (n : Name) → get_local_key k id ≡ some n → get_local_key k' id ≡ some n
  pub counter : k'.standalone_local_key_id ≤ k.standalone_local_key_id + 1

pub packed :
    (ns_id local_key_id : ℕ)
    → ns_id < 2 ^ 16
    → local_key_id < 2 ^ 16
    → (get_namespace_id (get_key_id ns_id local_key_id) ≡ ns_id)
      × (get_local_key_id (get_key_id ns_id local_key_id) ≡ local_key_id)
packed ns_id local_key_id a b =
    let (n, l, r, back) = get_key_id-parts ns_id local_key_id 0 a b (omega arith) in (n, l)

abbrev added : ℕ → Name → List (Option Name) → KeyCache → KeyCache
added id name local_key_map k = record k {
  standalone_local_key_id = id;
  local_key_map = local_key_map;
  keys_bucket = HashBucket.put k.keys_bucket id name;
}

same_name : (a b : Name) → HashBucket.str_eq a b ≡ true → a ≡ b
same_name a b e = (HashBucket.str_eq-eq a b).0 e

put-named :
    (table : HashBucket.HashEntries) (id : ℕ) (name n : Name)
    → ((n ≡ name) × (HashBucket.get (HashBucket.put table id name) n ≡ id))
      ⊎ ((n ≢ name) × (HashBucket.get (HashBucket.put table id name) n ≡ HashBucket.get table n))
put-named table id name n =
    let at = HashBucket.get-put_name table id name n in
    elim (Bool-cases (HashBucket.str_eq name n)) [
      | inl e ↦ inl (sym (same_name name n e), ground arith)
      | inr e ↦ inr (λ q. ground (arith, HashBucket.str_eq-eq name n), ground arith)
    ]

added-IsValid :
    (name : Name) (k : KeyCache) (map : List (Option Name)) (id : ℕ)
    → IsValid k
    → is_valid name ≡ true
    → HashBucket.get k.keys_bucket name ≡ 0
    → id ≡ k.standalone_local_key_id + 1
    → id < 2 ^ 16
    → ((i : ℕ)
        → ArrayMap.get map i ≡ (if id == i then some name else ArrayMap.get k.local_key_map i))
    → IsValid (added id name map k)
      × ((i : ℕ) (n : Name)
          → get_local_key k i ≡ some n
          → get_local_key (added id name map k) i ≡ some n)
unfolding get_local_key
added-IsValid name k map id v ok new next fits at =
    let kept : (i : ℕ) (n : Name)
        → get_local_key k i ≡ some n
        → get_local_key (added id name map k) i ≡ some n =
      λ i n e. let (found, ne, le, okn) = v.keyed i n e in ground (arith, at i) in
    (
      record {
        named = λ n ne. elim (put-named k.keys_bucket id name n) [
          | inl (same, there) ↦ rw there (at id ∙ ground arith)
          | inr (differ, there) ↦
              rw there (kept (HashBucket.get k.keys_bucket n) n (v.named n (λ z. ne (there ∙ z))))
        ];
        keyed = λ i n e. elim (Bool-cases (id == i)) [
          | inl here ↦
              let mine : n ≡ name = ground (arith, at i) in
              elim (put-named k.keys_bucket id name n) [
                | inl (same, there) ↦ (ground arith, ground arith, ground arith, rw mine ok)
                | inr (differ, there) ↦ absurd (differ mine)
              ]
          | inr other ↦
              let before : ArrayMap.get k.local_key_map i ≡ some n = ground (arith, at i) in
              let (found, ne, le, okn) = v.keyed i n before in
              elim (put-named k.keys_bucket id name n) [
                | inl (same, there) ↦
                    absurd (ne (sym found ∙ ap (HashBucket.get k.keys_bucket) same ∙ new))
                | inr (differ, there) ↦ (there ∙ found, ne, omega arith, okn)
              ]
        ];
        small = fits;
        qnames = λ p l s e.
            let (a, b, ea, eb, es) = v.qnames p l s e in (a, b, kept p a ea, kept l b eb, es);
      },
      kept,
    )

add_key_at-run :
    (id ns_id : ℕ) (name : Name) (k : KeyCache) {map : List (Option Name)}
    → ArrayMap.put k.local_key_map id name ≡ some map
    → add_key_at id ns_id name k ≡ some (get_key_id ns_id id, added id name map k)
unfolding add_key_at
add_key_at-run id ns_id name k run = rw (add_key_at, run) refl

add_key-run :
    (ns_id : ℕ) (name : Name) (k : KeyCache)
    → k.standalone_local_key_id + 1 < 2 ^ 16
    → add_key ns_id name k ≡ add_key_at (k.standalone_local_key_id + 1) ns_id name k
unfolding add_key
add_key-run ns_id name k fits =
    let whole : (k.standalone_local_key_id + 1) % 2 ^ 16 ≡ k.standalone_local_key_id + 1 =
      omega arith in
    ap (λ (id : ℕ). add_key_at id ns_id name k) whole

key_id_of_name-new :
    (ns_id : ℕ) (name : Name) (create : Bool) (k : KeyCache)
    → is_valid name ≡ true
    → HashBucket.get k.keys_bucket name ≡ 0
    → key_id_of_name ns_id name create k ≡ add_key ns_id name k
unfolding key_id_of_name intern or_whole
key_id_of_name-new ns_id name create k ok new =
    let no_colon = is_valid-colon name ok in
    let plain = after_colon-none name no_colon in rw (plain, ok, no_colon, new) refl

local_added :
    (id : ℕ) (name : Name) (map : List (Option Name)) (k : KeyCache)
    → ArrayMap.get map id ≡ (if id == id then some name else ArrayMap.get k.local_key_map id)
    → get_local_key (added id name map k) id ≡ some name
unfolding get_local_key
local_added id name map k at = at ∙ ground arith

-- A well-formed name without a prefix is interned, in any namespace, whether `create` is set or not,
-- as long as the store's counter of local keys, which starts at 3, is below 2 ^ 15 - 1; interned
-- again, in any namespace, it gets the same local key, and the cache stays.
pub key_id_of_name-Interned :
    (ns_id again : ℕ) (name : Name) (create create_again : Bool) (k : KeyCache)
    → IsValid k
    → is_valid name ≡ true
    → ns_id < 2 ^ 16
    → k.standalone_local_key_id + 1 < 2 ^ 15
    → (key_id : ℕ) × (k' : KeyCache) × (key_id_of_name ns_id name create k ≡ some (key_id, k'))
      × Interned ns_id name k key_id k'
      × (key_id_of_name again name create_again k'
          ≡ some (get_key_id again (get_local_key_id key_id), k'))
key_id_of_name-Interned ns_id again name create create_again k v ok ns_fits room =
    elim (Bool-cases (HashBucket.get k.keys_bucket name == 0)) [
      | inl new ↦
          let id = k.standalone_local_key_id + 1 in
          let (map, run, at) =
            ArrayMap.put-get k.local_key_map id name (inr (omega arith, omega arith)) in
          let (v', kept) = added-IsValid name k map id v ok (ground arith) refl (omega arith) at in
          let (n_back, l_back) = packed ns_id id ns_fits (omega arith) in
          let mine : get_local_key (added id name map k) (get_local_key_id (get_key_id ns_id id))
              ≡ some name =
            ap (get_local_key (added id name map k)) l_back ∙ local_added id name map k (at id) in
          (
            get_key_id ns_id id,
            added id name map k,
            key_id_of_name-new ns_id name create k ok (ground arith)
                ∙ add_key-run ns_id name k (omega arith)
                ∙ add_key_at-run id ns_id name k run,
            record {
              valid = v';
              namespace = n_back;
              local = mine;
              kept = kept;
              counter = omega arith;
            },
            key_id_of_name-known again (get_local_key_id (get_key_id ns_id id)) name create_again
                (added id name map k) v' mine,
          )
      | inr old ↦
          let id = HashBucket.get k.keys_bucket name in
          let there = v.named name (ground arith) in
          let (found, ne, le, okn) = v.keyed id name there in
          let (n_back, l_back) = packed ns_id id ns_fits (omega (arith, v.small)) in
          let mine : get_local_key k (get_local_key_id (get_key_id ns_id id)) ≡ some name =
            rw l_back there in
          (
            get_key_id ns_id id,
            k,
            key_id_of_name-known ns_id id name create k v there,
            record {
              valid = v;
              namespace = n_back;
              local = mine;
              kept = λ i n e. e;
              counter = omega arith;
            },
            key_id_of_name-known again (get_local_key_id (get_key_id ns_id id)) name create_again k
                v mine,
          )
    ]
