-- ===== src/Kern/KeyCache/Tests.antt =====
-- A cache with the names p and b, and the prefix p for the namespace 7; xmlns is the local key 1, its
-- namespace is 2.
use xemeiah.Kern.HashBucket
use xemeiah.Kern.ArrayMap
use xemeiah.Kern.KeyCache.Interning.{
  IsValid, Interned, new_key_cache-IsValid, key_id_of_name-Interned,
}
use xemeiah.Kern.KeyCache.Printing.{get_key_id_in-get_key}
use xemeiah.Kern.KeyCache.{
  Name, KeyCache, new_key_cache, key_id_of_name, intern, add_key, add_key_at, after_colon, or_whole,
  is_valid, is_first, is_inner, is_letter, all_inner, get_local_key, get_key, get_key_id_in,
  namespace_id_of_url, add_namespace,
}
use xemeiah.Kern.KeyId.{get_key_id, get_local_key_id, get_namespace_id}
use xemeiah.Kern.NamespaceAlias.{
  NamespaceAlias, new_namespace_alias, declare, get_namespace_prefix, get_namespace_id_from_prefix,
}
use xemeiah.Prelude.{
  ℕ, ◌+◌, ◌^◌, ◌<◌, ◌≡◌, refl, true, false, [], ◌∷◌, none, some, some-injective, arith, assert_bug,
  subst, ap, sym, ◌∙◌, inr,
}

abbrev p : Name
p = 112 ∷ []

abbrev b : Name
b = 98 ∷ []

-- A name that the cache does not have.
abbrev c : Name
c = 99 ∷ []

abbrev one_name : KeyCache
one_name = record {
  keys_bucket = HashBucket.put (λ h. []) 4 p;
  local_key_map = none ∷ none ∷ none ∷ none ∷ some p ∷ none ∷ none ∷ none ∷ [];
  qname_map = [];
  namespace_bucket = λ h. [];
  namespace_map = [];
  standalone_local_key_id = 4;
  standalone_namespace_id = 4;
}

abbrev two_names : KeyCache
two_names = record one_name {
  keys_bucket = HashBucket.put (HashBucket.put (λ h. []) 4 p) 5 b;
  local_key_map = none ∷ none ∷ none ∷ none ∷ some p ∷ some b ∷ none ∷ none ∷ [];
  standalone_local_key_id = 5;
}

first_run : key_id_of_name 0 p true new_key_cache ≡ some (4, one_name)
unfolding key_id_of_name intern add_key add_key_at new_key_cache after_colon or_whole is_valid
    is_first is_inner is_letter all_inner assert_bug HashBucket.get HashBucket.find ArrayMap.put
    ArrayMap.resize get_key_id
first_run = refl

second_run : key_id_of_name 0 b true one_name ≡ some (5, two_names)
unfolding key_id_of_name intern add_key add_key_at new_key_cache after_colon or_whole is_valid
    is_first is_inner is_letter all_inner assert_bug HashBucket.get HashBucket.put HashBucket.find
    HashBucket.get_hash ArrayMap.put ArrayMap.resize get_key_id
second_run = refl

interned-IsValid :
    (name : Name) (key_id : ℕ) (k k' : KeyCache)
    → IsValid k
    → is_valid name ≡ true
    → k.standalone_local_key_id + 1 < 2 ^ 15
    → key_id_of_name 0 name true k ≡ some (key_id, k')
    → IsValid k'
interned-IsValid name key_id k k' v ok room run =
    let (key_id', k'', run', i, again) =
      key_id_of_name-Interned 0 0 name true true k v ok (omega arith) room in
    subst IsValid (ap (λ (r : ℕ × KeyCache). r.1) (some-injective _ _ (sym run' ∙ run))) i.valid

p-valid : is_valid p ≡ true
unfolding is_valid is_first is_inner is_letter all_inner
p-valid = refl

b-valid : is_valid b ≡ true
unfolding is_valid is_first is_inner is_letter all_inner
b-valid = refl

c-valid : is_valid c ≡ true
unfolding is_valid is_first is_inner is_letter all_inner
c-valid = refl

two_names-IsValid : IsValid two_names
unfolding new_key_cache
two_names-IsValid =
    interned-IsValid b 5 one_name two_names
      (interned-IsValid p 4 new_key_cache one_name new_key_cache-IsValid p-valid (omega arith)
        first_run)
      b-valid (omega arith) second_run

key_id_of_name-Interned_example :
    (key_id : ℕ) × (k' : KeyCache) × (key_id_of_name 7 c false two_names ≡ some (key_id, k'))
    × Interned 7 c two_names key_id k'
    × (key_id_of_name 8 c true k' ≡ some (get_key_id 8 (get_local_key_id key_id), k'))
key_id_of_name-Interned_example =
    key_id_of_name-Interned 7 8 c false true two_names two_names-IsValid c-valid (omega arith)
      (omega arith)

abbrev alias : NamespaceAlias
alias = declare 4 7 new_namespace_alias

-- p:b
get_key_id_in-get_key_example :
    (s : Name) × (k' : KeyCache) × (get_key 1 2 alias 0x70005 two_names ≡ some (s, k'))
    × IsValid k'
    × (get_key_id_in 1 2 alias s false k' ≡ some (0x70005, k'))
unfolding get_namespace_id get_local_key_id get_local_key ArrayMap.get declare get_namespace_prefix
    get_namespace_id_from_prefix
get_key_id_in-get_key_example =
    get_key_id_in-get_key 1 2 alias 0x70005 b false two_names two_names-IsValid (omega arith)
      (omega arith) refl (omega arith) (inr (omega arith, refl, (p, refl)))

get_namespace_url_test :
    namespace_id_of_url b two_names
    ≡ some (
      5,
      record two_names {
        standalone_namespace_id = 5;
        namespace_map = none ∷ none ∷ none ∷ none ∷ none ∷ some b ∷ none ∷ none ∷ none ∷ none ∷ [];
        namespace_bucket = HashBucket.put (λ h. []) 5 b;
      },
    )
unfolding namespace_id_of_url add_namespace HashBucket.get HashBucket.find HashBucket.put
    HashBucket.get_hash ArrayMap.put ArrayMap.resize
get_namespace_url_test = refl
