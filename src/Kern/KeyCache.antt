-- ===== src/Kern/KeyCache.antt =====
-- `KeyCache` (kern/keycache.cpp, kern/keycache.hpp, include/Xemeiah/kern/keycache.h) over a
-- `VolatileStore` (kern/volatilestore.cpp): names and namespace URLs are interned to numbers. A
-- C string is the list of its bytes, and NULL is `none` where it can be one. A throw, a failed
-- check or a failed write of a map is `none`. The state is the cache with the store's two counters.
pub mod Names
pub mod Interning
pub mod Printing
mod Tests
use xemeiah.Kern.ArrayMap
use xemeiah.Kern.HashBucket
use xemeiah.Kern.KeyId.{get_namespace_id, get_local_key_id, get_key_id}
use xemeiah.Kern.NamespaceAlias.{NamespaceAlias}
use xemeiah.Kern.NamespaceAlias as Alias
use xemeiah.Kern.QNameMap
use xemeiah.Prelude.{
  ℕ, ◌+◌, ◌%◌, ◌^◌, Bool, true, false, not, ◌&&◌, ◌||◌, List, [], ◌∷◌, ◌++◌, Option, none, some,
  ◌==◌, leb, ltb, if◌then◌else◌, assert_bug, has,
}

abbrev pub Name : Type 0
Name = List ℕ

pub record KeyCache : Type 0 where
  pub keys_bucket : HashBucket.HashEntries
  pub local_key_map : List (Option Name)
  pub qname_map : List (Option (QNameMap.LocalMap Name))
  pub namespace_bucket : HashBucket.HashEntries
  pub namespace_map : List (Option Name)
  pub standalone_local_key_id : ℕ
  pub standalone_namespace_id : ℕ

-- Nothing is interned, and the store has not given a number yet.
unfoldable pub new_key_cache : KeyCache
new_key_cache = record {
  keys_bucket = λ h. [];
  local_key_map = [];
  qname_map = [];
  namespace_bucket = λ h. [];
  namespace_map = [];
  standalone_local_key_id = 3;
  standalone_namespace_id = 4;
}

-- What stands behind the first colon.
unfoldable pub after_colon : Name → Option Name
after_colon [] = none
after_colon (c ∷ name) = let rest = after_colon name in if c == 58 then some name else rest

-- What stands before the first colon.
unfoldable pub before_colon : Name → Name
before_colon [] = []
before_colon (c ∷ name) = let rest = before_colon name in if c == 58 then [] else c ∷ rest

unfoldable pub or_whole : Option Name → Name → Name
or_whole none name = name
or_whole (some suffix) name = suffix

unfoldable pub is_letter : ℕ → Bool
is_letter c = (leb 65 c && leb c 90) || (leb 97 c && leb c 122)

unfoldable pub is_first : ℕ → Bool
unfolding is_letter
is_first c = is_letter c || (c == 95)

unfoldable pub is_inner : ℕ → Bool
unfolding is_letter
is_inner c = is_letter c || ((leb 48 c && leb c 57) || ((c == 45) || ((c == 95) || (c == 46))))

unfoldable pub all_inner : Name → Bool
unfolding is_inner
all_inner [] = true
all_inner (c ∷ name) = is_inner c && all_inner name

-- The checks of a key name.
unfoldable pub is_valid : Name → Bool
unfolding is_first all_inner
is_valid [] = false
is_valid (c ∷ name) = is_first c && all_inner (c ∷ name)

unfoldable pub get_local_key : KeyCache → ℕ → Option Name
unfolding ArrayMap.get
get_local_key k local_key_id = ArrayMap.get k.local_key_map local_key_id

-- The entries for a new key.
unfoldable pub add_key_at : ℕ → ℕ → Name → KeyCache → Option (ℕ × KeyCache)
unfolding ArrayMap.put HashBucket.put get_key_id
add_key_at local_key_id ns_id name k = elim (ArrayMap.put k.local_key_map local_key_id name) [
  | none ↦ none
  | some local_key_map ↦ some (
    get_key_id ns_id local_key_id,
    record k {
      standalone_local_key_id = local_key_id;
      local_key_map = local_key_map;
      keys_bucket = HashBucket.put k.keys_bucket local_key_id name;
    },
  )
]

-- `addKeyInStore`, then the entries.
unfoldable pub add_key : ℕ → Name → KeyCache → Option (ℕ × KeyCache)
unfolding add_key_at
add_key ns_id name k = add_key_at ((k.standalone_local_key_id + 1) % 2 ^ 16) ns_id name k

-- `getFromCache`, then the store.
unfoldable pub intern : ℕ → Name → KeyCache → Option (ℕ × KeyCache)
unfolding add_key HashBucket.get get_key_id assert_bug
intern ns_id name k =
    let local_key_id = HashBucket.get k.keys_bucket name in
    assert_bug (not (has 58 name))
      (if local_key_id == 0 then add_key ns_id name k else some (get_key_id ns_id local_key_id, k))

-- `getKeyId` of a namespace and a name, whose prefix is left out. The code does not use `create`.
unfoldable pub key_id_of_name : ℕ → Name → (create : Bool) → KeyCache → Option (ℕ × KeyCache)
unfolding after_colon or_whole is_valid intern
key_id_of_name ns_id key_name create k =
    let name = or_whole (after_colon key_name) key_name in
    if is_valid name then intern ns_id name k else none

-- The key id as a LocalKeyId, which must not be 0.
unfoldable pub local_key_id_of_name : Name → KeyCache → Option (ℕ × KeyCache)
unfolding key_id_of_name
local_key_id_of_name name k = elim (key_id_of_name 0 name true k) [
  | none ↦ none
  | some (key_id, k') ↦ if key_id % 2 ^ 16 == 0 then none else some (key_id % 2 ^ 16, k')
]

unfoldable pub parse_two : Name → Name → KeyCache → Option ((ℕ × ℕ) × KeyCache)
unfolding local_key_id_of_name
parse_two prefix name k = if has 58 name then none else elim (local_key_id_of_name prefix k) [
  | none ↦ none
  | some (prefix_id, k') ↦ elim (local_key_id_of_name name k') [
    | none ↦ none
    | some (local_key_id, k'') ↦ some ((prefix_id, local_key_id), k'')
  ]
]

-- The prefix, 0 for none, and the local key.
unfoldable pub parse_key : Name → KeyCache → Option ((ℕ × ℕ) × KeyCache)
unfolding local_key_id_of_name parse_two after_colon before_colon
parse_key [] k = none
parse_key (c ∷ name) k = elim (after_colon (c ∷ name)) [
  | some rest ↦ parse_two (before_colon (c ∷ name)) rest k
  | none ↦ elim (local_key_id_of_name (c ∷ name) k) [
    | none ↦ none
    | some (local_key_id, k') ↦ some ((0, local_key_id), k')
  ]
]

-- The name with its prefix, built once and kept.
unfoldable pub get_qname : ℕ → ℕ → KeyCache → Option (Name × KeyCache)
unfolding assert_bug QNameMap.get QNameMap.put get_local_key
get_qname prefix_id local_key_id k = assert_bug (not (prefix_id == 0)) (
    assert_bug (not (local_key_id == 0)) (elim (QNameMap.get k.qname_map prefix_id local_key_id) [
      | some key ↦ some (key, k)
      | none ↦ elim (get_local_key k prefix_id) [
        | none ↦ none
        | some prefix ↦ elim (get_local_key k local_key_id) [
          | none ↦ none
          | some name ↦
              elim (QNameMap.put k.qname_map prefix_id local_key_id (prefix ++ (58 ∷ name))) [
                | none ↦ none
                | some qname_map ↦ some (prefix ++ (58 ∷ name), record k { qname_map = qname_map })
              ]
        ]
      ]
    ]))

unfoldable pub with_cache : KeyCache → Option Name → Option (Name × KeyCache)
with_cache k none = none
with_cache k (some name) = some (name, k)

-- The built-in keys: the prefix xmlns, with its namespace.
module _ (xmlns xmlns_ns : ℕ) where
  -- `getKeyId` of a name by the prefixes of an alias. The code does not use `create`.
  unfoldable pub get_key_id_in :
      NamespaceAlias → Name → (create : Bool) → KeyCache → Option (ℕ × KeyCache)
  unfolding parse_key get_key_id Alias.get_namespace_id_from_prefix Alias.get_default_namespace_id
  get_key_id_in alias key_name create k = elim (parse_key key_name k) [
    | none ↦ none
    | some ((prefix_id, local_key_id), k') ↦
        if prefix_id == 0
        then some
            (get_key_id (Alias.get_default_namespace_id xmlns xmlns_ns alias) local_key_id, k')
        else if Alias.get_namespace_id_from_prefix alias prefix_id == 0
        then none
        else some (get_key_id (Alias.get_namespace_id_from_prefix alias prefix_id) local_key_id, k')
  ]

  -- `getKey` of a key id by the prefixes of an alias; a key that has no name fails.
  unfoldable pub get_key : NamespaceAlias → ℕ → KeyCache → Option (Name × KeyCache)
  unfolding get_namespace_id get_local_key_id get_local_key Alias.get_namespace_prefix get_qname
      with_cache
  get_key alias key_id k =
      let ns_id = get_namespace_id key_id in
      let local_key_id = get_local_key_id key_id in
      let prefix_id = Alias.get_namespace_prefix xmlns xmlns_ns alias ns_id in
      if (ns_id == 0) || ((prefix_id == xmlns) && not (ns_id == xmlns_ns))
      then with_cache k (get_local_key k local_key_id)
      else if prefix_id == 0
      then none
      else get_qname prefix_id local_key_id k

-- `addNamespaceInStore` and the entries for the new namespace.
unfoldable pub add_namespace : Name → KeyCache → Option (ℕ × KeyCache)
unfolding ArrayMap.put HashBucket.put
add_namespace url k =
    let ns_id = (k.standalone_namespace_id + 1) % 2 ^ 16 in
    elim (ArrayMap.put k.namespace_map ns_id url) [
      | none ↦ none
      | some namespace_map ↦ some (
        ns_id,
        record k {
          standalone_namespace_id = ns_id;
          namespace_map = namespace_map;
          namespace_bucket = HashBucket.put k.namespace_bucket ns_id url;
        },
      )
    ]

-- `getNamespaceId` of a URL.
unfoldable pub namespace_id_of_url : Name → KeyCache → Option (ℕ × KeyCache)
unfolding add_namespace HashBucket.get
namespace_id_of_url [] k = some (0, k)
namespace_id_of_url (c ∷ url) k =
    let ns_id = HashBucket.get k.namespace_bucket (c ∷ url) in
    if ns_id == 0 then add_namespace (c ∷ url) k else some (ns_id, k)

unfoldable pub get_namespace_url : KeyCache → ℕ → Option Name
unfolding ArrayMap.get
get_namespace_url k ns_id = if ns_id == 0 then some [] else ArrayMap.get k.namespace_map ns_id
