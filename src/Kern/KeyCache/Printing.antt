-- ===== src/Kern/KeyCache/Printing.antt =====
-- Printing a key by the prefixes of an alias and reading it back.
use xemeiah.Kern.KeyCache.Interning.{IsValid, key_id_of_name-known}
use xemeiah.Kern.KeyCache.Names.{
  is_valid-colon, after_colon-none, after_colon-append, before_colon-append,
}
use xemeiah.Kern.KeyCache.{
  Name, KeyCache, is_valid, get_local_key, local_key_id_of_name, parse_two, parse_key, get_qname,
  with_cache, get_key_id_in, get_key,
}
use xemeiah.Kern.KeyId.{get_namespace_id, get_local_key_id, get_key_id, get_key_id-parts}
use xemeiah.Kern.NamespaceAlias.{
  NamespaceAlias, get_namespace_id_from_prefix, get_default_namespace_id, get_namespace_prefix,
}
use xemeiah.Kern.QNameMap
use xemeiah.Prelude.{
  ℕ, ◌%◌, ◌^◌, ◌<◌, ◌≡◌, refl, ◌≢◌, Bool, true, false, not, ◌&&◌, [], ◌∷◌, ◌++◌, some, ◌==◌,
  assert_bug-true, arith, sym, ap, ◌∙◌, subst, Bool-cases, inl, inr, ◌⊎◌, Option-cases,
}

local_key_id_of_name-known :
    (id : ℕ) (name : Name) (k : KeyCache)
    → IsValid k
    → get_local_key k id ≡ some name
    → local_key_id_of_name name k ≡ some (id, k)
unfolding local_key_id_of_name get_key_id
local_key_id_of_name-known id name k v at =
    let (found, ne, le, ok) = v.keyed id name at in
    let fits : id < 2 ^ 16 = omega (arith, v.small) in
    let whole : get_key_id 0 id % 2 ^ 16 ≡ id = omega arith in
    let there : (id == 0) ≡ false = ground arith in
    rw (local_key_id_of_name, key_id_of_name-known 0 id name true k v at, whole, there) refl

parse_key-plain :
    (id : ℕ) (name : Name) (k : KeyCache)
    → IsValid k
    → get_local_key k id ≡ some name
    → parse_key name k ≡ some ((0, id), k)
unfolding parse_key is_valid
parse_key-plain id [] k v at = let (found, ne, le, ok) = v.keyed id [] at in cc
parse_key-plain id (c ∷ name) k v at =
    let (found, ne, le, ok) = v.keyed id (c ∷ name) at in
    rw
      (
        parse_key,
        after_colon-none (c ∷ name) (is_valid-colon (c ∷ name) ok),
        local_key_id_of_name-known id (c ∷ name) k v at,
      )
      refl

parse_key-qname :
    (p l : ℕ) (a b : Name) (k : KeyCache)
    → IsValid k
    → get_local_key k p ≡ some a
    → get_local_key k l ≡ some b
    → parse_key (a ++ (58 ∷ b)) k ≡ some ((p, l), k)
unfolding parse_key parse_two is_valid
parse_key-qname p l [] b k v at_p at_l = let (found, ne, le, ok) = v.keyed p [] at_p in cc
parse_key-qname p l (c ∷ a) b k v at_p at_l =
    let (found, ne, le, ok) = v.keyed p (c ∷ a) at_p in
    let (found', ne', le', ok') = v.keyed l b at_l in
    let no_colon = is_valid-colon (c ∷ a) ok in
    rw
      (
        parse_key,
        after_colon-append (c ∷ a) b no_colon,
        before_colon-append (c ∷ a) b no_colon,
        parse_two,
        is_valid-colon b ok',
        local_key_id_of_name-known p (c ∷ a) k v at_p,
        local_key_id_of_name-known l b k v at_l,
      )
      refl

-- What a printed qualified name leaves: it is spelled by the two keys, and the cache is as valid, with
-- the same keys.
record Printed (p l : ℕ) (a b : Name) (k k' : KeyCache) (s : Name) : Type 0 where
  text : s ≡ a ++ (58 ∷ b)
  valid : IsValid k'
  local : (id : ℕ) → get_local_key k' id ≡ get_local_key k id

get_qname-Printed :
    (p l : ℕ) (a b : Name) (k : KeyCache)
    → IsValid k
    → k.standalone_local_key_id < 2 ^ 15
    → get_local_key k p ≡ some a
    → get_local_key k l ≡ some b
    → (s : Name) × (k' : KeyCache) × (get_qname p l k ≡ some (s, k')) × Printed p l a b k k' s
unfolding get_qname get_local_key
get_qname-Printed p l a b k v small at_p at_l =
    let (found, ne, le, ok) = v.keyed p a at_p in
    let (found', ne', le', ok') = v.keyed l b at_l in
    let live : not (p == 0) ≡ true = ground arith in
    let live' : not (l == 0) ≡ true = ground arith in
    elim (Option-cases (QNameMap.get k.qname_map p l)) [
      | inr (s, e) ↦
          let (a', b', ea, eb, es) = v.qnames p l s e in
          (
            s,
            k,
            assert_bug-true _ live ∙ assert_bug-true _ live' ∙ rw e refl,
            record {
              text = es ∙ ground (arith, ea, eb, at_p, at_l);
              valid = v;
              local = λ id. refl;
            },
          )
      | inl e ↦
          let (map, run, at) =
            QNameMap.get-put k.qname_map p l (a ++ (58 ∷ b)) (inr (omega arith, omega arith))
              (inr (omega arith, omega arith)) in
          (
            a ++ (58 ∷ b),
            record k { qname_map = map },
            assert_bug-true _ live ∙ assert_bug-true _ live' ∙ rw (e, at_p, at_l, run) refl,
            record {
              text = refl;
              valid = record {
                named = v.named;
                keyed = v.keyed;
                small = v.small;
                qnames = λ p' l' s' e'. elim (Bool-cases ((p == p') && (l == l'))) [
                  | inl here ↦ (a, b, ground arith, ground arith, ground (arith, at p' l'))
                  | inr other ↦ v.qnames p' l' s' (ground (arith, at p' l'))
                ];
              };
              local = λ id. refl;
            },
          )
    ]

key-back :
    (key_id : ℕ)
    → key_id < 2 ^ 32
    → get_key_id (get_namespace_id key_id) (get_local_key_id key_id) ≡ key_id
key-back key_id fits =
    let (n, l, r, back) = get_key_id-parts 0 0 key_id (omega arith) (omega arith) fits in back

module _ (xmlns xmlns_ns : ℕ) where
  -- The alias resolves the prefix of a namespace to it: no namespace is the default one, and every
  -- other has a prefix, which is an interned key and resolves to the namespace.
  abbrev pub Resolves : NamespaceAlias → ℕ → KeyCache → Type 0
  Resolves alias ns_id k =
      ((ns_id ≡ 0) × (get_default_namespace_id xmlns xmlns_ns alias ≡ 0))
      ⊎ ((ns_id ≢ 0)
          × (get_namespace_id_from_prefix alias (get_namespace_prefix xmlns xmlns_ns alias ns_id)
              ≡ ns_id)
          × ((a : Name) × (get_local_key k (get_namespace_prefix xmlns xmlns_ns alias ns_id)
                ≡ some a)))

  get_key_id_in-plain :
      (alias : NamespaceAlias) (l : ℕ) (b : Name) (create : Bool) (k : KeyCache)
      → IsValid k
      → get_local_key k l ≡ some b
      → get_key_id_in xmlns xmlns_ns alias b create k
        ≡ some (get_key_id (get_default_namespace_id xmlns xmlns_ns alias) l, k)
  unfolding get_key_id_in
  get_key_id_in-plain alias l b create k v at = rw (get_key_id_in, parse_key-plain l b k v at) refl

  get_key_id_in-qname :
      (alias : NamespaceAlias) (p l ns_id : ℕ) (a b : Name) (create : Bool) (k : KeyCache)
      → IsValid k
      → get_local_key k p ≡ some a
      → get_local_key k l ≡ some b
      → get_namespace_id_from_prefix alias p ≡ ns_id
      → ns_id ≢ 0
      → get_key_id_in xmlns xmlns_ns alias (a ++ (58 ∷ b)) create k ≡ some (get_key_id ns_id l, k)
  unfolding get_key_id_in
  get_key_id_in-qname alias p l ns_id a b create k v at_p at_l resolves ne =
      let (found, p_ne, le, ok) = v.keyed p a at_p in
      let there : (p == 0) ≡ false = ground arith in
      let live : (ns_id == 0) ≡ false = ground arith in
      rw (get_key_id_in, parse_key-qname p l a b k v at_p at_l, there, resolves, live) refl

  get_key-qualified :
      (alias : NamespaceAlias) (key_id : ℕ) (k : KeyCache) (p : ℕ)
      → get_namespace_prefix xmlns xmlns_ns alias (get_namespace_id key_id) ≡ p
      → (get_namespace_id key_id == 0) ≡ false
      → (p == xmlns) ≡ false
      → (p == 0) ≡ false
      → get_key xmlns xmlns_ns alias key_id k ≡ get_qname p (get_local_key_id key_id) k
  unfolding get_key
  get_key-qualified alias key_id k p e named qualified live =
      subst
        (λ (q : ℕ).
          (q == xmlns) ≡ false
          → (q == 0) ≡ false
          → get_key xmlns xmlns_ns alias key_id k ≡ get_qname q (get_local_key_id key_id) k)
        e (λ differ there. rw (get_key, named, differ, there) refl) qualified live

  default-prefix :
      (alias : NamespaceAlias) (p ns_id : ℕ)
      → p ≡ xmlns
      → get_namespace_id_from_prefix alias p ≡ ns_id
      → get_default_namespace_id xmlns xmlns_ns alias ≡ ns_id
  unfolding get_default_namespace_id get_namespace_id_from_prefix
  default-prefix alias p ns_id e resolves = ap alias.namespace_id_of (sym e) ∙ resolves

  -- A key with an interned local name, in a namespace that the alias resolves and that is not that
  -- of xmlns, is printed, and what is printed is read as the key, in a cache that stays then; the
  -- store's counter of local keys is below 2 ^ 15.
  pub get_key_id_in-get_key :
      (alias : NamespaceAlias) (key_id : ℕ) (b : Name) (create : Bool) (k : KeyCache)
      → IsValid k
      → k.standalone_local_key_id < 2 ^ 15
      → key_id < 2 ^ 32
      → get_local_key k (get_local_key_id key_id) ≡ some b
      → get_namespace_id key_id ≢ xmlns_ns
      → Resolves alias (get_namespace_id key_id) k
      → (s : Name) × (k' : KeyCache) × (get_key xmlns xmlns_ns alias key_id k ≡ some (s, k'))
        × IsValid k'
        × (get_key_id_in xmlns xmlns_ns alias s create k' ≡ some (key_id, k'))
  unfolding get_key with_cache
  get_key_id_in-get_key alias key_id b create k v small fits at other (inl (none_ns, default)) =
      let l = get_local_key_id key_id in
      let plain : (get_namespace_id key_id == 0) ≡ true = ground arith in
      let back = key-back key_id fits in
      (
        b,
        k,
        rw (get_key, plain, at) refl,
        v,
        get_key_id_in-plain alias l b create k v at
            ∙ ap (λ (n : ℕ). some (get_key_id n l, k)) (default ∙ sym none_ns)
            ∙ ap (λ (n : ℕ). some (n, k)) back,
      )
  get_key_id_in-get_key alias key_id b create k v small fits at other
        (inr (ne, resolves, (a, at_p))) =
      let l = get_local_key_id key_id in
      let ns_id = get_namespace_id key_id in
      let p = get_namespace_prefix xmlns xmlns_ns alias ns_id in
      let (found, p_ne, le, ok) = v.keyed p a at_p in
      let named : (ns_id == 0) ≡ false = ground arith in
      let not_xmlns : (ns_id == xmlns_ns) ≡ false = ground arith in
      let back = key-back key_id fits in
      elim (Bool-cases (p == xmlns)) [
        | inl plain ↦ (
          b,
          k,
          rw (get_key, named, plain, not_xmlns, at) refl,
          v,
          get_key_id_in-plain alias l b create k v at
              ∙ ap (λ (n : ℕ). some (get_key_id n l, k))
                  (default-prefix alias p ns_id (ground arith) resolves)
              ∙ ap (λ (n : ℕ). some (n, k)) back,
        )
        | inr qualified ↦
            let (s, k', run, r) = get_qname-Printed p l a b k v small at_p at in
            let live : (p == 0) ≡ false = ground arith in
            (
              s,
              k',
              get_key-qualified alias key_id k p refl named qualified live ∙ run,
              r.valid,
              ap (λ (t : Name). get_key_id_in xmlns xmlns_ns alias t create k') r.text
                  ∙ get_key_id_in-qname alias p l ns_id a b create k' r.valid (r.local p ∙ at_p)
                      (r.local l ∙ at) resolves ne
                  ∙ ap (λ (n : ℕ). some (n, k')) back,
            )
      ]
