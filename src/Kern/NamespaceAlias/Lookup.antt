-- ===== src/Kern/NamespaceAlias/Lookup.antt =====
-- What a declared prefix resolves to, in both directions.
use xemeiah.Kern.KeyId.{get_local_key_id, get_namespace_id}
use xemeiah.Kern.NamespaceAlias.{
  NamespaceAlias, declare, set_local, set_namespace_prefix, get_namespace_id_from_prefix,
  get_namespace_id_from_alias, get_namespace_prefix, get_default_namespace_id,
}
use xemeiah.Prelude.{
  ℕ, ◌≡◌, ◌≢◌, Bool, true, not, ◌&&◌, some, ◌==◌, ◌⊎◌, if◌then◌else◌, assert_bug, arith,
}

module _ (xmlns xmlns_ns : ℕ) where
  -- What a call leaves: the prefix gives the namespace and the namespace gives the prefix, but for
  -- that of xmlns, and every other prefix, 0 among them, and every other namespace gives what it
  -- gave. The default namespace is that of the prefix xmlns.
  pub record Bound (a a' : NamespaceAlias) (alias_id ns : ℕ) : Type 0 where
    pub alias : get_namespace_id_from_alias xmlns xmlns_ns a' alias_id ≡ some ns
    pub prefix :
        (q : ℕ)
        → get_namespace_id_from_prefix a' q
          ≡ (if get_local_key_id alias_id == q then ns else get_namespace_id_from_prefix a q)
    pub default_namespace : get_default_namespace_id xmlns xmlns_ns a' ≡ (
        if get_local_key_id alias_id == xmlns
        then ns
        else get_default_namespace_id xmlns xmlns_ns a)
    pub namespace :
        (m : ℕ)
        → get_namespace_prefix xmlns xmlns_ns a' m ≡ (
            if (m == ns) && not (ns == xmlns_ns)
            then get_local_key_id alias_id
            else get_namespace_prefix xmlns xmlns_ns a m)

  -- A declaration of xmlns, or of xmlns:p with a namespace, is taken if the prefix is to be
  -- overwritten or has no namespace; then both directions resolve by it. The default namespace is what
  -- was declared if that was xmlns, and stays otherwise; the prefix 0 stays in either case.
  pub set_namespace_prefix-Bound :
      (overwrite : Bool) (alias_id ns : ℕ) (a : NamespaceAlias)
      → get_namespace_id xmlns ≡ 0
      → xmlns_ns ≢ 0
      → get_local_key_id alias_id ≢ 0
      → (alias_id ≡ xmlns) ⊎ ((get_namespace_id alias_id ≡ xmlns_ns) × (ns ≢ 0))
      → (overwrite ≡ true) ⊎ (get_namespace_id_from_prefix a (get_local_key_id alias_id) ≡ 0)
      → (a' : NamespaceAlias) × (set_namespace_prefix xmlns xmlns_ns overwrite alias_id ns a
          ≡ some a')
        × Bound a a' alias_id ns
  unfolding set_namespace_prefix set_local declare assert_bug get_namespace_id_from_prefix
      get_namespace_id_from_alias get_namespace_prefix get_default_namespace_id
  set_namespace_prefix-Bound overwrite alias_id ns a no_ns xne lne kind free = (
    declare (get_local_key_id alias_id) ns a,
    ground arith,
    record {
      alias = ground arith;
      prefix = λ q. ground arith;
      default_namespace = ground arith;
      namespace = λ m. ground arith;
    },
  )
