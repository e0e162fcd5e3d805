-- ===== src/Kern/NamespaceAlias/Leak.antt =====
-- A call that leaks: the walk meets a declaration of the namespace, and none of the prefix.
use xemeiah.Kern.KeyId.{get_local_key_id, get_namespace_id}
use xemeiah.Kern.NamespaceAlias.Levels.{
  is_rebound, leaks, find_declaration-rebound, declarations_at-scope, set_local-walk, Run,
  Run-InScope,
}
use xemeiah.Kern.NamespaceAlias.Scope.{
  Map, Undo, Below, InScope, push-InScope, pop-InScope, has_namespace, has_local, update-swap,
  Undo-namespace,
}
use xemeiah.Kern.NamespaceAlias.{
  AliasDeclaration, NamespaceAlias, push, bind, Found, rebound, find_declaration, declarations_at,
  after_walk, set_local, pop, set_namespace_prefix,
}
use xemeiah.Prelude.{
  ℕ, ◌≡◌, ◌≢◌, Bool, true, false, not, ◌&&◌, ◌||◌, List, [], ◌∷◌, some, ◌==◌, assert_bug,
  assert_bug-eq-some, some-injective, update, arith, ap, sym, ◌∙◌, subst,
}

-- The level neither takes back a namespace of a prefix that it has not declared, nor has it set one.
Undo-other :
    (p n p₀ n₀ : Map) (l x : ℕ) (ds : List AliasDeclaration)
    → has_local l ds ≡ false
    → Undo p n p₀ n₀ ds
    → Undo p (update n l x) p₀ (update n₀ l x) ds × (n₀ l ≡ n l)
Undo-other p n p₀ n₀ l x [] h (e, f) =
    ((e, ap (λ (m : Map). update m l x) f), ap (λ (m : Map). m l) (sym f))
Undo-other p n p₀ n₀ l x (d ∷ ds) h u =
    let p₁ = update p d.namespace_id d.previous_local_key_id in
    let (ih, at) =
      Undo-other p₁ (update n d.local_key_id d.previous_namespace_id) p₀ n₀ l x ds (ground arith)
        u in
    let apart : l ≢ d.local_key_id = ground arith in
    (
      subst (λ (m : Map). Undo p₁ m p₀ (update n₀ l x) ds)
          (sym (update-swap n l d.local_key_id x d.previous_namespace_id apart)) ih,
      at ∙ ground arith,
    )

is_rebound-eq : (f : Found) → is_rebound f ≡ true → f ≡ rebound
is_rebound-eq f e = ground arith

leaks-parts :
    (overwrite : Bool) (alias_id ns : ℕ) (a : NamespaceAlias)
    → leaks overwrite alias_id ns a ≡ true
    → (overwrite || (a.namespace_id_of (get_local_key_id alias_id) == 0) ≡ false)
      × (find_declaration
            (get_local_key_id alias_id)
            ns
            (declarations_at a.current_stack_level a.stack)
          ≡ rebound)
      × (has_local (get_local_key_id alias_id) (declarations_at a.current_stack_level a.stack)
          ≡ false)
unfolding leaks
leaks-parts overwrite alias_id ns a e =
    let l = get_local_key_id alias_id in
    let ds = declarations_at a.current_stack_level a.stack in
    (ground arith, is_rebound-eq (find_declaration l ns ds) (ground arith), ground arith)

bind-outer :
    (l ns : ℕ) (a₀ a : NamespaceAlias) (ds : List AliasDeclaration)
    → InScope a₀ a ds
    → has_namespace ns ds ≡ true
    → has_local l ds ≡ false
    → InScope (record a₀ { namespace_id_of = update a₀.namespace_id_of l ns }) (bind l ns a) ds
      × (a₀.namespace_id_of l ≡ a.namespace_id_of l)
bind-outer l ns a₀ a ds s hn hl =
    let (u, at) =
      Undo-other a.local_key_id_of a.namespace_id_of a₀.local_key_id_of a₀.namespace_id_of l ns ds
        hl s.undo in
    (
      record {
        current = s.current;
        stack = s.stack;
        undo =
            Undo-namespace a.local_key_id_of (update a.namespace_id_of l ns) a₀.local_key_id_of
              (update a₀.namespace_id_of l ns) ns l ds hn u;
      },
      at,
    )

module _ (xmlns xmlns_ns : ℕ) where
  set_namespace_prefix-leaks :
      (overwrite : Bool) (alias_id ns : ℕ) (a a' : NamespaceAlias)
      → leaks overwrite alias_id ns a ≡ true
      → set_namespace_prefix xmlns xmlns_ns overwrite alias_id ns a ≡ some a'
      → bind (get_local_key_id alias_id) ns a ≡ a'
  unfolding set_namespace_prefix after_walk
  set_namespace_prefix-leaks overwrite alias_id ns a a' leak run =
      let l = get_local_key_id alias_id in
      let set_it = set_local overwrite l ns a in
      let checked =
        (alias_id == xmlns) || ((get_namespace_id alias_id == xmlns_ns) && not (ns == 0)) in
      let (c, run') = assert_bug-eq-some (not (l == 0)) (assert_bug checked set_it) run in
      let (c', run'') = assert_bug-eq-some checked set_it run' in
      let (walks, found, h) = leaks-parts overwrite alias_id ns a leak in
      some-injective _ _ (
        sym (ap (λ f. after_walk f l ns a) found)
        ∙ sym (set_local-walk overwrite l ns a walks)
        ∙ run'')

  -- A call that leaks outlives its level: `pop` right behind it gives back the state from before the
  -- level, but for the prefix, which keeps the namespace of the call; before the level it had the one
  -- that it had before the call.
  pub leak_outlives :
      (a₀ a a' : NamespaceAlias) (overwrite : Bool) (alias_id ns : ℕ)
      → Below a₀.current_stack_level a₀.stack
      → Run xmlns xmlns_ns (push a₀) a
      → leaks overwrite alias_id ns a ≡ true
      → set_namespace_prefix xmlns xmlns_ns overwrite alias_id ns a ≡ some a'
      → (pop a'
          ≡ some (record a₀ {
            namespace_id_of = update a₀.namespace_id_of (get_local_key_id alias_id) ns;
          }))
        × (a₀.namespace_id_of (get_local_key_id alias_id)
            ≡ a.namespace_id_of (get_local_key_id alias_id))
  leak_outlives a₀ a a' overwrite alias_id ns b run leak call =
      let l = get_local_key_id alias_id in
      let (ds, s) = Run-InScope xmlns xmlns_ns a₀ (push a₀) a [] b (push-InScope a₀) run in
      let (walks, found, h) = leaks-parts overwrite alias_id ns a leak in
      let here = declarations_at-scope a₀ a ds b s in
      let (s', at) =
        bind-outer l ns a₀ a ds s
          (find_declaration-rebound l ns ds (sym (ap (find_declaration l ns) here) ∙ found))
          (sym (ap (has_local l) here) ∙ h) in
      let outer : NamespaceAlias = record a₀ { namespace_id_of = update a₀.namespace_id_of l ns } in
      (
        sym (ap pop (set_namespace_prefix-leaks overwrite alias_id ns a a' leak call))
            ∙ pop-InScope outer (bind l ns a) ds b s',
        at,
      )
