-- ===== src/Kern/NamespaceAlias/Levels.antt =====
-- Calls between `push` and the matching `pop`, and when they are undone.
use xemeiah.Kern.KeyId.{get_local_key_id, get_namespace_id}
use xemeiah.Kern.NamespaceAlias.Scope.{
  declaration, Below, InScope, push-InScope, pop-InScope, has_namespace, has_local, declare-InScope,
  bind-InScope,
}
use xemeiah.Kern.NamespaceAlias.{
  AliasDeclaration, StackHeader, NamespaceAlias, push, declare, Found, same, conflict, rebound,
  not_found, find_declaration, declarations_at, after_walk, set_local, pop, set_namespace_prefix,
}
use xemeiah.Prelude.{
  ℕ, ◌+◌, ◌≡◌, refl, Bool, true, false, not, ◌&&◌, ◌||◌, List, [], ◌∷◌, some, ◌==◌, assert_bug,
  assert_bug-eq-some, some-injective, arith, ap, sym, ◌∙◌, subst, Bool-cases, inl, inr,
}

abbrev pub is_rebound : Found → Bool
is_rebound rebound = true
is_rebound found = false

-- Does the call give a prefix another namespace with no declaration of that prefix in the level?
unfoldable pub leaks : Bool → ℕ → ℕ → NamespaceAlias → Bool
leaks overwrite alias_id ns a =
    let ds = declarations_at a.current_stack_level a.stack in
    let l = get_local_key_id alias_id in
    not (overwrite || (a.namespace_id_of l == 0))
    && (is_rebound (find_declaration l ns ds) && not (has_local l ds))

pub find_declaration-rebound :
    (l ns : ℕ) (ds : List AliasDeclaration)
    → find_declaration l ns ds ≡ rebound
    → has_namespace ns ds ≡ true
unfolding find_declaration
find_declaration-rebound l ns [] e = cc
find_declaration-rebound l ns (d ∷ ds) e = ground (arith, find_declaration-rebound l ns ds)

pub declarations_at-scope :
    (a₀ a : NamespaceAlias) (ds : List AliasDeclaration)
    → Below a₀.current_stack_level a₀.stack
    → InScope a₀ a ds
    → declarations_at a.current_stack_level a.stack ≡ ds
declarations_at-scope a₀ a ds b s =
    ap (λ (n : ℕ). declarations_at n a.stack) s.current ∙ elim s.stack [
      | inl here ↦ ap (declarations_at (a₀.current_stack_level + 1)) here ∙ ground arith
      | inr (there, none_made) ↦
          ap (declarations_at (a₀.current_stack_level + 1)) there
          ∙ declarations_at-below a₀.current_stack_level a₀.stack b
          ∙ sym none_made
    ]
  where
    declarations_at-below :
        (n : ℕ) (l : List StackHeader) → Below n l → declarations_at (n + 1) l ≡ []
    declarations_at-below n [] b = refl
    declarations_at-below n (h ∷ l) b = ground arith

after_walk-InScope :
    (f : Found) (l ns : ℕ) (a₀ a a' : NamespaceAlias) (ds : List AliasDeclaration)
    → Below a₀.current_stack_level a₀.stack
    → InScope a₀ a ds
    → (f ≡ rebound → (has_namespace ns ds ≡ true) × (has_local l ds ≡ true))
    → after_walk f l ns a ≡ some a'
    → (ds' : List AliasDeclaration) × InScope a₀ a' ds'
unfolding after_walk
after_walk-InScope same l ns a₀ a a' ds b s there run =
    (ds, subst (λ t. InScope a₀ t ds) (some-injective _ _ run) s)
after_walk-InScope conflict l ns a₀ a a' ds b s there run = cc
after_walk-InScope rebound l ns a₀ a a' ds b s there run =
    let (hn, hl) = there refl in
    (ds, subst (λ t. InScope a₀ t ds) (some-injective _ _ run) (bind-InScope l ns a₀ a ds s hn hl))
after_walk-InScope not_found l ns a₀ a a' ds b s there run = (
  declaration l ns a ∷ ds,
  subst (λ t. InScope a₀ t (declaration l ns a ∷ ds)) (some-injective _ _ run)
      (declare-InScope l ns a₀ a ds b s),
)

set_local-declare :
    (overwrite : Bool) (l ns : ℕ) (a : NamespaceAlias)
    → overwrite || (a.namespace_id_of l == 0) ≡ true
    → set_local overwrite l ns a ≡ some (declare l ns a)
unfolding set_local
set_local-declare overwrite l ns a e = rw e refl

pub set_local-walk :
    (overwrite : Bool) (l ns : ℕ) (a : NamespaceAlias)
    → overwrite || (a.namespace_id_of l == 0) ≡ false
    → set_local overwrite l ns a
      ≡ after_walk (find_declaration l ns (declarations_at a.current_stack_level a.stack)) l ns a
unfolding set_local
set_local-walk overwrite l ns a e = rw e refl

-- In a level, what `setNamespacePrefix` does to its declarations, if it does not leak.
set_local-InScope :
    (overwrite : Bool) (l ns : ℕ) (a₀ a a' : NamespaceAlias) (ds : List AliasDeclaration)
    → Below a₀.current_stack_level a₀.stack
    → InScope a₀ a ds
    → (overwrite || (a.namespace_id_of l == 0) ≡ false
        → find_declaration l ns ds ≡ rebound
        → has_local l ds ≡ true)
    → set_local overwrite l ns a ≡ some a'
    → (ds' : List AliasDeclaration) × InScope a₀ a' ds'
set_local-InScope overwrite l ns a₀ a a' ds b s keep run =
    elim (Bool-cases (overwrite || (a.namespace_id_of l == 0))) [
      | inl e ↦ (
        declaration l ns a ∷ ds,
        subst (λ t. InScope a₀ t (declaration l ns a ∷ ds))
            (some-injective _ _ (sym (set_local-declare overwrite l ns a e) ∙ run))
            (declare-InScope l ns a₀ a ds b s),
      )
      | inr e ↦
          let f = find_declaration l ns (declarations_at a.current_stack_level a.stack) in
          let here = ap (find_declaration l ns) (declarations_at-scope a₀ a ds b s) in
          after_walk-InScope f l ns a₀ a a' ds b s
            (λ r. let r' = sym here ∙ r in (find_declaration-rebound l ns ds r', keep e r'))
            (sym (set_local-walk overwrite l ns a e) ∙ run)
    ]

Below-suc : (n : ℕ) (l : List StackHeader) → Below n l → Below (n + 1) l
Below-suc n [] b = b
Below-suc n (h ∷ l) b = omega arith

module _ (xmlns xmlns_ns : ℕ) where
  -- Calls of `setNamespacePrefix` that do not leak, and whole levels with their `push` and `pop`.
  pub data Run : NamespaceAlias → NamespaceAlias → Type 0 where
    done : {a : NamespaceAlias} → Run a a
    set :
        {a : NamespaceAlias} (overwrite : Bool) (alias_id ns : ℕ) (b c : NamespaceAlias)
        → leaks overwrite alias_id ns a ≡ false
        → set_namespace_prefix xmlns xmlns_ns overwrite alias_id ns a ≡ some b
        → Run b c
        → Run a c
    nested :
        {a : NamespaceAlias} (inner b c : NamespaceAlias)
        → Run (push a) inner
        → pop inner ≡ some b
        → Run b c
        → Run a c

  set_namespace_prefix-InScope :
      (overwrite : Bool) (alias_id ns : ℕ) (a₀ a a' : NamespaceAlias) (ds : List AliasDeclaration)
      → Below a₀.current_stack_level a₀.stack
      → InScope a₀ a ds
      → leaks overwrite alias_id ns a ≡ false
      → set_namespace_prefix xmlns xmlns_ns overwrite alias_id ns a ≡ some a'
      → (ds' : List AliasDeclaration) × InScope a₀ a' ds'
  unfolding set_namespace_prefix leaks
  set_namespace_prefix-InScope overwrite alias_id ns a₀ a a' ds b s keep run =
      let l = get_local_key_id alias_id in
      let set_it = set_local overwrite l ns a in
      let checked =
        (alias_id == xmlns) || ((get_namespace_id alias_id == xmlns_ns) && not (ns == 0)) in
      let (c, run') = assert_bug-eq-some (not (l == 0)) (assert_bug checked set_it) run in
      let (c', run'') = assert_bug-eq-some checked set_it run' in
      set_local-InScope overwrite l ns a₀ a a' ds b s
        (λ e r.
          let there = declarations_at-scope a₀ a ds b s in
          ground (arith, ap (find_declaration l ns) there, ap (has_local l) there))
        run''

  InScope-Below :
      (a₀ a : NamespaceAlias) (ds : List AliasDeclaration)
      → Below a₀.current_stack_level a₀.stack
      → InScope a₀ a ds
      → Below a.current_stack_level a.stack
  InScope-Below a₀ a ds b s = elim s.stack [
    | inl here ↦ subst (Below a.current_stack_level) (sym here) (omega (arith, s.current))
    | inr (there, none_made) ↦ subst (Below a.current_stack_level) (sym there) (
        subst (λ (n : ℕ). Below n a₀.stack) (sym s.current)
          (Below-suc a₀.current_stack_level a₀.stack b))
  ]

  pub Run-InScope :
      (a₀ a a' : NamespaceAlias) (ds : List AliasDeclaration)
      → Below a₀.current_stack_level a₀.stack
      → InScope a₀ a ds
      → Run a a'
      → (ds' : List AliasDeclaration) × InScope a₀ a' ds'
  Run-InScope a₀ a a' ds b s done = (ds, s)
  Run-InScope a₀ a a' ds b s (set overwrite alias_id ns mid c keep run rest) =
      let (ds', s') = set_namespace_prefix-InScope overwrite alias_id ns a₀ a mid ds b s keep run in
      Run-InScope a₀ mid a' ds' b s' rest
  Run-InScope a₀ a a' ds b s (nested inner mid c body out rest) =
      let below = InScope-Below a₀ a ds b s in
      let (ds', s') = Run-InScope a (push a) inner [] below (push-InScope a) body in
      let back : a ≡ mid = some-injective _ _ (sym (pop-InScope a inner ds' below s') ∙ out) in
      Run-InScope a₀ mid a' ds b (subst (λ t. InScope a₀ t ds) back s) rest

  -- A level gives everything back: after `push`, any calls of `setNamespacePrefix` that do not leak
  -- and that end, and any levels between them, `pop` gives the state from before.
  pub level_restores :
      (a inner : NamespaceAlias)
      → Below a.current_stack_level a.stack
      → Run (push a) inner
      → pop inner ≡ some a
  level_restores a inner b run =
      let (ds, s) = Run-InScope a (push a) inner [] b (push-InScope a) run in
      pop-InScope a inner ds b s
