-- ===== src/Kern/NamespaceAlias/Scope.antt =====
-- What a level of prefixes does: `push`, any `setNamespacePrefix` calls and the matching `pop`.
use mathlib.Core.Path.{fun_ext}
use xemeiah.Kern.NamespaceAlias.{
  AliasDeclaration, StackHeader, NamespaceAlias, push, create_stack_header, with_declaration, bind,
  declare, rewind, pop_headers, pop,
}
use xemeiah.Prelude.{
  ℕ, ◌+◌, ◌≤◌, ◌≡◌, refl, ◌≢◌, Bool, true, false, ◌||◌, List, [], ◌∷◌, some, ◌==◌, assert_bug,
  update, arith, ap, sym, ◌∙◌, subst, Bool-cases, inl, inr, ◌⊎◌,
}

abbrev pub Map : Type 0
Map = ℕ → ℕ

-- Taking the declarations back, newest first, turns the two maps into `p₀` and `n₀`.
abbrev pub Undo : (p n p₀ n₀ : Map) → List AliasDeclaration → Type 0
Undo p n p₀ n₀ [] = (p ≡ p₀) × (n ≡ n₀)
Undo p n p₀ n₀ (d ∷ ds) =
    Undo (update p d.namespace_id d.previous_local_key_id)
      (update n d.local_key_id d.previous_namespace_id) p₀ n₀ ds

abbrev restored : NamespaceAlias → Map → Map → NamespaceAlias
restored a p₀ n₀ = record a { local_key_id_of = p₀; namespace_id_of = n₀ }

pub rewind-Undo :
    (ds : List AliasDeclaration) (a : NamespaceAlias) (p₀ n₀ : Map)
    → Undo a.local_key_id_of a.namespace_id_of p₀ n₀ ds
    → rewind ds a ≡ record a { local_key_id_of = p₀; namespace_id_of = n₀ }
unfolding rewind
rewind-Undo [] a p₀ n₀ (e, f) = λ i. record a { local_key_id_of = e i; namespace_id_of = f i }
rewind-Undo (d ∷ ds) a p₀ n₀ u =
    rewind-Undo ds
      (record a {
        local_key_id_of = update a.local_key_id_of d.namespace_id d.previous_local_key_id;
        namespace_id_of = update a.namespace_id_of d.local_key_id d.previous_namespace_id;
      })
      p₀ n₀ u

pub update-back : (m : Map) (k a : ℕ) → update (update m k a) k (m k) ≡ m
update-back m k a = fun_ext λ q. ground (arith, λ (e : k ≡ q). ap m e)

update-twice : (m : Map) (k a b : ℕ) → update (update m k a) k b ≡ update m k b
update-twice m k a b = fun_ext λ q. ground arith

pub update-swap :
    (m : Map) (k j a b : ℕ) → k ≢ j → update (update m k a) j b ≡ update (update m j b) k a
update-swap m k j a b ne = fun_ext λ q. ground arith

-- No header is above the current level.
abbrev pub Below : ℕ → List StackHeader → Type 0
Below n [] = Unit
Below n (h ∷ rest) = h.level ≤ n

-- `a` is one level above `a₀`, in which there are the declarations `ds`.
pub record InScope (a₀ a : NamespaceAlias) (ds : List AliasDeclaration) : Type 0 where
  pub current : a.current_stack_level ≡ a₀.current_stack_level + 1
  pub stack :
      (a.stack ≡ record { level = a₀.current_stack_level + 1; declarations = ds } ∷ a₀.stack)
      ⊎ ((a.stack ≡ a₀.stack) × (ds ≡ []))
  pub undo : Undo a.local_key_id_of a.namespace_id_of a₀.local_key_id_of a₀.namespace_id_of ds

pub push-InScope : (a : NamespaceAlias) → InScope a (push a) []
unfolding push
push-InScope a = record { current = refl; stack = inr (refl, refl); undo = (refl, refl) }

pop_nothing :
    (a : NamespaceAlias) (l : List StackHeader) (n : ℕ)
    → Below n l
    → a.current_stack_level ≡ n + 1
    → pop_headers l a ≡ a
unfolding pop_headers
pop_nothing a [] n b e = refl
pop_nothing a (h ∷ l) n b e = ground arith

pop_here :
    (a : NamespaceAlias) (n : ℕ) (ds : List AliasDeclaration) (rest : List StackHeader)
    → a.current_stack_level ≡ n
    → pop_headers (record { level = n; declarations = ds } ∷ rest) a
      ≡ record (rewind ds a) { stack = rest }
unfolding pop_headers
pop_here a n ds rest e = let t : (n == a.current_stack_level) ≡ true = ground arith in rw t refl

pop-eq :
    (a : NamespaceAlias) (n : ℕ)
    → a.current_stack_level ≡ n + 1
    → pop a ≡ some (record (pop_headers a.stack a) { current_stack_level = n })
unfolding pop assert_bug
pop-eq a n e = ground arith

Undo-nil :
    {p n p₀ n₀ : Map} (ds : List AliasDeclaration)
    → Undo p n p₀ n₀ ds
    → ds ≡ []
    → (p ≡ p₀) × (n ≡ n₀)
Undo-nil [] u e = u
Undo-nil (d ∷ ds) u e = cc

abbrev leave : ℕ → NamespaceAlias → NamespaceAlias
leave n a = record a { current_stack_level = n }

pop_headers-restored :
    (a₀ a : NamespaceAlias) (ds : List AliasDeclaration)
    → Below a₀.current_stack_level a₀.stack
    → InScope a₀ a ds
    → leave a₀.current_stack_level (pop_headers a.stack a) ≡ a₀
pop_headers-restored a₀ a ds b s = elim s.stack [
  | inl here ↦
      let n = a₀.current_stack_level in
      let e : leave n (pop_headers a.stack a)
          ≡ leave n (record (rewind ds a) { stack = a₀.stack }) =
        ap (λ (l : List StackHeader). leave n (pop_headers l a)) here
        ∙ ap (leave n) (pop_here a (n + 1) ds a₀.stack s.current) in
      e ∙ (λ i. leave n (record (rewind-Undo ds a a₀.local_key_id_of a₀.namespace_id_of s.undo i) {
        stack = a₀.stack;
      }))
  | inr (there, none_made) ↦
      let n = a₀.current_stack_level in
      let (p, q) = Undo-nil ds s.undo none_made in
      let e : leave n (pop_headers a.stack a) ≡ leave n a =
        ap (λ (l : List StackHeader). leave n (pop_headers l a)) there
        ∙ ap (leave n) (pop_nothing a a₀.stack n b s.current) in
      e ∙ (λ i. record {
        local_key_id_of = p i;
        namespace_id_of = q i;
        current_stack_level = n;
        stack = there i;
      })
]

-- `pop` gives back the state from before the level.
pub pop-InScope :
    (a₀ a : NamespaceAlias) (ds : List AliasDeclaration)
    → Below a₀.current_stack_level a₀.stack
    → InScope a₀ a ds
    → pop a ≡ some a₀
pop-InScope a₀ a ds b s =
    let n = a₀.current_stack_level in
    pop-eq a n s.current
    ∙ ap (λ (t : NamespaceAlias). some (leave n t)) (pop_headers-restored a₀ a ds b s)

-- Is there a declaration of the namespace? Of the prefix?
abbrev pub has_namespace : ℕ → List AliasDeclaration → Bool
has_namespace ns [] = false
has_namespace ns (d ∷ ds) = (d.namespace_id == ns) || has_namespace ns ds

abbrev pub has_local : ℕ → List AliasDeclaration → Bool
has_local l [] = false
has_local l (d ∷ ds) = (d.local_key_id == l) || has_local l ds

-- A namespace that is declared there gets its prefix back whatever it has.
pub Undo-namespace :
    (p n p₀ n₀ : Map) (ns x : ℕ) (ds : List AliasDeclaration)
    → has_namespace ns ds ≡ true
    → Undo p n p₀ n₀ ds
    → Undo (update p ns x) n p₀ n₀ ds
Undo-namespace p n p₀ n₀ ns x [] h u = cc
Undo-namespace p n p₀ n₀ ns x (d ∷ ds) h u =
    let n₁ = update n d.local_key_id d.previous_namespace_id in
    elim (Bool-cases (d.namespace_id == ns)) [
      | inl e ↦
          let same_key : ns ≡ d.namespace_id = ground arith in
          subst (λ (m : Map). Undo m n₁ p₀ n₀ ds)
            (sym (
              ap (λ (k : ℕ). update (update p k x) d.namespace_id d.previous_local_key_id) same_key
              ∙ update-twice p d.namespace_id x d.previous_local_key_id))
            u
      | inr e ↦
          subst (λ (m : Map). Undo m n₁ p₀ n₀ ds)
            (sym (update-swap p ns d.namespace_id x d.previous_local_key_id (ground arith)))
            (Undo-namespace (update p d.namespace_id d.previous_local_key_id) n₁ p₀ n₀ ns x ds
              (ground arith) u)
    ]

-- A prefix that is declared there gets its namespace back whatever it has.
Undo-local :
    (p n p₀ n₀ : Map) (l x : ℕ) (ds : List AliasDeclaration)
    → has_local l ds ≡ true
    → Undo p n p₀ n₀ ds
    → Undo p (update n l x) p₀ n₀ ds
Undo-local p n p₀ n₀ l x [] h u = cc
Undo-local p n p₀ n₀ l x (d ∷ ds) h u =
    let p₁ = update p d.namespace_id d.previous_local_key_id in
    elim (Bool-cases (d.local_key_id == l)) [
      | inl e ↦
          let same_key : l ≡ d.local_key_id = ground arith in
          subst (λ (m : Map). Undo p₁ m p₀ n₀ ds)
            (sym (
              ap (λ (k : ℕ). update (update n k x) d.local_key_id d.previous_namespace_id) same_key
              ∙ update-twice n d.local_key_id x d.previous_namespace_id))
            u
      | inr e ↦
          subst (λ (m : Map). Undo p₁ m p₀ n₀ ds)
            (sym (update-swap n l d.local_key_id x d.previous_namespace_id (ground arith)))
            (Undo-local p₁ (update n d.local_key_id d.previous_namespace_id) p₀ n₀ l x ds
              (ground arith) u)
    ]

create_stack_header-here :
    (n : ℕ) (ds : List AliasDeclaration) (rest : List StackHeader)
    → create_stack_header n (record { level = n; declarations = ds } ∷ rest)
      ≡ record { level = n; declarations = ds } ∷ rest
unfolding create_stack_header
create_stack_header-here n ds rest = ground arith

create_stack_header-new :
    (n : ℕ) (l : List StackHeader)
    → Below n l
    → create_stack_header (n + 1) l ≡ record { level = n + 1; declarations = [] } ∷ l
unfolding create_stack_header
create_stack_header-new n [] b = refl
create_stack_header-new n (h ∷ l) b = ground arith

-- The headers that a declaration is put on.
headers :
    (a₀ a : NamespaceAlias) (ds : List AliasDeclaration)
    → Below a₀.current_stack_level a₀.stack
    → InScope a₀ a ds
    → create_stack_header a.current_stack_level a.stack
      ≡ record { level = a₀.current_stack_level + 1; declarations = ds } ∷ a₀.stack
headers a₀ a ds b s = ap (λ (n : ℕ). create_stack_header n a.stack) s.current ∙ elim s.stack [
  | inl here ↦
      ap (create_stack_header (a₀.current_stack_level + 1)) here
      ∙ create_stack_header-here (a₀.current_stack_level + 1) ds a₀.stack
  | inr (there, none_made) ↦
      ap (create_stack_header (a₀.current_stack_level + 1)) there
      ∙ create_stack_header-new a₀.current_stack_level a₀.stack b
      ∙ ap
          (λ (l : List AliasDeclaration).
            record { level = a₀.current_stack_level + 1; declarations = l } ∷ a₀.stack)
          (sym none_made)
]

abbrev pub declaration : ℕ → ℕ → NamespaceAlias → AliasDeclaration
declaration l ns a = record {
  local_key_id = l;
  namespace_id = ns;
  previous_local_key_id = a.local_key_id_of ns;
  previous_namespace_id = a.namespace_id_of l;
}

pub declare-InScope :
    (l ns : ℕ) (a₀ a : NamespaceAlias) (ds : List AliasDeclaration)
    → Below a₀.current_stack_level a₀.stack
    → InScope a₀ a ds
    → InScope a₀ (declare l ns a) (declaration l ns a ∷ ds)
unfolding declare
declare-InScope l ns a₀ a ds b s = record {
  current = s.current;
  stack = inl (ap (with_declaration (declaration l ns a)) (headers a₀ a ds b s));
  undo =
      subst
        (λ (m : Map).
          Undo m (update (update a.namespace_id_of l ns) l (a.namespace_id_of l)) a₀.local_key_id_of
            a₀.namespace_id_of ds)
        (sym (update-back a.local_key_id_of ns l))
        (subst (λ (m : Map). Undo a.local_key_id_of m a₀.local_key_id_of a₀.namespace_id_of ds)
          (sym (update-back a.namespace_id_of l ns)) s.undo);
}

pub bind-InScope :
    (l ns : ℕ) (a₀ a : NamespaceAlias) (ds : List AliasDeclaration)
    → InScope a₀ a ds
    → has_namespace ns ds ≡ true
    → has_local l ds ≡ true
    → InScope a₀ (bind l ns a) ds
bind-InScope l ns a₀ a ds s hn hl = record {
  current = s.current;
  stack = s.stack;
  undo =
      Undo-namespace a.local_key_id_of (update a.namespace_id_of l ns) a₀.local_key_id_of
        a₀.namespace_id_of ns l ds hn
        (Undo-local a.local_key_id_of a.namespace_id_of a₀.local_key_id_of a₀.namespace_id_of l ns
          ds hl s.undo);
}
