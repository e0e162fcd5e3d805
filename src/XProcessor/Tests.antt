-- ===== src/XProcessor/Tests.antt =====
-- Scopes of variables, run on a new environment; the values are numbers.
use xemeiah.XProcessor.Binding.{Bound, set_string-Bound, set_strings, scope_restores}
use xemeiah.XProcessor.Env.{
  Env, new_env, free_items, push_env, pop_env, set_string, set_variable, get_variable, has_variable,
}
use xemeiah.XProcessor.Scope.{IsValid, Restored, push_env-InScope}
use xemeiah.Prelude.{ℕ, ◌≡◌, refl, Bool, true, false, [], ◌∷◌, Option, none, some, arith}

new_env-IsValid : IsValid {V = ℕ} new_env
unfolding new_env
new_env-IsValid = record { below = tt; started = omega arith }

set_string-Bound_example :
    (e' : Env ℕ) × (set_string 0 5 42 (push_env new_env) ≡ some e')
    × Bound new_env (push_env new_env) e' [] 5 42
set_string-Bound_example =
    set_string-Bound 0 42 5 new_env (push_env new_env) [] new_env-IsValid (push_env-InScope new_env)

scope_restores_example :
    (inner : Env ℕ) × (outer : Env ℕ) × (set_strings 0
        ((5, 42) ∷ (6, 43) ∷ (5, 44) ∷ [])
        (push_env new_env)
      ≡ some inner)
    × (pop_env 4 inner ≡ some outer)
    × Restored new_env outer
scope_restores_example =
    scope_restores 0 ((5, 42) ∷ (6, 43) ∷ (5, 44) ∷ []) new_env 4 new_env-IsValid (omega arith)

-- The values that a key has in the first state, if the runs up to there succeed.
abbrev value_of : ℕ → Option (Env ℕ) → Option ℕ
value_of key none = none
value_of key (some e) = elim (get_variable key e) [ none ↦ none | some it ↦ some it.node_set ]

abbrev then_ : Option (Env ℕ) → (Env ℕ → Option (Env ℕ)) → Option (Env ℕ)
then_ none f = none
then_ (some e) f = f e

abbrev forget : Option (ℕ × Env ℕ) → Option (Env ℕ)
forget none = none
forget (some (p, e)) = some e

-- A scope binds key 5 for itself, then in the entry behind it; one `popEnv` follows, or two.
abbrev behind : Option (Env ℕ)
behind = then_ (set_string 0 5 42 (push_env new_env)) (λ e. forget (set_variable 7 5 true e))

abbrev has_five : Option (Env ℕ) → Bool
has_five none = false
has_five (some e) = has_variable 5 e

-- After the first `popEnv` the variable of the entry behind is not found.
behind_pop_test : has_five (then_ behind (λ e. pop_env 3 e)) ≡ false
unfolding set_string set_variable pop_env new_env has_variable free_items
behind_pop_test = refl

-- After the second the map names a freed item.
behind_pop_pop_test :
    (has_five (then_ (then_ behind (λ e. pop_env 3 e)) (λ e. pop_env 3 e)) ≡ true)
    × (value_of 5 (then_ (then_ behind (λ e. pop_env 3 e)) (λ e. pop_env 3 e)) ≡ none)
unfolding set_string set_variable pop_env new_env get_variable free_items
behind_pop_pop_test = (refl, refl)
