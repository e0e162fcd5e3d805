-- ===== src/XProcessor/Binding.antt =====
-- What `setString` does to the state (xprocessor/env.hpp, env.cpp), and scopes as a whole.
use mathlib.Core.Path.{fun_ext}
use xemeiah.XProcessor.Env.{
  EnvItem, EnvEntry, Env, push_env, pop_env, set_string, get_variable, create_env_entry,
  get_head_entry, new_env_item, bind_item, assign_env_item, set_at, set_node_set,
}
use xemeiah.XProcessor.Scope.{
  Undo, Undo-frame, IsValid, InScope, Restored, Below, push_env-InScope, pop_env-Restored, Undo-nil,
}
use xemeiah.Prelude.{
  ℕ, ◌+◌, ◌≡◌, refl, true, false, if◌then◌else◌, List, [], ◌∷◌, some, ◌==◌, update, has, arith,
  subst, inl, sym, ◌∙◌, ap, ◌<◌, Option, none, inr, length,
}

update-update :
    {A : Type 0} (m : ℕ → A) (p : ℕ) (a b : A) → update (update m p a) p b ≡ update m p b
update-update m p a b = fun_ext λ q. ground arith

==_refl : (p : ℕ) → (p == p) ≡ true
==_refl p = ground arith

update-back : {A : Type 0} (m : ℕ → A) (k : ℕ) (a : A) → update (update m k a) k (m k) ≡ m
update-back m k a = fun_ext λ q. ground (arith, λ (e : k ≡ q). ap m e)

module _ {V : Type 0} where
  -- The state that `setString` leaves when the head entry is there.
  abbrev bound : (key : ℕ) (value : V) (n first : ℕ) (rest : List EnvEntry) → Env V → Env V
  bound key value n first rest e = record e {
    entries = record { env_id = n; first_item = e.next_item } ∷ rest;
    item_map = update e.item_map key e.next_item;
    item = update e.item e.next_item (
        some (record {
          key_id = key;
          env_id = n;
          next_in_entry = first;
          previous_item = e.item_map key;
          node_set = value;
        }));
    next_item = e.next_item + 1;
  }

  assigned : (p : ℕ) (it : EnvItem V) (n first : ℕ) (rest : List EnvEntry) → Env V → Env V
  assigned p it n first rest e = record e {
    entries = record { env_id = n; first_item = p } ∷ rest;
    item = update e.item p (
        some
          (record it { env_id = n; next_in_entry = first; previous_item = e.item_map it.key_id }));
    item_map = update e.item_map it.key_id p;
  }

  assign_env_item-assigned :
      (p : ℕ) (it : EnvItem V) (n first : ℕ) (rest : List EnvEntry) (e : Env V)
      → e.entries ≡ record { env_id = n; first_item = first } ∷ rest
      → e.item p ≡ some it
      → assign_env_item true p e ≡ some (assigned p it n first rest e)
  unfolding assign_env_item bind_item assigned
  assign_env_item-assigned p it n first rest e head at = ground arith

  set_node_set-some :
      (value : V) (p : ℕ) (e : Env V) (it : EnvItem V)
      → e.item p ≡ some it
      → set_node_set value (some (p, e))
        ≡ some (record e { item = update e.item p (some (record it { node_set = value })) })
  unfolding set_node_set
  set_node_set-some value p e it at = ground arith

  set_string-bound :
      (empty value : V) (key n first : ℕ) (rest : List EnvEntry) (e : Env V)
      → e.entries ≡ record { env_id = n; first_item = first } ∷ rest
      → set_node_set value (set_at true empty key e) ≡ some (bound key value n first rest e)
  unfolding set_at new_env_item assigned
  set_string-bound empty value key n first rest e head =
      let fresh : EnvItem V = record {
        key_id = key;
        env_id = 0;
        next_in_entry = 0;
        previous_item = 0;
        node_set = empty;
      } in
      let run =
        assign_env_item-assigned e.next_item fresh n first rest (new_env_item empty key e) head
          (ground arith) in
      rw (set_at, run)
        (set_node_set-some value e.next_item
            (assigned e.next_item fresh n first rest (new_env_item empty key e))
            (record {
              key_id = key;
              env_id = n;
              next_in_entry = first;
              previous_item = e.item_map key;
              node_set = empty;
            })
            (ground arith)
          ∙ ap (λ h. some (record (bound key value n first rest e) { item = h }))
              (update-update (update e.item e.next_item (some fresh)) e.next_item _ _
                ∙ update-update e.item e.next_item _ _))

  get_head_entry-entries :
      (e : Env V) (l : List EnvEntry) (n : ℕ)
      → Below n l
      → e.entries ≡ l
      → e.current_env_id ≡ n + 1
      → get_head_entry e ≡ create_env_entry e
  unfolding get_head_entry
  get_head_entry-entries e [] n below same current = rw same
  get_head_entry-entries e (h ∷ l) n below same current =
      let ne : (h.env_id == e.current_env_id) ≡ false = ground arith in rw (same, ne)

  get_head_entry-there :
      (e : Env V) (n first : ℕ) (rest : List EnvEntry)
      → e.entries ≡ record { env_id = n; first_item = first } ∷ rest
      → e.current_env_id ≡ n
      → get_head_entry e ≡ e
  unfolding get_head_entry
  get_head_entry-there e n first rest here current =
      let eq : (n == e.current_env_id) ≡ true = ground arith in rw (here, eq)

  bound-InScope :
      (key : ℕ) (value : V) (first : ℕ) (e₀ e : Env V) (ps : List ℕ)
      → IsValid e₀
      → InScope e₀ e ps
      → Undo e.item first e.item_map e₀.item_map ps
      → InScope e₀ (bound key value (e₀.current_env_id + 1) first e₀.entries e) (e.next_item ∷ ps)
  bound-InScope key value first e₀ e ps v s u =
      let new : has e.next_item ps ≡ false = ground (arith, s.made e.next_item) in
      let e' = bound key value (e₀.current_env_id + 1) first e₀.entries e in
      record {
        first = e.next_item;
        current = s.current;
        entries = inl refl;
        undo = (
          refl,
          ground (arith, v.started, s.ordered),
          new,
          (
            record {
              key_id = key;
              env_id = e₀.current_env_id + 1;
              next_in_entry = first;
              previous_item = e.item_map key;
              node_set = value;
            },
            ground arith,
            Undo-frame e.item e'.item first
                (update (update e.item_map key e.next_item) key (e.item_map key)) e₀.item_map ps
                (subst (λ m. Undo e.item first m e₀.item_map ps)
                  (sym (update-back e.item_map key e.next_item)) u)
                (λ q i. ground (arith, s.made q)),
          ),
        );
        ordered = omega (arith, s.ordered);
        made = λ q i. ground (arith, s.made q, s.ordered);
        kept = λ q l. ground (arith, s.kept q, s.ordered);
      }

  -- What a `setString` call in the scope leaves: the same scope with one more item, which has the
  -- value and is what the key gives; the map and the heap change at that item only.
  pub record Bound (e₀ e e' : Env V) (ps : List ℕ) (key : ℕ) (value : V) : Type 0 where
    pub scope : InScope e₀ e' (e.next_item ∷ ps)
    pub item : EnvItem V
    pub found : get_variable key e' ≡ (if key == 0 then none else some item)
    pub value_is : item.node_set ≡ value
    pub map : e'.item_map ≡ update e.item_map key e.next_item
    pub heap : e'.item ≡ update e.item e.next_item (some item)

  bound-Bound :
      (key : ℕ) (value : V) (first : ℕ) (e₀ e : Env V) (ps : List ℕ)
      → IsValid e₀
      → InScope e₀ e ps
      → Undo e.item first e.item_map e₀.item_map ps
      → Bound e₀ e (bound key value (e₀.current_env_id + 1) first e₀.entries e) ps key value
  unfolding get_variable
  bound-Bound key value first e₀ e ps v s u = record {
    scope = bound-InScope key value first e₀ e ps v s u;
    item = record {
      key_id = key;
      env_id = e₀.current_env_id + 1;
      next_in_entry = first;
      previous_item = e.item_map key;
      node_set = value;
    };
    found = ground (arith, v.started, s.ordered);
    value_is = refl;
    map = refl;
    heap = refl;
  }

  -- In an open scope `setString` does not fail, and binds the key to the value in that scope.
  pub set_string-Bound :
      (empty value : V) (key : ℕ) (e₀ e : Env V) (ps : List ℕ)
      → IsValid e₀
      → InScope e₀ e ps
      → (e' : Env V) × (set_string empty key value e ≡ some e') × Bound e₀ e e' ps key value
  unfolding set_string
  set_string-Bound empty value key e₀ e ps v s = elim s.entries [
    | inl here ↦ (
      bound key value (e₀.current_env_id + 1) s.first e₀.entries e,
      rw
          (
            set_string,
            get_head_entry-there e (e₀.current_env_id + 1) s.first e₀.entries here s.current,
          )
          (set_string-bound empty value key (e₀.current_env_id + 1) s.first e₀.entries e here),
      bound-Bound key value s.first e₀ e ps v s s.undo,
    )
    | inr (same, none_made) ↦
        let e₁ : Env V = create_env_entry e in
        let made = get_head_entry-entries e e₀.entries e₀.current_env_id v.below same s.current in
        (
          bound key value (e₀.current_env_id + 1) 0 e₀.entries e,
          rw (set_string, made)
              (set_string-bound empty value key (e₀.current_env_id + 1) 0 e₀.entries e₁ (
                ap (λ n. record { env_id = n; first_item = 0 } ∷ e.entries) s.current
                ∙ ap (λ l. record { env_id = e₀.current_env_id + 1; first_item = 0 } ∷ l) same)),
          bound-Bound key value 0 e₀ e ps v s (
              rw none_made
                (refl, Undo-nil e.item s.first e.item_map e₀.item_map ps s.undo none_made)),
        )
  ]

  -- Several `setString` calls, the first of the list first.
  abbrev pub set_strings : V → List (ℕ × V) → Env V → Option (Env V)
  set_strings empty [] e = some e
  set_strings empty ((key, value) ∷ l) e = elim (set_string empty key value e) [
    | none ↦ none
    | some e' ↦ set_strings empty l e'
  ]

  set_strings-InScope :
      (empty : V) (l : List (ℕ × V)) (e₀ e : Env V) (ps : List ℕ)
      → IsValid e₀
      → InScope e₀ e ps
      → (e' : Env V) × (ps' : List ℕ) × (set_strings empty l e ≡ some e')
        × InScope e₀ e' ps'
        × (length ps' ≡ length l + length ps)
  set_strings-InScope empty [] e₀ e ps v s = (e, ps, refl, s, omega arith)
  set_strings-InScope empty ((key, value) ∷ l) e₀ e ps v s =
      let (e₁, run, b) = set_string-Bound empty value key e₀ e ps v s in
      let (e', ps', runs, s', len) =
        set_strings-InScope empty l e₀ e₁ (e.next_item ∷ ps) v b.scope in
      (e', ps', rw (set_strings, run) runs, s', len ∙ omega arith)

  -- A scope undoes what was bound in it: after `pushEnv`, any number of `setString` calls and
  -- `popEnv`, which all succeed, the level, the entries and the map of variables are what they were,
  -- and so is every item made before the scope.
  pub scope_restores :
      (empty : V) (l : List (ℕ × V)) (e : Env V) (fuel : ℕ)
      → IsValid e
      → length l < fuel
      → (inner : Env V) × (outer : Env V) × (set_strings empty l (push_env e) ≡ some inner)
        × (pop_env fuel inner ≡ some outer)
        × Restored e outer
  scope_restores empty l e fuel v enough =
      let (inner, ps, runs, s, len) =
        set_strings-InScope empty l e (push_env e) [] v (push_env-InScope e) in
      let (outer, run, back) = pop_env-Restored fuel e inner ps v s (omega arith) in
      (inner, outer, runs, run, back)
