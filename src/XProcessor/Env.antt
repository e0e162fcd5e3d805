-- ===== src/XProcessor/Env.antt =====
-- Variables and their scopes (xprocessor/env.hpp, env.cpp, include/Xemeiah/xprocessor/env.h).
-- An `EnvItem` lies on a heap; a freed one is `none`, and reading it stops the run. The entries that
-- `lastEntry` links are a list, head first. 0 is NULL, also for a key that `itemMap` does not hold.
-- The node set of a variable is of any type `V`. Documents and document allocators that an entry
-- also owns are left out: they share no state with the variables.
use xemeiah.Prelude.{
  ℕ, zero, suc, ◌+◌, ◌-◌, Bool, true, false, not, ◌&&◌, List, [], ◌∷◌, Option, none, some, ◌==◌,
  ltb, if◌then◌else◌, assert_bug, update,
}

pub record EnvItem (V : Type 0) : Type 0 where
  pub key_id : ℕ
  pub env_id : ℕ
  pub next_in_entry : ℕ
  pub previous_item : ℕ
  pub node_set : V

pub record EnvEntry : Type 0 where
  pub env_id : ℕ
  pub first_item : ℕ

pub record Env (V : Type 0) : Type 0 where
  pub current_env_id : ℕ
  pub entries : List EnvEntry
  pub item_map : ℕ → ℕ
  pub item : ℕ → Option (EnvItem V)
  pub next_item : ℕ

abbrev pub drop_head : List EnvEntry → List EnvEntry
drop_head [] = []
drop_head (h ∷ rest) = rest

module _ {V : Type 0} where
  unfoldable pub push_env : Env V → Env V
  push_env e = record e { current_env_id = e.current_env_id + 1 }

  -- The constructor `Env` pushes twice.
  unfoldable pub new_env : Env V
  unfolding push_env
  new_env = push_env (
      push_env (record {
        current_env_id = 0;
        entries = [];
        item_map = λ k. 0;
        item = λ p. none;
        next_item = 1;
      }))

  -- `createEnvEntry`
  unfoldable pub create_env_entry : Env V → Env V
  create_env_entry e = record e {
    entries = record { env_id = e.current_env_id; first_item = 0 } ∷ e.entries;
  }

  unfoldable pub head_entry_of : List EnvEntry → Env V → Env V
  unfolding create_env_entry
  head_entry_of [] e = create_env_entry e
  head_entry_of (h ∷ rest) e = if h.env_id == e.current_env_id then e else create_env_entry e

  -- Afterwards the head entry is the one of the current environment.
  unfoldable pub get_head_entry : Env V → Env V
  unfolding head_entry_of
  get_head_entry e = head_entry_of e.entries e

  -- The items of the entry, from the one at `p` on: each gives its key back to the item that it
  -- hid, or takes the key out of the map, and is deleted.
  unfoldable pub free_items : ℕ → ℕ → Env V → Option (Env V)
  free_items zero p e = none
  free_items (suc fuel) p e = if p == 0 then some e else elim (e.item p) [
    | none ↦ none
    | some it ↦ free_items fuel it.next_in_entry (record e {
      item_map = update e.item_map it.key_id it.previous_item;
      item = update e.item p none;
    })
  ]

  unfoldable pub free_env_entry : ℕ → EnvEntry → Env V → Option (Env V)
  free_env_entry fuel head e = elim (free_items fuel head.first_item e) [
    | none ↦ none
    | some e' ↦ some (record e' { entries = drop_head e'.entries })
  ]

  leave_env : Env V → Option (Env V)
  leave_env e = some (record e { current_env_id = e.current_env_id - 1 })

  pop_entries : ℕ → List EnvEntry → Env V → Option (Env V)
  unfolding free_env_entry leave_env
  pop_entries fuel [] e = leave_env e
  pop_entries fuel (h ∷ rest) e =
      if h.env_id == e.current_env_id
      then elim (free_env_entry fuel h e) [ none ↦ none | some e' ↦ leave_env e' ]
      else leave_env e

  unfoldable pub pop_env : ℕ → Env V → Option (Env V)
  unfolding pop_entries assert_bug
  pop_env fuel e = assert_bug (not (e.current_env_id == 0)) (pop_entries fuel e.entries e)

  -- `getBehindEntry`: the entry of the environment below the current one, made if it is not there.
  -- The result says whether it is the head (true) or the entry under the head (false).
  behind_entry_of : List EnvEntry → Env V → Option (Bool × Env V)
  unfolding assert_bug
  behind_entry_of [] e =
      some
        (true, record e { entries = record { env_id = e.current_env_id - 1; first_item = 0 } ∷ [] })
  behind_entry_of (h ∷ []) e =
      if h.env_id == e.current_env_id - 1
      then some (true, e)
      else if ltb h.env_id (e.current_env_id - 1)
      then some (
        true,
        record e { entries = record { env_id = e.current_env_id - 1; first_item = 0 } ∷ h ∷ [] },
      )
      else if h.env_id == e.current_env_id
      then some (
        false,
        record e { entries = h ∷ record { env_id = e.current_env_id - 1; first_item = 0 } ∷ [] },
      )
      else none
  behind_entry_of (h ∷ under ∷ rest) e =
      if h.env_id == e.current_env_id - 1
      then some (true, e)
      else if under.env_id == e.current_env_id - 1
      then some (false, e)
      else if ltb h.env_id (e.current_env_id - 1)
      then some (
        true,
        record e {
          entries = record { env_id = e.current_env_id - 1; first_item = 0 } ∷ h ∷ under ∷ rest;
        },
      )
      else if h.env_id == e.current_env_id
      then assert_bug (ltb under.env_id (e.current_env_id - 1)) (
          some (
            false,
            record e {
              entries = h ∷ record { env_id = e.current_env_id - 1; first_item = 0 } ∷ under ∷ rest;
            },
          ))
      else none

  unfoldable pub get_behind_entry : Env V → Option (Bool × Env V)
  unfolding behind_entry_of assert_bug
  get_behind_entry e = assert_bug (not (e.current_env_id == 0)) (behind_entry_of e.entries e)

  -- `allocateVariable`: a new item, on no list and not in the map.
  unfoldable pub new_env_item : V → ℕ → Env V → Env V
  new_env_item empty key e = record e {
    item = update e.item e.next_item (
        some (record {
          key_id = key;
          env_id = 0;
          next_in_entry = 0;
          previous_item = 0;
          node_set = empty;
        }));
    next_item = e.next_item + 1;
  }

  -- `assignEnvItem` at the entry whose id and first item are given; the entry's new first item is
  -- written by the caller.
  unfoldable pub bind_item : (p : ℕ) → EnvEntry → Env V → Option (Env V)
  bind_item p entry e = elim (e.item p) [
    | none ↦ none
    | some it ↦ some (record e {
      item = update e.item p (
          some (record it {
            env_id = entry.env_id;
            next_in_entry = entry.first_item;
            previous_item = e.item_map it.key_id;
          }));
      item_map = update e.item_map it.key_id p;
    })
  ]

  unfoldable pub assign_to : Bool → (p : ℕ) → List EnvEntry → Env V → Option (Env V)
  unfolding bind_item
  assign_to true p (h ∷ rest) e = elim (bind_item p h e) [
    | none ↦ none
    | some e' ↦ some (record e' { entries = record h { first_item = p } ∷ rest })
  ]
  assign_to false p (h ∷ under ∷ rest) e = elim (bind_item p under e) [
    | none ↦ none
    | some e' ↦ some (record e' { entries = h ∷ record under { first_item = p } ∷ rest })
  ]
  assign_to at p entries e = none

  unfoldable pub assign_env_item : Bool → ℕ → Env V → Option (Env V)
  unfolding assign_to
  assign_env_item at p e = assign_to at p e.entries e

  -- A new item for the key, bound in the head entry or in the one under it.
  unfoldable pub set_at : Bool → V → ℕ → Env V → Option (ℕ × Env V)
  unfolding new_env_item assign_env_item
  set_at at empty key e = elim (assign_env_item at e.next_item (new_env_item empty key e)) [
    | none ↦ none
    | some e' ↦ some (e.next_item, e')
  ]

  -- `setVariable`: the pointer of the new item is the result, beside the new state. The entry that
  -- `allocateVariable` finds or makes is the one that `assignVariable` finds again.
  unfoldable pub set_variable : V → ℕ → Bool → Env V → Option (ℕ × Env V)
  unfolding set_at get_head_entry get_behind_entry
  set_variable empty key true e = elim (get_behind_entry e) [
    | none ↦ none
    | some (at, e') ↦ set_at at empty key e'
  ]
  set_variable empty key false e = set_at true empty key (get_head_entry e)

  unfoldable pub has_variable : ℕ → Env V → Bool
  has_variable key e = not (key == 0) && not (e.item_map key == 0)

  -- `none` is VariableNotFoundException; a read of a freed item is `none` as well.
  unfoldable pub get_variable : ℕ → Env V → Option (EnvItem V)
  unfolding has_variable
  get_variable key e = if has_variable key e then e.item (e.item_map key) else none

  unfoldable pub set_node_set : V → Option (ℕ × Env V) → Option (Env V)
  set_node_set value none = none
  set_node_set value (some (p, e)) = elim (e.item p) [
    | none ↦ none
    | some it ↦ some (record e { item = update e.item p (some (record it { node_set = value })) })
  ]

  -- `setString`: the new item's node set becomes the given one.
  unfoldable pub set_string : V → ℕ → V → Env V → Option (Env V)
  unfolding set_variable set_node_set
  set_string empty key value e = set_node_set value (set_variable empty key false e)
