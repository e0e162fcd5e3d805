-- ===== src/Kern/NamespaceAlias/Tests.antt =====
-- Prefixes in use: xmlns is the local key 1, in no namespace; its namespace is 2; the prefixes p and
-- q are the local keys 5 and 6.
use xemeiah.Kern.KeyId.{get_local_key_id, get_namespace_id, get_key_id, get_key_id-parts}
use xemeiah.Kern.NamespaceAlias.Leak.{leak_outlives}
use xemeiah.Kern.NamespaceAlias.Levels.{leaks, Run, done, set, level_restores}
use xemeiah.Kern.NamespaceAlias.Lookup.{Bound, set_namespace_prefix-Bound}
use xemeiah.Kern.NamespaceAlias.{
  NamespaceAlias, new_namespace_alias, push, pop, set_namespace_prefix, set_local, declare, bind,
  find_declaration, after_walk, create_stack_header, can_pop, get_namespace_id_from_prefix,
  get_default_namespace_id,
}
use xemeiah.Prelude.{ℕ, ◌<◌, ◌^◌, ◌≡◌, refl, true, false, some, arith, assert_bug, update, inr}

get_key_id-parts_example :
    (get_namespace_id (get_key_id 2 5) ≡ 2)
    × (get_local_key_id (get_key_id 2 5) ≡ 5)
    × (get_key_id 2 5 < 2 ^ 32)
    × (get_key_id (get_namespace_id 0x20005) (get_local_key_id 0x20005) ≡ 0x20005)
get_key_id-parts_example = get_key_id-parts 2 5 0x20005 (omega arith) (omega arith) (omega arith)

abbrev p : ℕ
p = 0x20005

abbrev q : ℕ
q = 0x20006

-- The prefix p has the namespace 7.
abbrev outer : NamespaceAlias
unfolding declare new_namespace_alias create_stack_header push
outer = declare 5 7 new_namespace_alias

abbrev inner : NamespaceAlias
unfolding declare new_namespace_alias create_stack_header push
inner = declare 6 8 (push outer)

inner-Run : Run 1 2 (push outer) inner
unfolding set_namespace_prefix set_local declare assert_bug get_local_key_id get_namespace_id leaks
    new_namespace_alias create_stack_header push
inner-Run = set false q 8 inner inner refl refl done

level_restores_example : pop inner ≡ some outer
unfolding declare new_namespace_alias create_stack_header push
level_restores_example = level_restores 1 2 outer inner (omega arith) inner-Run

leaked-Run : set_namespace_prefix 1 2 false p 8 inner ≡ some (bind 5 8 inner)
unfolding set_namespace_prefix set_local declare assert_bug get_local_key_id get_namespace_id
    new_namespace_alias create_stack_header push after_walk find_declaration
leaked-Run = refl

inner-leaks : leaks false p 8 inner ≡ true
unfolding leaks declare get_local_key_id new_namespace_alias create_stack_header push
    find_declaration
inner-leaks = refl

-- <a xmlns:p="7"><b xmlns:q="8" xmlns:p="8"/> leaves p with 8.
leak_outlives_example :
    (pop (bind 5 8 inner)
      ≡ some
          (record outer { namespace_id_of = update outer.namespace_id_of (get_local_key_id p) 8 }))
    × (outer.namespace_id_of (get_local_key_id p) ≡ inner.namespace_id_of (get_local_key_id p))
unfolding declare new_namespace_alias create_stack_header push
leak_outlives_example =
    leak_outlives 1 2 outer inner (bind 5 8 inner) false p 8 (omega arith) inner-Run inner-leaks
      leaked-Run

set_namespace_prefix-Bound_example :
    (a' : NamespaceAlias) × (set_namespace_prefix 1 2 false q 8 outer ≡ some a')
    × Bound 1 2 outer a' q 8
unfolding declare new_namespace_alias create_stack_header push get_local_key_id get_namespace_id
    get_namespace_id_from_prefix
set_namespace_prefix-Bound_example =
    set_namespace_prefix-Bound 1 2 false q 8 outer (omega arith) (omega arith) (omega arith)
      (inr (omega arith, omega arith)) (inr refl)

can_pop_test : can_pop new_namespace_alias ≡ true
unfolding can_pop new_namespace_alias push
can_pop_test = refl

get_default_namespace_id_test : get_default_namespace_id 5 2 outer ≡ 7
unfolding get_default_namespace_id declare outer
get_default_namespace_id_test = refl
