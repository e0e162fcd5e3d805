-- ===== src/Kern/NamespaceAlias.antt =====
-- `NamespaceAlias` (kern/namespacealias.cpp, include/Xemeiah/kern/namespacealias.h): the prefixes of
-- namespaces, in levels. The two maps give 0 for a key that they do not hold, which std::map's
-- operator[] then holds as 0. The headers linked from `stackHead` are a list, and so are the
-- declarations of each. A failed AssertBug, or a throw of NotImplemented, is `none`. A level counts
-- up without bound.
pub mod Scope
pub mod Levels
pub mod Leak
pub mod Lookup
mod Tests
use xemeiah.Kern.KeyId.{get_local_key_id, get_namespace_id}
use xemeiah.Prelude.{
  ℕ, ◌+◌, ◌-◌, Bool, true, false, not, ◌&&◌, ◌||◌, List, [], ◌∷◌, Option, none, some, ◌==◌, ltb,
  if◌then◌else◌, assert_bug, update,
}

pub record AliasDeclaration : Type 0 where
  pub local_key_id : ℕ
  pub namespace_id : ℕ
  pub previous_local_key_id : ℕ
  pub previous_namespace_id : ℕ

pub record StackHeader : Type 0 where
  pub level : ℕ
  pub declarations : List AliasDeclaration

pub record NamespaceAlias : Type 0 where
  pub local_key_id_of : ℕ → ℕ
  pub namespace_id_of : ℕ → ℕ
  pub current_stack_level : ℕ
  pub stack : List StackHeader

unfoldable pub push : NamespaceAlias → NamespaceAlias
push a = record a { current_stack_level = a.current_stack_level + 1 }

-- The constructor that the cache's own aliases have.
unfoldable pub new_namespace_alias : NamespaceAlias
unfolding push
new_namespace_alias = push (record {
  local_key_id_of = λ n. 0;
  namespace_id_of = λ l. 0;
  current_stack_level = 0;
  stack = [];
})

-- The list with a header for the level at its head.
unfoldable pub create_stack_header : ℕ → List StackHeader → List StackHeader
create_stack_header level [] = record { level = level; declarations = [] } ∷ []
create_stack_header level (h ∷ rest) =
    if ltb h.level level then record { level = level; declarations = [] } ∷ h ∷ rest else h ∷ rest

abbrev pub with_declaration : AliasDeclaration → List StackHeader → List StackHeader
with_declaration d [] = []
with_declaration d (h ∷ rest) = record h { declarations = d ∷ h.declarations } ∷ rest

abbrev pub bind : ℕ → ℕ → NamespaceAlias → NamespaceAlias
bind local_key namespace a = record a {
  local_key_id_of = update a.local_key_id_of namespace local_key;
  namespace_id_of = update a.namespace_id_of local_key namespace;
}

unfoldable pub declare : ℕ → ℕ → NamespaceAlias → NamespaceAlias
unfolding create_stack_header
declare local_key namespace a =
    let d : AliasDeclaration = record {
      local_key_id = local_key;
      namespace_id = namespace;
      previous_local_key_id = a.local_key_id_of namespace;
      previous_namespace_id = a.namespace_id_of local_key;
    } in
    bind local_key namespace
      (record a { stack = with_declaration d (create_stack_header a.current_stack_level a.stack) })

-- What the walk over the declarations of the level finds.
pub data Found : Type 0 where
  same conflict rebound not_found : Found

unfoldable pub find_declaration : ℕ → ℕ → List AliasDeclaration → Found
find_declaration local_key namespace [] = not_found
find_declaration local_key namespace (d ∷ ds) =
    let rest = find_declaration local_key namespace ds in
    if d.local_key_id == local_key
    then (if d.namespace_id == namespace then same else conflict)
    else if d.namespace_id == namespace
    then rebound
    else rest

-- The declarations of the current level.
abbrev pub declarations_at : ℕ → List StackHeader → List AliasDeclaration
declarations_at level [] = []
declarations_at level (h ∷ rest) = if h.level == level then h.declarations else []

unfoldable pub after_walk : Found → ℕ → ℕ → NamespaceAlias → Option NamespaceAlias
unfolding declare
after_walk same local_key namespace a = some a
after_walk conflict local_key namespace a = none
after_walk rebound local_key namespace a = some (bind local_key namespace a)
after_walk not_found local_key namespace a = some (declare local_key namespace a)

-- `setNamespacePrefix` from the test of `overwrite` on.
unfoldable pub set_local : Bool → ℕ → ℕ → NamespaceAlias → Option NamespaceAlias
unfolding declare find_declaration after_walk
set_local overwrite local_key namespace a =
    if overwrite || (a.namespace_id_of local_key == 0)
    then some (declare local_key namespace a)
    else after_walk
        (find_declaration local_key namespace (declarations_at a.current_stack_level a.stack))
        local_key namespace a

-- The rewinding of a level's declarations, newest first.
unfoldable pub rewind : List AliasDeclaration → NamespaceAlias → NamespaceAlias
rewind [] a = a
rewind (d ∷ ds) a = rewind ds (record a {
  local_key_id_of = update a.local_key_id_of d.namespace_id d.previous_local_key_id;
  namespace_id_of = update a.namespace_id_of d.local_key_id d.previous_namespace_id;
})

unfoldable pub can_pop : NamespaceAlias → Bool
can_pop a = ltb 0 a.current_stack_level

unfoldable pub pop_headers : List StackHeader → NamespaceAlias → NamespaceAlias
unfolding rewind
pop_headers [] a = a
pop_headers (h ∷ rest) a =
    if h.level == a.current_stack_level
    then record (rewind h.declarations a) { stack = rest }
    else a

unfoldable pub pop : NamespaceAlias → Option NamespaceAlias
unfolding assert_bug pop_headers
pop a =
    assert_bug (ltb 0 a.current_stack_level)
      (some (record (pop_headers a.stack a) { current_stack_level = a.current_stack_level - 1 }))

unfoldable pub get_namespace_id_from_prefix : NamespaceAlias → ℕ → ℕ
get_namespace_id_from_prefix a prefix = a.namespace_id_of prefix

-- The built-in keys of the cache: the prefix xmlns, with its namespace.
module _ (xmlns xmlns_ns : ℕ) where
  -- `setNamespacePrefix`, with the checks of its argument.
  unfoldable pub set_namespace_prefix : Bool → ℕ → ℕ → NamespaceAlias → Option NamespaceAlias
  unfolding assert_bug set_local get_local_key_id get_namespace_id
  set_namespace_prefix overwrite alias_id namespace a =
      assert_bug (not (get_local_key_id alias_id == 0)) (
        assert_bug
          ((alias_id == xmlns) || ((get_namespace_id alias_id == xmlns_ns) && not (namespace == 0)))
          (set_local overwrite (get_local_key_id alias_id) namespace a))

  unfoldable pub get_namespace_id_from_alias : NamespaceAlias → ℕ → Option ℕ
  unfolding assert_bug get_local_key_id get_namespace_id
  get_namespace_id_from_alias a alias_id =
      assert_bug
        (if get_namespace_id alias_id == 0
          then alias_id == xmlns
          else (get_namespace_id alias_id == xmlns_ns) && not (get_local_key_id alias_id == 0))
        (some (a.namespace_id_of (get_local_key_id alias_id)))

  unfoldable pub get_namespace_prefix : NamespaceAlias → ℕ → ℕ
  get_namespace_prefix a namespace =
      if namespace == xmlns_ns then xmlns else a.local_key_id_of namespace

  unfoldable pub get_default_namespace_id : NamespaceAlias → ℕ
  get_default_namespace_id a = a.namespace_id_of xmlns

  unfoldable pub set_default_namespace_id : ℕ → NamespaceAlias → Option NamespaceAlias
  unfolding set_namespace_prefix
  set_default_namespace_id namespace a = set_namespace_prefix false xmlns namespace a

  -- The constructor that declares the prefixes xml and xemint, whose declarations and namespaces are
  -- built-in keys too.
  unfoldable pub new_with_defaults : (xml xml_ns xemint xemint_ns : ℕ) → Option NamespaceAlias
  unfolding set_namespace_prefix new_namespace_alias
  new_with_defaults xml xml_ns xemint xemint_ns =
      elim (set_namespace_prefix false xml xml_ns new_namespace_alias) [
        | none ↦ none
        | some a ↦ set_namespace_prefix false xemint xemint_ns a
      ]
