-- ===== src/Dom/Element.antt =====
-- Elements in the store (include/Xemeiah/kern/format/dom.h) and the operations that link them
-- (dom/elementref.cpp). A pointer is the number of its segment, 0 is NullPtr, and the document's
-- memory gives the segment of every pointer. Each `alter`/`protect` pair is one `alter_element`.
-- The checks are those of a build with PARANOID, on a document that is writable and locked for it. Of the union in `ElementSegment` the model has the
-- member `attributesAndChildren`: the functions here that touch it first check the flag for it.
use mathlib.Core.Option
use xemeiah.Kern.JournalItem.{JournalOperation, JournalItem}
use xemeiah.Prelude.{
  ℕ, ◌%◌, Bool, true, false, not, ◌&&◌, List, [], ◌∷◌, ◌++◌, Option, some, ◌==◌, if◌then◌else◌,
  assert_bug, update,
}

pub record ElementSegment : Type 0 where
  pub key_id : ℕ
  pub flags : ℕ
  pub id : ℕ
  pub father_ptr : ℕ
  pub elder_ptr : ℕ
  pub younger_ptr : ℕ
  pub child_ptr : ℕ
  pub last_child_ptr : ℕ
  pub attr_ptr : ℕ

pub record Document : Type 0 where
  pub element : ℕ → ElementSegment
  pub root_element_ptr : ℕ
  pub journal_enabled : Bool
  pub journal : List JournalItem

abbrev pub null_ptr : ℕ
null_ptr = 0

abbrev pub not_null : ℕ → Bool
not_null p = not (p == null_ptr)

-- ElementFlag_HasAttributesAndChildren is bit 0.
abbrev pub has_attributes_and_children : ElementSegment → Bool
has_attributes_and_children s = (s.flags % 2) == 1

unfoldable pub alter_element : ℕ → (ElementSegment → ElementSegment) → Document → Document
alter_element p f d = record d { element = update d.element p (f (d.element p)) }

unfoldable pub append_journal : ℕ → JournalOperation → ℕ → ℕ → Document → Document
append_journal base op alt key d = record d {
  journal =
      if d.journal_enabled
      then d.journal
        ++ record {
          op = op;
          base_element_id = (d.element base).id;
          alt_element_id = if alt == null_ptr then 0 else (d.element alt).id;
          attribute_key_id = key;
        }
          ∷ []
      else d.journal;
}

-- `getFather`: the root has none.
unfoldable pub get_father : Document → ℕ → ℕ
get_father d p = if p == d.root_element_ptr then null_ptr else (d.element p).father_ptr

unfoldable pub get_elder : Document → ℕ → ℕ
get_elder d p = (d.element p).elder_ptr

unfoldable pub get_younger : Document → ℕ → ℕ
get_younger d p = (d.element p).younger_ptr

unfoldable pub get_child : Document → ℕ → ℕ
get_child d p =
    if has_attributes_and_children (d.element p) then (d.element p).child_ptr else null_ptr

-- The last child's younger becomes the new child.
unfoldable pub link_after_last : (me new : ℕ) → Document → Document
unfolding alter_element
link_after_last me new d =
    let last : ℕ = (d.element me).last_child_ptr in
    let d₁ : Document = alter_element new (λ s. record s { father_ptr = me; elder_ptr = last }) d in
    let d₂ : Document =
      alter_element (d₁.element me).last_child_ptr (λ s. record s { younger_ptr = new }) d₁ in
    alter_element me (λ s. record s { last_child_ptr = new }) d₂

unfoldable pub link_only_child : (me new : ℕ) → Document → Document
unfolding alter_element
link_only_child me new d =
    alter_element me (λ s. record s { child_ptr = new; last_child_ptr = new })
      (alter_element new (λ s. record s { father_ptr = me }) d)

unfoldable pub append_last_child : (me new : ℕ) → Document → Option Document
unfolding link_after_last link_only_child append_journal assert_bug
append_last_child me new d = assert_bug (not_null me) (
    assert_bug (has_attributes_and_children (d.element me)) (
      assert_bug (not_null new) (
        some (
          append_journal me JournalOperation.append_child new 0 (
            if not_null (d.element me).last_child_ptr
            then link_after_last me new d
            else link_only_child me new d)))))

-- The lines that `insertAfter` runs before it writes `me`.
unfoldable pub splice_after : (me new : ℕ) → Document → Document
unfolding alter_element
splice_after me new d =
    let younger : ℕ = (d.element me).younger_ptr in
    let d₁ : Document =
      if not_null younger
      then alter_element younger (λ s. record s { elder_ptr = new }) d
      else alter_element (d.element me).father_ptr (λ s. record s { last_child_ptr = new }) d in
    let d₂ : Document =
      alter_element new
        (λ s. record s {
          father_ptr = (d₁.element me).father_ptr;
          elder_ptr = me;
          younger_ptr =
              if not_null (d₁.element me).younger_ptr
              then (d₁.element me).younger_ptr
              else s.younger_ptr;
        })
        d₁ in
    alter_element me (λ s. record s { younger_ptr = new }) d₂

-- The check that an element with no younger is its father's last child.
unfoldable pub last_child_check : ℕ → Document → Bool
last_child_check me d =
    if not_null (d.element me).younger_ptr
    then true
    else has_attributes_and_children (d.element (d.element me).father_ptr)
      && (me == (d.element (d.element me).father_ptr).last_child_ptr)

unfoldable pub insert_after : (me new : ℕ) → Bool → Document → Option Document
unfolding splice_after last_child_check append_journal assert_bug
insert_after me new update_journal d = assert_bug (not_null me) (
    assert_bug (not_null (d.element me).father_ptr) (
      assert_bug (last_child_check me d) (
        assert_bug (not_null new) (
          some (
            if update_journal
            then append_journal me JournalOperation.insert_after new 0 (splice_after me new d)
            else splice_after me new d)))))

-- The lines of `insertChild` below its checks.
unfoldable pub link_first : (me new : ℕ) → Document → Document
unfolding alter_element
link_first me new d =
    let old : ℕ = (d.element me).child_ptr in
    let d₁ : Document =
      if not_null old then alter_element old (λ s. record s { elder_ptr = new }) d else d in
    let d₂ : Document =
      alter_element new
        (λ s. record s {
          father_ptr = me;
          younger_ptr = if not_null old then old else s.younger_ptr;
        })
        d₁ in
    alter_element me
      (λ s. record s {
        child_ptr = new;
        last_child_ptr = if not_null s.last_child_ptr then s.last_child_ptr else new;
      })
      d₂

-- The checks on the old first child.
unfoldable pub first_child_check : ℕ → Document → Bool
first_child_check me d =
    let old : ElementSegment = d.element (d.element me).child_ptr in
    if not_null (d.element me).child_ptr
    then (old.father_ptr == me) && (old.elder_ptr == 0)
    else true

unfoldable pub insert_child : (me new : ℕ) → Bool → Document → Option Document
unfolding link_first first_child_check append_journal assert_bug
insert_child me new update_journal d = assert_bug (not_null me) (
    assert_bug (has_attributes_and_children (d.element me)) (
      assert_bug (first_child_check me d) (
        assert_bug (not_null new) (
          some (
            if update_journal
            then append_journal me JournalOperation.insert_child new 0 (link_first me new d)
            else link_first me new d)))))

unfoldable pub insert_before : (me new : ℕ) → Document → Option Document
unfolding get_father get_elder assert_bug
insert_before me new d = assert_bug (not_null me) (
    assert_bug (not_null (get_father d me)) (
      Option.map (append_journal me JournalOperation.insert_before new 0) (
        if not_null (get_elder d me)
        then insert_after (get_elder d me) new false d
        else insert_child (get_father d me) new false d)))

-- `unlinkElementFromFather` writes the father's two ends, then both neighbours, then `me`.
unfoldable pub unlink_ends : (me father : ℕ) → Document → Document
unfolding alter_element
unlink_ends me father d =
    let d₁ : Document =
      if (d.element father).child_ptr == me
      then alter_element father (λ s. record s { child_ptr = (d.element me).younger_ptr }) d
      else d in
    if (d₁.element father).last_child_ptr == me
    then alter_element father (λ s. record s { last_child_ptr = (d₁.element me).elder_ptr }) d₁
    else d₁

unfoldable pub unlink_elder : ℕ → Document → Document
unfolding alter_element
unlink_elder me d =
    if not_null (d.element me).elder_ptr
    then alter_element (d.element me).elder_ptr
        (λ s. record s { younger_ptr = (d.element me).younger_ptr }) d
    else d

unfoldable pub unlink_younger : ℕ → Document → Document
unfolding alter_element
unlink_younger me d =
    if not_null (d.element me).younger_ptr
    then alter_element (d.element me).younger_ptr
        (λ s. record s { elder_ptr = (d.element me).elder_ptr }) d
    else d

unfoldable pub clear_links : ℕ → Document → Document
unfolding alter_element
clear_links me d =
    alter_element me
      (λ s. record s { father_ptr = null_ptr; elder_ptr = null_ptr; younger_ptr = null_ptr }) d

unfoldable pub unlink_neighbours : (me father : ℕ) → Document → Document
unlink_neighbours me father d =
    clear_links me (unlink_younger me (unlink_elder me (unlink_ends me father d)))

unfoldable pub unlink_element_from_father : ℕ → Document → Option Document
unfolding unlink_neighbours assert_bug
unlink_element_from_father me d = assert_bug (not_null me) (
    assert_bug (not_null (d.element me).father_ptr) (
      assert_bug (has_attributes_and_children (d.element (d.element me).father_ptr))
        (some (unlink_neighbours me (d.element me).father_ptr d))))
