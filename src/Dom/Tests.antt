-- ===== src/Dom/Tests.antt =====
-- A document with a root and two children, and the operations run on it.
use xemeiah.Dom.AppendLast
use xemeiah.Dom.Count
use xemeiah.Dom.Element.{
  ElementSegment, Document, append_last_child, insert_after, insert_before, insert_child,
  unlink_element_from_father,
}
use xemeiah.Dom.InsertAfter
use xemeiah.Dom.InsertBefore
use xemeiah.Dom.InsertChild
use xemeiah.Dom.Recorded.{item_for}
use xemeiah.Dom.Siblings.{Children}
use xemeiah.Dom.Tree.{Kids, Represents, Unlinked}
use xemeiah.Dom.Unlink
use xemeiah.Kern.JournalItem.{JournalOperation}
use xemeiah.Prelude.{
  ℕ, zero, suc, ◌≡◌, refl, ◌≢◌, true, [], ◌∷◌, arith, ◌==◌, if◌then◌else◌, some, update,
}

abbrev segment : (id father elder younger child last_child : ℕ) → ElementSegment
segment id father elder younger child last_child = record {
  key_id = 7;
  flags = 1;
  id = id;
  father_ptr = father;
  elder_ptr = elder;
  younger_ptr = younger;
  child_ptr = child;
  last_child_ptr = last_child;
  attr_ptr = 0;
}

-- Element 1 has the children 2 and 3; every other element stands alone.
abbrev family_element : ℕ → ElementSegment
family_element p =
    if p == 1
    then segment 11 0 0 0 2 3
    else if p == 2
    then segment 12 1 0 3 0 0
    else if p == 3
    then segment 13 1 2 0 0 0
    else segment 14 0 0 0 0 0

abbrev family : Document
family = record {
  element = family_element;
  root_element_ptr = 1;
  journal_enabled = true;
  journal = [];
}

abbrev family_kids : Kids
family_kids f = if f == 1 then 2 ∷ 3 ∷ [] else []

family-Children : (f : ℕ) → f ≢ 0 → Children family_element f (family_kids f)
family-Children zero ne = absurd (ne refl)
family-Children (suc zero) ne =
    (refl, omega arith, refl, refl, (refl, omega arith, refl, refl, (refl, refl)))
family-Children (suc (suc zero)) ne = (refl, refl)
family-Children (suc (suc (suc zero))) ne = (refl, refl)
family-Children (suc (suc (suc (suc f)))) ne = ground arith

family-Represents : Represents family family_kids
family-Represents = record { children = family-Children; listed = λ x ne. ground arith }

four-Unlinked : Unlinked family 4
four-Unlinked = (refl, refl, refl)

append_last_child-Represents_example :
    (d' : Document) × (append_last_child 1 4 family ≡ some d')
    × Represents d' (update family_kids 1 (2 ∷ 3 ∷ 4 ∷ []))
    × (d'.journal ≡ item_for family JournalOperation.append_child 1 4 ∷ [])
append_last_child-Represents_example =
    AppendLast.append_last_child-Represents family family_kids family-Represents 1 4 (omega arith)
      (omega arith) four-Unlinked (omega arith) refl

insert_child-Represents_example :
    (d' : Document) × (insert_child 1 4 true family ≡ some d')
    × Represents d' (update family_kids 1 (4 ∷ 2 ∷ 3 ∷ []))
    × (d'.journal ≡ item_for family JournalOperation.insert_child 1 4 ∷ [])
insert_child-Represents_example =
    InsertChild.insert_child-Represents family family_kids family-Represents 1 4 (omega arith)
      (omega arith) four-Unlinked true (omega arith) refl

insert_after-Represents_example :
    (d' : Document) × (insert_after 2 4 true family ≡ some d')
    × Represents d' (update family_kids 1 (2 ∷ 4 ∷ 3 ∷ []))
    × (d'.journal ≡ item_for family JournalOperation.insert_after 2 4 ∷ [])
insert_after-Represents_example =
    InsertAfter.insert_after-Represents family family_kids family-Represents 1 2 4 [] (3 ∷ [])
      (omega arith) refl (omega arith) four-Unlinked true refl

insert_before-Represents_example :
    (d' : Document) × (insert_before 3 4 family ≡ some d')
    × Represents d' (update family_kids 1 (2 ∷ 4 ∷ 3 ∷ []))
    × (d'.journal ≡ item_for family JournalOperation.insert_before 3 4 ∷ [])
insert_before-Represents_example =
    InsertBefore.insert_before-Represents family family_kids family-Represents 1 3 4 (2 ∷ []) []
      (omega arith) refl (omega arith) four-Unlinked (omega arith) refl (omega arith)

unlink_element_from_father-Represents_example :
    (d' : Document) × (unlink_element_from_father 2 family ≡ some d')
    × Represents d' (update family_kids 1 (3 ∷ []))
    × Unlinked d' 2
unlink_element_from_father-Represents_example =
    Unlink.unlink_element_from_father-Represents family family_kids family-Represents 1 2 []
      (3 ∷ []) (omega arith) refl refl

get_number_of_children-length_example : Count.get_number_of_children 3 family 1 ≡ some 2
get_number_of_children-length_example =
    Count.get_number_of_children-length family family_kids family-Represents 3 1 (omega arith) refl
      (omega arith)

get_position-length_example : Count.get_position 2 family 3 ≡ some 2
get_position-length_example =
    Count.get_position-length family family_kids family-Represents 2 1 3 (2 ∷ []) [] (omega arith)
      refl (omega arith)
