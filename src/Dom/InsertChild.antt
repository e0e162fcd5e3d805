-- ===== src/Dom/InsertChild.antt =====
-- `insertChild` of dom/elementref.cpp as an insertion at the head of the list of children.
use xemeiah.Dom.Element.{
  Document, has_attributes_and_children, insert_child, append_journal, link_first,
  first_child_check,
}
use xemeiah.Dom.Ends.{
  Children-nil, last_of-default, last_child_ptr-eq, child_ptr-eq, child-father, child-Placed,
}
use xemeiah.Dom.Recorded.{item_for, recorded, append_journal-item, link_first-SameRecord}
use xemeiah.Dom.Siblings.{last_of, first_of_or}
use xemeiah.Dom.Splice.{Spliced, has-first_of_or}
use xemeiah.Dom.Tree.{Kids, Represents, Unlinked, Spliced-Spells}
use xemeiah.Kern.JournalItem.{JournalOperation}
use xemeiah.Prelude.{
  ℕ, ◌≡◌, refl, ◌≢◌, Bool, true, false, List, [], ◌∷◌, arith, ◌==◌, sym, ◌∙◌, update, Bool-cases,
  inl, inr, some, not, if◌then◌else◌, ◌⊎◌,
}

module _ (d : Document) (kids : Kids) (r : Represents d kids) (me new : ℕ) (me_ne : me ≢ 0)
    (new_ne : new ≢ 0) (loose : Unlinked d new) where
  last_eq : (d.element me).last_child_ptr ≡ last_of 0 (kids me)
  last_eq = last_child_ptr-eq d kids r me me_ne

  first_eq : (d.element me).child_ptr ≡ first_of_or (kids me) 0
  first_eq = child_ptr-eq d kids r me me_ne

  old-father : (d.element me).child_ptr ≢ 0 → (d.element (d.element me).child_ptr).father_ptr ≡ me
  old-father ne =
      let inside = has-first_of_or (kids me) (λ z. ne (first_eq ∙ z)) in
      rw first_eq (child-father d kids r me me_ne (first_of_or (kids me) 0) inside).0

  first_of-elder :
      (xs : List ℕ)
      → kids me ≡ xs
      → first_of_or xs 0 ≢ 0
      → (d.element (first_of_or xs 0)).elder_ptr ≡ 0
  unfolding last_of
  first_of-elder [] e h = absurd (h refl)
  first_of-elder (x ∷ xs) e h = (child-Placed d kids r me x [] xs me_ne e).elder

  old-elder : (d.element me).child_ptr ≢ 0 → (d.element (d.element me).child_ptr).elder_ptr ≡ 0
  old-elder ne = rw first_eq (first_of-elder (kids me) refl (λ z. ne (first_eq ∙ z)))

  first_child_check-passes : first_child_check me d ≡ true
  unfolding first_child_check
  first_child_check-passes = ground (arith, old-father, old-elder)

  old-ne : (d.element me).child_ptr ≢ 0 → (d.element me).child_ptr ≢ new
  old-ne ne e = me_ne (sym (old-father ne) ∙ rw e loose.0)

  last-default :
      (xs : List ℕ)
      → last_of new xs ≡ (if not (last_of 0 xs == 0) then last_of 0 xs else new)
        ⊎ (last_of 0 xs ≡ 0)
  last-default xs = elim (Bool-cases (last_of 0 xs == 0)) [
    | inl e ↦ inr (ground arith)
    | inr e ↦ inl (rw e (last_of-default xs 0 new (ground arith)))
  ]

  link_first-last :
      last_of new (kids me) ≡ (if not (last_of 0 (kids me) == 0) then last_of 0 (kids me) else new)
  unfolding last_of
  link_first-last = elim (last-default (kids me)) [
    | inl e ↦ e
    | inr e ↦ rw (Children-nil d.element me (kids me) (r.children me me_ne) e)
  ]

  pub link_first-Spliced :
      me ≢ new → Spliced d.element (link_first me new d).element me new [] (kids me)
  unfolding link_first last_of
  link_first-Spliced other =
      let apart = old-ne in
      record {
        father_new = ground arith;
        elder_new = ground arith;
        younger_new = ground (arith, first_eq, old-ne);
        father = ground arith;
        elder = ground (arith, first_eq);
        younger = ground arith;
        child = ground arith;
        last_child = ground (arith, link_first-last, last_eq);
        child_other = ground arith;
        last_child_other = ground arith;
      }

  pub insert_child-quiet :
      has_attributes_and_children (d.element me) ≡ true
      → insert_child me new false d ≡ some (link_first me new d)
  unfolding insert_child
  insert_child-quiet flag = ground (arith, first_child_check-passes)

  -- `insertChild` of an unlinked element passes its checks, puts the element before the first child,
  -- leaves every other list of children alone, and adds one item to an enabled journal if told to.
  pub insert_child-Represents :
      (update_journal : Bool)
      → me ≢ new
      → has_attributes_and_children (d.element me) ≡ true
      → (d' : Document) × (insert_child me new update_journal d ≡ some d')
        × Represents d' (update kids me (new ∷ kids me))
        × (d'.journal ≡ (
            if update_journal
            then recorded d (item_for d JournalOperation.insert_child me new)
            else d.journal))
  unfolding insert_child
  insert_child-Represents true other flag = (
    append_journal me JournalOperation.insert_child new 0 (link_first me new d),
    ground (arith, first_child_check-passes),
    Spliced-Spells r refl me_ne new_ne loose.0 (link_first-Spliced other),
    append_journal-item d (link_first me new d) JournalOperation.insert_child me new
        (link_first-SameRecord me new d) new_ne,
  )
  insert_child-Represents false other flag = (
    link_first me new d,
    ground (arith, first_child_check-passes),
    Spliced-Spells r refl me_ne new_ne loose.0 (link_first-Spliced other),
    (link_first-SameRecord me new d).journal,
  )
