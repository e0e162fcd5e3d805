-- ===== src/Dom/AppendLast.antt =====
-- `appendLastChild` of dom/elementref.cpp as an insertion at the end of the list of children.
use xemeiah.Dom.Element.{
  Document, has_attributes_and_children, append_last_child, append_journal, link_after_last,
  link_only_child,
}
use xemeiah.Dom.Ends.{
  first_of_or-default, Children-nil, append-snoc, last_child_ptr-eq, child_ptr-eq, child-father,
}
use xemeiah.Dom.Recorded.{
  item_for, recorded, append_journal-item, link_after_last-SameRecord, link_only_child-SameRecord,
}
use xemeiah.Dom.Siblings.{last_of, first_of_or}
use xemeiah.Dom.Splice.{Spliced, has-last_of-zero, first_of_or-append}
use xemeiah.Dom.Tree.{Kids, Represents, Unlinked, Spliced-Spells}
use xemeiah.Kern.JournalItem.{JournalOperation}
use xemeiah.Prelude.{
  ℕ, ◌≡◌, ◌≢◌, true, [], ◌∷◌, ◌++◌, arith, ◌==◌, has, sym, ◌∙◌, update, Bool-cases, inl, inr, some,
  not,
}

module _ (d : Document) (kids : Kids) (r : Represents d kids) (me new : ℕ) (me_ne : me ≢ 0)
    (new_ne : new ≢ 0) (loose : Unlinked d new) where
  last_eq : (d.element me).last_child_ptr ≡ last_of 0 (kids me)
  last_eq = last_child_ptr-eq d kids r me me_ne

  first_eq : (d.element me).child_ptr ≡ first_of_or (kids me) 0
  first_eq = child_ptr-eq d kids r me me_ne

  last_ne : (d.element me).last_child_ptr ≢ 0 → (d.element me).last_child_ptr ≢ new
  last_ne ne e =
      let inside : has (last_of 0 (kids me)) (kids me) ≡ true =
        has-last_of-zero (kids me) (λ z. ne (last_eq ∙ z)) in
      let father = (child-father d kids r me me_ne (last_of 0 (kids me)) inside).0 in
      me_ne (sym father ∙ rw (← last_eq, e) loose.0)

  after_last-Spliced :
      (d.element me).last_child_ptr ≢ 0
      → me ≢ new
      → Spliced d.element (link_after_last me new d).element me new (kids me) []
  unfolding link_after_last last_of
  after_last-Spliced ne other =
      let apart = last_ne ne in
      let first = first_of_or-append (kids me) new 0 in
      let same = first_of_or-default (kids me) new 0 (λ z. ne (last_eq ∙ z)) in
      record {
        father_new = ground arith;
        elder_new = ground (arith, last_eq);
        younger_new = ground arith;
        father = ground arith;
        elder = ground arith;
        younger = ground (arith, last_eq);
        child = ground (arith, first_eq);
        last_child = ground arith;
        child_other = ground arith;
        last_child_other = ground arith;
      }

  only_child-Spliced :
      (d.element me).last_child_ptr ≡ 0
      → me ≢ new
      → Spliced d.element (link_only_child me new d).element me new (kids me) []
  unfolding link_only_child last_of
  only_child-Spliced e other =
      let empty : kids me ≡ [] =
        Children-nil d.element me (kids me) (r.children me me_ne) (sym last_eq ∙ e) in
      rw empty (record {
        father_new = ground arith;
        elder_new = ground arith;
        younger_new = ground arith;
        father = ground arith;
        elder = ground arith;
        younger = ground arith;
        child = ground arith;
        last_child = ground arith;
        child_other = ground arith;
        last_child_other = ground arith;
      })

  -- `appendLastChild` of an unlinked element passes its checks, puts the element behind the last
  -- child, leaves every other list of children alone, and adds one item to the journal if it is enabled.
  pub append_last_child-Represents :
      me ≢ new
      → has_attributes_and_children (d.element me) ≡ true
      → (d' : Document) × (append_last_child me new d ≡ some d')
        × Represents d' (update kids me (kids me ++ new ∷ []))
        × (d'.journal ≡ recorded d (item_for d JournalOperation.append_child me new))
  unfolding append_last_child
  append_last_child-Represents other flag =
      elim (Bool-cases (not ((d.element me).last_child_ptr == 0))) [
        | inl e ↦ (
          append_journal me JournalOperation.append_child new 0 (link_after_last me new d),
          ground arith,
          Spliced-Spells r (append-snoc (kids me)) me_ne new_ne loose.0
              (after_last-Spliced (ground arith) other),
          append_journal-item d (link_after_last me new d) JournalOperation.append_child me new
              (link_after_last-SameRecord me new d) new_ne,
        )
        | inr e ↦ (
          append_journal me JournalOperation.append_child new 0 (link_only_child me new d),
          ground arith,
          Spliced-Spells r (append-snoc (kids me)) me_ne new_ne loose.0
              (only_child-Spliced (ground arith) other),
          append_journal-item d (link_only_child me new d) JournalOperation.append_child me new
              (link_only_child-SameRecord me new d) new_ne,
        )
      ]
