-- ===== src/Dom/InsertAfter.antt =====
-- `insertAfter` and `insertBefore` of dom/elementref.cpp as insertions next to an element.
use mathlib.Core.List.{append_assoc}
use xemeiah.Dom.Element.{
  Document, has_attributes_and_children, insert_after, append_journal, splice_after,
  last_child_check,
}
use xemeiah.Dom.Ends.{Placed, child-Placed, last_of-append, child_ptr-eq, child-father}
use xemeiah.Dom.Recorded.{item_for, recorded, append_journal-item, splice_after-SameRecord}
use xemeiah.Dom.Siblings.{last_of, first_of_or}
use xemeiah.Dom.Splice.{Spliced, has-first_of_or, first_of_or-append, first_of_or-middle}
use xemeiah.Dom.Tree.{Kids, Represents, Unlinked, Spliced-Spells}
use xemeiah.Kern.JournalItem.{JournalOperation}
use xemeiah.Prelude.{
  ℕ, ◌≡◌, refl, ◌≢◌, Bool, true, false, List, [], ◌∷◌, ◌++◌, arith, ◌==◌, has, sym, ◌∙◌, update,
  Bool-cases, inl, inr, some, not, if◌then◌else◌, has-append,
}

last_of-start : (zs : List ℕ) (a b : ℕ) → first_of_or zs 0 ≢ 0 → last_of a zs ≡ last_of b zs
unfolding last_of
last_of-start [] a b h = absurd (h refl)
last_of-start (z ∷ zs) a b h = refl

module _ (d : Document) (kids : Kids) (r : Represents d kids) (f me new : ℕ) (xs ys : List ℕ)
    (f_ne : f ≢ 0) (split : kids f ≡ xs ++ me ∷ ys) (new_ne : new ≢ 0)
    (loose : Unlinked d new) where
  placed : Placed d f me xs ys
  placed = child-Placed d kids r f me xs ys f_ne split

  me-ne-new : me ≢ new
  me-ne-new e = f_ne (sym placed.father ∙ rw e loose.0)

  split_after : kids f ≡ (xs ++ me ∷ []) ++ ys
  split_after = rw append_assoc split

  younger-ne : (d.element me).younger_ptr ≢ 0 → (d.element me).younger_ptr ≢ new
  younger-ne ne e =
      let inside = has-first_of_or ys (λ z. ne (placed.younger ∙ z)) in
      f_ne (
        sym
          (child-father d kids r f f_ne (first_of_or ys 0)
            (rw split (has-right (first_of_or ys 0) inside))).0
        ∙ rw (← placed.younger, e) loose.0)
    where
      has-right : (x : ℕ) → has x ys ≡ true → has x (xs ++ me ∷ ys) ≡ true
      has-right x i = ground (arith, has-append x xs (me ∷ ys))

  last-younger : (d.element me).younger_ptr ≡ 0 → ys ≡ []
  last-younger e = nil ys placed.younger split_after
    where
      nil :
          (zs : List ℕ)
          → (d.element me).younger_ptr ≡ first_of_or zs 0
          → kids f ≡ (xs ++ me ∷ []) ++ zs
          → zs ≡ []
      nil [] y s = refl
      nil (z ∷ zs) y s =
          absurd ((child-Placed d kids r f z (xs ++ me ∷ []) zs f_ne s).not_null (sym y ∙ e))

  last_child_check-passes :
      has_attributes_and_children (d.element f) ≡ true → last_child_check me d ≡ true
  unfolding last_child_check last_of
  last_child_check-passes flag = elim (Bool-cases (not ((d.element me).younger_ptr == 0))) [
    | inl e ↦ rw e
    | inr e ↦
        let last : (d.element f).last_child_ptr ≡ me =
          placed.last_child ∙ rw (last-younger (ground arith)) in
        rw (e, placed.father, flag, last) (ground arith)
  ]

  splice_after-last : ((splice_after me new d).element f).last_child_ptr ≡ last_of new ys
  unfolding splice_after last_of
  splice_after-last = elim (Bool-cases (not ((d.element me).younger_ptr == 0))) [
    | inl e ↦
        let start = last_of-start ys me new (λ z. ground (arith, placed.younger)) in
        let other = younger-ne in let m = me-ne-new in ground (arith, placed.last_child)
    | inr e ↦ let m = me-ne-new in rw (last-younger (ground arith)) (ground (arith, placed.father))
  ]

  pub splice_after-Spliced :
      Spliced d.element (splice_after me new d).element f new (xs ++ me ∷ []) ys
  unfolding splice_after last_of
  splice_after-Spliced =
      let other = me-ne-new in
      let apart = younger-ne in
      let end = last_of-append 0 me xs [] in
      let none_left = last-younger in
      let y = placed.younger in
      let first : (d.element f).child_ptr ≡ first_of_or ((xs ++ me ∷ []) ++ new ∷ []) 0 =
        child_ptr-eq d kids r f f_ne
        ∙ rw split (first_of_or-middle xs ys me 0)
        ∙ sym (first_of_or-append (xs ++ me ∷ []) new 0 ∙ first_of_or-middle xs [] me new) in
      record {
        father_new = ground (arith, placed.father);
        elder_new = ground arith;
        younger_new = ground (arith, placed.younger);
        father = ground arith;
        elder = ground (arith, placed.younger);
        younger = ground arith;
        child = ground (arith, first);
        last_child = splice_after-last;
        child_other = ground (arith, placed.father);
        last_child_other = ground (arith, placed.father);
      }

  pub insert_after-quiet :
      has_attributes_and_children (d.element f) ≡ true
      → insert_after me new false d ≡ some (splice_after me new d)
  unfolding insert_after
  insert_after-quiet flag = ground (arith, last_child_check-passes, placed.father, placed.not_null)

  -- `insertAfter` of an unlinked element passes its checks, puts the element behind `me`, leaves
  -- every other list of children alone, and adds one item to an enabled journal if told to.
  pub insert_after-Represents :
      (update_journal : Bool)
      → has_attributes_and_children (d.element f) ≡ true
      → (d' : Document) × (insert_after me new update_journal d ≡ some d')
        × Represents d' (update kids f (xs ++ me ∷ new ∷ ys))
        × (d'.journal ≡ (
            if update_journal
            then recorded d (item_for d JournalOperation.insert_after me new)
            else d.journal))
  unfolding insert_after
  insert_after-Represents true flag = (
    append_journal me JournalOperation.insert_after new 0 (splice_after me new d),
    ground (arith, last_child_check-passes, placed.father, placed.not_null),
    rw (← append_assoc xs (me ∷ []) (new ∷ ys))
        (Spliced-Spells r split_after f_ne new_ne loose.0 splice_after-Spliced),
    append_journal-item d (splice_after me new d) JournalOperation.insert_after me new
        (splice_after-SameRecord me new d) new_ne,
  )
  insert_after-Represents false flag = (
    splice_after me new d,
    ground (arith, last_child_check-passes, placed.father, placed.not_null),
    rw (← append_assoc xs (me ∷ []) (new ∷ ys))
        (Spliced-Spells r split_after f_ne new_ne loose.0 splice_after-Spliced),
    (splice_after-SameRecord me new d).journal,
  )
