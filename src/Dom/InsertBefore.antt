-- ===== src/Dom/InsertBefore.antt =====
-- `insertBefore` of dom/elementref.cpp, which is `insertChild` on the father for a first child and
-- `insertAfter` on the elder for any other.
use mathlib.Core.List.{append_assoc}
use xemeiah.Dom.Element.{
  Document, has_attributes_and_children, insert_before, append_journal, splice_after, link_first,
  get_father,
}
use xemeiah.Dom.Ends.{Placed, child-Placed, last_of-append}
use xemeiah.Dom.InsertAfter.{insert_after-quiet, splice_after-Spliced}
use xemeiah.Dom.InsertChild.{insert_child-quiet, link_first-Spliced}
use xemeiah.Dom.Recorded.{
  item_for, recorded, append_journal-item, splice_after-SameRecord, link_first-SameRecord,
}
use xemeiah.Dom.Siblings.{last_of}
use xemeiah.Dom.Tree.{Kids, Represents, Unlinked, Spliced-Spells}
use xemeiah.Kern.JournalItem.{JournalOperation}
use xemeiah.Prelude.{
  ℕ, ◌≡◌, refl, ◌≢◌, true, List, [], ◌∷◌, ◌++◌, arith, ◌∙◌, update, inl, inr, some, ◌⊎◌, ap, subst,
}

-- A list is empty or has a last member.
pub snoc-cases : (xs : List ℕ) → (xs ≡ []) ⊎ ((zs : List ℕ) × (a : ℕ) × (xs ≡ zs ++ a ∷ []))
snoc-cases [] = inl refl
snoc-cases (x ∷ xs) = elim (snoc-cases xs) [
  | inl e ↦ inr ([], x, rw e)
  | inr (zs, a, e) ↦ inr (x ∷ zs, a, ap (λ l. x ∷ l) e)
]

module _ (d : Document) (kids : Kids) (r : Represents d kids) (f me new : ℕ) (xs ys : List ℕ)
    (f_ne : f ≢ 0) (split : kids f ≡ xs ++ me ∷ ys) (new_ne : new ≢ 0) (loose : Unlinked d new)
    (below_root : me ≢ d.root_element_ptr)
    (flag : has_attributes_and_children (d.element f) ≡ true) where
  placed : Placed d f me xs ys
  placed = child-Placed d kids r f me xs ys f_ne split

  father_is : get_father d me ≡ f
  unfolding get_father
  father_is = ground (arith, placed.father)

  abbrev Result : Type 0
  Result =
      (d' : Document) × (insert_before me new d ≡ some d')
      × Represents d' (update kids f (xs ++ new ∷ me ∷ ys))
      × (d'.journal ≡ recorded d (item_for d JournalOperation.insert_before me new))

  before_first : xs ≡ [] → f ≢ new → Result
  unfolding insert_before append_journal last_of
  before_first e apart =
      let elder : (d.element me).elder_ptr ≡ 0 = placed.elder ∙ rw e in
      let first : kids f ≡ me ∷ ys = split ∙ rw e in
      let run = insert_child-quiet d kids r f new f_ne new_ne loose flag in
      let shape : Represents (link_first f new d) (update kids f (new ∷ kids f)) =
        Spliced-Spells r refl f_ne new_ne loose.0
          (link_first-Spliced d kids r f new f_ne new_ne loose apart) in
      (
        append_journal me JournalOperation.insert_before new 0 (link_first f new d),
        rw (insert_before, father_is, elder, run) (ground (arith, placed.not_null)),
        rw e (subst (λ l. Represents (link_first f new d) (update kids f (new ∷ l))) first shape),
        append_journal-item d (link_first f new d) JournalOperation.insert_before me new
            (link_first-SameRecord f new d) new_ne,
      )

  before_other : (zs : List ℕ) (a : ℕ) → xs ≡ zs ++ a ∷ [] → Result
  unfolding insert_before append_journal last_of
  before_other zs a e =
      let elder : (d.element me).elder_ptr ≡ a = placed.elder ∙ rw e (last_of-append 0 a zs []) in
      let at_a : kids f ≡ zs ++ a ∷ me ∷ ys = split ∙ rw (e, append_assoc) in
      let a_placed = child-Placed d kids r f a zs (me ∷ ys) f_ne at_a in
      let run = insert_after-quiet d kids r f a new zs (me ∷ ys) f_ne at_a new_ne loose flag in
      let shape : Represents (splice_after a new d)
          (update kids f ((zs ++ a ∷ []) ++ new ∷ me ∷ ys)) =
        Spliced-Spells r (split ∙ rw e) f_ne new_ne loose.0
          (splice_after-Spliced d kids r f a new zs (me ∷ ys) f_ne at_a new_ne loose) in
      (
        append_journal me JournalOperation.insert_before new 0 (splice_after a new d),
        rw (insert_before, father_is, elder, run)
            (ground (arith, placed.not_null, a_placed.not_null)),
        rw e shape,
        append_journal-item d (splice_after a new d) JournalOperation.insert_before me new
            (splice_after-SameRecord a new d) new_ne,
      )

  -- `insertBefore` on an element below the root passes its checks, puts an unlinked element in
  -- front of it, leaves every other list of children alone, and adds one item to the journal if it is enabled.
  pub insert_before-Represents :
      f ≢ new
      → (d' : Document) × (insert_before me new d ≡ some d')
        × Represents d' (update kids f (xs ++ new ∷ me ∷ ys))
        × (d'.journal ≡ recorded d (item_for d JournalOperation.insert_before me new))
  insert_before-Represents apart = elim (snoc-cases xs) [
    | inl e ↦ before_first e apart
    | inr (zs, a, e) ↦ before_other zs a e
  ]
