-- ===== src/Dom/Unlink.antt =====
-- `unlinkElementFromFather` of dom/elementref.cpp as a removal from the list of children.
use xemeiah.Dom.Element.{
  Document, has_attributes_and_children, unlink_ends, unlink_elder, unlink_younger, clear_links,
  unlink_neighbours, unlink_element_from_father,
}
use xemeiah.Dom.Ends.{Placed, child-Placed, child_ptr-eq}
use xemeiah.Dom.Removal.{Removed, Removed-Spells}
use xemeiah.Dom.Siblings.{SameLinks, Children, Children-Distinct, last_of, first_of_or}
use xemeiah.Dom.Splice.{
  has-last_of, first_of_or-middle, Distinct-append-right, Distinct-append-apart,
}
use xemeiah.Dom.Tree.{Kids, Represents, Unlinked}
use xemeiah.Prelude.{
  ℕ, ◌≡◌, ◌≢◌, true, false, List, [], ◌∷◌, ◌++◌, arith, ◌==◌, has, Distinct, ◌∙◌, update, subst,
  some, if◌then◌else◌,
}

-- The two pointers to children, of one element in both documents.
abbrev SameEnds : Document → Document → ℕ → Type 0
SameEnds d e x =
    ((e.element x).child_ptr ≡ (d.element x).child_ptr)
    × ((e.element x).last_child_ptr ≡ (d.element x).last_child_ptr)

module _ (me : ℕ) (d : Document) where
  unlink_ends-links : (f x : ℕ) → SameLinks d.element (unlink_ends me f d).element x
  unfolding unlink_ends
  unlink_ends-links f x = ground arith

  unlink_ends-father :
      (f : ℕ)
      → (((unlink_ends me f d).element f).child_ptr ≡ (
          if (d.element f).child_ptr == me
          then (d.element me).younger_ptr
          else (d.element f).child_ptr))
        × (((unlink_ends me f d).element f).last_child_ptr ≡ (
            if (d.element f).last_child_ptr == me
            then (d.element me).elder_ptr
            else (d.element f).last_child_ptr))
  unfolding unlink_ends
  unlink_ends-father f = ground arith

  unlink_ends-other : (f x : ℕ) → x ≢ f → SameEnds d (unlink_ends me f d) x
  unfolding unlink_ends
  unlink_ends-other f x ne = ground arith

  unlink_elder-links :
      (x : ℕ)
      → (((unlink_elder me d).element x).father_ptr ≡ (d.element x).father_ptr)
        × (((unlink_elder me d).element x).elder_ptr ≡ (d.element x).elder_ptr)
        × SameEnds d (unlink_elder me d) x
  unfolding unlink_elder
  unlink_elder-links x = ground arith

  unlink_elder-younger :
      (x : ℕ)
      → x ≢ 0
      → ((unlink_elder me d).element x).younger_ptr ≡ (
          if x == (d.element me).elder_ptr
          then (d.element me).younger_ptr
          else (d.element x).younger_ptr)
  unfolding unlink_elder
  unlink_elder-younger x ne = ground arith

  unlink_younger-links :
      (x : ℕ)
      → (((unlink_younger me d).element x).father_ptr ≡ (d.element x).father_ptr)
        × (((unlink_younger me d).element x).younger_ptr ≡ (d.element x).younger_ptr)
        × SameEnds d (unlink_younger me d) x
  unfolding unlink_younger
  unlink_younger-links x = ground arith

  unlink_younger-elder :
      (x : ℕ)
      → x ≢ 0
      → ((unlink_younger me d).element x).elder_ptr ≡ (
          if x == (d.element me).younger_ptr
          then (d.element me).elder_ptr
          else (d.element x).elder_ptr)
  unfolding unlink_younger
  unlink_younger-elder x ne = ground arith

  clear_links-other : (x : ℕ) → x ≢ me → SameLinks d.element (clear_links me d).element x
  unfolding clear_links
  clear_links-other x ne = ground arith

  clear_links-ends : (x : ℕ) → SameEnds d (clear_links me d) x
  unfolding clear_links
  clear_links-ends x = ground arith

  clear_links-Unlinked : Unlinked (clear_links me d) me
  unfolding clear_links
  clear_links-Unlinked = ground arith

first-removed :
    (xs : List ℕ) (me b : ℕ)
    → has me xs ≡ false
    → (if first_of_or xs me == me then b else first_of_or xs me) ≡ first_of_or xs b
first-removed [] me b out = ground arith
first-removed (x ∷ xs) me b out = ground arith

last-removed :
    (ys : List ℕ) (me a : ℕ)
    → has me ys ≡ false
    → (if last_of me ys == me then a else last_of me ys) ≡ last_of a ys
unfolding last_of
last-removed [] me a out = ground arith
last-removed (y ∷ ys) me a out = ground (arith, has-last_of y ys)

module _ (d : Document) (kids : Kids) (r : Represents d kids) (f me : ℕ) (xs ys : List ℕ)
    (f_ne : f ≢ 0) (split : kids f ≡ xs ++ me ∷ ys) where
  placed : Placed d f me xs ys
  placed = child-Placed d kids r f me xs ys f_ne split

  once : Distinct (xs ++ me ∷ ys)
  once =
      Children-Distinct d.element f (xs ++ me ∷ ys)
        (subst (Children d.element f) split (r.children f f_ne))

  not_before : has me xs ≡ false
  not_before = ground (arith, Distinct-append-apart xs (me ∷ ys) me once)

  not_behind : has me ys ≡ false
  not_behind = (Distinct-append-right xs (me ∷ ys) once).0

  abbrev d₁ : Document
  d₁ = unlink_ends me f d

  abbrev d₂ : Document
  d₂ = unlink_elder me d₁

  abbrev d₃ : Document
  d₃ = unlink_younger me d₂

  elder_of_me : (d₂.element me).elder_ptr ≡ last_of 0 xs
  elder_of_me = (unlink_elder-links me d₁ me).1 ∙ (unlink_ends-links me d f me).1 ∙ placed.elder

  younger_of_me : (d₂.element me).younger_ptr ≡ first_of_or ys 0
  younger_of_me =
      let a = unlink_elder-younger me d₁ me placed.not_null in
      ground (arith, unlink_ends-links me d f me, placed.younger)

  elder_of :
      (x : ℕ)
      → x ≢ me
      → x ≢ 0
      → ((clear_links me d₃).element x).elder_ptr
        ≡ (if x == first_of_or ys 0 then last_of 0 xs else (d.element x).elder_ptr)
  elder_of x ne x_ne = ground (
    arith,
    clear_links-other me d₃ x ne,
    unlink_younger-elder me d₂ x x_ne,
    unlink_elder-links me d₁ x,
    unlink_ends-links me d f x,
    elder_of_me,
    younger_of_me,
  )

  younger_of :
      (x : ℕ)
      → x ≢ me
      → x ≢ 0
      → ((clear_links me d₃).element x).younger_ptr
        ≡ (if x == last_of 0 xs then first_of_or ys 0 else (d.element x).younger_ptr)
  younger_of x ne x_ne = ground (
    arith,
    clear_links-other me d₃ x ne,
    unlink_younger-links me d₂ x,
    unlink_elder-younger me d₁ x x_ne,
    unlink_ends-links me d f x,
    unlink_ends-links me d f me,
    placed.elder,
    placed.younger,
  )

  ends_of : (x : ℕ) → SameEnds d₁ (clear_links me d₃) x
  ends_of x =
      ground
        (arith, clear_links-ends me d₃ x, unlink_younger-links me d₂ x, unlink_elder-links me d₁ x)

  unlink_neighbours-Removed : Removed d.element (unlink_neighbours me f d).element f me xs ys
  unfolding unlink_neighbours
  unlink_neighbours-Removed =
      let first : (d.element f).child_ptr ≡ first_of_or xs me =
        child_ptr-eq d kids r f f_ne ∙ rw split (first_of_or-middle xs ys me 0) in
      let last = placed.last_child in
      record {
        father_old = (clear_links-Unlinked me d₃).0;
        father = λ x ne.
            (clear_links-other me d₃ x ne).0
            ∙ (unlink_younger-links me d₂ x).0
            ∙ (unlink_elder-links me d₁ x).0
            ∙ (unlink_ends-links me d f x).0;
        elder = elder_of;
        younger = younger_of;
        child =
            (ends_of f).0
            ∙ (unlink_ends-father me d f).0
            ∙ rw (first, placed.younger) (first-removed xs me (first_of_or ys 0) not_before);
        last_child =
            (ends_of f).1
            ∙ (unlink_ends-father me d f).1
            ∙ rw (last, placed.elder) (last-removed ys me (last_of 0 xs) not_behind);
        child_other = λ x ne. (ends_of x).0 ∙ (unlink_ends-other me d f x ne).0;
        last_child_other = λ x ne. (ends_of x).1 ∙ (unlink_ends-other me d f x ne).1;
      }

  unlink_element_from_father-passes :
      has_attributes_and_children (d.element f) ≡ true
      → unlink_element_from_father me d ≡ some (unlink_neighbours me f d)
  unfolding unlink_element_from_father
  unlink_element_from_father-passes flag =
      rw (placed.father, flag) (ground (arith, placed.not_null))

  -- `unlinkElementFromFather` passes its checks, takes the element out of its father's list, leaves
  -- every other list of children alone, and leaves the element with no father and no siblings.
  pub unlink_element_from_father-Represents :
      has_attributes_and_children (d.element f) ≡ true
      → (d' : Document) × (unlink_element_from_father me d ≡ some d')
        × Represents d' (update kids f (xs ++ ys))
        × Unlinked d' me
  unfolding unlink_element_from_father
  unlink_element_from_father-Represents flag = (
    unlink_neighbours me f d,
    unlink_element_from_father-passes flag,
    Removed-Spells r split f_ne unlink_neighbours-Removed,
    clear_links-Unlinked me d₃,
  )
