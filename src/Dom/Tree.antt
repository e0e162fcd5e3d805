-- ===== src/Dom/Tree.antt =====
-- The abstract view of a document: each element's list of children. A document represents such a
-- view if its pointers spell every list, and every element with a father is in its father's list.
use xemeiah.Dom.Element.{Document}
use xemeiah.Dom.Siblings.{Memory, Children, Children-Distinct}
use xemeiah.Dom.Splice.{Spliced, Spliced-Children, Spliced-other}
use xemeiah.Prelude.{
  ℕ, ◌≡◌, ◌≢◌, true, List, ◌∷◌, ◌++◌, arith, ◌==◌, has, Distinct, sym, has-append, subst, update,
  Bool-cases, inl, inr,
}

abbrev pub Kids : Type 0
Kids = ℕ → List ℕ

pub record Spells (h : Memory) (kids : Kids) : Type 0 where
  pub children : (f : ℕ) → f ≢ 0 → Children h f (kids f)
  pub listed : (x : ℕ) → (h x).father_ptr ≢ 0 → has x (kids (h x).father_ptr) ≡ true

abbrev pub Represents : Document → Kids → Type 0
Represents d kids = Spells d.element kids

-- The element has no father and no siblings.
abbrev pub Unlinked : Document → ℕ → Type 0
Unlinked d x =
    ((d.element x).father_ptr ≡ 0) × ((d.element x).elder_ptr ≡ 0) × ((d.element x).younger_ptr ≡ 0)

-- No element is twice in its father's list.
pub Represents-Distinct :
    (d : Document) (kids : Kids) (f : ℕ) → Represents d kids → f ≢ 0 → Distinct (kids f)
Represents-Distinct d kids f r ne = Children-Distinct d.element f (kids f) (r.children f ne)

has-insert : (x new : ℕ) (xs ys : List ℕ) → has x (xs ++ ys) ≡ true → has x (xs ++ new ∷ ys) ≡ true
has-insert x new xs ys i = ground (arith, has-append x xs ys, has-append x xs (new ∷ ys))

has-middle : (new : ℕ) (xs ys : List ℕ) → has new (xs ++ new ∷ ys) ≡ true
has-middle new xs ys = ground (arith, has-append new xs (new ∷ ys))

has-update_self :
    (kids : Kids) (f new : ℕ) (xs ys : List ℕ) → has new (update kids f (xs ++ new ∷ ys) f) ≡ true
has-update_self kids f new xs ys = ground (arith, has-middle new xs ys)

has-update :
    (kids : Kids) (f new : ℕ) (xs ys : List ℕ) (x p : ℕ)
    → kids f ≡ xs ++ ys
    → has x (kids p) ≡ true
    → has x (update kids f (xs ++ new ∷ ys) p) ≡ true
has-update kids f new xs ys x p split i = elim (Bool-cases (f == p)) [
  | inl e ↦
      let same : f ≡ p = ground arith in
      let old : has x (xs ++ ys) ≡ true = rw (← split, same) i in rw e (has-insert x new xs ys old)
  | inr e ↦ rw e i
]

-- A splice is an insertion in the abstract view.
pub Spliced-Spells :
    {h g : Memory} {kids : Kids} {f new : ℕ} {xs ys : List ℕ}
    → Spells h kids
    → kids f ≡ xs ++ ys
    → f ≢ 0
    → new ≢ 0
    → (h new).father_ptr ≡ 0
    → Spliced h g f new xs ys
    → Spells g (update kids f (xs ++ new ∷ ys))
Spliced-Spells {h} {g} {kids} {f} {new} {xs} {ys} r split f_ne new_ne loose sp = record {
  children = children_at;
  listed = listed_at;
}
  where
    before : Children h f (xs ++ ys)
    before = subst (Children h f) split (r.children f f_ne)

    children_at : (f' : ℕ) → f' ≢ 0 → Children g f' (update kids f (xs ++ new ∷ ys) f')
    children_at f' ne = elim (Bool-cases (f == f')) [
      | inl e ↦
          let e' : f' ≡ f = ground arith in
          rw e (rw e' (Spliced-Children sp before loose f_ne new_ne))
      | inr e ↦ rw e (
          Spliced-other sp before loose f_ne new_ne f' (kids f') (ground arith) ne
            (r.children f' ne))
    ]

    listed_at :
        (x : ℕ)
        → (g x).father_ptr ≢ 0
        → has x (update kids f (xs ++ new ∷ ys) (g x).father_ptr) ≡ true
    listed_at x ne = elim (Bool-cases (x == new)) [
      | inl e ↦
          let e' : x ≡ new = ground arith in
          let fx : f ≡ (g x).father_ptr = rw e' (sym sp.father_new) in
          rw (← fx, e') (has-update_self kids f new xs ys)
      | inr e ↦
          let fx : (g x).father_ptr ≡ (h x).father_ptr = sp.father x (ground arith) in
          rw fx (has-update kids f new xs ys x (h x).father_ptr split (r.listed x (ground arith)))
    ]
