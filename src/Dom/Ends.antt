-- ===== src/Dom/Ends.antt =====
-- Both ends of a list of children: what the father's two pointers are.
use xemeiah.Dom.Element.{Document}
use xemeiah.Dom.Siblings.{
  Memory, Children, last_of, first_of_or, Siblings-last, Siblings-first, Siblings-father,
  Siblings-cut,
}
use xemeiah.Dom.Splice.{has-last_of}
use xemeiah.Dom.Tree.{Kids, Represents}
use xemeiah.Prelude.{ℕ, ◌≡◌, refl, ◌≢◌, List, [], ◌∷◌, ◌++◌, ap, subst, has, true}

pub last_of-default : (xs : List ℕ) (a b : ℕ) → last_of a xs ≢ a → last_of b xs ≡ last_of a xs
unfolding last_of
last_of-default [] a b h = absurd (h refl)
last_of-default (x ∷ xs) a b h = refl

pub last_of-append : (e x : ℕ) (xs ys : List ℕ) → last_of e (xs ++ x ∷ ys) ≡ last_of x ys
unfolding last_of
last_of-append e x [] ys = refl
last_of-append e x (z ∷ xs) ys = last_of-append z x xs ys

pub first_of_or-default :
    (xs : List ℕ) (a b : ℕ) → last_of 0 xs ≢ 0 → first_of_or xs a ≡ first_of_or xs b
unfolding last_of
first_of_or-default [] a b h = absurd (h refl)
first_of_or-default (x ∷ xs) a b h = refl

-- A chain that ends in null holds nothing.
pub Children-nil : (h : Memory) (f : ℕ) (xs : List ℕ) → Children h f xs → last_of 0 xs ≡ 0 → xs ≡ []
unfolding last_of
Children-nil h f [] s e = refl
Children-nil h f (x ∷ xs) s e = absurd (
    (Siblings-father h f 0 (h f).child_ptr (x ∷ xs) (h f).last_child_ptr 0 (last_of x xs) s
        (has-last_of x xs)).1
      e)

pub append-snoc : (xs : List ℕ) → xs ≡ xs ++ []
append-snoc [] = refl
append-snoc (x ∷ xs) = ap (λ l. x ∷ l) (append-snoc xs)

module _ (d : Document) (kids : Kids) (r : Represents d kids) (f : ℕ) (f_ne : f ≢ 0) where
  pub last_child_ptr-eq : (d.element f).last_child_ptr ≡ last_of 0 (kids f)
  last_child_ptr-eq =
      Siblings-last d.element f 0 (d.element f).child_ptr (kids f) (d.element f).last_child_ptr 0
        (r.children f f_ne)

  pub child_ptr-eq : (d.element f).child_ptr ≡ first_of_or (kids f) 0
  child_ptr-eq =
      Siblings-first d.element f 0 (d.element f).child_ptr (kids f) (d.element f).last_child_ptr 0
        (r.children f f_ne)

  -- A child is not null and has its father.
  pub child-father : (x : ℕ) → has x (kids f) ≡ true → ((d.element x).father_ptr ≡ f) × (x ≢ 0)
  child-father x i =
      Siblings-father d.element f 0 (d.element f).child_ptr (kids f) (d.element f).last_child_ptr 0
        x (r.children f f_ne) i

-- What the pointers of a child say, at its place in the list.
pub record Placed (d : Document) (f x : ℕ) (xs ys : List ℕ) : Type 0 where
  pub not_null : x ≢ 0
  pub father : (d.element x).father_ptr ≡ f
  pub elder : (d.element x).elder_ptr ≡ last_of 0 xs
  pub younger : (d.element x).younger_ptr ≡ first_of_or ys 0
  pub last_child : (d.element f).last_child_ptr ≡ last_of x ys

pub child-Placed :
    (d : Document) (kids : Kids)
    → Represents d kids
    → (f x : ℕ) (xs ys : List ℕ) → f ≢ 0
    → kids f ≡ xs ++ x ∷ ys
    → Placed d f x xs ys
child-Placed d kids r f x xs ys f_ne split =
    let whole : Children d.element f (xs ++ x ∷ ys) =
      subst (Children d.element f) split (r.children f f_ne) in
    let rest =
      (Siblings-cut d.element f 0 (d.element f).child_ptr xs (x ∷ ys) (d.element f).last_child_ptr 0
        whole).1 in
    record {
      not_null = rest.1;
      father = rest.2;
      elder = rest.3;
      younger =
          Siblings-first d.element f x (d.element x).younger_ptr ys (d.element f).last_child_ptr 0
            rest.4;
      last_child =
          Siblings-last d.element f x (d.element x).younger_ptr ys (d.element f).last_child_ptr 0
            rest.4;
    }
