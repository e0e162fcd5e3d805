-- ===== src/Dom/Removal.antt =====
-- One node taken out of a chain of siblings: what the memory must say afterwards, and that the
-- chain of its father is then the shorter list and every other chain is as before.
use xemeiah.Dom.Siblings.{
  Memory, Siblings, Children, last_of, first_of_or, Siblings-first, Siblings-frame, Siblings-cut,
  Siblings-join, Siblings-father, Children-Distinct,
}
use xemeiah.Dom.Splice.{
  Siblings-retarget, Siblings-reelder, Distinct-append-left, Distinct-append-right,
  Distinct-append-apart, has-first_of_or, has-last_of-zero,
}
use xemeiah.Dom.Tree.{Kids, Spells}
use xemeiah.Prelude.{
  ℕ, ◌≡◌, refl, ◌≢◌, true, false, List, [], ◌∷◌, ◌++◌, arith, ◌==◌, has, Distinct, ◌∙◌, has-append,
  if◌then◌else◌, update, subst, Bool-cases, inl, inr,
}

-- `g` is `h` with `old` taken out from between `xs` and `ys` among the children of `f`.
pub record Removed (h g : Memory) (f old : ℕ) (xs ys : List ℕ) : Type 0 where
  pub father_old : (g old).father_ptr ≡ 0
  pub father : (x : ℕ) → x ≢ old → (g x).father_ptr ≡ (h x).father_ptr
  pub elder :
      (x : ℕ)
      → x ≢ old
      → x ≢ 0
      → (g x).elder_ptr ≡ (if x == first_of_or ys 0 then last_of 0 xs else (h x).elder_ptr)
  pub younger :
      (x : ℕ)
      → x ≢ old
      → x ≢ 0
      → (g x).younger_ptr ≡ (if x == last_of 0 xs then first_of_or ys 0 else (h x).younger_ptr)
  pub child : (g f).child_ptr ≡ first_of_or xs (first_of_or ys 0)
  pub last_child : (g f).last_child_ptr ≡ last_of (last_of 0 xs) ys
  pub child_other : (x : ℕ) → x ≢ f → (g x).child_ptr ≡ (h x).child_ptr
  pub last_child_other : (x : ℕ) → x ≢ f → (g x).last_child_ptr ≡ (h x).last_child_ptr

last_of-join : (a : ℕ) (xs ys : List ℕ) → last_of a (xs ++ ys) ≡ last_of (last_of a xs) ys
unfolding last_of
last_of-join a [] ys = refl
last_of-join a (x ∷ xs) ys = last_of-join x xs ys

first_of_or-join : (xs ys : List ℕ) → first_of_or (xs ++ ys) 0 ≡ first_of_or xs (first_of_or ys 0)
first_of_or-join [] ys = refl
first_of_or-join (x ∷ xs) ys = refl

module _ {h g : Memory} {f old : ℕ} {xs ys : List ℕ} (rm : Removed h g f old xs ys)
    (s : Children h f (xs ++ old ∷ ys)) where
  all-Distinct : Distinct (xs ++ old ∷ ys)
  all-Distinct = Children-Distinct h f (xs ++ old ∷ ys) s

  member : (x : ℕ) → has x (xs ++ old ∷ ys) ≡ true → ((h x).father_ptr ≡ f) × (x ≢ 0)
  member x i = Siblings-father h f 0 (h f).child_ptr (xs ++ old ∷ ys) (h f).last_child_ptr 0 x s i

  in_left : (x : ℕ) → has x xs ≡ true → has x (xs ++ old ∷ ys) ≡ true
  in_left x i = ground (arith, has-append x xs (old ∷ ys))

  in_right : (x : ℕ) → has x ys ≡ true → has x (xs ++ old ∷ ys) ≡ true
  in_right x i = ground (arith, has-append x xs (old ∷ ys))

  apart : (x : ℕ) → has x xs ≡ true → has x (old ∷ ys) ≡ false
  apart x i = Distinct-append-apart xs (old ∷ ys) x all-Distinct i

  left_ne : (x : ℕ) → has x xs ≡ true → (x ≢ first_of_or ys 0) × (x ≢ old)
  left_ne x i = (
    λ e.
        let inside : has x ys ≡ true =
          rw e (has-first_of_or ys (λ z. (member x (in_left x i)).1 (e ∙ z))) in
        ground (arith, apart x i),
    ground (arith, apart x i),
  )

  right_ne : (x : ℕ) → has x ys ≡ true → (x ≢ last_of 0 xs) × (x ≢ old)
  right_ne x i = (
    λ e.
        let inside : has x xs ≡ true =
          rw e (has-last_of-zero xs (λ z. (member x (in_right x i)).1 (e ∙ z))) in
        ground (arith, apart x inside),
    λ e.
        let rest = (Distinct-append-right xs (old ∷ ys) all-Distinct).0 in
        let inside : has old ys ≡ true = rw (← e) i in cc,
  )

  left_links :
      (x : ℕ)
      → has x xs ≡ true
      → ((g x).father_ptr ≡ (h x).father_ptr)
        × ((g x).elder_ptr ≡ (h x).elder_ptr)
        × ((g x).younger_ptr ≡ (if x == last_of 0 xs then first_of_or ys 0 else (h x).younger_ptr))
  left_links x i =
      let ne = left_ne x i in
      let x_ne = (member x (in_left x i)).1 in
      let e = rm.elder x ne.1 x_ne in (rm.father x ne.1, ground arith, rm.younger x ne.1 x_ne)

  right_links :
      (x : ℕ)
      → has x ys ≡ true
      → ((g x).father_ptr ≡ (h x).father_ptr)
        × ((g x).elder_ptr ≡ (if x == first_of_or ys 0 then last_of 0 xs else (h x).elder_ptr))
        × ((g x).younger_ptr ≡ (h x).younger_ptr)
  right_links x i =
      let ne = right_ne x i in
      let x_ne = (member x (in_right x i)).1 in
      let y = rm.younger x ne.1 x_ne in (rm.father x ne.1, rm.elder x ne.1 x_ne, ground arith)

  -- The chain of the father is the shorter list.
  pub Removed-Children : Children g f (xs ++ ys)
  Removed-Children =
      let (a, b) = Siblings-cut h f 0 (h f).child_ptr xs (old ∷ ys) (h f).last_child_ptr 0 s in
      let first = Siblings-first h f old (h old).younger_ptr ys (h f).last_child_ptr 0 b.4 in
      let b' : Siblings h f old (first_of_or ys 0) ys (h f).last_child_ptr 0 = rw (← first) b.4 in
      let left =
        Siblings-retarget h g (first_of_or ys 0) f 0 (h f).child_ptr xs (last_of 0 xs) old a
          (Distinct-append-left xs (old ∷ ys) all-Distinct) left_links in
      let right =
        Siblings-reelder h g (last_of 0 xs) f old (first_of_or ys 0) ys (h f).last_child_ptr 0 b'
          (Distinct-append-right xs (old ∷ ys) all-Distinct).1 right_links in
      rw (rm.child, rm.last_child)
        (Siblings-join g f 0 (first_of_or xs (first_of_or ys 0)) xs ys (last_of 0 xs)
          (first_of_or ys 0) (last_of (last_of 0 xs) ys) 0 left right)

  outside_ne :
      (x : ℕ)
      → x ≢ 0
      → has x (xs ++ old ∷ ys) ≡ false
      → (x ≢ first_of_or ys 0) × (x ≢ last_of 0 xs) × (x ≢ old)
  outside_ne x ne out = (
    λ e.
        let inside : has x ys ≡ true = rw e (has-first_of_or ys (λ z. ne (e ∙ z))) in
        cc (in_right x inside),
    λ e.
        let inside : has x xs ≡ true = rw e (has-last_of-zero xs (λ z. ne (e ∙ z))) in
        cc (in_left x inside),
    ground (arith, has-append x xs (old ∷ ys)),
  )

  -- The chain of another element stays.
  pub Removed-other : (f' : ℕ) (zs : List ℕ) → f' ≢ f → Children h f' zs → Children g f' zs
  Removed-other f' zs ne t =
      rw (rm.child_other f' ne, rm.last_child_other f' ne)
        (Siblings-frame h g f' 0 (h f').child_ptr zs (h f').last_child_ptr 0 t (λ x i.
          let (fx, x_ne) =
            Siblings-father h f' 0 (h f').child_ptr zs (h f').last_child_ptr 0 x t i in
          let out : has x (xs ++ old ∷ ys) ≡ false = ground (arith, member x) in
          let ends = outside_ne x x_ne out in
          let e = rm.elder x ends.2 x_ne in
          let y = rm.younger x ends.2 x_ne in (rm.father x ends.2, ground arith, ground arith)))

has-without :
    (x old : ℕ) (xs ys : List ℕ) → x ≢ old → has x (xs ++ old ∷ ys) ≡ true → has x (xs ++ ys) ≡ true
has-without x old xs ys ne i = ground (arith, has-append x xs ys, has-append x xs (old ∷ ys))

has-update :
    (kids : Kids) (f old : ℕ) (xs ys : List ℕ) (x p : ℕ)
    → kids f ≡ xs ++ old ∷ ys
    → x ≢ old
    → has x (kids p) ≡ true
    → has x (update kids f (xs ++ ys) p) ≡ true
has-update kids f old xs ys x p split ne i = elim (Bool-cases (f == p)) [
  | inl e ↦
      let same : f ≡ p = ground arith in
      let before : has x (xs ++ old ∷ ys) ≡ true = rw (← split, same) i in
      rw e (has-without x old xs ys ne before)
  | inr e ↦ rw e i
]

-- A removal in the memory is one in the abstract view.
pub Removed-Spells :
    {h g : Memory} {kids : Kids} {f old : ℕ} {xs ys : List ℕ}
    → Spells h kids
    → kids f ≡ xs ++ old ∷ ys
    → f ≢ 0
    → Removed h g f old xs ys
    → Spells g (update kids f (xs ++ ys))
Removed-Spells {h} {g} {kids} {f} {old} {xs} {ys} r split f_ne rm = record {
  children = children_at;
  listed = listed_at;
}
  where
    before : Children h f (xs ++ old ∷ ys)
    before = subst (Children h f) split (r.children f f_ne)

    children_at : (f' : ℕ) → f' ≢ 0 → Children g f' (update kids f (xs ++ ys) f')
    children_at f' ne = elim (Bool-cases (f == f')) [
      | inl e ↦ let e' : f' ≡ f = ground arith in rw e (rw e' (Removed-Children rm before))
      | inr e ↦ rw e (Removed-other rm before f' (kids f') (ground arith) (r.children f' ne))
    ]

    listed_at :
        (x : ℕ) → (g x).father_ptr ≢ 0 → has x (update kids f (xs ++ ys) (g x).father_ptr) ≡ true
    listed_at x ne =
        let other : x ≢ old = λ e. ne (rw e rm.father_old) in
        let fx : (g x).father_ptr ≡ (h x).father_ptr = rm.father x other in
        rw fx
          (has-update kids f old xs ys x (h x).father_ptr split other (r.listed x (ground arith)))
