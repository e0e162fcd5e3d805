-- ===== src/Dom/Splice.antt =====
-- One node put into a chain of siblings: what the memory must say afterwards, and that the chain of
-- its father is then the longer list and every other chain is as before.
use xemeiah.Dom.Siblings.{
  Memory, Siblings, Children, last_of, first_of_or, Siblings-last, Siblings-frame, Siblings-cut,
  Siblings-join, Siblings-father, Children-Distinct,
}
use xemeiah.Prelude.{
  ℕ, ◌≡◌, refl, ◌≢◌, true, false, List, [], ◌∷◌, ◌++◌, arith, ◌==◌, has, Distinct, sym, ◌∙◌,
  has-append, if◌then◌else◌,
}

pub has-last_of : (x : ℕ) (xs : List ℕ) → has (last_of x xs) (x ∷ xs) ≡ true
unfolding last_of
has-last_of x [] = ground arith
has-last_of x (y ∷ xs) = ground (arith, has-last_of y xs)

-- The last member now leads to `new`.
pub Siblings-retarget :
    (h g : Memory) (new f e p : ℕ) (xs : List ℕ) (m q : ℕ)
    → Siblings h f e p xs m q
    → Distinct xs
    → ((x : ℕ)
        → has x xs ≡ true
        → ((g x).father_ptr ≡ (h x).father_ptr)
          × ((g x).elder_ptr ≡ (h x).elder_ptr)
          × ((g x).younger_ptr ≡ (if x == last_of e xs then new else (h x).younger_ptr)))
    → Siblings g f e (first_of_or xs new) xs (last_of e xs) new
unfolding last_of
Siblings-retarget h g new f e p [] m q s apart same = (refl, refl)
Siblings-retarget h g new f e p (x ∷ []) m q s apart same =
    let l = same x (ground arith) in (refl, s.1, ground arith, ground arith, (ground arith, refl))
Siblings-retarget h g new f e p (x ∷ y ∷ xs) m q s apart same =
    let l = same x (ground arith) in
    let ne : (x == last_of y xs) ≡ false = ground (arith, has-last_of y xs) in
    let rest =
      Siblings-retarget h g new f x (h x).younger_ptr (y ∷ xs) m q s.4 apart.1
        (λ z i. same z (ground arith)) in
    (refl, s.1, ground arith, ground arith, rw l.2 (rw ne (rw s.4.0 rest)))

-- The first member now has `new` before it.
pub Siblings-reelder :
    (h g : Memory) (new f e p : ℕ) (xs : List ℕ) (m q : ℕ)
    → Siblings h f e p xs m q
    → Distinct xs
    → ((x : ℕ)
        → has x xs ≡ true
        → ((g x).father_ptr ≡ (h x).father_ptr)
          × ((g x).elder_ptr ≡ (if x == first_of_or xs q then new else (h x).elder_ptr))
          × ((g x).younger_ptr ≡ (h x).younger_ptr))
    → Siblings g f new p xs (last_of new xs) q
unfolding last_of
Siblings-reelder h g new f e p [] m q s apart same = (s.0, refl)
Siblings-reelder h g new f e p (x ∷ xs) m q s apart same =
    let l = same x (ground arith) in
    let rest : Siblings h f x (g x).younger_ptr xs m q = rw l.2 s.4 in
    let frame : Siblings g f x (g x).younger_ptr xs m q =
      Siblings-frame h g f x (g x).younger_ptr xs m q rest (λ y i. ground (arith, same y)) in
    (
      s.0,
      s.1,
      ground arith,
      ground arith,
      rw (← Siblings-last g f x (g x).younger_ptr xs m q frame) frame,
    )

-- `g` is `h` with `new` put between `xs` and `ys` among the children of `f`.
pub record Spliced (h g : Memory) (f new : ℕ) (xs ys : List ℕ) : Type 0 where
  pub father_new : (g new).father_ptr ≡ f
  pub elder_new : (g new).elder_ptr ≡ last_of 0 xs
  pub younger_new : (g new).younger_ptr ≡ first_of_or ys 0
  pub father : (x : ℕ) → x ≢ new → (g x).father_ptr ≡ (h x).father_ptr
  pub elder :
      (x : ℕ)
      → x ≢ new
      → x ≢ 0
      → (g x).elder_ptr ≡ (if x == first_of_or ys 0 then new else (h x).elder_ptr)
  pub younger :
      (x : ℕ)
      → x ≢ new
      → x ≢ 0
      → (g x).younger_ptr ≡ (if x == last_of 0 xs then new else (h x).younger_ptr)
  pub child : (g f).child_ptr ≡ first_of_or (xs ++ new ∷ []) 0
  pub last_child : (g f).last_child_ptr ≡ last_of new ys
  pub child_other : (x : ℕ) → x ≢ f → (g x).child_ptr ≡ (h x).child_ptr
  pub last_child_other : (x : ℕ) → x ≢ f → (g x).last_child_ptr ≡ (h x).last_child_ptr

pub Distinct-append-left : (xs ys : List ℕ) → Distinct (xs ++ ys) → Distinct xs
Distinct-append-left [] ys d = tt
Distinct-append-left (x ∷ xs) ys d =
    (ground (arith, has-append x xs ys), Distinct-append-left xs ys d.1)

pub Distinct-append-right : (xs ys : List ℕ) → Distinct (xs ++ ys) → Distinct ys
Distinct-append-right [] ys d = d
Distinct-append-right (x ∷ xs) ys d = Distinct-append-right xs ys d.1

pub Distinct-append-apart :
    (xs ys : List ℕ) (x : ℕ) → Distinct (xs ++ ys) → has x xs ≡ true → has x ys ≡ false
Distinct-append-apart [] ys x d i = cc
Distinct-append-apart (y ∷ xs) ys x d i =
    ground (arith, Distinct-append-apart xs ys x d.1, has-append y xs ys)

pub has-first_of_or : (ys : List ℕ) → first_of_or ys 0 ≢ 0 → has (first_of_or ys 0) ys ≡ true
has-first_of_or [] h = absurd (h refl)
has-first_of_or (y ∷ ys) h = ground arith

pub has-last_of-zero : (xs : List ℕ) → last_of 0 xs ≢ 0 → has (last_of 0 xs) xs ≡ true
unfolding last_of
has-last_of-zero [] h = absurd (h refl)
has-last_of-zero (x ∷ xs) h = has-last_of x xs

pub first_of_or-append :
    (xs : List ℕ) (new q : ℕ) → first_of_or (xs ++ new ∷ []) q ≡ first_of_or xs new
first_of_or-append [] new q = refl
first_of_or-append (x ∷ xs) new q = refl

pub first_of_or-middle :
    (xs ys : List ℕ) (a q : ℕ) → first_of_or (xs ++ a ∷ ys) q ≡ first_of_or xs a
first_of_or-middle [] ys a q = refl
first_of_or-middle (x ∷ xs) ys a q = refl

module _ {h g : Memory} {f new : ℕ} {xs ys : List ℕ} (sp : Spliced h g f new xs ys)
    (s : Children h f (xs ++ ys)) (loose : (h new).father_ptr ≡ 0) (f_ne : f ≢ 0)
    (new_ne : new ≢ 0) where
  member : (x : ℕ) → has x (xs ++ ys) ≡ true → ((h x).father_ptr ≡ f) × (x ≢ 0)
  member x i = Siblings-father h f 0 (h f).child_ptr (xs ++ ys) (h f).last_child_ptr 0 x s i

  not_new : (x : ℕ) → has x (xs ++ ys) ≡ true → x ≢ new
  not_new x i e = f_ne (sym (member x i).0 ∙ rw e loose)

  not_member : (x : ℕ) → (h x).father_ptr ≢ f → has x (xs ++ ys) ≡ false
  not_member x ne = ground (arith, member x)

  in_left : (x : ℕ) → has x xs ≡ true → has x (xs ++ ys) ≡ true
  in_left x i = ground (arith, has-append x xs ys)

  in_right : (x : ℕ) → has x ys ≡ true → has x (xs ++ ys) ≡ true
  in_right x i = ground (arith, has-append x xs ys)

  left_ne : (x : ℕ) → has x xs ≡ true → x ≢ first_of_or ys 0
  left_ne x i e =
      let apart = Distinct-append-apart xs ys x (Children-Distinct h f (xs ++ ys) s) i in
      let inside : has x ys ≡ true =
        rw e (has-first_of_or ys (λ z. (member x (in_left x i)).1 (e ∙ z))) in
      cc

  right_ne : (x : ℕ) → has x ys ≡ true → x ≢ last_of 0 xs
  right_ne x i e =
      let inside : has x xs ≡ true =
        rw e (has-last_of-zero xs (λ z. (member x (in_right x i)).1 (e ∙ z))) in
      let apart = Distinct-append-apart xs ys x (Children-Distinct h f (xs ++ ys) s) inside in cc

  left_links :
      (x : ℕ)
      → has x xs ≡ true
      → ((g x).father_ptr ≡ (h x).father_ptr)
        × ((g x).elder_ptr ≡ (h x).elder_ptr)
        × ((g x).younger_ptr ≡ (if x == last_of 0 xs then new else (h x).younger_ptr))
  left_links x i =
      let j = in_left x i in
      let ne = left_ne x i in
      let e = sp.elder x (not_new x j) (member x j).1 in
      (sp.father x (not_new x j), ground arith, sp.younger x (not_new x j) (member x j).1)

  right_links :
      (x : ℕ)
      → has x ys ≡ true
      → ((g x).father_ptr ≡ (h x).father_ptr)
        × ((g x).elder_ptr ≡ (if x == first_of_or ys 0 then new else (h x).elder_ptr))
        × ((g x).younger_ptr ≡ (h x).younger_ptr)
  right_links x i =
      let j = in_right x i in
      let ne = right_ne x i in
      let e = sp.younger x (not_new x j) (member x j).1 in
      (sp.father x (not_new x j), sp.elder x (not_new x j) (member x j).1, ground arith)

  -- The chain of the father is the longer list.
  pub Spliced-Children : Children g f (xs ++ new ∷ ys)
  Spliced-Children =
      let apart = Children-Distinct h f (xs ++ ys) s in
      let (a, b) = Siblings-cut h f 0 (h f).child_ptr xs ys (h f).last_child_ptr 0 s in
      let left =
        Siblings-retarget h g new f 0 (h f).child_ptr xs (last_of 0 xs) (first_of_or ys 0) a
          (Distinct-append-left xs ys apart) (λ x i. left_links x i) in
      let right =
        Siblings-reelder h g new f (last_of 0 xs) (first_of_or ys 0) ys (h f).last_child_ptr 0 b
          (Distinct-append-right xs ys apart) (λ x i. right_links x i) in
      rw (sp.child, sp.last_child, first_of_or-append)
        (Siblings-join g f 0 (first_of_or xs new) xs (new ∷ ys) (last_of 0 xs) new (last_of new ys)
          0 left (refl, new_ne, sp.father_new, sp.elder_new, rw sp.younger_new right))

  outside_ne :
      (x : ℕ) → x ≢ 0 → has x (xs ++ ys) ≡ false → (x ≢ first_of_or ys 0) × (x ≢ last_of 0 xs)
  outside_ne x ne out = (
    λ e.
        let inside : has x ys ≡ true = rw e (has-first_of_or ys (λ z. ne (e ∙ z))) in
        cc (sym out ∙ in_right x inside),
    λ e.
        let inside : has x xs ≡ true = rw e (has-last_of-zero xs (λ z. ne (e ∙ z))) in
        cc (sym out ∙ in_left x inside),
  )

  -- The chain of another element stays.
  pub Spliced-other : (f' : ℕ) (zs : List ℕ) → f' ≢ f → f' ≢ 0 → Children h f' zs → Children g f' zs
  Spliced-other f' zs ne ne0 t =
      rw (sp.child_other f' ne, sp.last_child_other f' ne)
        (Siblings-frame h g f' 0 (h f').child_ptr zs (h f').last_child_ptr 0 t (λ x i.
          let (fx, x_ne) =
            Siblings-father h f' 0 (h f').child_ptr zs (h f').last_child_ptr 0 x t i in
          let other : x ≢ new = λ e. ne0 (sym fx ∙ rw e loose) in
          let out : has x (xs ++ ys) ≡ false = not_member x (λ e. ne (sym fx ∙ e)) in
          let ends = outside_ne x x_ne out in
          let e = sp.elder x other x_ne in
          let y = sp.younger x other x_ne in (sp.father x other, ground arith, ground arith)))
