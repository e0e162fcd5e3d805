-- ===== src/Dom/Siblings.antt =====
-- Chains of siblings: what the father, elder and younger pointers of a list of elements say, and how
-- chains are joined, cut and kept by a change of the memory.
use xemeiah.Dom.Element.{ElementSegment}
use xemeiah.Prelude.{ℕ, ◌≡◌, refl, ◌≢◌, true, false, List, [], ◌∷◌, ◌++◌, arith, has, Distinct}

abbrev pub Memory : Type 0
Memory = ℕ → ElementSegment

-- From `p` the younger pointers lead through `xs`, all children of `f`, to `q`; `e` comes before the
-- first of them, and the last of `e ∷ xs` is `m`.
abbrev pub Siblings : Memory → (f e p : ℕ) → List ℕ → (m q : ℕ) → Type 0
Siblings h f e p [] m q = (p ≡ q) × (m ≡ e)
Siblings h f e p (x ∷ xs) m q =
    (p ≡ x)
    × (x ≢ 0)
    × ((h x).father_ptr ≡ f)
    × ((h x).elder_ptr ≡ e)
    × Siblings h f x (h x).younger_ptr xs m q

-- The children of `f`, in order.
abbrev pub Children : Memory → ℕ → List ℕ → Type 0
Children h f xs = Siblings h f 0 (h f).child_ptr xs (h f).last_child_ptr 0

-- The links of `x` are the same in both memories.
abbrev pub SameLinks : Memory → Memory → ℕ → Type 0
SameLinks h g x =
    ((g x).father_ptr ≡ (h x).father_ptr)
    × ((g x).elder_ptr ≡ (h x).elder_ptr)
    × ((g x).younger_ptr ≡ (h x).younger_ptr)

-- The last of `e ∷ xs`.
unfoldable pub last_of : ℕ → List ℕ → ℕ
last_of e [] = e
last_of e (x ∷ xs) = last_of x xs

-- The first of `xs ++ q ∷ []`.
abbrev pub first_of_or : List ℕ → ℕ → ℕ
first_of_or [] q = q
first_of_or (x ∷ xs) q = x

pub Siblings-first :
    (h : Memory) (f e p : ℕ) (xs : List ℕ) (m q : ℕ)
    → Siblings h f e p xs m q
    → p ≡ first_of_or xs q
Siblings-first h f e p [] m q s = s.0
Siblings-first h f e p (x ∷ xs) m q s = s.0

pub Siblings-last :
    (h : Memory) (f e p : ℕ) (xs : List ℕ) (m q : ℕ) → Siblings h f e p xs m q → m ≡ last_of e xs
unfolding last_of
Siblings-last h f e p [] m q s = s.1
Siblings-last h f e p (x ∷ xs) m q s = Siblings-last h f x (h x).younger_ptr xs m q s.4

pub Siblings-frame :
    (h g : Memory) (f e p : ℕ) (xs : List ℕ) (m q : ℕ)
    → Siblings h f e p xs m q
    → ((x : ℕ) → has x xs ≡ true → SameLinks h g x)
    → Siblings g f e p xs m q
Siblings-frame h g f e p [] m q s same = s
Siblings-frame h g f e p (x ∷ xs) m q s same =
    let l = same x (ground arith) in
    let rest = Siblings-frame h g f x (h x).younger_ptr xs m q s.4 (λ y i. same y (ground arith)) in
    (s.0, s.1, ground arith, ground arith, subst-younger x xs m q l.2 rest)
  where
    subst-younger :
        (x : ℕ) (xs : List ℕ) (m q : ℕ)
        → (g x).younger_ptr ≡ (h x).younger_ptr
        → Siblings g f x (h x).younger_ptr xs m q
        → Siblings g f x (g x).younger_ptr xs m q
    subst-younger x xs m q l r = rw l r

-- A chain is cut at any place.
pub Siblings-cut :
    (h : Memory) (f e p : ℕ) (xs ys : List ℕ) (m q : ℕ)
    → Siblings h f e p (xs ++ ys) m q
    → Siblings h f e p xs (last_of e xs) (first_of_or ys q)
      × Siblings h f (last_of e xs) (first_of_or ys q) ys m q
unfolding last_of
Siblings-cut h f e p [] ys m q s =
    let i = Siblings-first h f e p ys m q s in ((i, refl), rw (← i) s)
Siblings-cut h f e p (x ∷ xs) ys m q s =
    let (a, b) = Siblings-cut h f x (h x).younger_ptr xs ys m q s.4 in ((s.0, s.1, s.2, s.3, a), b)

pub Siblings-join :
    (h : Memory) (f e p : ℕ) (xs ys : List ℕ) (n r m q : ℕ)
    → Siblings h f e p xs n r
    → Siblings h f n r ys m q
    → Siblings h f e p (xs ++ ys) m q
Siblings-join h f e p [] ys n r m q s t = rw (s.0, ← s.1) t
Siblings-join h f e p (x ∷ xs) ys n r m q s t =
    (s.0, s.1, s.2, s.3, Siblings-join h f x (h x).younger_ptr xs ys n r m q s.4 t)

-- Every member is a child of `f` and is not null.
pub Siblings-father :
    (h : Memory) (f e p : ℕ) (xs : List ℕ) (m q x : ℕ)
    → Siblings h f e p xs m q
    → has x xs ≡ true
    → ((h x).father_ptr ≡ f) × (x ≢ 0)
Siblings-father h f e p [] m q x s i = cc
Siblings-father h f e p (y ∷ xs) m q x s i =
    ground (arith, Siblings-father h f y (h y).younger_ptr xs m q x s.4)

-- The elder of a member is `e` or a member.
Siblings-elder :
    (h : Memory) (f e p : ℕ) (xs : List ℕ) (m q x : ℕ)
    → Siblings h f e p xs m q
    → has x xs ≡ true
    → has (h x).elder_ptr (e ∷ xs) ≡ true
Siblings-elder h f e p [] m q x s i = cc
Siblings-elder h f e p (y ∷ xs) m q x s i =
    ground (arith, Siblings-elder h f y (h y).younger_ptr xs m q x s.4)

-- A chain that does not run back into its start has no member twice.
pub Siblings-Distinct :
    (h : Memory) (f e p : ℕ) (xs : List ℕ) (m q : ℕ)
    → Siblings h f e p xs m q
    → has e xs ≡ false
    → Distinct xs
Siblings-Distinct h f e p [] m q s out = tt
Siblings-Distinct h f e p (x ∷ xs) m q s out =
    let new : has x xs ≡ false =
      ground (arith, Siblings-elder h f x (h x).younger_ptr xs m q x s.4) in
    (new, Siblings-Distinct h f x (h x).younger_ptr xs m q s.4 new)

-- Children are distinct: a list of children has no cycle.
pub Children-Distinct : (h : Memory) (f : ℕ) (xs : List ℕ) → Children h f xs → Distinct xs
Children-Distinct h f xs s =
    Siblings-Distinct h f 0 (h f).child_ptr xs (h f).last_child_ptr 0 s
      (ground (arith, Siblings-father h f 0 (h f).child_ptr xs (h f).last_child_ptr 0 0 s))
