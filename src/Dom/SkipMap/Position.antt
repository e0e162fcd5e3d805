-- ===== src/Dom/SkipMap/Position.antt =====
-- Where an item of the list stands: what is in front of it, and where the search for it stops.
use xemeiah.Dom.SkipMap.Chains.{Items, Chain, Linked, last_below, last_below-Above}
use xemeiah.Dom.SkipMap.Erasure.{Above-has}
use xemeiah.Dom.SkipMap.Frame.{on-Chain, off-Chain}
use xemeiah.Prelude.{
  ℕ, ◌+◌, ◌≤◌, ◌<◌, ◌≡◌, true, false, ◌&&◌, List, [], ◌∷◌, ◌==◌, leb, ltb, if◌then◌else◌, arith,
  has, ap, ◌∙◌, Bool-cases, inl, inr,
}

pub last_below-level :
    (item : Items) (l hash b : ℕ) (ps : List ℕ)
    → l ≤ (item b).level
    → l ≤ (item (last_below item l hash b ps)).level
last_below-level item l hash b [] le = le
last_below-level item l hash b (x ∷ xs) le =
    elim (Bool-cases (leb l (item x).level && ltb (item x).hash hash)) [
      | inl picks ↦ rw picks (last_below-level item l hash x xs (ground arith))
      | inr skips ↦ rw skips (last_below-level item l hash b xs le)
    ]

module _ (item : Items) (q max_level : ℕ) where
  -- At each level of `q` the last item with a hash below stands in front of it.
  pub last_below-next :
      (l c : ℕ) (ps : List ℕ)
      → has q ps ≡ true
      → l ≤ (item q).level
      → Linked item max_level ps
      → Chain item l ((item c).next l) ps
      → (item (last_below item l (item q).hash c ps)).next l ≡ q
  last_below-next l c [] h le linked chain = absurd (ground arith)
  last_below-next l c (x ∷ xs) h le (ne, aligned, small, chains, sorted, rest) chain =
      elim (Bool-cases (x == q)) [
        | inl here ↦
            let e : x ≡ q = ground arith in
            let level : (item x).level ≡ (item q).level = ap (λ (y : ℕ). (item y).level) e in
            let hash : (item x).hash ≡ (item q).hash = ap (λ (y : ℕ). (item y).hash) e in
            let lacks : (leb l (item x).level && ltb (item x).hash (item q).hash) ≡ false =
              ground arith in
            rw lacks (
              ap (λ (y : ℕ). (item y).next l)
                (last_below-Above item l (item q).hash (item x).hash c xs (omega arith) sorted)
              ∙ (on-Chain item l ((item c).next l) x xs (ground arith) chain).0
              ∙ e)
        | inr other ↦
            let h' : has q xs ≡ true = ground arith in
            let less = Above-has item (item x).hash q xs sorted h' in
            elim (Bool-cases (leb l (item x).level)) [
              | inl on ↦
                  let picks : (leb l (item x).level && ltb (item x).hash (item q).hash) ≡ true =
                    ground arith in
                  rw picks (last_below-next l x xs h' le rest (chains l (ground arith)))
              | inr off ↦
                  let lacks : (leb l (item x).level && ltb (item x).hash (item q).hash) ≡ false =
                    ground arith in
                  rw lacks (
                    last_below-next l c xs h' le rest
                      (off-Chain item l ((item c).next l) x xs off chain))
            ]
      ]

  -- The search for the hash of `q` stops there.
  pub last_below_self :
      (c : ℕ) (ps : List ℕ)
      → has q ps ≡ true
      → Linked item max_level ps
      → last_below item 0 ((item q).hash + 1) c ps ≡ q
  last_below_self c [] h linked = absurd (ground arith)
  last_below_self c (x ∷ xs) h (ne, aligned, small, chains, sorted, rest) =
      elim (Bool-cases (x == q)) [
        | inl here ↦
            let e : x ≡ q = ground arith in
            let picks : (leb 0 (item x).level && ltb (item x).hash ((item q).hash + 1)) ≡ true =
              ground (arith, ap item e) in
            rw picks (
              last_below-Above item 0 ((item q).hash + 1) (item x).hash x xs
                (ground (arith, ap item e)) sorted
              ∙ e)
        | inr other ↦
            last_below_self
              (if leb 0 (item x).level && ltb (item x).hash ((item q).hash + 1) then x else c) xs
              (ground arith) rest
      ]

pub Linked-small :
    (item : Items) (max_level q : ℕ) (ps : List ℕ)
    → Linked item max_level ps
    → has q ps ≡ true
    → (item q).level < max_level
Linked-small item max_level q [] linked h = absurd (ground arith)
Linked-small item max_level q (x ∷ xs) (ne, aligned, small, chains, sorted, rest) h =
    ground (arith, Linked-small item max_level q xs rest, λ (e : q ≡ x). ap item e)
