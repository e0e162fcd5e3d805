-- ===== src/Dom/SkipMap/Erasure.antt =====
-- An item taken out of the list at all its levels.
use mathlib.Core.Path.{fun_ext}
use xemeiah.Dom.SkipMap.Chains.{
  Items, Chain, Above, Linked, entries, last_below, last_below-Above, last_below-at_least,
}
use xemeiah.Dom.SkipMap.Frame.{
  Chain-on, Chain-off, on-Chain, off-Chain, Same, Chain-Same, Above-Same, Linked-Same, entries-Same,
}
use xemeiah.Dom.SkipMap.Link.{SameItem}
use xemeiah.Prelude.{
  ℕ, ◌≤◌, ◌<◌, ◌≡◌, refl, ◌≢◌, true, false, ◌&&◌, List, [], ◌∷◌, ◌==◌, leb, ltb, if◌then◌else◌,
  arith, has, subst, sym, ap, ◌∙◌, Bool-cases, inl, inr, leb→le,
}

-- The list without the item.
abbrev pub remove_item : ℕ → List ℕ → List ℕ
remove_item q [] = []
remove_item q (x ∷ xs) = if x == q then xs else x ∷ remove_item q xs

-- The entries without the first one that has the hash.
unfoldable pub remove_entry : ℕ → List (ℕ × ℕ) → List (ℕ × ℕ)
remove_entry hash [] = []
remove_entry hash ((h, v) ∷ l) = if h == hash then l else (h, v) ∷ remove_entry hash l

-- At each level of `q` the item of `before`, whose hash is below, has got the link of `q`.
pub record Unspliced (item item' : Items) (q max_level : ℕ) (before : ℕ → ℕ) : Type 0 where
  pub same : (x : ℕ) → x ≢ q → SameItem (item' x) (item x)
  pub next :
      (x l : ℕ)
      → x ≢ q
      → (item' x).next l
        ≡ (if leb l (item q).level && (before l == x) then (item q).next l else (item x).next l)
  pub small : (item q).level < max_level
  pub below : (l : ℕ) → l < max_level → (item (before l)).hash < (item q).hash

pub Above-has :
    (item : Items) (bound q : ℕ) (ps : List ℕ)
    → Above item bound ps
    → has q ps ≡ true
    → bound < (item q).hash
Above-has item bound q [] above h = absurd (ground arith)
Above-has item bound q (x ∷ xs) (less, above) h =
    ground (arith, Above-has item bound q xs above, λ (e : q ≡ x). ap item e)

module _ (item item' : Items) (q max_level : ℕ) (before : ℕ → ℕ)
    (s : Unspliced item item' q max_level before) where
  -- An item with a greater hash is what it was.
  unchanged : (x : ℕ) → (item q).hash < (item x).hash → item' x ≡ item x
  unchanged x greater =
      let ne : x ≢ q = ground (arith, λ (e : x ≡ q). ap item e) in
      let (a, b, c) = s.same x ne in
      let small = s.small in
      let n : (item' x).next ≡ (item x).next =
        fun_ext λ l. s.next x l ne ∙ ground (arith, s.below l, λ (e : before l ≡ x). ap item e) in
      λ i. record { level = a i; hash = b i; value = c i; next = n i }

  unchanged-Same : (ps : List ℕ) → Above item (item q).hash ps → Same item item' ps
  unchanged-Same [] above = _
  unchanged-Same (x ∷ xs) (greater, above) = (unchanged x greater, unchanged-Same xs above)

  -- A chain passes over the item that is taken out.
  Chain-over :
      (l c : ℕ) (xs : List ℕ)
      → c ≢ q
      → before l ≡ c
      → Above item (item q).hash xs
      → (l ≤ (item q).level → Chain item l ((item q).next l) xs)
      → Chain item l ((item c).next l) (q ∷ xs)
      → Chain item' l ((item' c).next l) xs
  Chain-over l c xs ne at above own chain =
      let stay = unchanged-Same xs above in
      elim (Bool-cases (leb l (item q).level)) [
        | inl on ↦
            subst (λ (f : ℕ). Chain item' l f xs) (sym (s.next c l ne ∙ ground arith))
              (Chain-Same item item' l ((item q).next l) xs stay (own (leb→le l (item q).level on)))
        | inr off ↦
            subst (λ (f : ℕ). Chain item' l f xs) (sym (s.next c l ne ∙ ground arith))
              (Chain-Same item item' l ((item c).next l) xs stay
                (off-Chain item l ((item c).next l) q xs off chain))
      ]

  abbrev Skips : (l c : ℕ) → List ℕ → ℕ → Type 0
  Skips l c xs x =
      Linked item max_level (x ∷ xs)
      → last_below item l (item q).hash c (x ∷ xs) ≡ before l
      → Chain item l ((item c).next l) (x ∷ xs)
      → Chain item' l ((item' c).next l) xs

  Chain-skip : (l c : ℕ) (xs : List ℕ) → c ≢ q → Skips l c xs q
  Chain-skip l c xs ne (q_ne, aligned, small, chains, sorted, rest) at chain =
      let lacks : (leb l (item q).level && ltb (item q).hash (item q).hash) ≡ false =
        ground arith in
      let stays : last_below item l (item q).hash c (q ∷ xs) ≡ c =
        rw lacks (last_below-Above item l (item q).hash (item q).hash c xs (omega arith) sorted) in
      Chain-over l c xs ne (sym at ∙ stays) sorted (chains l) chain

  Chain-remove_item :
      (l c : ℕ) (ps : List ℕ)
      → has q ps ≡ true
      → c ≢ q
      → Linked item max_level ps
      → Above item (item c).hash ps
      → last_below item l (item q).hash c ps ≡ before l
      → Chain item l ((item c).next l) ps
      → Chain item' l ((item' c).next l) (remove_item q ps)
  Chain-remove_item l c [] h ne linked above at chain = absurd (ground arith)
  Chain-remove_item l c (x ∷ xs) h ne (x_ne, aligned, small, chains, sorted, rest) (x_less, above)
        at chain =
      elim (Bool-cases (x == q)) [
        | inl here ↦
            let e : x ≡ q = ground arith in
            rw here (
              subst (Skips l c xs) (sym e) (Chain-skip l c xs ne)
                (x_ne, aligned, small, chains, sorted, rest) at chain)
        | inr other ↦
            let h' : has q xs ≡ true = ground arith in
            let x_apart : x ≢ q = ground arith in
            let less = Above-has item (item x).hash q xs sorted h' in
            let (lv, hx, vx) = s.same x x_apart in
            rw other (elim (Bool-cases (leb l (item x).level)) [
              | inl on ↦
                  let (e, c') = on-Chain item l ((item c).next l) x xs on chain in
                  let picked : (if leb l (item x).level && ltb (item x).hash (item q).hash
                        then x
                        else c)
                      ≡ x =
                    ground arith in
                  let at' : last_below item l (item q).hash x xs ≡ before l =
                    sym (ap (λ (b : ℕ). last_below item l (item q).hash b xs) picked) ∙ at in
                  let past = last_below-at_least item max_level (item q).hash l x xs rest sorted in
                  Chain-on item' l ((item' c).next l) x (remove_item q xs) (ap (leb l) lv ∙ on) (
                    s.next c l ne
                        ∙ ground (
                          arith,
                          at',
                          e,
                          λ (z : before l ≡ c). ap item z,
                          λ (z : last_below item l (item q).hash x xs ≡ before l). ap item z,
                        ),
                    Chain-remove_item l x xs h' x_apart rest sorted at' c',
                  )
              | inr off ↦
                  let skipped : (if leb l (item x).level && ltb (item x).hash (item q).hash
                        then x
                        else c)
                      ≡ c =
                    ground arith in
                  Chain-off item' l ((item' c).next l) x (remove_item q xs) (ap (leb l) lv ∙ off) (
                    Chain-remove_item l c xs h' ne rest above
                      (sym (ap (λ (b : ℕ). last_below item l (item q).hash b xs) skipped) ∙ at)
                      (off-Chain item l ((item c).next l) x xs off chain))
            ])
      ]

  Above-remove_item :
      (bound : ℕ) (ps : List ℕ)
      → has q ps ≡ true
      → Linked item max_level ps
      → Above item bound ps
      → Above item' bound (remove_item q ps)
  Above-remove_item bound [] h linked above = above
  Above-remove_item bound (x ∷ xs) h (ne, aligned, small, chains, sorted, rest) (less, above) =
      elim (Bool-cases (x == q)) [
        | inl here ↦
            let e : x ≡ q = ground arith in
            rw here (
              Above-Same item item' bound xs
                (unchanged-Same xs (subst (λ (y : ℕ). Above item (item y).hash xs) e sorted)) above)
        | inr other ↦
            let (lv, hx, vx) = s.same x (ground arith) in
            rw other (rw hx less, Above-remove_item bound xs (ground arith) rest above)
      ]

  pub entries-remove_item :
      (ps : List ℕ)
      → has q ps ≡ true
      → Linked item max_level ps
      → entries item' (remove_item q ps) ≡ remove_entry (item q).hash (entries item ps)
  unfolding remove_entry
  entries-remove_item [] h linked = refl
  entries-remove_item (x ∷ xs) h (ne, aligned, small, chains, sorted, rest) =
      elim (Bool-cases (x == q)) [
        | inl here ↦
            let e : x ≡ q = ground arith in
            let same_hash : ((item x).hash == (item q).hash) ≡ true = ground (arith, ap item e) in
            rw (here, same_hash)
              (entries-Same item item' xs
                (unchanged-Same xs (subst (λ (y : ℕ). Above item (item y).hash xs) e sorted)))
        | inr other ↦
            let h' : has q xs ≡ true = ground arith in
            let less = Above-has item (item x).hash q xs sorted h' in
            let differs : ((item x).hash == (item q).hash) ≡ false = ground arith in
            let (lv, hx, vx) = s.same x (ground arith) in
            let ih = entries-remove_item xs h' rest in
            rw (other, differs) (λ i. (hx i, vx i) ∷ ih i)
      ]

  -- The items behind those of `b`, one for each level, without the one that is taken out.
  pub Linked-remove_item :
      (b : ℕ → ℕ) (ps : List ℕ)
      → has q ps ≡ true
      → Linked item max_level ps
      → ((l : ℕ) → l < max_level → last_below item l (item q).hash (b l) ps ≡ before l)
      → Linked item' max_level (remove_item q ps)
  Linked-remove_item b [] h linked at = linked
  Linked-remove_item b (x ∷ xs) h (ne, aligned, small, chains, sorted, rest) at =
      elim (Bool-cases (x == q)) [
        | inl here ↦
            let e : x ≡ q = ground arith in
            rw here (
              Linked-Same item item' max_level xs
                (unchanged-Same xs (subst (λ (y : ℕ). Above item (item y).hash xs) e sorted)) rest)
        | inr other ↦
            let h' : has q xs ≡ true = ground arith in
            let apart : x ≢ q = ground arith in
            let less = Above-has item (item x).hash q xs sorted h' in
            let (lv, hx, vx) = s.same x apart in
            let b' : ℕ → ℕ =
              λ l. if leb l (item x).level && ltb (item x).hash (item q).hash then x else b l in
            rw other (
              ne,
              aligned,
              rw lv small,
              (λ l le.
                  let le' : l ≤ (item x).level = subst (λ (n : ℕ). l ≤ n) lv le in
                  let picked : b' l ≡ x = ground arith in
                  Chain-remove_item l x xs h' apart rest sorted
                    (sym (ap (λ (c : ℕ). last_below item l (item q).hash c xs) picked)
                      ∙ at l (omega arith))
                    (chains l le')),
              rw hx (Above-remove_item (item x).hash xs h' rest sorted),
              Linked-remove_item b' xs h' rest at,
            )
      ]
