-- ===== src/Dom/SkipMap/Splicing.antt =====
-- An item spliced into the links of every level.
use mathlib.Core.Path.{fun_ext}
use xemeiah.Dom.SkipMap.Chains.{
  Items, Chain, Above, Above-trans, Linked, last_below, last_below-Above, last_below-at_least,
}
use xemeiah.Dom.SkipMap.Frame.{Chain-on, Chain-off, on-Chain, off-Chain, Same, Chain-Same, Absent}
use xemeiah.Dom.SkipMap.Link.{SameItem}
use xemeiah.Prelude.{
  ℕ, ◌%◌, ◌≤◌, ◌<◌, ◌≡◌, refl, ◌≢◌, false, ◌&&◌, List, [], ◌∷◌, ◌==◌, leb, ltb, if◌then◌else◌,
  arith, has, subst, sym, ap, ◌∙◌, Bool-cases, inl, inr, leb→le, ltb→lt,
}

-- The list with the item where its hash belongs.
abbrev pub insert_item : Items → (hash p : ℕ) → List ℕ → List ℕ
insert_item item hash p [] = p ∷ []
insert_item item hash p (q ∷ qs) =
    if ltb hash (item q).hash then p ∷ q ∷ qs else q ∷ insert_item item hash p qs

-- The item `p` is new, with its level, hash and value; at its levels it stands behind the items of
-- `before`, whose hashes are below, and in front of what was behind those.
pub record Spliced (item item' : Items) (p level hash value max_level : ℕ) (before : ℕ → ℕ)
    : Type 0 where
  pub new : (p ≢ 0) × (p % 32 ≡ 0) × (level < max_level)
  pub new_item : ((item' p).level ≡ level) × ((item' p).hash ≡ hash) × ((item' p).value ≡ value)
  pub same : (q : ℕ) → q ≢ p → SameItem (item' q) (item q)
  pub next :
      (q l : ℕ)
      → q ≢ p
      → (item' q).next l ≡ (if leb l level && (before l == q) then p else (item q).next l)
  pub new_next : (l : ℕ) → l ≤ level → (item' p).next l ≡ (item (before l)).next l
  pub below : (l : ℕ) → l < max_level → (item (before l)).hash < hash

module _ (item item' : Items) (p level hash value max_level : ℕ) (before : ℕ → ℕ)
    (s : Spliced item item' p level hash value max_level before) where
  -- An item with a greater hash is what it was.
  unchanged : (q : ℕ) → q ≢ p → hash < (item q).hash → item' q ≡ item q
  unchanged q ne greater =
      let (a, b, c) = s.same q ne in
      let (p_ne, aligned, small) = s.new in
      let n : (item' q).next ≡ (item q).next =
        fun_ext λ l. s.next q l ne ∙ ground (arith, s.below l, λ (e : before l ≡ q). ap item e) in
      λ i. record { level = a i; hash = b i; value = c i; next = n i }

  pub unchanged-Same : (ps : List ℕ) → has p ps ≡ false → Above item hash ps → Same item item' ps
  unchanged-Same [] fresh above = _
  unchanged-Same (q ∷ qs) fresh (greater, above) =
      (unchanged q (ground arith) greater, unchanged-Same qs (ground arith) above)

  put_here :
      (l c first : ℕ) (ps : List ℕ)
      → c ≢ p
      → before l ≡ c
      → (item c).next l ≡ first
      → Chain item' l first ps
      → Chain item' l ((item' c).next l) (p ∷ ps)
  put_here l c first ps ne at next chain =
      let (lv, h, v) = s.new_item in
      elim (Bool-cases (leb l level)) [
        | inl has_level ↦ Chain-on item' l ((item' c).next l) p ps (ap (leb l) lv ∙ has_level) (
          s.next c l ne ∙ ground (arith, at),
          subst (λ (f : ℕ). Chain item' l f ps)
              (sym (
                s.new_next l (leb→le l level has_level)
                ∙ ap (λ (q : ℕ). (item q).next l) at
                ∙ next))
              chain,
        )
        | inr lacks ↦ Chain-off item' l ((item' c).next l) p ps (ap (leb l) lv ∙ lacks) (
            subst (λ (f : ℕ). Chain item' l f ps) (sym (s.next c l ne ∙ ground (arith, next)))
              chain)
      ]

  -- A chain from an item before the hash takes the new item in.
  pub Chain-insert_item :
      (l c : ℕ) (ps : List ℕ)
      → has p ps ≡ false
      → c ≢ p
      → (item c).hash < hash
      → Absent item hash ps
      → Linked item max_level ps
      → Above item (item c).hash ps
      → last_below item l hash c ps ≡ before l
      → Chain item l ((item c).next l) ps
      → Chain item' l ((item' c).next l) (insert_item item hash p ps)
  Chain-insert_item l c [] fresh ne less absent linked above at chain =
      put_here l c 0 [] ne (sym at) chain refl
  Chain-insert_item l c (q ∷ qs) fresh ne less (differ, absent)
        (q_ne, aligned, small, chains, sorted, rest) (q_less, above) at chain =
      elim (Bool-cases (ltb hash (item q).hash)) [
        | inl here ↦
            let all_above : Above item hash (q ∷ qs) = (
              ltb→lt hash (item q).hash here,
              Above-trans item hash (item q).hash qs (omega (arith, ltb→lt hash (item q).hash here))
                  sorted,
            ) in
            let stays = last_below-Above item l hash hash c (q ∷ qs) (omega arith) all_above in
            rw here (
              put_here l c ((item c).next l) (q ∷ qs) ne (sym at ∙ stays) refl (
                Chain-Same item item' l ((item c).next l) (q ∷ qs)
                  (unchanged-Same (q ∷ qs) fresh all_above) chain))
        | inr later ↦
            let q_less_hash : (item q).hash < hash = ground arith in
            let q_apart : q ≢ p = ground arith in
            let (lv, hq, vq) = s.same q q_apart in
            rw later (elim (Bool-cases (leb l (item q).level)) [
              | inl on ↦
                  let (e, c') = on-Chain item l ((item c).next l) q qs on chain in
                  let picked : (if leb l (item q).level && ltb (item q).hash hash then q else c)
                      ≡ q =
                    ground arith in
                  let at' : last_below item l hash q qs ≡ before l =
                    sym (ap (λ (b : ℕ). last_below item l hash b qs) picked) ∙ at in
                  let past = last_below-at_least item max_level hash l q qs rest sorted in
                  Chain-on item' l ((item' c).next l) q (insert_item item hash p qs)
                    (ap (leb l) lv ∙ on)
                    (
                      s.next c l ne
                          ∙ ground (
                            arith,
                            at',
                            ap item,
                            e,
                            λ (z : before l ≡ c). ap item z,
                            λ (z : last_below item l hash q qs ≡ before l). ap item z,
                          ),
                      Chain-insert_item l q qs (ground arith) q_apart q_less_hash absent rest sorted
                          at' c',
                    )
              | inr off ↦
                  let skipped : (if leb l (item q).level && ltb (item q).hash hash then q else c)
                      ≡ c =
                    ground arith in
                  Chain-off item' l ((item' c).next l) q (insert_item item hash p qs)
                    (ap (leb l) lv ∙ off)
                    (Chain-insert_item l c qs (ground arith) ne less absent rest above
                      (sym (ap (λ (b : ℕ). last_below item l hash b qs) skipped) ∙ at)
                      (off-Chain item l ((item c).next l) q qs off chain))
            ])
      ]
