-- ===== src/Dom/SkipMap/Insertion.antt =====
-- An item spliced into the list: its order, its entries and its links.
use xemeiah.Dom.SkipMap.Chains.{
  Items, Chain, Above, Above-trans, Linked, entries, last_below, last_below-Above,
}
use xemeiah.Dom.SkipMap.Frame.{off-Chain, Chain-Same, Above-Same, Linked-Same, insert_entry, Absent}
use xemeiah.Dom.SkipMap.Splicing.{insert_item, Spliced, unchanged-Same, Chain-insert_item}
use xemeiah.Prelude.{
  ℕ, ◌≤◌, ◌<◌, ◌≡◌, refl, ◌≢◌, false, ◌&&◌, List, [], ◌∷◌, leb, ltb, if◌then◌else◌, arith, has,
  subst, sym, ap, ◌∙◌, Bool-cases, inl, inr, leb→le, ltb→lt,
}

module _ (item item' : Items) (p level hash value max_level : ℕ) (before : ℕ → ℕ)
    (s : Spliced item item' p level hash value max_level before) where
  Above-other :
      (bound : ℕ) (ps : List ℕ) → has p ps ≡ false → Above item bound ps → Above item' bound ps
  Above-other bound [] fresh above = above
  Above-other bound (q ∷ qs) fresh (less, above) =
      let (lv, hq, vq) = s.same q (ground arith) in
      (rw hq less, Above-other bound qs (ground arith) above)

  Above-insert_item :
      (bound : ℕ) (ps : List ℕ)
      → has p ps ≡ false
      → bound < hash
      → Above item bound ps
      → Above item' bound (insert_item item hash p ps)
  Above-insert_item bound [] fresh less above = (rw s.new_item.1 less, _)
  Above-insert_item bound (q ∷ qs) fresh less (q_less, above) =
      let (lv, hq, vq) = s.same q (ground arith) in
      elim (Bool-cases (ltb hash (item q).hash)) [
        | inl here ↦
            rw here
              (rw s.new_item.1 less, (rw hq q_less, Above-other bound qs (ground arith) above))
        | inr later ↦ rw later (rw hq q_less, Above-insert_item bound qs (ground arith) less above)
      ]

  entries-other : (ps : List ℕ) → has p ps ≡ false → entries item' ps ≡ entries item ps
  entries-other [] fresh = refl
  entries-other (q ∷ qs) fresh =
      let (lv, hq, vq) = s.same q (ground arith) in
      let ih = entries-other qs (ground arith) in λ i. (hq i, vq i) ∷ ih i

  pub entries-insert_item :
      (ps : List ℕ)
      → has p ps ≡ false
      → entries item' (insert_item item hash p ps) ≡ insert_entry hash value (entries item ps)
  unfolding insert_entry
  entries-insert_item [] fresh = λ i. (s.new_item.1 i, s.new_item.2 i) ∷ []
  entries-insert_item (q ∷ qs) fresh =
      let (lv, hq, vq) = s.same q (ground arith) in
      let all = entries-other (q ∷ qs) fresh in
      elim (Bool-cases (ltb hash (item q).hash)) [
        | inl here ↦ rw here (λ i. (s.new_item.1 i, s.new_item.2 i) ∷ all i)
        | inr later ↦
            let ih = entries-insert_item qs (ground arith) in rw later (λ i. (hq i, vq i) ∷ ih i)
      ]

  -- An item before the hash, in front of a list that has taken the new item in.
  pub Linked-node :
      (q : ℕ) (qs : List ℕ)
      → has p (q ∷ qs) ≡ false
      → (item q).hash < hash
      → Absent item hash qs
      → Linked item max_level (q ∷ qs)
      → ((l : ℕ) → l ≤ (item q).level → last_below item l hash q qs ≡ before l)
      → Linked item' max_level (insert_item item hash p qs)
      → Linked item' max_level (q ∷ insert_item item hash p qs)
  Linked-node q qs fresh less absent (ne, aligned, small, chains, sorted, rest) at inserted =
      let apart : q ≢ p = ground arith in
      let fresh' : has p qs ≡ false = ground arith in
      let (lv, hq, vq) = s.same q apart in
      (
        ne,
        aligned,
        rw lv small,
        (λ l le.
            let le' : l ≤ (item q).level = subst (λ (n : ℕ). l ≤ n) lv le in
            Chain-insert_item item item' p level hash value max_level before s l q qs fresh' apart
              less absent rest sorted (at l le') (chains l le')),
        rw hq (Above-insert_item (item q).hash qs fresh' less sorted),
        inserted,
      )

  -- The new item in front of items that are all behind its hash.
  Linked-new :
      (ps : List ℕ)
      → has p ps ≡ false
      → Above item hash ps
      → Linked item max_level ps
      → ((l : ℕ) → l < max_level → Chain item l ((item (before l)).next l) ps)
      → Linked item' max_level (p ∷ ps)
  Linked-new ps fresh above linked chains =
      let (lv, h, v) = s.new_item in
      let (ne, aligned, small) = s.new in
      let stay = unchanged-Same item item' p level hash value max_level before s ps fresh above in
      (
        ne,
        aligned,
        rw lv small,
        (λ l le.
            let le' : l ≤ level = subst (λ (n : ℕ). l ≤ n) lv le in
            subst (λ (f : ℕ). Chain item' l f ps) (sym (s.new_next l le'))
              (Chain-Same item item' l ((item (before l)).next l) ps stay
                (chains l (omega arith)))),
        rw h (Above-Same item item' hash ps stay above),
        Linked-Same item item' max_level ps stay linked,
      )

  Chain-behind :
      (l c q : ℕ) (qs : List ℕ)
      → (item q).hash < hash
      → (l ≤ (item q).level → Chain item l ((item q).next l) qs)
      → Chain item l ((item c).next l) (q ∷ qs)
      → Chain item l
          ((item (if leb l (item q).level && ltb (item q).hash hash then q else c)).next l)
          qs
  Chain-behind l c q qs less own chain = elim (Bool-cases (leb l (item q).level)) [
    | inl on ↦
        let picked : (if leb l (item q).level && ltb (item q).hash hash then q else c) ≡ q =
          ground arith in
        subst (λ (d : ℕ). Chain item l ((item d).next l) qs) (sym picked)
          (own (leb→le l (item q).level on))
    | inr off ↦
        let skipped : (if leb l (item q).level && ltb (item q).hash hash then q else c) ≡ c =
          ground arith in
        subst (λ (d : ℕ). Chain item l ((item d).next l) qs) (sym skipped)
          (off-Chain item l ((item c).next l) q qs off chain)
  ]

  -- The items behind those of `b`, one for each level, with the new one among them.
  pub Linked-insert_item :
      (b : ℕ → ℕ) (ps : List ℕ)
      → has p ps ≡ false
      → Absent item hash ps
      → Linked item max_level ps
      → ((l : ℕ) → l < max_level → last_below item l hash (b l) ps ≡ before l)
      → ((l : ℕ) → l < max_level → Chain item l ((item (b l)).next l) ps)
      → Linked item' max_level (insert_item item hash p ps)
  Linked-insert_item b [] fresh absent linked at chains =
      Linked-new [] fresh absent linked
        (λ l lt. subst (λ (q : ℕ). (item q).next l ≡ 0) (at l lt) (chains l lt))
  Linked-insert_item b (q ∷ qs) fresh (differ, absent) (ne, aligned, small, q_chains, sorted, rest)
        at chains =
      elim (Bool-cases (ltb hash (item q).hash)) [
        | inl here ↦
            let less = ltb→lt hash (item q).hash here in
            let all_above : Above item hash (q ∷ qs) =
              (less, Above-trans item hash (item q).hash qs (omega arith) sorted) in
            rw here (
              Linked-new (q ∷ qs) fresh all_above (ne, aligned, small, q_chains, sorted, rest)
                (λ l lt.
                  subst (λ (c : ℕ). Chain item l ((item c).next l) (q ∷ qs))
                    (sym (last_below-Above item l hash hash (b l) (q ∷ qs) (omega arith) all_above)
                      ∙ at l lt)
                    (chains l lt)))
        | inr later ↦
            let less : (item q).hash < hash = ground arith in
            let b' : ℕ → ℕ =
              λ l. if leb l (item q).level && ltb (item q).hash hash then q else b l in
            let inserted =
              Linked-insert_item b' qs (ground arith) absent rest at
                (λ l lt. Chain-behind l (b l) q qs less (q_chains l) (chains l lt)) in
            rw later (
              Linked-node q qs fresh less absent (ne, aligned, small, q_chains, sorted, rest)
                (λ l le.
                  let picked : (if leb l (item q).level && ltb (item q).hash hash then q else b l)
                      ≡ q =
                    ground arith in
                  sym (ap (λ (c : ℕ). last_below item l hash c qs) picked) ∙ at l (omega arith))
                inserted)
      ]
