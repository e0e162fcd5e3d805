-- ===== src/Dom/SkipMap/HeadInsertion.antt =====
-- An item inserted before the head: the head is recycled.
use xemeiah.Dom.SkipMap.Chains.{Items, Chain, Above, Above-trans, Linked, Represents, entries}
use xemeiah.Dom.SkipMap.Frame.{
  Chain-on, Chain-off, Same, Same-of, Chain-Same, Above-Same, Linked-Same, entries-Same,
  insert_entry,
}
use xemeiah.Dom.SkipMap.{SkMapItem, SkMap, get_new_item_ptr, insert_first, insert_before_head}
use xemeiah.Prelude.{
  ℕ, suc, ◌-◌, ◌%◌, ◌≤◌, ◌<◌, ◌≡◌, refl, ◌≢◌, true, false, List, [], ◌∷◌, ◌==◌, leb, ltb,
  if◌then◌else◌, arith, has, update, subst, sym, ap, ◌∙◌, Bool-cases, inl, inr,
}

-- Where the new item may lie: at an aligned pointer that no item of the map has.
abbrev pub Fresh : ℕ → List ℕ → Type 0
Fresh p ps = (p ≢ 0) × (p % 32 ≡ 0) × (has p ps ≡ false)

pub update_self : (item : Items) (p : ℕ) (v : SkMapItem) → update item p v p ≡ v
update_self item p v = ground arith

pub update_other : (item : Items) (p q : ℕ) (v : SkMapItem) → p ≢ q → update item p v q ≡ item q
update_other item p q v ne = ground arith

pub Above-fresh :
    (item : Items) (h : ℕ) (ps : List ℕ) (bound : ℕ)
    → (item h).hash ≤ bound
    → Above item bound ps
    → has h ps ≡ false
Above-fresh item h [] bound le above = refl
Above-fresh item h (q ∷ qs) bound le (less, above) =
    ground (arith, Above-fresh item h qs bound le above, λ (e : h ≡ q). ap item e)

-- The memory after an insertion before the head `h`.
module _ (item item' : Items) (max_level h p level hash value : ℕ) (rest : List ℕ)
    (new : item' p ≡ record {
      level = level;
      hash = (item h).hash;
      value = (item h).value;
      next = λ l. if leb l level then (item h).next l else 0;
    })
    (old : item' h ≡ record {
      level = (item h).level;
      hash = hash;
      value = value;
      next = λ l. if leb l level then p else (item h).next l;
    })
    (same : Same item item' rest) where
  head_chains :
      level < max_level
      → suc (item h).level ≡ max_level
      → Linked item max_level (h ∷ rest)
      → (l : ℕ) → l ≤ (item h).level
      → Chain item' l ((item' h).next l) (p ∷ rest)
  head_chains small top (ne, aligned, h_small, chains, sorted, linked) l le =
      let stays = Chain-Same item item' l ((item h).next l) rest same (chains l le) in
      elim (Bool-cases (leb l level)) [
        | inl on ↦
            Chain-on item' l ((item' h).next l) p rest
              (ap (λ (t : SkMapItem). leb l t.level) new ∙ on)
              (
                ap (λ (t : SkMapItem). t.next l) old ∙ rw on refl,
                subst (λ (f : ℕ). Chain item' l f rest)
                    (sym (ap (λ (t : SkMapItem). t.next l) new ∙ rw on refl)) stays,
              )
        | inr off ↦
            Chain-off item' l ((item' h).next l) p rest
              (ap (λ (t : SkMapItem). leb l t.level) new ∙ off)
              (subst (λ (f : ℕ). Chain item' l f rest)
                (sym (ap (λ (t : SkMapItem). t.next l) old ∙ rw off refl)) stays)
      ]

  pub head-Linked :
      Fresh p (h ∷ rest)
      → level < max_level
      → suc (item h).level ≡ max_level
      → hash < (item h).hash
      → Linked item max_level (h ∷ rest)
      → Linked item' max_level (h ∷ p ∷ rest)
  head-Linked (p_ne, p_aligned, fresh) small top less
        (ne, aligned, h_small, chains, sorted, linked) =
      let sorted' = Above-Same item item' (item h).hash rest same sorted in
      (
        ne,
        aligned,
        subst (λ (t : SkMapItem). t.level < max_level) (sym old) h_small,
        (λ l le.
            head_chains small top (ne, aligned, h_small, chains, sorted, linked) l
              (subst (λ (t : SkMapItem). l ≤ t.level) old le)),
        subst (λ (t : SkMapItem). Above item' t.hash (p ∷ rest)) (sym old)
            (
              subst (λ (t : SkMapItem). hash < t.hash) (sym new) less,
              Above-trans item' hash (item h).hash rest (omega arith) sorted',
            ),
        (
          p_ne,
          p_aligned,
          subst (λ (t : SkMapItem). t.level < max_level) (sym new) small,
          (λ l le.
              let le' : l ≤ level = subst (λ (t : SkMapItem). l ≤ t.level) new le in
              let on : leb l level ≡ true = ground arith in
              subst (λ (f : ℕ). Chain item' l f rest)
                (sym (ap (λ (t : SkMapItem). t.next l) new ∙ rw on refl))
                (Chain-Same item item' l ((item h).next l) rest same (chains l (omega arith)))),
          subst (λ (t : SkMapItem). Above item' t.hash rest) (sym new) sorted',
          Linked-Same item item' max_level rest same linked,
        ),
      )

  pub head-entries :
      hash < (item h).hash
      → entries item' (h ∷ p ∷ rest) ≡ insert_entry hash value (entries item (h ∷ rest))
  unfolding insert_entry
  head-entries less =
      let before : ltb hash (item h).hash ≡ true = ground arith in
      let behind = entries-Same item item' rest same in
      rw before (λ i. ((old i).hash, (old i).value) ∷ ((new i).hash, (new i).value) ∷ behind i)

-- The result: a map with the list of items `ps`, which has the entries and an iterator.
pub record Inserted (m' : SkMap) (l : List (ℕ × ℕ)) : Type 0 where
  pub items : List ℕ
  pub represents : Represents m' items
  pub contents : entries m'.item items ≡ l

pub first-Inserted :
    (m : SkMap) (p hash value : ℕ)
    → 0 < m.max_level
    → Fresh p []
    → Inserted (insert_first p hash value m) ((hash, value) ∷ [])
unfolding insert_first get_new_item_ptr
first-Inserted m p hash value pos (ne, aligned, fresh) =
    let new : SkMapItem = record {
      level = m.max_level - 1;
      hash = hash;
      value = value;
      next = λ l. 0;
    } in
    let at : update m.item p new p ≡ new = update_self m.item p new in
    record {
      items = p ∷ [];
      represents = (
        refl,
        ap (λ (t : SkMapItem). suc t.level) at ∙ omega arith,
        (
          ne,
          aligned,
          subst (λ (t : SkMapItem). t.level < m.max_level) (sym at) (omega arith),
          (λ l le. ap (λ (t : SkMapItem). t.next l) at),
          _,
          _,
        ),
      );
      contents = λ i. ((at i).hash, (at i).value) ∷ [];
    }

pub before_head-Inserted :
    (m : SkMap) (rest : List ℕ) (p level hash value : ℕ)
    → suc (m.item m.head).level ≡ m.max_level
    → Linked m.item m.max_level (m.head ∷ rest)
    → Fresh p (m.head ∷ rest)
    → level < m.max_level
    → hash < (m.item m.head).hash
    → Inserted
        (insert_before_head p level hash value m)
        (insert_entry hash value (entries m.item (m.head ∷ rest)))
unfolding insert_before_head get_new_item_ptr
before_head-Inserted m rest p level hash value top linked fresh small less =
    let h = m.head in
    let m' = insert_before_head p level hash value m in
    let (p_ne, p_aligned, p_fresh) = fresh in
    let (ne, aligned, h_small, chains, sorted, below) = linked in
    let apart : p ≢ h = ground arith in
    let alone = Above-fresh m.item h rest (m.item h).hash (omega arith) sorted in
    let p_p : (p == p) ≡ true = ground arith in
    let h_h : (h == h) ≡ true = ground arith in
    let h_p : (h == p) ≡ false = ground arith in
    let p_h : (p == h) ≡ false = ground arith in
    let new : m'.item p ≡ record {
      level = level;
      hash = (m.item h).hash;
      value = (m.item h).value;
      next = λ l. if leb l level then (m.item h).next l else 0;
    } =
      rw (h_p, p_p) refl in
    let old : m'.item h ≡ record {
      level = (m.item h).level;
      hash = hash;
      value = value;
      next = λ l. if leb l level then p else (m.item h).next l;
    } =
      rw (h_h, p_h) refl in
    let same = Same-of m.item m'.item rest (λ q q_in.
      let apart_p : (p == q) ≡ false = ground arith in
      let apart_h : (h == q) ≡ false = ground arith in rw (apart_h, apart_p) refl) in
    record {
      items = h ∷ p ∷ rest;
      represents = (
        refl,
        ap (λ (t : SkMapItem). suc t.level) old ∙ top,
        head-Linked m.item m'.item m.max_level h p level hash value rest new old same fresh small
            top less linked,
      );
      contents =
          head-entries m.item m'.item m.max_level h p level hash value rest new old same less;
    }
