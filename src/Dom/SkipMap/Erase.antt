-- ===== src/Dom/SkipMap/Erase.antt =====
-- `findClosest` and `erase`, against the list of entries.
use xemeiah.Dom.SkipMap.Chains.{Items, Linked, Represents, entries, last_below}
use xemeiah.Dom.SkipMap.Erasure.{
  remove_item, remove_entry, Unspliced, Above-has, entries-remove_item, Linked-remove_item,
}
use xemeiah.Dom.SkipMap.Find.{find_closest-Located, last_below-head}
use xemeiah.Dom.SkipMap.HeadErasure.{Erases, erase-head}
use xemeiah.Dom.SkipMap.HeadInsertion.{update_other}
use xemeiah.Dom.SkipMap.InnerInsertion.{last_below-has, last_below-less, Linked-not_null}
use xemeiah.Dom.SkipMap.Position.{last_below-level, last_below-next, last_below_self, Linked-small}
use xemeiah.Dom.SkipMap.Unlink.{InFront, Unlinked, unlink_levels-Unlinked}
use xemeiah.Dom.SkipMap.{
  SkMapItem, SkMap, Iterator, find_closest, unlink_levels, erase_inner, free_item, erase,
}
use xemeiah.Prelude.{
  ℕ, suc, ◌+◌, ◌≤◌, ◌<◌, ◌≡◌, refl, ◌≢◌, true, false, List, [], ◌∷◌, some, ◌==◌, arith, has, length,
  subst, sym, ap, ◌∙◌, Bool-cases, inl, inr,
}

erase-inner_step :
    (m m' : SkMap) (i : Iterator)
    → i.current ≢ 0
    → m.head ≢ i.current
    → unlink_levels i.current i.trace ((m.item i.current).level + 1) 0 m ≡ some m'
    → erase m i ≡ some (free_item i.current m', record i { current = 0 })
unfolding erase erase_inner
erase-inner_step m m' i ne apart run =
    let live : (i.current == 0) ≡ false = ground arith in
    let inner : (m.head == i.current) ≡ false = ground arith in
    rw (erase, erase_inner, live, inner, run) refl

-- An item behind the head.
module _ (m : SkMap) (q : ℕ) (rest : List ℕ) (i : Iterator)
    (top : suc (m.item m.head).level ≡ m.max_level)
    (linked : Linked m.item m.max_level (m.head ∷ rest)) (behind : has q rest ≡ true)
    (at : i.current ≡ q)
    (traced : (l : ℕ)
      → l < m.max_level
      → i.trace l ≡ last_below m.item l (m.item q).hash m.head rest) where
  before : ℕ → ℕ
  before l = last_below m.item l (m.item q).hash m.head rest

  head-less : (m.item m.head).hash < (m.item q).hash
  head-less =
      let (ne, aligned, small, chains, sorted, below) = linked in
      Above-has m.item (m.item m.head).hash q rest sorted behind

  before-less : (l : ℕ) → (m.item (before l)).hash < (m.item q).hash
  unfolding before
  before-less l = last_below-less m.item l (m.item q).hash m.head rest head-less

  small_q : (m.item q).level < m.max_level
  small_q =
      let (ne, aligned, small, chains, sorted, below) = linked in
      Linked-small m.item m.max_level q rest below behind

  trace-InFront : InFront m.item q i.trace ((m.item q).level + 1) 0
  unfolding before
  trace-InFront l le lt =
      let (ne, aligned, small, chains, sorted, below) = linked in
      let less = before-less l in
      let q_small = small_q in
      let here : before l ≢ 0 =
        Linked-not_null m.item m.max_level (before l) (m.head ∷ rest) linked
          (last_below-has m.item l (m.item q).hash m.head rest) in
      subst (λ (b : ℕ). (b ≢ 0) × (b ≢ q) × (l ≤ (m.item b).level) × ((m.item b).next l ≡ q))
        (sym (traced l (omega arith)))
        (
          here,
          (λ e. absurd (omega (arith, ap (λ (b : ℕ). (m.item b).hash) e))),
          last_below-level m.item l (m.item q).hash m.head rest (omega arith),
          last_below-next m.item q m.max_level l m.head rest behind (omega arith) below
              (chains l (omega arith)),
        )

  Unlinked-Unspliced :
      (item' : Items)
      → Unlinked m.item item' q i.trace ((m.item q).level + 1) 0
      → Unspliced m.item (free_item q (record m { item = item' })).item q m.max_level before
  unfolding before free_item
  Unlinked-Unspliced item' k =
      let q_small = small_q in
      let freed : SkMapItem = record { level = 0; hash = 0; value = 0; next = λ l. 0 } in
      record {
        same = λ x ne. rw (update_other item' q x freed (λ e. ne (sym e))) (k.same x);
        next = λ x l ne.
            rw (update_other item' q x freed (λ e. ne (sym e)))
              (k.next x l ∙ ground (arith, traced l));
        small = q_small;
        below = λ l lt. before-less l;
      }

  erase-inner : Erases m i (remove_entry (m.item q).hash (entries m.item (m.head ∷ rest)))
  unfolding before free_item
  erase-inner =
      let h = m.head in
      let (item', run, k) =
        unlink_levels-Unlinked q i.trace ((m.item q).level + 1) 0 m trace-InFront in
      let m₁ = record m { item = item' } in
      let m' = free_item q m₁ in
      let s = Unlinked-Unspliced item' k in
      let less = head-less in
      let (ne, aligned, small, chains, sorted, below) = linked in
      let apart : h ≢ q = ground (arith, λ (e : h ≡ q). ap m.item e) in
      let q_ne : q ≢ 0 = Linked-not_null m.item m.max_level q rest below behind in
      let member : has q (h ∷ rest) ≡ true = ground arith in
      let differs : (h == q) ≡ false = ground arith in
      let whole : remove_item q (h ∷ rest) ≡ h ∷ remove_item q rest = rw differs refl in
      let (lv, hh, vv) = s.same h apart in
      (
        m',
        record i { current = 0 },
        subst (λ (c : ℕ). erase m i ≡ some (free_item c m₁, record i { current = 0 })) at
            (erase-inner_step m m₁ i (λ e. q_ne (sym at ∙ e)) (λ e. apart (e ∙ at))
              (subst (λ (c : ℕ). unlink_levels c i.trace ((m.item c).level + 1) 0 m ≡ some m₁)
                (sym at) run)),
        refl,
        record {
          items = h ∷ remove_item q rest;
          represents = (
            refl,
            ap suc lv ∙ top,
            subst (Linked m'.item m.max_level) whole (
                Linked-remove_item m.item m'.item q m.max_level before s (λ l. 0) (h ∷ rest) member
                  linked (λ l lt. last_below-head 0 0 m l (m.item q).hash rest (omega arith) less)),
          );
          contents =
              sym (ap (entries m'.item) whole)
              ∙ entries-remove_item m.item m'.item q m.max_level before s (h ∷ rest) member linked;
        },
      )

-- The search, then the erasure.
abbrev pub SearchErases : (fuel q : ℕ) → SkMap → List ℕ → Type 0
SearchErases fuel q m ps =
    (i : Iterator) × (find_closest fuel (m.item q).hash m ≡ some i)
    × Erases m i (remove_entry (m.item q).hash (entries m.item ps))

from_head :
    (fuel q : ℕ) (m : SkMap) (rest : List ℕ)
    → Represents m (m.head ∷ rest)
    → has q (m.head ∷ rest) ≡ true
    → m.max_level + suc (length rest) ≤ fuel
    → SearchErases fuel q m (m.head ∷ rest)
unfolding remove_entry
from_head fuel q m rest (e, top, linked) h enough =
    let (i, run, loc) =
      find_closest-Located fuel (m.item q).hash m (m.head ∷ rest) (e, top, linked) enough in
    let at = loc.current ∙ last_below_self m.item q m.max_level 0 (m.head ∷ rest) h linked in
    elim (Bool-cases (m.head == q)) [
      | inl here ↦
          let same : q ≡ m.head = ground arith in
          let same_hash : ((m.item m.head).hash == (m.item q).hash) ≡ true =
            ground (arith, ap m.item same) in
          (i, run, rw same_hash (erase-head m m.head rest i (e, top, linked) (at ∙ same)))
      | inr other ↦
          let behind : has q rest ≡ true = ground arith in
          let (ne, aligned, small, chains, sorted, below) = linked in
          let less = Above-has m.item (m.item m.head).hash q rest sorted behind in
          (
            i,
            run,
            erase-inner m q rest i top linked behind at (λ l lt.
                loc.trace less l lt
                ∙ last_below-head 0 0 m l (m.item q).hash rest (omega arith) less),
          )
    ]

-- `findClosest` at the hash of an item and then `erase` pass their checks and leave a map that stands
-- for the entries without that one; the iterator then stands nowhere. Fuel for the levels and the
-- items is enough.
pub erase-Represents :
    (fuel q : ℕ) (m : SkMap) (ps : List ℕ)
    → Represents m ps
    → has q ps ≡ true
    → m.max_level + length ps ≤ fuel
    → SearchErases fuel q m ps
erase-Represents fuel q m [] r h enough = absurd (ground arith)
erase-Represents fuel q m (p ∷ ps) (e, top, linked) h enough =
    subst (λ (x : ℕ). SearchErases fuel q m (x ∷ ps)) e
      (from_head fuel q m ps (refl, rw e top, rw e linked) (rw e h) enough)
