-- ===== src/Dom/SkipMap/InnerInsertion.antt =====
-- An item inserted behind the head, at the items of the trace.
use xemeiah.Dom.SkipMap.Chains.{Items, Linked, Represents, entries, last_below}
use xemeiah.Dom.SkipMap.Frame.{insert_entry, Absent}
use xemeiah.Dom.SkipMap.HeadInsertion.{Fresh, update_self, update_other}
use xemeiah.Dom.SkipMap.Insertion.{Linked-node, Linked-insert_item, entries-insert_item}
use xemeiah.Dom.SkipMap.Splicing.{Spliced, insert_item}
use xemeiah.Dom.SkipMap.Link.{within, LinkedIn, Usable, link_levels-LinkedIn}
use xemeiah.Dom.SkipMap.{SkMapItem, SkMap, get_new_item_ptr, link_levels}
use xemeiah.Prelude.{
  ℕ, suc, ◌+◌, ◌<◌, ◌≡◌, refl, ◌≢◌, Bool, true, false, ◌&&◌, List, [], ◌∷◌, some, leb, ltb,
  if◌then◌else◌, arith, has, update, subst, sym, ap, ◌∙◌, Bool-cases, inl, inr,
}

has-later : (x b q : ℕ) (qs : List ℕ) → has x (q ∷ qs) ≡ true → has x (b ∷ q ∷ qs) ≡ true
has-later x b q qs h = ground arith

has-skip : (x b q : ℕ) (qs : List ℕ) → has x (b ∷ qs) ≡ true → has x (b ∷ q ∷ qs) ≡ true
has-skip x b q qs h = ground arith

pub last_below-has :
    (item : Items) (l hash b : ℕ) (ps : List ℕ) → has (last_below item l hash b ps) (b ∷ ps) ≡ true
last_below-has item l hash b [] = ground arith
last_below-has item l hash b (q ∷ qs) =
    split (leb l (item q).level && ltb (item q).hash hash) (last_below-has item l hash q qs)
      (last_below-has item l hash b qs)
  where
    split :
        (t : Bool)
        → has (last_below item l hash q qs) (q ∷ qs) ≡ true
        → has (last_below item l hash b qs) (b ∷ qs) ≡ true
        → has (last_below item l hash (if t then q else b) qs) (b ∷ q ∷ qs) ≡ true
    split true one two = has-later (last_below item l hash q qs) b q qs one
    split false one two = has-skip (last_below item l hash b qs) b q qs two

pub last_below-less :
    (item : Items) (l hash b : ℕ) (ps : List ℕ)
    → (item b).hash < hash
    → (item (last_below item l hash b ps)).hash < hash
last_below-less item l hash b [] less = less
last_below-less item l hash b (q ∷ qs) less =
    elim (Bool-cases (leb l (item q).level && ltb (item q).hash hash)) [
      | inl picks ↦ rw picks (last_below-less item l hash q qs (ground arith))
      | inr skips ↦ rw skips (last_below-less item l hash b qs less)
    ]

pub Linked-not_null :
    (item : Items) (max_level q : ℕ) (ps : List ℕ)
    → Linked item max_level ps
    → has q ps ≡ true
    → q ≢ 0
Linked-not_null item max_level q [] linked h = cc
Linked-not_null item max_level q (p ∷ ps) (ne, aligned, small, chains, sorted, rest) h =
    ground (arith, Linked-not_null item max_level q ps rest)

has-apart : (p q : ℕ) (ps : List ℕ) → has p ps ≡ false → has q ps ≡ true → q ≢ p
has-apart p q ps absent present e = ground (arith, λ (z : q ≡ p). ap (λ (x : ℕ). has x ps) z)

module _ (m : SkMap) (h : ℕ) (rest : List ℕ) (p level hash value : ℕ) (trace : ℕ → ℕ)
    (linked : Linked m.item m.max_level (h ∷ rest)) (fresh : Fresh p (h ∷ rest))
    (small : level < m.max_level) (less : (m.item h).hash < hash)
    (traced : (l : ℕ) → l < m.max_level → trace l ≡ last_below m.item l hash h rest) where
  before : ℕ → ℕ
  before l = last_below m.item l hash h rest

  before-in : (l : ℕ) → (before l ≢ 0) × (before l ≢ p) × ((m.item (before l)).hash < hash)
  unfolding before
  before-in l =
      let member = last_below-has m.item l hash h rest in
      let (ne, aligned, absent) = fresh in
      (
        Linked-not_null m.item m.max_level (before l) (h ∷ rest) linked member,
        has-apart p (before l) (h ∷ rest) absent member,
        last_below-less m.item l hash h rest less,
      )

  new_item : SkMapItem
  new_item = record { level = level; hash = hash; value = value; next = λ l. 0 }

  added : Items
  unfolding new_item
  added = update m.item p new_item

  added-at : added p ≡ new_item
  unfolding added
  added-at = update_self m.item p new_item

  added-else : (q : ℕ) → q ≢ p → added q ≡ m.item q
  unfolding added
  added-else q ne = update_other m.item p q new_item (λ e. ne (sym e))

  trace-Usable : Usable added p hash trace (level + 1) 0
  unfolding before
  trace-Usable l le lt =
      let (a, b, c) = before-in l in
      let e = traced l (omega arith) in
      let s : added (trace l) ≡ m.item (before l) = ap added e ∙ added-else (before l) b in
      (λ z. a (sym e ∙ z), λ z. b (sym e ∙ z), subst (λ (t : SkMapItem). t.hash < hash) (sym s) c)

  LinkedIn-Spliced :
      (item' : Items)
      → LinkedIn added item' p trace (level + 1) 0
      → Spliced m.item item' p level hash value m.max_level before
  unfolding before new_item
  LinkedIn-Spliced item' k =
      let (p_ne, p_aligned, absent) = fresh in
      let (a, b, c) = k.same p in
      record {
        new = (p_ne, p_aligned, small);
        new_item = (
          a ∙ ap (λ (t : SkMapItem). t.level) added-at,
          b ∙ ap (λ (t : SkMapItem). t.hash) added-at,
          c ∙ ap (λ (t : SkMapItem). t.value) added-at,
        );
        same = λ q ne.
            let (x, y, z) = k.same q in
            let e = added-else q ne in
            (
              x ∙ ap (λ (t : SkMapItem). t.level) e,
              y ∙ ap (λ (t : SkMapItem). t.hash) e,
              z ∙ ap (λ (t : SkMapItem). t.value) e,
            );
        next = λ q l ne.
            k.next q l ne
            ∙ ground (arith, traced l, ap (λ (t : SkMapItem). t.next l) (added-else q ne));
        new_next = λ l le.
            let e : added (trace l) ≡ m.item (before l) =
              ap added (traced l (omega arith)) ∙ added-else (before l) (before-in l).1 in
            let inside : within (level + 1) 0 l ≡ true = ground arith in
            k.new l ∙ rw inside (ap (λ (t : SkMapItem). t.next l) e);
        below = λ l lt. (before-in l).2;
      }

  -- The loop of `insert` passes its checks, and the map stands for the list with the new item.
  pub inner-Represents :
      suc (m.item h).level ≡ m.max_level
      → m.head ≡ h
      → Absent m.item hash rest
      → (m' : SkMap) × (link_levels p hash trace
            (level + 1)
            0
            (get_new_item_ptr p level hash value m)
          ≡ some m')
        × Represents m' (h ∷ insert_item m.item hash p rest)
        × (entries m'.item (h ∷ insert_item m.item hash p rest)
            ≡ insert_entry hash value (entries m.item (h ∷ rest)))
  unfolding get_new_item_ptr added new_item before
  inner-Represents top at_head absent =
      let (item', run, k) =
        link_levels-LinkedIn p hash trace (level + 1) 0 (get_new_item_ptr p level hash value m)
          trace-Usable in
      let s = LinkedIn-Spliced item' k in
      let (ne, aligned, h_small, chains, sorted, below) = linked in
      let (p_ne, p_aligned, p_fresh) = fresh in
      let apart : h ≢ p = ground arith in
      let (lv, hh, vv) = s.same h apart in
      let later : ltb hash (m.item h).hash ≡ false = ground arith in
      let whole : h ∷ insert_item m.item hash p rest ≡ insert_item m.item hash p (h ∷ rest) =
        rw later refl in
      (
        record (get_new_item_ptr p level hash value m) { item = item' },
        run,
        (
          at_head,
          ap suc lv ∙ top,
          Linked-node m.item item' p level hash value m.max_level before s h rest p_fresh less
              absent linked (λ l le. refl)
              (Linked-insert_item m.item item' p level hash value m.max_level before s (λ l. h) rest
                (ground arith) absent below (λ l lt. refl) (λ l lt. chains l (omega arith))),
        ),
        ap (entries item') whole
            ∙ entries-insert_item m.item item' p level hash value m.max_level before s (h ∷ rest)
                p_fresh,
      )
