-- ===== src/Dom/SkipMap/HeadErasure.antt =====
-- `erase` of the head, which takes over the item behind it.
use xemeiah.Dom.SkipMap.Chains.{Items, Chain, Linked, Represents, entries}
use xemeiah.Dom.SkipMap.Frame.{
  on-Chain, off-Chain, Same, Same-of, Chain-Same, Above-Same, Linked-Same, entries-Same,
}
use xemeiah.Dom.SkipMap.HeadInsertion.{Inserted, Above-fresh}
use xemeiah.Dom.SkipMap.Link.{within, SameItem}
use xemeiah.Dom.SkipMap.{
  SkMapItem, SkMap, Iterator, steal_next, erase_head, erase, free_item, alter_item,
}
use xemeiah.Prelude.{
  ℕ, zero, suc, ◌+◌, ◌≤◌, ◌<◌, ◌≡◌, refl, ◌≢◌, true, false, List, [], ◌∷◌, some, ◌==◌, leb,
  if◌then◌else◌, arith, update, subst, sym, ap, ◌∙◌, Bool-cases, inl, inr, assert_bug-true,
}

-- At the levels from `from` on, the item `h` has the links of `q`.
record Stolen (item item' : Items) (h q left from : ℕ) : Type 0 where
  other : (x : ℕ) → x ≢ h → item' x ≡ item x
  same : SameItem (item' h) (item h)
  next :
      (l : ℕ) → (item' h).next l ≡ (if within left from l then (item q).next l else (item h).next l)

steal_next-Stolen :
    (q left from : ℕ) (m : SkMap)
    → q ≢ m.head
    → ((l : ℕ) → from ≤ l → l < from + left → (m.item m.head).next l ≡ q)
    → (item' : Items) × (steal_next q left from m ≡ some (record m { item = item' }))
      × Stolen m.item item' m.head q left from
unfolding steal_next
steal_next-Stolen q zero from m ne links = (
  m.item,
  refl,
  record { other = λ x n. refl; same = (refl, refl, refl); next = λ l. ground arith },
)
steal_next-Stolen q (suc left) from m ne links =
    let h = m.head in
    let m₁ = alter_item h (λ s. record s { next = update s.next from ((m.item q).next from) }) m in
    let other₁ : (x : ℕ) → x ≢ h → m₁.item x ≡ m.item x = λ x n. ground arith in
    let next₁ : (l : ℕ)
        → (m₁.item h).next l ≡ (if from == l then (m.item q).next from else (m.item h).next l) =
      λ l. ground arith in
    let same₁ : SameItem (m₁.item h) (m.item h) = ground arith in
    let (item', run, k) =
      steal_next-Stolen q left (suc from) m₁ ne
        (λ l le lt. next₁ l ∙ ground (arith, links l (omega arith) (omega arith))) in
    let here : ((m.item h).next from == q) ≡ true =
      ground (arith, links from (omega arith) (omega arith)) in
    (
      item',
      assert_bug-true _ here ∙ run,
      record {
        other = λ x n. k.other x n ∙ other₁ x n;
        same = ((let (a, b, c) = k.same in let (a', b', c') = same₁ in (a ∙ a', b ∙ b', c ∙ c')));
        next = λ l.
            k.next l
            ∙ ground (
              arith,
              next₁ l,
              ap (λ (t : SkMapItem). t.next l) (other₁ q ne),
              λ (e : from ≡ l). ap (m.item q).next e,
            );
      },
    )

-- The memory in which the head `h` has taken over the item `q` behind it.
module _ (item item' : Items) (max_level h q : ℕ) (qs : List ℕ)
    (level : (item' h).level ≡ (item h).level) (hash : (item' h).hash ≡ (item q).hash)
    (value : (item' h).value ≡ (item q).value)
    (next : (l : ℕ)
      → (item' h).next l ≡ (if leb l (item q).level then (item q).next l else (item h).next l))
    (same : Same item item' qs) where
  taken_over-Linked :
      suc (item h).level ≡ max_level
      → Linked item max_level (h ∷ q ∷ qs)
      → Linked item' max_level (h ∷ qs)
  taken_over-Linked top (ne, aligned, small, chains, sorted, behind) =
      let (q_ne, q_aligned, q_small, q_chains, q_sorted, rest) = behind in
      (
        ne,
        aligned,
        rw level small,
        (λ l le.
            let le' : l ≤ (item h).level = omega (arith, level) in
            let old = chains l le' in
            elim (Bool-cases (leb l (item q).level)) [
              | inl on ↦
                  let (e, chain) = on-Chain item l ((item h).next l) q qs on old in
                  subst (λ (f : ℕ). Chain item' l f qs) (sym (next l ∙ rw on refl))
                    (Chain-Same item item' l ((item q).next l) qs same
                      (q_chains l (ground (arith, on))))
              | inr off ↦
                  subst (λ (f : ℕ). Chain item' l f qs) (sym (next l ∙ rw off refl))
                    (Chain-Same item item' l ((item h).next l) qs same
                      (off-Chain item l ((item h).next l) q qs off old))
            ]),
        rw hash (Above-Same item item' (item q).hash qs same q_sorted),
        Linked-Same item item' max_level qs same rest,
      )

  taken_over-entries : entries item' (h ∷ qs) ≡ entries item (q ∷ qs)
  taken_over-entries i = (hash i, value i) ∷ entries-Same item item' qs same i

-- The links of the head to the item behind it.
head_links :
    (m : SkMap) (q : ℕ) (qs : List ℕ)
    → suc (m.item m.head).level ≡ m.max_level
    → Linked m.item m.max_level (m.head ∷ q ∷ qs)
    → (l : ℕ) → l ≤ (m.item q).level
    → (m.item m.head).next l ≡ q
head_links m q qs top (ne, aligned, small, chains, sorted, behind) l le =
    let (q_ne, q_aligned, q_small, q_chains, q_sorted, rest) = behind in
    (on-Chain m.item l ((m.item m.head).next l) q qs (ground arith) (chains l (omega arith))).0

-- The memory after the head has the entry of the item behind it, which is freed.
abbrev taken_over : SkMap → Items → ℕ → SkMap
taken_over m item' q =
    alter_item m.head (λ s. record s { hash = (m.item q).hash; value = (m.item q).value })
      (record m { item = item' })

-- The run of `erase_head` where `q` is behind the head.
abbrev Steals : SkMap → Items → ℕ → Type 0
Steals m item' q =
    q ≢ 0
    → steal_next q ((m.item q).level + 1) 0 m ≡ some (record m { item = item' })
    → erase_head m ≡ some (taken_over m item' q, q)

erase_head-next :
    (m : SkMap) (q : ℕ) (item' : Items) → (m.item m.head).next 0 ≡ q → Steals m item' q
unfolding erase_head
erase_head-next m q item' first = subst (Steals m item') first (λ ne run.
    let there : ((m.item m.head).next 0 == 0) ≡ false = ground arith in
    rw (erase_head, there, run) refl)

erase-head_step :
    (m m' : SkMap) (i : Iterator) (q : ℕ)
    → m.head ≢ 0
    → i.current ≡ m.head
    → erase_head m ≡ some (m', q)
    → erase m i ≡ some (free_item q m', record i { current = 0 })
unfolding erase
erase-head_step m m' i q ne at run =
    let live : (i.current == 0) ≡ false = ground arith in
    let here : (m.head == i.current) ≡ true = ground arith in rw (erase, live, here, run) refl

abbrev pub Erases : SkMap → Iterator → List (ℕ × ℕ) → Type 0
Erases m i l =
    (m' : SkMap) × (i' : Iterator) × (erase m i ≡ some (m', i')) × (i'.current ≡ 0) × Inserted m' l

last-Erases :
    (m : SkMap) (i : Iterator)
    → m.head ≢ 0
    → i.current ≡ m.head
    → (m.item m.head).next 0 ≡ 0
    → Erases m i []
unfolding erase erase_head free_item
last-Erases m i ne at alone =
    let none_behind : ((m.item m.head).next 0 == 0) ≡ true = ground arith in
    (
      free_item m.head (record m { head = 0 }),
      record i { current = 0 },
      erase-head_step m (record m { head = 0 }) i m.head ne at (rw (erase_head, none_behind) refl),
      refl,
      record { items = []; represents = refl; contents = refl },
    )

next-Erases :
    (m : SkMap) (i : Iterator) (q : ℕ) (qs : List ℕ)
    → i.current ≡ m.head
    → suc (m.item m.head).level ≡ m.max_level
    → Linked m.item m.max_level (m.head ∷ q ∷ qs)
    → Erases m i (entries m.item (q ∷ qs))
unfolding erase erase_head free_item
next-Erases m i q qs at top linked =
    let (ne, aligned, small, chains, (less, sorted), behind) = linked in
    let (q_ne, q_aligned, q_small, q_chains, q_sorted, rest) = behind in
    let h = m.head in
    let alone_h = Above-fresh m.item h qs (m.item h).hash (omega arith) sorted in
    let alone_q = Above-fresh m.item q qs (m.item q).hash (omega arith) q_sorted in
    let apart : q ≢ h = ground (arith, λ (e : q ≡ h). ap m.item e) in
    let links = head_links m q qs top linked in
    let (item', run, k) =
      steal_next-Stolen q ((m.item q).level + 1) 0 m apart (λ l le lt. links l (omega arith)) in
    let first = links 0 (omega arith) in
    let m' = free_item q (taken_over m item' q) in
    let h_h : (h == h) ≡ true = ground arith in
    let q_h : (q == h) ≡ false = ground arith in
    let head' : SkMapItem = record (item' h) { hash = (m.item q).hash; value = (m.item q).value } in
    let new : m'.item h ≡ head' = rw (q_h, h_h) refl in
    let level : (m'.item h).level ≡ (m.item h).level =
      ap (λ (t : SkMapItem). t.level) new ∙ k.same.0 in
    let hash : (m'.item h).hash ≡ (m.item q).hash = ap (λ (t : SkMapItem). t.hash) new in
    let value : (m'.item h).value ≡ (m.item q).value = ap (λ (t : SkMapItem). t.value) new in
    let next : (l : ℕ)
        → (m'.item h).next l
          ≡ (if leb l (m.item q).level then (m.item q).next l else (m.item h).next l) =
      λ l. ap (λ (t : SkMapItem). t.next l) new ∙ k.next l ∙ ground arith in
    let same = Same-of m.item m'.item qs (λ x x_in.
      let apart_q : (q == x) ≡ false = ground arith in
      let apart_h : (h == x) ≡ false = ground arith in
      rw (apart_q, apart_h) (k.other x (ground arith))) in
    (
      m',
      record i { current = 0 },
      erase-head_step m (taken_over m item' q) i q ne at
          (erase_head-next m q item' (links 0 (omega arith)) q_ne run),
      refl,
      record {
        items = h ∷ qs;
        represents = (
          refl,
          rw level top,
          taken_over-Linked m.item m'.item m.max_level h q qs level hash value next same top linked,
        );
        contents = taken_over-entries m.item m'.item m.max_level h q qs level hash value next same;
      },
    )

-- `erase` of the head passes its checks and leaves a map that stands for the other entries, in their
-- order.
pub erase-head :
    (m : SkMap) (p : ℕ) (ps : List ℕ) (i : Iterator)
    → Represents m (p ∷ ps)
    → i.current ≡ p
    → Erases m i (entries m.item ps)
erase-head m p [] i (e, top, (ne, aligned, small, chains, sorted, rest)) at =
    last-Erases m i (λ n. ne (sym e ∙ n)) (at ∙ sym e) (rw e (chains 0 (omega arith)))
erase-head m p (q ∷ qs) i (e, top, linked) at =
    next-Erases m i q qs (at ∙ sym e)
      (subst (λ (h : ℕ). suc (m.item h).level ≡ m.max_level) (sym e) top)
      (subst (λ (h : ℕ). Linked m.item m.max_level (h ∷ q ∷ qs)) (sym e) linked)
