-- ===== src/Dom/SkipMap/Find.antt =====
-- Where `findClosest` stops, and the trace that it leaves.
use xemeiah.Dom.SkipMap.Chains.{Chain, Linked, Represents, last_below}
use xemeiah.Dom.SkipMap.{SkMap, Iterator, find_loop, find_closest}
use xemeiah.Dom.SkipMap.Walk.{target, closest_here, find_loop-Closest}
use xemeiah.Prelude.{
  ℕ, suc, ◌+◌, ◌-◌, ◌≤◌, ◌<◌, ◌≡◌, refl, ◌≢◌, true, false, ◌&&◌, List, [], ◌∷◌, some, ◌==◌, leb,
  ltb, arith, length, Bool-cases, inl, inr, subst, sym, ◌∙◌, leb→le,
}

-- What `findClosest` leaves: the last item whose hash is not above, 0 for none; and, if the hash of the
-- head is below, in the trace at every level the last item that has the level and a hash below.
pub record Located (m : SkMap) (hash : ℕ) (ps : List ℕ) (i : Iterator) : Type 0 where
  pub current : i.current ≡ last_below m.item 0 (hash + 1) 0 ps
  pub trace :
      (m.item m.head).hash < hash
      → (l : ℕ) → l < m.max_level
      → i.trace l ≡ last_below m.item l hash 0 ps

module _ (fuel hash : ℕ) (m : SkMap) where
  find_closest-head :
      m.head ≢ 0
      → hash ≤ (m.item m.head).hash
      → find_closest fuel hash m
        ≡ some (record { current = target m.item hash 0 m.head; trace = λ l. 0 })
  unfolding find_closest
  find_closest-head ne le =
      let live : (m.head == 0) ≡ false = ground arith in
      elim (Bool-cases ((m.item m.head).hash == hash)) [
        | inl same ↦ rw (find_closest, live, same) refl
        | inr differ ↦
            let before : ltb hash (m.item m.head).hash ≡ true = ground arith in
            rw (find_closest, live, differ, before) refl
      ]

  find_closest-loop :
      m.head ≢ 0
      → (m.item m.head).hash < hash
      → find_closest fuel hash m ≡ find_loop fuel hash m (m.max_level - 1) m.head (λ l. 0)
  unfolding find_closest
  find_closest-loop ne less =
      let live : (m.head == 0) ≡ false = ground arith in
      let differ : ((m.item m.head).hash == hash) ≡ false = ground arith in
      let behind : ltb hash (m.item m.head).hash ≡ false = ground arith in
      rw (find_closest, live, differ, behind) refl

  pub last_below-head :
      (l h : ℕ) (ps : List ℕ)
      → l ≤ (m.item m.head).level
      → (m.item m.head).hash < h
      → last_below m.item l h 0 (m.head ∷ ps) ≡ last_below m.item l h m.head ps
  last_below-head l h ps le less =
      let picks : (leb l (m.item m.head).level && ltb (m.item m.head).hash h) ≡ true =
        ground arith in
      rw picks refl

  from_head :
      (ps : List ℕ)
      → suc (m.item m.head).level ≡ m.max_level
      → Linked m.item m.max_level (m.head ∷ ps)
      → m.max_level + suc (length ps) ≤ fuel
      → (i : Iterator) × (find_closest fuel hash m ≡ some i) × Located m hash (m.head ∷ ps) i
  from_head ps top linked enough =
      let (ne, aligned, small, chains, above, rest) = linked in
      let chain : Chain m.item 0 m.head (m.head ∷ ps) = ground (arith, chains 0) in
      elim (Bool-cases (leb hash (m.item m.head).hash)) [
        | inl le ↦
            let ge = leb→le hash (m.item m.head).hash le in
            (
              record { current = target m.item hash 0 m.head; trace = λ l. 0 },
              find_closest-head ne ge,
              record {
                current = sym (
                    closest_here m.item m.max_level hash 0 m.head (m.head ∷ ps) chain linked
                      (inr ge));
                trace = λ less l lt. absurd (omega arith);
              },
            )
        | inr behind ↦
            let less : (m.item m.head).hash < hash = ground arith in
            let (i, run, c) =
              find_loop-Closest fuel hash m (m.max_level - 1) m.head (λ l. 0) ps
                (last_below m.item 0 (hash + 1) m.head ps) (λ l. last_below m.item l hash m.head ps)
                linked less (omega arith) (λ l le. refl) (λ l lt le. absurd (omega arith)) refl
                (omega arith) in
            (
              i,
              find_closest-loop ne less ∙ run,
              record {
                current =
                    c.current ∙ sym (last_below-head 0 (hash + 1) ps (omega arith) (omega arith));
                trace = λ b l lt. c.trace l lt ∙ sym (last_below-head l hash ps (omega arith) less);
              },
            )
      ]

-- On a map that stands for a list of items `findClosest` passes its checks and finds where the hash
-- belongs; fuel for the levels and the items is enough.
pub find_closest-Located :
    (fuel hash : ℕ) (m : SkMap) (ps : List ℕ)
    → Represents m ps
    → m.max_level + length ps ≤ fuel
    → (i : Iterator) × (find_closest fuel hash m ≡ some i) × Located m hash ps i
unfolding find_closest
find_closest-Located fuel hash m [] e enough = (
  record { current = 0; trace = λ l. 0 },
  rw e refl,
  record { current = refl; trace = λ less l lt. refl },
)
find_closest-Located fuel hash m (p ∷ ps) (e, top, linked) enough =
    subst
      (λ (q : ℕ). (i : Iterator) × (find_closest fuel hash m ≡ some i) × Located m hash (q ∷ ps) i)
      e (from_head fuel hash m ps (rw e top) (rw e linked) enough)
