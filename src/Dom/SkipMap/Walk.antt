-- ===== src/Dom/SkipMap/Walk.antt =====
-- The loop of `findClosest`: where it stops, and the trace that it leaves.
use xemeiah.Dom.SkipMap.Chains.{
  Items, Chain, Linked, last_below, last_below-Above, nothing, something, reach,
}
use xemeiah.Dom.SkipMap.{SkMap, Iterator, found, walk, descend, round, find_loop}
use xemeiah.Prelude.{
  ℕ, zero, suc, ◌+◌, ◌-◌, ◌%◌, ◌≤◌, ◌<◌, ◌≡◌, refl, ◌≢◌, ◌&&◌, List, [], ◌∷◌, some, ◌==◌, leb, ltb,
  if◌then◌else◌, arith, length, Bool-cases, inl, inr, ◌⊎◌, subst, sym, ap, ◌∙◌, leb→le, update,
}

-- Where a search ends at level 0 whose next item is not before the hash.
abbrev pub target : Items → (hash current next : ℕ) → ℕ
target item hash current next =
    if next == 0 then current else if (item next).hash == hash then next else current

pub closest_here :
    (item : Items) (max_level hash c first : ℕ) (ps : List ℕ)
    → Chain item 0 first ps
    → Linked item max_level ps
    → (first ≡ 0) ⊎ (hash ≤ (item first).hash)
    → last_below item 0 (hash + 1) c ps ≡ target item hash c first
closest_here item max_level hash c first [] chain linked stop = ground arith
closest_here item max_level hash c first (p ∷ ps) chain (ne, aligned, small, chains, above, rest)
      stop =
    let e : first ≡ p = ground arith in
    let at_least : hash ≤ (item p).hash = ground arith in
    let pick : (if leb 0 (item p).level && ltb (item p).hash (hash + 1) then p else c)
        ≡ target item hash c p =
      ground arith in
    ap (λ (b : ℕ). last_below item 0 (hash + 1) b ps) pick
    ∙ last_below-Above item 0 (hash + 1) (item p).hash (target item hash c p) ps (omega arith) above
    ∙ ap (target item hash c) (sym e)

module _ (hash : ℕ) (m : SkMap) (level c : ℕ) (trace : ℕ → ℕ) where
  round-descend :
      c % 32 ≡ 0
      → (m.item c).level < m.max_level
      → (m.item c).hash < hash
      → level ≤ (m.item c).level
      → ((m.item c).next level ≡ 0) ⊎ (hash ≤ (m.item ((m.item c).next level)).hash)
      → round hash m level c trace
        ≡ descend (target m.item hash c ((m.item c).next level)) hash m level c trace
  unfolding round
  round-descend aligned small less has_level stop = ground arith

  round-walk :
      c % 32 ≡ 0
      → (m.item c).level < m.max_level
      → (m.item c).hash < hash
      → level ≤ (m.item c).level
      → (m.item c).next level ≢ 0
      → (m.item ((m.item c).next level)).hash < hash
      → round hash m level c trace ≡ walk level ((m.item c).next level) trace
  unfolding round
  round-walk aligned small less has_level ne go = ground arith

-- What the search leaves: the last item whose hash is not above, and in the trace, at every level, the
-- last item that has the level and a hash below.
pub record Closest (m : SkMap) (hash q : ℕ) (before : ℕ → ℕ) (i : Iterator) : Type 0 where
  pub current : i.current ≡ q
  pub trace : (l : ℕ) → l < m.max_level → i.trace l ≡ before l

abbrev pub Ends : ℕ → ℕ → SkMap → (level c : ℕ) → (ℕ → ℕ) → (q : ℕ) → (ℕ → ℕ) → Type 0
Ends fuel hash m level c trace q before =
    (i : Iterator) × (find_loop fuel hash m level c trace ≡ some i) × Closest m hash q before i

loop-found :
    (fuel hash : ℕ) (m : SkMap) (level c : ℕ) (trace : ℕ → ℕ) (i : Iterator)
    → round hash m level c trace ≡ found i
    → find_loop (suc fuel) hash m level c trace ≡ some i
unfolding find_loop
loop-found fuel hash m level c trace i e = rw (find_loop, e) refl

loop-walk :
    (fuel hash : ℕ) (m : SkMap) (level c : ℕ) (trace : ℕ → ℕ) (level' c' : ℕ) (trace' : ℕ → ℕ)
    → round hash m level c trace ≡ walk level' c' trace'
    → find_loop (suc fuel) hash m level c trace ≡ find_loop fuel hash m level' c' trace'
unfolding find_loop
loop-walk fuel hash m level c trace level' c' trace' e = rw (find_loop, e) refl

descend-zero :
    (last hash : ℕ) (m : SkMap) (level c : ℕ) (trace : ℕ → ℕ)
    → level ≡ 0
    → descend last hash m level c trace
      ≡ found (record { current = last; trace = update trace level c })
unfolding descend
descend-zero last hash m level c trace e = ground arith

descend-lower :
    (last hash : ℕ) (m : SkMap) (level c : ℕ) (trace : ℕ → ℕ)
    → level ≢ 0
    → descend last hash m level c trace ≡ walk (level - 1) c (update trace level c)
unfolding descend
descend-lower last hash m level c trace ne = ground arith

-- The trace that a level leaves, when it has nothing more before the hash.
traced :
    (m : SkMap) (level c : ℕ) (trace before : ℕ → ℕ)
    → before level ≡ c
    → ((l : ℕ) → level < l → l < m.max_level → trace l ≡ before l)
    → (l : ℕ) → level ≤ l
    → l < m.max_level
    → update trace level c l ≡ before l
traced m level c trace before at done l le small =
    ground (arith, done l, λ (e : level ≡ l). ap before e)

down :
    (fuel hash : ℕ) (m : SkMap) (level c : ℕ) (trace : ℕ → ℕ) (ps : List ℕ) (q : ℕ) (before : ℕ → ℕ)
    → Linked m.item m.max_level (c ∷ ps)
    → (m.item c).hash < hash
    → level ≤ (m.item c).level
    → ((l : ℕ) → level < l → l < m.max_level → trace l ≡ before l)
    → last_below m.item 0 (hash + 1) c ps ≡ q
    → before level ≡ c
    → ((m.item c).next level ≡ 0) ⊎ (hash ≤ (m.item ((m.item c).next level)).hash)
    → (level ≢ 0 → Ends fuel hash m (level - 1) c (update trace level c) q before)
    → Ends (suc fuel) hash m level c trace q before
down fuel hash m level c trace ps q before (ne, aligned, small, chains, above, rest) less has_level
      done last at stop lower =
    let next = (m.item c).next level in
    let goes = round-descend hash m level c trace aligned small less has_level stop in
    elim (Bool-cases (level == 0)) [
      | inl e ↦
          let zero_level : level ≡ 0 = ground arith in
          let chain =
            subst (λ (l : ℕ). Chain m.item l next ps) zero_level (chains level has_level) in
          (
            record { current = target m.item hash c next; trace = update trace level c },
            loop-found fuel hash m level c trace _
                (goes ∙ descend-zero (target m.item hash c next) hash m level c trace zero_level),
            record {
              current = sym (closest_here m.item m.max_level hash c next ps chain rest stop) ∙ last;
              trace = λ l lt. traced m level c trace before at done l (omega arith) lt;
            },
          )
      | inr e ↦
          let more : level ≢ 0 = ground arith in
          let (i, run, closest) = lower more in
          (
            i,
            loop-walk fuel hash m level c trace (level - 1) c (update trace level c)
                  (goes ∙ descend-lower (target m.item hash c next) hash m level c trace more)
                ∙ run,
            closest,
          )
    ]

pub find_loop-Closest :
    (fuel hash : ℕ) (m : SkMap) (level c : ℕ) (trace : ℕ → ℕ) (ps : List ℕ) (q : ℕ) (before : ℕ → ℕ)
    → Linked m.item m.max_level (c ∷ ps)
    → (m.item c).hash < hash
    → level ≤ (m.item c).level
    → ((l : ℕ) → l ≤ level → last_below m.item l hash c ps ≡ before l)
    → ((l : ℕ) → level < l → l < m.max_level → trace l ≡ before l)
    → last_below m.item 0 (hash + 1) c ps ≡ q
    → level + length ps < fuel
    → Ends fuel hash m level c trace q before
find_loop-Closest zero hash m level c trace ps q before linked less has_level ahead done last
      enough =
    absurd (omega arith)
find_loop-Closest (suc fuel) hash m level c trace ps q before
      (ne, aligned, small, chains, above, rest) less has_level ahead done last enough =
    let first = (m.item c).next level in
    elim (reach m.item m.max_level level hash first ps (chains level has_level) rest) [
      | nothing e none_there ↦
          let at : before level ≡ c = sym (ahead level (omega arith)) ∙ none_there c in
          down fuel hash m level c trace ps q before (ne, aligned, small, chains, above, rest) less
            has_level done last at (inl e)
            (λ more.
              find_loop-Closest fuel hash m (level - 1) c (update trace level c) ps q before
                (ne, aligned, small, chains, above, rest) less (omega arith)
                (λ l le. ahead l (omega arith))
                (λ l lt le. traced m level c trace before at done l (omega arith) le) last
                (omega arith))
      | something ps' first_level linked' short go stop ↦
          elim (Bool-cases (leb hash (m.item first).hash)) [
            | inl far ↦
                let ge = leb→le hash (m.item first).hash far in
                let at : before level ≡ c = sym (ahead level (omega arith)) ∙ stop ge c in
                down fuel hash m level c trace ps q before (ne, aligned, small, chains, above, rest)
                  less has_level done last at (inr ge)
                  (λ more.
                    find_loop-Closest fuel hash m (level - 1) c (update trace level c) ps q before
                      (ne, aligned, small, chains, above, rest) less (omega arith)
                      (λ l le. ahead l (omega arith))
                      (λ l lt le. traced m level c trace before at done l (omega arith) le) last
                      (omega arith))
            | inr near ↦
                let lt : (m.item first).hash < hash = ground arith in
                let (i, run, closest) =
                  find_loop-Closest fuel hash m level first trace ps' q before linked' lt
                    first_level (λ l le. sym (go hash c l lt le) ∙ ahead l le) done
                    (sym (go (hash + 1) c 0 (omega arith) (omega arith)) ∙ last) (omega arith) in
                (
                  i,
                  loop-walk fuel hash m level c trace level first trace
                        (round-walk hash m level c trace aligned small less has_level linked'.0 lt)
                      ∙ run,
                  closest,
                )
          ]
    ]
