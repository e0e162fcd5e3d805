-- ===== src/Dom/SkipMap/Link.antt =====
-- What the loop of `insert` over the levels does to the links.
use xemeiah.Dom.SkipMap.Chains.{Items}
use xemeiah.Dom.SkipMap.{SkMapItem, SkMap, link_level, link_levels}
use xemeiah.Prelude.{
  ℕ, zero, suc, ◌+◌, ◌≤◌, ◌<◌, ◌≡◌, refl, ◌≢◌, Bool, true, not, ◌&&◌, some, ◌==◌, leb, ltb,
  if◌then◌else◌, arith, assert_bug-true, ap, ◌∙◌,
}

abbrev pub within : (left from level : ℕ) → Bool
within left from level = leb from level && ltb level (from + left)

-- What an item is but for its links.
abbrev pub SameItem : SkMapItem → SkMapItem → Type 0
SameItem a b = (a.level ≡ b.level) × (a.hash ≡ b.hash) × (a.value ≡ b.value)

-- At the levels from `from` on, the item `p` stands between the items of the trace and what was
-- behind them.
pub record LinkedIn (item item' : Items) (p : ℕ) (trace : ℕ → ℕ) (left from : ℕ) : Type 0 where
  pub same : (q : ℕ) → SameItem (item' q) (item q)
  pub next :
      (q level : ℕ)
      → q ≢ p
      → (item' q).next level
        ≡ (if within left from level && (trace level == q) then p else (item q).next level)
  pub new :
      (level : ℕ)
      → (item' p).next level
        ≡ (if within left from level then (item (trace level)).next level else (item p).next level)

link_level-next :
    (p before level : ℕ) (m : SkMap) (q l : ℕ)
    → before ≢ p
    → ((link_level p before level m).item q).next l ≡ (
        if level == l
        then (if p == q
            then (m.item before).next level
            else if before == q
            then p
            else (m.item q).next l)
        else (m.item q).next l)
link_level-next p before level m q l ne =
    ground (arith, ap m.item, λ (e : p ≡ q). ap m.item e, λ (e : before ≡ q). ap m.item e)

link_level-same :
    (p before level : ℕ) (m : SkMap) (q : ℕ)
    → before ≢ p
    → SameItem ((link_level p before level m).item q) (m.item q)
link_level-same p before level m q ne =
    ground (arith, λ (e : p ≡ q). ap m.item e, λ (e : before ≡ q). ap m.item e)

-- The items of the trace at the levels are there, are not the new one, and are before the hash.
abbrev pub Usable : Items → (p hash : ℕ) → (ℕ → ℕ) → (left from : ℕ) → Type 0
Usable item p hash trace left from =
    (level : ℕ)
    → from ≤ level
    → level < from + left
    → (trace level ≢ 0) × (trace level ≢ p) × ((item (trace level)).hash < hash)

link_levels-next :
    (p : ℕ) (trace : ℕ → ℕ) (left from : ℕ) (m : SkMap) (item' : Items)
    → trace from ≢ p
    → ((level : ℕ) → suc from ≤ level → level < suc from + left → trace level ≢ p)
    → LinkedIn (link_level p (trace from) from m).item item' p trace left (suc from)
    → LinkedIn m.item item' p trace (suc left) from
link_levels-next p trace left from m item' ne later k = record {
  same = λ q.
      let (a, b, c) = k.same q in
      let (a', b', c') = link_level-same p (trace from) from m q ne in (a ∙ a', b ∙ b', c ∙ c');
  next = λ q level apart.
      k.next q level apart
      ∙ ground (
        arith,
        link_level-next p (trace from) from m q level ne,
        λ (e : from ≡ level). ap trace e,
      );
  new = λ level.
      k.new level
      ∙ ground (
        arith,
        link_level-next p (trace from) from m p level ne,
        link_level-next p (trace from) from m (trace level) level ne,
        later level,
        λ (e : from ≡ level). ap trace e,
        λ (e : from ≡ level). ap (m.item (trace from)).next e,
      );
}

pub link_levels-LinkedIn :
    (p hash : ℕ) (trace : ℕ → ℕ) (left from : ℕ) (m : SkMap)
    → Usable m.item p hash trace left from
    → (item' : Items) × (link_levels p hash trace left from m ≡ some (record m { item = item' }))
      × LinkedIn m.item item' p trace left from
unfolding link_levels
link_levels-LinkedIn p hash trace zero from m usable = (
  m.item,
  refl,
  record {
    same = λ q. (refl, refl, refl);
    next = λ q level ne. ground arith;
    new = λ level. ground arith;
  },
)
link_levels-LinkedIn p hash trace (suc left) from m usable =
    let (there, ne, less) = usable from (omega arith) (omega arith) in
    let m₁ = link_level p (trace from) from m in
    let (item', run, k) = link_levels-LinkedIn p hash trace left (suc from) m₁ (λ level le lt.
      let (there', ne', less') = usable level (omega arith) (omega arith) in
      let (a, b, c) = link_level-same p (trace from) from m (trace level) ne in
      (there', ne', rw b less')) in
    let checks : (not (trace from == 0) && ltb (m.item (trace from)).hash hash) ≡ true =
      ground arith in
    (
      item',
      assert_bug-true _ checks ∙ run,
      link_levels-next p trace left from m item' ne
          (λ level le lt. (usable level (omega arith) (omega arith)).1) k,
    )
