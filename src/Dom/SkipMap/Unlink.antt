-- ===== src/Dom/SkipMap/Unlink.antt =====
-- What the loop of `erase` over the levels does to the links.
use xemeiah.Dom.SkipMap.Chains.{Items}
use xemeiah.Dom.SkipMap.Link.{within, SameItem}
use xemeiah.Dom.SkipMap.{SkMap, unlink_levels, alter_item}
use xemeiah.Prelude.{
  ℕ, zero, suc, ◌+◌, ◌≤◌, ◌<◌, ◌≡◌, refl, ◌≢◌, true, not, ◌&&◌, some, ◌==◌, leb, if◌then◌else◌,
  arith, assert_bug-true, update, ap, ◌∙◌,
}

-- At the levels from `from` on, the items of the trace have the links of `q`.
pub record Unlinked (item item' : Items) (q : ℕ) (trace : ℕ → ℕ) (left from : ℕ) : Type 0 where
  pub same : (x : ℕ) → SameItem (item' x) (item x)
  pub next :
      (x l : ℕ)
      → (item' x).next l
        ≡ (if within left from l && (trace l == x) then (item q).next l else (item x).next l)

-- The items of the trace at the levels stand in front of `q`.
abbrev pub InFront : Items → (q : ℕ) → (ℕ → ℕ) → (left from : ℕ) → Type 0
InFront item q trace left from =
    (l : ℕ)
    → from ≤ l
    → l < from + left
    → (trace l ≢ 0) × (trace l ≢ q) × (l ≤ (item (trace l)).level) × ((item (trace l)).next l ≡ q)

abbrev unlink_level : ℕ → (before level : ℕ) → SkMap → SkMap
unlink_level q before level m =
    alter_item before (λ s. record s { next = update s.next level ((m.item q).next level) }) m

unlink_level-next :
    (q before level : ℕ) (m : SkMap) (x l : ℕ)
    → ((unlink_level q before level m).item x).next l
      ≡ (if (level == l) && (before == x) then (m.item q).next l else (m.item x).next l)
unlink_level-next q before level m x l =
    ground (arith, λ (e : before ≡ x). ap m.item e, λ (e : level ≡ l). ap (m.item q).next e)

unlink_level-same :
    (q before level : ℕ) (m : SkMap) (x : ℕ)
    → SameItem ((unlink_level q before level m).item x) (m.item x)
unlink_level-same q before level m x = ground (arith, λ (e : before ≡ x). ap m.item e)

pub unlink_levels-Unlinked :
    (q : ℕ) (trace : ℕ → ℕ) (left from : ℕ) (m : SkMap)
    → InFront m.item q trace left from
    → (item' : Items) × (unlink_levels q trace left from m ≡ some (record m { item = item' }))
      × Unlinked m.item item' q trace left from
unfolding unlink_levels
unlink_levels-Unlinked q trace zero from m front =
    (m.item, refl, record { same = λ x. (refl, refl, refl); next = λ x l. ground arith })
unlink_levels-Unlinked q trace (suc left) from m front =
    let (there, ne, high, link) = front from (omega arith) (omega arith) in
    let b = trace from in
    let m₁ = unlink_level q b from m in
    let (item', run, k) = unlink_levels-Unlinked q trace left (suc from) m₁ (λ l le lt.
      let (there', ne', high', link') = front l (omega arith) (omega arith) in
      let (lv, h, v) = unlink_level-same q b from m (trace l) in
      (there', ne', omega (arith, lv), unlink_level-next q b from m (trace l) l ∙ ground arith)) in
    let checks : (not (b == 0) && (leb from (m.item b).level && ((m.item b).next from == q)))
        ≡ true =
      ground arith in
    (
      item',
      assert_bug-true _ checks ∙ run,
      record {
        same = λ x.
            let (a, e, c) = k.same x in
            let (a', e', c') = unlink_level-same q b from m x in (a ∙ a', e ∙ e', c ∙ c');
        next = λ x l.
            k.next x l
            ∙ ground (
              arith,
              unlink_level-next q b from m x l,
              unlink_level-next q b from m q l,
              λ (e : from ≡ l). ap trace e,
            );
      },
    )
