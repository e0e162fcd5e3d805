-- ===== src/Dom/Count.antt =====
-- `getNumberOfChildren`, `getPosition` and `getLastPosition` of dom/elementref.cpp. Each loop runs on
-- fuel; more fuel than there are siblings is enough.
use mathlib.Core.List.{append_assoc}
use xemeiah.Dom.Element.{
  Document, has_attributes_and_children, not_null, get_child, get_elder, get_younger, get_father,
}
use xemeiah.Dom.Ends.{child-Placed, last_of-append}
use xemeiah.Dom.InsertBefore.{snoc-cases}
use xemeiah.Dom.Siblings.{Siblings, last_of}
use xemeiah.Dom.Tree.{Kids, Represents}
use xemeiah.Prelude.{
  ℕ, zero, suc, ◌+◌, ◌<◌, ◌≡◌, ◌≢◌, true, List, [], ◌∷◌, ◌++◌, arith, ◌∙◌, inl, inr, Option, none,
  some, if◌then◌else◌, ap, length, length-append,
}

-- for ( child ; child++ ) pos++
count_from : ℕ → Document → (child pos : ℕ) → Option ℕ
unfolding get_younger
count_from zero d child pos = none
count_from (suc fuel) d child pos =
    let rest = count_from fuel d (get_younger d child) (pos + 1) in
    if not_null child then rest else some pos

unfoldable pub get_number_of_children : ℕ → Document → ℕ → Option ℕ
unfolding count_from get_child
get_number_of_children fuel d me = count_from fuel d (get_child d me) 0

-- for ( elder ; elder = elder.getElder() ) pos++
elders_from : ℕ → Document → (elder pos : ℕ) → Option ℕ
unfolding get_elder
elders_from zero d elder pos = none
elders_from (suc fuel) d elder pos =
    let rest = elders_from fuel d (get_elder d elder) (pos + 1) in
    if not_null elder then rest else some pos

unfoldable pub get_position : ℕ → Document → ℕ → Option ℕ
unfolding elders_from get_elder
get_position fuel d me = elders_from fuel d (get_elder d me) 1

unfoldable pub get_last_position : ℕ → Document → ℕ → Option ℕ
unfolding get_father get_number_of_children
get_last_position fuel d me =
    if not_null (get_father d me) then get_number_of_children fuel d (get_father d me) else some 1

count_from-length :
    (fuel : ℕ) (d : Document) (f e p : ℕ) (xs : List ℕ) (m pos : ℕ)
    → Siblings d.element f e p xs m 0
    → length xs < fuel
    → count_from fuel d p pos ≡ some (length xs + pos)
unfolding count_from
count_from-length zero d f e p xs m pos s enough = absurd (omega arith)
count_from-length (suc fuel) d f e p [] m pos s enough = ground arith
count_from-length (suc fuel) d f e p (x ∷ xs) m pos s enough =
    ground (arith, count_from-length fuel d f x (d.element x).younger_ptr xs m (pos + 1) s.4)

module _ (d : Document) (kids : Kids) (r : Represents d kids) (fuel : ℕ) where
  -- `getNumberOfChildren` is the length of the list of children.
  pub get_number_of_children-length :
      (f : ℕ)
      → f ≢ 0
      → has_attributes_and_children (d.element f) ≡ true
      → length (kids f) < fuel
      → get_number_of_children fuel d f ≡ some (length (kids f))
  unfolding get_number_of_children
  get_number_of_children-length f ne flag enough = rw flag (
      count_from-length fuel d f 0 (d.element f).child_ptr (kids f) (d.element f).last_child_ptr 0
        (r.children f ne) enough
      ∙ ap some (omega arith))

elders_from-length :
    (fuel : ℕ) (d : Document) (kids : Kids)
    → Represents d kids
    → (f x : ℕ) (xs ys : List ℕ) (pos : ℕ) → f ≢ 0
    → kids f ≡ xs ++ x ∷ ys
    → length xs < fuel
    → elders_from fuel d (get_elder d x) pos ≡ some (length xs + pos)
unfolding elders_from last_of
elders_from-length zero d kids r f x xs ys pos ne split enough = absurd (omega arith)
elders_from-length (suc fuel) d kids r f x xs ys pos ne split enough =
    let placed = child-Placed d kids r f x xs ys ne split in
    elim (snoc-cases xs) [
      | inl e ↦
          let elder : (d.element x).elder_ptr ≡ 0 = placed.elder ∙ rw e in
          rw (elder, e) (ground arith)
      | inr (zs, a, e) ↦
          let elder : (d.element x).elder_ptr ≡ a =
            placed.elder ∙ rw e (last_of-append 0 a zs []) in
          let at_a : kids f ≡ zs ++ a ∷ x ∷ ys = split ∙ rw (e, append_assoc) in
          let len : length xs ≡ length zs + 1 = rw e (length-append zs (a ∷ []) ∙ omega arith) in
          let a_ne = (child-Placed d kids r f a zs (x ∷ ys) ne at_a).not_null in
          let ih =
            elders_from-length fuel d kids r f a zs (x ∷ ys) (pos + 1) ne at_a (omega arith) in
          rw elder (ground arith)
    ]

-- `getPosition` is the element's place in its father's list, counted from 1.
pub get_position-length :
    (d : Document) (kids : Kids)
    → Represents d kids
    → (fuel f me : ℕ) (xs ys : List ℕ) → f ≢ 0
    → kids f ≡ xs ++ me ∷ ys
    → length xs < fuel
    → get_position fuel d me ≡ some (length xs + 1)
unfolding get_position
get_position-length d kids r fuel f me xs ys ne split enough =
    elders_from-length fuel d kids r f me xs ys 1 ne split enough
