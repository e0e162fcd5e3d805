-- ===== src/XPath/Avt/Concat.antt =====
-- The step that concatenates the steps of a template.
use xemeiah.XPath.Avt.{ConcatState, overflow_step, add_argument, concat_steps, concat}
use xemeiah.Prelude.{
  ℕ, zero, suc, ◌+◌, ◌-◌, ◌≤◌, ◌≡◌, refl, List, [], ◌∷◌, none, some, ◌==◌, ltb, if◌then◌else◌,
  length, get_elem?, arith, ap, ◌∙◌,
}

overflow_step-room :
    (rest : List ℕ) (st : ConcatState)
    → st.current_arg + suc (length rest) ≤ 8
    → overflow_step rest st ≡ st
unfolding overflow_step
overflow_step-room [] st room = refl
overflow_step-room (s ∷ rest) st room = ground arith

get_elem?-past : (ids : List ℕ) (k : ℕ) → length ids ≤ k → get_elem? ids k ≡ none
get_elem?-past [] k past = refl
get_elem?-past (id ∷ ids) zero past = absurd (omega arith)
get_elem?-past (id ∷ ids) (suc k) past = get_elem?-past ids k (omega arith)

get_elem?-cons :
    (id : ℕ) (ids : List ℕ) (k : ℕ)
    → get_elem? (id ∷ ids) k ≡ (if k == 0 then some id else get_elem? ids (k - 1))
get_elem?-cons id ids zero = refl
get_elem?-cons id ids (suc k) = ground arith

concat_steps-arguments :
    (ids : List ℕ) (st : ConcatState) (k : ℕ)
    → st.current_arg + length ids ≤ 8
    → (concat_steps ids st).arguments k ≡ (
        if ltb k st.current_arg
        then st.arguments k
        else if ltb k (st.current_arg + length ids)
        then get_elem? ids (k - st.current_arg)
        else st.arguments k)
unfolding concat_steps
concat_steps-arguments [] st k room = ground arith
concat_steps-arguments (id ∷ rest) st k room =
    ap (λ (t : ConcatState). (concat_steps rest (add_argument id t)).arguments k)
      (overflow_step-room rest st room)
    ∙ concat_steps-arguments rest (add_argument id st) k (omega arith)
    ∙ ground (arith, get_elem?-cons id rest (k - st.current_arg))

-- At most eight steps are the arguments, in their order.
pub concat-arguments :
    (next_id : ℕ) (ids : List ℕ) (k : ℕ) → length ids ≤ 8 → concat next_id ids k ≡ get_elem? ids k
unfolding concat
concat-arguments next_id ids k small =
    concat_steps-arguments ids
      (record { arguments = λ i. none; current_arg = 0; next_id = next_id }) k (omega arith)
    ∙ ground (arith, get_elem?-past ids k)
