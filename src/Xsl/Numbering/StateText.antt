-- ===== src/Xsl/Numbering/StateText.antt =====
-- The text that a state of `parse` has read, and what its steps do to it.
use mathlib.Core.List.{append_assoc}
use native.Mathlib.Nat.{mod-eq_of_lt}
use xemeiah.Xsl.Numbering.{
  Converter, integer_converter, single_character, Step, ParseState, add_step_conversion,
  pre_token_to_step, int_conversion_to_step, text_of, max_func_call_args,
}
use xemeiah.Prelude.{
  ℕ, ◌%◌, ◌<◌, ◌≡◌, refl, List, [], ◌∷◌, ◌++◌, none, some, ◌==◌, if◌then◌else◌, arith, length,
  replicate, Bool-cases, inl, inr, ◌⊎◌, ◌∙◌, leb, ap,
}

-- The format without the token behind it: each step is its token and its letter, or as many '1' as
-- the width of its integer.
abbrev pub converter_text : Converter → List ℕ
converter_text (integer_converter precision grouping_size separator) = replicate precision 49
converter_text (single_character c) = c ∷ []

abbrev pub steps_text : List Step → List ℕ
steps_text [] = []
steps_text (step ∷ steps) =
    text_of step.pre_token ++ (converter_text step.converter ++ steps_text steps)

-- '0' counts as '1'.
abbrev pub normal : ℕ → ℕ
normal c = if c == 48 then 49 else c

pub append-nil : (xs : List ℕ) → xs ++ [] ≡ xs
append-nil [] = refl
append-nil (x ∷ xs) = ap (λ l. x ∷ l) (append-nil xs)

steps_text-append :
    (steps : List Step) (step : Step)
    → steps_text (steps ++ step ∷ [])
      ≡ steps_text steps ++ (text_of step.pre_token ++ converter_text step.converter)
steps_text-append [] step =
    ap (λ l. text_of step.pre_token ++ l) (append-nil (converter_text step.converter))
steps_text-append (s ∷ steps) step =
    ap (λ l. text_of s.pre_token ++ (converter_text s.converter ++ l))
      (steps_text-append steps step)
    ∙ simp append_assoc

-- The text that the state has read.
unfoldable pub state_text : ParseState → List ℕ
state_text st =
    steps_text st.arguments
    ++ (text_of st.pre_token_step ++ (replicate st.int_conversion_sz 49 ++ st.pre_token))

-- Between two characters an integer has no token behind it, and no integer no token in front.
pub record Consistent (st : ParseState) : Type 0 where
  pub no_token : st.int_conversion_sz ≡ 0 → st.pre_token_step ≡ none
  pub no_rest : 0 < st.int_conversion_sz → st.pre_token ≡ []

-- The state with one step more.
abbrev pub with_step : Converter → ParseState → ParseState
with_step converter st = record st {
  arguments = st.arguments ++ record { converter = converter; pre_token = st.pre_token_step } ∷ [];
  pre_token_step = none;
}

pub add_step_conversion-some :
    (converter : Converter) (st st' : ParseState)
    → add_step_conversion converter st ≡ some st'
    → st' ≡ with_step converter st
unfolding add_step_conversion
add_step_conversion-some converter st st' run =
    elim (Bool-cases (length st.arguments == max_func_call_args)) [
      | inl e ↦ ground arith
      | inr e ↦ ground arith
    ]

int_conversion_to_step-some :
    (separator size : ℕ) (st st' : ParseState)
    → int_conversion_to_step separator size st ≡ some st'
    → ((st.int_conversion_sz ≡ 0) × (st' ≡ st))
      ⊎ ((0 < st.int_conversion_sz)
          × (st'
              ≡ with_step
                  (integer_converter (st.int_conversion_sz % 256) (size % 256) separator)
                  (record st { int_conversion_sz = 0 })))
unfolding int_conversion_to_step
int_conversion_to_step-some separator size st st' run =
    elim (Bool-cases (st.int_conversion_sz == 0)) [
      | inl e ↦ inl (ground arith, ground arith)
      | inr e ↦ inr (
        ground arith,
        add_step_conversion-some
            (integer_converter (st.int_conversion_sz % 256) (size % 256) separator)
            (record st { int_conversion_sz = 0 }) st' (ground arith),
      )
    ]

pub with_step-text :
    (converter : Converter) (st : ParseState)
    → st.int_conversion_sz ≡ 0
    → state_text (with_step converter st)
      ≡ steps_text st.arguments
        ++ (text_of st.pre_token_step ++ (converter_text converter ++ st.pre_token))
unfolding state_text
with_step-text converter st e = rw e (
    ap (λ l. l ++ st.pre_token)
      (steps_text-append st.arguments
        (record { converter = converter; pre_token = st.pre_token_step }))
    ∙ simp append_assoc)

pub int_conversion_to_step-text :
    (separator size : ℕ) (st st' : ParseState)
    → Consistent st
    → st.int_conversion_sz < 256
    → int_conversion_to_step separator size st ≡ some st'
    → (state_text st' ≡ state_text st)
      × (st'.int_conversion_sz ≡ 0)
      × (st'.pre_token_step ≡ none)
      × (st'.pre_token ≡ st.pre_token)
unfolding state_text
int_conversion_to_step-text separator size st st' c small run =
    elim (int_conversion_to_step-some separator size st st' run) [
      | inl (e, same) ↦ rw same (refl, e, c.no_token e, refl)
      | inr (pos, same) ↦ rw same (
        with_step-text (integer_converter (st.int_conversion_sz % 256) (size % 256) separator)
              (record st { int_conversion_sz = 0 }) refl
            ∙ rw (mod-eq_of_lt small) refl,
        refl,
        refl,
        refl,
      )
    ]

pub pre_token_to_step-some :
    (st st' : ParseState)
    → pre_token_to_step st ≡ some st'
    → st.pre_token_step ≡ none
    → (text_of st'.pre_token_step ≡ st.pre_token)
      × (st'.pre_token ≡ [])
      × (st'.int_conversion_sz ≡ st.int_conversion_sz)
      × (st'.arguments ≡ st.arguments)
unfolding pre_token_to_step
pre_token_to_step-some st st' run empty = elim (Bool-cases (length st.pre_token == 0)) [
  | inl e ↦
      let same : st' ≡ st = ground arith in
      let nil = length-zero st.pre_token (ground arith) in
      rw same (rw (empty, nil) refl, nil, refl, refl)
  | inr e ↦ elim (Bool-cases (leb 256 (length st.pre_token))) [
    | inl f ↦ absurd (ground arith)
    | inr f ↦
        let same : st' ≡ record st { pre_token = []; pre_token_step = some st.pre_token } =
          ground arith in
        rw same (refl, refl, refl, refl)
  ]
]
  where
    length-zero : (xs : List ℕ) → length xs ≡ 0 → xs ≡ []
    length-zero [] h = refl
    length-zero (x ∷ xs) h = absurd (omega arith)

pub idle-text :
    (st : ParseState)
    → st.int_conversion_sz ≡ 0
    → st.pre_token_step ≡ none
    → state_text st ≡ steps_text st.arguments ++ st.pre_token
unfolding state_text
idle-text st e f = rw (state_text, e, f) refl
