-- ===== src/Xsl/Numbering/Parsed.antt =====
-- What a parsed format is, against the text that was parsed.
use mathlib.Core.List.{append_assoc}
use xemeiah.Kern.Utf8
use xemeiah.Xsl.Numbering.{
  single_character, Step, ParseState, add_step_conversion, pre_token_to_step,
  int_conversion_to_step, parse_int, parse_char, parse_chars, parse, finish, initial, text_of,
  max_func_call_args, is_int_token, is_character_token, and_then,
}
use xemeiah.Prelude.{
  ℕ, zero, suc, ◌+◌, ◌<◌, ◌≡◌, refl, List, [], ◌∷◌, ◌++◌, Option, none, some, ◌==◌, arith, length,
  replicate, map, Bool-cases, inl, inr, sym, ◌∙◌, ltb, ◌≤◌, Option-cases, ap,
}
use xemeiah.Xsl.Numbering.StateText.{
  steps_text, normal, append-nil, state_text, Consistent, add_step_conversion-some, with_step-text,
  int_conversion_to_step-text, pre_token_to_step-some, idle-text,
}

abbrev ones : ℕ → List ℕ
ones n = replicate n 49

ones-snoc : (n : ℕ) → ones (suc n) ≡ ones n ++ 49 ∷ []
ones-snoc zero = refl
ones-snoc (suc n) = ap (λ l. 49 ∷ l) (ones-snoc n)

ones-next : (n : ℕ) → ones (n + 1) ≡ ones n ++ 49 ∷ []
ones-next n = let next : n + 1 ≡ suc n = omega arith in rw next (ones-snoc n)

-- What reading one character does to a consistent state.
record Read (c : ℕ) (st st' : ParseState) : Type 0 where
  text : state_text st' ≡ state_text st ++ normal c ∷ []
  consistent : Consistent st'
  width : st'.int_conversion_sz ≤ st.int_conversion_sz + 1

parse_int-Read :
    (c : ℕ) (st st' : ParseState)
    → normal c ≡ 49
    → Consistent st
    → parse_int st ≡ some st'
    → Read c st st'
unfolding parse_int state_text
parse_int-Read c st st' one k run = elim (Bool-cases (st.int_conversion_sz == 0)) [
  | inl e ↦
      let start : st.int_conversion_sz ≡ 0 = ground arith in
      elim (Option-cases (pre_token_to_step st)) [
        | inl f ↦ absurd (ground arith)
        | inr (s₁, f) ↦
            let (token, empty, width, args) = pre_token_to_step-some st s₁ f (k.no_token start) in
            let same : st' ≡ record s₁ { int_conversion_sz = 1 } = ground arith in
            rw same (record {
              text =
                  rw (state_text, one, start, k.no_token start, token, empty, args)
                    (simp append_assoc);
              consistent = record { no_token = λ z. absurd (omega arith); no_rest = λ z. empty };
              width = omega arith;
            })
      ]
  | inr e ↦
      let same : st' ≡ record st { int_conversion_sz = st.int_conversion_sz + 1 } = ground arith in
      rw same (record {
        text =
            rw (state_text, one, k.no_rest (ground arith), ones-next)
              (simp (append_assoc, append-nil));
        consistent = record {
          no_token = λ z. absurd (omega arith);
          no_rest = λ z. k.no_rest (ground arith);
        };
        width = omega arith;
      })
]

read-more :
    (c : ℕ) (st st' : ParseState)
    → st'.int_conversion_sz ≡ 0
    → st'.pre_token_step ≡ none
    → state_text st' ≡ state_text st
    → steps_text st'.arguments ++ (st'.pre_token ++ c ∷ []) ≡ state_text st ++ c ∷ []
read-more c st st' e f text =
    sym (append_assoc (steps_text st'.arguments) st'.pre_token (c ∷ []))
    ∙ ap (λ l. l ++ c ∷ []) (sym (idle-text st' e f) ∙ text)

module _ (separator size : ℕ) where
  parse_character-Read :
      (c : ℕ) (st st' : ParseState)
      → normal c ≡ c
      → Consistent st
      → st.int_conversion_sz < 256
      → and_then
          (and_then (int_conversion_to_step separator size st) pre_token_to_step)
          (add_step_conversion (single_character c))
        ≡ some st'
      → Read c st st'
  parse_character-Read c st st' plain k small run =
      elim (Option-cases (int_conversion_to_step separator size st)) [
        | inl f ↦ absurd (ground arith)
        | inr (s₁, f) ↦
            let (text, none_left, no_token, same_token) =
              int_conversion_to_step-text separator size st s₁ k small f in
            elim (Option-cases (pre_token_to_step s₁)) [
              | inl g ↦ absurd (ground arith)
              | inr (s₂, g) ↦
                  let (token, empty, width, args) = pre_token_to_step-some s₁ s₂ g no_token in
                  let run' : add_step_conversion (single_character c) s₂ ≡ some st' =
                    ground arith in
                  let same = add_step_conversion-some (single_character c) s₂ st' run' in
                  let no_int : s₂.int_conversion_sz ≡ 0 = width ∙ none_left in
                  rw same (record {
                    text =
                        with_step-text (single_character c) s₂ no_int
                        ∙ rw (args, token, empty, plain)
                            (read-more c st s₁ none_left no_token text);
                    consistent = record {
                      no_token = λ z. refl;
                      no_rest = λ z. absurd (omega arith);
                    };
                    width = omega arith;
                  })
            ]
      ]

  parse_other-Read :
      (c : ℕ) (st st' : ParseState)
      → normal c ≡ c
      → Consistent st
      → st.int_conversion_sz < 256
      → and_then
          (int_conversion_to_step separator size st)
          (λ s. some (record s { pre_token = s.pre_token ++ c ∷ [] }))
        ≡ some st'
      → Read c st st'
  parse_other-Read c st st' plain k small run =
      elim (Option-cases (int_conversion_to_step separator size st)) [
        | inl f ↦ absurd (ground arith)
        | inr (s₁, f) ↦
            let (text, none_left, no_token, same_token) =
              int_conversion_to_step-text separator size st s₁ k small f in
            let same : st' ≡ record s₁ { pre_token = s₁.pre_token ++ c ∷ [] } = ground arith in
            rw same (record {
              text =
                  idle-text (record s₁ { pre_token = s₁.pre_token ++ c ∷ [] }) none_left no_token
                  ∙ rw plain (read-more c st s₁ none_left no_token text);
              consistent = record { no_token = λ z. no_token; no_rest = λ z. absurd (omega arith) };
              width = omega arith;
            })
      ]

  parse_char-Read :
      (c : ℕ) (st st' : ParseState)
      → Consistent st
      → st.int_conversion_sz < 256
      → parse_char separator size c st ≡ some st'
      → Read c st st'
  unfolding parse_char
  parse_char-Read c st st' k small run = elim (Bool-cases (is_int_token c)) [
    | inl e ↦ parse_int-Read c st st' (ground arith) k (ground arith)
    | inr e ↦
        let plain : normal c ≡ c = ground arith in
        elim (Bool-cases (is_character_token c)) [
          | inl f ↦ parse_character-Read c st st' plain k small (ground arith)
          | inr f ↦ elim (Bool-cases (ltb 1 (Utf8.utf8_char_size c))) [
            | inl g ↦ absurd (ground arith)
            | inr g ↦ parse_other-Read c st st' plain k small (ground arith)
          ]
        ]
  ]

  parse_chars-text :
      (format : List ℕ) (st st' : ParseState)
      → Consistent st
      → st.int_conversion_sz + length format < 256
      → parse_chars separator size format st ≡ some st'
      → (state_text st' ≡ state_text st ++ map normal format)
        × Consistent st'
        × (st'.int_conversion_sz < 256)
  unfolding parse_chars
  parse_chars-text [] st st' k small run =
      let same : st' ≡ st = ground arith in
      rw same (sym (append-nil (state_text st)), k, omega arith)
  parse_chars-text (c ∷ format) st st' k small run =
      elim (Option-cases (parse_char separator size c st)) [
        | inl e ↦ absurd (ground arith)
        | inr (s₁, e) ↦
            let read = parse_char-Read c st s₁ k (omega arith) e in
            let (text, k', small') =
              parse_chars-text format s₁ st' read.consistent (omega (arith, read.width))
                (ground arith) in
            (
              text
                  ∙ ap (λ l. l ++ map normal format) read.text
                  ∙ append_assoc (state_text st) (normal c ∷ []) (map normal format),
              k',
              small',
            )
      ]

  finish-some :
      (st : ParseState) (steps : List Step) (post_token : Option (List ℕ))
      → finish (some st) ≡ some (steps, post_token)
      → (steps ≡ st.arguments) × (post_token ≡ st.pre_token_step)
  unfolding finish
  finish-some st steps post_token run =
      elim (Bool-cases (length st.arguments == max_func_call_args)) [
        | inl e ↦ absurd (ground arith)
        | inr e ↦ (ground arith, ground arith)
      ]

  -- What the last two steps of `parse` leave of a consistent state.
  finish-text :
      (st : ParseState) (steps : List Step) (post_token : Option (List ℕ))
      → Consistent st
      → st.int_conversion_sz < 256
      → finish (and_then (int_conversion_to_step separator size st) pre_token_to_step)
        ≡ some (steps, post_token)
      → steps_text steps ++ text_of post_token ≡ state_text st
  unfolding finish
  finish-text st steps post_token k small run =
      elim (Option-cases (int_conversion_to_step separator size st)) [
        | inl e ↦ absurd (ground arith)
        | inr (s₁, e) ↦
            let (text, none_left, no_token, same_token) =
              int_conversion_to_step-text separator size st s₁ k small e in
            elim (Option-cases (pre_token_to_step s₁)) [
              | inl f ↦ absurd (ground arith)
              | inr (s₂, f) ↦
                  let (token, empty, width, args) = pre_token_to_step-some s₁ s₂ f no_token in
                  let (same_steps, same_post) = finish-some s₂ steps post_token (ground arith) in
                  rw (same_steps, same_post, args, token)
                    (sym (idle-text s₁ none_left no_token) ∙ text)
            ]
      ]

  -- A format of less than 256 characters that is parsed is, but for '0' as '1', the text of its steps
  -- with the token behind them.
  pub parse-text :
      (format : List ℕ) (steps : List Step) (post_token : Option (List ℕ))
      → length format < 256
      → parse separator size format ≡ some (steps, post_token)
      → steps_text steps ++ text_of post_token ≡ map normal format
  unfolding parse finish state_text
  parse-text format steps post_token small run =
      elim (Option-cases (parse_chars separator size format initial)) [
        | inl e ↦ absurd (ground arith)
        | inr (st, e) ↦
            let start : Consistent initial = record {
              no_token = λ z. refl;
              no_rest = λ z. absurd (omega arith);
            } in
            let (text, k, width) = parse_chars-text format initial st start (omega arith) e in
            finish-text st steps post_token k width (ground arith) ∙ text
      ]
