-- ===== src/XPath/Avt/Tests.antt =====
-- Templates: '{' is 123, '}' is 125, 'a' is 97 and 'b' is 98.
use xemeiah.XPath.Avt.Concat.{concat-arguments}
use xemeiah.XPath.Avt.Nested.{parse_avt-nested}
use xemeiah.XPath.Avt.Split.{print, escape, parse_avt-print}
use xemeiah.XPath.Avt.{
  Piece, text, expression, starts_bug, parse_avt, concat, concat_steps, overflow_step,
}
use xemeiah.Prelude.{ℕ, ◌≡◌, refl, List, [], ◌∷◌, none, some, arith}

-- a{b}{{
abbrev pieces : List Piece
pieces = text (97 ∷ []) ∷ expression (98 ∷ []) ∷ text (123 ∷ []) ∷ []

parse_avt-print_example : parse_avt (print pieces) ≡ some pieces
unfolding print escape starts_bug
parse_avt-print_example =
    parse_avt-print pieces ((λ e. cc), refl, (refl, refl, ((λ e. cc), refl, _))) (λ e. cc)
      (omega arith) refl

-- {a{b}a}
parse_avt-nested_example :
    parse_avt (123 ∷ 97 ∷ 123 ∷ 98 ∷ 125 ∷ 97 ∷ 125 ∷ [])
    ≡ some (expression (97 ∷ 98 ∷ 125 ∷ 97 ∷ []) ∷ [])
parse_avt-nested_example =
    parse_avt-nested 97 [] (98 ∷ []) (97 ∷ []) refl refl refl refl refl refl refl

concat-arguments_example : concat 20 (11 ∷ 12 ∷ 13 ∷ []) 1 ≡ some 12
concat-arguments_example = concat-arguments 20 (11 ∷ 12 ∷ 13 ∷ []) 1 (omega arith)

-- With nine steps the first argument is the eighth step.
concat_overflow_test :
    (a b c d e f g h i : ℕ) → concat 20 (a ∷ b ∷ c ∷ d ∷ e ∷ f ∷ g ∷ h ∷ i ∷ []) 0 ≡ some h
unfolding concat concat_steps overflow_step
concat_overflow_test a b c d e f g h i = refl

-- {fa}
starts_bug_test : parse_avt (123 ∷ 102 ∷ 97 ∷ 125 ∷ []) ≡ none
unfolding parse_avt starts_bug
starts_bug_test = refl
