-- ===== src/Xsl/Tests.antt =====
-- Numbers as texts, and a format, on concrete inputs.
use xemeiah.Xsl.Alphabetic
use xemeiah.Xsl.Grouping
use xemeiah.Xsl.Grouping.Separated
use xemeiah.Xsl.Numbering.{
  Step, integer_converter, single_character, parse, eval_numbering, text_of,
}
use xemeiah.Xsl.Numbering
use xemeiah.Xsl.Numbering.Evaluated
use xemeiah.Xsl.Numbering.Parsed
use xemeiah.Xsl.Numbering.StateText
use xemeiah.Xsl.Roman.{roman, roman_value}
use xemeiah.Xsl.Roman.Numeral
use xemeiah.Prelude.{ℕ, ◌≡◌, refl, true, false, List, [], ◌∷◌, ◌++◌, some, arith, map}

-- 1994 is MCMXCIV.
roman_test : roman 2001 true 1994 ≡ some (77 ∷ 67 ∷ 77 ∷ 88 ∷ 67 ∷ 73 ∷ 86 ∷ [])
unfolding roman
roman_test = refl

roman-numeral_example :
    (roman 2001 true 1994 ≡ some (Numeral.roman_numeral true 1994))
    × (roman_value (Numeral.roman_numeral true 1994) ≡ 1994)
roman-numeral_example =
    Numeral.roman-numeral 2001 true 1994 (omega arith) (omega arith) (omega arith)

-- In small letters.
roman_numeral_test : Numeral.roman_numeral false 1994 ≡ 109 ∷ 99 ∷ 109 ∷ 120 ∷ 99 ∷ 105 ∷ 118 ∷ []
unfolding Numeral.roman_numeral
roman_numeral_test = refl

alphabetic-value_example :
    (text : List ℕ) × (Alphabetic.alphabetic 65 28 ≡ some text)
    × (Alphabetic.alphabetic_value 65 0 text ≡ 28)
    × Alphabetic.IsLetters 65 text
alphabetic-value_example = Alphabetic.alphabetic-value 65 28 (omega arith) (omega arith)

-- 1234567 in groups of three.
grouped_test :
    Grouping.grouped 19 3 44 1234567 ≡ some (49 ∷ 44 ∷ 50 ∷ 51 ∷ 52 ∷ 44 ∷ 53 ∷ 54 ∷ 55 ∷ [])
unfolding Grouping.grouped
grouped_test = refl

grouped-separate_example :
    (text : List ℕ) × (Grouping.grouped 19 3 44 1234567 ≡ some (Grouping.separate 3 44 text))
    × (Grouping.digits_value text ≡ 1234567)
    × Grouping.AreDigits text
grouped-separate_example =
    Separated.grouped-separate 19 3 44 1234567 (omega arith) (omega arith) (omega arith)

-- The format "(01)a." has two steps and a token behind them.
abbrev format : List ℕ
format = 40 ∷ 48 ∷ 49 ∷ 41 ∷ 97 ∷ 46 ∷ []

abbrev first_step : Step
first_step = record { converter = integer_converter 2 255 63; pre_token = some (40 ∷ []) }

abbrev second_step : Step
second_step = record { converter = single_character 97; pre_token = some (41 ∷ []) }

abbrev format_steps : List Step
format_steps = first_step ∷ second_step ∷ []

parse-format : parse 63 255 format ≡ some (format_steps, some (46 ∷ []))
unfolding parse
parse-format = refl

parse-text_example :
    StateText.steps_text format_steps ++ text_of (some (46 ∷ [])) ≡ map StateText.normal format
parse-text_example =
    Parsed.parse-text 63 255 format format_steps (some (46 ∷ [])) (omega arith) parse-format

-- The positions 7, 3 and 4 are written "(07)c)d.".
eval_format :
    eval_numbering (format_steps, some (46 ∷ [])) (7 ∷ 3 ∷ 4 ∷ [])
    ≡ some (40 ∷ 48 ∷ 55 ∷ 41 ∷ 99 ∷ 41 ∷ 100 ∷ 46 ∷ [])
unfolding eval_numbering Alphabetic.alphabetic
eval_format = refl

eval_numbering-pieces_example :
    eval_numbering (format_steps, some (46 ∷ [])) (7 ∷ 3 ∷ 4 ∷ [])
    ≡ Numbering.to_buffer
        (Evaluated.pieces first_step (second_step ∷ []) 0 (7 ∷ 3 ∷ 4 ∷ []))
        (46 ∷ [])
eval_numbering-pieces_example =
    Evaluated.eval_numbering-pieces first_step (second_step ∷ []) (some (46 ∷ [])) (7 ∷ 3 ∷ 4 ∷ [])
