-- ===== src/Xsl/Numbering.antt =====
-- `XSLNumbering::parse` and `XPath::evalNumbering` of src/xsl/xsl-numbering.cpp. Texts are lists of
-- character codes, the positions are not negative, and the steps of the format are kept in the order
-- of `functionArguments`. `none` is an exception, a call of `Bug`, or a write behind a buffer.
pub mod StateText
pub mod Parsed
pub mod Evaluated
use xemeiah.Kern.Utf8.{utf8_char_size}
use xemeiah.Xsl.Alphabetic.{alphabetic}
use xemeiah.Xsl.Grouping.{grouped}
use xemeiah.Xsl.Roman.{roman}
use xemeiah.Prelude.{
  ℕ, zero, suc, ◌+◌, ◌-◌, ◌/◌, ◌%◌, ◌<◌, Bool, true, false, ◌||◌, List, [], ◌∷◌, ◌++◌, Option, none,
  some, ◌==◌, ltb, leb, if◌then◌else◌, length, replicate,
}

-- `XSLNumberingIntegerConvertion`, or the single character.
pub data Converter : Type 0 where
  integer_converter : (precision grouping_size separator : ℕ) → Converter
  single_character : ℕ → Converter

-- A conversion step of the format.
pub record Step : Type 0 where
  pub converter : Converter
  pub pre_token : Option (List ℕ)

-- The variables of `parse`; `pre_token` has the `preTokenSz` characters from `preToken` on.
pub record ParseState : Type 0 where
  pub int_conversion_sz : ℕ
  pub pre_token : List ℕ
  pub pre_token_step : Option (List ℕ)
  pub arguments : List Step

-- XPathStep_MaxFuncCallArgs
abbrev pub max_func_call_args : ℕ
max_func_call_args = 8

pub add_step_conversion : Converter → ParseState → Option ParseState
add_step_conversion converter st =
    if length st.arguments == max_func_call_args
    then none
    else some (record st {
      arguments =
          st.arguments ++ record { converter = converter; pre_token = st.pre_token_step } ∷ [];
      pre_token_step = none;
    })

-- The token is copied to a buffer of 256 characters.
pub pre_token_to_step : ParseState → Option ParseState
pre_token_to_step st =
    if length st.pre_token == 0
    then some st
    else if leb 256 (length st.pre_token)
    then none
    else some (record st { pre_token = []; pre_token_step = some st.pre_token })

-- The three settings of the step are of 8 bits.
pub int_conversion_to_step : (grouping_separator grouping_size : ℕ) → ParseState → Option ParseState
unfolding add_step_conversion
int_conversion_to_step grouping_separator grouping_size st =
    if st.int_conversion_sz == 0
    then some st
    else add_step_conversion
        (integer_converter (st.int_conversion_sz % 256) (grouping_size % 256) grouping_separator)
        (record st { int_conversion_sz = 0 })

abbrev pub and_then : Option ParseState → (ParseState → Option ParseState) → Option ParseState
and_then none f = none
and_then (some st) f = f st

abbrev pub is_int_token : ℕ → Bool
is_int_token c = (c == 48) || (c == 49)

abbrev pub is_character_token : ℕ → Bool
is_character_token c = (c == 65) || (c == 97) || (c == 105) || (c == 73)

pub parse_int : ParseState → Option ParseState
unfolding pre_token_to_step
parse_int st =
    if st.int_conversion_sz == 0
    then and_then (pre_token_to_step st) (λ st'. some (record st' { int_conversion_sz = 1 }))
    else some (record st { int_conversion_sz = st.int_conversion_sz + 1 })

-- The switch on one character of the format.
pub parse_char : (grouping_separator grouping_size c : ℕ) → ParseState → Option ParseState
unfolding parse_int int_conversion_to_step pre_token_to_step add_step_conversion utf8_char_size
parse_char grouping_separator grouping_size c st =
    if is_int_token c
    then parse_int st
    else if is_character_token c
    then and_then
        (and_then (int_conversion_to_step grouping_separator grouping_size st) pre_token_to_step)
        (add_step_conversion (single_character c))
    else if ltb 1 (utf8_char_size c)
    then none
    else and_then (int_conversion_to_step grouping_separator grouping_size st)
        (λ st'. some (record st' { pre_token = st'.pre_token ++ c ∷ [] }))

pub parse_chars : (grouping_separator grouping_size : ℕ) → List ℕ → ParseState → Option ParseState
unfolding parse_char
parse_chars grouping_separator grouping_size [] st = some st
parse_chars grouping_separator grouping_size (c ∷ format) st =
    and_then (parse_char grouping_separator grouping_size c st)
      (parse_chars grouping_separator grouping_size format)

-- The steps, and the token behind the last of them.
abbrev pub Format : Type 0
Format = List Step × Option (List ℕ)

abbrev pub initial : ParseState
initial = record { int_conversion_sz = 0; pre_token = []; pre_token_step = none; arguments = [] }

pub finish : Option ParseState → Option Format
finish none = none
finish (some st) =
    if length st.arguments == max_func_call_args
    then none
    else some (st.arguments, st.pre_token_step)

unfoldable pub parse : (grouping_separator grouping_size : ℕ) → List ℕ → Option Format
unfolding parse_chars finish int_conversion_to_step pre_token_to_step
parse grouping_separator grouping_size format = finish (
    and_then
      (and_then (parse_chars grouping_separator grouping_size format initial)
        (int_conversion_to_step grouping_separator grouping_size))
      pre_token_to_step)

-- `sprintf` of "%.*llu".
pub decimal : ℕ → ℕ → List ℕ → List ℕ
decimal zero i text = text
decimal (suc fuel) i text =
    let more = decimal fuel (i / 10) ((i % 10 + 48) ∷ text) in if i == 0 then text else more

pub sprintf_precision : (precision i : ℕ) → List ℕ
unfolding decimal
sprintf_precision precision i =
    replicate (precision - length (decimal (i + 1) i [])) 48 ++ decimal (i + 1) i []

-- The text of one position. The remainder by a group size of 0 is undefined.
unfoldable pub convert : Converter → ℕ → Option (List ℕ)
unfolding sprintf_precision
convert (integer_converter precision grouping_size separator) i =
    if (grouping_size == 255) || ltb i 10
    then some (sprintf_precision precision i)
    else if grouping_size == 0
    then none
    else grouped 19 grouping_size separator i
convert (single_character c) i =
    if (c == 73) || (c == 105)
    then roman (i + 7) (c == 73) i
    else if (c == 65) || (c == 97)
    then alphabetic c i
    else none

abbrev pub text_of : Option (List ℕ) → List ℕ
text_of none = []
text_of (some token) = token

pub add_text : List ℕ → Option (List ℕ) → Option (List ℕ) → Option (List ℕ)
add_text token (some number) (some rest) = some (token ++ number ++ rest)
add_text token number rest = none

-- The loop on the positions. The step is the current one and `later` are those up to the last;
-- `at_start` is `currentToken == 0`.
pub eval_positions : Step → List Step → (at_start skip_pre_token : Bool) → List ℕ → Option (List ℕ)
unfolding convert add_text
eval_positions step later at_start skip_pre_token [] = some []
eval_positions step [] at_start skip_pre_token (i ∷ positions) =
    add_text (if skip_pre_token then 46 ∷ [] else text_of step.pre_token) (convert step.converter i)
      (eval_positions step [] at_start (at_start || skip_pre_token) positions)
eval_positions step (next ∷ later) at_start skip_pre_token (i ∷ positions) =
    add_text (if skip_pre_token then 46 ∷ [] else text_of step.pre_token) (convert step.converter i)
      (eval_positions next later false skip_pre_token positions)

-- The text is written to a buffer of 256 characters.
pub to_buffer : Option (List ℕ) → List ℕ → Option (List ℕ)
to_buffer none post_token = none
to_buffer (some text) post_token =
    if ltb (length (text ++ post_token)) 256 then some (text ++ post_token) else none

-- A format with no step fails at the first position.
unfoldable pub eval_numbering : Format → List ℕ → Option (List ℕ)
unfolding eval_positions to_buffer
eval_numbering ([], post_token) [] = some []
eval_numbering ([], post_token) (i ∷ positions) = none
eval_numbering (step ∷ later, post_token) positions =
    to_buffer (eval_positions step later true false positions) (text_of post_token)
