-- ===== src/XPath/Avt.antt =====
-- Attribute value templates: `XPathParser::doParseAVT` of xpath/xpathparser-avt.cpp. A text is the list
-- of its bytes. The text is read in place: what is copied lies before what is read, so the segment is
-- what was copied since its head. `none` is a throw, a call of `Bug` or a write outside `stepList`.
-- The parser of an expression, `doParse`, is not part of it: an expression is a step by its text.
pub mod Split
pub mod Nested
pub mod Concat
mod Tests
use xemeiah.Prelude.{
  ℕ, zero, suc, ◌+◌, ◌-◌, Bool, true, false, not, ◌&&◌, List, [], ◌∷◌, ◌++◌, Option, none, some,
  ◌==◌, ltb, if◌then◌else◌, length, update,
}

-- `allocStepResource` of a text, and `doParse` of an expression.
pub data Piece : Type 0 where
  text : List ℕ → Piece
  expression : List ℕ → Piece

-- `skip` tells that the next character was read already.
pub record AvtState : Type 0 where
  pub skip : Bool
  pub depth : ℕ
  pub segment : List ℕ
  pub steps : List Piece

abbrev pub initial : AvtState
initial = record { skip = false; depth = 0; segment = []; steps = [] }

-- `__endSegment`, with a step for a text that is not empty.
abbrev pub end_text : List Piece → List ℕ → List Piece
end_text steps [] = steps
end_text steps (c ∷ segment) = steps ++ (text (c ∷ segment) ∷ [])

abbrev pub copy_char : ℕ → AvtState → AvtState
copy_char c st = record st { segment = st.segment ++ (c ∷ []) }

unfoldable pub open_brace : (next : ℕ) → AvtState → AvtState
open_brace next st =
    if next == 123
    then record (copy_char 123 st) { skip = true }
    else if not (st.depth == 0)
    then record st { depth = st.depth + 1 }
    else record st { depth = 1; segment = []; steps = end_text st.steps st.segment }

unfoldable pub close_brace : (next : ℕ) → AvtState → Option AvtState
close_brace next st =
    if not (st.depth == 0)
    then (if st.depth == 1
        then some (record st {
          depth = 0;
          segment = [];
          steps = st.steps ++ (expression st.segment ∷ []);
        })
        else some (record (copy_char 125 st) { depth = st.depth - 1 }))
    else if next == 125
    then some (record (copy_char 125 st) { skip = true })
    else none

-- One character; behind the last one `next` is the 0 that ends the text.
unfoldable pub avt_char : (c next : ℕ) → AvtState → Option AvtState
unfolding open_brace close_brace
avt_char c next st =
    if st.skip
    then some (record st { skip = false })
    else if c == 123
    then some (open_brace next st)
    else if c == 125
    then close_brace next st
    else some (copy_char c st)

abbrev pub head_of : List ℕ → ℕ
head_of [] = 0
head_of (c ∷ rest) = c

unfoldable pub avt_chars : List ℕ → AvtState → Option AvtState
unfolding avt_char
avt_chars [] st = some st
avt_chars (c ∷ rest) st = elim (avt_char c (head_of rest) st) [
  | none ↦ none
  | some st' ↦ avt_chars rest st'
]

unfoldable pub end_steps : List Piece → Option (List Piece)
end_steps [] = none
end_steps (s ∷ steps) = if ltb 256 (length (s ∷ steps)) then none else some (s ∷ steps)

unfoldable pub finish : AvtState → Option (List Piece)
unfolding end_steps
finish st = if not (st.depth == 0) then none else end_steps (end_text st.steps st.segment)

-- The text starts with "{f", for which the parser calls `Bug`.
unfoldable pub starts_bug : List ℕ → Bool
starts_bug [] = false
starts_bug (c ∷ rest) = (c == 123) && (head_of rest == 102)

-- The steps of the template.
unfoldable pub parse_avt : List ℕ → Option (List Piece)
unfolding starts_bug avt_chars finish
parse_avt [] = none
parse_avt (c ∷ expr) =
    if starts_bug (c ∷ expr)
    then none
    else elim (avt_chars (c ∷ expr) initial) [ none ↦ none | some st ↦ finish st ]

-- The arguments of the head step while the steps are concatenated. A step is its id, and the next one
-- to be allocated is `next_id`.
pub record ConcatState : Type 0 where
  pub arguments : ℕ → Option ℕ
  pub current_arg : ℕ
  pub next_id : ℕ

-- With the last argument reached and more than one step left, a further step is allocated for the
-- last argument. It gets no arguments: the source declares a local variable for it in the block.
unfoldable pub overflow_step : List ℕ → ConcatState → ConcatState
overflow_step [] st = st
overflow_step (s ∷ rest) st =
    if st.current_arg == 7
    then record {
      arguments = update st.arguments 7 (some st.next_id);
      current_arg = 0;
      next_id = st.next_id + 1;
    }
    else st

abbrev pub add_argument : ℕ → ConcatState → ConcatState
add_argument id st = record st {
  arguments = update st.arguments st.current_arg (some id);
  current_arg = st.current_arg + 1;
}

unfoldable pub concat_steps : List ℕ → ConcatState → ConcatState
unfolding overflow_step
concat_steps [] st = st
concat_steps (id ∷ rest) st = concat_steps rest (add_argument id (overflow_step rest st))

-- The arguments of the step that concatenates at least two; before, the source throws on no step,
-- and returns the only one.
unfoldable pub concat : ℕ → List ℕ → ℕ → Option ℕ
unfolding concat_steps
concat next_id ids =
    (concat_steps ids
      (record { arguments = λ k. none; current_arg = 0; next_id = next_id })).arguments
