-- ===== src/Xsl/Grouping.antt =====
-- Numbers with a grouping separator, in `evalNumbering` of src/xsl/xsl-numbering.cpp: the branch for
-- positions from 10 on with a grouping size. A text is a list of character codes.
pub mod Separated
use native.Mathlib.Nat.{div-add-mod, mod-lt, div-lt_iff_lt-mul, div-eq_of_eq-mul_left}
use xemeiah.Prelude.{
  ℕ, zero, suc, ◌+◌, ◌-◌, ◌*◌, ◌/◌, ◌%◌, ◌^◌, ◌≤◌, ◌<◌, ◌≡◌, refl, true, false, not, ◌&&◌, List, [],
  ◌∷◌, Option, none, some, ◌==◌, leb, ltb, if◌then◌else◌, arith, Bool-cases, inl, inr, length,
  assert_bug, ◌∙◌, ap,
}

-- The loop that finds the greatest power of 10 that is not above the position, and the number of
-- digits. A product that does not fit a signed 64-bit integer is undefined: `none`.
pub find_divider : ℕ → (pos divider digits : ℕ) → Option (ℕ × ℕ)
find_divider zero pos divider digits = none
find_divider (suc fuel) pos divider digits =
    let rest = find_divider fuel pos (divider * 10) (digits + 1) in
    if leb (2 ^ 63) (divider * 10)
    then none
    else if ltb pos (divider * 10)
    then some (divider, digits)
    else rest

-- A digit, the separator if a positive multiple of the group size is left, and the rest. The group
-- size is not 0, which the source would divide by.
pub put_digit : (grouping_size separator digit left : ℕ) → Option (List ℕ) → Option (List ℕ)
put_digit grouping_size separator digit left none = none
put_digit grouping_size separator digit left (some text) =
    if not (left == 0) && (left % grouping_size == 0)
    then some ((digit + 48) ∷ separator ∷ text)
    else some ((digit + 48) ∷ text)

-- The loop that writes the digits, the first one first.
pub write_digits : ℕ → (grouping_size separator pos divider digits : ℕ) → Option (List ℕ)
unfolding put_digit assert_bug
write_digits zero grouping_size separator pos divider digits = none
write_digits (suc fuel) grouping_size separator pos divider digits =
    let rest =
      write_digits fuel grouping_size separator (pos - pos / divider * divider) (divider / 10)
        (digits - 1) in
    assert_bug (ltb (pos / divider) 10) (
      if divider == 1
      then some ((pos / divider + 48) ∷ [])
      else put_digit grouping_size separator (pos / divider) (digits - 1) rest)

unfoldable pub grouped : ℕ → (grouping_size separator pos : ℕ) → Option (List ℕ)
unfolding find_divider write_digits
grouped fuel grouping_size separator pos = elim (find_divider fuel pos 1 1) [
  | none ↦ none
  | some (divider, digits) ↦ write_digits fuel grouping_size separator pos divider digits
]

abbrev pub ten_to : ℕ → ℕ
ten_to zero = 1
ten_to (suc k) = ten_to k * 10

-- The number that a text of digits stands for.
abbrev pub digits_value : List ℕ → ℕ
digits_value [] = 0
digits_value (c ∷ text) = (c - 48) * ten_to (length text) + digits_value text

abbrev pub AreDigits : List ℕ → Type 0
AreDigits [] = Unit
AreDigits (c ∷ text) = (48 ≤ c) × (c < 58) × AreDigits text

-- The text with a separator wherever a positive multiple of the group size of characters is left.
abbrev pub separate : (grouping_size separator : ℕ) → List ℕ → List ℕ
separate grouping_size separator [] = []
separate grouping_size separator (c ∷ text) =
    if not (length text == 0) && (length text % grouping_size == 0)
    then c ∷ separator ∷ separate grouping_size separator text
    else c ∷ separate grouping_size separator text
