-- ===== src/Xsl/Roman.antt =====
-- Roman numbers, the case 'I' and 'i' of `evalNumbering` in src/xsl/xsl-numbering.cpp. A text is a
-- list of character codes; numbers below 0, which give the empty text, are left out.
pub mod Tables
pub mod Digit
pub mod Numeral
pub mod Value
use xemeiah.Prelude.{
  ℕ, zero, suc, ◌+◌, ◌-◌, ◌*◌, ◌≤◌, ◌<◌, ◌≡◌, refl, Bool, true, false, ◌||◌, List, [], ◌∷◌, Option,
  none, some, ◌==◌, leb, ltb, if◌then◌else◌, arith, Bool-cases, inl, inr, ◌++◌, sym, ◌∙◌, ap,
  length,
}

-- The tables of seven entries.
pub rom_val : ℕ → ℕ
rom_val zero = 1
rom_val (suc zero) = 5
rom_val (suc (suc zero)) = 10
rom_val (suc (suc (suc zero))) = 50
rom_val (suc (suc (suc (suc zero)))) = 100
rom_val (suc (suc (suc (suc (suc zero))))) = 500
rom_val nb = 1000

pub rom_pre_val : ℕ → ℕ
rom_pre_val zero = 0
rom_pre_val (suc zero) = 4
rom_pre_val (suc (suc zero)) = 9
rom_pre_val (suc (suc (suc zero))) = 40
rom_pre_val (suc (suc (suc (suc zero)))) = 90
rom_pre_val (suc (suc (suc (suc (suc zero))))) = 400
rom_pre_val nb = 900

pub maj_rom_char : ℕ → ℕ
maj_rom_char zero = 73
maj_rom_char (suc zero) = 86
maj_rom_char (suc (suc zero)) = 88
maj_rom_char (suc (suc (suc zero))) = 76
maj_rom_char (suc (suc (suc (suc zero)))) = 67
maj_rom_char (suc (suc (suc (suc (suc zero))))) = 68
maj_rom_char nb = 77

pub min_rom_char : ℕ → ℕ
min_rom_char zero = 105
min_rom_char (suc zero) = 118
min_rom_char (suc (suc zero)) = 120
min_rom_char (suc (suc (suc zero))) = 108
min_rom_char (suc (suc (suc (suc zero)))) = 99
min_rom_char (suc (suc (suc (suc (suc zero))))) = 100
min_rom_char nb = 109

pub maj_rom_pre_char : ℕ → ℕ
maj_rom_pre_char zero = 63
maj_rom_pre_char (suc zero) = 73
maj_rom_pre_char (suc (suc zero)) = 73
maj_rom_pre_char (suc (suc (suc zero))) = 88
maj_rom_pre_char (suc (suc (suc (suc zero)))) = 88
maj_rom_pre_char (suc (suc (suc (suc (suc zero))))) = 67
maj_rom_pre_char nb = 67

pub min_rom_pre_char : ℕ → ℕ
min_rom_pre_char zero = 63
min_rom_pre_char (suc zero) = 105
min_rom_pre_char (suc (suc zero)) = 105
min_rom_pre_char (suc (suc (suc zero))) = 120
min_rom_pre_char (suc (suc (suc (suc zero)))) = 120
min_rom_pre_char (suc (suc (suc (suc (suc zero))))) = 99
min_rom_pre_char nb = 99

pub rom_char : Bool → ℕ → ℕ
unfolding maj_rom_char min_rom_char
rom_char upper nb = if upper then maj_rom_char nb else min_rom_char nb

pub rom_pre_char : Bool → ℕ → ℕ
unfolding maj_rom_pre_char min_rom_pre_char
rom_pre_char upper nb = if upper then maj_rom_pre_char nb else min_rom_pre_char nb

-- One run of the loop's body: the characters that it writes, and the new `i` and `romNb`.
pub record RomanStep : Type 0 where
  pub chars : List ℕ
  pub i : ℕ
  pub rom_nb : ℕ

pub roman_step : Bool → (i rom_nb : ℕ) → RomanStep
unfolding rom_char rom_pre_char rom_val rom_pre_val
roman_step upper i rom_nb =
    if leb (rom_val rom_nb) i
    then record { chars = rom_char upper rom_nb ∷ []; i = i - rom_val rom_nb; rom_nb = rom_nb }
    else if leb (rom_pre_val rom_nb) i
    then record {
      chars = rom_pre_char upper rom_nb ∷ rom_char upper rom_nb ∷ [];
      i = i - rom_pre_val rom_nb;
      rom_nb = rom_nb - 1;
    }
    else record { chars = []; i = i; rom_nb = rom_nb - 1 }

-- The characters in front of what the rest of the loop writes.
pub write_chars : List ℕ → Option (List ℕ) → Option (List ℕ)
write_chars chars none = none
write_chars chars (some text) = some (chars ++ text)

-- while ( i > 0 )
pub roman_loop : ℕ → Bool → (i rom_nb : ℕ) → Option (List ℕ)
unfolding roman_step write_chars
roman_loop zero upper i rom_nb = none
roman_loop (suc fuel) upper i rom_nb =
    let next = roman_step upper i rom_nb in
    let rest = write_chars next.chars (roman_loop fuel upper next.i next.rom_nb) in
    if i == 0 then some [] else rest

-- The numeral and its final 0 are written to a buffer of 256 characters.
unfoldable pub fits : Option (List ℕ) → Option (List ℕ)
fits none = none
fits (some text) = if ltb (length text) 256 then some text else none

unfoldable pub roman : ℕ → Bool → ℕ → Option (List ℕ)
unfolding roman_loop fits
roman fuel upper i = if i == 0 then some (48 ∷ []) else fits (roman_loop fuel upper i 6)

-- What a letter stands for.
unfoldable pub letter_value : ℕ → ℕ
letter_value c =
    if (c == 73) || (c == 105)
    then 1
    else if (c == 86) || (c == 118)
    then 5
    else if (c == 88) || (c == 120)
    then 10
    else if (c == 76) || (c == 108)
    then 50
    else if (c == 67) || (c == 99)
    then 100
    else if (c == 68) || (c == 100)
    then 500
    else if (c == 77) || (c == 109)
    then 1000
    else 0

-- A letter in front of a greater one is subtracted, every other is added.
unfoldable pub roman_value : List ℕ → ℕ
unfolding letter_value
roman_value [] = 0
roman_value (a ∷ []) = letter_value a
roman_value (a ∷ b ∷ text) =
    if ltb (letter_value a) (letter_value b)
    then roman_value (b ∷ text) - letter_value a
    else letter_value a + roman_value (b ∷ text)
