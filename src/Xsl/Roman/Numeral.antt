-- ===== src/Xsl/Roman/Numeral.antt =====
-- The numeral that the Roman loop writes, and its value.
use xemeiah.Xsl.Roman.Digit.{roman_digit, Writes, Decade, write_char, write_digit}
use xemeiah.Xsl.Roman.Value.{roman_loop-value}
use xemeiah.Xsl.Roman.{
  rom_val, rom_pre_val, rom_char, rom_pre_char, maj_rom_char, min_rom_char, maj_rom_pre_char,
  min_rom_pre_char, roman_loop, fits, roman, roman_value,
}
use xemeiah.Prelude.{
  ℕ, zero, suc, ◌+◌, ◌*◌, ◌/◌, ◌%◌, ◌≤◌, ◌<◌, ◌≡◌, refl, Bool, true, false, List, [], ◌∷◌, some,
  some-injective, ◌==◌, ltb, if◌then◌else◌, arith, ◌++◌, ◌∙◌, ap, subst, sym, length, length-append,
  length-replicate, replicate,
}

-- The letter, of which `letter` is the upper case.
abbrev pub cased : (upper : Bool) → (letter : ℕ) → ℕ
cased upper letter = if upper then letter else letter + 32

-- The thousands as letters M, then the hundreds, the tens and the ones.
unfoldable pub roman_numeral : Bool → ℕ → List ℕ
unfolding roman_digit
roman_numeral upper i =
    let c = cased upper in
    replicate (i / 1000) (c 77)
    ++ (roman_digit (c 67) (c 68) (c 77) (i % 1000 / 100)
        ++ (roman_digit (c 88) (c 76) (c 67) (i % 100 / 10)
            ++ roman_digit (c 73) (c 86) (c 88) (i % 10)))

units : (upper : Bool) → Decade upper 0 1 (cased upper 73) (cased upper 86) (cased upper 88)
unfolding rom_val rom_pre_val rom_char rom_pre_char maj_rom_char min_rom_char maj_rom_pre_char
    min_rom_pre_char
units upper = record {
  value = refl;
  value_five = refl;
  value_ten = refl;
  value_four = refl;
  value_nine = refl;
  char = refl;
  char_five = refl;
  char_ten = refl;
  char_four = refl;
  char_nine = refl;
  positive = omega arith;
}

tens : (upper : Bool) → Decade upper 2 10 (cased upper 88) (cased upper 76) (cased upper 67)
unfolding rom_val rom_pre_val rom_char rom_pre_char maj_rom_char min_rom_char maj_rom_pre_char
    min_rom_pre_char
tens upper = record {
  value = refl;
  value_five = refl;
  value_ten = refl;
  value_four = refl;
  value_nine = refl;
  char = refl;
  char_five = refl;
  char_ten = refl;
  char_four = refl;
  char_nine = refl;
  positive = omega arith;
}

hundreds : (upper : Bool) → Decade upper 4 100 (cased upper 67) (cased upper 68) (cased upper 77)
unfolding rom_val rom_pre_val rom_char rom_pre_char maj_rom_char min_rom_char maj_rom_pre_char
    min_rom_pre_char
hundreds upper = record {
  value = refl;
  value_five = refl;
  value_ten = refl;
  value_four = refl;
  value_nine = refl;
  char = refl;
  char_five = refl;
  char_ten = refl;
  char_four = refl;
  char_nine = refl;
  positive = omega arith;
}

thousand_char : (upper : Bool) → (rom_val 6 ≡ 1000) × (rom_char upper 6 ≡ cased upper 77)
unfolding rom_val rom_char maj_rom_char min_rom_char
thousand_char upper = (refl, refl)

write_thousands :
    (upper : Bool) (n i j : ℕ) (text : List ℕ)
    → i ≡ n * 1000 + j
    → Writes upper j 6 text
    → Writes upper i 6 (replicate n (cased upper 77) ++ text)
write_thousands upper zero i j text e w =
    subst (λ (x : ℕ). Writes upper x 6 text) (omega (arith, e)) w
write_thousands upper (suc n) i j text e w =
    let (value, char) = thousand_char upper in
    let rest = replicate n (cased upper 77) ++ text in
    subst (λ (c : ℕ). Writes upper i 6 (c ∷ rest)) char
      (write_char upper i (n * 1000 + j) 6 rest (omega (arith, e, value)) (omega (arith, value))
        (write_thousands upper n (n * 1000 + j) j text refl w))

ended : (upper : Bool) → Writes upper 0 0 []
unfolding roman_loop
ended upper zero enough = absurd (omega arith)
ended upper (suc fuel) enough = refl

append_empty : (xs : List ℕ) → xs ++ [] ≡ xs
append_empty [] = refl
append_empty (x ∷ xs) = ap (λ (l : List ℕ). x ∷ l) (append_empty xs)

write_numeral : (upper : Bool) (i : ℕ) → Writes upper i 6 (roman_numeral upper i)
unfolding roman_numeral
write_numeral upper i =
    let c = cased upper in
    let one_digit = roman_digit (c 73) (c 86) (c 88) (i % 10) in
    let ones = subst (Writes upper (i % 10) 2) (append_empty one_digit) (
      write_digit upper 0 1 (c 73) (c 86) (c 88) (units upper) (i % 10) (i % 10) 0 [] (omega arith)
        (omega arith) (omega arith) (ended upper)) in
    let two = roman_digit (c 88) (c 76) (c 67) (i % 100 / 10) ++ one_digit in
    let below_hundred =
      write_digit upper 2 10 (c 88) (c 76) (c 67) (tens upper) (i % 100 / 10) (i % 100) (i % 10)
        one_digit (omega arith) (omega arith) (omega arith) ones in
    let three = roman_digit (c 67) (c 68) (c 77) (i % 1000 / 100) ++ two in
    let below_thousand =
      write_digit upper 4 100 (c 67) (c 68) (c 77) (hundreds upper) (i % 1000 / 100) (i % 1000)
        (i % 100) two (omega arith) (omega arith) (omega arith) below_hundred in
    write_thousands upper (i / 1000) i (i % 1000) three (omega arith) below_thousand

length-roman_digit : (one five ten digit : ℕ) → length (roman_digit one five ten digit) ≤ 4
unfolding roman_digit
length-roman_digit one five ten zero = omega arith
length-roman_digit one five ten (suc zero) = omega arith
length-roman_digit one five ten (suc (suc zero)) = omega arith
length-roman_digit one five ten (suc (suc (suc zero))) = omega arith
length-roman_digit one five ten (suc (suc (suc (suc zero)))) = omega arith
length-roman_digit one five ten (suc (suc (suc (suc (suc zero))))) = omega arith
length-roman_digit one five ten (suc (suc (suc (suc (suc (suc zero)))))) = omega arith
length-roman_digit one five ten (suc (suc (suc (suc (suc (suc (suc zero))))))) = omega arith
length-roman_digit one five ten (suc (suc (suc (suc (suc (suc (suc (suc zero)))))))) = omega arith
length-roman_digit one five ten (suc (suc (suc (suc (suc (suc (suc (suc (suc n))))))))) =
    omega arith

length-roman_numeral : (upper : Bool) (i : ℕ) → length (roman_numeral upper i) ≤ i / 1000 + 12
unfolding roman_numeral
length-roman_numeral upper i =
    let c = cased upper in
    let thousands = replicate (i / 1000) (c 77) in
    let a = roman_digit (c 67) (c 68) (c 77) (i % 1000 / 100) in
    let b = roman_digit (c 88) (c 76) (c 67) (i % 100 / 10) in
    let d = roman_digit (c 73) (c 86) (c 88) (i % 10) in
    omega (
      arith,
      length-replicate (i / 1000) (c 77),
      length-append thousands (a ++ (b ++ d)),
      length-append a (b ++ d),
      length-append b d,
      length-roman_digit (c 67) (c 68) (c 77) (i % 1000 / 100),
      length-roman_digit (c 88) (c 76) (c 67) (i % 100 / 10),
      length-roman_digit (c 73) (c 86) (c 88) (i % 10),
    )

-- From 1 to 243999 the text is the Roman numeral of the number, in capital or in small letters as
-- asked: a letter M for each thousand, then the hundreds, the tens and the ones, each by the usual
-- letters of its digit. It fits into the buffer, and its value is the number; fuel above the number
-- plus 6 is enough.
pub roman-numeral :
    (fuel : ℕ) (upper : Bool) (i : ℕ)
    → 0 < i
    → i < 244000
    → i + 6 < fuel
    → (roman fuel upper i ≡ some (roman_numeral upper i))
      × (roman_value (roman_numeral upper i) ≡ i)
unfolding roman fits
roman-numeral fuel upper i pos small enough =
    let run = write_numeral upper i fuel enough in
    let live : (i == 0) ≡ false = ground arith in
    let room : ltb (length (roman_numeral upper i)) 256 ≡ true =
      ground (arith, length-roman_numeral upper i) in
    let (text, run', value) = roman_loop-value fuel upper i enough in
    (
      rw (live, run, room) refl,
      subst (λ (t : List ℕ). roman_value t ≡ i) (some-injective _ _ (sym run' ∙ run)) value,
    )
