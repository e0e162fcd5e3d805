-- ===== src/Xsl/Roman/Digit.antt =====
-- The letters that the Roman loop writes for one decimal digit.
use xemeiah.Xsl.Roman.Value.{loop-step}
use xemeiah.Xsl.Roman.{
  rom_val, rom_pre_val, rom_char, rom_pre_char, RomanStep, roman_step, roman_loop,
}
use xemeiah.Prelude.{
  ℕ, zero, suc, ◌+◌, ◌-◌, ◌*◌, ◌≤◌, ◌<◌, ◌≡◌, Bool, List, [], ◌∷◌, some, arith, ◌++◌, subst, sym,
  replicate,
}

-- A decimal digit by the letters for one, five and ten.
unfoldable pub roman_digit : (one five ten digit : ℕ) → List ℕ
roman_digit one five ten zero = []
roman_digit one five ten (suc zero) = one ∷ []
roman_digit one five ten (suc (suc zero)) = one ∷ one ∷ []
roman_digit one five ten (suc (suc (suc zero))) = one ∷ one ∷ one ∷ []
roman_digit one five ten (suc (suc (suc (suc zero)))) = one ∷ five ∷ []
roman_digit one five ten (suc (suc (suc (suc (suc zero))))) = five ∷ []
roman_digit one five ten (suc (suc (suc (suc (suc (suc zero)))))) = five ∷ one ∷ []
roman_digit one five ten (suc (suc (suc (suc (suc (suc (suc zero))))))) = five ∷ one ∷ one ∷ []
roman_digit one five ten (suc (suc (suc (suc (suc (suc (suc (suc zero)))))))) =
    five ∷ one ∷ one ∷ one ∷ []
roman_digit one five ten digit = one ∷ ten ∷ []

-- With enough fuel the loop writes the text.
abbrev pub Writes : Bool → (i nb : ℕ) → List ℕ → Type 0
Writes upper i nb text = (fuel : ℕ) → i + nb < fuel → roman_loop fuel upper i nb ≡ some text

pub write_char :
    (upper : Bool) (i j nb : ℕ) (text : List ℕ)
    → i ≡ rom_val nb + j
    → 0 < rom_val nb
    → Writes upper j nb text
    → Writes upper i nb (rom_char upper nb ∷ text)
unfolding roman_step
write_char upper i j nb text e pos w zero enough = absurd (omega arith)
write_char upper i j nb text e pos w (suc fuel) enough =
    let next : RomanStep = record {
      chars = rom_char upper nb ∷ [];
      i = i - rom_val nb;
      rom_nb = nb;
    } in
    let left : j ≡ i - rom_val nb = omega (arith, e) in
    loop-step fuel upper i nb next text (omega (arith, e, pos)) (ground (arith, e))
      (subst (λ (x : ℕ). roman_loop fuel upper x nb ≡ some text) left (w fuel (omega arith)))

write_pre :
    (upper : Bool) (i j nb : ℕ) (text : List ℕ)
    → i ≡ rom_pre_val (suc nb) + j
    → i < rom_val (suc nb)
    → 0 < rom_pre_val (suc nb)
    → Writes upper j nb text
    → Writes upper i (suc nb) (rom_pre_char upper (suc nb) ∷ rom_char upper (suc nb) ∷ text)
unfolding roman_step
write_pre upper i j nb text e less pos w zero enough = absurd (omega arith)
write_pre upper i j nb text e less pos w (suc fuel) enough =
    let next : RomanStep = record {
      chars = rom_pre_char upper (suc nb) ∷ rom_char upper (suc nb) ∷ [];
      i = i - rom_pre_val (suc nb);
      rom_nb = nb;
    } in
    let left : j ≡ i - rom_pre_val (suc nb) = omega (arith, e) in
    loop-step fuel upper i (suc nb) next text (omega (arith, e, pos)) (ground (arith, e, less))
      (subst (λ (x : ℕ). roman_loop fuel upper x nb ≡ some text) left (w fuel (omega arith)))

-- At 0 the loop has ended, whatever `romNb` is.
write_skip :
    (upper : Bool) (i nb : ℕ) (text : List ℕ)
    → i < rom_pre_val (suc nb)
    → i < rom_val (suc nb)
    → Writes upper i nb text
    → Writes upper i (suc nb) text
unfolding roman_step roman_loop
write_skip upper i nb text low less w zero enough = absurd (omega arith)
write_skip upper zero nb text low less w (suc fuel) enough = w (suc fuel) (omega arith)
write_skip upper (suc i) nb text low less w (suc fuel) enough =
    let next : RomanStep = record { chars = []; i = suc i; rom_nb = nb } in
    loop-step fuel upper (suc i) (suc nb) next text (omega arith) (ground (arith, low, less))
      (w fuel (omega arith))

-- The letters of three neighbours of the tables are those of one, five and ten of a decimal digit.
pub record Decade (upper : Bool) (nb unit one five ten : ℕ) : Type 0 where
  pub value : rom_val nb ≡ unit
  pub value_five : rom_val (suc nb) ≡ 5 * unit
  pub value_ten : rom_val (suc (suc nb)) ≡ 10 * unit
  pub value_four : rom_pre_val (suc nb) ≡ 4 * unit
  pub value_nine : rom_pre_val (suc (suc nb)) ≡ 9 * unit
  pub char : rom_char upper nb ≡ one
  pub char_five : rom_char upper (suc nb) ≡ five
  pub char_ten : rom_char upper (suc (suc nb)) ≡ ten
  pub char_four : rom_pre_char upper (suc nb) ≡ one
  pub char_nine : rom_pre_char upper (suc (suc nb)) ≡ one
  pub positive : 0 < unit

module _ (upper : Bool) (nb unit one five ten : ℕ) (d : Decade upper nb unit one five ten) where
  one_more :
      (j : ℕ) (text : List ℕ) → Writes upper j nb text → Writes upper (unit + j) nb (one ∷ text)
  one_more j text w =
      subst (λ (c : ℕ). Writes upper (unit + j) nb (c ∷ text)) d.char
        (write_char upper (unit + j) j nb text (omega (arith, d.value))
          (omega (arith, d.value, d.positive)) w)

  five_more :
      (j : ℕ) (text : List ℕ)
      → Writes upper j (suc nb) text
      → Writes upper (5 * unit + j) (suc nb) (five ∷ text)
  five_more j text w =
      subst (λ (c : ℕ). Writes upper (5 * unit + j) (suc nb) (c ∷ text)) d.char_five
        (write_char upper (5 * unit + j) j (suc nb) text (omega (arith, d.value_five))
          (omega (arith, d.value_five, d.positive)) w)

  four :
      (j : ℕ) (text : List ℕ)
      → j < unit
      → Writes upper j nb text
      → Writes upper (4 * unit + j) (suc nb) (one ∷ five ∷ text)
  four j text less w =
      subst (λ (c : ℕ). Writes upper (4 * unit + j) (suc nb) (c ∷ five ∷ text)) d.char_four
        (subst
          (λ (c : ℕ). Writes upper (4 * unit + j) (suc nb) (rom_pre_char upper (suc nb) ∷ c ∷ text))
          d.char_five
          (write_pre upper (4 * unit + j) j nb text (omega (arith, d.value_four))
            (omega (arith, d.value_five)) (omega (arith, d.value_four, d.positive)) w))

  nine :
      (j : ℕ) (text : List ℕ)
      → j < unit
      → Writes upper j (suc nb) text
      → Writes upper (9 * unit + j) (suc (suc nb)) (one ∷ ten ∷ text)
  nine j text less w =
      subst (λ (c : ℕ). Writes upper (9 * unit + j) (suc (suc nb)) (c ∷ ten ∷ text)) d.char_nine
        (subst
          (λ (c : ℕ).
            Writes upper (9 * unit + j) (suc (suc nb))
              (rom_pre_char upper (suc (suc nb)) ∷ c ∷ text))
          d.char_ten
          (write_pre upper (9 * unit + j) j (suc nb) text (omega (arith, d.value_nine))
            (omega (arith, d.value_ten)) (omega (arith, d.value_nine, d.positive)) w))

  below_four :
      (i : ℕ) (text : List ℕ) → i < 4 * unit → Writes upper i nb text → Writes upper i (suc nb) text
  below_four i text less w =
      write_skip upper i nb text (omega (arith, d.value_four)) (omega (arith, d.value_five)) w

  below_nine :
      (i : ℕ) (text : List ℕ)
      → i < 9 * unit
      → Writes upper i (suc nb) text
      → Writes upper i (suc (suc nb)) text
  below_nine i text less w =
      write_skip upper i (suc nb) text (omega (arith, d.value_nine)) (omega (arith, d.value_ten)) w

  -- Up to three letters, on their own or behind that of five.
  ones :
      (n j : ℕ) (text : List ℕ)
      → Writes upper j nb text
      → Writes upper (n * unit + j) nb (replicate n one ++ text)
  ones zero j text w = subst (λ (x : ℕ). Writes upper x nb text) (omega arith) w
  ones (suc n) j text w =
      subst (λ (x : ℕ). Writes upper x nb (one ∷ (replicate n one ++ text))) (omega arith)
        (one_more (n * unit + j) (replicate n one ++ text) (ones n j text w))

  up_to_three :
      (n j : ℕ) (text : List ℕ)
      → n ≤ 3
      → j < unit
      → Writes upper j nb text
      → Writes upper (n * unit + j) (suc nb) (replicate n one ++ text)
  up_to_three n j text le less w =
      below_four (n * unit + j) (replicate n one ++ text) (small n le) (ones n j text w)
    where
      small : (n : ℕ) → n ≤ 3 → n * unit + j < 4 * unit
      small zero le' = omega (arith, d.positive)
      small (suc zero) le' = omega arith
      small (suc (suc zero)) le' = omega arith
      small (suc (suc (suc zero))) le' = omega arith
      small (suc (suc (suc (suc n')))) le' = absurd (omega arith)

  -- Without the letter of five, and with it.
  few :
      (n i j : ℕ) (text : List ℕ)
      → i ≡ n * unit + j
      → i < 9 * unit
      → n ≤ 3
      → j < unit
      → Writes upper j nb text
      → Writes upper i (suc (suc nb)) (replicate n one ++ text)
  few n i j text e small le less w = below_nine i (replicate n one ++ text) small (
      subst (λ (x : ℕ). Writes upper x (suc nb) (replicate n one ++ text)) (sym e)
        (up_to_three n j text le less w))

  many :
      (n i j : ℕ) (text : List ℕ)
      → i ≡ 5 * unit + (n * unit + j)
      → i < 9 * unit
      → n ≤ 3
      → j < unit
      → Writes upper j nb text
      → Writes upper i (suc (suc nb)) (five ∷ (replicate n one ++ text))
  many n i j text e small le less w = below_nine i (five ∷ (replicate n one ++ text)) small (
      subst (λ (x : ℕ). Writes upper x (suc nb) (five ∷ (replicate n one ++ text))) (sym e)
        (five_more (n * unit + j) (replicate n one ++ text) (up_to_three n j text le less w)))

  pub write_digit :
      (digit i j : ℕ) (text : List ℕ)
      → i ≡ digit * unit + j
      → digit ≤ 9
      → j < unit
      → Writes upper j nb text
      → Writes upper i (suc (suc nb)) (roman_digit one five ten digit ++ text)
  unfolding roman_digit
  write_digit zero i j text e le less w = few 0 i j text e (omega (arith, e)) (omega arith) less w
  write_digit (suc zero) i j text e le less w =
      few 1 i j text e (omega (arith, e)) (omega arith) less w
  write_digit (suc (suc zero)) i j text e le less w =
      few 2 i j text e (omega (arith, e)) (omega arith) less w
  write_digit (suc (suc (suc zero))) i j text e le less w =
      few 3 i j text e (omega (arith, e)) (omega arith) less w
  write_digit (suc (suc (suc (suc zero)))) i j text e le less w =
      below_nine i (one ∷ five ∷ text) (omega (arith, e)) (
        subst (λ (x : ℕ). Writes upper x (suc nb) (one ∷ five ∷ text)) (sym e) (four j text less w))
  write_digit (suc (suc (suc (suc (suc zero))))) i j text e le less w =
      many 0 i j text (omega (arith, e)) (omega (arith, e)) (omega arith) less w
  write_digit (suc (suc (suc (suc (suc (suc zero)))))) i j text e le less w =
      many 1 i j text (omega (arith, e)) (omega (arith, e)) (omega arith) less w
  write_digit (suc (suc (suc (suc (suc (suc (suc zero))))))) i j text e le less w =
      many 2 i j text (omega (arith, e)) (omega (arith, e)) (omega arith) less w
  write_digit (suc (suc (suc (suc (suc (suc (suc (suc zero)))))))) i j text e le less w =
      many 3 i j text (omega (arith, e)) (omega (arith, e)) (omega arith) less w
  write_digit (suc (suc (suc (suc (suc (suc (suc (suc (suc zero))))))))) i j text e le less w =
      subst (λ (x : ℕ). Writes upper x (suc (suc nb)) (one ∷ ten ∷ text)) (sym e)
        (nine j text less (below_four j text (omega (arith, d.positive)) w))
  write_digit (suc (suc (suc (suc (suc (suc (suc (suc (suc (suc n)))))))))) i j text e le less w =
      absurd (omega arith)
