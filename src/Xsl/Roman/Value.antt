-- ===== src/Xsl/Roman/Value.antt =====
-- The value of the text that the Roman loop writes.
use xemeiah.Xsl.Roman.Tables.{Tables, tables}
use xemeiah.Xsl.Roman.{
  rom_val, rom_pre_val, rom_char, maj_rom_char, min_rom_char, rom_pre_char, RomanStep, roman_step,
  write_chars, roman_loop, letter_value, roman_value,
}
use xemeiah.Prelude.{
  ℕ, zero, suc, ◌+◌, ◌-◌, ◌≤◌, ◌<◌, ◌≡◌, refl, Bool, true, false, List, [], ◌∷◌, some, ◌==◌, leb,
  arith, Bool-cases, inl, inr, ◌++◌, ◌∙◌, ap,
}

-- The value of the first letter.
first_value : List ℕ → ℕ
first_value [] = 0
first_value (a ∷ text) = letter_value a

value-add :
    (a : ℕ) (text : List ℕ)
    → first_value text ≤ letter_value a
    → roman_value (a ∷ text) ≡ letter_value a + roman_value text
unfolding roman_value first_value
value-add a [] h = omega arith
value-add a (b ∷ text) h = ground arith

value-subtract :
    (a b : ℕ) (text : List ℕ)
    → letter_value a < letter_value b
    → roman_value (a ∷ b ∷ text) ≡ roman_value (b ∷ text) - letter_value a
unfolding roman_value
value-subtract a b text h = ground arith

-- What the loop returns at `i` and `romNb`.
Written : Bool → (fuel i nb : ℕ) → Type 0
Written upper fuel i nb =
    (text : List ℕ) × (roman_loop fuel upper i nb ≡ some text)
    × (roman_value text ≡ i)
    × (first_value text ≤ rom_val nb)

advance :
    (fuel : ℕ) (upper : Bool) (next next' : RomanStep) (text : List ℕ)
    → next ≡ next'
    → roman_loop fuel upper next'.i next'.rom_nb ≡ some text
    → write_chars next.chars (roman_loop fuel upper next.i next.rom_nb) ≡ some (next'.chars ++ text)
unfolding write_chars
advance fuel upper next next' text e run =
    ap (λ (st : RomanStep). write_chars st.chars (roman_loop fuel upper st.i st.rom_nb)) e
    ∙ ap (write_chars next'.chars) run

pub loop-step :
    (fuel : ℕ) (upper : Bool) (i nb : ℕ) (next : RomanStep) (text : List ℕ)
    → 0 < i
    → roman_step upper i nb ≡ next
    → roman_loop fuel upper next.i next.rom_nb ≡ some text
    → roman_loop (suc fuel) upper i nb ≡ some (next.chars ++ text)
unfolding roman_loop
loop-step fuel upper i nb next text pos step run =
    let live : (i == 0) ≡ false = ground arith in
    rw live (advance fuel upper (roman_step upper i nb) next text step run)

char_step :
    (fuel : ℕ) (upper : Bool) (i nb : ℕ)
    → (0 < rom_val nb) × (letter_value (rom_char upper nb) ≡ rom_val nb)
    → rom_val nb ≤ i
    → Written upper fuel (i - rom_val nb) nb
    → Written upper (suc fuel) i nb
unfolding roman_step first_value Written
char_step fuel upper i nb (pos, char) big (text, run, value, first) =
    let next : RomanStep = record {
      chars = rom_char upper nb ∷ [];
      i = i - rom_val nb;
      rom_nb = nb;
    } in
    let step : roman_step upper i nb ≡ next = ground arith in
    (
      rom_char upper nb ∷ text,
      loop-step fuel upper i nb next text (omega arith) step run,
      value-add (rom_char upper nb) text (omega arith) ∙ omega arith,
      omega arith,
    )

pre_step :
    (fuel : ℕ) (upper : Bool) (i nb : ℕ)
    → Tables upper nb
    → i < rom_val nb
    → rom_pre_val nb ≤ i
    → Written upper fuel (i - rom_pre_val nb) (nb - 1)
    → Written upper (suc fuel) i nb
unfolding roman_step first_value Written
pre_step fuel upper i nb t small big (text, run, value, first) =
    let next : RomanStep = record {
      chars = rom_pre_char upper nb ∷ rom_char upper nb ∷ [];
      i = i - rom_pre_val nb;
      rom_nb = nb - 1;
    } in
    let step : roman_step upper i nb ≡ next = ground arith in
    let added = value-add (rom_char upper nb) text (omega (arith, t.char, t.next)) in
    (
      rom_pre_char upper nb ∷ rom_char upper nb ∷ text,
      loop-step fuel upper i nb next text (omega (arith, t.pre_less)) step run,
      value-subtract (rom_pre_char upper nb) (rom_char upper nb) text
            (omega (arith, t.char, t.pre, t.pre_less))
          ∙ omega (arith, t.char, t.pre),
      omega (arith, t.pre),
    )

skip_step :
    (fuel : ℕ) (upper : Bool) (i nb : ℕ)
    → Tables upper nb
    → 0 < i
    → i < rom_pre_val nb
    → Written upper fuel i (nb - 1)
    → Written upper (suc fuel) i nb
unfolding roman_step Written
skip_step fuel upper i nb t pos small (text, run, value, first) =
    let less : i < rom_val nb = omega (arith, t.pre) in
    let next : RomanStep = record { chars = []; i = i; rom_nb = nb - 1 } in
    let step : roman_step upper i nb ≡ next = ground arith in
    (text, loop-step fuel upper i nb next text pos step run, value, omega (arith, t.next))

one_less : (upper : Bool) (nb i : ℕ) → nb ≤ 6 → i < rom_val nb → 0 < i → Tables upper nb
unfolding rom_val
one_less upper zero i bound small pos = absurd (omega arith)
one_less upper (suc nb) i bound small pos = tables upper (suc nb) (omega arith, bound)

rom_val-char :
    (upper : Bool) (nb : ℕ)
    → nb ≤ 6
    → (0 < rom_val nb) × (letter_value (rom_char upper nb) ≡ rom_val nb)
unfolding rom_val rom_char letter_value maj_rom_char min_rom_char
rom_val-char true zero bound = (omega arith, refl)
rom_val-char false zero bound = (omega arith, refl)
rom_val-char upper (suc nb) bound =
    let t = tables upper (suc nb) (omega arith, bound) in (omega (arith, t.pre, t.pre_less), t.char)

roman_loop-Written :
    (fuel : ℕ) (upper : Bool) (i nb : ℕ) → nb ≤ 6 → i + nb < fuel → Written upper fuel i nb
unfolding Written roman_loop roman_value first_value
roman_loop-Written zero upper i nb bound enough = absurd (omega arith)
roman_loop-Written (suc fuel) upper i nb bound enough = elim (Bool-cases (i == 0)) [
  | inl e ↦ ([], rw e, ground arith, omega arith)
  | inr live ↦
      let pos : 0 < i = ground arith in
      let facts = rom_val-char upper nb bound in
      elim (Bool-cases (leb (rom_val nb) i)) [
        | inl e ↦
            let big : rom_val nb ≤ i = ground arith in
            char_step fuel upper i nb facts big
              (roman_loop-Written fuel upper (i - rom_val nb) nb bound (omega (arith, facts.0)))
        | inr e ↦
            let small : i < rom_val nb = ground arith in
            let t = one_less upper nb i bound small pos in
            elim (Bool-cases (leb (rom_pre_val nb) i)) [
              | inl d ↦
                  let big : rom_pre_val nb ≤ i = ground arith in
                  pre_step fuel upper i nb t small big (
                    roman_loop-Written fuel upper (i - rom_pre_val nb) (nb - 1) (omega arith)
                      (omega (arith, t.pre_less)))
              | inr d ↦
                  let low : i < rom_pre_val nb = ground arith in
                  skip_step fuel upper i nb t pos low (
                    roman_loop-Written fuel upper i (nb - 1) (omega arith)
                      (omega (arith, t.positive)))
            ]
      ]
]

-- The loop writes a text whose value is the number; fuel above the number plus 6 is enough.
pub roman_loop-value :
    (fuel : ℕ) (upper : Bool) (i : ℕ)
    → i + 6 < fuel
    → (text : List ℕ) × (roman_loop fuel upper i 6 ≡ some text) × (roman_value text ≡ i)
unfolding Written
roman_loop-value fuel upper i enough =
    let written = roman_loop-Written fuel upper i 6 (omega arith) enough in
    (written.0, written.1, written.2)
