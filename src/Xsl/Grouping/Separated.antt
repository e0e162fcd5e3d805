-- ===== src/Xsl/Grouping/Separated.antt =====
-- The digits and separators that a grouped number is written with.
use xemeiah.Xsl.Grouping.{
  find_divider, put_digit, write_digits, grouped, ten_to, digits_value, AreDigits, separate,
}
use native.Mathlib.Nat.{div-add-mod, mod-lt, div-lt_iff_lt-mul, div-eq_of_eq-mul_left}
use xemeiah.Prelude.{
  ℕ, zero, suc, ◌+◌, ◌-◌, ◌*◌, ◌/◌, ◌^◌, ◌≤◌, ◌<◌, ◌≡◌, refl, true, false, List, [], ◌∷◌, Option,
  some, ◌==◌, leb, ltb, arith, Bool-cases, inl, inr, length, ◌∙◌, ap,
}

ten_to-pos : (k : ℕ) → 0 < ten_to k
ten_to-pos zero = omega arith
ten_to-pos (suc k) = omega (arith, ten_to-pos k)

ten_to-div : (k : ℕ) → ten_to (suc k) / 10 ≡ ten_to k
ten_to-div k = div-eq_of_eq-mul_left (omega arith) refl

first_digit : (pos k : ℕ) → pos < ten_to (suc k) → pos / ten_to k < 10
first_digit pos k small = (div-lt_iff_lt-mul (ten_to-pos k)).1 (omega arith)

left_over :
    (pos k : ℕ)
    → (pos / ten_to k * ten_to k + (pos - pos / ten_to k * ten_to k) ≡ pos)
      × (pos - pos / ten_to k * ten_to k < ten_to k)
left_over pos k =
    let whole = div-add-mod pos (ten_to k) in
    let small = mod-lt pos (ten_to-pos k) in (grind arith, grind arith)

-- What the digit loop leaves at the divider 10 ^ k.
Grouped : (fuel grouping_size separator pos k : ℕ) → Type 0
Grouped fuel grouping_size separator pos k =
    (text : List ℕ) × (write_digits fuel grouping_size separator pos (ten_to k) (suc k)
      ≡ some (separate grouping_size separator text))
    × (length text ≡ suc k)
    × (digits_value text ≡ pos)
    × AreDigits text

write_digits-last :
    (fuel grouping_size separator pos : ℕ)
    → pos < 10
    → Grouped (suc fuel) grouping_size separator pos 0
unfolding Grouped write_digits
write_digits-last fuel grouping_size separator pos small =
    ((pos + 48) ∷ [], ground arith, refl, omega arith, (omega arith, omega arith, tt))

put_digit-separate :
    (grouping_size separator digit left : ℕ) (text : List ℕ)
    → length text ≡ left
    → put_digit grouping_size separator digit left (some (separate grouping_size separator text))
      ≡ some (separate grouping_size separator ((digit + 48) ∷ text))
unfolding put_digit
put_digit-separate grouping_size separator digit left text len = rw (← len) (ground arith)

write_digits-more :
    (fuel grouping_size separator pos divider digits divider' left : ℕ) (text : List ℕ)
    → (1 < divider) × (pos / divider < 10)
    → divider / 10 ≡ divider'
    → digits - 1 ≡ left
    → write_digits fuel grouping_size separator (pos - pos / divider * divider) divider' left
      ≡ some text
    → write_digits (suc fuel) grouping_size separator pos divider digits
      ≡ put_digit grouping_size separator (pos / divider) left (some text)
unfolding write_digits
write_digits-more fuel grouping_size separator pos divider digits divider' left text (big, fits) e f
      run =
    let more : (divider == 1) ≡ false = ground arith in
    let digit : ltb (pos / divider) 10 ≡ true = ground arith in rw (more, digit, e, f, run) refl

digits_value-cons :
    (digit k pos : ℕ) (text : List ℕ)
    → length text ≡ k
    → digit * ten_to k + digits_value text ≡ pos
    → digits_value ((digit + 48) ∷ text) ≡ pos
digits_value-cons digit k pos text len sum =
    let back : digit + 48 - 48 ≡ digit = omega arith in rw (back, len) sum

write_digits-step :
    (fuel grouping_size separator pos k : ℕ)
    → pos < ten_to (suc (suc k))
    → Grouped fuel grouping_size separator (pos - pos / ten_to (suc k) * ten_to (suc k)) k
    → Grouped (suc fuel) grouping_size separator pos (suc k)
unfolding Grouped
write_digits-step fuel grouping_size separator pos k small (text, run, len, value, digits) =
    let digit : ℕ = pos / ten_to (suc k) in
    let fits : digit < 10 = first_digit pos (suc k) small in
    let (whole, less) = left_over pos (suc k) in
    (
      (digit + 48) ∷ text,
      write_digits-more fuel grouping_size separator pos (ten_to (suc k)) (suc (suc k)) (ten_to k)
            (suc k) (separate grouping_size separator text) (omega (arith, ten_to-pos k), fits)
            (ten_to-div k) (omega arith) run
          ∙ put_digit-separate grouping_size separator digit (suc k) text len,
      ap suc len,
      digits_value-cons digit (suc k) pos text len
          (ap (λ v. digit * ten_to (suc k) + v) value ∙ whole),
      (omega arith, omega arith, digits),
    )

write_digits-Grouped :
    (fuel grouping_size separator pos k : ℕ)
    → pos < ten_to (suc k)
    → k < fuel
    → Grouped fuel grouping_size separator pos k
write_digits-Grouped zero grouping_size separator pos k small enough = absurd (omega arith)
write_digits-Grouped (suc fuel) grouping_size separator pos zero small enough =
    write_digits-last fuel grouping_size separator pos (omega arith)
write_digits-Grouped (suc fuel) grouping_size separator pos (suc k) small enough =
    write_digits-step fuel grouping_size separator pos k small (
      write_digits-Grouped fuel grouping_size separator
        (pos - pos / ten_to (suc k) * ten_to (suc k)) k (left_over pos (suc k)).1 (omega arith))

ten_to_mono : (k j : ℕ) → k ≤ j → ten_to k ≤ ten_to j
ten_to_mono zero j h = omega (arith, ten_to-pos j)
ten_to_mono (suc k) zero h = absurd (omega arith)
ten_to_mono (suc k) (suc j) h = omega (arith, ten_to_mono k j (omega arith))

ten_to-less : (k : ℕ) → ten_to k < 1000000000000000000 → k < 18
ten_to-less k small = elim (Bool-cases (ltb k 18)) [
  | inl e ↦ ground arith
  | inr e ↦ absurd (omega (arith, ten_to_mono 18 k (ground arith)))
]

find_divider-here :
    (fuel pos divider digits : ℕ)
    → divider * 10 < 2 ^ 63
    → pos < divider * 10
    → find_divider (suc fuel) pos divider digits ≡ some (divider, digits)
unfolding find_divider
find_divider-here fuel pos divider digits fits above = ground arith

find_divider-next :
    (fuel pos divider digits digits' : ℕ) {r : Option (ℕ × ℕ)}
    → digits + 1 ≡ digits'
    → divider * 10 < 2 ^ 63
    → divider * 10 ≤ pos
    → find_divider fuel pos (divider * 10) digits' ≡ r
    → find_divider (suc fuel) pos divider digits ≡ r
unfolding find_divider
find_divider-next fuel pos divider digits digits' e fits above run =
    let small : leb (2 ^ 63) (divider * 10) ≡ false = ground arith in
    let more : ltb pos (divider * 10) ≡ false = ground arith in rw (small, more, e) run

-- From a power of 10 that is not above the position the first loop finds the greatest one; it has 18
-- zeros at most.
find_divider-greatest :
    (fuel pos k : ℕ)
    → ten_to k ≤ pos
    → pos < 1000000000000000000
    → 18 < k + fuel
    → (m : ℕ) × (find_divider fuel pos (ten_to k) (suc k) ≡ some (ten_to m, suc m))
      × (pos < ten_to (suc m))
      × (m < 18)
find_divider-greatest zero pos k low small enough =
    absurd (omega (arith, ten_to-less k (omega arith)))
find_divider-greatest (suc fuel) pos k low small enough =
    let inside = ten_to-less k (omega arith) in
    let fits : ten_to k * 10 < 2 ^ 63 = omega (arith, ten_to_mono k 17 (omega arith)) in
    elim (Bool-cases (ltb pos (ten_to k * 10))) [
      | inl e ↦ (
        k,
        find_divider-here fuel pos (ten_to k) (suc k) fits (ground arith),
        ground arith,
        inside,
      )
      | inr e ↦
          let above : ten_to k * 10 ≤ pos = ground arith in
          let (m, run, top, last) =
            find_divider-greatest fuel pos (suc k) above small (omega arith) in
          (
            m,
            find_divider-next fuel pos (ten_to k) (suc k) (suc (suc k)) (omega arith) fits above
                run,
            top,
            last,
          )
    ]

grouped-run :
    (fuel grouping_size separator pos divider digits : ℕ) {r : Option (List ℕ)}
    → find_divider fuel pos 1 1 ≡ some (divider, digits)
    → write_digits fuel grouping_size separator pos divider digits ≡ r
    → grouped fuel grouping_size separator pos ≡ r
unfolding grouped
grouped-run fuel grouping_size separator pos divider digits e run = rw (grouped, e) run

-- For a position from 1 to 10 ^ 18 - 1, the text is the position's digits with a separator wherever
-- a positive multiple of the group size of digits is left; fuel 19 is enough.
pub grouped-separate :
    (fuel grouping_size separator pos : ℕ)
    → 0 < pos
    → pos < 1000000000000000000
    → 18 < fuel
    → (text : List ℕ) × (grouped fuel grouping_size separator pos
        ≡ some (separate grouping_size separator text))
      × (digits_value text ≡ pos)
      × AreDigits text
unfolding Grouped
grouped-separate fuel grouping_size separator pos low small enough =
    let (m, found, top, last) = find_divider-greatest fuel pos 0 low small (omega arith) in
    let (text, run, len, value, digits) =
      write_digits-Grouped fuel grouping_size separator pos m top (omega arith) in
    (text, grouped-run fuel grouping_size separator pos (ten_to m) (suc m) found run, value, digits)
