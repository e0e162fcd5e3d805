-- ===== src/Xsl/Alphabetic.antt =====
-- Alphabetic numbers, the case 'A' and 'a' of `evalNumbering` in src/xsl/xsl-numbering.cpp.
use xemeiah.Prelude.{
  ℕ, ◌+◌, ◌-◌, ◌*◌, ◌/◌, ◌%◌, ◌≤◌, ◌<◌, ◌≡◌, List, [], ◌∷◌, Option, none, some, ◌==◌, ltb,
  Bool-cases, inl, inr, ◌⊎◌, if◌then◌else◌, arith,
}

-- `op` is the character of 'A' or of 'a'; `none` is NotImplemented.
unfoldable pub alphabetic : (op i : ℕ) → Option (List ℕ)
alphabetic op i =
    if i == 0
    then some []
    else if ltb 26 ((i - 1) / 26)
    then none
    else if (i - 1) / 26 == 0
    then some (((i - 1) % 26 + op) ∷ [])
    else some (((i - 1) / 26 - 1 + op) ∷ ((i - 1) % 26 + op) ∷ [])

-- The numeral's value from the left: 'A' is 1 and 'Z' is 26.
unfoldable pub alphabetic_value : (op value : ℕ) → List ℕ → ℕ
alphabetic_value op value [] = value
alphabetic_value op value (c ∷ text) = alphabetic_value op (value * 26 + (c - op + 1)) text

-- Is every character one of the 26 from `op` on?
unfoldable pub IsLetters : (op : ℕ) → List ℕ → Type 0
IsLetters op [] = Unit
IsLetters op (c ∷ text) = (op ≤ c) × (c < op + 26) × IsLetters op text

-- A number from 1 to 702 has a numeral of letters from 'A' (or 'a') on, whose value it is.
pub alphabetic-value :
    (op i : ℕ)
    → 0 < i
    → i ≤ 702
    → (text : List ℕ) × (alphabetic op i ≡ some text)
      × (alphabetic_value op 0 text ≡ i)
      × IsLetters op text
unfolding alphabetic alphabetic_value IsLetters
alphabetic-value op i pos small = elim (Bool-cases ((i - 1) / 26 == 0)) [
  | inl e ↦
      let one : (i - 1) / 26 ≡ 0 = ground arith in
      (((i - 1) % 26 + op) ∷ [], ground arith, omega arith, (omega arith, omega arith, tt))
  | inr e ↦
      let some_more : 0 < (i - 1) / 26 = ground arith in
      (
        ((i - 1) / 26 - 1 + op) ∷ ((i - 1) % 26 + op) ∷ [],
        ground arith,
        omega arith,
        (omega arith, omega arith, (omega arith, omega arith, tt)),
      )
]

-- The number 0 has the empty numeral, and a number above 702 has none.
pub alphabetic-outside :
    (op i : ℕ) → (i ≡ 0) ⊎ (702 < i) → alphabetic op i ≡ (if i == 0 then some [] else none)
unfolding alphabetic
alphabetic-outside op i (inl e) = rw e
alphabetic-outside op i (inr big) = let high : 26 < (i - 1) / 26 = omega arith in ground arith
