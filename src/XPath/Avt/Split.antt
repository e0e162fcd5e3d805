-- ===== src/XPath/Avt/Split.antt =====
-- Templates printed from their texts and expressions, and split into them again.
use mathlib.Core.List.{append_assoc, append-nil}
use xemeiah.XPath.Avt.{
  Piece, text, expression, AvtState, initial, end_text, open_brace, close_brace, avt_char, head_of,
  avt_chars, end_steps, finish, starts_bug, parse_avt,
}
use xemeiah.Prelude.{
  ℕ, ◌≤◌, ◌≡◌, refl, ◌≢◌, Bool, true, false, ◌||◌, List, [], ◌∷◌, ◌++◌, some, ◌==◌, if◌then◌else◌,
  length, has, arith, ap, sym, ◌∙◌, subst, Bool-cases, inl, inr, ◌⊎◌,
}

-- A text with its braces doubled.
unfoldable pub escape : List ℕ → List ℕ
escape [] = []
escape (c ∷ t) = let rest = escape t in if (c == 123) || (c == 125) then c ∷ c ∷ rest else c ∷ rest

unfoldable pub print : List Piece → List ℕ
unfolding escape
print [] = []
print (text t ∷ pieces) = escape t ++ print pieces
print (expression e ∷ pieces) = 123 ∷ (e ++ (125 ∷ print pieces))

abbrev pub is_text : List Piece → Bool
is_text [] = false
is_text (text t ∷ pieces) = true
is_text (expression e ∷ pieces) = false

-- Texts are not empty, no two stand side by side, and no expression has a brace.
abbrev pub IsTemplate : List Piece → Type 0
IsTemplate [] = Unit
IsTemplate (text t ∷ pieces) = (t ≢ []) × (is_text pieces ≡ false) × IsTemplate pieces
IsTemplate (expression e ∷ pieces) = (has 123 e ≡ false) × (has 125 e ≡ false) × IsTemplate pieces

abbrev pub at : ℕ → List ℕ → List Piece → AvtState
at depth segment steps = record { skip = false; depth = depth; segment = segment; steps = steps }

-- A doubled brace outside of an expression is copied once.
chars-brace :
    (c : ℕ) (rest segment : List ℕ) (steps : List Piece)
    → ((c == 123) || (c == 125)) ≡ true
    → avt_chars (c ∷ c ∷ rest) (at 0 segment steps)
      ≡ avt_chars rest (at 0 (segment ++ (c ∷ [])) steps)
unfolding avt_chars avt_char open_brace close_brace
chars-brace c rest segment steps brace = elim (Bool-cases (c == 123)) [
  | inl e ↦
      let is : c ≡ 123 = ground arith in
      subst
        (λ (d : ℕ).
          avt_chars (d ∷ d ∷ rest) (at 0 segment steps)
          ≡ avt_chars rest (at 0 (segment ++ (d ∷ [])) steps))
        (sym is) refl
  | inr n ↦
      let is : c ≡ 125 = ground arith in
      subst
        (λ (d : ℕ).
          avt_chars (d ∷ d ∷ rest) (at 0 segment steps)
          ≡ avt_chars rest (at 0 (segment ++ (d ∷ [])) steps))
        (sym is) refl
]

-- Any other character is copied.
chars-copy :
    (c depth : ℕ) (rest segment : List ℕ) (steps : List Piece)
    → (c == 123) ≡ false
    → (c == 125) ≡ false
    → avt_chars (c ∷ rest) (at depth segment steps)
      ≡ avt_chars rest (at depth (segment ++ (c ∷ [])) steps)
unfolding avt_chars avt_char
chars-copy c depth rest segment steps a b = rw (avt_chars, avt_char, a, b) refl

grow : (segment t : List ℕ) (c : ℕ) → (segment ++ (c ∷ [])) ++ t ≡ segment ++ (c ∷ t)
grow segment t c = simp append_assoc

chars-escape :
    (t rest segment : List ℕ) (steps : List Piece)
    → avt_chars (escape t ++ rest) (at 0 segment steps) ≡ avt_chars rest (at 0 (segment ++ t) steps)
unfolding escape
chars-escape [] rest segment steps =
    ap (λ (s : List ℕ). avt_chars rest (at 0 s steps)) (sym (append-nil segment))
chars-escape (c ∷ t) rest segment steps =
    let more =
      chars-escape t rest (segment ++ (c ∷ [])) steps
      ∙ ap (λ (s : List ℕ). avt_chars rest (at 0 s steps)) (grow segment t c) in
    elim (Bool-cases ((c == 123) || (c == 125))) [
      | inl brace ↦ rw brace (chars-brace c (escape t ++ rest) segment steps brace ∙ more)
      | inr plain ↦
          rw plain
            (chars-copy c 0 (escape t ++ rest) segment steps (ground arith) (ground arith) ∙ more)
    ]

pub chars-expression :
    (e rest segment : List ℕ) (depth : ℕ) (steps : List Piece)
    → has 123 e ≡ false
    → has 125 e ≡ false
    → avt_chars (e ++ rest) (at depth segment steps)
      ≡ avt_chars rest (at depth (segment ++ e) steps)
chars-expression [] rest segment depth steps a b =
    ap (λ (s : List ℕ). avt_chars rest (at depth s steps)) (sym (append-nil segment))
chars-expression (c ∷ e) rest segment depth steps a b =
    chars-copy c depth (e ++ rest) segment steps (ground arith) (ground arith)
    ∙ chars-expression e rest (segment ++ (c ∷ [])) depth steps (ground arith) (ground arith)
    ∙ ap (λ (s : List ℕ). avt_chars rest (at depth s steps)) (grow segment e c)

-- The brace that opens an expression.
pub chars-open :
    (next : ℕ) (rest segment : List ℕ) (steps : List Piece)
    → head_of rest ≡ next
    → (next == 123) ≡ false
    → avt_chars (123 ∷ rest) (at 0 segment steps)
      ≡ avt_chars rest (at 1 [] (end_text steps segment))
unfolding avt_chars avt_char open_brace
chars-open next rest segment steps e differ =
    let d : (head_of rest == 123) ≡ false = ground arith in
    rw (avt_chars, avt_char, open_brace, d) refl

head_of-expression :
    (e rest : List ℕ) → has 123 e ≡ false → (head_of (e ++ (125 ∷ rest)) == 123) ≡ false
head_of-expression [] rest h = refl
head_of-expression (c ∷ e) rest h = ground arith

-- The brace that closes it.
pub chars-close :
    (rest e : List ℕ) (steps : List Piece)
    → avt_chars (125 ∷ rest) (at 1 e steps)
      ≡ avt_chars rest (at 0 [] (steps ++ (expression e ∷ [])))
unfolding avt_chars avt_char close_brace
chars-close rest e steps = refl

end_text-append :
    (t : List ℕ) (steps pieces : List Piece)
    → t ≢ []
    → end_text steps t ++ pieces ≡ steps ++ (text t ∷ pieces)
end_text-append [] steps pieces ne = absurd (ne refl)
end_text-append (c ∷ t) steps pieces ne = simp append_assoc

-- The pieces behind the steps that there are, of which the segment is the last.
chars-print :
    (pieces : List Piece) (segment : List ℕ) (steps : List Piece)
    → IsTemplate pieces
    → (segment ≡ []) ⊎ (is_text pieces ≡ false)
    → (segment' : List ℕ) × (steps' : List Piece) × (avt_chars (print pieces) (at 0 segment steps)
        ≡ some (at 0 segment' steps'))
      × (end_text steps' segment' ≡ end_text steps segment ++ pieces)
unfolding print avt_chars
chars-print [] segment steps ok apart =
    (segment, steps, refl, sym (append-nil (end_text steps segment)))
chars-print (text t ∷ pieces) (c ∷ segment) steps ok apart = elim apart [ inl e ↦ cc | inr e ↦ cc ]
chars-print (text t ∷ pieces) [] steps (ne, next, ok) apart =
    let (segment', steps', run, spells) = chars-print pieces t steps ok (inr next) in
    (
      segment',
      steps',
      chars-escape t (print pieces) [] steps ∙ run,
      spells ∙ end_text-append t steps pieces ne,
    )
chars-print (expression e ∷ pieces) segment steps (no_open, no_close, ok) apart =
    let (segment', steps', run, spells) =
      chars-print pieces [] (end_text steps segment ++ (expression e ∷ [])) ok (inl refl) in
    (
      segment',
      steps',
      chars-open (head_of (e ++ (125 ∷ print pieces))) (e ++ (125 ∷ print pieces)) segment steps
            refl (head_of-expression e (print pieces) no_open)
          ∙ chars-expression e (125 ∷ print pieces) [] 1 (end_text steps segment) no_open no_close
          ∙ chars-close (print pieces) e (end_text steps segment)
          ∙ run,
      spells ∙ (simp append_assoc),
    )

print-not_empty : (pieces : List Piece) → IsTemplate pieces → pieces ≢ [] → print pieces ≢ []
unfolding print escape
print-not_empty [] ok ne = absurd (ne refl)
print-not_empty (text [] ∷ pieces) (ne', next, ok) ne = absurd (ne' refl)
print-not_empty (text (c ∷ t) ∷ pieces) ok ne =
    elim ((c == 123) || (c == 125))
      as (λ b.
        ◌≢◌ {A = List ℕ} ((if b then c ∷ c ∷ escape t else c ∷ escape t) ++ print pieces) []) [
          | true ↦ λ e. cc
          | false ↦ λ e. cc
        ]
print-not_empty (expression e ∷ pieces) ok ne = cc

end_steps-some :
    (pieces : List Piece) → pieces ≢ [] → length pieces ≤ 256 → end_steps pieces ≡ some pieces
unfolding end_steps
end_steps-some [] ne small = absurd (ne refl)
end_steps-some (s ∷ pieces) ne small = ground arith

pub parse_avt-chars :
    (expr : List ℕ) (st : AvtState)
    → expr ≢ []
    → starts_bug expr ≡ false
    → avt_chars expr initial ≡ some st
    → parse_avt expr ≡ finish st
unfolding parse_avt
parse_avt-chars [] st ne start run = absurd (ne refl)
parse_avt-chars (c ∷ expr) st ne start run = rw (parse_avt, start, run) refl

-- A template of texts and expressions without braces, at least one and at most 256, is split into
-- them again, unless it starts with '{f'.
pub parse_avt-print :
    (pieces : List Piece)
    → IsTemplate pieces
    → pieces ≢ []
    → length pieces ≤ 256
    → starts_bug (print pieces) ≡ false
    → parse_avt (print pieces) ≡ some pieces
unfolding finish
parse_avt-print pieces ok ne small start =
    let (segment, steps, run, spells) = chars-print pieces [] [] ok (inl refl) in
    parse_avt-chars (print pieces) (at 0 segment steps) (print-not_empty pieces ok ne) start run
    ∙ ap end_steps spells
    ∙ end_steps-some pieces ne small
