-- ===== src/XPath/Avt/Nested.antt =====
-- An expression with braces of its own.
use xemeiah.XPath.Avt.Split.{at, chars-expression, chars-open, chars-close, parse_avt-chars}
use xemeiah.XPath.Avt.{
  expression, AvtState, initial, open_brace, close_brace, avt_char, head_of, avt_chars, finish,
  end_steps, starts_bug, parse_avt,
}
use xemeiah.Prelude.{ℕ, ◌≡◌, refl, false, List, [], ◌∷◌, ◌++◌, some, ◌==◌, has, arith, ◌∙◌}

-- Within an expression an opening brace is left out.
chars-nested_open :
    (rest e : List ℕ)
    → (head_of rest == 123) ≡ false
    → avt_chars (123 ∷ rest) (at 1 e []) ≡ avt_chars rest (at 2 e [])
unfolding avt_chars avt_char open_brace
chars-nested_open rest e d = rw (avt_chars, avt_char, open_brace, d) refl

-- The brace that closes it is copied.
chars-nested_close :
    (rest e : List ℕ)
    → avt_chars (125 ∷ rest) (at 2 e []) ≡ avt_chars rest (at 1 (e ++ (125 ∷ [])) [])
unfolding avt_chars avt_char close_brace
chars-nested_close rest e = refl

chars-end : (st : AvtState) → avt_chars [] st ≡ some st
unfolding avt_chars
chars-end st = refl

head_of-plain :
    (e rest : List ℕ) (c : ℕ)
    → has 123 e ≡ false
    → (c == 123) ≡ false
    → (head_of (e ++ (c ∷ rest)) == 123) ≡ false
head_of-plain [] rest c h d = d
head_of-plain (x ∷ e) rest c h d = ground arith

-- '{', a text, '{', a text, '}', a text and '}', of which the first text is not empty and none has a
-- brace, give one expression: the three texts, with the inner closing brace but without the inner
-- opening brace; unless the first text starts with 'f'.
pub parse_avt-nested :
    (c : ℕ) (a b d : List ℕ)
    → has 123 (c ∷ a) ≡ false
    → has 125 (c ∷ a) ≡ false
    → has 123 b ≡ false
    → has 125 b ≡ false
    → has 123 d ≡ false
    → has 125 d ≡ false
    → (c == 102) ≡ false
    → parse_avt (123 ∷ c ∷ a ++ (123 ∷ (b ++ (125 ∷ (d ++ (125 ∷ []))))))
      ≡ some (expression (((c ∷ a ++ b) ++ (125 ∷ [])) ++ d) ∷ [])
unfolding finish end_steps starts_bug
parse_avt-nested c a b d a₁ a₂ b₁ b₂ d₁ d₂ start =
    let inner = b ++ (125 ∷ (d ++ (125 ∷ []))) in
    let all = c ∷ a ++ (123 ∷ inner) in
    let whole = ((c ∷ a ++ b) ++ (125 ∷ [])) ++ d in
    let run : avt_chars (123 ∷ all) initial
        ≡ some (at 0 [] (expression (((c ∷ a ++ b) ++ (125 ∷ [])) ++ d) ∷ [])) =
      chars-open c all [] [] refl (ground arith)
      ∙ chars-expression (c ∷ a) (123 ∷ inner) [] 1 [] a₁ a₂
      ∙ chars-nested_open inner (c ∷ a) (head_of-plain b (d ++ (125 ∷ [])) 125 b₁ refl)
      ∙ chars-expression b (125 ∷ (d ++ (125 ∷ []))) (c ∷ a) 2 [] b₁ b₂
      ∙ chars-nested_close (d ++ (125 ∷ [])) (c ∷ a ++ b)
      ∙ chars-expression d (125 ∷ []) ((c ∷ a ++ b) ++ (125 ∷ [])) 1 [] d₁ d₂
      ∙ chars-close [] (((c ∷ a ++ b) ++ (125 ∷ [])) ++ d) []
      ∙ chars-end (at 0 [] (expression (((c ∷ a ++ b) ++ (125 ∷ [])) ++ d) ∷ [])) in
    parse_avt-chars (123 ∷ all) _ (λ e. cc) start run ∙ refl
