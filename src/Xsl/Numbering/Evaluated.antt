-- ===== src/Xsl/Numbering/Evaluated.antt =====
-- Which step and which token each position is written with.
use xemeiah.Xsl.Numbering.{
  Step, text_of, convert, add_text, eval_positions, to_buffer, eval_numbering,
}
use xemeiah.Prelude.{
  ℕ, zero, suc, ◌+◌, ◌≡◌, refl, Bool, true, false, not, List, [], ◌∷◌, Option, some, ◌==◌,
  if◌then◌else◌, arith, sym, ◌∙◌, ap,
}

-- The step with the number, or the last one.
abbrev pub step_at : Step → List Step → ℕ → Step
step_at step [] k = step
step_at step (next ∷ later) zero = step
step_at step (next ∷ later) (suc k) = step_at next later k

-- A '.' behind the first position if the format has one step, and the token of the step otherwise.
abbrev pub token_at : Step → List Step → ℕ → List ℕ
token_at step [] k = if k == 0 then text_of step.pre_token else 46 ∷ []
token_at step (next ∷ later) k = text_of (step_at step (next ∷ later) k).pre_token

-- The texts of the positions from number `k` on, each with its token in front.
pub pieces : Step → List Step → ℕ → List ℕ → Option (List ℕ)
pieces step later k [] = some []
pieces step later k (i ∷ positions) =
    add_text (token_at step later k) (convert (step_at step later k).converter i)
      (pieces step later (suc k) positions)

eval_positions-single :
    (step : Step) (k : ℕ) (skip : Bool) (positions : List ℕ)
    → skip ≡ not (k == 0)
    → eval_positions step [] true skip positions ≡ pieces step [] k positions
unfolding eval_positions pieces
eval_positions-single step k skip [] e = refl
eval_positions-single step k skip (i ∷ positions) e =
    let rest = eval_positions-single step (suc k) true positions (ground arith) in
    let token : (if skip then 46 ∷ [] else text_of step.pre_token) ≡ token_at step [] k =
      ground arith in
    ap (λ t. add_text t (convert step.converter i) (eval_positions step [] true true positions))
      token
    ∙ ap (add_text (token_at step [] k) (convert step.converter i)) rest

-- From number `k` on the format's steps are those of `now` and `behind`.
abbrev Aligned : (step next : Step) → List Step → ℕ → Step → List Step → Type 0
Aligned step next later k now behind =
    (j : ℕ) → step_at step (next ∷ later) (k + j) ≡ step_at now behind j

Aligned-first :
    (step next : Step) (later : List Step) (k : ℕ) (now : Step) (behind : List Step)
    → Aligned step next later k now behind
    → step_at step (next ∷ later) k ≡ step_at now behind 0
Aligned-first step next later k now behind same =
    let first : k + 0 ≡ k = omega arith in sym (ap (step_at step (next ∷ later)) first) ∙ same 0

Aligned-next :
    (step next : Step) (later : List Step) (k : ℕ) (now now' : Step) (behind behind' : List Step)
    → Aligned step next later k now behind
    → ((j : ℕ) → step_at now behind (suc j) ≡ step_at now' behind' j)
    → Aligned step next later (suc k) now' behind'
Aligned-next step next later k now now' behind behind' same shift j =
    let moved : suc k + j ≡ k + suc j = omega arith in
    ap (step_at step (next ∷ later)) moved ∙ same (suc j) ∙ shift j

one_piece :
    (now here : Step) (i : ℕ) (rest rest' : Option (List ℕ))
    → here ≡ now
    → rest ≡ rest'
    → add_text (text_of now.pre_token) (convert now.converter i) rest
      ≡ add_text (text_of here.pre_token) (convert here.converter i) rest'
one_piece now here i rest rest' e f =
    ap (add_text (text_of now.pre_token) (convert now.converter i)) f
    ∙ ap (λ (s : Step). add_text (text_of s.pre_token) (convert s.converter i) rest') (sym e)

module _ (step next : Step) (later : List Step) where
  eval_positions-last :
      (k : ℕ) (now : Step) (positions : List ℕ)
      → Aligned step next later k now []
      → eval_positions now [] false false positions ≡ pieces step (next ∷ later) k positions
  unfolding eval_positions pieces
  eval_positions-last k now [] same = refl
  eval_positions-last k now (i ∷ positions) same =
      one_piece now (step_at step (next ∷ later) k) i (eval_positions now [] false false positions)
        (pieces step (next ∷ later) (suc k) positions) (Aligned-first step next later k now [] same)
        (eval_positions-last (suc k) now positions
          (Aligned-next step next later k now now [] [] same (λ j. refl)))

  eval_positions-later :
      (k : ℕ) (now follow : Step) (behind : List Step) (at_start : Bool) (positions : List ℕ)
      → Aligned step next later k now (follow ∷ behind)
      → eval_positions now (follow ∷ behind) at_start false positions
        ≡ pieces step (next ∷ later) k positions
  unfolding eval_positions pieces
  eval_positions-later k now follow behind at_start [] same = refl
  eval_positions-later k now follow [] at_start (i ∷ positions) same =
      one_piece now (step_at step (next ∷ later) k) i
        (eval_positions follow [] false false positions)
        (pieces step (next ∷ later) (suc k) positions)
        (Aligned-first step next later k now (follow ∷ []) same)
        (eval_positions-last (suc k) follow positions
          (Aligned-next step next later k now follow (follow ∷ []) [] same (λ j. refl)))
  eval_positions-later k now follow (s ∷ behind) at_start (i ∷ positions) same =
      one_piece now (step_at step (next ∷ later) k) i
        (eval_positions follow (s ∷ behind) false false positions)
        (pieces step (next ∷ later) (suc k) positions)
        (Aligned-first step next later k now (follow ∷ s ∷ behind) same)
        (eval_positions-later (suc k) follow s behind false positions (
          Aligned-next step next later k now follow (follow ∷ s ∷ behind) (s ∷ behind) same
            (λ j. refl)))

-- The text of a format with at least one step is, with the token behind the steps, that of its
-- positions: each is converted by the step with its number, or by the last one if there are fewer
-- steps, behind the token of that step, or behind a '.' if the format has one step only and the
-- position is not the first. It fails if a conversion does, or if it has 256 characters or more.
pub eval_numbering-pieces :
    (step : Step) (later : List Step) (post_token : Option (List ℕ)) (positions : List ℕ)
    → eval_numbering (step ∷ later, post_token) positions
      ≡ to_buffer (pieces step later 0 positions) (text_of post_token)
unfolding eval_numbering
eval_numbering-pieces step [] post_token positions =
    ap (λ t. to_buffer t (text_of post_token)) (eval_positions-single step 0 false positions refl)
eval_numbering-pieces step (next ∷ later) post_token positions =
    ap (λ t. to_buffer t (text_of post_token))
      (eval_positions-later step next later 0 step next later true positions
        (λ j. ap (step_at step (next ∷ later)) (omega arith)))
