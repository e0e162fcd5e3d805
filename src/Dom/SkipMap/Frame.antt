-- ===== src/Dom/SkipMap/Frame.antt =====
-- Writes beside a list of items, and the entry that an insertion adds.
use xemeiah.Dom.SkipMap.Chains.{Items, Chain, Above, Linked, entries}
use xemeiah.Prelude.{
  ℕ, ◌≡◌, refl, ◌≢◌, Bool, true, false, List, [], ◌∷◌, leb, ltb, if◌then◌else◌, arith, has, subst,
  sym,
}

-- The first item of the list is on the chain, or it is not.
module _ (item : Items) (level first p : ℕ) (ps : List ℕ) where
  abbrev ChainBy : Bool → Type 0
  ChainBy b =
      if b
      then (first ≡ p) × Chain item level ((item p).next level) ps
      else Chain item level first ps

  pub Chain-on :
      leb level (item p).level ≡ true
      → (first ≡ p) × Chain item level ((item p).next level) ps
      → Chain item level first (p ∷ ps)
  Chain-on e c = subst ChainBy (sym e) c

  pub Chain-off :
      leb level (item p).level ≡ false → Chain item level first ps → Chain item level first (p ∷ ps)
  Chain-off e c = subst ChainBy (sym e) c

  pub on-Chain :
      leb level (item p).level ≡ true
      → Chain item level first (p ∷ ps)
      → (first ≡ p) × Chain item level ((item p).next level) ps
  on-Chain e c = subst ChainBy e c

  pub off-Chain :
      leb level (item p).level ≡ false → Chain item level first (p ∷ ps) → Chain item level first ps
  off-Chain e c = subst ChainBy e c

-- The two memories agree on the items of the list.
abbrev pub Same : Items → Items → List ℕ → Type 0
Same item item' [] = Unit
Same item item' (p ∷ ps) = (item' p ≡ item p) × Same item item' ps

pub Same-of :
    (item item' : Items) (ps : List ℕ)
    → ((q : ℕ) → has q ps ≡ true → item' q ≡ item q)
    → Same item item' ps
Same-of item item' [] same = _
Same-of item item' (p ∷ ps) same =
    (same p (ground arith), Same-of item item' ps (λ q h. same q (ground arith)))

pub Chain-Same :
    (item item' : Items) (level first : ℕ) (ps : List ℕ)
    → Same item item' ps
    → Chain item level first ps
    → Chain item' level first ps
Chain-Same item item' level first [] same chain = chain
Chain-Same item item' level first (p ∷ ps) (e, same) chain =
    let behind = λ (f : ℕ) (c : Chain item level f ps). Chain-Same item item' level f ps same c in
    rw e (split (leb level (item p).level) behind chain)
  where
    split :
        (b : Bool)
        → ((f : ℕ) → Chain item level f ps → Chain item' level f ps)
        → (if b
            then (first ≡ p) × Chain item level ((item p).next level) ps
            else Chain item level first ps)
        → if b
          then (first ≡ p) × Chain item' level ((item p).next level) ps
          else Chain item' level first ps
    split true behind (a, c) = (a, behind ((item p).next level) c)
    split false behind c = behind first c

pub Above-Same :
    (item item' : Items) (hash : ℕ) (ps : List ℕ)
    → Same item item' ps
    → Above item hash ps
    → Above item' hash ps
Above-Same item item' hash [] same above = above
Above-Same item item' hash (p ∷ ps) (e, same) (less, above) =
    (rw e less, Above-Same item item' hash ps same above)

pub Linked-Same :
    (item item' : Items) (max_level : ℕ) (ps : List ℕ)
    → Same item item' ps
    → Linked item max_level ps
    → Linked item' max_level ps
Linked-Same item item' max_level [] same linked = linked
Linked-Same item item' max_level (p ∷ ps) (e, same) (ne, aligned, small, chains, above, rest) = (
  ne,
  aligned,
  rw e small,
  rw e (λ level le. Chain-Same item item' level ((item p).next level) ps same (chains level le)),
  rw e (Above-Same item item' (item p).hash ps same above),
  Linked-Same item item' max_level ps same rest,
)

pub entries-Same :
    (item item' : Items) (ps : List ℕ) → Same item item' ps → entries item' ps ≡ entries item ps
entries-Same item item' [] same = refl
entries-Same item item' (p ∷ ps) (e, same) = rw (e, entries-Same item item' ps same) refl

-- The entries in the order of their hashes, with one more.
unfoldable pub insert_entry : ℕ → ℕ → List (ℕ × ℕ) → List (ℕ × ℕ)
insert_entry hash value [] = (hash, value) ∷ []
insert_entry hash value ((h, v) ∷ l) =
    if ltb hash h then (hash, value) ∷ (h, v) ∷ l else (h, v) ∷ insert_entry hash value l

-- No item has the hash.
abbrev pub Absent : Items → ℕ → List ℕ → Type 0
Absent item hash [] = Unit
Absent item hash (p ∷ ps) = ((item p).hash ≢ hash) × Absent item hash ps
