-- ===== src/XProcessor/Scope.antt =====
-- What a scope does: `pushEnv`, any `setString` calls and the matching `popEnv` (xprocessor/env.hpp,
-- env.cpp).
use xemeiah.XProcessor.Env.{
  EnvItem, EnvEntry, Env, push_env, free_items, free_env_entry, pop_env, drop_head,
}
use xemeiah.Prelude.{
  ℕ, zero, suc, ◌+◌, ◌-◌, ◌≤◌, ◌<◌, ◌≡◌, refl, ◌≢◌, true, false, List, [], ◌∷◌, Option, none, some,
  ◌==◌, update, has, arith, subst, ◌⊎◌, inl, inr, length, sym, ◌∙◌, ap,
}

abbrev pub Heap : Type 0 → Type 0
Heap V = ℕ → Option (EnvItem V)

-- No entry is above the current environment.
abbrev pub Below : ℕ → List EnvEntry → Type 0
Below n [] = Unit
Below n (h ∷ rest) = h.env_id ≤ n

module _ {V : Type 0} where
  -- Giving the keys of the items `ps` back, from `first` on, turns the map `m` into `m₀`.
  abbrev pub Undo : Heap V → (first : ℕ) → (m m₀ : ℕ → ℕ) → List ℕ → Type 0
  Undo h first m m₀ [] = (first ≡ 0) × (m ≡ m₀)
  Undo h first m m₀ (p ∷ ps) =
      (first ≡ p)
      × (p ≢ 0)
      × (has p ps ≡ false)
      × ((it : EnvItem V) × (h p ≡ some it)
          × Undo h it.next_in_entry (update m it.key_id it.previous_item) m₀ ps)

  pub Undo-frame :
      (h g : Heap V) (first : ℕ) (m m₀ : ℕ → ℕ) (ps : List ℕ)
      → Undo h first m m₀ ps
      → ((q : ℕ) → has q ps ≡ true → g q ≡ h q)
      → Undo g first m m₀ ps
  Undo-frame h g first m m₀ [] u same = u
  Undo-frame h g first m m₀ (p ∷ ps) (a, b, c, (it, at, rest)) same = (
    a,
    b,
    c,
    (
      it,
      same p (ground arith) ∙ at,
      Undo-frame h g it.next_in_entry (update m it.key_id it.previous_item) m₀ ps rest
          (λ q i. same q (ground arith)),
    ),
  )

  -- What freeing leaves.
  record Freed (e e' : Env V) (m₀ : ℕ → ℕ) (ps : List ℕ) : Type 0 where
    map_back : e'.item_map ≡ m₀
    entries : e'.entries ≡ e.entries
    current : e'.current_env_id ≡ e.current_env_id
    heap : (q : ℕ) → has q ps ≡ false → e'.item q ≡ e.item q
    gone : (q : ℕ) → has q ps ≡ true → e'.item q ≡ none

  free_items-step :
      (fuel p : ℕ) (e : Env V) (it : EnvItem V) {r : Option (Env V)}
      → (p == 0) ≡ false
      → e.item p ≡ some it
      → free_items fuel it.next_in_entry (record e {
        item_map = update e.item_map it.key_id it.previous_item;
        item = update e.item p none;
      })
        ≡ r
      → free_items (suc fuel) p e ≡ r
  unfolding free_items
  free_items-step fuel p e it live at run = rw (live, at) run

  free_items-Freed :
      (fuel : ℕ) (e : Env V) (first : ℕ) (m₀ : ℕ → ℕ) (ps : List ℕ)
      → Undo e.item first e.item_map m₀ ps
      → length ps < fuel
      → (e' : Env V) × (free_items fuel first e ≡ some e') × Freed e e' m₀ ps
  unfolding free_items
  free_items-Freed zero e first m₀ ps u enough = absurd (omega arith)
  free_items-Freed (suc fuel) e first m₀ [] u enough = (
    e,
    rw u.0,
    record { map_back = u.1; entries = refl; current = refl; heap = λ q o. refl; gone = λ q i. cc },
  )
  free_items-Freed (suc fuel) e first m₀ (p ∷ ps) (a, b, c, (it, at, rest)) enough =
      let e₁ : Env V = record e {
        item_map = update e.item_map it.key_id it.previous_item;
        item = update e.item p none;
      } in
      let u₁ =
        Undo-frame e.item e₁.item it.next_in_entry e₁.item_map m₀ ps rest (λ q i. ground arith) in
      let (e', run, f) = free_items-Freed fuel e₁ it.next_in_entry m₀ ps u₁ (omega arith) in
      let live : (p == 0) ≡ false = ground arith in
      (
        e',
        subst (λ q. free_items (suc fuel) q e ≡ some e') (sym a)
            (free_items-step fuel p e it live at run),
        record {
          map_back = f.map_back;
          entries = f.entries;
          current = f.current;
          heap = λ q o. ground (arith, f.heap q);
          gone = λ q i. ground (arith, f.heap q, f.gone q);
        },
      )

  pub record IsValid (e : Env V) : Type 0 where
    pub below : Below e.current_env_id e.entries
    pub started : 0 < e.next_item

  -- `e` is one scope above `e₀`, in which the items `ps` were made, newest first.
  pub record InScope (e₀ e : Env V) (ps : List ℕ) : Type 0 where
    pub first : ℕ
    pub current : e.current_env_id ≡ e₀.current_env_id + 1
    pub entries :
        (e.entries ≡ record { env_id = e₀.current_env_id + 1; first_item = first } ∷ e₀.entries)
        ⊎ ((e.entries ≡ e₀.entries) × (ps ≡ []))
    pub undo : Undo e.item first e.item_map e₀.item_map ps
    pub ordered : e₀.next_item ≤ e.next_item
    pub made : (q : ℕ) → has q ps ≡ true → (e₀.next_item ≤ q) × (q < e.next_item)
    pub kept : (q : ℕ) → q < e₀.next_item → e.item q ≡ e₀.item q

  pub push_env-InScope : (e : Env V) → InScope e (push_env e) []
  unfolding push_env
  push_env-InScope e = record {
    first = 0;
    current = refl;
    entries = inr (refl, refl);
    undo = (refl, refl);
    ordered = omega arith;
    made = λ q i. cc;
    kept = λ q l. refl;
  }

  -- What `popEnv` gives back.
  pub record Restored (e₀ e' : Env V) : Type 0 where
    pub current : e'.current_env_id ≡ e₀.current_env_id
    pub entries : e'.entries ≡ e₀.entries
    pub item_map : e'.item_map ≡ e₀.item_map
    pub item : (q : ℕ) → q < e₀.next_item → e'.item q ≡ e₀.item q

  pop_env-here :
      (fuel : ℕ) (e : Env V) (first : ℕ) (rest : List EnvEntry) (n : ℕ) {e' : Env V}
      → e.entries ≡ record { env_id = n + 1; first_item = first } ∷ rest
      → e.current_env_id ≡ n + 1
      → free_items fuel first e ≡ some e'
      → pop_env fuel e
        ≡ some
            (record e' { entries = drop_head e'.entries; current_env_id = e'.current_env_id - 1 })
  unfolding pop_env free_env_entry
  pop_env-here fuel e first rest n here current run = ground arith

  pop_env-nothing :
      (fuel : ℕ) (e : Env V) (l : List EnvEntry) (n : ℕ)
      → Below n l
      → e.entries ≡ l
      → e.current_env_id ≡ n + 1
      → pop_env fuel e ≡ some (record e { current_env_id = e.current_env_id - 1 })
  unfolding pop_env
  pop_env-nothing fuel e [] n below same current = ground arith
  pop_env-nothing fuel e (h ∷ l) n below same current = ground arith

  pub Undo-nil :
      (h : Heap V) (first : ℕ) (m m₀ : ℕ → ℕ) (ps : List ℕ)
      → Undo h first m m₀ ps
      → ps ≡ []
      → m ≡ m₀
  Undo-nil h first m m₀ [] u e = u.1
  Undo-nil h first m m₀ (p ∷ ps) u e = cc

  -- In a scope whose items the fuel can count, `popEnv` does not fail, and gives back the level, the
  -- entries, the map of variables and every item made before the scope.
  pub pop_env-Restored :
      (fuel : ℕ) (e₀ e : Env V) (ps : List ℕ)
      → IsValid e₀
      → InScope e₀ e ps
      → length ps < fuel
      → (e' : Env V) × (pop_env fuel e ≡ some e') × Restored e₀ e'
  unfolding pop_env free_env_entry
  pop_env-Restored fuel e₀ e ps v s enough = elim s.entries [
    | inl here ↦
        let (e', run, f) = free_items-Freed fuel e s.first e₀.item_map ps s.undo enough in
        (
          record e' { entries = drop_head e'.entries; current_env_id = e'.current_env_id - 1 },
          pop_env-here fuel e s.first e₀.entries e₀.current_env_id here (omega (arith, s.current))
              run,
          record {
            current = omega (arith, f.current, s.current);
            entries = ap drop_head (f.entries ∙ here);
            item_map = f.map_back;
            item = λ q l. f.heap q (ground (arith, s.made q)) ∙ s.kept q l;
          },
        )
    | inr (same, none_made) ↦ (
      record e { current_env_id = e.current_env_id - 1 },
      pop_env-nothing fuel e e₀.entries e₀.current_env_id v.below same s.current,
      record {
        current = omega (arith, s.current);
        entries = same;
        item_map = Undo-nil e.item s.first e.item_map e₀.item_map ps s.undo none_made;
        item = s.kept;
      },
    )
  ]
