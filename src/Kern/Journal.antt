-- ===== src/Kern/Journal.antt =====
-- The linked journal of src/kern/journaleddocument.cpp: `appendJournal` and `appendJournalItem`, on a
-- document that is writable and locked for it. A pointer is the number of its segment, 0 is NullPtr;
-- the segment that `getFreeSegmentPtr` gives for a new item is an argument.
use xemeiah.Kern.JournalItem.{JournalItem}
use xemeiah.Prelude.{
  ℕ, ◌≡◌, refl, ◌≢◌, Bool, true, false, List, [], ◌∷◌, ◌++◌, ◌==◌, if◌then◌else◌, arith, update,
  has, Distinct, has-append, ap, sym, ◌∙◌, subst,
}

pub record Journal : Type 0 where
  pub item : ℕ → JournalItem
  pub next_journal_item : ℕ → ℕ
  pub first_alloced_journal_item : ℕ
  pub first_journal_item : ℕ
  pub last_alloced_journal_item : ℕ
  pub enabled : Bool

abbrev first_or : ℕ → ℕ → ℕ
first_or first p = if first == 0 then p else first

append_journal_item : ℕ → Journal → Journal
append_journal_item p j = record j {
  next_journal_item =
      if j.last_alloced_journal_item == 0
      then j.next_journal_item
      else update j.next_journal_item j.last_alloced_journal_item p;
  first_alloced_journal_item = first_or j.first_alloced_journal_item p;
  first_journal_item = first_or j.first_journal_item p;
  last_alloced_journal_item = p;
}

unfoldable pub append_journal : (p : ℕ) → JournalItem → Journal → Journal
unfolding append_journal_item
append_journal p item j =
    if j.enabled
    then append_journal_item p (record j {
      item = update j.item p item;
      next_journal_item = update j.next_journal_item p 0;
    })
    else j

-- From `p` the pointers lead through `xs` to the null pointer.
abbrev pub Items : (ℕ → ℕ) → ℕ → List ℕ → Type 0
Items next p [] = p ≡ 0
Items next p (x ∷ xs) = (p ≡ x) × (x ≢ 0) × Items next (next x) xs

abbrev pub last_item : ℕ → List ℕ → ℕ
last_item p [] = p
last_item p (x ∷ xs) = last_item x xs

-- The journal is the list of items, each once.
pub record Lists (j : Journal) (xs : List ℕ) : Type 0 where
  pub items : Items j.next_journal_item j.first_alloced_journal_item xs
  pub last : j.last_alloced_journal_item ≡ last_item 0 xs
  pub distinct : Distinct xs

has-last_item : (x : ℕ) (xs : List ℕ) → has (last_item x xs) (x ∷ xs) ≡ true
has-last_item x [] = ground arith
has-last_item x (y ∷ ys) = ground (arith, has-last_item y ys)

Items-frame :
    (next next' : ℕ → ℕ) (p : ℕ) (xs : List ℕ)
    → Items next p xs
    → ((x : ℕ) → has x xs ≡ true → next' x ≡ next x)
    → Items next' p xs
Items-frame next next' p [] i same = i
Items-frame next next' p (x ∷ xs) (e, ne, i) same = (
  e,
  ne,
  subst (λ q. Items next' q xs) (sym (same x (ground arith)))
      (Items-frame next next' (next x) xs i (λ y h. same y (ground arith))),
)

update-other : (f : ℕ → ℕ) (p v q : ℕ) → p ≢ q → update f p v q ≡ f q
update-other f p v q ne = ground arith

has-both : (a b : ℕ) (xs : List ℕ) → a ≡ b → has a xs ≡ true → has b xs ≡ false → false ≡ true
has-both a b xs e h k = sym k ∙ ap (λ q. has q xs) (sym e) ∙ h

bool_apart : false ≢ true
bool_apart = ground arith

-- Writing the last item's pointer adds an item whose own pointer is null.
Items-snoc :
    (next : ℕ → ℕ) (p x : ℕ) (xs : List ℕ) (new : ℕ)
    → Items next p (x ∷ xs)
    → Distinct (x ∷ xs)
    → new ≢ 0
    → has new (x ∷ xs) ≡ false
    → next new ≡ 0
    → Items (update next (last_item x xs) new) p ((x ∷ xs) ++ new ∷ [])
Items-snoc next p x [] new (e, ne, i) d new_ne fresh null =
    (e, ne, (ground arith, new_ne, ground arith))
Items-snoc next p x (y ∷ ys) new (e, ne, i) (once, d) new_ne fresh null =
    let later = Items-snoc next (next x) y ys new i d new_ne (ground arith) null in
    let inside = has-last_item y ys in
    let apart : last_item y ys ≢ x =
      λ same. bool_apart (has-both (last_item y ys) x (y ∷ ys) same inside once) in
    let kept : update next (last_item y ys) new x ≡ next x =
      update-other next (last_item y ys) new x apart in
    (
      e,
      ne,
      subst (λ q. Items (update next (last_item y ys) new) q ((y ∷ ys) ++ new ∷ [])) (sym kept)
          later,
    )

Distinct-snoc :
    (xs : List ℕ) (new : ℕ) → Distinct xs → has new xs ≡ false → Distinct (xs ++ new ∷ [])
Distinct-snoc [] new d fresh = (refl, tt)
Distinct-snoc (x ∷ xs) new (once, d) fresh =
    (ground (arith, has-append x xs (new ∷ [])), Distinct-snoc xs new d (ground arith))

last_item-ne : (next : ℕ → ℕ) (p x : ℕ) (xs : List ℕ) → Items next p (x ∷ xs) → last_item x xs ≢ 0
last_item-ne next p x [] (e, ne, i) = ne
last_item-ne next p x (y ∷ ys) (e, ne, i) = last_item-ne next (next x) y ys i

-- The pointers that `appendJournal` leaves.
next_after : ℕ → Journal → ℕ → ℕ
next_after p j =
    if j.last_alloced_journal_item == 0
    then update j.next_journal_item p 0
    else update (update j.next_journal_item p 0) j.last_alloced_journal_item p

Items-after :
    (p : ℕ) (j : Journal) (x : ℕ) (xs : List ℕ)
    → Lists j (x ∷ xs)
    → p ≢ 0
    → has p (x ∷ xs) ≡ false
    → Items (next_after p j) (first_or j.first_alloced_journal_item p) ((x ∷ xs) ++ p ∷ [])
unfolding next_after
Items-after p j x xs l ne fresh =
    let cleared : ℕ → ℕ = update j.next_journal_item p 0 in
    let same =
      Items-frame j.next_journal_item cleared j.first_alloced_journal_item (x ∷ xs) l.items (λ y h.
        update-other j.next_journal_item p 0 y
          (λ e. bool_apart (has-both y p (x ∷ xs) (sym e) h fresh))) in
    let null : cleared p ≡ 0 = ground arith in
    let more =
      Items-snoc cleared j.first_alloced_journal_item x xs p same l.distinct ne fresh null in
    let some_last = last_item-ne j.next_journal_item j.first_alloced_journal_item x xs l.items in
    let test : (last_item x xs == 0) ≡ false = ground arith in
    let first : first_or j.first_alloced_journal_item p ≡ j.first_alloced_journal_item =
      ground (arith, l.items.0, l.items.1) in
    let shape : next_after p j ≡ update cleared (last_item x xs) p =
      rw (next_after, l.last, test) refl in
    subst (λ n. Items n (first_or j.first_alloced_journal_item p) ((x ∷ xs) ++ p ∷ [])) (sym shape)
      (subst (λ q. Items (update cleared (last_item x xs) p) q ((x ∷ xs) ++ p ∷ [])) (sym first)
        more)

last_item-snoc : (a : ℕ) (xs : List ℕ) (p : ℕ) → p ≡ last_item a (xs ++ p ∷ [])
last_item-snoc a [] p = refl
last_item-snoc a (x ∷ xs) p = last_item-snoc x xs p

-- With a new segment for the item, `appendJournal` on an enabled journal adds the item behind the
-- others, leaves the contents of the others alone, and moves the first item only if there was none.
pub append_journal-Lists :
    (p : ℕ) (item : JournalItem) (j : Journal) (xs : List ℕ)
    → Lists j xs
    → j.enabled ≡ true
    → p ≢ 0
    → has p xs ≡ false
    → Lists (append_journal p item j) (xs ++ p ∷ [])
      × ((append_journal p item j).item ≡ update j.item p item)
      × ((append_journal p item j).first_journal_item
          ≡ (if j.first_journal_item == 0 then p else j.first_journal_item))
unfolding append_journal append_journal_item next_after
append_journal-Lists p item j [] l on ne fresh = rw on (
  record {
    items = (ground (arith, l.items), ne, ground (arith, l.last));
    last = refl;
    distinct = Distinct-snoc [] p l.distinct fresh;
  },
  refl,
  refl,
)
append_journal-Lists p item j (x ∷ xs) l on ne fresh = rw on (
  record {
    items = Items-after p j x xs l ne fresh;
    last = last_item-snoc 0 (x ∷ xs) p;
    distinct = Distinct-snoc (x ∷ xs) p l.distinct fresh;
  },
  refl,
  refl,
)
