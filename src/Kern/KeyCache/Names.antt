-- ===== src/Kern/KeyCache/Names.antt =====
-- Names and their colons.
use xemeiah.Kern.KeyCache.{
  Name, after_colon, before_colon, is_letter, is_inner, all_inner, is_valid,
}
use xemeiah.Prelude.{◌≡◌, refl, true, false, [], ◌∷◌, ◌++◌, none, some, arith, has}

all_inner-colon : (name : Name) → all_inner name ≡ true → has 58 name ≡ false
unfolding all_inner is_inner is_letter
all_inner-colon [] h = refl
all_inner-colon (c ∷ name) h = ground (arith, all_inner-colon name)

pub is_valid-colon : (name : Name) → is_valid name ≡ true → has 58 name ≡ false
unfolding is_valid
is_valid-colon [] h = refl
is_valid-colon (c ∷ name) h = ground (arith, all_inner-colon (c ∷ name))

pub after_colon-none : (name : Name) → has 58 name ≡ false → after_colon name ≡ none
unfolding after_colon
after_colon-none [] h = refl
after_colon-none (c ∷ name) h = ground (arith, after_colon-none name)

pub after_colon-append :
    (prefix name : Name) → has 58 prefix ≡ false → after_colon (prefix ++ (58 ∷ name)) ≡ some name
unfolding after_colon
after_colon-append [] name h = refl
after_colon-append (c ∷ prefix) name h = ground (arith, after_colon-append prefix name)

pub before_colon-append :
    (prefix name : Name) → has 58 prefix ≡ false → before_colon (prefix ++ (58 ∷ name)) ≡ prefix
unfolding before_colon
before_colon-append [] name h = refl
before_colon-append (c ∷ prefix) name h = ground (arith, before_colon-append prefix name)
