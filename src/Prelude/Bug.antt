-- ===== src/Prelude/Bug.antt =====
-- `AssertBug` and `Bug` of include/Xemeiah/log.h, in the builds that define PARANOID: a failed check
-- stops the program, which is `none`.
use mathlib.Core.Bool.{Bool, true, false}
use mathlib.Core.Option.{Option, none, some}
use mathlib.Core.Path.{◌≡◌}
use native.Mathlib.Omega.{arith}

module _ {ℓ} {A : Type ℓ} where
  unfoldable pub assert_bug : Bool → Option A → Option A
  assert_bug true rest = rest
  assert_bug false rest = none

  -- A run that ends went through its checks.
  pub assert_bug-eq-some :
      (b : Bool) (m : Option A) {a : A} → assert_bug b m ≡ some a → (b ≡ true) × (m ≡ some a)
  unfolding assert_bug
  assert_bug-eq-some b m h = ground arith

  pub assert_bug-true : {b : Bool} (m : Option A) → b ≡ true → assert_bug b m ≡ m
  unfolding assert_bug
  assert_bug-true m h = ground arith
