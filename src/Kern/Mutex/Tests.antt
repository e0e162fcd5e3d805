-- ===== src/Kern/Mutex/Tests.antt =====
-- The mutex in use by the threads 1 and 2: 1 has it, 2 waits for it.
use xemeiah.Kern.Mutex.Exclusion.{mutual_exclusion, is_locked-owns}
use xemeiah.Kern.Mutex.Handover.{Gets, waiting-Gets}
use xemeiah.Kern.Mutex.{
  checked, acquired, waiting, inside, System, init, is_locked, move, lock_check, lock_wait,
  lock_acquire, lock_owner, Reach, start, next, owns,
}
use xemeiah.Prelude.{◌≡◌, refl, arith}

abbrev checking : System
checking = move 1 checked init

abbrev taken : System
taken = move 1 acquired (record checking { holder = 1 })

abbrev locked : System
locked = move 1 inside (record taken { owner = 1 })

abbrev both : System
both = move 2 waiting (move 2 checked locked)

locked-Reach : Reach locked
unfolding init
locked-Reach =
    next
      (next (next start (lock_check 1 (omega arith) refl)) (lock_acquire 1 (omega arith) refl refl))
      (lock_owner 1 (omega arith) refl)

both-Reach : Reach both
unfolding init
both-Reach =
    next (next locked-Reach (lock_check 2 (omega arith) refl))
      (lock_wait 2 (omega arith) refl (omega arith))

mutual_exclusion_example : both.holder ≡ 1
unfolding init
mutual_exclusion_example =
    mutual_exclusion both both-Reach both.holder 1 (omega arith) (omega arith) refl refl

is_locked-owns_example : is_locked both 1 ≡ owns (both.pc 1)
is_locked-owns_example = is_locked-owns both both-Reach 1 (omega arith)

waiting-Gets_example : Gets both 2
unfolding init
waiting-Gets_example = waiting-Gets both both-Reach 2 (omega arith) refl (λ e. cc)
