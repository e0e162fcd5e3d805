-- ===== src/Kern/Mutex/Exclusion.antt =====
-- What holds of a mutex in every reachable state.
use xemeiah.Kern.Mutex.{
  Pc, checked, waiting, unlocking, fail_at, System, init, is_locked, may_call, may_acquire, move,
  Step, lock_check, lock_wait, lock_acquire, lock_owner, unlock_check, unlock_owner, unlock_release,
  Reach, start, next, holds, owns,
}
use xemeiah.Prelude.{ℕ, ◌≡◌, ◌≢◌, true, false, arith, sym, ◌∙◌, Bool-cases, inl, inr}

pub record IsValid (s : System) : Type 0 where
  pub held : (i : ℕ) → i ≢ 0 → holds (s.pc i) ≡ true → s.holder ≡ i
  pub holder_holds : (i : ℕ) → i ≢ 0 → s.holder ≡ i → holds (s.pc i) ≡ true
  pub owned : (i : ℕ) → i ≢ 0 → owns (s.pc i) ≡ true → s.owner ≡ i
  pub owner_owns : (i : ℕ) → i ≢ 0 → s.owner ≡ i → owns (s.pc i) ≡ true

pub init-IsValid : IsValid init
unfolding init
init-IsValid = record {
  held = λ i ne h. cc;
  holder_holds = λ i ne h. absurd (ne (sym h));
  owned = λ i ne h. cc;
  owner_owns = λ i ne h. absurd (ne (sym h));
}

-- One thread moves to a place with the same claims, and nothing else changes.
move-IsValid :
    (s : System) (i : ℕ) (pc : Pc)
    → IsValid s
    → holds pc ≡ holds (s.pc i)
    → owns pc ≡ owns (s.pc i)
    → IsValid (move i pc s)
move-IsValid s i pc v h o = record {
  held = λ j ne q. v.held j ne (ground arith);
  holder_holds = λ j ne q. ground (arith, v.holder_holds j ne q);
  owned = λ j ne q. v.owned j ne (ground arith);
  owner_owns = λ j ne q. ground (arith, v.owner_owns j ne q);
}

fail_at-same :
    (pc : Pc)
    → may_call pc ≡ true
    → (holds (fail_at pc) ≡ holds pc) × (owns (fail_at pc) ≡ owns pc) × (holds pc ≡ owns pc)
fail_at-same pc c = ground arith

not_owner : (s : System) (i : ℕ) → IsValid s → i ≢ 0 → is_locked s i ≡ false → owns (s.pc i) ≡ false
not_owner s i v ne other = elim (Bool-cases (owns (s.pc i))) [
  | inl e ↦ absurd (ground (arith, v.owned i ne e))
  | inr e ↦ e
]

is_owner : (s : System) (i : ℕ) → IsValid s → i ≢ 0 → is_locked s i ≡ true → owns (s.pc i) ≡ true
is_owner s i v ne mine = v.owner_owns i ne (ground arith)

pub may_acquire-free : (pc : Pc) → may_acquire pc ≡ true → (holds pc ≡ false) × (owns pc ≡ false)
may_acquire-free pc c = ground arith

pub owns-holds : (pc : Pc) → owns pc ≡ true → holds pc ≡ true
owns-holds pc c = ground arith

Step-IsValid : {s t : System} → Step s t → IsValid s → IsValid t
Step-IsValid {s = s} (lock_check i ne c) v =
    let (h, o, same) = fail_at-same (s.pc i) c in
    elim (Bool-cases (is_locked s i)) [
      | inl mine ↦ rw mine (move-IsValid s i (fail_at (s.pc i)) v h o)
      | inr other ↦
          let free = not_owner s i v ne other in
          rw other (move-IsValid s i checked v (sym (same ∙ free)) (sym free))
    ]
Step-IsValid {s = s} (lock_wait i ne c h) v =
    move-IsValid s i waiting v (ground arith) (ground arith)
Step-IsValid {s = s} (lock_acquire i ne c h) v =
    let (no_hold, no_own) = may_acquire-free (s.pc i) c in
    record {
      held = λ j jne q. ground (arith, v.held j jne);
      holder_holds = λ j jne q. ground arith;
      owned = λ j jne q. ground (arith, v.owned j jne);
      owner_owns = λ j jne q. ground (arith, v.owner_owns j jne q);
    }
Step-IsValid {s = s} (lock_owner i ne c) v = record {
  held = λ j jne q. ground (arith, v.held j jne, v.held i ne);
  holder_holds = λ j jne q. ground (arith, v.holder_holds j jne q);
  owned = λ j jne q. ground (arith, v.held j jne, v.held i ne, owns-holds (s.pc j));
  owner_owns = λ j jne q. ground arith;
}
Step-IsValid {s = s} (unlock_check i ne c) v =
    let (h, o, same) = fail_at-same (s.pc i) c in
    elim (Bool-cases (is_locked s i)) [
      | inl mine ↦
          let owned = is_owner s i v ne mine in
          rw mine (move-IsValid s i unlocking v (sym (same ∙ owned)) (sym owned))
      | inr other ↦ rw other (move-IsValid s i (fail_at (s.pc i)) v h o)
    ]
Step-IsValid {s = s} (unlock_owner i ne c) v = record {
  held = λ j jne q. ground (arith, v.held j jne, v.held i ne);
  holder_holds = λ j jne q. ground (arith, v.holder_holds j jne q);
  owned = λ j jne q. ground (arith, v.owned j jne, v.owned i ne);
  owner_owns = λ j jne q. absurd (jne (sym q));
}
Step-IsValid {s = s} (unlock_release i ne c) v = record {
  held = λ j jne q. ground (arith, v.held j jne, v.held i ne);
  holder_holds = λ j jne q. absurd (jne (sym q));
  owned = λ j jne q. ground (arith, v.owned j jne);
  owner_owns = λ j jne q. ground (arith, v.owner_owns j jne q);
}

pub Reach-IsValid : {s : System} → Reach s → IsValid s
Reach-IsValid start = init-IsValid
Reach-IsValid (next r step) = Step-IsValid step (Reach-IsValid r)

-- In a reachable state no two threads hold the mutex: neither between the two calls nor within them.
pub mutual_exclusion :
    (s : System)
    → Reach s
    → (i j : ℕ) → i ≢ 0
    → j ≢ 0
    → holds (s.pc i) ≡ true
    → holds (s.pc j) ≡ true
    → i ≡ j
mutual_exclusion s r i j ine jne hi hj =
    let v = Reach-IsValid r in sym (v.held i ine hi) ∙ v.held j jne hj

-- In a reachable state `isLocked` tells a thread whether it is between `lock` and `unlock`, so the
-- check of `lock` fails just for a thread that is, and the check of `unlock` for one that is not.
pub is_locked-owns : (s : System) → Reach s → (i : ℕ) → i ≢ 0 → is_locked s i ≡ owns (s.pc i)
is_locked-owns s r i ne =
    let v = Reach-IsValid r in
    elim (Bool-cases (is_locked s i)) [
      | inl mine ↦ mine ∙ sym (is_owner s i v ne mine)
      | inr other ↦ other ∙ sym (not_owner s i v ne other)
    ]
