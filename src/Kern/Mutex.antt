-- ===== src/Kern/Mutex.antt =====
-- `Mutex` of src/kern/mutex.hpp, used by any number of threads whose steps interleave. A thread is
-- its pthread_self(), not 0; `holder` is the thread that holds the pthread mutex, 0 for none, which
-- POSIX gives to a thread only when no other holds it. One step is one access to the shared fields.
pub mod Exclusion
pub mod Handover
mod Tests
use xemeiah.Prelude.{
  ℕ, ◌≡◌, refl, ◌≢◌, Bool, true, false, ◌==◌, if◌then◌else◌, arith, update, ap, sym, ◌∙◌,
  Bool-cases, inl, inr,
}

-- Where a thread is in `lock` and `unlock`; a failed AssertBug ends its run, as `stuck` if it was
-- inside the two. Where it ends the whole process, the runs are the beginnings of these.
pub data Pc : Type 0 where
  outside checked waiting acquired inside unlocking releasing failed stuck : Pc

abbrev pub fail_at : Pc → Pc
fail_at inside = stuck
fail_at pc = failed

pub record System : Type 0 where
  pub holder : ℕ
  pub owner : ℕ
  pub pc : ℕ → Pc

unfoldable pub init : System
init = record { holder = 0; owner = 0; pc = λ i. outside }

abbrev pub is_locked : System → ℕ → Bool
is_locked s i = s.owner == i

-- The caller may call `lock` and `unlock` wherever it is outside of the two.
abbrev pub may_call : Pc → Bool
may_call outside = true
may_call inside = true
may_call pc = false

abbrev pub may_acquire : Pc → Bool
may_acquire checked = true
may_acquire waiting = true
may_acquire pc = false

abbrev pub move : ℕ → Pc → System → System
move i pc s = record s { pc = update s.pc i pc }

-- `lock` checks the owner, tries the pthread mutex or waits for it, and writes the owner; `unlock`
-- checks the owner, clears it and releases the pthread mutex.
pub data Step (s : System) : System → Type 0 where
  lock_check :
      (i : ℕ)
      → i ≢ 0
      → may_call (s.pc i) ≡ true
      → Step s (move i (if is_locked s i then fail_at (s.pc i) else checked) s)
  lock_wait : (i : ℕ) → i ≢ 0 → s.pc i ≡ checked → s.holder ≢ 0 → Step s (move i waiting s)
  lock_acquire :
      (i : ℕ)
      → i ≢ 0
      → may_acquire (s.pc i) ≡ true
      → s.holder ≡ 0
      → Step s (move i acquired (record s { holder = i }))
  lock_owner : (i : ℕ) → i ≢ 0 → s.pc i ≡ acquired → Step s (move i inside (record s { owner = i }))
  unlock_check :
      (i : ℕ)
      → i ≢ 0
      → may_call (s.pc i) ≡ true
      → Step s (move i (if is_locked s i then unlocking else fail_at (s.pc i)) s)
  unlock_owner :
      (i : ℕ) → i ≢ 0 → s.pc i ≡ unlocking → Step s (move i releasing (record s { owner = 0 }))
  unlock_release :
      (i : ℕ) → i ≢ 0 → s.pc i ≡ releasing → Step s (move i outside (record s { holder = 0 }))

pub data Reach : System → Type 0 where
  start : Reach init
  next : {s t : System} → Reach s → Step s t → Reach t

-- Does a thread hold the pthread mutex there? Is the owner the thread there?
abbrev pub holds : Pc → Bool
holds acquired = true
holds inside = true
holds unlocking = true
holds releasing = true
holds stuck = true
holds pc = false

abbrev pub owns : Pc → Bool
owns inside = true
owns unlocking = true
owns stuck = true
owns pc = false
