-- ===== src/Kern/Mutex/Handover.antt =====
-- A waiting thread can be given the mutex.
use xemeiah.Kern.Mutex.Exclusion.{Reach-IsValid, may_acquire-free}
use xemeiah.Kern.Mutex.{
  Pc, fail_at, outside, checked, waiting, acquired, inside, unlocking, releasing, failed, stuck,
  System, is_locked, may_acquire, move, Step, lock_acquire, lock_owner, unlock_check, unlock_owner,
  unlock_release, Reach, holds,
}
use xemeiah.Prelude.{
  ℕ, Bool, if◌then◌else◌, subst, ◌≡◌, refl, ◌≢◌, true, ◌==◌, arith, Bool-cases, inl, inr,
}

-- Any number of steps.
pub data Steps : System → System → Type 0 where
  done : {s : System} → Steps s s
  more : {s t u : System} → Step s t → Steps t u → Steps s u

-- The thread can come to hold the mutex.
abbrev pub Gets : System → ℕ → Type 0
Gets s i = (t : System) × Steps s t × (t.pc i ≡ acquired)

step-Gets : {s t : System} {i : ℕ} → Step s t → Gets t i → Gets s i
step-Gets step (u, steps, at) = (u, more step steps, at)

module _ (i : ℕ) (ne : i ≢ 0) where
  from_free : (s : System) → may_acquire (s.pc i) ≡ true → s.holder ≡ 0 → Gets s i
  from_free s c free = (
    move i acquired (record s { holder = i }),
    more (lock_acquire i ne c free) done,
    ground arith,
  )

  apart : (s : System) (h : ℕ) → may_acquire (s.pc i) ≡ true → holds (s.pc h) ≡ true → h ≢ i
  apart s h c held e = ground (arith, may_acquire-free (s.pc i) c)

  from_releasing :
      (s : System) (h : ℕ) → h ≢ 0 → may_acquire (s.pc i) ≡ true → s.pc h ≡ releasing → Gets s i
  from_releasing s h hne c at =
      let other = apart s h c (rw at refl) in
      step-Gets (unlock_release h hne at)
        (from_free (move h outside (record s { holder = 0 })) (ground arith) refl)

  from_unlocking :
      (s : System) (h : ℕ) → h ≢ 0 → may_acquire (s.pc i) ≡ true → s.pc h ≡ unlocking → Gets s i
  from_unlocking s h hne c at =
      let other = apart s h c (rw at refl) in
      step-Gets (unlock_owner h hne at) (
        from_releasing (move h releasing (record s { owner = 0 })) h hne (ground arith)
          (ground arith))

  from_inside :
      (s : System) (h : ℕ)
      → h ≢ 0
      → may_acquire (s.pc i) ≡ true
      → s.pc h ≡ inside
      → is_locked s h ≡ true
      → Gets s i
  from_inside s h hne c at mine =
      let other = apart s h c (rw at refl) in
      step-Gets
        (subst (λ (b : Bool). Step s (move h (if b then unlocking else fail_at (s.pc h)) s)) mine
          (unlock_check h hne (rw at refl)))
        (from_unlocking (move h unlocking s) h hne (ground arith) (ground arith))

  from_acquired :
      (s : System) (h : ℕ) → h ≢ 0 → may_acquire (s.pc i) ≡ true → s.pc h ≡ acquired → Gets s i
  from_acquired s h hne c at =
      let other = apart s h c (rw at refl) in
      step-Gets (lock_owner h hne at) (
        from_inside (move h inside (record s { owner = h })) h hne (ground arith) (ground arith)
          (ground arith))

  from_held :
      (s : System) (h : ℕ) (pc : Pc)
      → h ≢ 0
      → may_acquire (s.pc i) ≡ true
      → s.pc h ≡ pc
      → holds pc ≡ true
      → pc ≢ stuck
      → (pc ≡ inside → is_locked s h ≡ true)
      → Gets s i
  from_held s h acquired hne c at held free mine = from_acquired s h hne c at
  from_held s h inside hne c at held free mine = from_inside s h hne c at (mine refl)
  from_held s h unlocking hne c at held free mine = from_unlocking s h hne c at
  from_held s h releasing hne c at held free mine = from_releasing s h hne c at
  from_held s h stuck hne c at held free mine = absurd (free refl)
  from_held s h outside hne c at held free mine = cc
  from_held s h checked hne c at held free mine = cc
  from_held s h waiting hne c at held free mine = cc
  from_held s h failed hne c at held free mine = cc

-- In a reachable state a thread that has passed the check of `lock` can get the mutex, unless the
-- thread that holds it is stuck in a check that failed.
pub waiting-Gets :
    (s : System)
    → Reach s
    → (i : ℕ) → i ≢ 0
    → may_acquire (s.pc i) ≡ true
    → s.pc s.holder ≢ stuck
    → Gets s i
waiting-Gets s r i ne c free =
    let v = Reach-IsValid r in
    elim (Bool-cases (s.holder == 0)) [
      | inl none_holds ↦ from_free i ne s c (ground arith)
      | inr held ↦
          let hne : s.holder ≢ 0 = ground arith in
          from_held i ne s s.holder (s.pc s.holder) hne c refl (v.holder_holds s.holder hne refl)
            free (λ e. ground (arith, v.owned s.holder hne))
    ]
