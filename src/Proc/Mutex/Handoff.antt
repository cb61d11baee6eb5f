-- ===== src/Proc/Mutex/Handoff.antt =====
-- Who holds the mutex: the waiters get it in the order in which they came, and a waiter that is
-- cancelled brings the kernel down.
use weenix_kernel.Base.{
  ℕ, ◌≡◌, ◌≢◌, ◌⊎◌, ◌↔◌, inl, inr, refl, true, false, Option, none, some, List, [], ◌∷◌, ◌++◌,
  arith, Distinct, Distinct-snoc, has, has-append, sym, ap, ◌∙◌, subst, Bool-cases, Option-cases,
}
use weenix_kernel.Base.Outcome.{ok, panic, Ends, Ends-mono, Ends-bind, ◌>>=◌}
use weenix_kernel.Proc.Thread.{run, sleep, sleep_cancellable, Thread, System, runq}
use weenix_kernel.Proc.Sched.{is_cancellable, sleep_on, wakeup_on, cancel, interrupted}
use weenix_kernel.Proc.Sched.Inv.{Inv}
use weenix_kernel.Proc.Sched.Wake.{Woken, wakeup_on-Woken}
use weenix_kernel.Proc.Sched.Switch.{Asleep, Switched, sleep_on-Inv, cancel-Inv, Cancelled}
use weenix_kernel.Proc.Mutex.{
  Mutex, held_by, is_empty, lock, unlock, hand_over, eintr, lock_cancellable_resume,
  locked_or_cancelled,
}

-- A free mutex has no waiters, and the holder does not wait.
pub record MutexInv (m : Mutex) (s : System) : Type 0 where
  pub own_queue : m.waitq ≢ runq
  pub idle : m.holder ≡ none → (s.queues m.waitq).list ≡ []
  pub apart : (h : ℕ) → m.holder ≡ some h → has h (s.queues m.waitq).list ≡ false

-- What kmutex_lock does: it takes a free mutex, or the thread goes to sleep behind the waiters.
abbrev pub Locked : Mutex → System → Mutex × Option System → Type 0
Locked m s (m', o) =
    ((m.holder ≡ none) × (m'.holder ≡ some s.curthr) × (o ≡ some s) × MutexInv m' s)
    ⊎ ((h : ℕ) × (m.holder ≡ some h)
        × (m' ≡ m)
        × ((s' : System) × Asleep sleep m.waitq s s' × Switched s' o × MutexInv m s'))

-- kmutex_lock by a thread that is on no queue and does not hold the mutex passes its assertion: if
-- the mutex is free the thread holds it and runs on, and if not the thread goes to sleep at the
-- end of the line while the holder stays; a free mutex has no waiters, and the holder is none.
pub lock-Locked :
    (interrupts : List ℕ) (m : Mutex) (s : System)
    → Inv s
    → MutexInv m s
    → (s.threads s.curthr).wchan ≡ none
    → m.holder ≢ some s.curthr
    → Ends (Locked m s) (lock interrupts m s)
unfolding lock
lock-Locked interrupts m s i v free ne = elim (Option-cases m.holder) [
  | inl e ↦
      let eq : lock interrupts m s ≡ ok (record m { holder = some s.curthr }, some s) =
        ground arith in
      subst (Ends (Locked m s)) (sym eq) (inl (e, refl, refl, takes-MutexInv e))
  | inr (h, e) ↦
      let eq : lock interrupts m s ≡ (sleep_on interrupts m.waitq s >>= λ o. ok (m, o)) =
        ground arith in
      subst (Ends (Locked m s)) (sym eq) (
        Ends-bind _ (Locked m s) (sleep_on interrupts m.waitq s) _
          (sleep_on-Inv interrupts m.waitq s i free v.own_queue)
          (λ o (s', a, w). inr (h, e, refl, (s', a, w, waits-MutexInv h e s' a))))
]
  where
    takes-MutexInv : m.holder ≡ none → MutexInv (record m { holder = some s.curthr }) s
    takes-MutexInv e = record {
      own_queue = v.own_queue;
      idle = λ c. cc;
      apart = λ h c. ap (has h) (v.idle e);
    }

    waits-MutexInv :
        (h : ℕ) → m.holder ≡ some h → (s' : System) → Asleep sleep m.waitq s s' → MutexInv m s'
    waits-MutexInv h e s' a = record {
      own_queue = v.own_queue;
      idle = λ c. cc;
      apart = λ h' c. ground (arith, ap (has h') a.1, v.apart h');
    }

-- What kmutex_unlock does.
abbrev pub Unlocked : Mutex → System → Mutex × System → Type 0
Unlocked m s (m', s') =
    Inv s'
    × MutexInv m' s'
    × (s'.curthr ≡ s.curthr)
    × ((((s.queues m.waitq).list ≡ []) × (m'.holder ≡ none) × (s' ≡ s))
        ⊎ ((t : ℕ) × ((s.queues m.waitq).list ≡ (s'.queues m.waitq).list ++ t ∷ [])
            × (m'.holder ≡ some t)
            × ((s'.queues runq).list ≡ t ∷ (s.queues runq).list)
            × ((s'.threads t).state ≡ run)))

is_empty-nil : (m : List ℕ) → is_empty m ≡ true → m ≡ []
is_empty-nil [] e = refl
is_empty-nil (x ∷ r) e = cc

module _ (m : Mutex) (s : System) (i : Inv s) (v : MutexInv m s) where
  wakes_waiter :
      is_empty (s.queues m.waitq).list ≡ false
      → (w : Option ℕ × System) → Woken m.waitq s w
      → Unlocked m s (record m { holder = w.0 }, w.1)
  wakes_waiter ne (none, s') w = ground (arith, ap is_empty w.0)
  wakes_waiter ne (some t, s') w =
      let d = Distinct-snoc (s'.queues m.waitq).list t (subst Distinct w.1 (i.once m.waitq)) in
      (
        w.0,
        record { own_queue = v.own_queue; idle = λ c. cc; apart = λ h c. ground (arith, d.1) },
        w.5,
        inr (t, w.1, refl, w.2, ap (λ (u : Thread). u.state) (w.3 t) ∙ ground arith),
      )

  hand_over-Unlocked : Ends (Unlocked m s) (hand_over m s)
  unfolding hand_over
  hand_over-Unlocked = elim (Bool-cases (is_empty (s.queues m.waitq).list)) [
    | inl e ↦ rw e (
      i,
      record { own_queue = v.own_queue; idle = λ c. is_empty-nil _ e; apart = λ h c. cc },
      refl,
      inl (is_empty-nil _ e, refl, refl),
    )
    | inr e ↦ rw e (
        Ends-bind (Woken m.waitq s) (Unlocked m s) (wakeup_on m.waitq s) _
          (wakeup_on-Woken m.waitq s i v.own_queue) (wakes_waiter e))
  ]

  -- The thread that unlocks is no longer the holder.
  gave_up :
      m.holder ≡ some s.curthr
      → (d : Mutex × System) → Unlocked m s d
      → held_by d.1.curthr d.0 ≡ false
  gave_up h (m', s') (i', v', cur, inl (e, n, same)) = ground arith
  gave_up h (m', s') (i', v', cur, inr (t, e, n, r, z)) = ground (
    arith,
    v.apart s.curthr,
    ap (has s.curthr) e,
    has-append s.curthr (s'.queues m.waitq).list (t ∷ []),
  )

-- kmutex_unlock by the holder does not panic: with no waiter the mutex becomes free, and otherwise
-- the thread that has waited longest holds it and is runnable; the mutex is in order afterwards.
pub unlock-Unlocked :
    (m : Mutex) (s : System)
    → Inv s
    → MutexInv m s
    → m.holder ≡ some s.curthr
    → Ends (Unlocked m s) (unlock m s)
unfolding unlock
unlock-Unlocked m s i v h =
    let mine : held_by s.curthr m ≡ true = ground arith in
    rw mine (
      Ends-bind (Unlocked m s) (Unlocked m s) (hand_over m s) _ (hand_over-Unlocked m s i v)
        λ d u. rw (gave_up m s i v h d u) u)

unlock-panic : (m : Mutex) (s : System) → m.holder ≢ some s.curthr → unlock m s ≡ panic
unfolding unlock
unlock-panic m s ne = ground arith

-- A thread that runs again after kmutex_lock_cancellable put it to sleep panics exactly when it
-- was cancelled and the mutex was not handed to it: it unlocks a mutex that it does not hold.
lock_cancellable_resume-panic :
    (m : Mutex) (s : System)
    → Inv s
    → MutexInv m s
    → (lock_cancellable_resume m s ≡ panic) ↔ ((interrupted s ≡ true) × (m.holder ≢ some s.curthr))
unfolding lock_cancellable_resume locked_or_cancelled
lock_cancellable_resume-panic m s i v = elim (Bool-cases (interrupted s)) [
  | inl e ↦ rw e ((λ p. (refl, λ h. holder_unlocks h p)), λ (t, ne). rw (unlock-panic m s ne))
  | inr e ↦ rw e ((λ p. cc), λ (t, ne). cc)
]
  where
    holder_unlocks :
        m.holder ≡ some s.curthr → (unlock m s >>= λ done. ok (eintr done.0 done.1)) ≡ panic → ⊥
    holder_unlocks h p = subst (Ends (λ _. Unit {0})) p (
        Ends-bind (Unlocked m s) (λ _. Unit {0}) (unlock m s) (λ done. ok (eintr done.0 done.1))
          (unlock-Unlocked m s i v h) (λ d u. tt))

-- While another thread holds the mutex, sched_cancel of a thread that sleeps in
-- kmutex_lock_cancellable leads to a panic: as soon as that thread runs, whatever runs before it
-- that leaves the flag and the holder, its kmutex_unlock fails the assertion.
pub cancelled_waiter_panics :
    (m : Mutex) (s : System) (t : ℕ)
    → Inv s
    → MutexInv m s
    → (s.threads t).wchan ≡ some m.waitq
    → (s.threads t).state ≡ sleep_cancellable
    → Ends
        (λ s'.
          (m' : Mutex) (z : System)
          → m'.holder ≡ m.holder
          → (z.threads t).cancelled ≡ (s'.threads t).cancelled
          → z.curthr ≡ t
          → lock_cancellable_resume m' z ≡ panic)
        (cancel t s)
unfolding lock_cancellable_resume locked_or_cancelled interrupted
cancelled_waiter_panics m s t i v on asleep =
    Ends-mono _ _ (cancel t s)
      (λ s' c m' z same flag cur.
        let on_queue = i.located m.waitq t on in
        let other : m'.holder ≢ some z.curthr = λ h. ground (arith, v.apart t, same, cur) in
        let done = subst (λ k. Cancelled t s (is_cancellable k) s') asleep c.1 in
        let was : interrupted z ≡ true =
          ap (λ (k : ℕ). (z.threads k).cancelled) cur
          ∙ flag
          ∙ ap (λ (u : Thread). u.cancelled) (done.4 t)
          ∙ ground arith in
        rw was (rw (unlock-panic m' z other)))
      (cancel-Inv t m.waitq s i on)
