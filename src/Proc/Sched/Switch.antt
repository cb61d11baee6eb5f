-- ===== src/Proc/Sched/Switch.antt =====
-- sched_switch, and the ways into and out of sleep.
use weenix_kernel.Base.{
  ℕ, ◌≡◌, ◌≢◌, inl, inr, refl, Bool, true, false, Option, none, some, List, [], ◌∷◌, ◌++◌, length,
  arith, erase, length-append, sym, ap, ◌∙◌, subst, Bool-cases,
}
use native.Mathlib.Decide.{ℕ_discrete}
use weenix_kernel.Base.Outcome.{Outcome, ok, Ends, Ends-mono, Ends-bind, ◌>>=◌, deref}
use weenix_kernel.Proc.Thread.{KtState, run, sleep, Thread, KtQueue, System, update, runq}
use weenix_kernel.Proc.Queue
use weenix_kernel.Proc.Queue.{dequeue, enqueue}
use weenix_kernel.Proc.Sched.{
  is_cancellable, pull_off, wakeup_on, wake, run_next, switch, sleep_on, fall_asleep, cancel,
  asleep, set_state, set_cancelled, make_runnable,
}
use weenix_kernel.Proc.Sched.Inv.{Inv, enqueue-Inv, set_thread-Inv, remove-Inv}
use weenix_kernel.Proc.Sched.Wake.{
  Woken, wakeup_on-Woken, Ends-ok, Dequeued, dequeue-Dequeued, make_runnable-Runnable, Runnable,
  enqueue-eq,
}

-- The thread that runs next is runnable and on no queue any more; if threads were runnable, it is
-- the one that has been so for longest, and the others keep their order.
abbrev pub Switched : System → Option System → Type 0
Switched s none = (s.queues runq).list ≡ []
Switched s (some s') =
    Inv s'
    × ((s'.threads s'.curthr).wchan ≡ none)
    × ((s'.threads s'.curthr).state ≡ run)
    × (((s.queues runq).list ≢ []) → (s.queues runq).list ≡ (s'.queues runq).list ++ s'.curthr ∷ [])

runs_next :
    (s : System) (t : ℕ) (s' : System)
    → Inv s
    → Dequeued runq s (some t, s')
    → Switched s (some (record s' { curthr = t }))
runs_next s t s' i (i', list, on, threads, others, cur) = (
  record {
    listed = i'.listed;
    located = i'.located;
    once = i'.once;
    sized = i'.sized;
    fits = i'.fits;
  },
  ap (λ (f : ℕ → Thread). (f t).wchan) threads ∙ ground arith,
  ground (arith, i.fits runq t on, ap (λ (f : ℕ → Thread). (f t).state) threads),
  λ ne. list,
)

-- On an empty run queue an interrupt handler wakes a thread of some queue, or none.
wake_any :
    (q : ℕ) (s : System) → Inv s → (s.queues runq).list ≡ [] → Ends (λ r. Inv r.1) (wakeup_on q s)
unfolding wakeup_on wake
wake_any q s i e = elim (ℕ_discrete q runq) [
  | yes same ↦ rw same (none_on_runq (dequeue runq s) (dequeue-Dequeued runq s i))
  | no ne ↦ Ends-mono (Woken q s) _ (wakeup_on q s) (woken) (wakeup_on-Woken q s i ne)
]
  where
    woken : (r : Option ℕ × System) → Woken q s r → Inv r.1
    woken (none, s') w = subst Inv (sym w.1) i
    woken (some t, s') w = w.0

    none_on_runq : (d : Option ℕ × System) → Dequeued runq s d → Ends (λ r. Inv r.1) (wake d)
    none_on_runq (none, s') w = subst Inv (sym w.1) i
    none_on_runq (some t, s') w =
        absurd
          (omega (arith, ap length e, ap length w.1, length-append (s'.queues runq).list (t ∷ [])))

run_next-Switched :
    (s : System) (wait : System → Outcome (Option System))
    → Inv s
    → ((s.queues runq).list ≡ [] → Ends (Switched s) (wait s))
    → (d : Option ℕ × System) → Dequeued runq s d
    → Ends (Switched s) (run_next d wait)
unfolding run_next
run_next-Switched s wait i w (none, s') d = rw d.1 (w d.0)
run_next-Switched s wait i w (some t, s') d = runs_next s t s' i d

-- sched_switch keeps the invariant and does not panic. It picks the thread that has been runnable
-- for longest, off every queue and in the running state; it stays in its loop only if none is.
pub switch-Switched :
    (interrupts : List ℕ) (s : System) → Inv s → Ends (Switched s) (switch interrupts s)
unfolding switch
switch-Switched [] s i =
    run_next-Switched s _ i (λ e. e) (dequeue runq s) (dequeue-Dequeued runq s i)
switch-Switched (q ∷ interrupts) s i =
    run_next-Switched s _ i
      (λ e.
        Ends-bind (λ r. Inv r.1) (Switched s) (wakeup_on q s) _ (wake_any q s i e)
          λ r i'.
            Ends-mono (Switched r.1) (Switched s) (switch interrupts r.1) (after e r.1)
              (switch-Switched interrupts r.1 i'))
      (dequeue runq s) (dequeue-Dequeued runq s i)
  where
    after :
        (s.queues runq).list ≡ [] → (s' : System) (o : Option System) → Switched s' o → Switched s o
    after e s' none h = e
    after e s' (some z) h = (h.0, h.1, h.2, λ ne. absurd (ne e))

-- Going to sleep: the running thread joins the queue at the head, behind those that wait there.
abbrev pub Asleep : KtState → ℕ → System → System → Type 0
Asleep k q s s' =
    Inv s'
    × ((s'.queues q).list ≡ s.curthr ∷ (s.queues q).list)
    × ((u : ℕ)
        → s'.threads u
          ≡ update s.threads s.curthr (record (s.threads s.curthr) { state = k; wchan = some q }) u)
    × ((p : ℕ) → p ≢ q → s'.queues p ≡ s.queues p)
    × (s'.curthr ≡ s.curthr)

pub fall_asleep-Asleep :
    (k : KtState) (q : ℕ) (s : System)
    → Inv s
    → (s.threads s.curthr).wchan ≡ none
    → asleep k ≡ true
    → q ≢ runq
    → Ends (Asleep k q s) (fall_asleep k q s)
unfolding fall_asleep
fall_asleep-Asleep k q s i free z ne =
    let s0 = set_state s.curthr k s in
    let i0 =
      set_thread-Inv s s.curthr (record (s.threads s.curthr) { state = k }) i refl (λ q e. cc) in
    let (s', e, i') =
      Ends-ok Inv (enqueue q s.curthr s0)
        (enqueue-Inv s0 q s.curthr i0 (ground arith) (ground arith)) in
    let (a, b, c, d) = enqueue-eq q s.curthr s0 s' e in
    rw e (i', a, (λ u. ground (arith, b u)), c, d)

-- A thread on no queue goes to sleep in sched_sleep_on without panic, and the next one runs.
pub sleep_on-Inv :
    (interrupts : List ℕ) (q : ℕ) (s : System)
    → Inv s
    → (s.threads s.curthr).wchan ≡ none
    → q ≢ runq
    → Ends (λ o. (s' : System) × Asleep sleep q s s' × Switched s' o) (sleep_on interrupts q s)
unfolding sleep_on
sleep_on-Inv interrupts q s i free ne =
    Ends-bind (Asleep sleep q s) _ (fall_asleep sleep q s) _
      (fall_asleep-Asleep sleep q s i free refl ne)
      λ s' a.
        Ends-mono (Switched s') _ (switch interrupts s') (λ o w. (s', a, w))
          (switch-Switched interrupts s' a.0)

-- sched_cancel of a thread in a cancellable sleep on queue `q` takes it off the queue and makes it
-- runnable; any other thread only gets its flag.
abbrev pub Cancelled : ℕ → System → Bool → System → Type 0
Cancelled t s false s' = s' ≡ set_cancelled t s
Cancelled t s true s' =
    (q : ℕ) × ((s.threads t).wchan ≡ some q)
    × ((s'.queues q).list ≡ erase t (s.queues q).list)
    × ((s'.queues runq).list ≡ t ∷ (s.queues runq).list)
    × ((u : ℕ)
        → s'.threads u
          ≡ update s.threads t
              (record (s.threads t) { state = run; cancelled = true; wchan = some runq }) u)
    × (s'.curthr ≡ s.curthr)

remove-eq :
    (q t : ℕ) (s s' : System)
    → Queue.remove q t s ≡ ok s'
    → ((s'.queues q).list ≡ erase t (s.queues q).list)
      × ((u : ℕ) → s'.threads u ≡ update s.threads t (record (s.threads t) { wchan = none }) u)
      × ((p : ℕ) → p ≢ q → s'.queues p ≡ s.queues p)
      × (s'.curthr ≡ s.curthr)
unfolding Queue.remove
remove-eq q t s s' e = (ground arith, (λ u. ground arith), (λ p ne. ground arith), ground arith)

abbrev Pulled : ℕ → ℕ → System → System → Type 0
Pulled t q s s' =
    Inv s'
    × ((s'.queues q).list ≡ erase t (s.queues q).list)
    × ((s'.queues runq).list ≡ t ∷ (s.queues runq).list)
    × ((u : ℕ)
        → s'.threads u
          ≡ update s.threads t (record (s.threads t) { state = run; wchan = some runq }) u)
    × (s'.curthr ≡ s.curthr)

pull_off-Pulled :
    (t q : ℕ) (s : System)
    → Inv s
    → (s.threads t).wchan ≡ some q
    → q ≢ runq
    → Ends (Pulled t q s) (pull_off t s q)
unfolding pull_off
pull_off-Pulled t q s i on off =
    let (s1, e1, i1) = Ends-ok _ (Queue.remove q t s) (remove-Inv s q t i on) in
    let (a1, b1, c1, d1) = remove-eq q t s s1 e1 in
    rw e1 (
      Ends-mono (Runnable t s1) _ (make_runnable t s1)
        (λ s2 i2. (
          i2.0,
          ap (λ (k : KtQueue). k.list) (i2.3 q off) ∙ a1,
          i2.1 ∙ ap (λ (k : KtQueue). t ∷ k.list) (c1 runq (λ h. off (sym h))),
          (λ u. ground (arith, i2.2 u, b1 u, b1 t)),
          i2.4 ∙ d1,
        ))
        (make_runnable-Runnable t s1 i1.0 i1.1))

-- sched_cancel of a thread on a queue keeps the invariant and does not panic: a thread in a
-- cancellable sleep leaves its queue and joins the run queue, cancelled and running; any other
-- thread is only marked cancelled, and stays where it is.
pub cancel-Inv :
    (t q : ℕ) (s : System)
    → Inv s
    → (s.threads t).wchan ≡ some q
    → Ends (λ s'. Inv s' × Cancelled t s (is_cancellable (s.threads t).state) s') (cancel t s)
unfolding cancel
cancel-Inv t q s i on =
    let i0 =
      set_thread-Inv s t (record (s.threads t) { cancelled = true }) i refl (λ p f. i.fits p t f) in
    elim (Bool-cases (is_cancellable (s.threads t).state)) [
      | inr e ↦ rw e (i0, refl)
      | inl e ↦
          let off : q ≢ runq = λ h. ground (arith, i.fits q t on) in
          rw e (
            subst
              (λ (w : Option ℕ).
                Ends (λ s'. Inv s' × Cancelled t s true s')
                  (deref w >>= λ p. pull_off t (set_cancelled t s) p))
              (sym on)
              (Ends-mono (Pulled t q (set_cancelled t s)) _ (pull_off t (set_cancelled t s) q)
                (λ s' p. (p.0, (q, on, p.1, p.2, (λ u. ground (arith, p.3 u)), p.4)))
                (pull_off-Pulled t q (set_cancelled t s) i0 (ground arith) off)))
    ]
