-- ===== src/Proc/Sched/Wake.antt =====
-- Waking threads: ktqueue_dequeue, sched_make_runnable, sched_wakeup_on and sched_broadcast_on.
use weenix_kernel.Base.{
  ℕ, ◌≡◌, ◌≢◌, inl, inr, refl, true, Option, none, some, [], ◌∷◌, ◌++◌, length, arith, has,
  Distinct, has-append, Distinct-snoc, length-append, sym, subst, unsnoc-cases, ap, ◌∙◌,
}
use weenix_kernel.Base.Outcome.{Outcome, ok, panic, Ends}
use weenix_kernel.Proc.Thread.{run, Thread, KtQueue, System, update, runq}
use weenix_kernel.Proc.Queue.{enqueue, dequeue}
use weenix_kernel.Proc.Sched.{make_runnable, wakeup_on, wake, asleep, set_state}
use weenix_kernel.Proc.Sched.Inv.{Inv, enqueue-Inv, set_thread-Inv}

-- What ktqueue_dequeue does: nothing on an empty queue, else the tail leaves.
abbrev pub Dequeued : ℕ → System → Option ℕ × System → Type 0
Dequeued q s (none, s') = ((s.queues q).list ≡ []) × (s' ≡ s)
Dequeued q s (some t, s') =
    Inv s'
    × ((s.queues q).list ≡ (s'.queues q).list ++ t ∷ [])
    × ((s.threads t).wchan ≡ some q)
    × (s'.threads ≡ update s.threads t (record (s.threads t) { wchan = none }))
    × ((p : ℕ) → p ≢ q → s'.queues p ≡ s.queues p)
    × (s'.curthr ≡ s.curthr)

pub dequeue-Dequeued : (q : ℕ) (s : System) → Inv s → Dequeued q s (dequeue q s)
unfolding dequeue
dequeue-Dequeued q s i = elim (unsnoc-cases (s.queues q).list) [
  | inl (e, u) ↦ rw u (e, refl)
  | inr (front, t, e, u) ↦
      let d = Distinct-snoc front t (subst Distinct e (i.once q)) in
      let on : has t (s.queues q).list ≡ true = rw e (has-append t front (t ∷ []) ∙ ground arith) in
      let len = ap length e ∙ length-append front (t ∷ []) in
      rw u (
        record {
          listed = λ p v h.
              ground
                (arith, i.listed p v, i.listed q t, d, ap (has v) e, has-append v front (t ∷ []));
          located =
              λ p v h. ground (arith, i.located p v, ap (has v) e, has-append v front (t ∷ []));
          once = λ p. ground (arith, i.once p, d);
          sized = λ p. ground (arith, i.sized p, i.sized q, len);
          fits = λ p v h. ground (arith, i.fits p v);
        },
        ground (arith, e),
        i.listed q t on,
        refl,
        (λ p ne. ground arith),
        refl,
      )
]

-- What sched_make_runnable does to a thread on no queue.
abbrev pub Runnable : ℕ → System → System → Type 0
Runnable t s s' =
    Inv s'
    × ((s'.queues runq).list ≡ t ∷ (s.queues runq).list)
    × ((u : ℕ)
        → s'.threads u
          ≡ update s.threads t (record (s.threads t) { state = run; wchan = some runq }) u)
    × ((p : ℕ) → p ≢ runq → s'.queues p ≡ s.queues p)
    × (s'.curthr ≡ s.curthr)

pub enqueue-eq :
    (q t : ℕ) (s s' : System)
    → enqueue q t s ≡ ok s'
    → ((s'.queues q).list ≡ t ∷ (s.queues q).list)
      × ((u : ℕ) → s'.threads u ≡ update s.threads t (record (s.threads t) { wchan = some q }) u)
      × ((p : ℕ) → p ≢ q → s'.queues p ≡ s.queues p)
      × (s'.curthr ≡ s.curthr)
unfolding enqueue
enqueue-eq q t s s' e = (ground arith, (λ u. ground arith), (λ p ne. ground arith), ground arith)

pub Ends-ok {ℓ} :
    {A : Type ℓ} (P : A → Type 0) (o : Outcome A) → Ends P o → (a : A) × (o ≡ ok a) × P a
Ends-ok P (ok a) h = (a, refl, h)
Ends-ok P panic h = absurd h

pub make_runnable-Runnable :
    (t : ℕ) (s : System)
    → Inv s
    → (s.threads t).wchan ≡ none
    → Ends (Runnable t s) (make_runnable t s)
unfolding make_runnable
make_runnable-Runnable t s i free =
    let s0 = set_state t run s in
    let i0 = set_thread-Inv s t (record (s.threads t) { state = run }) i refl (λ q e. cc) in
    let (s', e, i') =
      Ends-ok Inv (enqueue runq t s0) (enqueue-Inv s0 runq t i0 (ground arith) (ground arith)) in
    let (a, b, c, d) = enqueue-eq runq t s0 s' e in
    let eq : make_runnable t s ≡ ok s' = ground (arith, e) in
    subst (Ends (Runnable t s)) (sym eq) (i', a, (λ u. ground (arith, b u)), c, d)

-- What sched_wakeup_on does to a wait queue: nothing if it is empty; else the thread that has
-- waited longest, at the tail, becomes runnable.
abbrev pub Woken : ℕ → System → Option ℕ × System → Type 0
Woken q s (none, s') = ((s.queues q).list ≡ []) × (s' ≡ s)
Woken q s (some t, s') =
    Inv s'
    × ((s.queues q).list ≡ (s'.queues q).list ++ t ∷ [])
    × ((s'.queues runq).list ≡ t ∷ (s.queues runq).list)
    × ((u : ℕ)
        → s'.threads u
          ≡ update s.threads t (record (s.threads t) { state = run; wchan = some runq }) u)
    × ((p : ℕ) → p ≢ q → p ≢ runq → s'.queues p ≡ s.queues p)
    × (s'.curthr ≡ s.curthr)

wake-Woken :
    (q : ℕ) (s : System) (d : Option ℕ × System)
    → Inv s
    → q ≢ runq
    → Dequeued q s d
    → Ends (Woken q s) (wake d)
unfolding wake
wake-Woken q s (none, s') i ne h = h
wake-Woken q s (some t, s') i ne (i', list, on, threads, others, cur) =
    let here : s'.threads t ≡ record (s.threads t) { wchan = none } =
      ap (λ (f : ℕ → Thread). f t) threads ∙ ground arith in
    let (s'', e, made) =
      Ends-ok (Runnable t s') (make_runnable t s')
        (make_runnable-Runnable t s' i' (ap (λ (v : Thread). v.wchan) here)) in
    let awake : asleep (s'.threads t).state ≡ true = ground (arith, i.fits q t on, here) in
    rw (awake, e)
      (
        made.0,
        list ∙ ap (λ (k : KtQueue). k.list ++ t ∷ []) (sym (made.3 q ne)),
        made.1 ∙ ap (λ (k : KtQueue). t ∷ k.list) (others runq (λ h. ne (sym h))),
        (λ u. made.2 u ∙ ground (arith, ap (λ (f : ℕ → Thread). f u) threads)),
        (λ p a b. made.3 p b ∙ others p a),
        made.4 ∙ cur,
      )

-- sched_wakeup_on on a wait queue does not panic: the thread that it takes is asleep.
pub wakeup_on-Woken : (q : ℕ) (s : System) → Inv s → q ≢ runq → Ends (Woken q s) (wakeup_on q s)
unfolding wakeup_on
wakeup_on-Woken q s i ne = wake-Woken q s (dequeue q s) i ne (dequeue-Dequeued q s i)
