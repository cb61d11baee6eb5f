-- ===== src/Proc/Kill/Marked.antt =====
-- kthread_cancel of kernel/proc/kthread.c for a thread that does not run: what is set and
-- sched_cancel, with the scheduler's invariant and the queues of the sleepers.
use weenix_kernel.Base.{
  ℕ, ◌≡◌, inl, inr, refl, true, false, ◌||◌, some, has, arith, ◌==◌, ==_iff, clash, if◌then◌else◌,
  ap, sym, subst, ◌∙◌, Bool-cases, Distinct, length, ◌%◌, u32_mod,
}
use weenix_kernel.Base.Outcome.{Ends, Ends-mono}
use weenix_kernel.Proc.Thread.{KtQueue, Thread, System}
use weenix_kernel.Proc.Sched.{cancel, is_cancellable, set_cancelled}
use weenix_kernel.Proc.Sched.Inv.{Inv, fits_queue}
use weenix_kernel.Proc.Sched.Switch.{Cancelled, cancel-Inv}
use weenix_kernel.Proc.Kill.{set_retval}

-- A thread in a cancellable sleep is on a queue.
abbrev pub Sleepers : System → Type 0
Sleepers s =
    (t : ℕ) → is_cancellable (s.threads t).state ≡ true → (q : ℕ) × ((s.threads t).wchan ≡ some q)

-- Only `t` is cancelled in addition, and only it no longer sleeps.
abbrev pub Marked : ℕ → System → System → Type 0
Marked t s s' =
    Inv s'
    × Sleepers s'
    × (s'.curthr ≡ s.curthr)
    × ((u : ℕ) → (s'.threads u).cancelled ≡ ((t == u) || (s.threads u).cancelled))
    × ((u : ℕ)
        → is_cancellable (s'.threads u).state
          ≡ (if t == u then false else is_cancellable (s.threads u).state))

abbrev pub marked : ℕ → System → System
marked t s = set_retval t 0 (set_cancelled t s)

-- The invariant is about states, queues and who is on them.
same-Inv :
    (s s' : System)
    → ((u : ℕ) → (s'.threads u).state ≡ (s.threads u).state)
    → ((u : ℕ) → (s'.threads u).wchan ≡ (s.threads u).wchan)
    → s'.queues ≡ s.queues
    → Inv s
    → Inv s'
same-Inv s s' st w qs i = record {
  listed = λ q u h. w u ∙ i.listed q u (subst (λ (f : ℕ → KtQueue). has u (f q).list ≡ true) qs h);
  located = λ q u h.
      subst (λ (f : ℕ → KtQueue). has u (f q).list ≡ true) (sym qs) (i.located q u (sym (w u) ∙ h));
  once = λ q. subst (λ (f : ℕ → KtQueue). Distinct (f q).list) (sym qs) (i.once q);
  sized = λ q.
      subst (λ (f : ℕ → KtQueue). (f q).size ≡ length (f q).list % u32_mod) (sym qs) (i.sized q);
  fits = λ q u h. subst (λ k. fits_queue k q ≡ true) (sym (st u)) (i.fits q u (sym (w u) ∙ h));
}

module _ (t : ℕ) (s : System) where
  at_marked :
      (u : ℕ)
      → (marked t s).threads u
        ≡ (if t == u then record (s.threads t) { cancelled = true; retval = 0 } else s.threads u)
  at_marked u = elim (Bool-cases (t == u)) [
    | inl e ↦ rw e rw ((==_iff t t).1 refl) refl
    | inr e ↦ rw e refl
  ]

  state_marked : (u : ℕ) → ((marked t s).threads u).state ≡ (s.threads u).state
  state_marked u = ground (arith, at_marked u, (==_iff t u).0, ap (λ v. (s.threads v).state))

  wchan_marked : (u : ℕ) → ((marked t s).threads u).wchan ≡ (s.threads u).wchan
  wchan_marked u = ground (arith, at_marked u, (==_iff t u).0, ap (λ v. (s.threads v).wchan))

  twice : (u : ℕ) → (set_cancelled t (marked t s)).threads u ≡ (marked t s).threads u
  twice u = elim (Bool-cases (t == u)) [
    | inl e ↦ rw e rw ((==_iff t t).1 refl) refl
    | inr e ↦ rw e refl
  ]

  module _ (i : Inv s) (sl : Sleepers s) where
    marked-Inv : Inv (marked t s)
    marked-Inv = same-Inv s (marked t s) state_marked wchan_marked refl i

    not_asleep :
        is_cancellable (s.threads t).state ≡ false → Marked t s (set_cancelled t (marked t s))
    not_asleep e =
        let st : (u : ℕ) → ((set_cancelled t (marked t s)).threads u).state ≡ (s.threads u).state =
          λ u. ap (λ (x : Thread). x.state) (twice u) ∙ state_marked u in
        let w : (u : ℕ) → ((set_cancelled t (marked t s)).threads u).wchan ≡ (s.threads u).wchan =
          λ u. ap (λ (x : Thread). x.wchan) (twice u) ∙ wchan_marked u in
        (
          same-Inv s (set_cancelled t (marked t s)) st w refl i,
          (λ u h. let (q, on_q) = sl u (sym (ap is_cancellable (st u)) ∙ h) in (q, w u ∙ on_q)),
          refl,
          (λ u. ap (λ (x : Thread). x.cancelled) (twice u) ∙ ground (arith, at_marked u)),
          (λ u.
              ap is_cancellable (st u)
              ∙ ground (arith, e, (==_iff t u).0, ap (λ v. is_cancellable (s.threads v).state))),
        )

    woken_up : (s' : System) → Inv s' → Cancelled t (marked t s) true s' → Marked t s s'
    woken_up s' i' (q, w, l1, l2, thr, cur) = (
      i',
      (λ u h. elim (Bool-cases (t == u)) [
        | inl e ↦
            clash (is_cancellable (s'.threads u).state) h
              (ap (λ (x : Thread). is_cancellable x.state) (thr u) ∙ rw e refl)
        | inr e ↦
            let at : s'.threads u ≡ s.threads u = thr u ∙ rw e refl in
            let (p, on_p) = sl u (sym (ap (λ (x : Thread). is_cancellable x.state) at) ∙ h) in
            (p, ap (λ (x : Thread). x.wchan) at ∙ on_p)
      ]),
      cur,
      (λ u. ground (arith, thr u, at_marked u)),
      (λ u. ground (arith, thr u, at_marked u)),
    )

    pub cancel-Marked : Ends (Marked t s) (cancel t (marked t s))
    unfolding cancel
    cancel-Marked = elim (Bool-cases (is_cancellable (s.threads t).state)) [
      | inr e ↦ let flag = ap is_cancellable (state_marked t) ∙ e in rw flag (not_asleep e)
      | inl e ↦
          let (q, on_q) = sl t e in
          let flag = ap is_cancellable (state_marked t) ∙ e in
          Ends-mono _ (Marked t s) (cancel t (marked t s))
            (λ s' c. woken_up s' c.0 (subst (λ b. Cancelled t (marked t s) b s') flag c.1))
            (cancel-Inv t q (marked t s) marked-Inv (wchan_marked t ∙ on_q))
    ]
