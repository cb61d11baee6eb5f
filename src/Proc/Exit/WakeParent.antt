-- ===== src/Proc/Exit/WakeParent.antt =====
-- The wakeup of the parent in proc_cleanup.
use weenix_kernel.Base.{
  has-append, ℕ, ◌≡◌, ◌≢◌, ◌⊎◌, inl, inr, refl, true, Option, none, some, List, [], ◌∷◌, has, arith,
  ap, ◌∙◌, Bool-cases,
}
use weenix_kernel.Base.Outcome.{Ends}
use weenix_kernel.Proc.Process.{Kernel}
use weenix_kernel.Proc.Exit.{wake_parent}
use weenix_kernel.Proc.Thread.{
  KtState, no_state, run, sleep, sleep_cancellable, Thread, System, exited, runq,
}
use weenix_kernel.Proc.Sched.{wakeup_on}
use weenix_kernel.Proc.Sched.Inv.{Inv, fits_queue}
use weenix_kernel.Proc.Sched.Wake.{Woken, wakeup_on-Woken, Ends-ok}
use weenix_kernel.Proc.Process.{is_nil}

-- The scheduler behind the call of sched_wakeup_on: the longest waiter, if there is one, is
-- runnable.
abbrev pub WokenParent : ℕ → System → System → Type 0
WokenParent q s s' = (((s.queues q).list ≡ []) × (s' ≡ s)) ⊎ ((o : Option ℕ) × Woken q s (o, s'))

-- Only the scheduler's part of the kernel changes, and the thread that exits stays as it is.
abbrev pub Woke : ℕ → Kernel → Kernel → Type 0
Woke q k k' =
    WokenParent q k.sys k'.sys
    × (k' ≡ record k { sys = k'.sys })
    × ((k'.sys.threads k'.sys.curthr).state ≡ exited)

pub is_nil-nil : (m : List ℕ) → is_nil m ≡ true → m ≡ []
is_nil-nil [] e = refl
is_nil-nil (x ∷ r) e = cc

exited_waits_nowhere : (q : ℕ) (x : KtState) → x ≡ exited → fits_queue x q ≡ true → ⊥
exited_waits_nowhere q exited e f = ground arith
exited_waits_nowhere q no_state e f = ground arith
exited_waits_nowhere q run e f = ground arith
exited_waits_nowhere q sleep e f = ground arith
exited_waits_nowhere q sleep_cancellable e f = ground arith

module _ (k : Kernel) (i : Inv k.sys) (ex : (k.sys.threads k.sys.curthr).state ≡ exited) (q : ℕ)
    (ne : q ≢ runq) where
  stays_exited : (w : Option ℕ × System) → Woken q k.sys w → (w.1.threads w.1.curthr).state ≡ exited
  stays_exited (none, s') (e, same) = rw same ex
  stays_exited (some t, s') (i', list, on, threads, others, cur) =
      let h : has t (k.sys.queues q).list ≡ true =
        rw list (has-append t (s'.queues q).list (t ∷ []) ∙ ground arith) in
      let c = i.listed q t h in
      let fit = i.fits q t c in
      let d : t ≢ k.sys.curthr =
        λ e. exited_waits_nowhere q _ (ap (λ u. (k.sys.threads u).state) e ∙ ex) fit in
      rw cur (ap (λ (x : Thread). x.state) (threads k.sys.curthr) ∙ ground arith)

  pub wake_parent-Woke : Ends (Woke q k) (wake_parent q k)
  unfolding wake_parent
  wake_parent-Woke = elim (Bool-cases (is_nil (k.sys.queues q).list)) [
    | inl e ↦ rw e (inl (is_nil-nil _ e, refl), refl, ex)
    | inr e ↦
        let (w, eq, woken) =
          Ends-ok (Woken q k.sys) (wakeup_on q k.sys) (wakeup_on-Woken q k.sys i ne) in
        rw e rw eq (inr (w.0, woken), refl, stays_exited w woken)
  ]
