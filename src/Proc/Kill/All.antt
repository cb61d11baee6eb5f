-- ===== src/Proc/Kill/All.antt =====
-- proc_kill_all cancels the thread of every process that it does not spare.
use weenix_kernel.Base.{
  ℕ, ◌≡◌, inl, inr, refl, true, false, ◌||◌, List, [], ◌∷◌, has, arith, ◌==◌, ==_iff, if◌then◌else◌,
  ap, sym, subst, ◌∙◌, Bool-cases,
}
use weenix_kernel.Base.Outcome.{Outcome, ok, panic, Ends, Ends-mono, Ends-bind, ◌>>=◌}
use weenix_kernel.Proc.Thread.{System}
use weenix_kernel.Proc.Sched.{cancel, is_cancellable}
use weenix_kernel.Proc.Sched.Inv.{Inv}
use weenix_kernel.Proc.Process.{Kernel}
use weenix_kernel.Proc.Kill.{
  kthread_cancel, on, proc_kill, spared, own_process, resume, kill_loop, proc_kill_all,
}
use weenix_kernel.Proc.Kill.Marked.{Sleepers, Marked, marked, cancel-Marked}

-- The threads that are cancelled, the first of each process that is not spared.
abbrev pub first_onto : List ℕ → List ℕ → List ℕ
first_onto [] l = l
first_onto (t ∷ r) l = t ∷ l

abbrev pub victims : List ℕ → Kernel → List ℕ
victims [] k = []
victims (p ∷ r) k = if spared p k then victims r k else first_onto (k.procs p).threads (victims r k)

-- Exactly the threads of `l` are cancelled in addition, and none of them sleeps on.
abbrev pub Killed : List ℕ → System → System → Type 0
Killed l s s' =
    Inv s'
    × Sleepers s'
    × (s'.curthr ≡ s.curthr)
    × ((u : ℕ) → (s'.threads u).cancelled ≡ (has u l || (s.threads u).cancelled))
    × ((u : ℕ)
        → is_cancellable (s'.threads u).state
          ≡ (if has u l then false else is_cancellable (s.threads u).state))

-- Each process that is not spared has a first thread, and it is not the one that runs.
abbrev pub HasVictims : List ℕ → Kernel → Type 0
HasVictims l k =
    (p : ℕ)
    → has p l ≡ true
    → spared p k ≡ false
    → (t : ℕ) × (r : List ℕ) × ((k.procs p).threads ≡ t ∷ r) × ((t == k.sys.curthr) ≡ false)

Killed-step :
    (t : ℕ) (l : List ℕ) (s s1 s2 : System) → Marked t s s1 → Killed l s1 s2 → Killed (t ∷ l) s s2
Killed-step t l s s1 s2 (_, _, c, w, z) (i', sl', c', w', z') =
    (i', sl', c' ∙ c, (λ u. ground (arith, w' u, w u)), (λ u. ground (arith, z' u, z u)))

-- The same for two kernels, of which nothing else changes.
abbrev pub KilledAll : List ℕ → Kernel → Kernel → Type 0
KilledAll l k k' = Killed l k.sys k'.sys × (k' ≡ record k { sys = k'.sys })

cancelled_on :
    (t : ℕ) (k : Kernel) (o : Outcome System)
    → Ends (Marked t k.sys) o
    → Ends
        (λ k'. Marked t k.sys k'.sys × (k' ≡ record k { sys = k'.sys }))
        ((o >>= λ s'. ok (on s')) >>= λ w. resume w k)
cancelled_on t k (ok s') m = (m, refl)
cancelled_on t k panic m = m

-- A process that is not spared has its first thread cancelled.
proc_kill-Marked :
    (p : ℕ) (k : Kernel) (t : ℕ) (r : List ℕ)
    → own_process p k.curproc ≡ false
    → (k.procs p).threads ≡ t ∷ r
    → (t == k.sys.curthr) ≡ false
    → Inv k.sys
    → Sleepers k.sys
    → Ends
        (λ k'. Marked t k.sys k'.sys × (k' ≡ record k { sys = k'.sys }))
        (proc_kill p 0 k >>= λ w. resume w k)
unfolding proc_kill kthread_cancel
proc_kill-Marked p k t r other first away i sl =
    rw other rw first rw away
      (cancelled_on t k (cancel t (marked t k.sys)) (cancel-Marked t k.sys i sl))

victims-sys :
    (l : List ℕ) (k : Kernel) (s : System) → victims l (record k { sys = s }) ≡ victims l k
victims-sys [] k s = refl
victims-sys (p ∷ r) k s = elim (Bool-cases (spared p k)) [
  | inl e ↦ rw e (victims-sys r k s)
  | inr e ↦ rw e (ap (first_onto (k.procs p).threads) (victims-sys r k s))
]

Killing : List ℕ → List ℕ → Kernel → Type 0
Killing v l k = Ends (KilledAll v k) (kill_loop l k)

-- The loop after a process that was killed.
kill_on :
    (t : ℕ) (r : List ℕ) (k a : Kernel)
    → HasVictims r k
    → ((next : Kernel)
        → Inv next.sys
        → Sleepers next.sys
        → HasVictims r next
        → Killing (victims r next) r next)
    → Marked t k.sys a.sys
    → a ≡ record k { sys = a.sys }
    → Ends (KilledAll (t ∷ victims r k) k) (kill_loop r a)
unfolding Killing
kill_on t r k a later loop m same =
    let (i, sl, cur, _, _) = m in
    let next : Kernel = record k { sys = a.sys } in
    let still : HasVictims r next = λ q on_q kept.
      let (u, v, head, other) = later q on_q kept in (u, v, head, ap (λ c. u == c) cur ∙ other) in
    subst (λ x. Ends (KilledAll (t ∷ victims r k) k) (kill_loop r x)) (sym same)
      (Ends-mono (KilledAll (victims r next) next) (KilledAll (t ∷ victims r k) k)
        (kill_loop r next)
        (λ k' (d, eq). (
          Killed-step t (victims r k) k.sys a.sys k'.sys m
              (subst (λ v. Killed v a.sys k'.sys) (victims-sys r k a.sys) d),
          eq,
        ))
        (loop next i sl still))

kill_loop-Killing :
    (l : List ℕ) (k : Kernel)
    → Inv k.sys
    → Sleepers k.sys
    → HasVictims l k
    → Killing (victims l k) l k
unfolding kill_loop Killing
kill_loop-Killing [] k i sl h = ((i, sl, refl, (λ u. refl), (λ u. refl)), refl)
kill_loop-Killing (p ∷ r) k i sl h =
    let later : HasVictims r k = λ q on_q. h q (ground (arith, on_q)) in
    elim (Bool-cases (spared p k)) [
      | inl e ↦
          let skips : victims (p ∷ r) k ≡ victims r k = rw e refl in
          subst (λ v. Killing v (p ∷ r) k) (sym skips) (rw e (kill_loop-Killing r k i sl later))
      | inr e ↦
          let (t, l, first, away) = h p (ground (arith, (==_iff p p).1 refl)) e in
          let other : own_process p k.curproc ≡ false = ground (arith, e) in
          let adds : victims (p ∷ r) k ≡ t ∷ victims r k = rw e rw first refl in
          subst (λ v. Killing v (p ∷ r) k) (sym adds)
            (rw e (
              Ends-bind (λ a. Marked t k.sys a.sys × (a ≡ record k { sys = a.sys }))
                (KilledAll (t ∷ victims r k) k) (proc_kill p 0 k >>= λ w. resume w k) (kill_loop r)
                (proc_kill-Marked p k t l other first away i sl)
                (λ a (m, same). kill_on t r k a later (kill_loop-Killing r) m same)))
    ]

-- proc_kill_all ends without panic where the scheduler's invariant holds, the threads in cancellable
-- sleeps are on queues, and each listed process that is not spared (0, 1, 2 and the caller's) has a
-- first thread other than the one that runs. Then exactly those first threads are cancelled in
-- addition, whatever their parents are, children of the idle process included; none of them is in a cancellable sleep any more, the others sleep on as before, the
-- invariant holds, the same thread runs, and nothing else of the kernel changes.
pub proc_kill_all-Killed :
    (k : Kernel)
    → Inv k.sys
    → Sleepers k.sys
    → HasVictims k.proc_list k
    → Ends (KilledAll (victims k.proc_list k) k) (proc_kill_all k)
unfolding proc_kill_all Killing
proc_kill_all-Killed k i sl h = kill_loop-Killing k.proc_list k i sl h
