-- ===== src/Proc/Waitpid/Waits.antt =====
-- What do_waitpid does for each pid.
use weenix_kernel.Base.{
  ℕ, zero, suc, ◌≡◌, ◌≢◌, ◌⊎◌, inl, inr, refl, Bool, true, false, Option, none, some, List, [], ◌∷◌,
  has, arith, ◌==◌, ap, sym, subst, ◌∙◌, Bool-cases, clash, ==_iff,
}
use weenix_kernel.Base.Int.{ℤ, pos, negsuc}
use weenix_kernel.Base.Outcome.{ok, Ends, Ends-mono, Ends-bind, ◌>>=◌}
use weenix_kernel.Proc.Thread.{System, sleep, runq}
use weenix_kernel.Proc.Process.{ProcState, running, dead, Process, Kernel, is_nil, is_pid}
use weenix_kernel.Proc.Process.Family.{Family}
use weenix_kernel.Proc.Sched.{sleep_on}
use weenix_kernel.Proc.Sched.Inv.{Inv}
use weenix_kernel.Proc.Sched.Switch.{Asleep, Switched, sleep_on-Inv}
use weenix_kernel.Proc.Waitpid.{
  reap, Waited, reaped, echild, einval, asleep, is_dead, first_child, wait_any, wait_for, wait_pid,
  wait_again, do_waitpid,
}
use weenix_kernel.Proc.Exit.WakeParent.{is_nil-nil}
use weenix_kernel.Proc.Waitpid.Reaped.{disposed, disposed-Family}

abbrev pub FirstChild : (Process → Bool) → (ℕ → Process) → List ℕ → Option ℕ → Type 0
FirstChild test procs m none = (c : ℕ) → has c m ≡ true → test (procs c) ≡ false
FirstChild test procs m (some c) = (has c m ≡ true) × (test (procs c) ≡ true)

further :
    (test : Process → Bool) (procs : ℕ → Process) (c : ℕ) (r : List ℕ) (o : Option ℕ)
    → test (procs c) ≡ false
    → FirstChild test procs r o
    → FirstChild test procs (c ∷ r) o
further test procs c r none e f = λ d h. elim (Bool-cases (c == d)) [
  | inl q ↦ ap (λ x. test (procs x)) (sym ((==_iff c d).0 q)) ∙ e
  | inr q ↦ f d (ground arith)
]
further test procs c r (some d) e f = (ground (arith, f.0), f.1)

first_child-FirstChild :
    (test : Process → Bool) (procs : ℕ → Process) (m : List ℕ)
    → FirstChild test procs m (first_child test procs m)
first_child-FirstChild test procs [] = λ c h. cc
first_child-FirstChild test procs (c ∷ r) = elim (Bool-cases (test (procs c))) [
  | inl e ↦ rw e (ground (arith, (==_iff c c).1 refl), e)
  | inr e ↦
      rw e
        (further test procs c r (first_child test procs r) e (first_child-FirstChild test procs r))
]

is_dead-dead : (x : ProcState) → is_dead x ≡ true → x ≡ dead
is_dead-dead running e = cc
is_dead-dead dead e = refl

is_dead-running : (x : ProcState) → is_dead x ≡ false → x ≡ running
is_dead-running running e = refl
is_dead-running dead e = cc

module _ (cur : ℕ) (k : Kernel) where
  -- The dead child `c` is disposed of, and its pid and its status are returned.
  abbrev pub Disposes : ℕ → Waited → Type 0
  Disposes c w =
      ((k.procs c).state ≡ dead)
      × (w ≡ reaped (k.procs c).pid (k.procs c).status (disposed cur c k))
      × Family (disposed cur c k)

  -- The thread sleeps on p_wait, and another one runs.
  abbrev pub Sleeps : Waited → Type 0
  Sleeps w =
      (o : Option System) × (w ≡ asleep o)
      × ((s : System) × Asleep sleep (k.procs cur).wait k.sys s × Switched s o)

  abbrev pub Waits : ℤ → Waited → Type 0
  Waits (negsuc zero) w =
      (((k.procs cur).children ≡ []) × (w ≡ echild))
      ⊎ ((c : ℕ) × (has c (k.procs cur).children ≡ true) × Disposes c w)
      ⊎ (((k.procs cur).children ≢ [])
          × ((c : ℕ) → has c (k.procs cur).children ≡ true → (k.procs c).state ≡ running)
          × Sleeps w)
  Waits (pos (suc n)) w =
      (((c : ℕ) → has c (k.procs cur).children ≡ true → is_pid (suc n) (k.procs c).pid ≡ false)
        × (w ≡ echild))
      ⊎ ((c : ℕ) × (has c (k.procs cur).children ≡ true)
          × (is_pid (suc n) (k.procs c).pid ≡ true)
          × (Disposes c w ⊎ (((k.procs c).state ≡ running) × Sleeps w)))
  Waits _ w = w ≡ einval

  -- A round behind a sleep.
  abbrev pub Again : Option ℕ → Waited → Type 0
  Again none w =
      ((c : ℕ) × (has c (k.procs cur).children ≡ true) × Disposes c w)
      ⊎ (((c : ℕ) → has c (k.procs cur).children ≡ true → (k.procs c).state ≡ running) × Sleeps w)
  Again (some c) w = Disposes c w ⊎ (((k.procs c).state ≡ running) × Sleeps w)

  -- With options that are 0, and with others.
  abbrev pub Answers : ℤ → Bool → Waited → Type 0
  Answers pid true w = Waits pid w
  Answers pid false w = w ≡ einval

-- A running process on the list whose thread is on no queue, and whose dead children have a thread.
pub record Waiting (cur : ℕ) (k : Kernel) : Type 0 where
  pub family : Family k
  pub scheduler : Inv k.sys
  pub cur_is : k.curproc ≡ some cur
  pub cur_listed : has cur k.proc_list ≡ true
  pub cur_runs : (k.procs cur).state ≡ running
  pub unqueued : (k.sys.threads k.sys.curthr).wchan ≡ none
  pub own_queue : (k.procs cur).wait ≢ runq
  pub has_thread :
      (c : ℕ)
      → has c (k.procs cur).children ≡ true
      → (k.procs c).state ≡ dead
      → is_nil (k.procs c).threads ≡ false

module _ (interrupts : List ℕ) (cur : ℕ) (k : Kernel) (x : Waiting cur k) where
  reap-Disposes :
      (c : ℕ)
      → has c (k.procs cur).children ≡ true
      → (k.procs c).state ≡ dead
      → Ends (Disposes cur k c) (reap cur c k)
  unfolding reap
  reap-Disposes c h d =
      rw (x.has_thread c h d)
        (d, refl, disposed-Family cur c k x.family x.cur_listed x.cur_runs h d)

  sleep_on-Sleeps :
      Ends (Sleeps cur k) (sleep_on interrupts (k.procs cur).wait k.sys >>= λ o. ok (asleep o))
  sleep_on-Sleeps =
      Ends-bind _ (Sleeps cur k) (sleep_on interrupts (k.procs cur).wait k.sys) _
        (sleep_on-Inv interrupts (k.procs cur).wait k.sys x.scheduler x.unqueued x.own_queue)
        λ o r. (o, refl, r)

  wait_any-Again :
      (o : Option ℕ)
      → FirstChild (λ c. is_dead c.state) k.procs (k.procs cur).children o
      → Ends (Again cur k none) (wait_any interrupts cur o k)
  unfolding wait_any
  wait_any-Again none f =
      Ends-mono _ (Again cur k none)
        (sleep_on interrupts (k.procs cur).wait k.sys >>= λ o. ok (asleep o))
        (λ w s. inr ((λ c h. is_dead-running _ (f c h)), s)) sleep_on-Sleeps
  wait_any-Again (some c) f =
      Ends-mono _ (Again cur k none) (reap cur c k) (λ w d. inl (c, f.0, d))
        (reap-Disposes c f.0 (is_dead-dead _ f.1))

  wait_any-Waits :
      (k.procs cur).children ≢ []
      → (o : Option ℕ) → FirstChild (λ c. is_dead c.state) k.procs (k.procs cur).children o
      → Ends (Waits cur k (negsuc 0)) (wait_any interrupts cur o k)
  wait_any-Waits ne o f =
      Ends-mono (Again cur k none) (Waits cur k (negsuc 0)) (wait_any interrupts cur o k)
        (λ w. elim [ inl d ↦ inr (inl d) | inr s ↦ inr (inr (ne, s.0, s.1)) ]) (wait_any-Again o f)

  wait_for-Again :
      (c : ℕ)
      → has c (k.procs cur).children ≡ true
      → Ends (Again cur k (some c)) (wait_for interrupts cur (some c) k)
  unfolding wait_for
  wait_for-Again c h = elim (Bool-cases (is_dead (k.procs c).state)) [
    | inl d ↦ rw d (
        Ends-mono _ (Again cur k (some c)) (reap cur c k) (λ w y. inl y)
          (reap-Disposes c h (is_dead-dead _ d)))
    | inr r ↦ rw r (
        Ends-mono _ (Again cur k (some c))
          (sleep_on interrupts (k.procs cur).wait k.sys >>= λ o. ok (asleep o))
          (λ w y. inr (is_dead-running _ r, y)) sleep_on-Sleeps)
  ]

  wait_for-Waits :
      (n : ℕ) (o : Option ℕ)
      → FirstChild (λ c. is_pid (suc n) c.pid) k.procs (k.procs cur).children o
      → Ends (Waits cur k (pos (suc n))) (wait_for interrupts cur o k)
  unfolding wait_for
  wait_for-Waits n none f = inl (f, refl)
  wait_for-Waits n (some c) f =
      Ends-mono (Again cur k (some c)) (Waits cur k (pos (suc n)))
        (wait_for interrupts cur (some c) k) (λ w y. inr (c, f.0, f.1, y)) (wait_for-Again c f.0)

  wait_again-Again :
      (o : Option ℕ)
      → ((c : ℕ) → o ≡ some c → has c (k.procs cur).children ≡ true)
      → Ends (Again cur k o) (wait_again interrupts cur o k)
  unfolding wait_again
  wait_again-Again none h =
      wait_any-Again _
        (first_child-FirstChild (λ c. is_dead c.state) k.procs (k.procs cur).children)
  wait_again-Again (some c) h = wait_for-Again c (h c refl)

  wait_pid-Waits : (pid : ℤ) → Ends (Waits cur k pid) (wait_pid interrupts cur pid k)
  unfolding wait_pid
  wait_pid-Waits (pos zero) = refl
  wait_pid-Waits (pos (suc n)) =
      wait_for-Waits n _
        (first_child-FirstChild (λ c. is_pid (suc n) c.pid) k.procs (k.procs cur).children)
  wait_pid-Waits (negsuc zero) = elim (Bool-cases (is_nil (k.procs cur).children)) [
    | inl e ↦ rw e (inl (is_nil-nil _ e, refl))
    | inr e ↦ rw e (
        wait_any-Waits (λ q. clash (is_nil (k.procs cur).children) (rw q refl) e) _
          (first_child-FirstChild (λ c. is_dead c.state) k.procs (k.procs cur).children))
  ]
  wait_pid-Waits (negsuc (suc n)) = refl

  answers :
      (pid : ℤ) (no_options : Bool)
      → Ends (Answers cur k pid no_options) (do_waitpid interrupts pid no_options k)
  unfolding do_waitpid
  answers pid false = refl
  answers pid true =
      let eq : do_waitpid interrupts pid true k ≡ wait_pid interrupts cur pid k =
        ground (arith, x.cur_is) in
      subst (Ends (Waits cur k pid)) (sym eq) (wait_pid-Waits pid)

  -- If the process list is in order, and a running process on it, whose thread is on no queue, calls
  -- do_waitpid, and each of its dead children has a thread, then the call returns or comes to its first
  -- sleep, and does not panic. For options other than 0 it is -EINVAL; else, for pid -1, it is -ECHILD if there are no children; else it disposes of a dead child, or
  -- sleeps on p_wait if no child is dead. For a positive pid it is -ECHILD if no child has it; else
  -- it disposes of the first child that has it if that is dead, and sleeps on p_wait if it is not.
  -- Any other pid is -EINVAL. To dispose of a child is to return its pid and status and to take it
  -- off the process list and the parent's list; parents, children and the process list agree then. A
  -- round behind a sleep, in such a state again, does the same for pid -1 with the children of then,
  -- and for a positive pid with the child that was found, which is a child still: it disposes of a
  -- dead one, or sleeps again.
  pub do_waitpid-Waits :
      (pid : ℤ) (no_options : Bool) (child : Option ℕ)
      → ((c : ℕ) → child ≡ some c → has c (k.procs cur).children ≡ true)
      → Ends (Answers cur k pid no_options) (do_waitpid interrupts pid no_options k)
        × Ends (Again cur k child) (wait_again interrupts cur child k)
  do_waitpid-Waits pid no_options child h = (answers pid no_options, wait_again-Again child h)
