-- ===== src/Proc/Exit/Cleanup.antt =====
-- What proc_cleanup does.
use weenix_kernel.Base.{
  ◌+◌, ◌<◌, lt→ltb, ◌++◌, ℕ, ◌≡◌, ◌≢◌, inl, inr, refl, true, false, Option, none, some, List, [],
  ◌∷◌, has, arith, ◌==◌, if◌then◌else◌, ap, sym, subst, ◌∙◌, Bool-cases, ==_iff,
}
use weenix_kernel.Base.Int.{ℤ}
use weenix_kernel.Base.Outcome.{Ends, ◌>>=◌}
use weenix_kernel.Proc.Process.{running, dead, Process, Kernel, Call}
use weenix_kernel.Proc.Process.Family.{Family}
use weenix_kernel.Proc.Exit.{
  is_exited, close_files, vput_all, at_least_one, bury_process, reparent, wake_parent, bury,
  cleanup,
}
use weenix_kernel.Proc.Exit.Moves.{Moved, reparent-Moved}
use weenix_kernel.Proc.Exit.Orphans.{Buried, Buried-Family}
use weenix_kernel.Proc.Thread.{System, exited, runq}
use weenix_kernel.Proc.Sched.Inv.{Inv}
use weenix_kernel.Base.Outcome.{Ends-bind}
use weenix_kernel.Fs.Descriptors.Count.{holders}
use weenix_kernel.Proc.Process.{vmmap_destroy, is_null}
use weenix_kernel.Proc.Exit.WakeParent.{WokenParent, Woke, wake_parent-Woke}
use weenix_kernel.Proc.Exit.Close.{fputs, fputs-append, fputs-close_files, vput_all-fputs}

-- What proc_cleanup leaves: `k'` and the calls of other parts.
abbrev pub CleanedUp : ℕ → ℤ → ℕ → ℕ → ℕ → Kernel → Kernel × List Call → Type 0
CleanedUp nfiles status cur init parent k (k', calls) =
    WokenParent (k.procs parent).wait k.sys k'.sys
    × Buried cur init status k k'
    × Family k'
    × ((d : ℕ) → d < nfiles → (k'.procs cur).files d ≡ none)
    × ((f : ℕ) → fputs f calls ≡ holders nfiles (k.procs cur).files f)

module _ (nfiles : ℕ) (status : ℤ) (cur : ℕ) (k : Kernel) where
  -- bury leaves parents and children alone, and changes the state of `cur`.
  bury-same :
      {A : Type 0} (field : Process → A)
      → ((x : Process) (files : ℕ → Option ℕ)
          → field (record x { status = status; state = dead; files = files }) ≡ field x)
      → (u : ℕ) → field ((bury nfiles cur status k).procs u) ≡ field (k.procs u)
  bury-same field h u = elim (Bool-cases (cur == u)) [
    | inl e ↦ rw e (h (k.procs cur) _ ∙ ap (λ x. field (k.procs x)) ((==_iff cur u).0 e))
    | inr e ↦ rw e refl
  ]

  bury-state :
      (u : ℕ)
      → ((bury nfiles cur status k).procs u).state ≡ (if cur == u then dead else (k.procs u).state)
  bury-state u = elim (Bool-cases (cur == u)) [ inl e ↦ rw e refl | inr e ↦ rw e refl ]

-- The running process `cur` on the process list, which is not `init`, exits by its only thread.
pub record Exiting (cur init parent : ℕ) (k : Kernel) : Type 0 where
  pub family : Family k
  pub scheduler : Inv k.sys
  pub cur_is : k.curproc ≡ some cur
  pub init_is : k.initproc ≡ some init
  pub cur_listed : has cur k.proc_list ≡ true
  pub cur_runs : (k.procs cur).state ≡ running
  pub init_listed : has init k.proc_list ≡ true
  pub init_runs : (k.procs init).state ≡ running
  pub not_init : init ≢ cur
  pub has_pid : at_least_one (k.procs cur).pid ≡ true
  pub parent_is : (k.procs cur).parent ≡ some parent
  pub own_thread : (k.sys.threads k.sys.curthr).proc ≡ cur
  pub has_exited : (k.sys.threads k.sys.curthr).state ≡ exited
  pub own_queue : (k.procs parent).wait ≢ runq

module _ (nfiles : ℕ) (status : ℤ) (cur init parent : ℕ) (k : Kernel)
    (x : Exiting cur init parent k) where
  module _ (s : System) (wp : WokenParent (k.procs parent).wait k.sys s)
      (ex : (s.threads s.curthr).state ≡ exited) where
    abbrev before : Kernel
    before = reparent (k.procs cur).children init (record k { sys = s })

    moved : Moved (k.procs cur).children init (record k { sys = s }) before
    moved = reparent-Moved (k.procs cur).children init (record k { sys = s })

    after-Buried : Buried cur init status k (bury nfiles cur status before)
    after-Buried = record {
      listed = moved.1;
      states = λ u. bury-state nfiles status cur before u ∙ rw (moved.0 u) refl;
      parents = λ u.
          bury-same nfiles status cur before (λ x. x.parent) (λ x g. refl) u
          ∙ ap (λ (x : Process). x.parent) (moved.0 u);
      children = λ u.
          bury-same nfiles status cur before (λ x. x.children) (λ x g. refl) u
          ∙ ap (λ (x : Process). x.children) (moved.0 u);
      exit_status = rw ((==_iff cur cur).1 refl) refl;
    }

    after-parent : is_null ((bury nfiles cur status before).procs cur).parent ≡ false
    after-parent = let p = after-Buried.parents cur in ground (arith, x.parent_is)

    closes : (d : ℕ) → d < nfiles → ((bury nfiles cur status before).procs cur).files d ≡ none
    closes d lt = rw ((==_iff cur cur).1 refl) rw (lt→ltb d nfiles lt) refl

    fputs-calls :
        (f : ℕ)
        → fputs f (
            close_files nfiles 0 (before.procs cur).files
            ++ (vput_all (before.procs cur).cwd ++ vmmap_destroy cur ∷ []))
          ≡ holders nfiles (k.procs cur).files f
    unfolding holders
    fputs-calls f =
        let h = fputs-close_files nfiles 0 (k.procs cur).files f in
        let n : 0 + nfiles ≡ nfiles = omega arith in
        rw (moved.0 cur) (
          fputs-append f (close_files nfiles 0 (k.procs cur).files)
            (vput_all (k.procs cur).cwd ++ vmmap_destroy cur ∷ [])
          ∙ rw (vput_all-fputs (k.procs cur).cwd cur f) (
              subst
                (λ y.
                  fputs f (close_files nfiles 0 (k.procs cur).files) + 0
                  ≡ holders y (k.procs cur).files f)
                n h))

    bury_process-CleanedUp :
        Ends
          (CleanedUp nfiles status cur init parent k)
          (bury_process nfiles status cur init (record k { sys = s }))
    unfolding bury_process
    bury_process-CleanedUp =
        let e : is_exited (before.sys.threads before.sys.curthr).state ≡ true =
          rw (moved.2) rw ex refl in
        rw after-parent rw e (
          subst (λ y. WokenParent (k.procs parent).wait k.sys y) (sym moved.2) wp,
          after-Buried,
          Buried-Family cur init status k (bury nfiles cur status before) x.family x.cur_listed
              x.cur_runs x.init_listed x.init_runs x.not_init after-Buried,
          closes,
          fputs-calls,
        )

  -- If a running process on the list that is not the init process exits by its only thread, and the
  -- scheduler's queues are in order, then proc_cleanup does not panic: the process that has waited
  -- longest on the parent's p_wait, if one has, becomes runnable; the process is dead, with the
  -- status; each of its children has init for its parent and is in init's list; processes, parents
  -- and children agree again, so that no listed process has a dead parent; and the open files are
  -- closed, with one call of fput for each descriptor that points to a file.
  pub cleanup-CleanedUp : Ends (CleanedUp nfiles status cur init parent k) (cleanup nfiles status k)
  unfolding cleanup
  cleanup-CleanedUp =
      let eq : cleanup nfiles status k
          ≡ (wake_parent (k.procs parent).wait k >>= λ k1. bury_process nfiles status cur init k1) =
        ground (
          arith,
          x.init_is,
          x.cur_is,
          x.has_pid,
          x.own_thread,
          x.parent_is,
          ap k.procs x.own_thread,
        ) in
      subst (Ends (CleanedUp nfiles status cur init parent k)) (sym eq) (
        Ends-bind (Woke (k.procs parent).wait k) (CleanedUp nfiles status cur init parent k)
          (wake_parent (k.procs parent).wait k) _
          (wake_parent-Woke k x.scheduler x.has_exited (k.procs parent).wait x.own_queue)
          λ k1 (wp, e, ex).
            subst
              (λ y.
                Ends (CleanedUp nfiles status cur init parent k)
                  (bury_process nfiles status cur init y))
              (sym e) (bury_process-CleanedUp k1.sys wp ex))
