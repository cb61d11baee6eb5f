-- ===== src/Proc/Waitpid.antt =====
-- Waiting for children: do_waitpid of kernel/proc/proc.c.
pub mod Reaped
pub mod Waits
use weenix_kernel.Base.{
  ℕ, zero, suc, ◌+◌, Bool, true, false, not, ◌&&◌, ◌||◌, Option, none, some, List, [], ◌∷◌, ◌++◌,
  ◌==◌, if◌then◌else◌, erase, ltb,
}
use weenix_kernel.Base.Int.{ℤ, pos, negsuc}
use weenix_kernel.Base.Outcome.{Outcome, ok, panic, ◌>>=◌, ◌>>◌, kassert, deref}
use weenix_kernel.Proc.Thread.{KtState, exited, Thread, KtQueue, System, update}
use weenix_kernel.Proc.Sched.{sleep_on, wakeup_on, switch}
use weenix_kernel.Proc.Process.{
  ProcState, running, dead, Process, Kernel, Call, fput, vget, vput, vmmap_destroy, is_null, is_nil,
  is_pid, set_proc,
}

-- What do_waitpid has done: it returned a pid or an error, or it sleeps.
pub data Waited : Type 0 where
  reaped : Option ℕ → ℤ → Kernel → Waited
  echild einval : Waited
  asleep : Option System → Waited

-- The disposal of a dead child, with kthread_destroy of its only thread.
pub reap : ℕ → ℕ → Kernel → Outcome Waited
reap cur child k = do
  kassert (not (is_nil (k.procs child).threads))
  let k' = set_proc cur (record (k.procs cur) { children = erase child (k.procs cur).children }) k
  ok (
      reaped (k.procs child).pid (k.procs child).status
        (record k' { proc_list = erase child k.proc_list }))

abbrev pub is_dead : ProcState → Bool
is_dead running = false
is_dead dead = true

-- The child in a loop over the children: the first that `test` accepts.
abbrev pub first_child : (Process → Bool) → (ℕ → Process) → List ℕ → Option ℕ
first_child test procs [] = none
first_child test procs (c ∷ r) = if test (procs c) then some c else first_child test procs r

-- `sched_sleep_on(&curproc->p_wait)`.
abbrev pub sleep_for : List ℕ → ℕ → Kernel → Outcome Waited
sleep_for interrupts cur k = sleep_on interrupts (k.procs cur).wait k.sys >>= λ o. ok (asleep o)

-- A round of the loop for pid -1.
wait_any : List ℕ → ℕ → Option ℕ → Kernel → Outcome Waited
unfolding reap
wait_any interrupts cur none k = sleep_for interrupts cur k
wait_any interrupts cur (some child) k = reap cur child k

-- A round of the loop for a positive pid, once its child is found.
wait_for : List ℕ → ℕ → Option ℕ → Kernel → Outcome Waited
unfolding reap
wait_for interrupts cur none k = ok echild
wait_for interrupts cur (some child) k =
    if is_dead (k.procs child).state then reap cur child k else sleep_for interrupts cur k

wait_pid : List ℕ → ℕ → ℤ → Kernel → Outcome Waited
unfolding wait_any wait_for
wait_pid interrupts cur (pos zero) k = ok einval
wait_pid interrupts cur (pos (suc n)) k =
    wait_for interrupts cur (first_child (λ c. is_pid (suc n) c.pid) k.procs (k.procs cur).children)
      k
wait_pid interrupts cur (negsuc zero) k =
    if is_nil (k.procs cur).children
    then ok echild
    else wait_any interrupts cur (first_child (λ c. is_dead c.state) k.procs (k.procs cur).children)
        k
wait_pid interrupts cur (negsuc (suc n)) k = ok einval

-- A round behind a sleep, when the process runs again: for pid -1 over the children that it then has,
-- for a positive pid with the child that it has found.
unfoldable pub wait_again : List ℕ → ℕ → Option ℕ → Kernel → Outcome Waited
unfolding wait_any wait_for
wait_again interrupts cur none k =
    wait_any interrupts cur (first_child (λ c. is_dead c.state) k.procs (k.procs cur).children) k
wait_again interrupts cur (some child) k = wait_for interrupts cur (some child) k

-- do_waitpid until it returns or first sleeps.
unfoldable pub do_waitpid : List ℕ → ℤ → Bool → Kernel → Outcome Waited
unfolding wait_pid
do_waitpid interrupts pid no_options k =
    if not no_options then ok einval else (do cur ← deref k.curproc; wait_pid interrupts cur pid k)
