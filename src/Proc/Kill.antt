-- ===== src/Proc/Kill.antt =====
-- Ending threads and processes: kthread_cancel and kthread_exit of kernel/proc/kthread.c, proc_kill,
-- proc_kill_all, proc_thread_exited and do_exit of kernel/proc/proc.c.
pub mod Marked
pub mod All
use weenix_kernel.Base.{
  ℕ, ◌-◌, ◌^◌, Bool, true, false, not, ◌&&◌, ◌||◌, Option, none, some, List, [], ◌∷◌, ◌==◌,
  if◌then◌else◌, ltb,
}
use weenix_kernel.Base.Int.{ℤ, pos, negsuc}
use weenix_kernel.Base.Outcome.{Outcome, ok, panic, ◌>>=◌, ◌>>◌, kassert, deref}
use weenix_kernel.Proc.Thread.{KtState, exited, Thread, System, update}
use weenix_kernel.Proc.Queue.{unqueued}
use weenix_kernel.Proc.Sched.{cancel, switch, set_cancelled}
use weenix_kernel.Proc.Process.{Process, Kernel, Call, is_pid}
use weenix_kernel.Proc.Exit.{cleanup}

abbrev pub set_retval : ℕ → ℕ → System → System
set_retval thr retval s = record s {
  threads = update s.threads thr (record (s.threads thr) { retval = retval });
}

-- `(int)retval`
abbrev pub to_int : ℕ → ℤ
to_int r = if ltb r (2 ^ 31) then pos r else negsuc (2 ^ 32 - r - 1)

abbrev own_process : ℕ → Option ℕ → Bool
own_process p none = false
own_process p (some cur) = p == cur

-- kthread_exit, with proc_thread_exited: the kernel that is left, the calls of other parts, and the
-- system of the thread that runs next.
pub kthread_exit : ℕ → List ℕ → ℕ → Kernel → Outcome (Kernel × List Call × Option System)
kthread_exit nfiles interrupts retval k = do
  let t = k.sys.threads k.sys.curthr
  let s = record (k.sys) {
    threads = update k.sys.threads k.sys.curthr (record t { retval = retval; state = exited });
  }
  kassert (unqueued (s.threads s.curthr))
  kassert (own_process (s.threads s.curthr).proc k.curproc)
  done ← cleanup nfiles (to_int retval) (record k { sys = s })
  o ← switch interrupts done.0.sys
  ok (done.0, done.1, o)

-- The thread goes on, or exits with a return value.
pub data Went : Type 0 where
  on : System → Went
  exits : ℕ → Went

pub kthread_cancel : ℕ → ℕ → System → Outcome Went
kthread_cancel thr retval s =
    if thr == s.curthr
    then ok (exits retval)
    else (cancel thr (set_retval thr retval (set_cancelled thr s)) >>= λ s'. ok (on s'))

-- The thread of a process that is killed, the first on its list; there is no thread to take on an
-- empty list, so that the pointer is none to a thread: `panic`.
abbrev pub first_thread : List ℕ → Outcome ℕ
first_thread [] = panic
first_thread (t ∷ r) = ok t

pub proc_kill : ℕ → ℕ → Kernel → Outcome Went
unfolding kthread_cancel
proc_kill p status k =
    if own_process p k.curproc
    then ok (exits status)
    else (first_thread (k.procs p).threads >>= λ t. kthread_cancel t 0 k.sys)

-- Whom proc_kill_all spares: the processes 0, 1 and 2, and the one that calls it.
abbrev pub spared : ℕ → Kernel → Bool
spared p k =
    is_pid 0 (k.procs p).pid
    || (is_pid 1 (k.procs p).pid || (is_pid 2 (k.procs p).pid || own_process p k.curproc))

-- The kernel for the next round of its loop.
abbrev pub resume : Went → Kernel → Outcome Kernel
resume (on s) k = ok (record k { sys = s })
resume (exits r) k = panic

pub kill_loop : List ℕ → Kernel → Outcome Kernel
unfolding proc_kill
kill_loop [] k = ok k
kill_loop (p ∷ r) k =
    (if spared p k then ok k else (proc_kill p 0 k >>= λ w. resume w k)) >>= λ k'. kill_loop r k'

pub proc_kill_all : Kernel → Outcome Kernel
unfolding kill_loop
proc_kill_all k = kill_loop k.proc_list k
