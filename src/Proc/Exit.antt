-- ===== src/Proc/Exit.antt =====
-- The exit of a process: proc_cleanup of kernel/proc/proc.c.
pub mod Moves
pub mod Orphans
pub mod WakeParent
pub mod Close
pub mod Cleanup
use weenix_kernel.Base.{
  ℕ, zero, suc, ◌+◌, Bool, true, false, not, ◌&&◌, ◌||◌, Option, none, some, List, [], ◌∷◌, ◌++◌,
  ◌==◌, if◌then◌else◌, erase, ltb,
}
use weenix_kernel.Base.Int.{ℤ, pos, negsuc}
use weenix_kernel.Base.Outcome.{Outcome, ok, panic, ◌>>=◌, ◌>>◌, kassert, deref}
use weenix_kernel.Proc.Thread.{KtState, exited, Thread, KtQueue, System, update}
use weenix_kernel.Proc.Sched.{sleep_on, wakeup_on, switch}
use weenix_kernel.Proc.Process.{
  ProcState, running, dead, Process, Kernel, Call, fput, vget, vput, vmmap_destroy, is_null, is_nil,
  is_pid, set_proc,
}

-- A round of the loop of proc_cleanup over the children: the child goes to the head of the list of
-- `init`. (The list it came from is not read again, and keeps its entries here.)
pub move_child : ℕ → ℕ → Kernel → Kernel
move_child child init k =
    let x = k.procs init in
    let k' = set_proc init (record x { children = child ∷ x.children }) k in
    set_proc child (record (k'.procs child) { parent = some init }) k'

pub reparent : List ℕ → ℕ → Kernel → Kernel
unfolding move_child
reparent [] init k = k
reparent (child ∷ r) init k = reparent r init (move_child child init k)

abbrev pub close_file : Option ℕ → List Call → List Call
close_file none rest = rest
close_file (some f) rest = fput f ∷ rest

-- The loop that closes the files from the descriptor `d` on, with `n` to go.
pub close_files : ℕ → ℕ → (ℕ → Option ℕ) → List Call
close_files zero d files = []
close_files (suc n) d files = close_file (files d) (close_files n (d + 1) files)

abbrev pub vput_all : Option ℕ → List Call
vput_all none = []
vput_all (some v) = vput v ∷ []

-- sched_wakeup_on the parent's p_wait, unless it is empty.
pub wake_parent : ℕ → Kernel → Outcome Kernel
wake_parent q k =
    if is_nil (k.sys.queues q).list
    then ok k
    else (wakeup_on q k.sys >>= λ woken. ok (record k { sys = woken.1 }))

abbrev pub is_exited : KtState → Bool
is_exited exited = true
is_exited _ = false

abbrev pub at_least_one : Option ℕ → Bool
at_least_one none = false
at_least_one (some pid) = ltb 0 pid

abbrev pub bury : ℕ → ℕ → ℤ → Kernel → Kernel
bury nfiles cur status k =
    set_proc cur
      (record (k.procs cur) {
        status = status;
        state = dead;
        files = λ d. if ltb d nfiles then none else (k.procs cur).files d;
      })
      k

-- proc_cleanup, behind the wakeup of the parent.
pub bury_process : ℕ → ℤ → ℕ → ℕ → Kernel → Outcome (Kernel × List Call)
unfolding reparent close_files
bury_process nfiles status cur init k = do
  let k2 = reparent (k.procs cur).children init k
  let k3 = bury nfiles cur status k2
  kassert (not (is_null (k3.procs cur).parent))
  kassert (is_exited (k3.sys.threads k3.sys.curthr).state)
  ok (
    k3,
    close_files nfiles 0 (k2.procs cur).files
        ++ (vput_all (k2.procs cur).cwd ++ vmmap_destroy cur ∷ []),
  )

-- proc_cleanup. `nfiles` is NFILES.
unfoldable pub cleanup : ℕ → ℤ → Kernel → Outcome (Kernel × List Call)
unfolding wake_parent bury_process
cleanup nfiles status k = do
  init ← deref k.initproc
  cur ← deref k.curproc
  kassert (at_least_one (k.procs cur).pid)
  kassert (not (is_null (k.procs cur).parent))
  parent ← deref (k.procs (k.sys.threads k.sys.curthr).proc).parent
  k1 ← wake_parent (k.procs parent).wait k
  bury_process nfiles status cur init k1
