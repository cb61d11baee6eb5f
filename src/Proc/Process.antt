-- ===== src/Proc/Process.antt =====
-- Processes and their creation: proc_t and proc_create of kernel/proc/proc.c. The effects on files, vnodes and address spaces are listed, as
-- calls of routines of other parts.
pub mod Family
pub mod Create
pub mod Spawn
use weenix_kernel.Base.{
  ℕ, zero, suc, ◌+◌, Bool, true, false, not, ◌&&◌, ◌||◌, Option, none, some, List, [], ◌∷◌, ◌++◌,
  ◌==◌, if◌then◌else◌, erase, ltb,
}
use weenix_kernel.Base.Int.{ℤ, pos, negsuc}
use weenix_kernel.Base.Outcome.{Outcome, ok, panic, ◌>>=◌, ◌>>◌, kassert, deref}
use weenix_kernel.Proc.Thread.{KtState, exited, Thread, KtQueue, System, update}
use weenix_kernel.Proc.Sched.{sleep_on, wakeup_on, switch}
use weenix_kernel.Proc.Pid.{getid}

-- p_state.
pub data ProcState : Type 0 where
  running dead : ProcState

-- proc_t, with p_pid -1 as `none`, and NULL as `none`. `wait` is the identity of p_wait.
pub record Process : Type 0 where
  pub pid : Option ℕ
  pub parent : Option ℕ
  pub children : List ℕ
  pub threads : List ℕ
  pub status : ℤ
  pub state : ProcState
  pub wait : ℕ
  pub files : ℕ → Option ℕ
  pub cwd : Option ℕ
  pub brk : ℕ
  pub start_brk : ℕ

-- The processes by identity, _proc_list, next_pid, curproc, proc_initproc and vfs_root_vn.
pub record Kernel : Type 0 where
  pub procs : ℕ → Process
  pub proc_list : List ℕ
  pub next_pid : ℕ
  pub curproc : Option ℕ
  pub initproc : Option ℕ
  pub root : Option ℕ
  pub sys : System

-- Calls of routines of other parts, with the file, the vnode or the process they get.
pub data Call : Type 0 where
  fput : ℕ → Call
  vget : ℕ → Call
  vput : ℕ → Call
  vmmap_destroy : ℕ → Call

abbrev pub is_null : Option ℕ → Bool
is_null none = true
is_null (some p) = false

abbrev pub is_nil : List ℕ → Bool
is_nil [] = true
is_nil (x ∷ r) = false

abbrev pub is_pid : ℕ → Option ℕ → Bool
is_pid n none = false
is_pid n (some pid) = pid == n

-- The pids on the process list.
abbrev pub pids : (ℕ → Process) → List ℕ → List ℕ
pids procs [] = []
pids procs (p ∷ r) = elim (procs p).pid [ none ↦ pids procs r | some pid ↦ pid ∷ pids procs r ]

abbrev pub set_proc : ℕ → Process → Kernel → Kernel
set_proc p x k = record k { procs = update k.procs p x }

-- list_insert_head(&curproc->p_children, &p->p_child_link), if curproc is not NULL.
abbrev pub adopt : Option ℕ → ℕ → Kernel → Kernel
adopt none p k = k
adopt (some cur) p k =
    set_proc cur (record (k.procs cur) { children = p ∷ (k.procs cur).children }) k

abbrev inherited : Option ℕ → (Process → ℕ) → Kernel → Outcome ℕ
inherited none field k = panic
inherited (some cur) field k = ok (field (k.procs cur))

-- p_brk and p_start_brk: those of curproc, for all but the idle process.
abbrev breaks : Option ℕ → Kernel → Outcome (ℕ × ℕ)
breaks pid k = if is_pid 0 pid then ok (0, 0) else (do
  brk ← inherited k.curproc (λ x. x.brk) k
  start_brk ← inherited k.curproc (λ x. x.start_brk) k
  ok (brk, start_brk))

abbrev above_one : Option ℕ → Bool
above_one none = false
above_one (some pid) = ltb 1 pid

abbrev curproc_is_idle : Kernel → Outcome Bool
curproc_is_idle k = deref k.curproc >>= λ cur. ok (is_pid 0 (k.procs cur).pid)

abbrev pub new_process : ℕ → Option ℕ → Option ℕ → ℕ × ℕ → Kernel → Process
new_process wait pid cwd b k = record {
  pid = pid;
  parent = k.curproc;
  children = [];
  threads = [];
  status = pos 0;
  state = running;
  wait = wait;
  files = λ d. none;
  cwd = cwd;
  brk = b.0;
  start_brk = b.1;
}

abbrev pub vget_all : Option ℕ → List Call
vget_all none = []
vget_all (some v) = vget v ∷ []

-- p_cwd of a new process: the root directory, if it is there, for all but the first two.
abbrev pub first_cwd : Option ℕ → Kernel → Option ℕ
first_cwd pid k = if above_one pid then k.root else none

abbrev pub link_in : ℕ → Option ℕ → Process → Kernel → Kernel
link_in p pid x k =
    let k' = adopt k.curproc p (set_proc p x k) in
    record k' {
      proc_list = p ∷ k.proc_list;
      initproc = if is_pid 1 pid then some p else k.initproc;
    }

-- proc_create, behind _proc_getid. `p` is the object from the slab allocator, `wait` its queue.
unfoldable pub create_with : ℕ → ℕ → Option ℕ → Kernel → Outcome (Kernel × List Call)
create_with p wait pid k = do
  kassert (not (is_pid 0 pid) || is_nil k.proc_list)
  by_idle ← (if is_pid 1 pid then curproc_is_idle k else ok true)
  kassert by_idle
  b ← breaks pid k
  ok (link_in p pid (new_process wait pid (first_cwd pid k) b k) k, vget_all (first_cwd pid k))

create_pid : ℕ → ℕ → Option (Option ℕ × ℕ) → Kernel → Outcome (Option (Kernel × List Call))
unfolding create_with
create_pid p wait none k = ok none
create_pid p wait (some (pid, next)) k =
    create_with p wait pid (record k { next_pid = next }) >>= λ done. ok (some done)

-- proc_create; `none`: the search for a pid ran out of fuel. `max` is PROC_MAX_COUNT.
unfoldable pub create : ℕ → ℕ → ℕ → Kernel → Outcome (Option (Kernel × List Call))
unfolding create_pid
create max p wait k = create_pid p wait (getid max (pids k.procs k.proc_list) k.next_pid) k
