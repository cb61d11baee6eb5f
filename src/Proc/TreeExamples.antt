-- ===== src/Proc/TreeExamples.antt =====
-- The theorems about processes at a small tree: the idle process 0 is the parent of init, which is
-- 1; that is the parent of 2, which is the parent of 3 and of the dead 4. Thread 1 runs for 2, and
-- thread 2 waits on the p_wait of init.
use weenix_kernel.Base.{
  ℕ, ◌+◌, ◌≡◌, refl, true, false, Option, none, some, List, [], ◌∷◌, ◌==◌, if◌then◌else◌, arith,
}
use weenix_kernel.Base.Int.{pos, negsuc}
use weenix_kernel.Base.Outcome.{Ends}
use weenix_kernel.Proc.Thread.{KtState, run, sleep, exited, System}
use weenix_kernel.Proc.Sched.Inv.{Inv}
use weenix_kernel.Proc.Process.{ProcState, running, dead, Process, Kernel, create}
use weenix_kernel.Proc.Process.Family.{Family}
use weenix_kernel.Proc.Process.Create.{NewProcess}
use weenix_kernel.Proc.Process.Spawn.{Spawned, create-Spawned}
use weenix_kernel.Proc.Pid.{getid, advance_pid}
use weenix_kernel.Proc.Pid.Fresh.{First, Fresh, getid-First}
use weenix_kernel.Proc.Exit.{cleanup}
use weenix_kernel.Proc.Exit.Cleanup.{CleanedUp, Exiting, cleanup-CleanedUp}
use weenix_kernel.Proc.Waitpid.{do_waitpid, wait_again}
use weenix_kernel.Proc.Waitpid.Waits.{Again, Answers, Waiting, do_waitpid-Waits}

abbrev process : ℕ → Option ℕ → List ℕ → ProcState → Process
process n parent children state = record {
  pid = some n;
  parent = parent;
  children = children;
  threads = n ∷ [];
  status = pos 0;
  state = state;
  wait = n + 1;
  files = λ d. if d == 0 then some 7 else none;
  cwd = some 9;
  brk = 0;
  start_brk = 0;
}

abbrev processes : ℕ → Process
processes u =
    if u == 0
    then process 0 none (1 ∷ []) running
    else (if u == 1
        then process 1 (some 0) (2 ∷ []) running
        else (if u == 2
            then process 2 (some 1) (4 ∷ 3 ∷ []) running
            else (if u == 3 then process 3 (some 2) [] running else process u (some 2) [] dead)))

abbrev scheduler : KtState → System
scheduler state = record {
  threads = λ t. record {
    state = if t == 2 then sleep else state;
    cancelled = false;
    wchan = if t == 2 then some 2 else none;
    retval = 0;
    proc = 2;
  };
  queues =
      λ q. if q == 2 then record { list = 2 ∷ []; size = 1 } else record { list = []; size = 0 };
  curthr = 1;
}

scheduler-Inv : (state : KtState) → Inv (scheduler state)
scheduler-Inv state = record {
  listed = λ q t h. ground arith;
  located = λ q t h. ground arith;
  once = λ q. ground arith;
  sized = λ q. ground arith;
  fits = λ q t h. ground arith;
}

abbrev tree : KtState → Kernel
tree state = record {
  procs = processes;
  proc_list = 4 ∷ 3 ∷ 2 ∷ 1 ∷ 0 ∷ [];
  next_pid = 4;
  curproc = some 2;
  initproc = some 1;
  root = some 9;
  sys = scheduler state;
}

tree-Family : (state : KtState) → Family (tree state)
tree-Family state = record {
  once = ground arith;
  children_once = λ p l r. ground arith;
  is_child = λ p c l r h. ground arith;
  in_children = λ p c l r m e. ground arith;
  no_orphan = λ c p l e. ground arith;
}

tree-Exiting : Exiting 2 1 1 (tree exited)
tree-Exiting = record {
  family = tree-Family exited;
  scheduler = scheduler-Inv exited;
  cur_is = refl;
  init_is = refl;
  cur_listed = refl;
  cur_runs = refl;
  init_listed = refl;
  init_runs = refl;
  not_init = λ e. omega arith;
  has_pid = refl;
  parent_is = refl;
  own_thread = refl;
  has_exited = refl;
  own_queue = λ e. omega arith;
}

tree-Waiting : Waiting 2 (tree run)
tree-Waiting = record {
  family = tree-Family run;
  scheduler = scheduler-Inv run;
  cur_is = refl;
  cur_listed = refl;
  cur_runs = refl;
  unqueued = refl;
  own_queue = λ e. omega arith;
  has_thread = λ c h d. ground arith;
}

tree-NewProcess : NewProcess 5 2 (tree run)
tree-NewProcess = record {
  new = refl;
  no_child = λ c h e. ground arith;
  parent_is = refl;
  parent_listed = refl;
  parent_runs = refl;
}

abbrev five_pids : List ℕ
five_pids = 4 ∷ 3 ∷ 2 ∷ 1 ∷ 0 ∷ []

getid-First_example :
    (o : Option ℕ) × (getid 8 five_pids 4 ≡ some (advance_pid 8 4 o))
    × First 8 five_pids 4 0 o
    × Fresh 8 five_pids 4 o
getid-First_example = getid-First 8 five_pids 4 (omega arith)

cleanup-CleanedUp_example :
    Ends (CleanedUp 32 (pos 3) 2 1 1 (tree exited)) (cleanup 32 (pos 3) (tree exited))
cleanup-CleanedUp_example = cleanup-CleanedUp 32 (pos 3) 2 1 1 (tree exited) tree-Exiting

do_waitpid-Waits_example :
    Ends (Answers 2 (tree run) (negsuc 0) true) (do_waitpid [] (negsuc 0) true (tree run))
    × Ends (Again 2 (tree run) none) (wait_again [] 2 none (tree run))
do_waitpid-Waits_example =
    do_waitpid-Waits [] 2 (tree run) tree-Waiting (negsuc 0) true none (λ c e. cc)

create-Spawned_example : Ends (Spawned 8 5 2 (tree run)) (create 8 5 6 (tree run))
create-Spawned_example =
    create-Spawned 8 5 2 6 (tree run) (tree-Family run) tree-NewProcess (omega arith) refl refl
