-- ===== src/Proc/Examples.antt =====
-- The theorems about threads, queues and mutexes at a small system: thread 1 runs and holds the
-- mutex of queue 5, on which 2 and then 3 fell asleep; 4 is runnable.
use weenix_kernel.Base.{
  ℕ, ◌+◌, ◌≡◌, ◌≢◌, refl, false, Option, none, some, [], ◌∷◌, ◌==◌, if◌then◌else◌, arith,
}
use weenix_kernel.Base.Outcome.{panic, Ends}
use weenix_kernel.Proc.Thread.{
  KtState, run, sleep, sleep_cancellable, Thread, KtQueue, System, runq,
}
use weenix_kernel.Proc.Sched.{broadcast_on, switch, cancel}
use weenix_kernel.Proc.Sched.Inv.{Inv}
use weenix_kernel.Proc.Sched.Broadcast.{Broadcast, broadcast_on-Broadcast}
use weenix_kernel.Proc.Sched.Switch.{Switched, switch-Switched}
use weenix_kernel.Base.Int.{pos}
use weenix_kernel.Proc.Process.{running, Process, Kernel}
use weenix_kernel.Proc.Kill.{proc_kill_all}
use weenix_kernel.Proc.Kill.Marked.{Sleepers}
use weenix_kernel.Proc.Kill.All.{HasVictims, KilledAll, proc_kill_all-Killed}
use weenix_kernel.Proc.Mutex.{Mutex, unlock, lock_cancellable_resume}
use weenix_kernel.Proc.Mutex.Handoff.{MutexInv, Unlocked, unlock-Unlocked, cancelled_waiter_panics}

abbrev thread : KtState → Option ℕ → Thread
thread k w = record { state = k; cancelled = false; wchan = w; retval = 0; proc = 3 }

abbrev threads : ℕ → Thread
threads t =
    if t == 2
    then thread sleep_cancellable (some 5)
    else (if t == 3
        then thread sleep (some 5)
        else (if t == 4 then thread run (some 0) else thread run none))

abbrev queues : ℕ → KtQueue
queues q =
    if q == 0
    then record { list = 4 ∷ []; size = 1 }
    else (if q == 5 then record { list = 3 ∷ 2 ∷ []; size = 2 } else record { list = []; size = 0 })

abbrev system : System
system = record { threads = threads; queues = queues; curthr = 1 }

system-Inv : Inv system
system-Inv = record {
  listed = λ q t h. ground arith;
  located = λ q t h. ground arith;
  once = λ q. ground arith;
  sized = λ q. ground arith;
  fits = λ q t h. ground arith;
}

abbrev mutex : Mutex
mutex = record { holder = some 1; waitq = 5 }

mutex-Inv : MutexInv mutex system
mutex-Inv = record { own_queue = λ e. omega arith; idle = λ e. cc; apart = λ h e. ground arith }

five_ne_runq : ◌≢◌ {A = ℕ} 5 runq
five_ne_runq e = omega arith

broadcast_on-Broadcast_example : Ends (Broadcast 5 system) (broadcast_on 5 system)
broadcast_on-Broadcast_example = broadcast_on-Broadcast 5 system system-Inv five_ne_runq

switch-Switched_example : Ends (Switched system) (switch (5 ∷ []) system)
switch-Switched_example = switch-Switched (5 ∷ []) system system-Inv

-- The same, as thread 7 runs.
abbrev other : System
other = record { threads = threads; queues = queues; curthr = 7 }

other-Inv : Inv other
other-Inv =
    let i = system-Inv in
    record { listed = i.listed; located = i.located; once = i.once; sized = i.sized; fits = i.fits }

unlock-Unlocked_example : Ends (Unlocked mutex system) (unlock mutex system)
unlock-Unlocked_example = unlock-Unlocked mutex system system-Inv mutex-Inv refl

cancelled_waiter_panics_example :
    Ends
      (λ s'.
        (m' : Mutex) (z : System)
        → m'.holder ≡ some 1
        → (z.threads 2).cancelled ≡ (s'.threads 2).cancelled
        → z.curthr ≡ 2
        → lock_cancellable_resume m' z ≡ panic)
      (cancel 2 system)
cancelled_waiter_panics_example =
    cancelled_waiter_panics mutex system 2 system-Inv mutex-Inv refl refl

-- Process 2 runs thread 1 and halts the system; thread 2 belongs to process 3.
abbrev process : ℕ → Process
process p = record {
  pid = some p;
  parent = some 1;
  children = [];
  threads = if p == 3 then 2 ∷ [] else (p + 8) ∷ [];
  status = pos 0;
  state = running;
  wait = p + 10;
  files = λ d. none;
  cwd = none;
  brk = 0;
  start_brk = 0;
}

abbrev kernel : Kernel
kernel = record {
  procs = process;
  proc_list = 3 ∷ 2 ∷ 1 ∷ 0 ∷ [];
  next_pid = 4;
  curproc = some 2;
  initproc = some 1;
  root = none;
  sys = system;
}

system-Sleepers : Sleepers system
system-Sleepers t h = (5, ground arith)

kernel-HasVictims : HasVictims (3 ∷ 2 ∷ 1 ∷ 0 ∷ []) kernel
kernel-HasVictims p on_p kept = (2, [], ground arith, refl)

proc_kill_all-Killed_example : Ends (KilledAll (2 ∷ []) kernel) (proc_kill_all kernel)
proc_kill_all-Killed_example =
    proc_kill_all-Killed kernel system-Inv system-Sleepers kernel-HasVictims
