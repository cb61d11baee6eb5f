-- ===== src/Proc/Process/Spawn.antt =====
-- proc_create, with its search for a pid.
use weenix_kernel.Base.{
  ℕ, ◌+◌, ◌%◌, ◌<◌, ◌≡◌, refl, true, false, Option, none, some, List, has, arith, sym, subst, clash,
  differ,
}
use weenix_kernel.Base.Outcome.{ok, Ends, Ends-bind, ◌>>=◌}
use weenix_kernel.Proc.Process.{
  Process, Kernel, Call, create_with, create_pid, create, pids, is_pid, new_process, link_in,
  first_cwd, vget_all,
}
use weenix_kernel.Proc.Process.Family.{Family}
use weenix_kernel.Proc.Process.Create.{NewProcess, Created, link_in-Created}
use weenix_kernel.Proc.Pid.{advance_pid}
use weenix_kernel.Proc.Pid.Fresh.{Fresh, getid-First}

-- proc_create made the process `p` with a pid that no process had, or -1 if all are taken.
abbrev pub Spawned : ℕ → ℕ → ℕ → Kernel → Option (Kernel × List Call) → Type 0
Spawned max p parent k r =
    (pid : Option ℕ) × Fresh max (pids k.procs k.proc_list) k.next_pid pid
    × ((made : Kernel × List Call) × (r ≡ some made) × Created p parent pid k made)

taken :
    (pid : ℕ) (m : List ℕ) (max next : ℕ) (o : Option ℕ)
    → has pid m ≡ true
    → Fresh max m next o
    → is_pid pid o ≡ false
taken pid m max next none h f = refl
taken pid m max next (some q) h f =
    differ q pid λ e. clash (has pid m) h (subst (λ y. has y m ≡ false) e f.1)

module _ (max p parent wait : ℕ) (k : Kernel) (f : Family k) (n : NewProcess p parent k) where
  abbrev k_at : ℕ → Kernel
  k_at next = record k { next_pid = next }

  abbrev x_at : Option ℕ → ℕ → Process
  x_at pid next =
      new_process wait pid (first_cwd pid k) ((k.procs parent).brk, (k.procs parent).start_brk)
        (k_at next)

  same_Family : (next : ℕ) → Family (k_at next)
  same_Family next = record {
    once = f.once;
    children_once = f.children_once;
    is_child = f.is_child;
    in_children = f.in_children;
    no_orphan = f.no_orphan;
  }

  same_NewProcess : (next : ℕ) → NewProcess p parent (k_at next)
  same_NewProcess next = record {
    new = n.new;
    no_child = n.no_child;
    parent_is = n.parent_is;
    parent_listed = n.parent_listed;
    parent_runs = n.parent_runs;
  }

  create_with-Created :
      (pid : Option ℕ) (next : ℕ)
      → is_pid 0 pid ≡ false
      → is_pid 1 pid ≡ false
      → Ends (Created p parent pid k) (create_with p wait pid (k_at next))
  unfolding create_with
  create_with-Created pid next zero_taken one_taken =
      let eq : create_with p wait pid (k_at next)
          ≡ ok (link_in p pid (x_at pid next) (k_at next), vget_all (first_cwd pid k)) =
        ground (arith, n.parent_is) in
      subst (Ends (Created p parent pid k)) (sym eq) (
        link_in-Created p parent pid (k_at next) (same_Family next) (same_NewProcess next)
          (x_at pid next) refl n.parent_is refl refl (vget_all (first_cwd pid k)))

  run_with-Spawned :
      (pid : Option ℕ) (next : ℕ)
      → has 0 (pids k.procs k.proc_list) ≡ true
      → has 1 (pids k.procs k.proc_list) ≡ true
      → Fresh max (pids k.procs k.proc_list) k.next_pid pid
      → Ends
          (Spawned max p parent k)
          (create_with p wait pid (k_at next) >>= λ done. ok (some done))
  run_with-Spawned pid next zero_taken one_taken fresh =
      let m = pids k.procs k.proc_list in
      Ends-bind (Created p parent pid k) (Spawned max p parent k)
        (create_with p wait pid (k_at next)) _
        (create_with-Created pid next (taken 0 m max k.next_pid pid zero_taken fresh)
          (taken 1 m max k.next_pid pid one_taken fresh))
        λ made c. (pid, fresh, (made, refl, c))

  create_pid-Spawned :
      (pid : Option ℕ)
      → has 0 (pids k.procs k.proc_list) ≡ true
      → has 1 (pids k.procs k.proc_list) ≡ true
      → Fresh max (pids k.procs k.proc_list) k.next_pid pid
      → Ends (Spawned max p parent k) (create_pid p wait (some (advance_pid max k.next_pid pid)) k)
  unfolding create_pid
  create_pid-Spawned none z o f = run_with-Spawned none k.next_pid z o f
  create_pid-Spawned (some pid) z o f = run_with-Spawned (some pid) ((pid + 1) % max) z o f

  -- If processes, parents and children agree, curproc runs and is on the process list, next_pid is below
  -- PROC_MAX_COUNT, and the pids 0 and 1 are taken, then proc_create ends without panic: the new
  -- process runs, has no children, is at the head of the process list and of the list of its parent,
  -- which is curproc, and processes, parents and children agree again. Its pid is below
  -- PROC_MAX_COUNT and that of no other process; but if all are taken, its pid is -1.
  pub create-Spawned :
      k.next_pid < max
      → has 0 (pids k.procs k.proc_list) ≡ true
      → has 1 (pids k.procs k.proc_list) ≡ true
      → Ends (Spawned max p parent k) (create max p wait k)
  unfolding create
  create-Spawned lt zero_taken one_taken =
      let m = pids k.procs k.proc_list in
      let (o, e, first, fresh) = getid-First max m k.next_pid lt in
      subst (λ r. Ends (Spawned max p parent k) (create_pid p wait r k)) (sym e)
        (create_pid-Spawned o zero_taken one_taken fresh)
