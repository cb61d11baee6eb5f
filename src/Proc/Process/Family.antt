-- ===== src/Proc/Process/Family.antt =====
-- The tree of processes: parents, children and the process list agree.
use weenix_kernel.Base.{ℕ, ◌≡◌, true, some, has, Distinct}
use weenix_kernel.Proc.Process.{running, Kernel}

-- The children of a running process on the process list are, once each, the listed processes whose
-- parent it is; and the parent of a listed process is listed and has not exited.
pub record Family (k : Kernel) : Type 0 where
  pub once : Distinct k.proc_list
  pub children_once :
      (p : ℕ)
      → has p k.proc_list ≡ true
      → (k.procs p).state ≡ running
      → Distinct (k.procs p).children
  pub is_child :
      (p c : ℕ)
      → has p k.proc_list ≡ true
      → (k.procs p).state ≡ running
      → has c (k.procs p).children ≡ true
      → (has c k.proc_list ≡ true) × ((k.procs c).parent ≡ some p)
  pub in_children :
      (p c : ℕ)
      → has p k.proc_list ≡ true
      → (k.procs p).state ≡ running
      → has c k.proc_list ≡ true
      → (k.procs c).parent ≡ some p
      → has c (k.procs p).children ≡ true
  pub no_orphan :
      (c p : ℕ)
      → has c k.proc_list ≡ true
      → (k.procs c).parent ≡ some p
      → (has p k.proc_list ≡ true) × ((k.procs p).state ≡ running)
