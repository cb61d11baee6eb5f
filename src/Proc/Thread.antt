-- ===== src/Proc/Thread.antt =====
-- kthread_t, ktqueue_t and the scheduler's globals (kernel/proc/kthread.c, sched.c).
use weenix_kernel.Base.{ℕ, Bool, Option, List, ◌==◌, if◌then◌else◌}

-- kt_state.
pub data KtState : Type 0 where
  no_state run sleep sleep_cancellable exited : KtState

-- `wchan` is the queue that holds the thread, NULL as `none`; only the queue routines set it, and
-- they link and unlink kt_qlink with it, so a thread has kt_qlink linked exactly when it is set.
pub record Thread : Type 0 where
  pub state : KtState
  pub cancelled : Bool
  pub wchan : Option ℕ
  pub retval : ℕ
  pub proc : ℕ

-- tq_list from its head to its tail, and the int tq_size as its 32 bits.
pub record KtQueue : Type 0 where
  pub list : List ℕ
  pub size : ℕ

-- Threads and queues by identity, with curthr.
pub record System : Type 0 where
  pub threads : ℕ → Thread
  pub queues : ℕ → KtQueue
  pub curthr : ℕ

-- The identity of kt_runq.
abbrev pub runq : ℕ
runq = 0

abbrev pub update {ℓ} : {A : Type ℓ} → (ℕ → A) → ℕ → A → ℕ → A
update f i a j = if i == j then a else f j
