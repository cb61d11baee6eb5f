-- ===== src/Proc/Mutex.antt =====
-- kernel/proc/kmutex.c.
pub mod Handoff
use weenix_kernel.Base.{
  ℕ, Bool, true, false, not, Option, none, some, List, [], ◌∷◌, ◌==◌, if◌then◌else◌,
}
use weenix_kernel.Base.Outcome.{Outcome, ok, panic, ◌>>=◌, ◌>>◌, kassert}
use weenix_kernel.Proc.Thread.{KtQueue, System, update}
use weenix_kernel.Proc.Sched.{sleep_on, wakeup_on, cancellable_sleep_on, interrupted}

-- km_holder and the identity of km_waitq.
pub record Mutex : Type 0 where
  pub holder : Option ℕ
  pub waitq : ℕ

abbrev pub held_by : ℕ → Mutex → Bool
held_by t m = elim m.holder [ none ↦ false | some h ↦ h == t ]

-- sched_queue_init and sched_queue_empty.
abbrev pub empty_queue : KtQueue
empty_queue = record { list = []; size = 0 }

abbrev pub is_empty : List ℕ → Bool
is_empty [] = true
is_empty (_ ∷ _) = false

pub init : ℕ → System → Mutex × System
init waitq s = (
  record { holder = none; waitq = waitq },
  record s { queues = update s.queues waitq empty_queue },
)

-- kmutex_lock, with the interrupts that come while the processor waits in its sleep. The system
-- after the call is that of the thread which runs next.
pub lock : List ℕ → Mutex → System → Outcome (Mutex × Option System)
lock interrupts m s = do
  kassert (not (held_by s.curthr m))
  elim m.holder [
    | none ↦ ok (record m { holder = some s.curthr }, some s)
    | some _ ↦ (sleep_on interrupts m.waitq s >>= λ o. ok (m, o))
  ]

-- kmutex_unlock.
hand_over : Mutex → System → Outcome (Mutex × System)
hand_over m s =
    if is_empty (s.queues m.waitq).list
    then ok (record m { holder = none }, s)
    else (wakeup_on m.waitq s >>= λ woken. ok (record m { holder = woken.0 }, woken.1))

pub unlock : Mutex → System → Outcome (Mutex × System)
unfolding hand_over
unlock m s = do
  kassert (held_by s.curthr m)
  done ← hand_over m s
  kassert (not (held_by done.1.curthr done.0))
  ok done

-- kmutex_lock_cancellable: it returns -EINTR, holds the mutex, or has gone to sleep, in which case
-- `locked_or_cancelled` is what it does when it runs again.
pub data Locking : Type 0 where
  eintr : Mutex → System → Locking
  locked : Mutex → System → Locking
  blocked : Mutex → System → Locking

pub locked_or_cancelled : Bool → Mutex → System → Outcome Locking
unfolding unlock
locked_or_cancelled cancelled m s =
    if cancelled then (unlock m s >>= λ done. ok (eintr done.0 done.1)) else ok (locked m s)

pub lock_cancellable : Mutex → System → Outcome Locking
unfolding locked_or_cancelled
lock_cancellable m s = do
  kassert (not (held_by s.curthr m))
  if interrupted s then ok (eintr m s) else (elim m.holder [
    | none ↦ ok (locked (record m { holder = some s.curthr }) s)
    | some _ ↦
        (cancellable_sleep_on m.waitq s >>= λ slept.
        if slept.0 then locked_or_cancelled true m slept.1 else ok (blocked m slept.1))
  ])

pub lock_cancellable_resume : Mutex → System → Outcome Locking
unfolding locked_or_cancelled
lock_cancellable_resume m s = locked_or_cancelled (interrupted s) m s
