-- ===== src/Proc/Sched.antt =====
-- The scheduler of kernel/proc/sched.c and sched_helper.c. The interrupt priority level is left
-- out: it only decides when the handlers run, and they are given as the list of the queues on which
-- they wake a thread, one for each return of intr_wait.
pub mod Inv
pub mod Wake
pub mod Contains
pub mod Switch
pub mod Broadcast
use weenix_kernel.Base.{
  ℕ, zero, suc, ◌+◌, Bool, true, false, not, ◌||◌, Option, none, some, List, [], ◌∷◌, ◌==◌,
  if◌then◌else◌, length,
}
use weenix_kernel.Base.Outcome.{Outcome, ok, panic, ◌>>=◌, ◌>>◌, kassert, deref}
use weenix_kernel.Proc.Thread.{
  KtState, no_state, run, sleep, sleep_cancellable, exited, Thread, KtQueue, System, update, runq,
}
use weenix_kernel.Proc.Queue
use weenix_kernel.Proc.Queue.{enqueue, dequeue}

abbrev pub set_state : ℕ → KtState → System → System
set_state thr k s = record s {
  threads = update s.threads thr (record (s.threads thr) { state = k });
}

abbrev pub set_cancelled : ℕ → System → System
set_cancelled thr s = record s {
  threads = update s.threads thr (record (s.threads thr) { cancelled = true });
}

abbrev on_runq : Thread → Bool
on_runq t = elim t.wchan [ none ↦ false | some q ↦ q == runq ]

-- sched_make_runnable.
unfoldable pub make_runnable : ℕ → System → Outcome System
make_runnable thr s = do
  kassert (not (on_runq (s.threads thr)))
  enqueue runq thr (set_state thr run s)

abbrev pub asleep : KtState → Bool
asleep sleep = true
asleep sleep_cancellable = true
asleep _ = false

-- sched_wakeup_on. The thread woken, NULL as `none`.
wake : Option ℕ × System → Outcome (Option ℕ × System)
unfolding make_runnable
wake (none, s) = ok (none, s)
wake (some thr, s) = do
  kassert (asleep (s.threads thr).state)
  s' ← make_runnable thr s
  ok (some thr, s')

unfoldable pub wakeup_on : ℕ → System → Outcome (Option ℕ × System)
unfolding wake
wakeup_on q s = wake (dequeue q s)

-- sched_broadcast_on, with fuel for the rounds of its loop; `none` says that it ran out.
pub broadcast_loop : ℕ → ℕ → System → Outcome (Option System)
broadcast_loop zero q s = ok none
broadcast_loop (suc rounds) q s = elim (wakeup_on q s) [
  | panic ↦ panic
  | ok (none, s') ↦ ok (some s')
  | ok (some _, s') ↦ broadcast_loop rounds q s'
]

-- A queue of n threads takes n + 1 rounds.
unfoldable pub broadcast_on : ℕ → System → Outcome (Option System)
unfolding broadcast_loop
broadcast_on q s = broadcast_loop (length (s.queues q).list + 1) q s

-- sched_switch, up to the moment when the next thread runs. `none`: no thread is runnable and no
-- interrupt is left, so the processor waits.
run_next : Option ℕ × System → (System → Outcome (Option System)) → Outcome (Option System)
run_next (none, s) wait = wait s
run_next (some thr, s) wait = ok (some (record s { curthr = thr }))

unfoldable pub switch : List ℕ → System → Outcome (Option System)
unfolding run_next
switch [] s = run_next (dequeue runq s) (λ s'. ok none)
switch (q ∷ interrupts) s =
    run_next (dequeue runq s) λ s'. wakeup_on q s' >>= λ woken. switch interrupts woken.1

-- sched_sleep_on, before and with its call of sched_switch.
unfoldable pub fall_asleep : KtState → ℕ → System → Outcome System
fall_asleep k q s = enqueue q s.curthr (set_state s.curthr k s)

unfoldable pub sleep_on : List ℕ → ℕ → System → Outcome (Option System)
unfolding fall_asleep
sleep_on interrupts q s = fall_asleep sleep q s >>= λ s'. switch interrupts s'

-- sched_cancellable_sleep_on: the part before the switch, which returns -EINTR at once to a thread
-- that is cancelled (`true`) or leaves it asleep; and what it returns when it runs again.
unfoldable pub cancellable_sleep_on : ℕ → System → Outcome (Bool × System)
unfolding fall_asleep
cancellable_sleep_on q s =
    if (s.threads s.curthr).cancelled
    then ok (true, s)
    else (fall_asleep sleep_cancellable q s >>= λ s'. ok (false, s'))

unfoldable pub interrupted : System → Bool
interrupted s = (s.threads s.curthr).cancelled

abbrev pub is_cancellable : KtState → Bool
is_cancellable sleep_cancellable = true
is_cancellable _ = false

-- sched_cancel: a thread in a cancellable sleep is taken off the queue that it sleeps on.
pull_off : ℕ → System → ℕ → Outcome System
pull_off thr s q = Queue.remove q thr s >>= λ s'. make_runnable thr s'

unfoldable pub cancel : ℕ → System → Outcome System
unfolding pull_off
cancel thr s =
    if is_cancellable (s.threads thr).state
    then (deref (s.threads thr).wchan >>= λ q. pull_off thr (set_cancelled thr s) q)
    else ok (set_cancelled thr s)
