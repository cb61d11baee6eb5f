-- ===== src/Proc/Sched/Inv.antt =====
-- The invariant of threads and queues, and that the queue routines keep it.
use weenix_kernel.Base.{
  ℕ, ◌%◌, ◌≡◌, Bool, true, false, not, none, some, ◌==◌, length, arith, has, Distinct, has-erase,
  erase-Distinct, length-erase, u32_mod,
}
use weenix_kernel.Base.Outcome.{Ends}
use weenix_kernel.Proc.Thread.{KtState, run, sleep, sleep_cancellable, Thread, System, update, runq}
use weenix_kernel.Proc.Queue
use weenix_kernel.Proc.Queue.{enqueue, dequeue}

-- What the state of a thread says about the queue it may be on.
abbrev pub fits_queue : KtState → ℕ → Bool
fits_queue run q = q == runq
fits_queue sleep q = not (q == runq)
fits_queue sleep_cancellable q = not (q == runq)
fits_queue _ q = false

-- A thread is on the queue that its wchan names and on no other, once; tq_size counts the queue;
-- a thread on the run queue is running, and one on another queue is asleep.
pub record Inv (s : System) : Type 0 where
  pub listed : (q t : ℕ) → has t (s.queues q).list ≡ true → (s.threads t).wchan ≡ some q
  pub located : (q t : ℕ) → (s.threads t).wchan ≡ some q → has t (s.queues q).list ≡ true
  pub once : (q : ℕ) → Distinct (s.queues q).list
  pub sized : (q : ℕ) → (s.queues q).size ≡ length (s.queues q).list % u32_mod
  pub fits : (q t : ℕ) → (s.threads t).wchan ≡ some q → fits_queue (s.threads t).state q ≡ true

-- A thread on no queue, in a state that fits the queue, is put on it without panic.
pub enqueue-Inv :
    (s : System) (q t : ℕ)
    → Inv s
    → (s.threads t).wchan ≡ none
    → fits_queue (s.threads t).state q ≡ true
    → Ends Inv (enqueue q t s)
unfolding enqueue
enqueue-Inv s q t i free f =
    let e : (s.threads t).wchan ≡ none = free in
    rw e (record {
      listed = λ p u h. ground (arith, i.listed p u, i.listed q t);
      located = λ p u h. ground (arith, i.located p u);
      once = λ p. ground (arith, i.once p, i.once q, i.listed q t);
      sized = λ p. ground (arith, i.sized p);
      fits = λ p u h. ground (arith, i.fits p u);
    })

-- A state without a place on a queue may be changed at will.
pub set_thread-Inv :
    (s : System) (t : ℕ) (v : Thread)
    → Inv s
    → v.wchan ≡ (s.threads t).wchan
    → ((q : ℕ) → v.wchan ≡ some q → fits_queue v.state q ≡ true)
    → Inv (record s { threads = update s.threads t v })
set_thread-Inv s t v i e f = record {
  listed = λ q u h. ground (arith, i.listed q u);
  located = λ q u h. ground (arith, i.located q u);
  once = i.once;
  sized = i.sized;
  fits = λ q u h. ground (arith, i.fits q u, f q);
}

-- Removing a thread from the queue that it is on.
pub remove-Inv :
    (s : System) (q t : ℕ)
    → Inv s
    → (s.threads t).wchan ≡ some q
    → Ends (λ s'. Inv s' × ((s'.threads t).wchan ≡ none)) (Queue.remove q t s)
unfolding Queue.remove
remove-Inv s q t i w = rw w (
  record {
    listed = λ p u h.
        ground
          (arith, i.listed p u, i.once p, i.once q, has-erase t u (s.queues q).list, i.listed q t);
    located = λ p u h. ground (arith, i.located p u, i.once q, has-erase t u (s.queues q).list);
    once = λ p. ground (arith, i.once p, i.once q, erase-Distinct t (s.queues q).list);
    sized = λ p.
        ground (arith, i.sized p, i.sized q, i.located q t w, length-erase t (s.queues q).list);
    fits = λ p u h. ground (arith, i.fits p u);
  },
  ground arith,
)
