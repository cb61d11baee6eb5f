-- ===== src/Proc/Sched/Contains.antt =====
-- ktqueue_contains looks at the head of the queue only.
use weenix_kernel.Base.{
  ℕ, zero, suc, ◌%◌, ◌<◌, ◌≡◌, ◌↔◌, true, false, List, [], ◌∷◌, ◌==◌, length, arith, u32_mod,
}
use weenix_kernel.Proc.Thread.{System}
use weenix_kernel.Proc.Queue.{contains, contains_loop}
use weenix_kernel.Proc.Sched.Inv.{Inv}

contains_loop-eq : (i head thr : ℕ) → 0 < i → contains_loop i head thr ≡ (thr == head)
unfolding contains_loop
contains_loop-eq zero head thr h = absurd (omega arith)
contains_loop-eq (suc zero) head thr h = ground arith
contains_loop-eq (suc (suc i)) head thr h = ground (arith, contains_loop-eq (suc i) head thr)

at_head :
    (size : ℕ) (m : List ℕ) (thr : ℕ)
    → size ≡ length m % u32_mod
    → length m < u32_mod
    → (elim m [ [] ↦ false | head ∷ _ ↦ contains_loop size head thr ] ≡ true)
      ↔ ((r : List ℕ) × (m ≡ thr ∷ r))
at_head size [] thr e h = ((λ p. cc), λ (r, p). cc)
at_head size (x ∷ r) thr e h = (
  (λ p. (r, ground (arith, contains_loop-eq size x thr))),
  λ (r', p). ground (arith, contains_loop-eq size x thr),
)

-- On a queue of fewer than 2 ^ 32 threads ktqueue_contains answers 1 exactly for the thread at the
-- head, that is for the last one enqueued, and 0 for every other thread of the queue.
pub contains-head :
    (q thr : ℕ) (s : System)
    → Inv s
    → length (s.queues q).list < u32_mod
    → (contains q thr s ≡ true) ↔ ((r : List ℕ) × ((s.queues q).list ≡ thr ∷ r))
unfolding contains
contains-head q thr s i h = at_head (s.queues q).size (s.queues q).list thr (i.sized q) h
