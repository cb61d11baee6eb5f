-- ===== src/Proc/Queue.antt =====
-- The queue routines of kernel/proc/sched.c.
use weenix_kernel.Base.{
  ℕ, zero, suc, Bool, true, false, not, Option, none, some, List, [], ◌∷◌, ◌==◌, if◌then◌else◌,
  add32, sub32, unsnoc, erase,
}
use weenix_kernel.Base.Outcome.{Outcome, ok, ◌>>◌, kassert}
use weenix_kernel.Proc.Thread.{Thread, KtQueue, System, update}

abbrev pub unqueued : Thread → Bool
unqueued t = elim t.wchan [ none ↦ true | some _ ↦ false ]

abbrev pub set_wchan : Thread → Option ℕ → Thread
set_wchan t w = record t { wchan = w }

abbrev push_head : KtQueue → ℕ → KtQueue
push_head q thr = record { list = thr ∷ q.list; size = add32 q.size 1 }

-- ktqueue_enqueue: insertion at the head.
unfoldable pub enqueue : ℕ → ℕ → System → Outcome System
enqueue q thr s = do
  kassert (unqueued (s.threads thr))
  ok (record s {
    threads = update s.threads thr (set_wchan (s.threads thr) (some q));
    queues = update s.queues q (push_head (s.queues q) thr);
  })

-- ktqueue_dequeue: the thread at the tail, NULL as `none`.
take_tail : ℕ → System → Option (List ℕ × ℕ) → Option ℕ × System
take_tail q s none = (none, s)
take_tail q s (some (front, thr)) = (
  some thr,
  record s {
    threads = update s.threads thr (set_wchan (s.threads thr) none);
    queues = update s.queues q (record { list = front; size = sub32 (s.queues q).size 1 });
  },
)

unfoldable pub dequeue : ℕ → System → Option ℕ × System
unfolding take_tail
dequeue q s = take_tail q s (unsnoc (s.queues q).list)

-- ktqueue_remove.
unfoldable pub remove : ℕ → ℕ → System → Outcome System
remove q thr s = do
  kassert (not (unqueued (s.threads thr)))
  ok (record s {
    threads = update s.threads thr (set_wchan (s.threads thr) none);
    queues =
        update s.queues q
          (record { list = erase thr (s.queues q).list; size = sub32 (s.queues q).size 1 });
  })

-- ktqueue_contains: its loop never advances `link`, so each round compares the entry at the head.
unfoldable pub contains_loop : ℕ → ℕ → ℕ → Bool
contains_loop zero head thr = false
contains_loop (suc i) head thr =
    let rest = contains_loop i head thr in if thr == head then true else rest

unfoldable pub contains : ℕ → ℕ → System → Bool
unfolding contains_loop
contains q thr s = elim (s.queues q).list [
  | [] ↦ false
  | head ∷ _ ↦ contains_loop (s.queues q).size head thr
]
