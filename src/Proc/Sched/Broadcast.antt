-- ===== src/Proc/Sched/Broadcast.antt =====
-- sched_broadcast_on wakes every thread of a wait queue, in the order in which they fell asleep.
use mathlib.Core.List.{append_assoc}
use weenix_kernel.Base.{
  ℕ, zero, suc, ◌<◌, ◌≡◌, ◌≢◌, refl, false, Option, none, some, List, [], ◌∷◌, ◌++◌, length, arith,
  has, length-append, sym, ap, ◌∙◌, subst, has-append,
}
use weenix_kernel.Base.Outcome.{ok, Ends, Ends-mono}
use weenix_kernel.Proc.Thread.{System, runq}
use weenix_kernel.Proc.Sched.{wakeup_on, broadcast_loop, broadcast_on}
use weenix_kernel.Proc.Sched.Inv.{Inv}
use weenix_kernel.Proc.Sched.Wake.{Woken, wakeup_on-Woken, Ends-ok}

-- The queue is empty, its threads stand in their order behind those of the run queue, and the
-- threads that were not on it are as before.
abbrev pub Broadcast : ℕ → System → Option System → Type 0
Broadcast q s none = ⊥
Broadcast q s (some s') =
    Inv s'
    × ((s'.queues q).list ≡ [])
    × ((s'.queues runq).list ≡ (s.queues q).list ++ (s.queues runq).list)
    × ((u : ℕ) → has u (s.queues q).list ≡ false → s'.threads u ≡ s.threads u)
    × ((p : ℕ) → p ≢ q → p ≢ runq → s'.queues p ≡ s.queues p)
    × (s'.curthr ≡ s.curthr)

Broadcast-step :
    (q t : ℕ) (s s' : System) (o : Option System)
    → Woken q s (some t, s')
    → Broadcast q s' o
    → Broadcast q s o
Broadcast-step q t s s' none w b = b
Broadcast-step q t s s' (some z) (i, list, runs, threads, others, cur)
      (iz, empty, all, same, others', cur') =
    (
      iz,
      empty,
      all
          ∙ ap (λ (r : List ℕ). (s'.queues q).list ++ r) runs
          ∙ sym (append_assoc (s'.queues q).list (t ∷ []) (s.queues runq).list)
          ∙ ap (λ (m : List ℕ). m ++ (s.queues runq).list) (sym list),
      (λ u h.
          ground
            (arith, same u, threads u, ap (has u) list, has-append u (s'.queues q).list (t ∷ []))),
      (λ p a b. others' p a b ∙ others p a b),
      cur' ∙ cur,
    )

broadcast_loop-Broadcast :
    (rounds q : ℕ) (s : System)
    → Inv s
    → q ≢ runq
    → length (s.queues q).list < rounds
    → Ends (Broadcast q s) (broadcast_loop rounds q s)
unfolding broadcast_loop
broadcast_loop-Broadcast zero q s i ne h = absurd (omega arith)
broadcast_loop-Broadcast (suc rounds) q s i ne h =
    go (Ends-ok (Woken q s) (wakeup_on q s) (wakeup_on-Woken q s i ne)) (λ t s' w.
      broadcast_loop-Broadcast rounds q s' w.0 ne
        (omega (arith, ap length w.1, length-append (s'.queues q).list (t ∷ []))))
  where
    go :
        (r : Option ℕ × System) × (wakeup_on q s ≡ ok r) × Woken q s r
        → ((t : ℕ) (s' : System)
            → Woken q s (some t, s')
            → Ends (Broadcast q s') (broadcast_loop rounds q s'))
        → Ends (Broadcast q s) (broadcast_loop (suc rounds) q s)
    go ((none, s'), e, w) rec =
        rw (e, broadcast_loop)
          (subst (λ z. Broadcast q s (some z)) (sym w.1)
            (
              i,
              w.0,
              ap (λ (m : List ℕ). m ++ (s.queues runq).list) (sym w.0),
              (λ u h. refl),
              (λ p a b. refl),
              refl,
            ))
    go ((some t, s'), e, w) rec =
        rw (e, broadcast_loop)
          (Ends-mono (Broadcast q s') _ (broadcast_loop rounds q s')
            (λ o b. Broadcast-step q t s s' o w b) (rec t s' w))

-- sched_broadcast_on of a wait queue neither panics nor runs out of its rounds: the queue ends
-- empty, its threads join the run queue in the order in which they went to sleep, and no other
-- thread or queue changes.
pub broadcast_on-Broadcast :
    (q : ℕ) (s : System) → Inv s → q ≢ runq → Ends (Broadcast q s) (broadcast_on q s)
unfolding broadcast_on
broadcast_on-Broadcast q s i ne = broadcast_loop-Broadcast _ q s i ne (omega arith)
