-- ===== src/Vm/Insert/Clone.antt =====
-- vmmap_clone copies the areas in their order, without their objects.
use weenix_kernel.Base.{ℕ, ◌≤◌, ◌<◌, ◌≡◌, refl, true, List, [], ◌∷◌, ◌++◌, arith, ◌∙◌, map, All}
use mathlib.Core.List.{append_assoc, append-nil}
use weenix_kernel.Base.Outcome.{ok}
use weenix_kernel.Vm.Area.{Layout, Area, Sorted}
use weenix_kernel.Vm.View.{Sorted-le}
use weenix_kernel.Vm.Vmmap.{insert_before, insert, clone_area, clone_into, clone}

-- The copy of an area once it is in the new map.
abbrev pub copy_area : Area → Area
copy_area a = record (clone_area a) { attached = true }

abbrev EndBelow : ℕ → Area → Type 0
EndBelow b a = (a.start < a.end) × (a.end ≤ b)

-- Behind areas that end before it starts, an area goes to the tail.
insert_before-tail :
    (n : Area) (m : List Area)
    → n.start < n.end
    → All (EndBelow n.start) m
    → insert_before n m ≡ m ++ record n { attached = true } ∷ []
unfolding insert_before
insert_before-tail n [] p h = refl
insert_before-tail n (a ∷ r) p h = ground (arith, insert_before-tail n r p h.1)

EndBelow-mono : (b c : ℕ) (m : List Area) → b ≤ c → All (EndBelow b) m → All (EndBelow c) m
EndBelow-mono b c [] p h = tt
EndBelow-mono b c (a ∷ r) p h = ((h.0.0, omega arith), EndBelow-mono b c r p h.1)

EndBelow-snoc :
    (b : ℕ) (m : List Area) (a : Area)
    → All (EndBelow b) m
    → EndBelow b a
    → All (EndBelow b) (m ++ a ∷ [])
EndBelow-snoc b [] a h e = (e, tt)
EndBelow-snoc b (x ∷ r) a h e = (h.0, EndBelow-snoc b r a h.1 e)

insert-append :
    (l : Layout) (lo : ℕ) (new : List Area) (a : Area) (r : List Area)
    → l.low ≤ lo
    → All (EndBelow lo) new
    → Sorted lo l.high (a ∷ r)
    → insert l new (clone_area a) ≡ ok (new ++ copy_area a ∷ [])
unfolding insert
insert-append l lo new a r p h s = ground (
  arith,
  Sorted-le a.end l.high r s.2,
  insert_before-tail (clone_area a) new s.1 (EndBelow-mono lo a.start new s.0 h),
)

clone_into-append :
    (l : Layout) (lo : ℕ) (new m : List Area)
    → l.low ≤ lo
    → All (EndBelow lo) new
    → Sorted lo l.high m
    → clone_into l new m ≡ ok (new ++ map copy_area m)
unfolding clone_into
clone_into-append l lo new [] p h s = rw append-nil
clone_into-append l lo new (a ∷ r) p h s =
    rw (insert-append l lo new a r p h s, clone_into)
      (clone_into-append l a.end (new ++ copy_area a ∷ []) r (omega arith)
          (EndBelow-snoc a.end new (copy_area a) (EndBelow-mono lo a.end new (omega arith) h)
            (s.1, omega arith))
          s.2
        ∙ rw append_assoc)

-- vmmap_clone of an ordered map passes the assertions of every insertion. The clone has the areas
-- of the map in the same order, with the same range, offset, permissions and flags, each attached
-- to the new map, with no object and out of every object's list.
pub clone-map :
    (l : Layout) (m : List Area) → Sorted l.low l.high m → clone l m ≡ ok (map copy_area m)
unfolding clone
clone-map l m s = clone_into-append l l.low [] m (omega arith) tt s
