-- ===== src/Vm/Insert/Place.antt =====
-- vmmap_insert puts an area in its place.
use weenix_kernel.Base.{ℕ, ◌≤◌, ◌<◌, ◌≡◌, false, some, List, [], ◌∷◌, arith, if◌then◌else◌}
use weenix_kernel.Base.Outcome.{ok, Ends}
use weenix_kernel.Vm.Area.{Layout, Area, Sorted, Vacant}
use weenix_kernel.Vm.Vmmap.{lookup, insert_before, insert}
use weenix_kernel.Vm.View.{page_at, view, in_range}

insert_before-Sorted :
    (lo hi : ℕ) (n : Area) (m : List Area)
    → Sorted lo hi m
    → Vacant n.start n.end m
    → n.start < n.end
    → lo ≤ n.start
    → n.end ≤ hi
    → Sorted lo hi (insert_before n m)
unfolding insert_before
insert_before-Sorted lo hi n [] s v p q w = omega arith
insert_before-Sorted lo hi n (a ∷ r) s v p q w =
    ground (arith, insert_before-Sorted a.end hi n r s.2 v.1)

insert_before-page_at :
    (lo hi v : ℕ) (n : Area) (m : List Area)
    → Sorted lo hi m
    → Vacant n.start n.end m
    → n.start < n.end
    → page_at v (insert_before n m)
      ≡ (if in_range n.start n.end v then some (view v n) else page_at v m)
unfolding insert_before lookup
insert_before-page_at lo hi v n [] s h p = ground arith
insert_before-page_at lo hi v n (a ∷ r) s h p =
    ground (arith, insert_before-page_at a.end hi v n r s.2 h.1)

abbrev pub Inserted : Layout → Area → List Area → List Area → Type 0
Inserted l n m m' =
    Sorted l.low l.high m'
    × ((v : ℕ) → page_at v m' ≡ (if in_range n.start n.end v then some (view v n) else page_at v m))

-- An area without a map, nonempty and within the user pages, whose range is vacant: vmmap_insert
-- passes its assertions, keeps the areas in order, makes the pages of the range show the area, and
-- changes no other page.
pub insert-Inserted :
    (l : Layout) (n : Area) (m : List Area)
    → Sorted l.low l.high m
    → Vacant n.start n.end m
    → n.attached ≡ false
    → n.start < n.end
    → l.low ≤ n.start
    → n.end ≤ l.high
    → Ends (Inserted l n m) (insert l m n)
unfolding insert
insert-Inserted l n m s v f p q w =
    let e : insert l m n ≡ ok (insert_before n m) = ground arith in
    rw e (
      insert_before-Sorted l.low l.high n m s v p q w,
      λ v'. insert_before-page_at l.low l.high v' n m s v p,
    )
