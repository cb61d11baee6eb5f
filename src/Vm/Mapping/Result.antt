-- ===== src/Vm/Mapping/Result.antt =====
-- What vmmap_map makes of an address space.
use weenix_kernel.Base.{
  ℕ, ◌+◌, ◌≤◌, ◌<◌, ◌/◌, ◌≡◌, refl, false, Option, none, some, List, if◌then◌else◌, ◌≢◌,
}
use weenix_kernel.Base.Outcome.{panic}
use weenix_kernel.Vm.Area.{Layout, MapFlags, Effect, Area, Sorted, Vacant}
use weenix_kernel.Vm.View.{page_at, view, in_range}
use weenix_kernel.Vm.Range.Gap.{Highest, Fits}
use weenix_kernel.Vm.Mapping.{
  Objects, Request, Mapped, mapped, no_room, valid_request, map_area, page_size,
}

-- A place for the request: where the area goes, and the map in which that range is vacant.
abbrev Placed : Layout → List Area → Request → Option (ℕ × List Area × List Effect) → Type 0
Placed l m q none = (q.lopage ≡ 0) × ((t : ℕ) → ¬ Fits l.low l.high m q.npages t)
Placed l m q (some (s, m', effects)) =
    (l.low ≤ s)
    × (s + q.npages ≤ l.high)
    × Sorted l.low l.high m'
    × Vacant s (s + q.npages) m'
    × ((v : ℕ) → in_range s (s + q.npages) v ≡ false → page_at v m' ≡ page_at v m)
    × ((q.lopage ≢ 0) → s ≡ q.lopage)
    × ((q.lopage ≡ 0) → Highest l.low l.high m q.npages (some s))

module _ (l : Layout) (q : Request) where
  -- What the assertions say, for a range that does not wrap.
  record Requested (f : MapFlags) : Type 0 where
    some_page : 0 < q.npages
    above : q.lopage ≢ 0 → l.low ≤ q.lopage
    below : q.lopage ≢ 0 → q.lopage + q.npages ≤ l.high

-- What a successful call leaves.
abbrev pub Result : Layout → List Area → Request → Mapped → Type 0
Result l m q no_room = (q.lopage ≡ 0) × ((t : ℕ) → ¬ Fits l.low l.high m q.npages t)
Result l m q (mapped m' a effects) =
    Sorted l.low l.high m'
    × ((v : ℕ) → page_at v m' ≡ (if in_range a.start a.end v then some (view v a) else page_at v m))
    × (a.end ≡ a.start + q.npages)
    × (a.off ≡ q.off / page_size)
    × (a.prot ≡ q.prot)
    × (a.flags ≡ q.flags)
    × ((q.lopage ≢ 0) → a.start ≡ q.lopage)
    × ((q.lopage ≡ 0) → Highest l.low l.high m q.npages (some a.start))

module _ (l : Layout) (f : MapFlags) (o : Objects) (m : List Area) (q : Request) where
  record NewArea (s : ℕ) (a : Area) : Type 0 where
    start : a.start ≡ s
    end : a.end ≡ s + q.npages
    detached : a.attached ≡ false
    off : a.off ≡ q.off / page_size
    prot : a.prot ≡ q.prot
    flags : a.flags ≡ q.flags

  pub map_area-panic : valid_request l f q ≡ false → map_area l f o m q ≡ panic
  unfolding map_area
  map_area-panic v = rw v refl
