-- ===== src/Vm/Remove/Pages.antt =====
-- vmmap_remove takes exactly the pages of its range out of the address space.
use weenix_kernel.Base.{
  ℕ, ◌+◌, ◌≤◌, ◌<◌, ◌%◌, ◌^◌, ◌≡◌, true, none, List, [], ◌∷◌, arith, if◌then◌else◌,
}
use weenix_kernel.Vm.Area.{Layout, Area, Sorted}
use weenix_kernel.Vm.Vmmap.{lookup}
use weenix_kernel.Vm.View.{page_at, in_range, page_at-append, lookup_below, Sorted-le}
use weenix_kernel.Vm.Remove.{Removal, overlap, cut, join, remove_range, remove}

module _ (lo hi : ℕ) (ordered : lo < hi) (a : Area) (nonempty : a.start < a.end)
    (bounded : a.end < 2 ^ 32) (short : hi < 2 ^ 32) where
  pub cut-page_at :
      (v : ℕ)
      → page_at v (cut lo hi a (overlap lo hi a)).areas
        ≡ (if in_range lo hi v then none else page_at v (a ∷ []))
  unfolding cut overlap lookup
  cut-page_at v = ground arith

  pub cut-stop : (cut lo hi a (overlap lo hi a)).stop ≡ true → (a.start ≤ lo) × (hi ≤ a.end)
  unfolding cut overlap
  cut-stop h = ground arith

-- The areas behind a range that ends at or before `lo` show nothing in it.
join-page_at :
    (lo hi v bot top : ℕ) (a : Area) (r : List Area) (c rest : Removal)
    → lo < hi
    → Sorted bot top (a ∷ r)
    → page_at v c.areas ≡ (if in_range lo hi v then none else page_at v (a ∷ []))
    → (c.stop ≡ true → (a.start ≤ lo) × (hi ≤ a.end))
    → page_at v rest.areas ≡ (if in_range lo hi v then none else page_at v r)
    → page_at v (join c r rest).areas ≡ (if in_range lo hi v then none else page_at v (a ∷ r))
unfolding lookup
join-page_at lo hi v bot top a r c rest o s here stops there = ground (
  arith,
  page_at-append v c.areas r,
  page_at-append v c.areas rest.areas,
  lookup_below v a.end top r s.2,
)

remove_range-page_at :
    (lo hi v bot top : ℕ) (m : List Area)
    → lo < hi
    → hi < 2 ^ 32
    → top < 2 ^ 32
    → Sorted bot top m
    → page_at v (remove_range lo hi m).areas ≡ (if in_range lo hi v then none else page_at v m)
unfolding remove_range lookup
remove_range-page_at lo hi v bot top [] o p q s = ground arith
remove_range-page_at lo hi v bot top (a ∷ r) o p q s =
    let e = Sorted-le a.end top r s.2 in
    join-page_at lo hi v bot top a r _ _ o s (cut-page_at lo hi o a s.1 (omega arith) p v)
      (cut-stop lo hi o a s.1 (omega arith) p) (remove_range-page_at lo hi v a.end top r o p q s.2)

-- After vmmap_remove of a range that ends within the user pages, a page of the range is unmapped,
-- and every other page shows the same page of the same object with the same permissions as before.
pub page_at-remove :
    (l : Layout) (m : List Area) (lopage npages v : ℕ)
    → Sorted l.low l.high m
    → 0 < npages
    → lopage + npages ≤ l.high
    → page_at v (remove m lopage npages).areas
      ≡ (if in_range lopage (lopage + npages) v then none else page_at v m)
unfolding remove
page_at-remove l m lopage npages v s o h =
    let small = l.high-le in
    let e : (lopage + npages) % 2 ^ 32 ≡ lopage + npages = omega arith in
    rw e (
      remove_range-page_at lopage (lopage + npages) v l.low l.high m (omega arith) (omega arith)
        (omega arith) s)
