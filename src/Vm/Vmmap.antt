-- ===== src/Vm/Vmmap.antt =====
-- The routines of kernel/vm/vmmap.c on the list of areas of an address space (vmm_list).
use weenix_kernel.Base.{
  ℕ, Bool, true, false, not, ◌&&◌, Option, none, some, List, [], ◌∷◌, reverse, ltb, leb,
  if◌then◌else◌, add32, sub32,
}
use weenix_kernel.Base.Outcome.{Outcome, ok, panic, ◌>>=◌, ◌>>◌, kassert, deref}
use weenix_kernel.Vm.Area.{Layout, Area}

-- vmmap_lookup: the first area whose range covers the page.
unfoldable pub lookup : ℕ → List Area → Option Area
lookup vfn [] = none
lookup vfn (a ∷ r) = if ltb vfn a.end && leb a.start vfn then some a else lookup vfn r

-- The page of its object that an area shows at `vfn`, as vmmap_write and handle_pagefault compute
-- it: vfn - vma_start + vma_off.
abbrev pub pagenum : ℕ → Area → ℕ
pagenum vfn a = add32 (sub32 vfn a.start) a.off

-- vmmap_insert. The loop inserts before the first area that starts at or after the new one's end.
unfoldable pub insert_before : Area → List Area → List Area
insert_before n [] = record n { attached = true } ∷ []
insert_before n (a ∷ r) =
    if leb n.end a.start then record n { attached = true } ∷ a ∷ r else a ∷ insert_before n r

unfoldable pub insert : Layout → List Area → Area → Outcome (List Area)
insert l m n = do
  kassert (not n.attached)
  kassert (ltb n.start n.end)
  kassert (leb l.low n.start && leb n.end l.high)
  ok (insert_before n m)

pub data Dir : Type 0 where
  lohi hilo : Dir

-- vmmap_find_range after the loop: `vma` is the last area that the loop visited.
unfoldable pub gap_below : Layout → ℕ → Option Area → Outcome (Option ℕ)
gap_below l npages vma = do
  a ← deref vma
  ok (if leb npages (sub32 a.start l.low) then some (sub32 a.start npages) else none)

-- Its loop, over the areas from the highest down. `none` stands for the result -1.
unfoldable pub scan_gaps : Layout → ℕ → ℕ → Option Area → List Area → Outcome (Option ℕ)
unfolding gap_below
scan_gaps l npages userspace_end vma [] = gap_below l npages vma
scan_gaps l npages userspace_end vma (a ∷ r) =
    if leb npages (sub32 userspace_end a.end)
    then ok (some (sub32 userspace_end npages))
    else scan_gaps l npages a.start (some a) r

unfoldable pub find_range : Layout → List Area → ℕ → Dir → Outcome (Option ℕ)
unfolding scan_gaps
find_range l m npages hilo = scan_gaps l npages l.high none (reverse m)
find_range l m npages lohi = panic

-- vmmap_is_range_empty.
unfoldable pub range_scan : ℕ → ℕ → List Area → Bool
range_scan startvfn endvfn [] = true
range_scan startvfn endvfn (a ∷ r) =
    let rest = range_scan startvfn endvfn r in
    if ltb startvfn a.end && ltb a.start endvfn
    then false
    else (if ltb startvfn a.start && leb endvfn a.start then true else rest)

unfoldable pub is_range_empty : Layout → List Area → ℕ → ℕ → Outcome Bool
unfolding range_scan
is_range_empty l m startvfn npages = do
  let endvfn = add32 startvfn npages
  kassert (ltb startvfn endvfn && leb l.low startvfn && leb endvfn l.high)
  ok (range_scan startvfn endvfn m)

-- vmmap_clone copies each area without its object and inserts it into a new map.
abbrev pub clone_area : Area → Area
clone_area a = record a { obj = none; attached = false; olinked = false }

unfoldable pub clone_into : Layout → List Area → List Area → Outcome (List Area)
clone_into l new [] = ok new
clone_into l new (a ∷ r) = elim (insert l new (clone_area a)) [
  | ok new' ↦ clone_into l new' r
  | panic ↦ panic
]

unfoldable pub clone : Layout → List Area → Outcome (List Area)
unfolding clone_into insert
clone l m = clone_into l [] m
