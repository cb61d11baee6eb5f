-- ===== src/Vm/Remove/Order.antt =====
-- vmmap_remove keeps the list of areas in order and disjoint, and leaves its range vacant.
use weenix_kernel.Base.{
  ℕ, ◌+◌, ◌≤◌, ◌<◌, ◌%◌, ◌^◌, ◌≡◌, inl, inr, true, List, [], ◌∷◌, ◌++◌, arith, Bool-cases,
  All-append,
}
use weenix_kernel.Vm.Area.{Layout, Area, Sorted, Vacant, Apart}
use weenix_kernel.Vm.Remove.{overlap, cut, remove_range, remove}

Sorted-weaken : (lo lo' hi : ℕ) (m : List Area) → lo ≤ lo' → Sorted lo' hi m → Sorted lo hi m
Sorted-weaken lo lo' hi [] h s = omega arith
Sorted-weaken lo lo' hi (a ∷ r) h s = (omega arith, s.1, s.2)

pub Sorted-append :
    (lo mid hi : ℕ) (xs ys : List Area)
    → Sorted lo mid xs
    → Sorted mid hi ys
    → Sorted lo hi (xs ++ ys)
Sorted-append lo mid hi [] ys s t = Sorted-weaken lo mid hi ys s t
Sorted-append lo mid hi (a ∷ r) ys s t = (s.0, s.1, Sorted-append a.end mid hi r ys s.2 t)

Vacant-below : (s e lo hi : ℕ) (m : List Area) → Sorted lo hi m → e ≤ lo → Vacant s e m
Vacant-below s e lo hi [] h o = tt
Vacant-below s e lo hi (a ∷ r) h o =
    (inr (omega arith), Vacant-below s e a.end hi r h.2 (omega arith))

module _ (lo hi : ℕ) (ordered : lo < hi) (bot : ℕ) (a : Area) (above : bot ≤ a.start)
    (nonempty : a.start < a.end) where
  cut-Sorted : Sorted bot a.end (cut lo hi a (overlap lo hi a)).areas
  unfolding cut overlap
  cut-Sorted = ground arith

remove_range-Sorted :
    (lo hi bot top : ℕ) (m : List Area)
    → lo < hi
    → Sorted bot top m
    → Sorted bot top (remove_range lo hi m).areas
unfolding remove_range
remove_range-Sorted lo hi bot top [] o s = s
remove_range-Sorted lo hi bot top (a ∷ r) o s =
    let c = cut lo hi a (overlap lo hi a) in
    let here = cut-Sorted lo hi o bot a s.0 s.1 in
    elim (Bool-cases c.stop) [
      | inl e ↦ rw e (Sorted-append bot a.end top c.areas r here s.2)
      | inr e ↦ rw e (
          Sorted-append bot a.end top c.areas (remove_range lo hi r).areas here
            (remove_range-Sorted lo hi a.end top r o s.2))
    ]

module _ (lo hi : ℕ) (ordered : lo < hi) (a : Area) (nonempty : a.start < a.end) where
  cut-Vacant : Vacant lo hi (cut lo hi a (overlap lo hi a)).areas
  unfolding cut overlap
  cut-Vacant = ground arith

  stop-le : (cut lo hi a (overlap lo hi a)).stop ≡ true → hi ≤ a.end
  unfolding cut overlap
  stop-le h = ground arith

remove_range-Vacant :
    (lo hi bot top : ℕ) (m : List Area)
    → lo < hi
    → Sorted bot top m
    → Vacant lo hi (remove_range lo hi m).areas
unfolding remove_range
remove_range-Vacant lo hi bot top [] o s = tt
remove_range-Vacant lo hi bot top (a ∷ r) o s =
    let c = cut lo hi a (overlap lo hi a) in
    let here = cut-Vacant lo hi o a s.1 in
    elim (Bool-cases c.stop) [
      | inl e ↦ rw e (
          All-append (Apart lo hi) c.areas r here
            (Vacant-below lo hi a.end top r s.2 (stop-le lo hi o a s.1 e)))
      | inr e ↦ rw e (
          All-append (Apart lo hi) c.areas (remove_range lo hi r).areas here
            (remove_range-Vacant lo hi a.end top r o s.2))
    ]

-- vmmap_remove of a range that ends within the user pages keeps the areas in order, nonempty and
-- disjoint within the user pages, and no area that it leaves has a page in the range.
pub remove-Sorted :
    (l : Layout) (m : List Area) (lopage npages : ℕ)
    → Sorted l.low l.high m
    → 0 < npages
    → lopage + npages ≤ l.high
    → Sorted l.low l.high (remove m lopage npages).areas
      × Vacant lopage (lopage + npages) (remove m lopage npages).areas
unfolding remove
remove-Sorted l m lopage npages s o h =
    let small = l.high-le in
    let e : (lopage + npages) % 2 ^ 32 ≡ lopage + npages = omega arith in
    rw e (
      remove_range-Sorted lopage (lopage + npages) l.low l.high m (omega arith) s,
      remove_range-Vacant lopage (lopage + npages) l.low l.high m (omega arith) s,
    )
