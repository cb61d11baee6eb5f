-- ===== src/Vm/Range/Empty.antt =====
-- vmmap_is_range_empty answers whether the range is vacant.
use weenix_kernel.Base.{
  ℕ, ◌+◌, ◌≤◌, ◌<◌, ◌%◌, ◌^◌, ◌≡◌, ◌↔◌, refl, inr, Bool, true, List, [], ◌∷◌, arith,
}
use weenix_kernel.Base.Outcome.{ok}
use weenix_kernel.Vm.Area.{Layout, Area, Sorted, Vacant}
use weenix_kernel.Vm.Vmmap.{range_scan, is_range_empty}

later-Vacant : (s e lo hi : ℕ) (m : List Area) → Sorted lo hi m → e ≤ lo → Vacant s e m
later-Vacant s e lo hi [] h o = tt
later-Vacant s e lo hi (a ∷ r) h o =
    (inr (omega arith), later-Vacant s e a.end hi r h.2 (omega arith))

range_scan-Vacant :
    (s e lo hi : ℕ) (m : List Area)
    → s < e
    → Sorted lo hi m
    → (range_scan s e m ≡ true) ↔ Vacant s e m
unfolding range_scan
range_scan-Vacant s e lo hi [] o h = (λ _. tt, λ _. refl)
range_scan-Vacant s e lo hi (a ∷ r) o h = (
  λ t. ground (arith, (range_scan-Vacant s e a.end hi r o h.2).0, later-Vacant s e a.end hi r h.2),
  λ v. ground (arith, (range_scan-Vacant s e a.end hi r o h.2).1 v.1),
)

pub is_range_empty-ok :
    (l : Layout) (m : List Area) (startvfn npages : ℕ)
    → l.low ≤ startvfn
    → 0 < npages
    → startvfn + npages ≤ l.high
    → is_range_empty l m startvfn npages ≡ ok (range_scan startvfn (startvfn + npages) m)
unfolding is_range_empty
is_range_empty-ok l m s n p q r =
    let small = l.high-le in let e : (s + n) % 2 ^ 32 ≡ s + n = omega arith in rw e (ground arith)

-- On a nonempty range of user pages vmmap_is_range_empty passes its assertion, and it answers 1
-- exactly when no area of the ordered map has a page in the range.
pub is_range_empty-Vacant :
    (l : Layout) (m : List Area) (startvfn npages : ℕ)
    → Sorted l.low l.high m
    → l.low ≤ startvfn
    → 0 < npages
    → startvfn + npages ≤ l.high
    → (empty : Bool) × (is_range_empty l m startvfn npages ≡ ok empty)
      × ((empty ≡ true) ↔ Vacant startvfn (startvfn + npages) m)
is_range_empty-Vacant l m s n h p q r = (
  range_scan s (s + n) m,
  is_range_empty-ok l m s n p q r,
  range_scan-Vacant s (s + n) l.low l.high m (omega arith) h,
)
