-- ===== src/Vm/Range/Gap.antt =====
-- vmmap_find_range returns the highest gap that is large enough.
use mathlib.Core.List.{reverse-cons}
use weenix_kernel.Base.{
  ℕ, ◌+◌, ◌-◌, ◌≤◌, ◌<◌, ◌%◌, ◌^◌, ◌≡◌, ◌↔◌, refl, inl, inr, Option, none, some, List, [], ◌∷◌,
  ◌++◌, reverse, All-reverse, All-of_reverse, arith, leb, if◌then◌else◌, subst, sym, sub32,
  Bool-cases, ◌≢◌, ◌⊎◌,
}
use weenix_kernel.Base.Outcome.{panic, Ends, Ends-mono}
use weenix_kernel.Vm.Area.{Layout, Area, Sorted, Vacant, Apart}
use weenix_kernel.Vm.Vmmap.{hilo, scan_gaps, find_range}

-- The areas from the highest down.
abbrev Falling : ℕ → ℕ → List Area → Type 0
Falling lo hi [] = lo ≤ hi
Falling lo hi (a ∷ r) = (a.end ≤ hi) × (a.start < a.end) × Falling lo a.start r

Falling-snoc :
    (lo hi : ℕ) (a : Area) (r : List Area)
    → Falling a.end hi r
    → lo ≤ a.start
    → a.start < a.end
    → Falling lo hi (r ++ a ∷ [])
Falling-snoc lo hi a [] f p q = (f, q, p)
Falling-snoc lo hi a (b ∷ r) f p q = (f.0, f.1, Falling-snoc lo b.start a r f.2 p q)

Falling-reverse : (lo hi : ℕ) (m : List Area) → Sorted lo hi m → Falling lo hi (reverse m)
Falling-reverse lo hi [] s = s
Falling-reverse lo hi (a ∷ r) s =
    rw (reverse-cons a r)
      (Falling-snoc lo hi a (reverse r) (Falling-reverse a.end hi r s.2) s.0 s.1)

Falling-le : (lo hi : ℕ) (m : List Area) → Falling lo hi m → lo ≤ hi
Falling-le lo hi [] f = f
Falling-le lo hi (a ∷ r) f = omega (arith, Falling-le lo a.start r f.2)

-- A start at which `n` pages fit between the areas.
abbrev pub Fits : ℕ → ℕ → List Area → ℕ → ℕ → Type 0
Fits lo hi m n s = (lo ≤ s) × (s + n ≤ hi) × Vacant s (s + n) m

-- The best answer: a start that fits and that no higher one does, or that none fits at all.
abbrev pub Highest : ℕ → ℕ → List Area → ℕ → Option ℕ → Type 0
Highest lo hi m n (some s) = Fits lo hi m n s × ((t : ℕ) → Fits lo hi m n t → t ≤ s)
Highest lo hi m n none = (t : ℕ) → ¬ Fits lo hi m n t

above-Vacant : (s e lo hi : ℕ) (m : List Area) → Falling lo hi m → hi ≤ s → Vacant s e m
above-Vacant s e lo hi [] f h = tt
above-Vacant s e lo hi (a ∷ r) f h =
    (inl (omega arith), above-Vacant s e lo a.start r f.2 (omega arith))

-- A fit below the area `a` is a fit for `a ∷ r`, and the fits that are not below it start above it.
Highest-cons :
    (lo hi n : ℕ) (a : Area) (r : List Area)
    → 0 < n
    → a.start < a.end
    → a.end ≤ hi
    → hi < a.end + n
    → (o : Option ℕ) → Highest lo a.start r n o
    → Highest lo hi (a ∷ r) n o
Highest-cons lo hi n a r p q w few (some s) ((x, y, z), best) =
    ((x, omega arith, (inr y, z)), λ t f. ground (arith, best t))
Highest-cons lo hi n a r p q w few none h = λ t f. ground (arith, h t)

gap-Highest :
    (l : Layout) (n hi : ℕ) (a : Area) (r : List Area)
    → 0 < n
    → hi ≤ l.high
    → Falling l.low hi (a ∷ r)
    → n + a.end ≤ hi
    → Highest l.low hi (a ∷ r) n (some (sub32 hi n))
gap-Highest l n hi a r p q f h =
    let small = l.high-le in
    let low-le = Falling-le l.low a.start r f.2 in
    let e : (hi + 2 ^ 32 - n) % 2 ^ 32 ≡ hi - n = omega arith in
    subst (λ s. Highest l.low hi (a ∷ r) n (some s)) (sym e)
      (
        (
          omega arith,
          omega arith,
          (inl (omega arith), above-Vacant (hi - n) (hi - n + n) l.low a.start r f.2 (omega arith)),
        ),
        λ t fits. omega arith,
      )

last_gap-Highest :
    (l : Layout) (n hi : ℕ)
    → 0 < n
    → hi ≤ l.high
    → l.low ≤ hi
    → Highest l.low hi [] n (if leb n (sub32 hi l.low) then some (sub32 hi n) else none)
last_gap-Highest l n hi p q f =
    let small = l.high-le in
    let gap : (hi + 2 ^ 32 - l.low) % 2 ^ 32 ≡ hi - l.low = omega arith in
    elim (Bool-cases (leb n (sub32 hi l.low))) [
      | inl e ↦
          let fits : n ≤ hi - l.low = ground arith in
          let d : (hi + 2 ^ 32 - n) % 2 ^ 32 ≡ hi - n = omega arith in
          rw e (rw d ((omega arith, omega arith, tt), λ t g. omega arith))
      | inr e ↦ let over : hi - l.low < n = ground arith in rw e (λ t g. omega arith)
    ]

scan_gaps-Highest :
    (l : Layout) (n hi : ℕ) (vma : Option Area) (m : List Area)
    → 0 < n
    → hi ≤ l.high
    → Falling l.low hi m
    → ((m ≢ []) ⊎ ((a : Area) × (vma ≡ some a) × (a.start ≡ hi)))
    → Ends (Highest l.low hi m n) (scan_gaps l n hi vma m)
unfolding scan_gaps
scan_gaps-Highest l n hi vma [] p q f (inl h) = absurd (h refl)
scan_gaps-Highest l n hi vma [] p q f (inr (a, e, d)) =
    let small = l.high-le in rw e (rw d (last_gap-Highest l n hi p q f))
scan_gaps-Highest l n hi vma (a ∷ r) p q f h =
    let small = l.high-le in
    let gap : (hi + 2 ^ 32 - a.end) % 2 ^ 32 ≡ hi - a.end = omega arith in
    elim (Bool-cases (leb n (sub32 hi a.end))) [
      | inl e ↦ rw e (gap-Highest l n hi a r p q f (ground arith))
      | inr e ↦ rw e (
          Ends-mono (Highest l.low a.start r n) _ _
            (Highest-cons l.low hi n a r p f.1 f.0 (ground arith))
            (scan_gaps-Highest l n a.start (some a) r p (omega arith) f.2 (inr (a, refl, refl))))
    ]

reverse-ne-nil : (a : Area) (r : List Area) → reverse (a ∷ r) ≢ []
reverse-ne-nil a r h = snoc-ne-nil (reverse r) (subst (λ m. m ≡ []) (reverse-cons a r) h)
  where
    snoc-ne-nil : (m : List Area) → m ++ a ∷ [] ≢ []
    snoc-ne-nil [] e = cc
    snoc-ne-nil (b ∷ m) e = cc

Highest-of_reverse :
    (lo hi n : ℕ) (m : List Area) (o : Option ℕ)
    → Highest lo hi (reverse m) n o
    → Highest lo hi m n o
Highest-of_reverse lo hi n m (some s) h = (
  (h.0.0, h.0.1, All-of_reverse (Apart s (s + n)) m h.0.2),
  λ t f. h.1 t (f.0, f.1, All-reverse (Apart t (t + n)) m f.2),
)
Highest-of_reverse lo hi n m none h = λ t f. h t (f.0, f.1, All-reverse (Apart t (t + n)) m f.2)

-- Asked for at least one page, from the top, in an ordered map that is not empty, vmmap_find_range
-- does not panic. It returns the highest start in the user pages at which that many pages are
-- vacant, and -1 only if there is no such start.
pub find_range-Highest :
    (l : Layout) (a : Area) (r : List Area) (npages : ℕ)
    → Sorted l.low l.high (a ∷ r)
    → 0 < npages
    → Ends (Highest l.low l.high (a ∷ r) npages) (find_range l (a ∷ r) npages hilo)
unfolding find_range
find_range-Highest l a r n s p =
    Ends-mono (Highest l.low l.high (reverse (a ∷ r)) n) _ _
      (Highest-of_reverse l.low l.high n (a ∷ r))
      (scan_gaps-Highest l n l.high none (reverse (a ∷ r)) p (omega arith)
        (Falling-reverse l.low l.high (a ∷ r) s) (inl (reverse-ne-nil a r)))

-- Asked for a gap from the top in an ordered map for at least one page, vmmap_find_range panics
-- (it reads vma_start of NULL behind its loop) exactly when the map has no area.
pub find_range-panic :
    (l : Layout) (m : List Area) (npages : ℕ)
    → Sorted l.low l.high m
    → 0 < npages
    → (find_range l m npages hilo ≡ panic) ↔ (m ≡ [])
unfolding find_range
find_range-panic l [] n s p = (λ _. refl, λ _. refl)
find_range-panic l (a ∷ r) n s p = (
  λ e. absurd (subst (Ends (Highest l.low l.high (a ∷ r) n)) e (find_range-Highest l a r n s p)),
  λ e. cc,
)
