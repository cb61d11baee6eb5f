-- ===== src/Vm/Destroy.antt =====
-- vmmap_destroy of kernel/vm/vmmap.c.
use weenix_kernel.Base.{
  ℕ, ◌≡◌, refl, sym, subst, Option, some, List, [], ◌∷◌, arith, if◌then◌else◌, count_if, All,
  Bool-cases, inl, inr,
}
use weenix_kernel.Base.Outcome.{Outcome, ok, ◌>>=◌, deref, Ends, Ends-bind}
use weenix_kernel.Vm.Area.{Area, Effect, put, unlink_olink}
use weenix_kernel.Vm.Remove.References.{maps, linked, is_put, is_unlink}

-- The calls that its loop makes: an area without an object is an access through NULL.
abbrev unlink_area : Area → List Effect → List Effect
unlink_area a rest = if a.olinked then unlink_olink a.obj ∷ rest else rest

pub destroy : List Area → Outcome (List Effect)
destroy [] = ok []
destroy (a ∷ r) = do o ← deref a.obj; rest ← destroy r; ok (put (some o) ∷ unlink_area a rest)

-- A put for each area of every object, and a removal from its list for each area that is on it.
abbrev pub GivesBack : List Area → List Effect → Type 0
GivesBack m effects =
    (o : ℕ)
    → (count_if (is_put o) effects ≡ count_if (maps o) m)
      × (count_if (is_unlink o) effects ≡ count_if (linked o) m)

one_more :
    (a : Area) (p : ℕ) (r : List Area) (rest : List Effect)
    → a.obj ≡ some p
    → GivesBack r rest
    → GivesBack (a ∷ r) (put (some p) ∷ unlink_area a rest)
one_more a p r rest at h o = elim (Bool-cases a.olinked) [
  | inl e ↦ rw e rw at (ground (arith, h o), ground (arith, h o))
  | inr e ↦ rw e rw at (ground (arith, h o), ground (arith, h o))
]

-- vmmap_destroy of an address space whose areas have objects does not panic: it gives back exactly the
-- references of the areas, and takes exactly the areas that are on the list of their bottom
-- object off it.
pub destroy-GivesBack :
    (m : List Area) → All (λ a. (p : ℕ) × (a.obj ≡ some p)) m → Ends (GivesBack m) (destroy m)
unfolding destroy
destroy-GivesBack [] h = λ o. (refl, refl)
destroy-GivesBack (a ∷ r) ((p, at), h) =
    let goal = λ (x : Option ℕ).
      Ends (GivesBack (a ∷ r))
        (deref x >>= λ o. destroy r >>= λ rest. ok (put (some o) ∷ unlink_area a rest)) in
    subst goal (sym at) (
      Ends-bind (GivesBack r) (GivesBack (a ∷ r)) (destroy r)
        (λ rest. ok (put (some p) ∷ unlink_area a rest)) (destroy-GivesBack r h)
        (λ rest k. one_more a p r rest at k))
