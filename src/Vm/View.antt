-- ===== src/Vm/View.antt =====
-- What an address space shows: for each page the object, the page in it and the permissions.
use weenix_kernel.Base.{
  ℕ, ◌≤◌, ◌<◌, ◌≡◌, refl, inl, inr, Bool, ◌&&◌, Option, none, some, List, [], ◌∷◌, ◌++◌, arith, ltb,
  leb, Bool-cases,
}
use weenix_kernel.Vm.Area.{Area, Sorted, Vacant}
use weenix_kernel.Vm.Vmmap.{lookup, pagenum}

pub record View : Type 0 where
  pub obj : Option ℕ
  pub page : ℕ
  pub prot : ℕ
  pub flags : ℕ

abbrev pub view : ℕ → Area → View
view v a = record { obj = a.obj; page = pagenum v a; prot = a.prot; flags = a.flags }

abbrev pub view_of : ℕ → Option Area → Option View
view_of v none = none
view_of v (some a) = some (view v a)

-- What a page fault at page `v` finds.
abbrev pub page_at : ℕ → List Area → Option View
page_at v m = view_of v (lookup v m)

abbrev pub in_range : ℕ → ℕ → ℕ → Bool
in_range lo hi v = leb lo v && ltb v hi

abbrev pub first_of_two : Option View → Option View → Option View
first_of_two none w = w
first_of_two (some v) w = some v

pub page_at-append :
    (v : ℕ) (xs ys : List Area) → page_at v (xs ++ ys) ≡ first_of_two (page_at v xs) (page_at v ys)
unfolding lookup
page_at-append v [] ys = refl
page_at-append v (a ∷ r) ys = elim (Bool-cases (ltb v a.end && leb a.start v)) [
  | inl e ↦ rw e
  | inr e ↦ rw e (page_at-append v r ys)
]

pub Sorted-le : (lo hi : ℕ) (m : List Area) → Sorted lo hi m → lo ≤ hi
Sorted-le lo hi [] s = s
Sorted-le lo hi (a ∷ r) s = omega (arith, Sorted-le a.end hi r s.2)

-- Nothing is mapped below the first area.
pub lookup_below : (v lo hi : ℕ) (m : List Area) → Sorted lo hi m → v < lo → lookup v m ≡ none
unfolding lookup
lookup_below v lo hi [] s h = refl
lookup_below v lo hi (a ∷ r) s h = ground (arith, lookup_below v a.end hi r s.2)

-- A range is vacant exactly when no page of it is mapped.
pub lookup-Vacant : (s e v : ℕ) (m : List Area) → Vacant s e m → s ≤ v → v < e → lookup v m ≡ none
unfolding lookup
lookup-Vacant s e v [] h p q = refl
lookup-Vacant s e v (a ∷ r) h p q = ground (arith, lookup-Vacant s e v r h.1)
