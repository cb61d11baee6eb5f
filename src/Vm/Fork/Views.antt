-- ===== src/Vm/Fork/Views.antt =====
-- What parent and child see of their memory behind do_fork.
use weenix_kernel.Base.{
  ℕ, ◌+◌, ◌≤◌, ◌≡◌, ◌≢◌, refl, ◌∙◌, true, false, ◌&&◌, Option, none, some, List, [], ◌∷◌, ◌++◌, map,
  ◌⊎◌, inl, inr, arith, ltb, leb, Bool-cases,
}
use weenix_kernel.Base.Outcome.{ok}
use weenix_kernel.Vm.Area.{Layout, Area, Sorted, Effect, ref, shadow_over}
use weenix_kernel.Vm.Vmmap.{lookup, clone}
use weenix_kernel.Vm.View.{view, page_at}
use weenix_kernel.Vm.Insert.Clone.{copy_area, clone-map}
use weenix_kernel.Vm.Fork.{
  TypeBits, is_private, Forked, fork_private, fork_shared, fork_areas, unlinked,
}

-- The call is one of the list.
abbrev pub Made : Effect → List Effect → Type 0
Made e [] = ⊥
Made e (x ∷ r) = (x ≡ e) ⊎ Made e r

Made-append : (e : Effect) (xs ys : List Effect) → Made e ys → Made e (xs ++ ys)
Made-append e [] ys h = h
Made-append e (x ∷ r) ys h = inr (Made-append e r ys h)

-- What the page `v`, which was in the area or in none, is behind the fork. Of a shared area nothing
-- changes; of a private one, parent and child have a new shadow object each over what it was.
abbrev pub Seen : TypeBits → ℕ → ℕ → Option Area → Forked → Type 0
Seen b next v none f = (page_at v f.parent ≡ none) × (page_at v f.child ≡ none)
Seen b next v (some a) f =
    Made (ref a.obj) f.effects
    × (((is_private b a ≡ false)
          × (page_at v f.parent ≡ some (view v a))
          × (page_at v f.child ≡ some (view v a)))
        ⊎ ((is_private b a ≡ true)
            × ((p : ℕ) × (c : ℕ) × (next ≤ p)
                × (next ≤ c)
                × (p ≢ c)
                × Made (shadow_over p a.obj) f.effects
                × Made (shadow_over c a.obj) f.effects
                × (page_at v f.parent ≡ some (record (view v a) { obj = some p }))
                × (page_at v f.child ≡ some (record (view v a) { obj = some c })))))

-- An area that the page is not in goes before the others.
Seen-before :
    (b : TypeBits) (next more v : ℕ) (o : Option Area) (f g : Forked)
    → next ≤ more
    → page_at v g.parent ≡ page_at v f.parent
    → page_at v g.child ≡ page_at v f.child
    → ((e : Effect) → Made e f.effects → Made e g.effects)
    → Seen b more v o f
    → Seen b next v o g
Seen-before b next more v none f g le p c made (x, y) = (p ∙ x, c ∙ y)
Seen-before b next more v (some a) f g le p c made (r, inl (s, x, y)) =
    (made _ r, inl (s, p ∙ x, c ∙ y))
Seen-before b next more v (some a) f g le p c made (r, inr (s, (i, j, li, lj, ne, mi, mj, x, y))) =
    (made _ r, inr (s, (i, j, omega arith, omega arith, ne, made _ mi, made _ mj, p ∙ x, c ∙ y)))

fork_areas-Seen :
    (b : TypeBits) (next v : ℕ) (m : List Area)
    → Seen b next v (lookup v m) (fork_areas b next m (map copy_area m))
unfolding lookup fork_areas fork_private fork_shared
fork_areas-Seen b next v [] = (refl, refl)
fork_areas-Seen b next v (a ∷ m) = elim (Bool-cases (is_private b a)) [
  | inl s ↦ rw s (elim (Bool-cases (ltb v a.end && leb a.start v)) [
    | inl h ↦ rw h (
      inl refl,
      inr (
        s,
        (
          next + 1,
          next,
          omega arith,
          omega arith,
          (λ e. omega (arith, e)),
          inr (inr (inr (inl refl))),
          inr (inl refl),
          rw h refl,
          rw h refl,
        ),
      ),
    )
    | inr h ↦ rw h (
        let rest = fork_areas b (next + 2) m (map copy_area m) in
        Seen-before b next (next + 2) v (lookup v m) rest (fork_private next a (copy_area a) rest)
          (omega arith) (rw h refl) (rw h refl)
          (λ e k. inr (inr (inr (inr (Made-append e (unlinked a) _ (inr k))))))
          (fork_areas-Seen b (next + 2) v m))
  ])
  | inr s ↦ rw s (elim (Bool-cases (ltb v a.end && leb a.start v)) [
    | inl h ↦ rw h (inl refl, inl (s, rw h refl, rw h refl))
    | inr h ↦ rw h (
        let rest = fork_areas b next m (map copy_area m) in
        Seen-before b next next v (lookup v m) rest (fork_shared a (copy_area a) rest) (omega arith)
          (rw h refl) (rw h refl) (λ e k. inr k) (fork_areas-Seen b next v m))
  ])
]

-- do_fork does not panic in vmmap_clone for an address space whose areas are in order, and of each page
-- behind its loop: where nothing was mapped, nothing is. A page of a shared area is the same page of the
-- same object for parent and child. For a page of a private area, parent and child have two
-- different new shadow objects, both over the object that was there, with the same page, permissions and
-- flags. A reference to the object was taken.
pub fork-Seen :
    (l : Layout) (b : TypeBits) (next : ℕ) (m : List Area)
    → Sorted l.low l.high m
    → (copies : List Area) × (clone l m ≡ ok copies)
      × ((v : ℕ) → Seen b next v (lookup v m) (fork_areas b next m copies))
fork-Seen l b next m s = (map copy_area m, clone-map l m s, λ v. fork_areas-Seen b next v m)
