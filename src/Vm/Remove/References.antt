-- ===== src/Vm/Remove/References.antt =====
-- The references that vmmap_remove takes and gives back, against the areas that hold them.
use weenix_kernel.Base.{
  ℕ, ◌+◌, ◌≡◌, refl, Bool, false, ◌&&◌, Option, none, some, List, [], ◌∷◌, arith, ◌==◌, count_if,
  count_if-append,
}
use weenix_kernel.Vm.Area.{Area, Effect, ref, put, unlink_olink}
use weenix_kernel.Vm.Remove.{Removal, Overlap, overlap, cut, join, remove_range, remove, inside}

abbrev pub names : ℕ → Option ℕ → Bool
names o none = false
names o (some p) = p == o

abbrev pub maps : ℕ → Area → Bool
maps o a = names o a.obj

abbrev pub linked : ℕ → Area → Bool
linked o a = names o a.obj && a.olinked

abbrev pub is_ref : ℕ → Effect → Bool
is_ref o (ref p) = names o p
is_ref o _ = false

abbrev pub is_put : ℕ → Effect → Bool
is_put o (put p) = names o p
is_put o _ = false

abbrev pub is_unlink : ℕ → Effect → Bool
is_unlink o (unlink_olink p) = names o p
is_unlink o _ = false

-- The references of object `o` that the areas `before` held, and those taken, are the ones given
-- back and those that the areas left behind hold; likewise for the links into its list.
abbrev pub Balanced : ℕ → List Area → Removal → Type 0
Balanced o before c =
    (count_if (maps o) before + count_if (is_ref o) c.effects
      ≡ count_if (maps o) c.areas + count_if (is_put o) c.effects)
    × (count_if (linked o) before ≡ count_if (linked o) c.areas + count_if (is_unlink o) c.effects)

cut-Balanced : (o lo hi : ℕ) (a : Area) (c : Overlap) → Balanced o (a ∷ []) (cut lo hi a c)
unfolding cut
cut-Balanced o lo hi a inside = ground arith
cut-Balanced o lo hi a _ = ground arith

join-Balanced :
    (o : ℕ) (a : Area) (r : List Area) (c rest : Removal)
    → Balanced o (a ∷ []) c
    → Balanced o r rest
    → Balanced o (a ∷ r) (join c r rest)
join-Balanced o a r c rest x y = ground (
  arith,
  count_if-append (maps o) c.areas r,
  count_if-append (maps o) c.areas rest.areas,
  count_if-append (linked o) c.areas r,
  count_if-append (linked o) c.areas rest.areas,
  count_if-append (is_ref o) c.effects rest.effects,
  count_if-append (is_put o) c.effects rest.effects,
  count_if-append (is_unlink o) c.effects rest.effects,
)

remove_range-Balanced : (o lo hi : ℕ) (m : List Area) → Balanced o m (remove_range lo hi m)
unfolding remove_range
remove_range-Balanced o lo hi [] = (refl, refl)
remove_range-Balanced o lo hi (a ∷ r) =
    join-Balanced o a r _ _ (cut-Balanced o lo hi a (overlap lo hi a))
      (remove_range-Balanced o lo hi r)

-- Whatever the range, vmmap_remove keeps the count of references of every object equal to the
-- count of areas that map it: what it takes by ref and gives back by put is the change in the
-- number of areas of the object, and it unlinks vma_olink of exactly the linked areas that go.
pub remove-Balanced : (o lopage npages : ℕ) (m : List Area) → Balanced o m (remove m lopage npages)
unfolding remove
remove-Balanced o lopage npages m = remove_range-Balanced o lopage _ m
