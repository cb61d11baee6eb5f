-- ===== src/Vm/Fork.antt =====
-- What do_fork of kernel/proc/fork.c does with the address spaces of the parent and of the child.
pub mod Views
use weenix_kernel.Base.{
  ℕ, ◌+◌, Bool, true, Option, none, some, List, [], ◌∷◌, ◌++◌, bit_and, ◌==◌, if◌then◌else◌,
}
use weenix_kernel.Vm.Area.{Area, Effect, ref, link_olink, unlink_olink, shadow_over}

-- MAP_TYPE and MAP_PRIVATE.
pub record TypeBits : Type 0 where
  pub map_type : ℕ
  pub private : ℕ

abbrev pub is_private : TypeBits → Area → Bool
is_private b a = bit_and a.flags b.map_type == b.private

-- The areas of parent and child, and the calls that were made.
pub record Forked : Type 0 where
  pub parent : List Area
  pub child : List Area
  pub effects : List Effect

-- The parent's area is taken off the list of its bottom object if it is on it.
abbrev pub unlinked : Area → List Effect
unlinked a = if a.olinked then unlink_olink a.obj ∷ [] else []

-- `link_olink` is into the list of the bottom object of the one that it names. The next shadow objects are `next` and `next + 1`, for the child and for the parent.
pub fork_private : ℕ → Area → Area → Forked → Forked
fork_private next a c rest = record {
  parent = record a { obj = some (next + 1); olinked = true } ∷ rest.parent;
  child = record c { obj = some next; olinked = true } ∷ rest.child;
  effects =
      (ref a.obj ∷ shadow_over next a.obj ∷ link_olink a.obj ∷ shadow_over (next + 1) a.obj ∷ [])
      ++ (unlinked a ++ (link_olink a.obj ∷ rest.effects));
}

pub fork_shared : Area → Area → Forked → Forked
fork_shared a c rest = record {
  parent = a ∷ rest.parent;
  child = record c { obj = a.obj } ∷ rest.child;
  effects = ref a.obj ∷ rest.effects;
}

-- The loop of do_fork, over the areas of the parent and their copies by vmmap_clone.
pub fork_areas : TypeBits → ℕ → List Area → List Area → Forked
unfolding fork_private fork_shared
fork_areas b next (a ∷ m) (c ∷ r) =
    if is_private b a
    then fork_private next a c (fork_areas b (next + 2) m r)
    else fork_shared a c (fork_areas b next m r)
fork_areas b next m r = record { parent = m; child = r; effects = [] }
