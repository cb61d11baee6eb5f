-- ===== src/Vm/Remove.antt =====
-- vmmap_remove of kernel/vm/vmmap.c.
pub mod Pages
pub mod References
pub mod Order
use weenix_kernel.Base.{
  ℕ, ◌==◌, Bool, true, false, not, ◌&&◌, ◌||◌, List, [], ◌∷◌, ◌++◌, ltb, leb, if◌then◌else◌, add32,
  sub32,
}
use weenix_kernel.Vm.Area.{Area, Effect, ref, put, unlink_olink, unmap_range}

-- What the routine leaves: the areas, the calls that it made, and whether it left the loop.
pub record Removal : Type 0 where
  pub areas : List Area
  pub effects : List Effect
  pub stop : Bool

-- The four cases of an area against the range [start_vfn, end_vfn), and none of them.
pub data Overlap : Type 0 where
  inside tail head whole apart : Overlap

-- The conditions of the if-else chain, in its order; `clear` is flg_overlap.
pub overlap : ℕ → ℕ → Area → Overlap
overlap start_vfn end_vfn a =
    let clear = ltb a.end start_vfn || ltb end_vfn a.start in
    if leb a.start start_vfn && not clear && leb end_vfn a.end
    then inside
    else (if ltb a.end end_vfn && leb a.start start_vfn && not clear
        then tail
        else (if ltb start_vfn a.start && leb end_vfn a.end && not clear
            then head
            else (if ltb start_vfn a.start && ltb a.end end_vfn && not clear
                then whole
                else apart)))

-- The calls made when an area leaves the map.
pub drop_effects : Area → List Effect
drop_effects a = put a.obj ∷ (if a.olinked then unlink_olink a.obj ∷ [] else [])

-- An area that has become empty is dropped.
pub settle : Area → Removal
unfolding drop_effects
settle a =
    if a.start == a.end
    then record { areas = []; effects = drop_effects a; stop = false }
    else record { areas = a ∷ []; effects = []; stop = false }

-- Case 1: the part below the range becomes an area of its own, with a reference of its own.
abbrev pub below_part : ℕ → Area → Area
below_part start_vfn a = record a { end = start_vfn; attached = true; olinked = false }

abbrev pub above_part : ℕ → Area → Area
above_part end_vfn a = record a { start = end_vfn; off = sub32 (add32 a.off end_vfn) a.start }

pub split : ℕ → ℕ → Area → Removal
unfolding settle
split start_vfn end_vfn a =
    let low = below_part start_vfn a in
    let high = settle (above_part end_vfn a) in
    let empty = low.start == low.end in
    record {
      areas = if empty then high.areas else low ∷ high.areas;
      effects =
          ref a.obj ∷ (if empty then put a.obj ∷ [] else [])
          ++ (high.effects ++ unmap_range start_vfn end_vfn ∷ []);
      stop = true;
    }

-- What becomes of one area.
pub cut : ℕ → ℕ → Area → Overlap → Removal
unfolding split settle drop_effects
cut start_vfn end_vfn a inside = split start_vfn end_vfn a
cut start_vfn end_vfn a tail = settle (record a { end = start_vfn })
cut start_vfn end_vfn a head = settle (above_part end_vfn a)
cut start_vfn end_vfn a whole = record {
  areas = [];
  effects = drop_effects a ++ unmap_range a.start a.end ∷ [];
  stop = false;
}
cut start_vfn end_vfn a apart = record { areas = a ∷ []; effects = []; stop = false }

-- The loop over the areas.
abbrev pub join : Removal → List Area → Removal → Removal
join c r rest =
    if c.stop then record { areas = c.areas ++ r; effects = c.effects; stop = true } else record {
      areas = c.areas ++ rest.areas;
      effects = c.effects ++ rest.effects;
      stop = rest.stop;
    }

pub remove_range : ℕ → ℕ → List Area → Removal
unfolding cut overlap
remove_range start_vfn end_vfn [] = record { areas = []; effects = []; stop = false }
remove_range start_vfn end_vfn (a ∷ r) =
    join (cut start_vfn end_vfn a (overlap start_vfn end_vfn a)) r
      (remove_range start_vfn end_vfn r)

pub remove : List Area → ℕ → ℕ → Removal
unfolding remove_range
remove m lopage npages = remove_range lopage (add32 lopage npages) m
