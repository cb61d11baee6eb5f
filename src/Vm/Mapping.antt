-- ===== src/Vm/Mapping.antt =====
-- vmmap_map of kernel/vm/vmmap.c.
pub mod Result
use weenix_kernel.Base.{
  ℕ, ◌/◌, ◌%◌, ◌^◌, Bool, true, false, ◌&&◌, ◌||◌, Option, none, some, List, [], ◌∷◌, ◌++◌, bit_and,
  ltb, leb, ◌==◌, if◌then◌else◌, add32,
}
use weenix_kernel.Base.Outcome.{Outcome, ok, ◌>>=◌, ◌>>◌, kassert, deref}
use weenix_kernel.Vm.Area.{Layout, MapFlags, Area, Effect, link_olink, shadow_over}
use weenix_kernel.Vm.Vmmap.{Dir, insert, find_range, is_range_empty}
use weenix_kernel.Vm.Remove.{remove}

-- Where objects come from: a vnode's mmap operation, given the vnode and the area, and the new
-- objects of anon_create and shadow_create.
pub record Objects : Type 0 where
  pub mmap : ℕ → Area → Option ℕ
  pub anon : ℕ
  pub new_shadow : ℕ

-- The arguments of a call. `file` is the vnode, `none` for NULL.
pub record Request : Type 0 where
  pub file : Option ℕ
  pub lopage : ℕ
  pub npages : ℕ
  pub prot : ℕ
  pub flags : ℕ
  pub off : ℕ
  pub dir : Dir

-- On success the new map and area; `no_room` is the result -1 of vmmap_find_range.
pub data Mapped : Type 0 where
  mapped : List Area → Area → List Effect → Mapped
  no_room : Mapped

abbrev pub page_size : ℕ
page_size = 2 ^ 12

-- The assertions on the arguments.
unfoldable pub valid_request : Layout → MapFlags → Request → Bool
valid_request l f q =
    ltb 0 q.npages
    && ((ltb 0 (bit_and f.shared q.flags) || ltb 0 (bit_and f.private q.flags))
        && ((q.lopage == 0 || leb l.low q.lopage)
            && ((q.lopage == 0 || leb (add32 q.lopage q.npages) l.high)
                && (q.off % page_size) == 0)))

-- Where the area goes, and the map once that range is free.
pub place : Layout → List Area → Request → Outcome (Option (ℕ × List Area × List Effect))
place l m q =
    if q.lopage == 0
    then (find_range l m q.npages q.dir >>= λ found.
        ok (elim found [ none ↦ none | some s ↦ some (s, m, []) ]))
    else (is_range_empty l m q.lopage q.npages >>= λ free.
        let removal = remove m q.lopage q.npages in
        ok (some (if free then (q.lopage, m, []) else (q.lopage, removal.areas, removal.effects))))

-- The area with all its fields but the object set.
pub fresh_area : Request → ℕ → Area
fresh_area q s = record {
  start = s;
  end = add32 s q.npages;
  off = q.off / page_size;
  prot = q.prot;
  flags = q.flags;
  obj = none;
  attached = false;
  olinked = true;
}

-- The object that the file, or an anonymous object, gives.
unfoldable pub base_object : Objects → Request → Area → Option ℕ
base_object o q a = elim q.file [ none ↦ some o.anon | some file ↦ o.mmap file a ]

-- A private mapping gets a shadow object over it.
pub with_object : MapFlags → Objects → Request → ℕ → Area → Area
with_object f o q base a =
    if bit_and q.flags f.private == f.private
    then record a { obj = some o.new_shadow }
    else record a { obj = some base }

pub object_effects : MapFlags → Objects → Request → ℕ → List Effect
object_effects f o q base =
    link_olink (some base)
    ∷ (if bit_and q.flags f.private == f.private
        then shadow_over o.new_shadow (some base) ∷ []
        else [])

-- The result of the file's mmap is not tested: without an object mmobj_bottom_vmas dereferences a
-- pointer that is not set.
pub map_area : Layout → MapFlags → Objects → List Area → Request → Outcome Mapped
unfolding valid_request place fresh_area base_object with_object object_effects
map_area l f o m q = do
  kassert (valid_request l f q)
  found ← place l m q
  elim found [
    | none ↦ ok no_room
    | some (s, m', effects) ↦
        let a = fresh_area q s in
        (deref (base_object o q a) >>= λ base. insert l m' (with_object f o q base a) >>= λ m''.
        ok (
          mapped m'' (record (with_object f o q base a) { attached = true })
            (effects ++ object_effects f o q base)))
  ]
