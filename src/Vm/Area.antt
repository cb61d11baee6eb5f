-- ===== src/Vm/Area.antt =====
-- vmarea_t of kernel/vm/vmmap.c, the constants that the code takes from its headers, and the calls
-- that the routines make into other parts.
use weenix_kernel.Base.{ℕ, ◌≤◌, ◌<◌, ◌^◌, ◌⊎◌, Bool, Option, List, [], ◌∷◌, All}

-- Page numbers of USER_MEM_LOW and USER_MEM_HIGH (mm/mm.h): user pages are `low` up to `high`.
-- Page 0 is not a user page, and an address has 32 bits of which 12 are the offset in a page.
pub record Layout : Type 0 where
  pub low : ℕ
  pub high : ℕ
  pub low_pos : 0 < low
  pub low-lt-high : low < high
  pub high-le : high ≤ 2 ^ 20

-- The flag bits of mm/mman.h that vmmap.c tests.
pub record MapFlags : Type 0 where
  pub shared : ℕ
  pub private : ℕ

-- A vmarea_t. `obj` is vma_obj, the memory object it maps (none: NULL); `attached` says that
-- vma_vmmap is set, and `olinked` that vma_olink is linked into the list of its bottom object.
pub record Area : Type 0 where
  pub start : ℕ
  pub end : ℕ
  pub off : ℕ
  pub prot : ℕ
  pub flags : ℕ
  pub obj : Option ℕ
  pub attached : Bool
  pub olinked : Bool

-- Calls into memory objects and page tables, in the order in which they are made.
pub data Effect : Type 0 where
  -- obj->mmo_ops->ref and ->put
  ref put : Option ℕ → Effect
  -- vma_olink into, and out of, the list of the area's bottom object
  link_olink unlink_olink : Option ℕ → Effect
  -- a new shadow object (first) is placed over an object
  shadow_over : ℕ → Option ℕ → Effect
  -- pt_unmap_range over the pages from the first up to the second
  unmap_range : ℕ → ℕ → Effect

-- The areas stand in order, none empty and no two overlapping, from `lo` up to `hi`.
abbrev pub Sorted : ℕ → ℕ → List Area → Type 0
Sorted lo hi [] = lo ≤ hi
Sorted lo hi (a ∷ r) = (lo ≤ a.start) × (a.start < a.end) × Sorted a.end hi r

-- The area has no page in the range from `s` up to `e`.
abbrev pub Apart : ℕ → ℕ → Area → Type 0
Apart s e a = (a.end ≤ s) ⊎ (e ≤ a.start)

-- No area has a page in the range.
abbrev pub Vacant : ℕ → ℕ → List Area → Type 0
Vacant s e = All (Apart s e)
