-- ===== src/Vm/Copy.antt =====
-- vmmap_read and vmmap_write of kernel/vm/vmmap.c: which bytes of which frames are copied. The bytes
-- themselves are left out.
pub mod Pieces
use weenix_kernel.Base.{
  ℕ, zero, suc, ◌+◌, ◌-◌, ◌/◌, ◌%◌, ◌^◌, Bool, true, false, Option, none, some, List, [], ◌∷◌, ltb,
  if◌then◌else◌, add32, sub32,
}
use weenix_kernel.Base.Outcome.{Outcome, ok, panic, ◌>>=◌, deref}
use weenix_kernel.Vm.Area.{Area}
use weenix_kernel.Vm.Vmmap.{lookup, pagenum}
use weenix_kernel.Vm.Mapping.{page_size}

-- What pframe_lookup does with the kernel, given an object, a page and forwrite, and pframe_dirty given a
-- frame. `none` for the frame is an error: then the pointer to the frame is not set.
pub record CopyEnv (K : Type 0) : Type 0 where
  pub pframe_lookup : Option ℕ → ℕ → Bool → K → Option ℕ × K
  pub pframe_dirty : ℕ → K → K

-- One memcpy: the object and page and its frame, the first byte in the page, and how many bytes.
pub record Piece : Type 0 where
  pub obj : Option ℕ
  pub page : ℕ
  pub frame : ℕ
  pub offset : ℕ
  pub size : ℕ

-- The page that vmmap_read looks up.
abbrev pub read_pagenum : ℕ → Area → ℕ
read_pagenum vfn a = sub32 vfn (add32 a.start a.off)

abbrev pub min_uint32 : ℕ → ℕ → ℕ
min_uint32 a b = if ltb a b then a else b

abbrev pub piece : (ℕ → Area → ℕ) → Area → ℕ → ℕ → ℕ → Piece
piece page a frame addr left = record {
  obj = a.obj;
  page = page (addr / page_size) a;
  frame = frame;
  offset = addr % page_size;
  size = min_uint32 left (page_size - addr % page_size);
}

abbrev pub prepend : Piece → Option (List Piece) → Option (List Piece)
prepend p none = none
prepend p (some r) = some (p ∷ r)

module _ {K : Type 0} (env : CopyEnv K) where
  open env use {pframe_lookup, pframe_dirty}

  -- vmmap_write marks the frame as dirty; vmmap_read does not.
  abbrev pub touched : Bool → ℕ → K → K
  touched forwrite f k = if forwrite then pframe_dirty f k else k

  -- The loop of both, with `left` bytes to go from `addr`, and with fuel for its rounds: `none` says
  -- that it ran out. A page that is not mapped is an access through NULL, and a lookup that fails,
  -- whose result is not tested, one through a pointer that is not set.
  pub copy_loop :
      (ℕ → Area → ℕ) → Bool → ℕ → List Area → ℕ → ℕ → K → Outcome (Option (List Piece) × K)
  copy_loop page forwrite zero m addr left k = ok (none, k)
  copy_loop page forwrite (suc rounds) m addr left k =
      if ltb 0 left
      then (do
        a ← deref (lookup (addr / page_size) m)
        let (frame, k1) = pframe_lookup a.obj (page (addr / page_size) a) forwrite k
        f ← deref frame
        let p = piece page a f addr left
        copy_loop page forwrite rounds m (add32 addr p.size) (left - p.size) (touched forwrite f k1)
            >>= λ r. ok (prepend p r.0, r.1))
      else ok (some [], k)

  -- Each round copies a byte at least.
  pub vmmap_read : List Area → ℕ → ℕ → K → Outcome (Option (List Piece) × K)
  unfolding copy_loop
  vmmap_read m vaddr count k = copy_loop read_pagenum false (count + 1) m vaddr count k

  pub vmmap_write : List Area → ℕ → ℕ → K → Outcome (Option (List Piece) × K)
  unfolding copy_loop
  vmmap_write m vaddr count k = copy_loop pagenum true (count + 1) m vaddr count k
