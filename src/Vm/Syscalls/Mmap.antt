-- ===== src/Vm/Syscalls/Mmap.antt =====
-- do_mmap on every branch, and the address that stops the kernel.
use weenix_kernel.Base.{
  ℕ, ◌+◌, ◌*◌, ◌/◌, ◌%◌, ◌≤◌, ◌<◌, ◌≡◌, ◌≢◌, inl, inr, refl, Bool, true, false, not, ◌&&◌, ◌||◌,
  Option, none, some, List, arith, leb, ◌==◌, ==_iff, differ, clash, if◌then◌else◌, sym, subst, ◌∙◌,
  Bool-cases,
}
use weenix_kernel.Base.Outcome.{ok, panic, ◌>>=◌}
use weenix_kernel.Vm.Area.{Layout, Area, Sorted}
use weenix_kernel.Vm.View.{page_at, in_range, view}
use weenix_kernel.Vm.Range.Gap.{Fits, Highest}
use weenix_kernel.Vm.Mapping.{Objects, page_size, map_area, valid_request}
use weenix_kernel.Vm.Mapping.Result.{Result, map_area-panic}
use weenix_kernel.Vm.Syscalls.{
  pages_of, do_mmap, MmapBits, MmapArgs, Mmapped, failed, full, placed, Errno, einval, eperm, ebadf,
  some_bit, request, mmap_result, run_mmap, find_node,
}

module _ (l : Layout) (b : MmapBits) (o : Objects) (m : List Area) (a : MmapArgs) where
  -- The errno of a call that is refused.
  abbrev pub file_refusal : Option (ℕ × Bool) → Option Errno
  file_refusal none = some ebadf
  file_refusal (some (vnode, writes)) =
      if some_bit b.prot_write a.prot && not writes then some eperm else none

  abbrev pub good_size : Bool
  good_size =
      not (a.len == 0)
      && (leb (a.len + l.low * page_size) (l.high * page_size)
          && ((a.off % page_size == 0) && (a.addr % page_size == 0)))

  abbrev pub kind_given : Bool
  kind_given = some_bit b.map.shared a.flags || some_bit b.map.private a.flags

  abbrev pub refusal : Option Errno
  refusal =
      if not good_size
      then some einval
      else (if not kind_given
          then some eperm
          else (if some_bit b.fixed a.flags && a.addr == 0
              then some einval
              else (if some_bit b.anon a.flags then none else file_refusal a.file)))

  abbrev pub MmapResult : Mmapped → Type 0
  MmapResult (failed e) = refusal ≡ some e
  MmapResult full =
      (refusal ≡ none) × (a.addr ≡ 0) × ((t : ℕ) → ¬ Fits l.low l.high m (pages_of a.len) t)
  MmapResult (placed t m' x effects) =
      (refusal ≡ none)
      × Sorted l.low l.high m'
      × ((v : ℕ)
          → page_at v m' ≡ (if in_range x.start x.end v then some (view v x) else page_at v m))
      × (x.end ≡ x.start + pages_of a.len)
      × (x.off ≡ a.off / page_size)
      × (x.prot ≡ a.prot)
      × (x.flags ≡ a.flags)
      × (t ≡ x.start * page_size)
      × (a.addr ≢ 0 → t ≡ a.addr)
      × (a.addr ≡ 0 → Highest l.low l.high m (pages_of a.len) (some x.start))

  -- MAP_FIXED is a bit of its own.
  abbrev pub OwnBit : Type 0
  OwnBit = (some_bit b.map.shared b.fixed ≡ false) × (some_bit b.map.private b.fixed ≡ false)

  -- The asked address, if there is one, lies with its range in the user's memory.
  abbrev pub UserRange : Type 0
  UserRange = a.addr ≢ 0 → (l.low * page_size ≤ a.addr) × (a.addr + a.len ≤ l.high * page_size)

  -- The mmap operation of the file gives an object.
  abbrev pub FileObject : Type 0
  FileObject =
      (vnode : ℕ) (writes : Bool)
      → a.file ≡ some (vnode, writes)
      → (x : Area) → (base : ℕ) × (o.mmap vnode x ≡ some base)

  flags_differ : OwnBit → kind_given ≡ true → (a.flags == b.fixed) ≡ false
  flags_differ own k = elim (Bool-cases (a.flags == b.fixed)) [
    | inr e ↦ e
    | inl e ↦ clash kind_given k (
        subst (λ x. (some_bit b.map.shared x || some_bit b.map.private x) ≡ false)
          (sym ((==_iff a.flags b.fixed).0 e)) (ground (arith, own.0, own.1)))
  ]

  below_user :
      OwnBit
      → a.addr ≢ 0
      → a.addr < l.low * page_size
      → good_size ≡ true
      → kind_given ≡ true
      → valid_request l b.map (request b a none) ≡ false
  unfolding valid_request
  below_user own ne lt g k =
      let d = flags_differ own k in
      let al : a.addr % page_size ≡ 0 = ground arith in
      let z : (a.addr / page_size == 0) ≡ false =
        differ (a.addr / page_size) 0 (λ e. ne (omega arith)) in
      let w : leb l.low (a.addr / page_size) ≡ false = ground arith in rw d rw z rw w (ground arith)

  -- An asked address that is not 0 and below the user's memory makes an anonymous do_mmap with
  -- otherwise good arguments panic, in an assertion of vmmap_map.
  pub do_mmap-panic :
      OwnBit
      → a.addr ≢ 0
      → a.addr < l.low * page_size
      → good_size ≡ true
      → kind_given ≡ true
      → some_bit b.anon a.flags ≡ true
      → do_mmap l b o m a ≡ panic
  unfolding do_mmap find_node run_mmap
  do_mmap-panic own ne lt g k n =
      let v : valid_request l b.map (request b a none) ≡ false = below_user own ne lt g k in
      let p = map_area-panic l b.map o m (request b a none) v in
      let eq : do_mmap l b o m a
          ≡ (map_area l b.map o m (request b a none) >>= λ done. ok (mmap_result done)) =
        ground (arith, l.low-lt-high) in
      eq ∙ rw p refl
