-- ===== src/Vm/Copy/Pieces.antt =====
-- The pieces that are copied follow each other and are those that the address space shows.
use weenix_kernel.Base.{
  ℕ, zero, suc, ◌+◌, ◌-◌, ◌/◌, ◌%◌, ◌^◌, ◌≤◌, ◌<◌, ◌≡◌, inl, inr, refl, Bool, true, false, Option,
  none, some, List, [], ◌∷◌, arith, ltb, if◌then◌else◌, add32, Bool-cases, ◌↔◌,
}
use weenix_kernel.Base.Outcome.{Ends, Ends-bind}
use weenix_kernel.Vm.Area.{Area}
use weenix_kernel.Vm.Vmmap.{lookup, pagenum}
use weenix_kernel.Vm.View.{View, view, page_at}
use weenix_kernel.Vm.Mapping.{page_size}
use weenix_kernel.Vm.Syscalls.Munmap.{touches}
use weenix_kernel.Vm.Copy.{
  CopyEnv, touched, Piece, read_pagenum, piece, prepend, copy_loop, vmmap_read, vmmap_write,
}

still_touches :
    (addr left z v : ℕ)
    → z ≤ left
    → touches (addr + z) (left - z) v ≡ true
    → touches addr left v ≡ true
still_touches addr left z v le q = ground arith

module _ {K : Type 0} (env : CopyEnv K) (forwrite : Bool) (m : List Area) where
  open env use {pframe_lookup}

  -- The pieces cover the `left` bytes from `addr`, each within a page, which is the page of the object
  -- that the address space shows there, and in the frame that pframe_lookup gave for it; that frame is
  -- marked as dirty before the next lookup if the copy is `forwrite`.
  abbrev pub Pieces : ℕ → ℕ → K → List Piece → K → Type 0
  Pieces addr left k [] k' = (left ≡ 0) × (k' ≡ k)
  Pieces addr left k (p ∷ r) k' =
      ((w : View) × (page_at (addr / page_size) m ≡ some w) × (p.obj ≡ w.obj) × (p.page ≡ w.page))
      × (p.offset ≡ addr % page_size)
      × (0 < p.size)
      × (p.size ≤ left)
      × (p.offset + p.size ≤ page_size)
      × ((k1 : K) × (pframe_lookup p.obj p.page forwrite k ≡ (some p.frame, k1))
          × Pieces (addr + p.size) (left - p.size)
              (if forwrite then env.pframe_dirty p.frame k1 else k1) r k')

  abbrev pub Copied : ℕ → ℕ → K → Option (List Piece) × K → Type 0
  Copied addr left k (none, k') = ⊥
  Copied addr left k (some r, k') = Pieces addr left k r k'

  -- Every page with a byte in the range is mapped, and the lookup of its frame succeeds.
  abbrev pub Reachable : (ℕ → Area → ℕ) → ℕ → ℕ → Type 0
  Reachable page addr left =
      (v : ℕ)
      → touches addr left v ≡ true
      → (a : Area) × (lookup v m ≡ some a)
        × ((k : K)
            → (f : ℕ) × (k1 : K) × (pframe_lookup a.obj (page v a) forwrite k ≡ (some f, k1)))

  module _ (page : ℕ → Area → ℕ)
      (right : (v : ℕ) (a : Area) → lookup v m ≡ some a → page v a ≡ pagenum v a) where
    -- A piece in front of those of the rest.
    first_piece :
        (a : Area) (addr left f : ℕ) (k k1 : K)
        → lookup (addr / page_size) m ≡ some a
        → 0 < left
        → pframe_lookup a.obj (page (addr / page_size) a) forwrite k ≡ (some f, k1)
        → let p = piece page a f addr left in
          (o : Option (List Piece) × K)
          → Copied (addr + p.size) (left - p.size) (touched env forwrite f k1) o
          → Copied addr left k (prepend p o.0, o.1)
    first_piece a addr left f k k1 e pos there (none, k') h = h
    first_piece a addr left f k k1 e pos there (some r, k') h = (
      (view (addr / page_size) a, rw e refl, refl, right (addr / page_size) a e),
      refl,
      ground arith,
      ground arith,
      ground arith,
      (k1, there, h),
    )

    copy_loop-Copied :
        (rounds addr left : ℕ) (k : K)
        → left < rounds
        → addr + left < 2 ^ 32
        → Reachable page addr left
        → Ends (Copied addr left k) (copy_loop env page forwrite rounds m addr left k)
    unfolding copy_loop
    copy_loop-Copied zero addr left k h w reach = absurd (omega arith)
    copy_loop-Copied (suc rounds) addr left k h w reach = elim (Bool-cases (ltb 0 left)) [
      | inr done ↦ rw done (ground arith, refl)
      | inl more ↦
          let pos : 0 < left = ground arith in
          let t : touches addr left (addr / page_size) ≡ true = ground arith in
          let (a, e, finds) = reach (addr / page_size) t in
          let (f, k1, there) = finds k in
          let p = piece page a f addr left in
          let some_bytes : 0 < p.size = ground arith in
          let le : p.size ≤ left = ground arith in
          let next : add32 addr p.size ≡ addr + p.size = omega arith in
          let k2 = touched env forwrite f k1 in
          rw more rw e rw there rw next (
            Ends-bind (Copied (addr + p.size) (left - p.size) k2) (Copied addr left k)
              (copy_loop env page forwrite rounds m (addr + p.size) (left - p.size) k2) _
              (copy_loop-Copied rounds (addr + p.size) (left - p.size) k2 (omega arith)
                (omega arith) (λ v q. reach v (still_touches addr left p.size v le q)))
              (first_piece a addr left f k k1 e pos there))
    ]

-- If every page with a byte in the range is mapped, pframe_lookup finds its frame, whatever the kernel's
-- state, and the range does not wrap, then vmmap_write ends without panic: the pieces that it copies
-- follow each other from the start to the end of the range, each is within a page, and each is the
-- page of the object that the address space shows there, in the frame that pframe_lookup gave for
-- writing, which is then marked as dirty before the next lookup.
pub vmmap_write-Copied :
    {K : Type 0} (env : CopyEnv K) (m : List Area) (vaddr count : ℕ) (k : K)
    → vaddr + count < 2 ^ 32
    → Reachable env true m pagenum vaddr count
    → Ends (Copied env true m vaddr count k) (vmmap_write env m vaddr count k)
unfolding vmmap_write
vmmap_write-Copied env m vaddr count k w reach =
    copy_loop-Copied env true m pagenum (λ v a e. refl) (count + 1) vaddr count k (omega arith) w
      reach

-- For 32-bit page numbers, vmmap_read looks up the page of an area that the address space shows
-- exactly if twice the offset of the area is 0, modulo 2 ^ 32; so for an area of offset 0 it does,
-- and for an area with another offset below 2 ^ 31 it looks up a wrong page.
pub read_pagenum-pagenum :
    (v : ℕ) (a : Area)
    → v < 2 ^ 32
    → a.start < 2 ^ 32
    → a.off < 2 ^ 32
    → (read_pagenum v a ≡ pagenum v a) ↔ ((a.off + a.off) % 2 ^ 32 ≡ 0)
read_pagenum-pagenum v a p q r = ((λ e. omega arith), (λ e. omega arith))

same_page : (v : ℕ) (a : Area) → a.off ≡ 0 → a.start < 2 ^ 32 → read_pagenum v a ≡ pagenum v a
same_page v a z lt = rw z (omega arith)

-- If every page with a byte in the range is mapped and pframe_lookup finds its frame, the range does not
-- wrap, and each area that the map finds has offset 0 and starts at a 32-bit page number, then vmmap_read
-- ends without panic, and its pieces follow each other from the start to the end of the range, each
-- within a page, which is the page of the object that the address space shows there.
pub vmmap_read-Copied :
    {K : Type 0} (env : CopyEnv K) (m : List Area) (vaddr count : ℕ) (k : K)
    → vaddr + count < 2 ^ 32
    → Reachable env false m read_pagenum vaddr count
    → ((v : ℕ) (a : Area) → lookup v m ≡ some a → (a.off ≡ 0) × (a.start < 2 ^ 32))
    → Ends (Copied env false m vaddr count k) (vmmap_read env m vaddr count k)
unfolding vmmap_read
vmmap_read-Copied env m vaddr count k w reach zero_off =
    copy_loop-Copied env false m read_pagenum
      (λ v a e. same_page v a (zero_off v a e).0 (zero_off v a e).1) (count + 1) vaddr count k
      (omega arith) w reach
