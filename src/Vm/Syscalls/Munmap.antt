-- ===== src/Vm/Syscalls/Munmap.antt =====
-- do_munmap unmaps the pages that have a byte of its range.
use weenix_kernel.Base.{
  ℕ, ◌+◌, ◌-◌, ◌*◌, ◌/◌, ◌%◌, ◌≤◌, ◌<◌, ◌≡◌, inl, inr, refl, Bool, true, false, not, ◌&&◌, none,
  List, arith, ltb, leb, ◌==◌, if◌then◌else◌, sub32, ap, sym, subst, ◌∙◌, Bool-cases,
}
use weenix_kernel.Vm.Area.{Layout, Area, Sorted}
use weenix_kernel.Vm.View.{page_at, in_range}
use weenix_kernel.Vm.Mapping.{page_size}
use weenix_kernel.Vm.Remove.{remove}
use weenix_kernel.Vm.Remove.Pages.{page_at-remove}
use weenix_kernel.Vm.Remove.Order.{remove-Sorted}
use weenix_kernel.Vm.Syscalls.{pages_of, do_munmap, Unmapped, unmapped, refused, einval}

-- The page has a byte in the range of `len` bytes from `addr`.
abbrev pub touches : ℕ → ℕ → ℕ → Bool
touches addr len v = ltb (v * page_size) (addr + len) && ltb addr ((v + 1) * page_size)

module _ (l : Layout) (m : List Area) (addr len : ℕ) where
  -- A range of the user's memory that starts at a page.
  abbrev pub user_range : Bool
  user_range =
      not (len == 0)
      && (leb (l.low * page_size) addr
          && (leb (addr + len) (l.high * page_size) && (addr % page_size == 0)))

  abbrev pub MunmapResult : Unmapped → Type 0
  MunmapResult (refused e) = (user_range ≡ false) × (e ≡ einval)
  MunmapResult (unmapped r) =
      (user_range ≡ true)
      × Sorted l.low l.high r.areas
      × ((v : ℕ) → page_at v r.areas ≡ (if touches addr len v then none else page_at v m))

  touches-in_range :
      (v : ℕ)
      → 0 < len
      → addr % page_size ≡ 0
      → in_range (addr / page_size) (addr / page_size + pages_of len) v ≡ touches addr len v
  touches-in_range v pos al = ground arith

  -- The difference that do_munmap compares with the length does not wrap.
  room :
      0 < addr
      → addr ≤ l.high * page_size
      → sub32 (l.high * page_size) addr ≡ l.high * page_size - addr
  room pos le = omega (arith, l.high-le)

  accepted :
      user_range ≡ true
      → do_munmap l m addr len ≡ unmapped (remove m (addr / page_size) (pages_of len))
  unfolding do_munmap
  accepted e =
      let low = l.low_pos in let r = room (ground arith) (ground arith) in rw r (ground arith)

  rejected :
      user_range ≡ false → addr ≤ l.high * page_size → do_munmap l m addr len ≡ refused einval
  unfolding do_munmap
  rejected e le = elim (Bool-cases (addr == 0)) [
    | inl z ↦ ground arith
    | inr z ↦ let r = room (ground arith) le in rw r (ground arith)
  ]

  -- For an address up to the end of the user's memory, do_munmap is -EINVAL, unless its range is not
  -- empty, lies within the user's memory and starts at a page. Then a page that has a byte in the
  -- range is unmapped, every other page shows what it showed, and the areas stay in order.
  pub do_munmap-MunmapResult :
      Sorted l.low l.high m → addr ≤ l.high * page_size → MunmapResult (do_munmap l m addr len)
  do_munmap-MunmapResult s le = elim (Bool-cases user_range) [
    | inr e ↦ subst MunmapResult (sym (rejected e le)) (e, refl)
    | inl e ↦
        let n : 0 < pages_of len = ground arith in
        let h : addr / page_size + pages_of len ≤ l.high = ground arith in
        subst MunmapResult (sym (accepted e)) (
          e,
          (remove-Sorted l m (addr / page_size) (pages_of len) s n h).0,
          λ v.
              page_at-remove l m (addr / page_size) (pages_of len) v s n h
              ∙ ap (λ b. if b then none else page_at v m)
                  (touches-in_range v (ground arith) (ground arith)),
        )
  ]
