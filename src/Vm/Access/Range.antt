-- ===== src/Vm/Access/Range.antt =====
-- range_perm checks each page of its range, if it starts at a page.
use weenix_kernel.Base.{
  ℕ, zero, suc, ◌+◌, ◌-◌, ◌*◌, ◌/◌, ◌%◌, ◌^◌, ◌≤◌, ◌<◌, ◌≡◌, ◌↔◌, inl, inr, refl, Bool, true, false,
  some, List, arith, ltb, ◌==◌, ==_iff, clash, add32, ap, sym, subst, ◌∙◌, Bool-cases, ◌≢◌,
}
use weenix_kernel.Vm.Area.{Area}
use weenix_kernel.Vm.Vmmap.{lookup}
use weenix_kernel.Vm.Mapping.{page_size}
use weenix_kernel.Vm.Syscalls.Munmap.{touches}
use weenix_kernel.Vm.Access.{is_mapped, addr_perm, perm_loop, range_perm}

module _ (m : List Area) (avaddr len : ℕ) where
  -- The pages from the `i`-th of the range on.
  abbrev pub MappedFrom : ℕ → Type 0
  MappedFrom i =
      (j : ℕ) → i ≤ j → j * page_size < len → is_mapped (lookup (avaddr / page_size + j) m) ≡ true

  here_too :
      (i : ℕ)
      → is_mapped (lookup (avaddr / page_size + i) m) ≡ true
      → MappedFrom (i + 1)
      → MappedFrom i
  here_too i good f j le lt = elim (Bool-cases (i == j)) [
    | inl e ↦
        ap (λ k. is_mapped (lookup (avaddr / page_size + k) m)) (sym ((==_iff i j).0 e)) ∙ good
    | inr ne ↦ let d : i ≢ j = λ e. clash (i == j) ((==_iff i j).1 e) ne in f j (omega arith) lt
  ]

  step :
      (rounds i : ℕ)
      → ltb (i * page_size) len ≡ true
      → add32 avaddr (i * page_size) / page_size ≡ avaddr / page_size + i
      → is_mapped (lookup (avaddr / page_size + i) m) ≡ true
      → add32 (i * page_size) page_size ≡ (i + 1) * page_size
      → perm_loop (suc rounds) m avaddr len (i * page_size)
        ≡ perm_loop rounds m avaddr len ((i + 1) * page_size)
  unfolding perm_loop addr_perm
  step rounds i more at good next = rw more rw at rw good rw next refl

  perm_loop-MappedFrom :
      avaddr % page_size ≡ 0
      → avaddr + len ≤ 2 ^ 32
      → len + page_size ≤ 2 ^ 32
      → (rounds i : ℕ) → len + page_size < (i + rounds) * page_size
      → i * page_size < len + page_size
      → (r : Bool) × (perm_loop rounds m avaddr len (i * page_size) ≡ some r)
        × ((r ≡ true) ↔ MappedFrom i)
  unfolding perm_loop addr_perm
  perm_loop-MappedFrom al top small zero i h b = absurd (omega arith)
  perm_loop-MappedFrom al top small (suc rounds) i h b =
      elim (Bool-cases (ltb (i * page_size) len)) [
        | inr done ↦ (true, rw done refl, ((λ e j le lt. absurd (ground arith)), (λ f. refl)))
        | inl more ↦
            let next : add32 (i * page_size) page_size ≡ (i + 1) * page_size = ground arith in
            let at : add32 avaddr (i * page_size) / page_size ≡ avaddr / page_size + i =
              ground arith in
            elim (Bool-cases (is_mapped (lookup (avaddr / page_size + i) m))) [
              | inr bad ↦ (
                false,
                rw more rw at rw bad refl,
                (
                  (λ e. cc),
                  (λ f.
                      clash (is_mapped (lookup (avaddr / page_size + i) m))
                        (f i (omega arith) (ground arith)) bad),
                ),
              )
              | inl good ↦
                  let (r, e, iff) =
                    perm_loop-MappedFrom al top small rounds (i + 1) (omega arith) (ground arith) in
                  (
                    r,
                    step rounds i more at good next ∙ e,
                    (
                      (λ t. here_too i good (iff.0 t)),
                      (λ f. iff.1 (λ j le lt. f j (omega arith) lt)),
                    ),
                  )
            ]
      ]

  MappedFrom-touches :
      avaddr % page_size ≡ 0
      → MappedFrom 0 ↔ ((v : ℕ) → touches avaddr len v ≡ true → is_mapped (lookup v m) ≡ true)
  MappedFrom-touches al = (
    (λ f v t.
        let q : avaddr / page_size + (v - avaddr / page_size) ≡ v = ground arith in
        subst (λ u. is_mapped (lookup u m) ≡ true) q
          (f (v - avaddr / page_size) (omega arith) (ground arith))),
    (λ g j le lt. g (avaddr / page_size + j) (ground arith)),
  )

  -- For a range that starts at a page, does not wrap and is shorter than the address space by a page,
  -- range_perm ends, and is 1 exactly if every page with a byte in the range is mapped, whatever the
  -- permissions.
  pub range_perm-touches :
      avaddr % page_size ≡ 0
      → avaddr + len ≤ 2 ^ 32
      → len + page_size ≤ 2 ^ 32
      → (r : Bool) × (range_perm m avaddr len ≡ some r)
        × ((r ≡ true) ↔ ((v : ℕ) → touches avaddr len v ≡ true → is_mapped (lookup v m) ≡ true))
  unfolding range_perm
  range_perm-touches al top small =
      let (r, e, iff) =
        perm_loop-MappedFrom al top small (len / page_size + 2) 0 (omega arith) (omega arith) in
      let t = MappedFrom-touches al in (r, e, ((λ h. t.0 (iff.0 h)), (λ g. iff.1 (t.1 g))))
