-- ===== src/Mm/Frames/Lookup.antt =====
-- pframe_get_resident finds a page exactly if it is resident.
use weenix_kernel.Base.{
  ℕ, ◌≡◌, refl, ap, ◌∙◌, true, false, Option, none, some, List, [], ◌∷◌, ◌++◌, ==_iff, Bool-cases,
  inl, inr, ◌⊎◌, if◌then◌else◌, arith, has, erase, has-erase, erase-Distinct, length-erase,
  has-append, length-append, clash,
}
use weenix_kernel.Mm.Objects.{Frame, Pages, is_some, is_page, in_chain, Inv}
use weenix_kernel.Mm.Frames.{is_pinned, find_in, used, to_tail, get_resident}
use weenix_kernel.Mm.Frames.Pin.{append-Distinct, in_chain-eq, same_pages}

pub page_of : (o n : ℕ) (x : Frame) → is_page o n x ≡ true → (x.obj ≡ some o) × (x.pagenum ≡ n)
page_of o n x h = ground (arith, ==_iff n x.pagenum)

-- The page `n` has no frame in the object.
abbrev pub Absent : ℕ → Pages → ℕ → Type 0
Absent n s p = (f : ℕ) → is_page p n (s.frames f) ≡ false

-- The states have the same frames and objects; only the order of the allocated list differs.
abbrev pub Reordered : Pages → Pages → Type 0
Reordered s s' = (s'.frames ≡ s.frames) × (s'.objects ≡ s.objects)

module _ (bucket : ℕ → ℕ → ℕ) where
  find_in-cases :
      (o n : ℕ) (l : List ℕ) (s : Pages)
      → ((f : ℕ) × (find_in bucket o n l s ≡ some f)
          × (has f l ≡ true)
          × (is_page o n (s.frames f) ≡ true))
        ⊎ ((find_in bucket o n l s ≡ none)
            × ((f : ℕ) → has f l ≡ true → is_page o n (s.frames f) ≡ false))
  unfolding find_in
  find_in-cases o n [] s = inr (refl, λ f h. cc)
  find_in-cases o n (f ∷ r) s = elim (Bool-cases (is_page o n (s.frames f))) [
    | inl e ↦ inl (f, rw e refl, ground (arith, (==_iff f f).1 refl), e)
    | inr e ↦ elim (find_in-cases o n r s) [
      | inl (g, at, h, is) ↦ inl (g, rw e at, ground arith, is)
      | inr (at, misses) ↦ inr (
        rw e at,
        λ g h. ground (arith, (==_iff f g).0, misses g, ap (λ v. is_page o n (s.frames v))),
      )
    ]
  ]

  page-in_chain :
      (o n : ℕ) (x : Frame) → is_page o n x ≡ true → in_chain bucket (bucket o n) x ≡ true
  page-in_chain o n x h =
      let (at, num) = page_of o n x h in
      let b = bucket o n in
      in_chain-eq bucket b x (record x { obj = some o; pagenum = n }) at num ∙ (==_iff b b).1 refl

  used-Inv :
      (f : ℕ) (s : Pages)
      → Inv bucket s
      → is_some (s.frames f).obj ≡ true
      → Inv bucket (used bucket (some f) s)
  used-Inv f s i h = elim (Bool-cases (is_pinned (s.frames f))) [
    | inl e ↦ rw e i
    | inr e ↦ rw e (
        same_pages bucket s (record s { alloc = to_tail f s.alloc }) i (λ u. refl) (λ u. refl) refl
          refl
          (
            (λ u.
                has-append u (erase f s.alloc) (f ∷ [])
                ∙ ground (
                  arith,
                  has-erase f u s.alloc i.alloc_once,
                  i.on_alloc u,
                  i.on_alloc f,
                  (==_iff f u).0,
                )),
            i.on_pinned,
            append-Distinct (erase f s.alloc) f (erase-Distinct f s.alloc i.alloc_once)
                (ground (arith, has-erase f f s.alloc i.alloc_once, (==_iff f f).1 refl)),
            i.pinned_once,
            ground (
              arith,
              length-append {0} (erase f s.alloc) (f ∷ []),
              length-erase f s.alloc (ground (arith, i.on_alloc f)),
              i.nallocated,
            ),
            i.npinned,
          ))
  ]

  -- What pframe_get_resident returns: the frame of the page, if there is one; a page that is not pinned
  -- becomes the most recently requested one.
  abbrev pub Found : ℕ → ℕ → Pages → Option ℕ × Pages → Type 0
  Found o n s (none, s') = (s' ≡ s) × ((f : ℕ) → is_page o n (s.frames f) ≡ false)
  Found o n s (some f, s') =
      (is_page o n (s.frames f) ≡ true)
      × (s'
          ≡ (if is_pinned (s.frames f) then s else record s { alloc = erase f s.alloc ++ f ∷ [] }))

  pub moved-Reordered :
      (f : ℕ) (s s' : Pages)
      → s' ≡ (if is_pinned (s.frames f) then s else record s { alloc = erase f s.alloc ++ f ∷ [] })
      → Reordered s s'
  moved-Reordered f s s' e = elim (Bool-cases (is_pinned (s.frames f))) [
    | inl p ↦
        (ap (λ (t : Pages). t.frames) e ∙ rw p refl, ap (λ (t : Pages). t.objects) e ∙ rw p refl)
    | inr p ↦
        (ap (λ (t : Pages). t.frames) e ∙ rw p refl, ap (λ (t : Pages). t.objects) e ∙ rw p refl)
  ]

  pub Found-cases :
      (o n : ℕ) (s : Pages) (r : Option ℕ × Pages)
      → Found o n s r
      → ((f : ℕ) × (r.0 ≡ some f) × (is_page o n (s.frames f) ≡ true) × Reordered s r.1)
        ⊎ ((r.0 ≡ none) × Absent n s o × Reordered s r.1)
  Found-cases o n s (none, s') (e, no_frame) =
      inr (refl, no_frame, (ap (λ (t : Pages). t.frames) e, ap (λ (t : Pages). t.objects) e))
  Found-cases o n s (some f, s') (is, e) = inl (f, refl, is, moved-Reordered f s s' e)

  pub not_resident :
      (o n : ℕ) (s : Pages) (r : Option ℕ × Pages) → Absent n s o → Found o n s r → r ≡ (none, s)
  not_resident o n s (none, s') new (e, all) = ap (λ t. (none, t)) e
  not_resident o n s (some f, s') new (is, e) = ground (arith, new f, is)

  -- pframe_get_resident returns the frame of a page exactly if the page is resident, moves it to the
  -- tail of the allocated list unless it is pinned, and keeps the lists in step.
  pub get_resident-Found :
      (o n : ℕ) (s : Pages)
      → Inv bucket s
      → Found o n s (get_resident bucket o n s) × Inv bucket (get_resident bucket o n s).1
  unfolding get_resident
  get_resident-Found o n s i = elim (find_in-cases o n (s.hash (bucket o n)) s) [
    | inl (f, at, h, is) ↦
        rw at ((is, refl), used-Inv f s i (ground (arith, page_of o n (s.frames f) is)))
    | inr (at, misses) ↦ rw at (
      (
        refl,
        λ f. elim (Bool-cases (is_page o n (s.frames f))) [
          | inl e ↦
              clash (is_page o n (s.frames f)) e
                (misses f (i.hashed (bucket o n) f ∙ page-in_chain o n (s.frames f) e))
          | inr e ↦ e
        ],
      ),
      i,
    )
  ]
