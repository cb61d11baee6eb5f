-- ===== src/Mm/Writeback/Sweep.antt =====
-- pframe_clean_all ends where pages can be written back, and does not where one cannot.
use weenix_kernel.Base.{
  ℕ, zero, suc, ◌<◌, ◌≡◌, refl, sym, ap, subst, ◌∙◌, true, false, Option, none, some, List, [], ◌∷◌,
  ◌==◌, ==_iff, Bool-cases, inl, inr, ◌⊎◌, if◌then◌else◌, arith, has,
}
use weenix_kernel.Base.Outcome.{Outcome, ok, ◌>>=◌, ◌>>◌, kassert, deref, Ends, Ends-mono}
use weenix_kernel.Mm.Objects.{ObjectKind, anon, shadow, file, Frame, Pages, update, is_some, Inv}
use weenix_kernel.Mm.Frames.Pin.{quiet-Inv}
use weenix_kernel.Mm.Pager.{Filled, filled, unfilled, set_busy}
use weenix_kernel.Mm.Writeback.Dirty.{dirty_pages, fewer}
use weenix_kernel.Mm.Writeback.{
  set_dirty, swept, running, Visit, passed, at_dirty, scan, cleanpage, clean, clean_ended,
  clean_all,
}

-- A frame after its page was written back.
abbrev pub cleaned : List ℕ → (ℕ → Frame) → ℕ → Frame
cleaned l fs u = if has u l then record (fs u) { dirty = false } else fs u

-- Nothing on the list is pinned, free or busy.
abbrev pub Quiet : Pages → Type 0
Quiet s =
    (f : ℕ)
    → has f s.alloc ≡ true
    → (is_some (s.frames f).obj ≡ true) × ((s.frames f).pincount ≡ 0) × ((s.frames f).busy ≡ false)

module _ (bucket : ℕ → ℕ → ℕ) where
  pub alloc-Quiet : (s : Pages) → Inv bucket s → ((f : ℕ) → (s.frames f).busy ≡ false) → Quiet s
  alloc-Quiet s i idle f h =
      (ground (arith, i.on_alloc f, h), ground (arith, i.on_alloc f, h), idle f)

ended : {a b k : ℕ} → a < b → b < suc k → a < k
ended h l = omega arith

not_met : (f : ℕ) → ◌≡◌ {A = Outcome Visit} (ok passed) (ok (at_dirty f)) → ⊥
not_met f e = cc

same_page : (g f : ℕ) → ◌≡◌ {A = Outcome Visit} (ok (at_dirty g)) (ok (at_dirty f)) → g ≡ f
same_page g f e = cc

scan-cases :
    (l : List ℕ) (s : Pages)
    → ((f : ℕ)
        → has f l ≡ true
        → (is_some (s.frames f).obj ≡ true)
          × ((s.frames f).pincount ≡ 0)
          × ((s.frames f).busy ≡ false))
    → ((scan l s ≡ ok passed) × ((f : ℕ) → has f l ≡ true → (s.frames f).dirty ≡ false))
      ⊎ ((f : ℕ) × (scan l s ≡ ok (at_dirty f)) × (has f l ≡ true) × ((s.frames f).dirty ≡ true))
unfolding scan
scan-cases [] s q = inl (refl, λ f h. cc)
scan-cases (f ∷ r) s q =
    let self : (f == f) ≡ true = (==_iff f f).1 refl in
    let (used, loose, idle) = q f (rw self refl) in
    elim (Bool-cases (s.frames f).dirty) [
      | inl e ↦ inr (f, rw (used, loose, idle, e) refl, rw self refl, e)
      | inr e ↦ elim (scan-cases r s (λ g h. q g (ground (arith, h)))) [
        | inl (at, clean) ↦ inl (
          rw (used, loose, idle, e) at,
          λ g h. ground (arith, h, clean g, e, (==_iff f g).0, ap (λ v. (s.frames v).dirty)),
        )
        | inr (g, at, h, d) ↦ inr (g, rw (used, loose, idle, e) at, ground (arith, h), d)
      ]
    ]

met :
    (s : Pages) (f : ℕ)
    → Quiet s
    → scan s.alloc s ≡ ok (at_dirty f)
    → (has f s.alloc ≡ true) × ((s.frames f).dirty ≡ true)
met s f q at = elim (scan-cases s.alloc s q) [
  | inl (end, clean) ↦ absurd (not_met f (sym end ∙ at))
  | inr (g, end, h, d) ↦
      subst (λ v. (has v s.alloc ≡ true) × ((s.frames v).dirty ≡ true))
        (same_page g f (sym end ∙ at)) (h, d)
]

-- The frames of a state, given point by point.
same_frames :
    (s : Pages) (fs gs : ℕ → Frame)
    → ((u : ℕ) → fs u ≡ gs u)
    → ◌≡◌ {A = Pages} (record s { frames = fs }) (record s { frames = gs })
same_frames s fs gs e = λ i. record s { frames = λ u. e u i }

some_of : (x : Option ℕ) → is_some x ≡ true → (o : ℕ) × (x ≡ some o)
some_of none h = cc
some_of (some o) h = (o, refl)

pub owned :
    (f : ℕ) (s : Pages) → is_some (s.frames f).obj ≡ true → (o : ℕ) × ((s.frames f).obj ≡ some o)
owned f s used = some_of (s.frames f).obj used

-- Dirty pages that are allocated and not pinned are pages of files.
abbrev pub DirtyOfFiles : Pages → Type 0
DirtyOfFiles s =
    (f o : ℕ)
    → has f s.alloc ≡ true
    → (s.frames f).dirty ≡ true
    → (s.frames f).obj ≡ some o
    → (s.objects o).kind ≡ file

still_of_files : (f : ℕ) (s : Pages) → DirtyOfFiles s → DirtyOfFiles (set_dirty f false s)
still_of_files f s own u o h e at =
    own u o h
      (elim (Bool-cases (f == u)) [ inl q ↦ ground (arith, q, e) | inr q ↦ ground (arith, q, e) ])
      (elim (Bool-cases (f == u)) [ inl q ↦ ground (arith, q, e) | inr q ↦ ground (arith, q, at) ])

-- The pages of files can be written back.
abbrev pub WritesFiles : (ℕ → ℕ → Pages → Outcome (Filled × Pages)) → Type 0
WritesFiles file_cleanpage =
    (o f : ℕ) (t : Pages) → (t.objects o).kind ≡ file → file_cleanpage o f t ≡ ok (filled, t)

-- Where the operation of files does not write a page back, none does.
refuses :
    (kind : ObjectKind) (s : Pages) (m : Outcome (Filled × Pages))
    → m ≡ ok (unfilled, s)
    → ◌≡◌ {A = Outcome (Filled × Pages)}
        (elim kind [ file ↦ m | anon ↦ ok (unfilled, s) | shadow ↦ ok (unfilled, s) ])
        (ok (unfilled, s))
refuses file s m e = e
refuses anon s m e = refl
refuses shadow s m e = refl

module _ (file_cleanpage : ℕ → ℕ → Pages → Outcome (Filled × Pages)) where
  clean_with :
      (r : Filled) (f o : ℕ) (s : Pages)
      → let t = set_busy f true (set_dirty f false s) in
        cleanpage file_cleanpage o f t ≡ ok (r, t)
        → (s.frames f).obj ≡ some o
        → (s.frames f).dirty ≡ true
        → (s.frames f).pincount ≡ 0
        → clean file_cleanpage f s ≡ ok (clean_ended f (r, set_busy f true (set_dirty f false s)))
  unfolding clean
  clean_with r f o s writes at d loose =
      let t = set_busy f true (set_dirty f false s) in
      let ended = λ (p : ℕ). cleanpage file_cleanpage p f t >>= λ done. ok (clean_ended f done) in
      ap
        (λ c.
          kassert c >> (kassert ((s.frames f).pincount == 0) >> (deref (s.frames f).obj >>= ended)))
        d
      ∙ ap (λ n. kassert (n == 0) >> (deref (s.frames f).obj >>= ended)) loose
      ∙ ap (λ x. deref x >>= ended) at
      ∙ ap (λ m. m >>= λ done. ok (clean_ended f done)) writes

  pub clean-written :
      (f : ℕ) (s : Pages)
      → WritesFiles file_cleanpage
      → ((o : ℕ) → (s.frames f).obj ≡ some o → (s.objects o).kind ≡ file)
      → is_some (s.frames f).obj ≡ true
      → (s.frames f).dirty ≡ true
      → (s.frames f).pincount ≡ 0
      → (s.frames f).busy ≡ false
      → clean file_cleanpage f s ≡ ok (filled, set_dirty f false s)
  clean-written f s writes of_file used d loose idle =
      let (o, at) = owned f s used in
      let t = set_busy f true (set_dirty f false s) in
      let kind = of_file o at in
      let written : cleanpage file_cleanpage o f t ≡ ok (filled, t) =
        ap
          (λ k. elim k [
            | file ↦ file_cleanpage o f t
            | anon ↦ ok (unfilled, t)
            | shadow ↦ ok (unfilled, t)
          ])
          kind
        ∙ writes o f t kind in
      clean_with filled f o s written at d loose
      ∙ ap (λ t. ok (filled, t))
          (same_frames s _ (update s.frames f (record (s.frames f) { dirty = false }))
            (λ u. ground (arith, ==_iff f u, idle)))

  clean-kept :
      (f : ℕ) (s : Pages)
      → ((o : ℕ) (t : Pages) → file_cleanpage o f t ≡ ok (unfilled, t))
      → is_some (s.frames f).obj ≡ true
      → (s.frames f).dirty ≡ true
      → (s.frames f).pincount ≡ 0
      → (s.frames f).busy ≡ false
      → clean file_cleanpage f s ≡ ok (unfilled, s)
  clean-kept f s fails used d loose idle =
      let (o, at) = owned f s used in
      let t = set_busy f true (set_dirty f false s) in
      clean_with unfilled f o s (refuses (s.objects o).kind t (file_cleanpage o f t) (fails o t)) at
        d loose
      ∙ ap (λ t. ok (unfilled, t))
          (same_frames s _ s.frames (λ u. ground (arith, ==_iff f u, idle, d)))

  -- Where no page is busy, the dirty pages that are allocated and not pinned are pages of files, and
  -- those can be written back, pframe_clean_all ends after a round for each dirty page and one more: it has written back every dirty page that is allocated and not
  -- pinned, changed no other frame, and kept lists and counts in step.
  pub clean_all-Cleaned :
      (bucket : ℕ → ℕ → ℕ) (k : ℕ) (s : Pages)
      → WritesFiles file_cleanpage
      → DirtyOfFiles s
      → Inv bucket s
      → ((f : ℕ) → (s.frames f).busy ≡ false)
      → dirty_pages s.alloc s.frames < k
      → Ends
          (λ r.
            (r.0 ≡ swept)
            × Inv bucket r.1
            × (r.1.alloc ≡ s.alloc)
            × ((u : ℕ) → r.1.frames u ≡ cleaned s.alloc s.frames u))
          (clean_all file_cleanpage k s)
  unfolding clean_all
  clean_all-Cleaned bucket zero s writes own i idle h = absurd (omega arith)
  clean_all-Cleaned bucket (suc k) s writes own i idle h =
      let q = alloc-Quiet bucket s i idle in
      elim (scan-cases s.alloc s q) [
        | inl (at, clean) ↦ rw at (refl, i, refl, λ u. ground (arith, clean u))
        | inr (f, at, listed, d) ↦
            let (used, loose, rests) = q f listed in
            let t = set_dirty f false s in
            rw (at, clean-written f s writes (λ o. own f o listed d) used d loose rests)
              (Ends-mono _ _ (clean_all file_cleanpage k t)
                (λ r (a, b, c, e). (a, b, c, λ u. e u ∙ ground (arith, ==_iff f u, listed)))
                (clean_all-Cleaned bucket k t writes (still_of_files f s own)
                  (quiet-Inv bucket f _ s i refl refl refl) (λ u. ground (arith, idle u, idle f))
                  (ended
                    (fewer s.alloc f s.frames (record (s.frames f) { dirty = false }) refl listed d)
                    h)))
      ]

  -- Where no page is busy and the first dirty page cannot be written back, pframe_clean_all is still
  -- running after any number of rounds, and has changed nothing.
  pub clean_all-running :
      (bucket : ℕ → ℕ → ℕ) (k f : ℕ) (s : Pages)
      → ((o : ℕ) (t : Pages) → file_cleanpage o f t ≡ ok (unfilled, t))
      → Inv bucket s
      → ((u : ℕ) → (s.frames u).busy ≡ false)
      → scan s.alloc s ≡ ok (at_dirty f)
      → clean_all file_cleanpage k s ≡ ok (running, s)
  unfolding clean_all
  clean_all-running bucket zero f s fails i idle at = refl
  clean_all-running bucket (suc k) f s fails i idle at =
      let (listed, d) = met s f (alloc-Quiet bucket s i idle) at in
      let (used, loose, rests) = alloc-Quiet bucket s i idle f listed in
      rw (at, clean-kept f s fails used d loose rests)
        (clean_all-running bucket k f s fails i idle at)
