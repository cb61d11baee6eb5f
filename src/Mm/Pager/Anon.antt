-- ===== src/Mm/Pager/Anon.antt =====
-- pframe_get of a page of an anonymous object.
use weenix_kernel.Base.{
  ℕ, ◌≡◌, refl, sym, ap, subst, ◌∙◌, true, false, Option, none, some, ◌==◌, ==_iff, Bool-cases, inl,
  inr, ◌⊎◌, if◌then◌else◌, arith, add32,
}
use weenix_kernel.Base.Outcome.{Ends-result, ok, Ends}
use weenix_kernel.Mm.Objects.{anon, file, Frame, Pages, update, is_some, is_page, Inv}
use weenix_kernel.Mm.Frames.{pin, get_resident, listed, add_resident, set_pincount, to_pinned}
use weenix_kernel.Mm.Frames.Pin.{quiet-Inv, pin-first, pin-Inv}
use weenix_kernel.Mm.Frames.Cache.{cached-Inv}
use weenix_kernel.Mm.Frames.Lookup.{Found, get_resident-Found, Absent, Reordered, moved-Reordered}
use weenix_kernel.Mm.Pager.Get.{alloc_by, filled_by}
use weenix_kernel.Mm.Pager.{
  Got, got, sleeps, filled, PagerEnv, positive, set_refcount, set_busy, set_content, counted_ref,
  anon_fillpage, ref, alloc, fill, got_filled, get_in, get,
}

-- A new page of zeros, pinned once.
abbrev pub zeros : ℕ → ℕ → Frame
zeros o n = record {
  obj = some o;
  pagenum = n;
  dirty = false;
  busy = false;
  pincount = 1;
  content = 0;
}

module _ (env : PagerEnv) where
  open env use {bucket}

  anon_fillpage-filled :
      (f : ℕ) (s t : Pages)
      → (s.frames f).busy ≡ true
      → (s.frames f).pincount ≡ 0
      → pin f (set_content f 0 s) ≡ ok t
      → anon_fillpage f s ≡ ok (filled, t)
  unfolding anon_fillpage
  anon_fillpage-filled f s t busy loose first = rw (first, busy, loose) refl

  -- anon_fillpage, called by pframe_fill.
  fill-Zeroed :
      (f o : ℕ) (s : Pages)
      → Inv bucket s
      → (s.frames f).obj ≡ some o
      → (s.frames f).dirty ≡ false
      → (s.frames f).pincount ≡ 0
      → Ends
          (λ (r, s').
            (r ≡ filled)
            × Inv bucket s'
            × ((u : ℕ) → s'.frames u ≡ update s.frames f (zeros o (s.frames f).pagenum) u))
          (fill env (λ p g. anon_fillpage g) f s)
  fill-Zeroed f o s i at clean loose =
      let self : (f == f) ≡ true = (==_iff f f).1 refl in
      let s1 = set_busy f true s in
      let s2 = set_content f 0 s1 in
      let s3 = set_pincount f 1 (to_pinned f s2) in
      let i1 : Inv bucket s1 = quiet-Inv bucket f _ s i refl refl refl in
      let i2 : Inv bucket s2 = quiet-Inv bucket f _ s1 i1 refl refl refl in
      let used : is_some (s2.frames f).obj ≡ true = rw self rw at refl in
      let unpinned : (s2.frames f).pincount ≡ 0 = rw self loose in
      let first : pin f s2 ≡ ok s3 = pin-first bucket f s2 used unpinned in
      let i3 : Inv bucket s3 = subst (Ends (Inv bucket)) first (pin-Inv bucket f s2 i2 used) in
      let i4 : Inv bucket (set_busy f false s3) = quiet-Inv bucket f _ s3 i3 refl refl refl in
      let done : anon_fillpage f s1 ≡ ok (filled, s3) =
        anon_fillpage-filled f s1 s3 (rw self refl) (rw self loose) first in
      subst (Ends _) (sym (filled_by env (λ p g. anon_fillpage g) f o s s3 at done))
        (refl, i4, λ u. ground (arith, ==_iff f u, at, clean, loose))

  -- pframe_alloc, for an anonymous object.
  abbrev allocated : ℕ → ℕ → ℕ → Pages → Pages
  allocated f o n s =
      add_resident f o (set_refcount o (add32 (s.objects o).refcount 1) (listed bucket f o n s))

  pub ref-counted :
      (o : ℕ) (s : Pages)
      → (s.objects o).kind ≡ anon
      → positive (s.objects o).refcount ≡ true
      → ref env o s ≡ ok (set_refcount o (add32 (s.objects o).refcount 1) s)
  unfolding ref counted_ref
  ref-counted o s kind counted =
      ap (λ kd. elim kd [ file ↦ env.file_ref o s | _ ↦ counted_ref o s ]) kind ∙ rw counted refl

  alloc-cached :
      (f o n : ℕ) (s : Pages)
      → env.slab s ≡ some f
      → (s.objects o).kind ≡ anon
      → positive (s.objects o).refcount ≡ true
      → alloc env o n s ≡ ok (some f, allocated f o n s)
  alloc-cached f o n s memory kind counted =
      alloc_by env f o n s (set_refcount o (add32 (s.objects o).refcount 1) (listed bucket f o n s))
        memory (ref-counted o (listed bucket f o n s) kind counted)

  -- What pframe_get returns, where `g` is the frame that the slab allocator gives next.
  abbrev pub Served : ℕ → ℕ → ℕ → Pages → Got × Pages → Type 0
  Served g o n s (r, s') =
      ((f : ℕ) × (is_page o n (s.frames f) ≡ true)
        × (r ≡ (if (s.frames f).busy then sleeps f else got f))
        × Reordered s s')
      ⊎ (Absent n s o × (r ≡ got g) × ((u : ℕ) → s'.frames u ≡ update s.frames g (zeros o n) u))

  got_by :
      (g o n k : ℕ) (s t w : Pages)
      → alloc env o n s ≡ ok (some g, t)
      → fill env (λ p f. anon_fillpage f) g t ≡ ok (filled, w)
      → (w.frames g).busy ≡ false
      → get_in env k (λ p f. anon_fillpage f) o n (none, s) ≡ ok (got g, w)
  unfolding get_in got_filled
  got_by g o n k s t w made done quiet = rw (made, done, quiet) refl

  overwritten :
      (fs : ℕ → Frame) (g o n c u : ℕ)
      → let x : Frame = record {
        obj = some o;
        pagenum = n;
        dirty = false;
        busy = false;
        pincount = 0;
        content = c;
      } in
        update (update fs g x) g (zeros o (update fs g x g).pagenum) u ≡ update fs g (zeros o n) u
  overwritten fs g o n c u = ground (arith, ==_iff g u, ==_iff g g)

  get_new :
      (g o n k : ℕ) (s : Pages)
      → Inv bucket s
      → Absent n s o
      → env.slab s ≡ some g
      → (s.frames g).obj ≡ none
      → (s.objects o).kind ≡ anon
      → positive (s.objects o).refcount ≡ true
      → Ends
          (λ r. Served g o n s r × Inv bucket r.1)
          (get_in env k (λ p f. anon_fillpage f) o n (none, s))
  get_new g o n k s i new memory free kind counted =
      let self : (g == g) ≡ true = (==_iff g g).1 refl in
      let s1 = allocated g o n s in
      let (w, ended, (is, j, frames)) = Ends-result _ (fill env (λ p f. anon_fillpage f) g s1) (
        fill-Zeroed g o s1 (cached-Inv bucket g o n (add32 (s.objects o).refcount 1) s i free new)
          (rw self refl) (rw self refl) (rw self refl)) in
      let done : fill env (λ p f. anon_fillpage f) g s1 ≡ ok (filled, w.1) =
        ended ∙ ap (λ r. ok (r, w.1)) is in
      subst (Ends _)
        (sym (
          got_by g o n k s s1 w.1 (alloc-cached g o n s memory kind counted) done
            (ap (λ (x : Frame). x.busy) (frames g) ∙ rw self refl)))
        (inr (new, refl, λ u. frames u ∙ overwritten s.frames g o n (s.frames g).content u), j)

  get_from :
      (g o n k : ℕ) (s : Pages)
      → Inv bucket s
      → env.slab s ≡ some g
      → (s.frames g).obj ≡ none
      → (s.objects o).kind ≡ anon
      → positive (s.objects o).refcount ≡ true
      → (r : Option ℕ × Pages) → Found bucket o n s r
      → Inv bucket r.1
      → Ends (λ w. Served g o n s w × Inv bucket w.1) (get_in env k (λ p f. anon_fillpage f) o n r)
  unfolding get_in
  get_from g o n k s i memory free kind counted (none, s') (e, new) j =
      subst
        (λ t.
          Ends (λ w. Served g o n s w × Inv bucket w.1)
            (get_in env k (λ p f. anon_fillpage f) o n (none, t)))
        (sym e) (get_new g o n k s i new memory free kind counted)
  get_from g o n k s i memory free kind counted (some f, s') (is, e) j =
      let same = moved-Reordered bucket f s s' e in
      let quiet : (s'.frames f).busy ≡ (s.frames f).busy =
        ap (λ (fs : ℕ → Frame). (fs f).busy) same.0 in
      rw quiet (elim (Bool-cases (s.frames f).busy) [
        | inl b ↦ rw b (inl (f, is, rw b refl, same), j)
        | inr b ↦ rw b (inl (f, is, rw b refl, same), j)
      ])

  -- pframe_get of a page of an anonymous object that is referred to does not panic, where the slab
  -- allocator gives a frame that is free. A resident page is returned, or slept on if it is busy. For
  -- another page it returns the free frame, which holds zeros and is pinned once, and changes no
  -- other frame. Lists and counts stay in step.
  pub get-Served :
      (g o n k : ℕ) (s : Pages)
      → Inv bucket s
      → env.slab s ≡ some g
      → (s.frames g).obj ≡ none
      → (s.objects o).kind ≡ anon
      → positive (s.objects o).refcount ≡ true
      → Ends (λ r. Served g o n s r × Inv bucket r.1) (get env k (λ p f. anon_fillpage f) o n s)
  unfolding get
  get-Served g o n k s i memory free kind counted =
      let (found, j) = get_resident-Found bucket o n s i in
      get_from g o n k s i memory free kind counted (get_resident bucket o n s) found j
