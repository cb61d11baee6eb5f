-- ===== src/Mm/Writeback/Pageout.antt =====
-- pageoutd_run.
use weenix_kernel.Base.{
  ℕ, zero, suc, ◌<◌, ◌+◌, ◌≡◌, refl, sym, ap, subst, ◌∙◌, Bool, true, false, none, List, [], ◌∷◌,
  ◌==◌, ==_iff, Bool-cases, inl, inr, ◌⊎◌, length, arith, has, erase, has-erase, length-erase, ◌^◌,
  some,
}
use weenix_kernel.Base.Outcome.{Outcome, ok, Ends}
use weenix_kernel.Mm.Objects.{file, Frame, Pages, update, Inv}
use weenix_kernel.Mm.Frames.{uncached}
use weenix_kernel.Mm.Frames.Pin.{quiet-Inv}
use weenix_kernel.Mm.Frames.Cache.{uncached-Inv}
use weenix_kernel.Mm.Pager.{Filled, PagerEnv, drop_ref, put, free}
use weenix_kernel.Mm.Pager.Put.{freed_one, put-file, refcount-Inv}
use weenix_kernel.Mm.Writeback.{set_dirty, swept, pageout}
use weenix_kernel.Mm.Writeback.Dirty.{dirty_pages, fewer, shorter}
use weenix_kernel.Mm.Writeback.Sweep.{alloc-Quiet, clean-written, owned, WritesFiles}

list_cases : (l : List ℕ) → (l ≡ []) ⊎ ((f : ℕ) × (r : List ℕ) × (l ≡ f ∷ r))
list_cases [] = inl refl
list_cases (f ∷ r) = inr (f, r, refl)

ended : {a b k : ℕ} → a < b → b < suc k → a < k
ended h l = omega arith

ended_with : {a b k : ℕ} (n : ℕ) → a < b → n + b < suc k → n + a < k
ended_with n h l = omega arith

-- Pages that are allocated and not pinned are pages of files, and each file has a reference besides
-- those of its pages.
abbrev pub OfFiles : Pages → Type 0
OfFiles s = (f o : ℕ) → has f s.alloc ≡ true → (s.frames f).obj ≡ some o → (s.objects o).kind ≡ file

abbrev pub UsedFiles : Pages → Type 0
UsedFiles s =
    (o : ℕ)
    → (s.objects o).kind ≡ file
    → (length (s.objects o).respages < (s.objects o).refcount) × ((s.objects o).refcount < 2 ^ 32)

-- The put of a file that is still used drops a reference.
abbrev pub DropsFiles : (ℕ → Pages → Outcome Pages) → Type 0
DropsFiles file_put =
    (o : ℕ) (t : Pages)
    → (t.objects o).kind ≡ file
    → (t.objects o).nrespages + 1 < (t.objects o).refcount
    → file_put o t ≡ ok (drop_ref o t)

module _ (env : PagerEnv) (depth : ℕ)
    (file_cleanpage : ℕ → ℕ → Pages → Outcome (Filled × Pages)) where
  open env use {bucket}

  -- How many rounds are left, at most.
  abbrev work : Pages → ℕ
  work s = length s.alloc + dirty_pages s.alloc s.frames

  -- pageoutd_run takes back a page that is clean.
  reclaimed :
      (f : ℕ) (r : List ℕ) (s : Pages)
      → DropsFiles env.file_put
      → OfFiles s
      → UsedFiles s
      → Inv bucket s
      → ((u : ℕ) → (s.frames u).busy ≡ false)
      → s.alloc ≡ f ∷ r
      → (s.frames f).dirty ≡ false
      → (t : Pages) × (free env (put env (suc depth)) f s ≡ ok t)
        × OfFiles t
        × UsedFiles t
        × Inv bucket t
        × ((u : ℕ) → (t.frames u).busy ≡ false)
        × (work t < work s)
  reclaimed f r s puts of_file users i idle head c =
      let self : (f == f) ≡ true = (==_iff f f).1 refl in
      let listed : has f s.alloc ≡ true = rw head rw self refl in
      let (used, loose, rests) = alloc-Quiet bucket s i idle f listed in
      let (o, at) = owned f s used in
      let gone : Frame = record (s.frames f) { obj = none } in
      let s1 = uncached bucket f o s in
      let own : (o == o) ≡ true = (==_iff o o).1 refl in
      let kind : (s.objects o).kind ≡ file = of_file f o listed at in
      let inside : has f (s.objects o).respages ≡ true = i.resident o f ∙ rw at own in
      let shrunk = length-erase f (s.objects o).respages inside in
      let user = users o kind in
      let kept : (p : ℕ) → ((drop_ref o s1).objects p).kind ≡ (s.objects p).kind =
        λ p. ground (arith, ==_iff o p, own, ap (λ v. (s.objects v).kind)) in
      let kind1 : (s1.objects o).kind ≡ file = rw own kind in
      let left_users : (s1.objects o).nrespages + 1 < (s1.objects o).refcount =
        rw own (omega (arith, i.nrespages o, shrunk, user.0, user.1)) in
      let dropped : put env (suc depth) o s1 ≡ ok (drop_ref o s1) =
        put-file env depth o s1 kind1 ∙ puts o s1 kind1 left_users in
      let left : s1.alloc ≡ r = ap (erase f) head ∙ rw self refl in
      (
        drop_ref o s1,
        freed_one env (put env (suc depth)) f o s (drop_ref o s1) at loose rests dropped,
        (λ u p h a.
            kept p
            ∙ of_file u p (ground (arith, h, has-erase f u s.alloc i.alloc_once))
                (ground (arith, a, ==_iff f u))),
        (λ p k.
            let others = users p (sym (kept p) ∙ k) in
            elim (Bool-cases (o == p)) [
              | inl q ↦ rw q rw own (omega (arith, shrunk, user.0, user.1))
              | inr q ↦ rw q others
            ]),
        refcount-Inv env o _ s1 (uncached-Inv bucket f o s i at (rw loose refl)),
        (λ u. ground (arith, idle u, idle f)),
        subst (λ l. length l + dirty_pages l (update s.frames f gone) < work s) (sym left)
            (subst
              (λ l.
                length r + dirty_pages r (update s.frames f gone)
                < length l + dirty_pages l s.frames)
              (sym head) (shorter f r s.frames gone c c)),
      )

  -- Where no page is busy, the pages that are allocated and not pinned are pages of files, which can be
  -- written back, and each file is used besides and its put then only drops a reference, the loop of
  -- pageoutd_run ends after at most a round for each allocated page and one more for each dirty one: its
  -- target is met, or no page is left that is not pinned. Lists and counts stay in step.
  pub pageout-swept :
      (met : Pages → Bool) (k : ℕ) (s : Pages)
      → DropsFiles env.file_put
      → WritesFiles file_cleanpage
      → OfFiles s
      → UsedFiles s
      → Inv bucket s
      → ((f : ℕ) → (s.frames f).busy ≡ false)
      → length s.alloc + dirty_pages s.alloc s.frames < k
      → Ends
          (λ r. (r.0 ≡ swept) × Inv bucket r.1 × ((met r.1 ≡ true) ⊎ (r.1.alloc ≡ [])))
          (pageout env (suc depth) file_cleanpage met k s)
  unfolding pageout
  pageout-swept met zero s puts writes of_file users i idle h = absurd (omega arith)
  pageout-swept met (suc k) s puts writes of_file users i idle h = elim (Bool-cases (met s)) [
    | inl e ↦ rw e (refl, i, inl e)
    | inr e ↦ elim (list_cases s.alloc) [
      | inl none_left ↦ rw (e, none_left) (refl, i, inr none_left)
      | inr (f, r, head) ↦
          let self : (f == f) ≡ true = (==_iff f f).1 refl in
          let listed : has f s.alloc ≡ true = rw head rw self refl in
          let (used, loose, rests) = alloc-Quiet bucket s i idle f listed in
          elim (Bool-cases (s.frames f).dirty) [
            | inl d ↦
                let t = set_dirty f false s in
                let less =
                  fewer s.alloc f s.frames (record (s.frames f) { dirty = false }) refl listed d in
                rw
                  (
                    e,
                    head,
                    rests,
                    d,
                    clean-written file_cleanpage f s writes (λ o. of_file f o listed) used d loose
                        rests,
                  )
                  (pageout-swept met k t puts writes
                    (λ u o h a.
                      of_file u o h (ground (arith, a, ==_iff f u, ap (λ v. (s.frames v).obj))))
                    users (quiet-Inv bucket f _ s i refl refl refl)
                    (λ u. ground (arith, idle u, idle f)) (ended_with (length s.alloc) less h))
            | inr d ↦
                let (t, freed, of_files, used_t, j, idles, less) =
                  reclaimed f r s puts of_file users i idle head d in
                rw (e, head, rests, d, freed)
                  (pageout-swept met k t puts writes of_files used_t j idles (ended less h))
          ]
    ]
  ]
