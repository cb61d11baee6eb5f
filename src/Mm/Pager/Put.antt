-- ===== src/Mm/Pager/Put.antt =====
-- anon_put, when it gives up the last reference that is not a page's.
use weenix_kernel.Base.{
  ℕ, suc, ◌+◌, ◌^◌, ◌<◌, ◌≡◌, refl, sym, ap, subst, ◌∙◌, true, false, not, none, some, List, [],
  ◌∷◌, ◌==◌, ==_iff, if◌then◌else◌, length, arith, has, erase,
}
use weenix_kernel.Base.Outcome.{Outcome, ok, panic, ◌>>=◌, ◌>>◌, kassert, deref, Ends, Ends-mono}
use weenix_kernel.Mm.Objects.{anon, shadow, file, Frame, Pages, is_some, is_it, Inv}
use weenix_kernel.Mm.Frames.{unpin, set_pincount, to_alloc, uncached}
use weenix_kernel.Mm.Frames.Pin.{unpin-Inv}
use weenix_kernel.Mm.Frames.Cache.{uncached-Inv}
use weenix_kernel.Mm.Pager.{
  PagerEnv, positive, set_refcount, drop_ref, last_user, free, free_all, put, anon_put, shadow_put,
}

-- A frame after its object is gone.
abbrev pub released : ℕ → Frame → Frame
released o x = if is_it o x.obj then record x { obj = none; pincount = 0 } else x

-- Every page of the object is pinned once, and not busy.
abbrev pub PinnedOnce : ℕ → Pages → Type 0
PinnedOnce o s =
    (u : ℕ)
    → is_it o (s.frames u).obj ≡ true
    → ((s.frames u).pincount ≡ 1) × ((s.frames u).busy ≡ false)

Ends-after :
    {A B C : Type 0} (P : C → Type 0) (m : Outcome A) (k : A → Outcome B) (g : B → Outcome C)
    (b : B)
    → (m >>= k) ≡ ok b
    → Ends P (g b)
    → Ends P (m >>= λ a. k a >>= g)
Ends-after P (ok a) k g b e h = subst (λ x. Ends P (x >>= g)) (sym e) h
Ends-after P panic k g b e h = ground (arith, e)

module _ (env : PagerEnv) where
  open env use {bucket}

  pub refcount-Inv : (o n : ℕ) (s : Pages) → Inv bucket s → Inv bucket (set_refcount o n s)
  refcount-Inv o n s i = record {
    on_alloc = i.on_alloc;
    on_pinned = i.on_pinned;
    hashed = i.hashed;
    resident = λ p u. ground (arith, i.resident p u, ==_iff o p);
    alloc_once = i.alloc_once;
    pinned_once = i.pinned_once;
    hash_once = i.hash_once;
    resident_once = λ p. ground (arith, i.resident_once p, ==_iff o p);
    nallocated = i.nallocated;
    npinned = i.npinned;
    nrespages = λ p. ground (arith, i.nrespages p, ==_iff o p);
    unique = i.unique;
  }

  unpin-last :
      (f : ℕ) (s : Pages)
      → is_some (s.frames f).obj ≡ true
      → (s.frames f).pincount ≡ 1
      → unpin f s ≡ ok (to_alloc f (set_pincount f 0 s))
  unfolding unpin
  unpin-last f s used one = rw (used, one) refl

  put-anon :
      (k o : ℕ) (s : Pages)
      → (s.objects o).kind ≡ anon
      → put env (suc k) o s ≡ anon_put env (put env k) o s
  unfolding put
  put-anon k o s kind =
      ap
        (λ kd. elim kd [
          | file ↦ env.file_put o s
          | anon ↦ anon_put env (put env k) o s
          | shadow ↦ shadow_put env (put env k) o s
        ])
        kind

  pub put-file :
      (k o : ℕ) (s : Pages) → (s.objects o).kind ≡ file → put env (suc k) o s ≡ env.file_put o s
  unfolding put
  put-file k o s kind =
      ap
        (λ x. elim x [
          | file ↦ env.file_put o s
          | anon ↦ anon_put env (put env k) o s
          | shadow ↦ shadow_put env (put env k) o s
        ])
        kind

  -- A put that leaves references.
  put-drop_ref :
      (k o : ℕ) (s : Pages)
      → (s.objects o).kind ≡ anon
      → positive (s.objects o).refcount ≡ true
      → last_user (s.objects o) ≡ false
      → put env (suc k) o s ≡ ok (drop_ref o s)
  put-drop_ref k o s kind counted users = put-anon k o s kind ∙ rw (users, counted) refl

  pub freed_one :
      (put : ℕ → Pages → Outcome Pages) (f o : ℕ) (s t : Pages)
      → (s.frames f).obj ≡ some o
      → (s.frames f).pincount ≡ 0
      → (s.frames f).busy ≡ false
      → put o (uncached bucket f o s) ≡ ok t
      → free env put f s ≡ ok t
  unfolding free
  freed_one put f o s t at loose quiet done =
      let ended = λ (p : ℕ). kassert (not (s.frames f).busy) >> put p (uncached bucket f p s) in
      ap (λ c. kassert (not (not (c == 0))) >> (deref (s.frames f).obj >>= ended)) loose
      ∙ ap (λ x. deref x >>= ended) at
      ∙ ap (λ c. kassert (not c) >> put o (uncached bucket f o s)) quiet
      ∙ done

  -- The states of the loop: the references are the pages' and one more.
  abbrev Users : ℕ → ℕ → Pages → Type 0
  Users o n s =
      ((s.objects o).kind ≡ anon)
      × (length (s.objects o).respages ≡ n)
      × ((s.objects o).refcount ≡ n + 1)
      × PinnedOnce o s

  -- One round of the loop of anon_put.
  round :
      (k f o : ℕ) (r : List ℕ) (s : Pages)
      → Inv bucket s
      → (s.objects o).respages ≡ f ∷ r
      → Users o (suc (length r)) s
      → suc (suc (length r)) < 2 ^ 31
      → (t : Pages) × ((unpin f s >>= free env (put env (suc k)) f) ≡ ok t)
        × Inv bucket t
        × Users o (length r) t
        × ((t.objects o).respages ≡ r)
        × ((u : ℕ)
            → t.frames u
              ≡ (if f == u then record (s.frames f) { obj = none; pincount = 0 } else s.frames u))
  round k f o r s i pages (kind, len, refs, pinned) small =
      let self : (f == f) ≡ true = (==_iff f f).1 refl in
      let own : (o == o) ≡ true = (==_iff o o).1 refl in
      let its : is_it o (s.frames f).obj ≡ true =
        sym (i.resident o f) ∙ ap (has f) pages ∙ rw self refl in
      let at : (s.frames f).obj ≡ some o = ground (arith, its) in
      let (one, quiet) = pinned f its in
      let used : is_some (s.frames f).obj ≡ true = rw at refl in
      let s1 = to_alloc f (set_pincount f 0 s) in
      let dropped : unpin f s ≡ ok s1 = unpin-last f s used one in
      let i1 : Inv bucket s1 =
        subst (Ends (Inv bucket)) dropped (unpin-Inv bucket f s i used (rw one refl)) in
      let s2 = uncached bucket f o s1 in
      let i2 : Inv bucket s2 = uncached-Inv bucket f o s1 i1 (rw self at) (rw self refl) in
      let left : (s2.objects o).respages ≡ r = rw own (ap (erase f) pages ∙ rw self refl) in
      let count : (s2.objects o).refcount ≡ length r + 2 = rw own (refs ∙ omega arith) in
      let t = drop_ref o s2 in
      let done : put env (suc k) o s2 ≡ ok t =
        put-drop_ref k o s2 (rw own kind) (ground (arith, count))
          (ground (arith, count, i2.nrespages o, left)) in
      (
        t,
        rw dropped
            (freed_one (put env (suc k)) f o s1 t (rw self at) (rw self refl) (rw self quiet) done),
        refcount-Inv o _ s2 i2,
        (
          rw own kind,
          rw own (ap length (ap (erase f) pages ∙ rw self refl)),
          ground (arith, count, own),
          λ u h. ground (arith, pinned u, ==_iff f u, h),
        ),
        rw own (ap (erase f) pages ∙ rw self refl),
        λ u. ground (arith, ==_iff f u, self),
      )

  anon_freed :
      (k o : ℕ) (l : List ℕ) (s : Pages)
      → Inv bucket s
      → (s.objects o).respages ≡ l
      → Users o (length l) s
      → suc (length l) < 2 ^ 31
      → Ends
          (λ t. Inv bucket t × ((u : ℕ) → t.frames u ≡ released o (s.frames u)))
          (free_all env (put env (suc k)) l s)
  unfolding free_all
  anon_freed k o [] s i none_left users small = (
    i,
    λ u.
        let other : is_it o (s.frames u).obj ≡ false =
          sym (i.resident o u) ∙ ap (has u) none_left in
        rw other refl,
  )
  anon_freed k o (f ∷ r) s i pages users small =
      let (t, done, i1, users1, left, frames) = round k f o r s i pages users small in
      let self : (f == f) ≡ true = (==_iff f f).1 refl in
      let its : is_it o (s.frames f).obj ≡ true =
        sym (i.resident o f) ∙ ap (has f) pages ∙ rw self refl in
      Ends-after _ (unpin f s) (free env (put env (suc k)) f) (free_all env (put env (suc k)) r) t
        done
        (Ends-mono _ _ (free_all env (put env (suc k)) r t)
          (λ w (j, all).
            (j, λ u. all u ∙ ap (released o) (frames u) ∙ ground (arith, ==_iff f u, its)))
          (anon_freed k o r t i1 left users1 (omega arith)))

  -- anon_put with no reference besides the pages' but the one that it gives up, and with every page
  -- pinned once and not busy, does not panic: it frees every page of the object and no other, and keeps
  -- lists and counts in step.
  pub put-released :
      (k o : ℕ) (s : Pages)
      → Inv bucket s
      → (s.objects o).kind ≡ anon
      → (s.objects o).refcount ≡ length (s.objects o).respages + 1
      → suc (length (s.objects o).respages) < 2 ^ 31
      → PinnedOnce o s
      → Ends
          (λ t. Inv bucket t × ((u : ℕ) → t.frames u ≡ released o (s.frames u)))
          (put env (suc (suc k)) o s)
  put-released k o s i kind refs small pinned =
      let goal = λ (m : Outcome Pages).
        Ends (λ t. Inv bucket t × ((u : ℕ) → t.frames u ≡ released o (s.frames u))) m in
      let users : last_user (s.objects o) ≡ true = ground (arith, refs, i.nrespages o, small) in
      let counted : positive (s.objects o).refcount ≡ true = ground (arith, refs, small) in
      subst goal (sym (put-anon (suc k) o s kind)) (
        rw (users, counted)
          (anon_freed k o (s.objects o).respages s i refl (kind, refl, refs, pinned) small))
