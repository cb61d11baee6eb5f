-- ===== src/Fs/Descriptors/Dup.antt =====
-- do_dup and do_dup2: what becomes of the descriptors and of the references.
use weenix_kernel.Base.{
  ℕ, ◌+◌, ◌≡◌, ◌≢◌, ◌<◌, ◌≤◌, ◌⊎◌, inl, inr, refl, true, false, ◌&&◌, Option, none, some, ltb,
  if◌then◌else◌, arith, Bool-cases, Option-cases, ◌==◌, ==_iff, clash, ap, ◌∙◌, lt→ltb,
}
use weenix_kernel.Base.Int.{ℤ, pos, negsuc}
use weenix_kernel.Base.Outcome.{Ends, Ends-mono, panic}
use weenix_kernel.Fs.Layer.{File, Fs, Ret, ret, err, ebadf, update, bump, FileLayer, Leaves}
use weenix_kernel.Fs.Calls.{no_mode}
use weenix_kernel.Fs.Calls.Held.{fput-bumped, file-bumped}
use weenix_kernel.Fs.Descriptors.{in_use, do_dup, dup_file, do_dup2, dup2_file, set_fd, store_empty}
use weenix_kernel.Fs.Descriptors.Count.{FdInv, recount, points}
use weenix_kernel.Fs.Descriptors.Free.{get_empty_fd-Least}
use weenix_kernel.Fs.Descriptors.Close.{FdInv-Counted}

module _ (nfiles : ℕ) (l : FileLayer) (outside : ℕ → ℕ) (s : Fs) (f : ℕ) where
  open l use {fget, fput}

  -- The descriptor `e` now also points to `f`.
  abbrev pub Points : ℕ → Fs → Type 0
  Points e s' =
      ((d : ℕ) → s'.fds d ≡ update s.fds e (some f) d)
      × ((u : ℕ)
          → s'.files u
            ≡ update s.files f (record (s.files f) { refcount = (s.files f).refcount + 1 }) u)
      × FdInv nfiles outside s'

  store-Points :
      (e : ℕ)
      → e < nfiles
      → s.fds e ≡ none
      → FdInv nfiles outside s
      → Points e (set_fd e (some f) (bump f s))
  store-Points e lt free i = (
    (λ d. refl),
    (λ u. refl),
    recount nfiles outside s (set_fd e (some f) (bump f s)) e (some f) lt i (λ d. refl)
        λ g.
          let p = ap (λ o. points o g) free in
          ground (arith, (==_iff f g).0, ap (λ u. (s.files u).refcount)),
  )

  bumped_mode : (b : _) → no_mode (s.files f).mode ≡ b → no_mode ((bump f s).files f).mode ≡ b
  bumped_mode b e = ap (λ (x : File). no_mode x.mode) (file-bumped l s 0 f) ∙ e

  abbrev pub Duped : Ret × Fs → Type 0
  Duped (r, s') =
      ((no_mode (s.files f).mode ≡ true)
        × (r ≡ err ebadf)
        × Leaves f (s.files f).position s.vnodes s s')
      ⊎ ((no_mode (s.files f).mode ≡ false)
          × ((e : ℕ) × (r ≡ ret (pos e))
              × (s.fds e ≡ none)
              × ((d : ℕ) → 0 ≤ d → d < e → in_use (s.fds d) ≡ true)
              × Points e s'))

  abbrev pub Duped2 : ℕ → ℕ → Ret × Fs → Type 0
  Duped2 fd nfd (r, s') =
      ((no_mode (s.files f).mode ≡ true)
        × (r ≡ err ebadf)
        × Leaves f (s.files f).position s.vnodes s s')
      ⊎ ((no_mode (s.files f).mode ≡ false)
          × (nfd ≡ fd)
          × (r ≡ ret (pos nfd))
          × Leaves f (s.files f).position s.vnodes s s')
      ⊎ ((no_mode (s.files f).mode ≡ false)
          × (s.fds nfd ≡ none)
          × (r ≡ ret (pos nfd))
          × Points nfd s')
      ⊎ ((no_mode (s.files f).mode ≡ false)
          × (nfd ≢ fd)
          × (in_use (s.fds nfd) ≡ true)
          × (r ≡ ret (pos nfd))
          × (s' ≡ bump f s))

  -- If all descriptors of the table are in use, do_dup of one whose mode is not 0 stores outside of
  -- the table, at the index -EMFILE.
  pub do_dup-full :
      (fd : ℕ)
      → s.fds fd ≡ some f
      → no_mode (s.files f).mode ≡ false
      → ((d : ℕ) → d < nfiles → in_use (s.fds d) ≡ true)
      → do_dup nfiles l (pos fd) s ≡ panic
  unfolding do_dup dup_file store_empty
  do_dup-full fd open_fd m full = elim (get_empty_fd-Least nfiles (bump f s)) [
    | inl (e, all) ↦ rw (l.fget-open s fd f open_fd) rw (bumped_mode false m) rw e refl
    | inr (e, x, a, b, n, all) ↦ clash (in_use (s.fds e)) (full e b) (rw n refl)
  ]

  module _ (fd : ℕ) (i : FdInv nfiles outside s) (open_fd : s.fds fd ≡ some f) where
    refused : Leaves f (s.files f).position s.vnodes s (fput f (bump f s))
    refused = fput-bumped l s fd f s.vnodes (FdInv-Counted nfiles outside s i) open_fd

    -- If each reference count is the number of descriptors that point to the file and of the
    -- references outside the table, and some descriptor is unused, then do_dup of an open descriptor
    -- does not panic: mode 0 is -EBADF and changes no file, descriptor or vnode; else the least unused
    -- descriptor is returned and points to the same file, which gets one reference, and the counts
    -- again are those numbers.
    pub do_dup-Duped :
        (free : ℕ) → free < nfiles → s.fds free ≡ none → Ends Duped (do_dup nfiles l (pos fd) s)
    unfolding do_dup dup_file store_empty
    do_dup-Duped free lt unused = elim (Bool-cases (no_mode (s.files f).mode)) [
      | inl m ↦ rw (l.fget-open s fd f open_fd) rw (bumped_mode true m) (inl (m, refl, refused))
      | inr m ↦ elim (get_empty_fd-Least nfiles (bump f s)) [
        | inl (e, all) ↦ clash (in_use (s.fds free)) (all free (omega arith) lt) (rw unused refl)
        | inr (e, x, a, b, n, all) ↦
            rw (l.fget-open s fd f open_fd) rw (bumped_mode false m) rw x rw (lt→ltb e nfiles b)
              (inr (m, (e, refl, n, all, store-Points e b n i)))
      ]
    ]

    pub do_dup2-opened :
        (max_files nfd : ℕ)
        → max_files ≤ nfiles
        → fd < max_files
        → nfd < max_files
        → Ends (Duped2 fd nfd) (do_dup2 nfiles l max_files (pos fd) (pos nfd) s)
    unfolding do_dup2 dup2_file
    do_dup2-opened max_files nfd le a b =
        rw (lt→ltb fd max_files a) rw (lt→ltb nfd max_files b) rw (l.fget-open s fd f open_fd)
          (elim (Bool-cases (no_mode (s.files f).mode)) [
            | inl m ↦ rw (bumped_mode true m) (inl (m, refl, refused))
            | inr m ↦ elim (Option-cases (s.fds nfd)) [
              | inl n ↦
                  rw (bumped_mode false m) rw n rw (lt→ltb nfd nfiles (omega arith))
                    (inr (inr (inl (m, n, refl, store-Points nfd (omega arith) n i))))
              | inr (g, u) ↦ elim (Bool-cases (nfd == fd)) [
                | inl q ↦
                    rw (bumped_mode false m) rw u rw q
                      (inr (inl (m, (==_iff nfd fd).0 q, refl, refused)))
                | inr q ↦ rw (bumped_mode false m) rw u rw q (
                    inr (
                      inr (
                        inr (
                          m,
                          (λ e. clash (nfd == fd) ((==_iff nfd fd).1 e) q),
                          rw u refl,
                          refl,
                          refl,
                        ))))
              ]
            ]
          ])

module _ (nfiles : ℕ) (l : FileLayer) (outside : ℕ → ℕ) (s : Fs) where
  -- What do_dup2 does for a descriptor that is open on a file, or is not open.
  abbrev pub DupedFile : ℕ → ℕ → Option ℕ → Ret × Fs → Type 0
  DupedFile ofd nfd none r = r ≡ (err ebadf, s)
  DupedFile ofd nfd (some f) r = Duped2 nfiles l outside s f ofd nfd r

  -- And for any two numbers.
  abbrev pub Duped2Any : ℕ → ℤ → ℤ → Ret × Fs → Type 0
  Duped2Any max_files (pos ofd) (pos nfd) r =
      if ltb ofd max_files && ltb nfd max_files
      then DupedFile ofd nfd (s.fds ofd) r
      else r ≡ (err ebadf, s)
  Duped2Any max_files _ _ r = r ≡ (err ebadf, s)

  in_range-Duped2 :
      (max_files ofd nfd : ℕ)
      → FdInv nfiles outside s
      → max_files ≤ nfiles
      → ofd < max_files
      → nfd < max_files
      → (o : Option ℕ) → s.fds ofd ≡ o
      → Ends (DupedFile ofd nfd o) (do_dup2 nfiles l max_files (pos ofd) (pos nfd) s)
  unfolding do_dup2 dup2_file
  in_range-Duped2 max_files ofd nfd i le a b none e =
      rw (lt→ltb ofd max_files a) rw (lt→ltb nfd max_files b) rw (l.fget-closed s ofd e) refl
  in_range-Duped2 max_files ofd nfd i le a b (some f) e =
      do_dup2-opened nfiles l outside s f ofd i e max_files nfd le a b

  -- If each reference count is the number of descriptors that point to the file and of the
  -- references outside the table, which has room for all numbers below the limit, then do_dup2 does not
  -- panic for any two numbers. It is -EBADF and changes nothing if one of them is negative or not below
  -- the limit, or if the first is not open. For an open descriptor mode 0 is -EBADF and, like a copy to
  -- the descriptor itself, changes no file, descriptor or vnode; an unused descriptor then points to
  -- the same file, which gets one reference, and the counts again are those numbers; a descriptor in use
  -- stays as it is, though the call returns it, and the file has got a reference that no descriptor
  -- stands for.
  pub do_dup2-Duped2 :
      (max_files : ℕ) (ofd nfd : ℤ)
      → FdInv nfiles outside s
      → max_files ≤ nfiles
      → Ends (Duped2Any max_files ofd nfd) (do_dup2 nfiles l max_files ofd nfd s)
  unfolding do_dup2
  do_dup2-Duped2 max_files (negsuc m) nfd i le = refl
  do_dup2-Duped2 max_files (pos ofd) (negsuc n) i le = refl
  do_dup2-Duped2 max_files (pos ofd) (pos nfd) i le =
      elim (Bool-cases (ltb ofd max_files && ltb nfd max_files)) [
        | inl b ↦
            let first : ofd < max_files = ground arith in
            let second : nfd < max_files = ground arith in
            let there = in_range-Duped2 max_files ofd nfd i le first second (s.fds ofd) refl in
            Ends-mono (DupedFile ofd nfd (s.fds ofd)) (Duped2Any max_files (pos ofd) (pos nfd))
              (do_dup2 nfiles l max_files (pos ofd) (pos nfd) s) (λ r h. rw b h) there
        | inr b ↦ rw b rw b refl
      ]
