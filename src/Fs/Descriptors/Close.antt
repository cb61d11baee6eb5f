-- ===== src/Fs/Descriptors/Close.antt =====
-- do_close frees the descriptor and gives up its reference.
use weenix_kernel.Base.{
  ℕ, ◌-◌, ◌≡◌, ◌⊎◌, inl, inr, refl, true, false, none, some, arith, Bool-cases, ==_iff, ap, ◌∙◌,
  lt→ltb,
}
use weenix_kernel.Base.Int.{pos}
use weenix_kernel.Base.Outcome.{Ends}
use weenix_kernel.Fs.Layer.{
  File, Fs, Ret, ret, err, ebadf, update, bump, FileLayer, Counted, Leaves,
}
use weenix_kernel.Fs.Calls.{no_mode}
use weenix_kernel.Fs.Calls.Held.{fput-bumped, file-bumped}
use weenix_kernel.Fs.Descriptors.{do_close, close_file, set_fd}
use weenix_kernel.Fs.Descriptors.Count.{FdInv, holders-open, recount, points}

pub FdInv-Counted : (nfiles : ℕ) (outside : ℕ → ℕ) (s : Fs) → FdInv nfiles outside s → Counted s
FdInv-Counted nfiles outside s i d f e =
    let h = holders-open nfiles s.fds d f (i.in_table d f e) e in ground (arith, i.counted f)

module _ (nfiles : ℕ) (l : FileLayer) (outside : ℕ → ℕ) (s : Fs) (fd f : ℕ) where
  open l use {fget, fput}

  abbrev pub Closed : Ret × Fs → Type 0
  Closed (r, s') =
      ((no_mode (s.files f).mode ≡ true)
        × (r ≡ err ebadf)
        × Leaves f (s.files f).position s.vnodes s s')
      ⊎ ((no_mode (s.files f).mode ≡ false)
          × (r ≡ ret (pos 0))
          × ((d : ℕ) → s'.fds d ≡ update s.fds fd none d)
          × ((u : ℕ)
              → s'.files u
                ≡ update s.files f (record (s.files f) { refcount = (s.files f).refcount - 1 }) u)
          × FdInv nfiles outside s')

  module _ (i : FdInv nfiles outside s) (open_fd : s.fds fd ≡ some f) where
    held : Leaves f (s.files f).position s.vnodes s (fput f (bump f s))
    held = fput-bumped l s fd f s.vnodes (FdInv-Counted nfiles outside s i) open_fd

    -- The state behind both calls of fput.
    abbrev closed : Fs
    closed = fput f (set_fd fd none (fput f (bump f s)))

    fds-closed : (d : ℕ) → closed.fds d ≡ update s.fds fd none d
    fds-closed d = l.fds-fput _ f d ∙ ground (arith, held.1 d)

    files-closed :
        (u : ℕ)
        → closed.files u
          ≡ update s.files f (record (s.files f) { refcount = (s.files f).refcount - 1 }) u
    files-closed u = l.files-fput _ f u ∙ ground (arith, held.0 u, held.0 f)

    closed-FdInv : FdInv nfiles outside closed
    closed-FdInv =
        let at = i.in_table fd f open_fd in
        recount nfiles outside s closed fd none at i fds-closed λ g.
          let h = holders-open nfiles s.fds fd f at open_fd in
          let n = ap (λ (x : File). x.refcount) (files-closed g) in
          let p = ap (λ o. points o g) open_fd in
          ground (arith, i.counted f, (==_iff f g).0, ap (λ u. (s.files u).refcount))

    -- If each reference count is the number of descriptors that point to the file and of the
    -- references outside the table, then do_close of an open descriptor of mode 0 is -EBADF and
    -- changes no file, descriptor or vnode; of any other it returns 0, frees just this descriptor,
    -- takes one reference from its file, and the counts again are those numbers.
    pub do_close-Closed : Ends Closed (do_close nfiles l (pos fd) s)
    unfolding do_close close_file
    do_close-Closed = elim (Bool-cases (no_mode (s.files f).mode)) [
      | inl e ↦ rw (l.fget-open s fd f open_fd) rw (file-bumped l s fd f) rw e (inl (e, refl, held))
      | inr e ↦
          rw (l.fget-open s fd f open_fd) rw (file-bumped l s fd f) rw e rw
            (lt→ltb fd nfiles (i.in_table fd f open_fd))
            (inr (e, refl, fds-closed, files-closed, closed-FdInv))
    ]
