-- ===== src/Fs/Calls/Getdent.antt =====
-- do_getdent keeps every reference count, and takes an error of readdir for an entry.
use weenix_kernel.Base.{
  ℕ, ◌≡◌, ◌⊎◌, inl, inr, refl, Bool, true, false, ◌&&◌, none, some, Bool-cases, Option-cases,
}
use weenix_kernel.Base.Int.{ℤ, pos, ◌+ℤ◌, leb_ℤ}
use weenix_kernel.Base.Outcome.{Ends}
use weenix_kernel.Fs.Layer.{
  Vnode, Fs, ebadf, enotdir, Ret, ret, err, VnodeOps, FileLayer, Counted, Leaves,
}
use weenix_kernel.Fs.Calls.Held.{fput-in_call, fput-bumped, file-bumped}
use weenix_kernel.Fs.Calls.{no_mode, do_getdent, getdent_file}

module _ (l : FileLayer) (ops : VnodeOps) (dirent_size : ℕ) (s : Fs) (fd f : ℕ) where
  open l use {fget, fput}

  abbrev pub is_zero : ℤ → Bool
  is_zero n = leb_ℤ n (pos 0) && leb_ℤ (pos 0) n

  abbrev pub Listed : Ret × Fs → Type 0
  Listed (r, s') =
      ((no_mode (s.files f).mode ≡ true)
        × (r ≡ err ebadf)
        × Leaves f (s.files f).position s.vnodes s s')
      ⊎ ((no_mode (s.files f).mode ≡ false)
          × (ops.readdir (s.files f).vnode ≡ none)
          × (r ≡ err enotdir)
          × Leaves f (s.files f).position s.vnodes s s')
      ⊎ ((no_mode (s.files f).mode ≡ false)
          × ((readdir : ℤ → (ℕ → Vnode) → ℤ × (ℕ → Vnode)) × (ops.readdir (s.files f).vnode
                ≡ some readdir)
              × (let done = readdir (s.files f).position s.vnodes in
                  ((is_zero done.0 ≡ true)
                    × (r ≡ ret (pos 0))
                    × Leaves f (s.files f).position done.1 s s')
                  ⊎ ((is_zero done.0 ≡ false)
                      × (r ≡ ret (pos dirent_size))
                      × Leaves f ((s.files f).position +ℤ done.0) done.1 s s'))))

  -- do_getdent of an open descriptor, whose file has a reference: mode 0 is -EBADF, a vnode without
  -- readdir is -ENOTDIR, and a readdir that returns 0 gives 0. Whatever else readdir returns, an
  -- error included, the call returns sizeof(dirent_t) and adds the number to the position. On every
  -- branch each reference count and each descriptor is as it was.
  pub do_getdent-Listed :
      Counted s → s.fds fd ≡ some f → Ends Listed (do_getdent l ops dirent_size (pos fd) s)
  unfolding do_getdent getdent_file
  do_getdent-Listed c open_fd =
      rw (l.fget-open s fd f open_fd) (elim (Bool-cases (no_mode (s.files f).mode)) [
        | inl m ↦
            rw (file-bumped l s fd f) rw m (inl (m, refl, fput-bumped l s fd f s.vnodes c open_fd))
        | inr m ↦ elim (Option-cases (ops.readdir (s.files f).vnode)) [
          | inl n ↦
              rw (file-bumped l s fd f) rw m rw n
                (inr (inl (m, n, refl, fput-bumped l s fd f s.vnodes c open_fd)))
          | inr (readdir, e) ↦
              elim (Bool-cases (is_zero (readdir (s.files f).position s.vnodes).0)) [
                | inl z ↦
                    rw (file-bumped l s fd f) rw m rw e rw (file-bumped l s fd f) rw z
                      (inr (inr (m, (readdir, e, inl (z, refl, fput-bumped l s fd f _ c open_fd)))))
                | inr z ↦ rw (file-bumped l s fd f) rw m rw e rw (file-bumped l s fd f) rw z (
                    inr (inr (m, (readdir, e, inr (z, refl, fput-in_call l s fd f _ _ c open_fd)))))
              ]
        ]
      ])
