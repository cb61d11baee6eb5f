-- ===== src/Fs/Calls/Read.antt =====
-- do_read and do_lseek keep every reference count, on every branch.
use weenix_kernel.Base.{
  ℕ, ◌≡◌, ◌≢◌, ◌⊎◌, inl, inr, refl, true, false, none, some, Bool-cases, Option-cases,
  if◌then◌else◌,
}
use weenix_kernel.Base.Int.{ℤ, pos, ◌+ℤ◌, ltb_ℤ}
use weenix_kernel.Base.Outcome.{Ends}
use weenix_kernel.Fs.Layer.{
  Vnode, Fs, ebadf, eisdir, Ret, ret, err, VnodeOps, bump, FileLayer, Counted, Leaves,
}
use weenix_kernel.Fs.Calls.Held.{in_call, fput-in_call, fput-bumped, file-bumped}
use weenix_kernel.Fs.Calls.{no_mode, only_writes, is_directory, kind_of, do_read, read_file}

module _ (l : FileLayer) (ops : VnodeOps) (nbytes : ℕ) (s : Fs) (fd f : ℕ) where
  open l use {fget, fput}

  -- The position behind a read of `n` bytes.
  abbrev pub moved_by : ℤ → ℤ
  moved_by n = if ltb_ℤ (pos 0) n then (s.files f).position +ℤ n else (s.files f).position

  abbrev pub Read : Ret × Fs → Type 0
  Read (r, s') =
      (((no_mode (s.files f).mode ≡ true) ⊎ (only_writes (s.files f).mode ≡ true))
        × (r ≡ err ebadf)
        × Leaves f (s.files f).position s.vnodes s s')
      ⊎ ((is_directory (kind_of f s) ≡ true)
          × (r ≡ err eisdir)
          × Leaves f (s.files f).position s.vnodes s s')
      ⊎ ((no_mode (s.files f).mode ≡ false)
          × (only_writes (s.files f).mode ≡ false)
          × (is_directory (kind_of f s) ≡ false)
          × ((read : ℤ → ℕ → (ℕ → Vnode) → ℤ × (ℕ → Vnode)) × (ops.read (s.files f).vnode
                ≡ some read)
              × (let done = read (s.files f).position nbytes s.vnodes in
                  (r ≡ ret done.0) × Leaves f (moved_by done.0) done.1 s s')))

  moved_by-Leaves :
      (n : ℤ) (v : ℕ → Vnode)
      → Counted s
      → s.fds fd ≡ some f
      → Leaves f (moved_by n) v s (
          fput f (
            if ltb_ℤ (pos 0) n
            then in_call l s fd f ((s.files f).position +ℤ n) v
            else record (bump f s) { vnodes = v }))
  moved_by-Leaves n v c open_fd = elim (Bool-cases (ltb_ℤ (pos 0) n)) [
    | inl e ↦ rw e (fput-in_call l s fd f ((s.files f).position +ℤ n) v c open_fd)
    | inr e ↦ rw e (fput-bumped l s fd f v c open_fd)
  ]

  read_file-Read :
      Counted s
      → s.fds fd ≡ some f
      → ops.read (s.files f).vnode ≢ none
      → Ends Read (read_file l ops f nbytes (bump f s))
  unfolding read_file
  read_file-Read c open_fd has_read = elim (Bool-cases (no_mode (s.files f).mode)) [
    | inl e ↦
        rw (file-bumped l s fd f) rw e (inl (inl e, refl, fput-bumped l s fd f s.vnodes c open_fd))
    | inr e ↦ elim (Bool-cases (only_writes (s.files f).mode)) [
      | inl w ↦
          rw (file-bumped l s fd f) rw e rw w
            (inl (inr w, refl, fput-bumped l s fd f s.vnodes c open_fd))
      | inr w ↦ elim (Bool-cases (is_directory (kind_of f s))) [
        | inl d ↦
            rw (file-bumped l s fd f) rw e rw w rw d
              (inr (inl (d, refl, fput-bumped l s fd f s.vnodes c open_fd)))
        | inr d ↦ elim (Option-cases (ops.read (s.files f).vnode)) [
          | inl n ↦ absurd (has_read n)
          | inr (read, r) ↦
              rw (file-bumped l s fd f) rw e rw w rw d rw r
                (inr (inr (e, w, d, (read, r, (refl, moved_by-Leaves _ _ c open_fd)))))
        ]
      ]
    ]
  ]

  -- do_read of an open descriptor, whose file has a reference and a read operation, does not panic.
  -- It is -EBADF if the mode is 0 or only FMODE_WRITE, -EISDIR on a directory, and else what the
  -- read operation returns at the file's position, which moves by that number if it is positive.
  -- On every branch each reference count and each descriptor is as it was.
  pub do_read-Read :
      Counted s
      → s.fds fd ≡ some f
      → ops.read (s.files f).vnode ≢ none
      → Ends Read (do_read l ops (pos fd) nbytes s)
  unfolding do_read read_file
  do_read-Read c open_fd has_read =
      rw (l.fget-open s fd f open_fd) (read_file-Read c open_fd has_read)
