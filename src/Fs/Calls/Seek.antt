-- ===== src/Fs/Calls/Seek.antt =====
-- do_lseek moves to the sum of its base and its offset.
use weenix_kernel.Base.{
  ℕ, ◌≡◌, ◌⊎◌, inl, inr, refl, true, false, Option, none, some, ap, ◌∙◌, Bool-cases, if◌then◌else◌,
}
use weenix_kernel.Base.Int.{ℤ, pos, ◌+ℤ◌, leb_ℤ, zero-+ℤ}
use weenix_kernel.Base.Outcome.{Ends}
use weenix_kernel.Fs.Layer.{
  File, Fs, ebadf, einval, Ret, ret, err, VnodeOps, bump, FileLayer, Counted, Leaves,
}
use weenix_kernel.Fs.Calls.Held.{left_at, fput-in_call, fput-bumped, file-bumped}
use weenix_kernel.Fs.Calls.{
  no_mode, do_lseek, seek_file, seek_to, seek_target, Whence, seek_set, seek_cur, seek_end, other,
  known,
}

module _ (l : FileLayer) (ops : VnodeOps) (s : Fs) (fd f : ℕ) where
  open l use {fget, fput}

  -- What the offset is added to.
  abbrev pub base_of : Whence → ℤ
  base_of seek_cur = (s.files f).position
  base_of seek_end = (s.vnodes (s.files f).vnode).len
  base_of _ = pos 0

  abbrev pub Sought : ℤ → Whence → Ret × Fs → Type 0
  Sought offset whence (r, s') =
      ((known whence ≡ false) × (r ≡ err einval) × (s' ≡ s))
      ⊎ ((known whence ≡ true)
          × (no_mode (s.files f).mode ≡ true)
          × (r ≡ err ebadf)
          × Leaves f (s.files f).position s.vnodes s s')
      ⊎ ((known whence ≡ true)
          × (no_mode (s.files f).mode ≡ false)
          × (leb_ℤ (pos 0) (base_of whence +ℤ offset) ≡ true)
          × (r ≡ ret (base_of whence +ℤ offset))
          × Leaves f (base_of whence +ℤ offset) s.vnodes s s')
      ⊎ ((known whence ≡ true)
          × (no_mode (s.files f).mode ≡ false)
          × (leb_ℤ (pos 0) (base_of whence +ℤ offset) ≡ false)
          × (r ≡ err einval)
          × Leaves f (s.files f).position s.vnodes s s')

  abbrev target : ℤ → Whence → Option ℤ
  target offset whence =
      if leb_ℤ (pos 0) (base_of whence +ℤ offset) then some (base_of whence +ℤ offset) else none

  seek_target_lem :
      (offset : ℤ) (whence : Whence)
      → known whence ≡ true
      → seek_target f offset whence (bump f s) ≡ target offset whence
  seek_target_lem offset seek_set e = rw (zero-+ℤ offset) refl
  seek_target_lem offset seek_cur e = rw (file-bumped l s fd f) refl
  seek_target_lem offset seek_end e = rw (file-bumped l s fd f) refl
  seek_target_lem offset (other w) e = cc

  seek_file-Sought :
      (offset : ℤ) (whence : Whence)
      → known whence ≡ true
      → Counted s
      → s.fds fd ≡ some f
      → Ends (Sought offset whence) (seek_file l ops offset whence f (bump f s))
  unfolding seek_file seek_to
  seek_file-Sought offset whence k c open_fd = elim (Bool-cases (no_mode (s.files f).mode)) [
    | inl e ↦
        rw (file-bumped l s fd f) rw e
          (inr (inl (k, e, refl, fput-bumped l s fd f s.vnodes c open_fd)))
    | inr e ↦ elim (Bool-cases (leb_ℤ (pos 0) (base_of whence +ℤ offset))) [
      | inl le ↦
          let t : seek_target f offset whence (bump f s) ≡ some (base_of whence +ℤ offset) =
            seek_target_lem offset whence k ∙ rw le refl in
          let h = fput-in_call l s fd f (base_of whence +ℤ offset) s.vnodes c open_fd in
          rw t rw (file-bumped l s fd f) rw e (
            inr (
              inr
                (inl (k, e, le, ap (λ (x : File). ret x.position) (left_at l s fd f _ _ _ h), h))))
      | inr gt ↦
          let t : seek_target f offset whence (bump f s) ≡ none =
            seek_target_lem offset whence k ∙ rw gt refl in
          rw t rw (file-bumped l s fd f) rw e
            (inr (inr (inr (k, e, gt, refl, fput-bumped l s fd f s.vnodes c open_fd))))
    ]
  ]

  -- do_lseek of an open descriptor, whose file has a reference: an unknown whence is -EINVAL, mode 0
  -- is -EBADF, and else the file moves to the offset added to 0, its position or its length, and
  -- the call returns that, if it is not negative; if it is, -EINVAL and the position stays.
  -- On every branch each reference count and each descriptor is as it was.
  pub do_lseek-Sought :
      (offset : ℤ) (whence : Whence)
      → Counted s
      → s.fds fd ≡ some f
      → Ends (Sought offset whence) (do_lseek l ops (pos fd) offset whence s)
  unfolding do_lseek
  do_lseek-Sought offset whence c open_fd = elim (Bool-cases (known whence)) [
    | inl k ↦ rw k rw (l.fget-open s fd f open_fd) (seek_file-Sought offset whence k c open_fd)
    | inr k ↦ rw k (inl (k, refl, refl))
  ]
