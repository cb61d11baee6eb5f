-- ===== src/Fs/Descriptors.antt =====
-- The descriptor table: get_empty_fd of kernel/fs/open.c, do_close, do_dup and do_dup2 of
-- kernel/fs/vfs_syscall.c.
pub mod Count
pub mod Free
pub mod Close
pub mod Dup
use weenix_kernel.Base.{
  ℕ, zero, suc, ◌+◌, Bool, true, false, not, ◌&&◌, ◌||◌, Option, none, some, if◌then◌else◌, ltb,
  ◌==◌,
}
use weenix_kernel.Base.Int.{ℤ, pos, negsuc}
use weenix_kernel.Base.Outcome.{Outcome, ok, panic, ◌>>=◌}
use weenix_kernel.Fs.Layer.{File, Fs, Errno, ebadf, emfile, Ret, ret, err, update, FileLayer}
use weenix_kernel.Fs.Calls.{no_mode}

abbrev pub in_use : Option ℕ → Bool
in_use none = false
in_use (some f) = true

abbrev pub set_fd : ℕ → Option ℕ → Fs → Fs
set_fd d o s = record s { fds = update s.fds d o }

-- The loop of get_empty_fd from `fd`, with `n` descriptors to go.
unfoldable pub free_from : ℕ → ℕ → Fs → Option ℕ
free_from zero fd s = none
free_from (suc n) fd s =
    let rest = free_from n (fd + 1) s in if not (in_use (s.fds fd)) then some fd else rest

module _ (nfiles : ℕ) where
  -- get_empty_fd; `none` stands for -EMFILE.
  unfoldable pub get_empty_fd : Fs → Option ℕ
  unfolding free_from
  get_empty_fd s = free_from nfiles 0 s

  -- `curproc->p_files[fd] = file`: a store outside of the table is `panic`.
  abbrev pub store : ℤ → Option ℕ → Fs → Outcome Fs
  store (negsuc n) o s = panic
  store (pos d) o s = if ltb d nfiles then ok (set_fd d o s) else panic

  module _ (l : FileLayer) where
    open l use {fget, fput}

    close_file : ℤ → Option ℕ × Fs → Outcome (Ret × Fs)
    close_file fd (none, s) = ok (err ebadf, s)
    close_file fd (some f, s) =
        if no_mode (s.files f).mode
        then ok (err ebadf, fput f s)
        else (do s' ← store fd none (fput f s); ok (ret (pos 0), fput f s'))

    pub do_close : ℤ → Fs → Outcome (Ret × Fs)
    unfolding close_file
    do_close fd s = close_file fd (fget fd s)

    -- The store of do_dup goes to the index that get_empty_fd returned, -EMFILE included.
    store_empty : ℕ → Option ℕ → Fs → Outcome (Ret × Fs)
    store_empty f none s = panic
    store_empty f (some d) s = do s' ← store (pos d) (some f) s; ok (ret (pos d), s')

    dup_file : Option ℕ × Fs → Outcome (Ret × Fs)
    unfolding get_empty_fd store_empty
    dup_file (none, s) = ok (err ebadf, s)
    dup_file (some f, s) =
        if no_mode (s.files f).mode
        then ok (err ebadf, fput f s)
        else store_empty f (get_empty_fd s) s

    pub do_dup : ℤ → Fs → Outcome (Ret × Fs)
    unfolding dup_file
    do_dup fd s = dup_file (fget fd s)

    -- do_dup2, behind its check that both descriptors are below `max_files`.
    dup2_file : ℕ → ℕ → Option ℕ × Fs → Outcome (Ret × Fs)
    dup2_file ofd nfd (none, s) = ok (err ebadf, s)
    dup2_file ofd nfd (some f, s) =
        if no_mode (s.files f).mode
        then ok (err ebadf, fput f s)
        else (if in_use (s.fds nfd) && nfd == ofd
            then ok (ret (pos nfd), fput f s)
            else (if not (in_use (s.fds nfd))
                then (do s' ← store (pos nfd) (some f) s; ok (ret (pos nfd), s'))
                else ok (ret (pos nfd), s)))

    pub do_dup2 : ℕ → ℤ → ℤ → Fs → Outcome (Ret × Fs)
    unfolding dup2_file
    do_dup2 max_files (pos ofd) (pos nfd) s =
        if ltb ofd max_files && ltb nfd max_files
        then dup2_file ofd nfd (fget (pos ofd) s)
        else ok (err ebadf, s)
    do_dup2 max_files _ _ s = ok (err ebadf, s)
