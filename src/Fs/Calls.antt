-- ===== src/Fs/Calls.antt =====
-- do_read, do_write, do_lseek and do_getdent of kernel/fs/vfs_syscall.c.
pub mod Held
pub mod Read
pub mod Seek
pub mod Write
pub mod Getdent
use weenix_kernel.Base.{ℕ, Bool, true, false, not, ◌&&◌, ◌||◌, Option, none, some, if◌then◌else◌}
use weenix_kernel.Base.Int.{ℤ, pos, negsuc, ◌+ℤ◌, ltb_ℤ, leb_ℤ}
use weenix_kernel.Base.Outcome.{Outcome, ok, panic, ◌>>=◌, ◌>>◌, kassert, deref}
use weenix_kernel.Fs.Layer.{
  Mode, File, Kind, directory, regular, chr, blk, Vnode, Fs, Errno, ebadf, eisdir, einval, enotdir,
  Ret, ret, err, update, VnodeOps, FileLayer,
}

abbrev pub no_mode : Mode → Bool
no_mode m = not m.reads && (not m.writes && not m.appends)

-- f_mode == FMODE_WRITE
abbrev pub only_writes : Mode → Bool
only_writes m = not m.reads && (m.writes && not m.appends)

abbrev pub is_directory : Kind → Bool
is_directory directory = true
is_directory _ = false

abbrev pub is_device : Kind → Bool
is_device chr = true
is_device blk = true
is_device _ = false

abbrev pub is_regular : Kind → Bool
is_regular regular = true
is_regular _ = false

abbrev pub set_position : ℕ → ℤ → Fs → Fs
set_position f p s = record s { files = update s.files f (record (s.files f) { position = p }) }

-- `if (res > 0) f->f_pos += res`
abbrev pub advance : ℕ → ℤ → Fs → Fs
advance f res s = if ltb_ℤ (pos 0) res then set_position f ((s.files f).position +ℤ res) s else s

abbrev pub kind_of : ℕ → Fs → Kind
kind_of f s = (s.vnodes (s.files f).vnode).kind

pub data Whence : Type 0 where
  seek_set seek_cur seek_end : Whence
  other : ℕ → Whence

abbrev pub known : Whence → Bool
known (other w) = false
known _ = true

-- do_lseek: the new position, or `none` where the call returns -EINVAL.
abbrev pub seek_target : ℕ → ℤ → Whence → Fs → Option ℤ
seek_target f offset seek_set s = if leb_ℤ (pos 0) offset then some offset else none
seek_target f offset seek_cur s =
    if leb_ℤ (pos 0) ((s.files f).position +ℤ offset)
    then some ((s.files f).position +ℤ offset)
    else none
seek_target f offset seek_end s =
    let len = (s.vnodes (s.files f).vnode).len in
    if leb_ℤ (pos 0) (len +ℤ offset) then some (len +ℤ offset) else none
seek_target f offset (other w) s = none

module _ (l : FileLayer) (ops : VnodeOps) where
  open l use {fget, fput}

  -- do_read. FMODE_WRITE & FMODE_APPEND is 0, so the second half of its second test is `no_mode`.
  read_file : ℕ → ℕ → Fs → Outcome (Ret × Fs)
  read_file f nbytes s =
      if no_mode (s.files f).mode
      then ok (err ebadf, fput f s)
      else (if only_writes (s.files f).mode || no_mode (s.files f).mode
          then ok (err ebadf, fput f s)
          else (if is_directory (kind_of f s) then ok (err eisdir, fput f s) else (do
            read ← deref (ops.read (s.files f).vnode)
            let done = read (s.files f).position nbytes s.vnodes
            ok (ret done.0, fput f (advance f done.0 (record s { vnodes = done.1 }))))))

  -- What a call does with the result of fget: NULL is -EBADF.
  abbrev pub with_file : Option ℕ × Fs → (ℕ → Fs → Outcome (Ret × Fs)) → Outcome (Ret × Fs)
  with_file (none, s) body = ok (err ebadf, s)
  with_file (some f, s) body = body f s

  pub do_read : ℤ → ℕ → Fs → Outcome (Ret × Fs)
  unfolding read_file
  do_read fd nbytes s = with_file (fget fd s) λ f s'. read_file f nbytes s'

  -- do_lseek.
  seek_to : ℕ → Option ℤ → Fs → Ret × Fs
  seek_to f none s = (err einval, fput f s)
  seek_to f (some p) s = let s' = fput f (set_position f p s) in (ret (s'.files f).position, s')

  seek_file : ℤ → Whence → ℕ → Fs → Outcome (Ret × Fs)
  unfolding seek_to
  seek_file offset whence f s =
      if no_mode (s.files f).mode
      then ok (err ebadf, fput f s)
      else ok (seek_to f (seek_target f offset whence s) s)

  pub do_lseek : ℤ → ℤ → Whence → Fs → Outcome (Ret × Fs)
  unfolding seek_file
  do_lseek fd offset whence s =
      if known whence then with_file (fget fd s) (seek_file offset whence) else ok (err einval, s)

  -- do_write. The lseek before the write moves to the end, or stays.
  write_at : ℕ → ℕ → Fs → Outcome (Ret × Fs)
  write_at f nbytes s = do
    write ← deref (ops.write (s.files f).vnode)
    let done = write (s.files f).position nbytes s.vnodes
    let s' = advance f done.0 (record s { vnodes = done.1 })
    kassert (
        not (ltb_ℤ (pos 0) done.0)
        || (is_device (kind_of f s')
            || (is_regular (kind_of f s')
                && leb_ℤ (s'.files f).position (s'.vnodes (s'.files f).vnode).len)))
    ok (ret done.0, fput f s')

  write_file : ℤ → ℕ → ℕ → Fs → Outcome (Ret × Fs)
  unfolding write_at
  write_file fd nbytes f s =
      if no_mode (s.files f).mode
      then ok (err ebadf, fput f s)
      else (if (s.files f).mode.appends
          then (do_lseek fd (pos 0) seek_end s >>= λ sought. write_at f nbytes sought.1)
          else (if (s.files f).mode.writes
              then (do_lseek fd (pos 0) seek_cur s >>= λ sought. write_at f nbytes sought.1)
              else ok (err ebadf, fput f s)))

  pub do_write : ℤ → ℕ → Fs → Outcome (Ret × Fs)
  unfolding write_file
  do_write fd nbytes s = with_file (fget fd s) (write_file fd nbytes)

  -- do_getdent; `dirent_size` is sizeof(dirent_t).
  getdent_file : ℕ → ℕ → Fs → Outcome (Ret × Fs)
  getdent_file dirent_size f s =
      if no_mode (s.files f).mode
      then ok (err ebadf, fput f s)
      else elim (ops.readdir (s.files f).vnode) [
        | none ↦ ok (err enotdir, fput f s)
        | some readdir ↦
            let done = readdir (s.files f).position s.vnodes in
            let s' = record s { vnodes = done.1 } in
            if leb_ℤ done.0 (pos 0) && leb_ℤ (pos 0) done.0
            then ok (ret (pos 0), fput f s')
            else ok
                (ret (pos dirent_size), fput f (set_position f ((s.files f).position +ℤ done.0) s'))
      ]

  pub do_getdent : ℕ → ℤ → Fs → Outcome (Ret × Fs)
  unfolding getdent_file
  do_getdent dirent_size fd s = with_file (fget fd s) (getdent_file dirent_size)
