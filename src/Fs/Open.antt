-- ===== src/Fs/Open.antt =====
-- do_open of kernel/fs/open.c.
pub mod Opens
use weenix_kernel.Base.{
  ℕ, ◌+◌, ◌-◌, ◌≡◌, Bool, true, false, ◌&&◌, ◌||◌, Option, none, some, if◌then◌else◌, ltb, ◌==◌,
  length,
}
use weenix_kernel.Base.Int.{pos}
use weenix_kernel.Base.Outcome.{Outcome, ok, panic, ◌>>=◌}
use weenix_kernel.Fs.Layer.{Mode, File, Fs, Ret, ret, err, einval, eisdir, enametoolong, update}
use weenix_kernel.Fs.Calls.{is_directory}
use weenix_kernel.Fs.Names.{Name, Names, NameOps, Same, gave}
use weenix_kernel.Fs.Path.{Res, good, bad, open_namev}
use weenix_kernel.Fs.Descriptors.{get_empty_fd}

-- oflags: `access` is oflags & 0x3, where O_RDONLY, O_WRONLY and O_RDWR are 0, 1 and 2, as fcntl.h has
-- them; the others are the bits O_APPEND and O_CREAT.
pub record Flags : Type 0 where
  pub access : ℕ
  pub appends : Bool
  pub creates : Bool

-- Files and descriptors, names and vnodes. A file whose f_vnode is NULL has no vnode.
pub record World : Type 0 where
  pub fs : Fs
  pub names : Names
  pub has_vnode : ℕ → Bool

abbrev pub set_file : ℕ → File → World → World
set_file f x w = record w { fs = record w.fs { files = update w.fs.files f x } }

abbrev pub put_fd : ℕ → Option ℕ → World → World
put_fd d o w = record w { fs = record w.fs { fds = update w.fs.fds d o } }

-- f_mode.
abbrev pub mode_of : Flags → Mode
mode_of flags = record {
  reads = flags.access == 0 || flags.access == 2;
  writes = flags.access == 1 || flags.access == 2;
  appends = flags.appends;
}

abbrev pub writing : Flags → Bool
writing flags = flags.access == 1 || flags.access == 2

-- fget(-1) and fput of fs/file.c, which is not in the repository: `fresh` takes a file that no descriptor
-- has, with one reference and without a vnode, if there is memory; `fput` takes a reference back, and
-- gives the vnode up with the last one.
pub record Files : Type 0 where
  pub fresh : World → Option ℕ × World
  pub fput : ℕ → World → World

-- A file as fget(-1) returns it.
abbrev pub IsFresh : ℕ → World → World → Type 0
IsFresh f w w' =
    (w'.names ≡ w.names)
    × (w'.has_vnode f ≡ false)
    × ((w'.fs.files f).refcount ≡ 1)
    × ((d : ℕ) → w'.fs.fds d ≡ w.fs.fds d)
    × ((u : ℕ) → (f == u) ≡ false → w'.fs.files u ≡ w.fs.files u)

-- The last reference to a file is given back.
abbrev pub Dropped : ℕ → World → World → Type 0
Dropped f w w' =
    ((u : ℕ)
      → w'.fs.files u
        ≡ update w.fs.files f (record (w.fs.files f) { refcount = (w.fs.files f).refcount - 1 }) u)
    × ((d : ℕ) → w'.fs.fds d ≡ w.fs.fds d)
    × Same (if w.has_vnode f then gave (w.fs.files f).vnode w.names else w.names) w'.names

module _ (nfiles name_len : ℕ) (files : Files) (ops : NameOps) where
  open files use {fresh, fput}

  -- do_open behind its call of open_namev, with the descriptor `d` and the file `f`.
  pub named : Flags → ℕ → ℕ → World → Res ℕ × Names → Outcome (Ret × World)
  named flags d f w (bad e, t) = ok (err e, put_fd d none (fput f (record w { names = t })))
  named flags d f w (good v, t) =
      let w' =
        set_file f (record (w.fs.files f) { vnode = v })
          (record w { names = t; has_vnode = update w.has_vnode f true }) in
      if is_directory (t.kind v) && writing flags
      then ok (err eisdir, put_fd d none (fput f w'))
      else ok
          (ret (pos d), set_file f (record (w'.fs.files f) { refcount = 1; position = pos 0 }) w')

  -- Behind fget(-1): the stores through `fd` and `file`, which the code does not test.
  pub stored : Name → Name → Flags → Option ℕ → Option ℕ × World → Outcome (Ret × World)
  unfolding open_namev named
  stored beyond path flags (some d) (some f, w) =
      let w' = set_file f (record (w.fs.files f) { mode = mode_of flags }) (put_fd d (some f) w) in
      (do
        named_it ← open_namev ops beyond path flags.creates none w'.names
        named flags d f w' named_it)
  stored beyond path flags _ _ = panic

  pub do_open : Name → Name → Flags → World → Outcome (Ret × World)
  unfolding get_empty_fd stored
  do_open beyond path flags w =
      if flags.access == 3
      then ok (err einval, w)
      else (if ltb name_len (length path)
          then ok (err enametoolong, w)
          else stored beyond path flags (get_empty_fd nfiles w.fs) (fresh w))
