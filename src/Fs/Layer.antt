-- ===== src/Fs/Layer.antt =====
-- Open files, descriptors and vnodes as kernel/fs/vfs_syscall.c and open.c see them, and what they
-- use of fs/file.c and of the vnode operations, which are not in the repository.
use weenix_kernel.Base.{
  ℕ, suc, ◌+◌, ◌-◌, ◌<◌, ◌≤◌, ◌≡◌, Bool, Option, none, some, ◌==◌, if◌then◌else◌,
}
use weenix_kernel.Base.Int.{ℤ, pos, negsuc}

-- f_mode: the bits FMODE_READ, FMODE_WRITE and FMODE_APPEND, which are distinct.
pub record Mode : Type 0 where
  pub reads : Bool
  pub writes : Bool
  pub appends : Bool

-- file_t.
pub record File : Type 0 where
  pub mode : Mode
  pub position : ℤ
  pub vnode : ℕ
  pub refcount : ℕ

-- The type bits of vn_mode.
pub data Kind : Type 0 where
  directory regular chr blk : Kind

pub record Vnode : Type 0 where
  pub kind : Kind
  pub len : ℤ

-- The open files by identity, the table p_files of the current process, and the vnodes.
pub record Fs : Type 0 where
  pub files : ℕ → File
  pub fds : ℕ → Option ℕ
  pub vnodes : ℕ → Vnode

pub data Errno : Type 0 where
  ebadf eisdir einval emfile enotdir enoent eexist eperm enotempty enametoolong : Errno
  other_errno : ℕ → Errno

-- `return -EBADF` is `err ebadf`; a number that comes from a vnode operation is `ret`.
pub data Ret : Type 0 where
  ret : ℤ → Ret
  err : Errno → Ret

abbrev pub update {ℓ} : {A : Type ℓ} → (ℕ → A) → ℕ → A → ℕ → A
update f i a j = if i == j then a else f j

-- The vnode operations; `none` stands for NULL in the operations table. Each gets the vnode, the
-- position and the byte count, and returns its result and the vnodes after it.
pub record VnodeOps : Type 0 where
  pub read : ℕ → Option (ℤ → ℕ → (ℕ → Vnode) → ℤ × (ℕ → Vnode))
  pub write : ℕ → Option (ℤ → ℕ → (ℕ → Vnode) → ℤ × (ℕ → Vnode))
  pub readdir : ℕ → Option (ℤ → (ℕ → Vnode) → ℤ × (ℕ → Vnode))

abbrev pub bump : ℕ → Fs → Fs
bump f s = record s {
  files = update s.files f (record (s.files f) { refcount = (s.files f).refcount + 1 });
}

-- fget and fput of fs/file.c, with what their documentation says: fget of an open descriptor
-- returns its file with one more reference, and NULL for any other; fput takes a reference back,
-- and changes no descriptor and no other file. It gives up the vnode only with the last reference.
pub record FileLayer : Type 0 where
  pub fget : ℤ → Fs → Option ℕ × Fs
  pub fput : ℕ → Fs → Fs
  pub fget-open : (s : Fs) (fd f : ℕ) → s.fds fd ≡ some f → fget (pos fd) s ≡ (some f, bump f s)
  pub fget-closed : (s : Fs) (fd : ℕ) → s.fds fd ≡ none → fget (pos fd) s ≡ (none, s)
  pub fget-negative : (s : Fs) (n : ℕ) → fget (negsuc (suc n)) s ≡ (none, s)
  pub files-fput :
      (s : Fs) (f u : ℕ)
      → (fput f s).files u
        ≡ update s.files f (record (s.files f) { refcount = (s.files f).refcount - 1 }) u
  pub fds-fput : (s : Fs) (f fd : ℕ) → (fput f s).fds fd ≡ s.fds fd
  pub vnodes-fput : (s : Fs) (f : ℕ) → 1 < (s.files f).refcount → (fput f s).vnodes ≡ s.vnodes

-- Every descriptor in use has a file with a reference.
abbrev pub Counted : Fs → Type 0
Counted s = (fd f : ℕ) → s.fds fd ≡ some f → 1 ≤ (s.files f).refcount

-- What a call leaves behind: the same descriptors and files, and so the same reference counts,
-- but for the position of the file `f`, which is `p`; and the vnodes `v`.
abbrev pub Leaves : ℕ → ℤ → (ℕ → Vnode) → Fs → Fs → Type 0
Leaves f p v s s' =
    ((u : ℕ) → s'.files u ≡ update s.files f (record (s.files f) { position = p }) u)
    × ((fd : ℕ) → s'.fds fd ≡ s.fds fd)
    × (s'.vnodes ≡ v)
