-- ===== src/Fs/Names.antt =====
-- Directories and vnodes as the calls that take paths see them, and what they use of fs/vnode.c and of
-- the vnode operations of a file system, which are not in the repository.
use weenix_kernel.Base.{ℕ, ◌+◌, ◌-◌, ◌≡◌, ◌∙◌, Option, none, some, List, arith}
use weenix_kernel.Fs.Layer.{Kind, Errno, update}
use weenix_kernel.Fs.Calls.{is_directory}

-- The characters of a path or of a component.
abbrev pub Name : Type 0
Name = List ℕ

-- vn_refcount and the type in vn_mode of each vnode, which vnode a name leads to in a directory, the
-- working directory of the current process and vfs_root_vn.
pub record Names : Type 0 where
  pub refs : ℕ → ℕ
  pub kind : ℕ → Kind
  pub links : ℕ → Name → Option ℕ
  pub cwd : ℕ
  pub root : ℕ

-- What lookup and create return: 0 and a vnode, or -errno.
pub data Looked : Type 0 where
  found : ℕ → Looked
  failed : Errno → Looked

-- What an operation without a vnode returns: 0 or -errno.
pub data Status : Type 0 where
  done : Status
  fails : Errno → Status

abbrev pub took : ℕ → Names → Names
took v s = record s { refs = update s.refs v (s.refs v + 1) }

abbrev pub gave : ℕ → Names → Names
gave v s = record s { refs = update s.refs v (s.refs v - 1) }

-- The directory operations; `none` is NULL in the operations table.
pub record NameOps : Type 0 where
  pub lookup : ℕ → Option (Name → Names → Looked × Names)
  pub create : ℕ → Option (Name → Names → Looked × Names)
  pub mknod : ℕ → Option (Name → Names → Status × Names)
  pub mkdir : ℕ → Option (Name → Names → Status × Names)
  pub rmdir : ℕ → Option (Name → Names → Status × Names)
  pub unlink : ℕ → Option (Name → Names → Status × Names)
  pub link : ℕ → Option (ℕ → Name → Names → Status × Names)
  pub stat : ℕ → Option (Names → Status × Names)
  pub vref : ℕ → Names → Names
  pub vput : ℕ → Names → Names

-- The vnodes, the entries of the directories and the working directory stay; the references become
-- those of `t`.
abbrev pub Same : Names → Names → Type 0
Same t s' =
    ((u : ℕ) → s'.refs u ≡ t.refs u)
    × (s'.kind ≡ t.kind)
    × (s'.links ≡ t.links)
    × (s'.cwd ≡ t.cwd)
    × (s'.root ≡ t.root)

-- Only entries, and the types of vnodes that are made, may change.
abbrev pub Keeps : Names → Names → Type 0
Keeps t s' = ((u : ℕ) → s'.refs u ≡ t.refs u) × (s'.cwd ≡ t.cwd) × (s'.root ≡ t.root)

-- A creation takes a reference to the vnode that it returns and makes no directory, or changes
-- nothing.
abbrev pub Creates : Names → Looked × Names → Type 0
Creates s (found v, s') =
    Keeps (took v s) s' × ((u : ℕ) → is_directory (s'.kind u) ≡ is_directory (s.kind u))
Creates s (failed e, s') = s' ≡ s

-- What the documentation of these operations says. vref and vput count references. lookup follows
-- the entry of a name and takes a reference to the vnode that it returns; without an entry it
-- fails. The operations that return no vnode keep the references of their caller.
pub record Laws (ops : NameOps) : Type 0 where
  pub vref_lem : (v : ℕ) (s : Names) → ops.vref v s ≡ took v s
  pub vput_lem : (v : ℕ) (s : Names) → ops.vput v s ≡ gave v s
  pub lookup-entry :
      (d : ℕ) (f : Name → Names → Looked × Names) (n : Name) (s : Names) (v : ℕ)
      → ops.lookup d ≡ some f
      → s.links d n ≡ some v
      → f n s ≡ (found v, took v s)
  pub lookup-missing :
      (d : ℕ) (f : Name → Names → Looked × Names) (n : Name) (s : Names)
      → ops.lookup d ≡ some f
      → s.links d n ≡ none
      → (e : Errno) × (f n s ≡ (failed e, s))
  pub create-Creates :
      (d : ℕ) (f : Name → Names → Looked × Names) (n : Name) (s : Names)
      → ops.create d ≡ some f
      → Creates s (f n s)
  pub mknod-Keeps :
      (d : ℕ) (f : Name → Names → Status × Names) (n : Name) (s : Names)
      → ops.mknod d ≡ some f
      → Keeps s (f n s).1
  pub mkdir-Keeps :
      (d : ℕ) (f : Name → Names → Status × Names) (n : Name) (s : Names)
      → ops.mkdir d ≡ some f
      → Keeps s (f n s).1
  pub rmdir-Keeps :
      (d : ℕ) (f : Name → Names → Status × Names) (n : Name) (s : Names)
      → ops.rmdir d ≡ some f
      → Keeps s (f n s).1
  pub unlink-Keeps :
      (d : ℕ) (f : Name → Names → Status × Names) (n : Name) (s : Names)
      → ops.unlink d ≡ some f
      → Keeps s (f n s).1
  pub link-Keeps :
      (v : ℕ) (f : ℕ → Name → Names → Status × Names) (d : ℕ) (n : Name) (s : Names)
      → ops.link d ≡ some f
      → Keeps s (f v n s).1
  pub stat-Same :
      (v : ℕ) (f : Names → Status × Names) (s : Names) → ops.stat v ≡ some f → Same s (f s).1

pub Same-trans : (r s t : Names) → Same r s → Same s t → Same r t
Same-trans r s t h k = ((λ u. k.0 u ∙ h.0 u), k.1 ∙ h.1, k.2 ∙ h.2, k.3 ∙ h.3, k.4 ∙ h.4)

-- Giving back what was taken.
pub gave-Same : (v : ℕ) (r s : Names) → Same (took v r) s → Same r (gave v s)
gave-Same v r s h = ((λ u. ground (arith, h.0 u, h.0 v)), h.1, h.2, h.3, h.4)

pub took-Same : (v : ℕ) (r s : Names) → Same r s → Same (took v r) (took v s)
took-Same v r s h = ((λ u. ground (arith, h.0 u, h.0 v)), h.1, h.2, h.3, h.4)

-- The reference that was taken first is given back first.
pub gave-took-Same :
    (p v : ℕ) (r s : Names) → Same (took p r) s → Same (took v r) (gave p (took v s))
gave-took-Same p v r s h = ((λ u. ground (arith, h.0 u, h.0 v, h.0 p)), h.1, h.2, h.3, h.4)
