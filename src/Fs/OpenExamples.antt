-- ===== src/Fs/OpenExamples.antt =====
-- do_open at a small tree: the root 0 has a file 2, called f. The file 5 is the next one.
use weenix_kernel.Base.{ℕ, ◌-◌, Bool, false, ◌&&◌, Option, none, some, [], ◌∷◌, ◌==◌, if◌then◌else◌}
use weenix_kernel.Base.Int.{pos}
use weenix_kernel.Fs.Layer.{Mode, File, directory, regular, enoent, update}
use weenix_kernel.Fs.Names.{Name, Names, Looked, found, failed, NameOps, took, gave}
use weenix_kernel.Fs.Path.{starts}
use weenix_kernel.Fs.Open.{Flags, World, Files}
use weenix_kernel.Fs.Open.Opens.{Opens}

abbrev same_name : Name → Name → Bool
same_name m n = starts m n && starts n m

abbrev follow_entry : Option ℕ → Names → Looked × Names
follow_entry none s = (failed enoent, s)
follow_entry (some v) s = (found v, took v s)

abbrev ops : NameOps
ops = record {
  lookup = λ d. some (λ n s. follow_entry (s.links d n) s);
  create = λ d. none;
  mknod = λ d. none;
  mkdir = λ d. none;
  rmdir = λ d. none;
  unlink = λ d. none;
  link = λ d. none;
  stat = λ v. none;
  vref = took;
  vput = gave;
}

abbrev tree : Names
tree = record {
  refs = λ u. if u == 0 then 3 else 0;
  kind = λ u. if u == 2 then regular else directory;
  links = λ d n. if d == 0 && same_name n (102 ∷ []) then some 2 else none;
  cwd = 0;
  root = 0;
}

abbrev no_mode : Mode
no_mode = record { reads = false; writes = false; appends = false }

abbrev blank : File
blank = record { mode = no_mode; position = pos 0; vnode = 0; refcount = 0 }

-- The descriptor 0 is in use.
abbrev world : World
world = record {
  fs = record {
    files = λ u. record blank { refcount = 1 };
    fds = λ d. if d == 0 then some 1 else none;
    vnodes = λ v. record { kind = regular; len = pos 0 };
  };
  names = tree;
  has_vnode = λ f. f == 1;
}

abbrev given : Bool → ℕ → Names → Names
given b v s = if b then gave v s else s

abbrev files : Files
files = record {
  fresh = λ w. (
    some 5,
    record w {
      fs = record w.fs { files = update w.fs.files 5 (record blank { refcount = 1 }) };
      has_vnode = update w.has_vnode 5 false;
    },
  );
  fput = λ f w. record w {
    fs = record w.fs {
      files =
          update w.fs.files f (record (w.fs.files f) { refcount = (w.fs.files f).refcount - 1 });
    };
    names = if w.has_vnode f then gave (w.fs.files f).vnode w.names else w.names;
  };
}

-- f, with O_RDWR.
abbrev path : Name
path = 102 ∷ []

abbrev flags : Flags
flags = record { access = 2; appends = false; creates = false }
