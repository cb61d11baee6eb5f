-- ===== src/Fs/PathExamples.antt =====
-- The theorems about paths at a small tree: the root 0 has a directory 1, called a, with a file 2, called f.
use weenix_kernel.Base.{
  ℕ, ◌≡◌, refl, subst, Bool, true, ◌&&◌, Option, none, some, List, [], ◌∷◌, ◌==◌, if◌then◌else◌,
  arith,
}
use weenix_kernel.Base.Outcome.{ok, Ends}
use weenix_kernel.Fs.Layer.{directory, regular, enoent}
use weenix_kernel.Fs.Names.{
  Name, Names, Looked, found, failed, Creates, done, NameOps, Laws, took, gave,
}
use weenix_kernel.Fs.Path.{good, components, dir_namev, open_namev, starts, start}
use weenix_kernel.Fs.Path.Split.{joined, all_slashless, slashless, components-joined}
use weenix_kernel.Fs.Path.Resolve.{follow}
use weenix_kernel.Fs.Path.Parent.{IsFit, Resolved, leading_of, last_of, dir_namev-Resolved}
use weenix_kernel.Fs.Path.Open.{Opened, slash_follows, open_namev-Opened}
use weenix_kernel.Fs.PathCalls.{PathEnv, do_mkdir, do_chdir}
use weenix_kernel.Fs.PathCalls.References.{Complete, OnlyEnoent, Rooted, leads, lasts}
use weenix_kernel.Fs.PathCalls.Directories.{Made, do_mkdir-Made}
use weenix_kernel.Fs.PathCalls.Entries.{Moved, do_chdir-Moved}
use weenix_kernel.Fs.PathCalls.Balance.{rename, Balanced, run, run-Balanced}

abbrev same_name : Name → Name → Bool
same_name m n = starts m n && starts n m

abbrev follow_entry : Option ℕ → Names → Looked × Names
follow_entry none s = (failed enoent, s)
follow_entry (some v) s = (found v, took v s)

abbrev creates_nothing : Name → Names → Looked × Names
creates_nothing n s = (failed enoent, s)

-- The operations do nothing but what their laws ask for.
abbrev ops : NameOps
ops = record {
  lookup = λ d. some (λ n s. follow_entry (s.links d n) s);
  create = λ d. some creates_nothing;
  mknod = λ d. some (λ n s. (done, s));
  mkdir = λ d. some (λ n s. (done, s));
  rmdir = λ d. some (λ n s. (done, s));
  unlink = λ d. some (λ n s. (done, s));
  link = λ d. some (λ v n s. (done, s));
  stat = λ v. some (λ s. (done, s));
  vref = took;
  vput = gave;
}

created_by :
    (f : Name → Names → Looked × Names)
    → ◌≡◌ {A = Option (Name → Names → Looked × Names)} (some creates_nothing) (some f)
    → creates_nothing ≡ f
created_by f e = cc

ops-Laws : Laws ops
ops-Laws = record {
  vref_lem = λ v s. refl;
  vput_lem = λ v s. refl;
  lookup-entry = λ d f n s v e h. ground arith;
  lookup-missing = λ d f n s e h. (enoent, ground arith);
  create-Creates = λ d f n s e.
      subst (λ (g : Name → Names → Looked × Names). Creates s (g n s)) (created_by f e) refl;
  mknod-Keeps = λ d f n s e. ground arith;
  mkdir-Keeps = λ d f n s e. ground arith;
  rmdir-Keeps = λ d f n s e. ground arith;
  unlink-Keeps = λ d f n s e. ground arith;
  link-Keeps = λ v f d n s e. ground arith;
  stat-Same = λ v f s e. ground arith;
}

ops-OnlyEnoent : OnlyEnoent ops
ops-OnlyEnoent d f n s e h = ground arith

ops-Complete : Complete ops (λ u. if u == 2 then regular else directory)
ops-Complete = record {
  lookup = λ d h. (_, refl);
  create = λ d h. (_, refl);
  mknod = λ d h. (_, refl);
  mkdir = λ d h. (_, refl);
  rmdir = λ d h. (_, refl);
  unlink = λ d h. (_, refl);
  link = λ d h. (_, refl);
  stat = λ v. (_, refl);
}

abbrev tree : Names
tree = record {
  refs = λ u. if u == 0 then 3 else 0;
  kind = λ u. if u == 2 then regular else directory;
  links = λ d n.
      if d == 0 && same_name n (97 ∷ [])
      then some 1
      else (if d == 1 && same_name n (102 ∷ []) then some 2 else none);
  cwd = 0;
  root = 0;
}

tree-Rooted : Rooted tree
tree-Rooted = (refl, refl)

abbrev env : PathEnv
env = record { ops = ops; matches = λ m n len. same_name m n; name_len = 28; beyond = [] }

-- /a/f, /a/g and a.
abbrev file_path : Name
file_path = 47 ∷ 97 ∷ 47 ∷ 102 ∷ []

abbrev new_path : Name
new_path = 47 ∷ 97 ∷ 47 ∷ 103 ∷ []

abbrev directory_path : Name
directory_path = 97 ∷ []

file_path-IsFit : IsFit [] file_path
unfolding components
file_path-IsFit = ((λ e. refl), omega arith)

new_path-IsFit : IsFit [] new_path
unfolding components
new_path-IsFit = ((λ e. refl), omega arith)

directory_path-IsFit : IsFit [] directory_path
unfolding components
directory_path-IsFit = ((λ e. refl), omega arith)

components-joined_example :
    (joined (components [] file_path).0 (components [] file_path).1 ≡ file_path)
    × (all_slashless (components [] file_path).1 ≡ true)
    × ((n : Name) (m : List Name)
        → slashless n ≡ true
        → all_slashless m ≡ true
        → components [] (joined (47 ∷ n) m) ≡ (47 ∷ n, m))
components-joined_example = components-joined [] 47 (97 ∷ 47 ∷ 102 ∷ [])

dir_namev-Resolved_example :
    Ends
      (Resolved ops tree
        (follow ops tree (start file_path none tree) (leading_of [] file_path))
        (last_of [] file_path))
      (dir_namev ops [] file_path none tree)
dir_namev-Resolved_example = dir_namev-Resolved ops ops-Laws [] file_path none tree file_path-IsFit

open_namev-Opened_example :
    Ends
      (Opened ops tree true
        (slash_follows new_path (last_of [] new_path))
        (follow ops tree (start new_path none tree) (leading_of [] new_path))
        (last_of [] new_path))
      (open_namev ops [] new_path true none tree)
open_namev-Opened_example =
    open_namev-Opened ops ops-Laws [] new_path true none tree new_path-IsFit (λ d c e. (_, refl))

do_mkdir-Made_example :
    Ends (Made env tree (leads env new_path tree) (lasts env new_path)) (do_mkdir env new_path tree)
do_mkdir-Made_example =
    do_mkdir-Made env ops-Laws ops-OnlyEnoent new_path tree new_path-IsFit tree-Rooted ops-Complete

do_chdir-Moved_example :
    Moved env tree
      (leads env directory_path tree)
      (lasts env directory_path)
      (do_chdir env directory_path tree)
do_chdir-Moved_example = do_chdir-Moved env ops-Laws directory_path tree directory_path-IsFit

run-Balanced_example : Ends (Balanced tree) (run env (rename file_path new_path) tree)
run-Balanced_example =
    run-Balanced env ops-Laws ops-OnlyEnoent (rename file_path new_path) tree tree-Rooted
      ops-Complete (omega arith) (file_path-IsFit, new_path-IsFit)

-- From the working directory, a/f leads through 1 to the entry f.
found_f :
    dir_namev ops [] (97 ∷ 47 ∷ 102 ∷ []) none tree
    ≡ ok (good (record { parent = 1; name = some (102 ∷ []); len = 1 }), took 1 tree)
unfolding dir_namev
found_f = refl
