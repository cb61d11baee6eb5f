-- ===== src/Fs/PathCalls/Directories.antt =====
-- do_mknod, do_mkdir and do_rmdir on every branch.
use weenix_kernel.Base.{
  ℕ, ◌≡◌, refl, sym, ap, ◌∙◌, true, Option, none, some, if◌then◌else◌, length, inl, inr, Bool-cases,
  ltb,
}
use weenix_kernel.Base.Outcome.{Outcome, panic, Ends}
use weenix_kernel.Fs.Layer.{Kind, Errno, eexist, einval, enotempty, enametoolong}
use weenix_kernel.Fs.Calls.{is_directory}
use weenix_kernel.Fs.Names.{Name, Names, Status, Laws, Same, took, gave, gave-Same}
use weenix_kernel.Fs.Path.{take, Place, Res, good, bad}
use weenix_kernel.Fs.Path.Resolve.{entry}
use weenix_kernel.Fs.Path.Parent.{IsFit, Resolved}
use weenix_kernel.Fs.PathCalls.{
  PathEnv, dot, dots, zero?, mknod_looked, mknod_in, do_mknod, mkdir_looked, mkdir_in, do_mkdir,
  rmdir_in, do_rmdir,
}
use weenix_kernel.Fs.PathCalls.References.{
  Complete, OnlyEnoent, Rooted, Refused, Runs, gave-both-Same, parent-directory, look_last-cases,
  leads, lasts, in_parent, parent_found,
}

module _ (env : PathEnv) where
  open env use {ops}

  -- What an entry decides for do_mkdir.
  abbrev pub MadeAt : Names → ℕ → Name → Option ℕ → Status × Names → Type 0
  MadeAt s p last (some v) r = Refused s eexist r
  MadeAt s p last none r =
      (f : Name → Names → Status × Names) × (ops.mkdir p ≡ some f) × Runs s p last f r

  abbrev pub Made : Names → Option ℕ → Name → Status × Names → Type 0
  Made s none last r = (e : Errno) × Refused s e r
  Made s (some p) last r =
      if ltb env.name_len (length last)
      then Refused s enametoolong r
      else (if zero? (length last)
          then Refused s eexist r
          else MadeAt s p last (entry ops s.links p last) r)

  module _ (laws : Laws ops) (only : OnlyEnoent ops) where
    mkdir_in-Made :
        (o : Option ℕ) (last : Name) (s : Names) (r : Res Place × Names)
        → Complete ops s.kind
        → ((p : ℕ) → o ≡ some p → is_directory (s.kind p) ≡ true)
        → Resolved ops s o last r
        → Ends (Made s o last) (mkdir_in env r)
    unfolding mkdir_in mkdir_looked
    mkdir_in-Made o last s (bad e, s1) all dir h = rw (h.0) (e, (refl, h.1))
    mkdir_in-Made o last s (good p, s1) all dir (at, (name, has, len, is), h) =
        let d : is_directory (s.kind p.parent) ≡ true = dir p.parent at in
        let d1 : is_directory (s1.kind p.parent) ≡ true =
          ap (λ (k : ℕ → Kind). is_directory (k p.parent)) h.1 ∙ d in
        let closed : Same s (gave p.parent s1) = gave-Same p.parent s s1 h in
        let long = ap (λ (n : ℕ). ltb env.name_len n) len in
        let empty = ap (λ (n : ℕ). zero? n) len in
        rw at (elim (Bool-cases (ltb env.name_len (length last))) [
          | inl b ↦ rw (long ∙ b) rw (laws.vput_lem p.parent s1) rw b (refl, closed)
          | inr b ↦ rw (long ∙ b) (elim (Bool-cases (zero? (length last))) [
            | inl z ↦ rw (empty ∙ z) rw (laws.vput_lem p.parent s1) rw b rw z (refl, closed)
            | inr z ↦
                let (f, has_it) = all.mkdir p.parent d in
                rw (empty ∙ z) rw d1 rw has_it
                  (elim (look_last-cases env laws s s1 p last name has is h only all d) [
                    | inl (v, entry_at, here) ↦
                        rw here rw (laws.vput_lem v (took v s1)) rw
                          (laws.vput_lem p.parent (gave v (took v s1))) rw b rw z rw entry_at
                          (refl, gave-both-Same p.parent v s s1 h)
                    | inr (entry_at, here) ↦
                        rw here rw has_it rw has rw is rw (laws.vput_lem p.parent (f last s1).1) rw
                          b rw z rw entry_at (f, has_it, (s1, h, refl, refl))
                  ])
          ])
        ])

    -- do_mkdir does not panic where its path is fit, walks start in directories, directories have all
    -- operations, and the lookup of a name without an entry fails with ENOENT only. It fails and leaves everything as it was if the parent does not resolve,
    -- with ENAMETOOLONG for a last component that is too long, and with EEXIST for one that is empty or
    -- has an entry; else it is what the parent's mkdir does, and gives the parent back.
    pub do_mkdir-Made :
        (path : Name) (s : Names)
        → IsFit env.beyond path
        → Rooted s
        → Complete ops s.kind
        → Ends (Made s (leads env path s) (lasts env path)) (do_mkdir env path s)
    unfolding do_mkdir
    do_mkdir-Made path s fit rooted all =
        in_parent env laws path s (Made s (leads env path s) (lasts env path)) (mkdir_in env) fit
          (λ r h.
            mkdir_in-Made (leads env path s) (lasts env path) s r all
              (λ p e. parent-directory env path s p rooted e) h)

    -- do_rmdir.
    abbrev pub Removed : Names → Option ℕ → Name → Status × Names → Type 0
    Removed s none last r = (e : Errno) × Refused s e r
    Removed s (some p) last r =
        (name : Name) × (take (length last) name ≡ last)
        × (if env.matches dot name (length last)
            then Refused s einval r
            else (if env.matches dots name (length last)
                then Refused s enotempty r
                else (f : Name → Names → Status × Names) × (ops.rmdir p ≡ some f)
                  × Runs s p last f r))

    rmdir_in-Removed :
        (o : Option ℕ) (last : Name) (s : Names) (r : Res Place × Names)
        → Complete ops s.kind
        → ((p : ℕ) → o ≡ some p → is_directory (s.kind p) ≡ true)
        → Resolved ops s o last r
        → Ends (Removed s o last) (rmdir_in env r)
    unfolding rmdir_in
    rmdir_in-Removed o last s (bad e, s1) all dir h = rw (h.0) (e, (refl, h.1))
    rmdir_in-Removed o last s (good p, s1) all dir (at, (name, has, len, is), h) =
        let d : is_directory (s.kind p.parent) ≡ true = dir p.parent at in
        let d1 : is_directory (s1.kind p.parent) ≡ true =
          ap (λ (k : ℕ → Kind). is_directory (k p.parent)) h.1 ∙ d in
        let closed : Same s (gave p.parent s1) = gave-Same p.parent s s1 h in
        let (f, has_it) = all.rmdir p.parent d in
        let same = λ (n : Name). ap (λ (k : ℕ). env.matches n name k) len in
        let short : take (length last) name ≡ last = ap (λ (k : ℕ). take k name) (sym len) ∙ is in
        rw at rw d1 rw has (elim (Bool-cases (env.matches dot name (length last))) [
          | inl b ↦
              rw (same dot ∙ b) rw (laws.vput_lem p.parent s1) (name, short, rw b (refl, closed))
          | inr b ↦ rw (same dot ∙ b) (elim (Bool-cases (env.matches dots name (length last))) [
            | inl z ↦
                rw (same dots ∙ z) rw (laws.vput_lem p.parent s1)
                  (name, short, rw b rw z (refl, closed))
            | inr z ↦
                rw (same dots ∙ z) rw has_it rw is rw (laws.vput_lem p.parent (f last s1).1)
                  (name, short, rw b rw z (f, has_it, (s1, h, refl, refl)))
          ])
        ])

    pub do_rmdir-Removed :
        (path : Name) (s : Names)
        → IsFit env.beyond path
        → Rooted s
        → Complete ops s.kind
        → Ends (Removed s (leads env path s) (lasts env path)) (do_rmdir env path s)
    unfolding do_rmdir
    do_rmdir-Removed path s fit rooted all =
        in_parent env laws path s (Removed s (leads env path s) (lasts env path)) (rmdir_in env) fit
          (λ r h.
            rmdir_in-Removed (leads env path s) (lasts env path) s r all
              (λ p e. parent-directory env path s p rooted e) h)

    -- do_mknod, which panics where the parent does not resolve, and where there is an entry.
    abbrev pub NodeAt : Names → ℕ → Name → Option ℕ → Outcome (Status × Names) → Type 0
    NodeAt s p last (some v) r = r ≡ panic
    NodeAt s p last none r =
        (f : Name → Names → Status × Names) × (ops.mknod p ≡ some f) × Ends (Runs s p last f) r

    abbrev pub Node : Names → Option ℕ → Name → Outcome (Status × Names) → Type 0
    Node s none last r = r ≡ panic
    Node s (some p) last r = NodeAt s p last (entry ops s.links p last) r

    mknod_in-Node :
        (o : Option ℕ) (last : Name) (s : Names) (r : Res Place × Names)
        → Complete ops s.kind
        → ((p : ℕ) → o ≡ some p → is_directory (s.kind p) ≡ true)
        → Resolved ops s o last r
        → Node s o last (mknod_in env r)
    unfolding mknod_in mknod_looked
    mknod_in-Node o last s (bad e, s1) all dir h = rw (h.0) refl
    mknod_in-Node o last s (good p, s1) all dir (at, (name, has, len, is), h) =
        let d : is_directory (s.kind p.parent) ≡ true = dir p.parent at in
        let (f, has_it) = all.mknod p.parent d in
        rw at rw has_it (elim (look_last-cases env laws s s1 p last name has is h only all d) [
          | inl (v, entry_at, here) ↦ rw here rw entry_at refl
          | inr (entry_at, here) ↦
              rw here rw has_it rw has rw is rw (laws.vput_lem p.parent (f last s1).1) rw entry_at
                (f, has_it, (s1, h, refl, refl))
        ])

    -- do_mknod panics exactly where the parent does not resolve or the last component has an entry,
    -- for fit paths, walks that start in directories, and directories that have all operations, and
    -- whose lookup of a name without an entry fails with ENOENT only. Else it is what the parent's mknod does, and gives the parent back.
    pub do_mknod-Node :
        (path : Name) (s : Names)
        → IsFit env.beyond path
        → Rooted s
        → Complete ops s.kind
        → Node s (leads env path s) (lasts env path) (do_mknod env path s)
    unfolding do_mknod
    do_mknod-Node path s fit rooted all =
        let (r, is, h) = parent_found env laws path s fit in
        rw is (
          mknod_in-Node (leads env path s) (lasts env path) s r all
            (λ p e. parent-directory env path s p rooted e) h)
