-- ===== src/Fs/PathCalls/Balance.antt =====
-- Every call that takes paths gives back the references that it takes.
use weenix_kernel.Base.{
  ℕ, ◌+◌, ◌≤◌, ◌≡◌, refl, sym, subst, ◌∙◌, Bool, true, false, Option, none, some, [], ◌∷◌,
  if◌then◌else◌, ◌==◌, length, arith, ltb,
}
use weenix_kernel.Base.Outcome.{Ends, Ends-mono}
use weenix_kernel.Fs.Calls.{is_directory}
use weenix_kernel.Fs.Names.{Name, Names, Status, Laws, Keeps, took}
use weenix_kernel.Fs.Path.Resolve.{entry}
use weenix_kernel.Fs.Path.Parent.{IsFit}
use weenix_kernel.Fs.PathCalls.{
  PathEnv, dot, dots, zero?, Result, do_mknod, do_mkdir, do_rmdir, do_unlink, do_rename, do_chdir,
  do_stat,
}
use weenix_kernel.Fs.PathCalls.References.{
  Complete, OnlyEnoent, Rooted, Runs, Keeps-Same, Keeps-trans, gave-Keeps, leads, lasts,
}
use weenix_kernel.Fs.PathCalls.Directories.{
  MadeAt, Made, Removed, Node, NodeAt, do_mkdir-Made, do_rmdir-Removed, do_mknod-Node,
}
use weenix_kernel.Fs.PathCalls.Entries.{
  Unlinked, UnlinkedAt, Moved, MovedAt, Statted, StattedAt, do_unlink-Unlinked, do_chdir-Moved,
  do_stat-Statted, do_stat-empty,
}
use weenix_kernel.Fs.PathCalls.Links.{do_rename-Keeps}

pub data PathCall : Type 0 where
  mknod mkdir rmdir unlink chdir stat : Name → PathCall
  rename : Name → Name → PathCall

-- The references to a vnode that are not the working directory's are as many as before.
abbrev pub Balanced : Names → Status × Names → Type 0
Balanced s (st, s') =
    (u : ℕ) → s'.refs u + (if s.cwd == u then 1 else 0) ≡ s.refs u + (if s'.cwd == u then 1 else 0)

Balanced-Keeps : (s : Names) (r : Status × Names) → Keeps s r.1 → Balanced s r
Balanced-Keeps s (st, s') h u = ground (arith, h.0 u, h.1)

by_test : (b : Bool) {A B : Type 0} (C : Type 0) → (A → C) → (B → C) → (if b then A else B) → C
by_test true C f g h = f h
by_test false C f g h = g h

module _ (env : PathEnv) where
  open env use {ops}

  pub run : PathCall → Names → Result
  run (mknod path) s = do_mknod env path s
  run (mkdir path) s = do_mkdir env path s
  run (rmdir path) s = do_rmdir env path s
  run (unlink path) s = do_unlink env path s
  run (chdir path) s = do_chdir env path s
  run (stat path) s = do_stat env path s
  run (rename old new) s = do_rename env old new s

  -- The paths are fit, and do_mknod and do_chdir have what they panic without.
  abbrev pub IsSafe : PathCall → Names → Type 0
  IsSafe (mknod path) s =
      IsFit env.beyond path
      × ((p : ℕ) × (leads env path s ≡ some p) × (entry ops s.links p (lasts env path) ≡ none))
  IsSafe (chdir path) s = IsFit env.beyond path × ((p : ℕ) × (leads env path s ≡ some p))
  IsSafe (mkdir path) s = IsFit env.beyond path
  IsSafe (rmdir path) s = IsFit env.beyond path
  IsSafe (unlink path) s = IsFit env.beyond path
  IsSafe (stat path) s = IsFit env.beyond path
  IsSafe (rename old new) s = IsFit env.beyond old × IsFit env.beyond new

  module _ (laws : Laws ops) (only : OnlyEnoent ops) where
    Runs-Keeps :
        (s : Names) (p : ℕ) (last : Name) (f : Name → Names → Status × Names) (r : Status × Names)
        → ((t : Names) → Keeps t (f last t).1)
        → Runs s p last f r
        → Keeps s r.1
    Runs-Keeps s p last f (st, s') keeps (t, h, _, is) =
        subst (λ (x : Names). Keeps s x) (laws.vput_lem p (f last t).1 ∙ sym is)
          (gave-Keeps env laws p s (f last t).1
            (Keeps-trans (took p s) t (f last t).1 (Keeps-Same (took p s) t h) (keeps t)))

    MadeAt-Keeps :
        (s : Names) (p : ℕ) (last : Name) (o : Option ℕ) (r : Status × Names)
        → MadeAt env s p last o r
        → Keeps s r.1
    MadeAt-Keeps s p last (some v) r h = Keeps-Same s r.1 h.1
    MadeAt-Keeps s p last none r (f, has_it, ran) =
        Runs-Keeps s p last f r (λ t. laws.mkdir-Keeps p f last t has_it) ran

    Made-Keeps :
        (s : Names) (o : Option ℕ) (last : Name) (r : Status × Names)
        → Made env s o last r
        → Keeps s r.1
    Made-Keeps s none last r (e, h) = Keeps-Same s r.1 h.1
    Made-Keeps s (some p) last r h =
        by_test (ltb env.name_len (length last)) (Keeps s r.1) (λ h. Keeps-Same s r.1 h.1)
          (λ h.
            by_test (zero? (length last)) (Keeps s r.1) (λ h. Keeps-Same s r.1 h.1)
              (λ h. MadeAt-Keeps s p last (entry ops s.links p last) r h) h)
          h

    Removed-Keeps :
        (s : Names) (o : Option ℕ) (last : Name) (r : Status × Names)
        → Removed env laws only s o last r
        → Keeps s r.1
    Removed-Keeps s none last r (e, h) = Keeps-Same s r.1 h.1
    Removed-Keeps s (some p) last r (name, _, h) =
        by_test (env.matches dot name (length last)) (Keeps s r.1) (λ h. Keeps-Same s r.1 h.1)
          (λ h.
            by_test (env.matches dots name (length last)) (Keeps s r.1) (λ h. Keeps-Same s r.1 h.1)
              (λ (f, has_it, ran).
                Runs-Keeps s p last f r (λ t. laws.rmdir-Keeps p f last t has_it) ran)
              h)
          h

    NodeAt-Keeps :
        (s : Names) (p : ℕ) (last : Name) (o : Option ℕ) (r : Result)
        → o ≡ none
        → NodeAt env laws only s p last o r
        → Ends (λ d. Keeps s d.1) r
    NodeAt-Keeps s p last (some v) r e h = cc e
    NodeAt-Keeps s p last none r e (f, has_it, ran) =
        Ends-mono (Runs s p last f) (λ d. Keeps s d.1) r
          (λ d h. Runs-Keeps s p last f d (λ t. laws.mknod-Keeps p f last t has_it) h) ran

    UnlinkedAt-Keeps :
        (s : Names) (p : ℕ) (last : Name) (o : Option ℕ) (r : Status × Names)
        → UnlinkedAt env s p last o r
        → Keeps s r.1
    UnlinkedAt-Keeps s p last none r h = Keeps-Same s r.1 h.1
    UnlinkedAt-Keeps s p last (some v) r h =
        by_test (is_directory (s.kind v)) (Keeps s r.1) (λ h. Keeps-Same s r.1 h.1)
          (λ (f, t, has_it, held, is).
            let u = (f last t).1 in
            let kept : Keeps (took v (took p s)) u =
              Keeps-trans (took v (took p s)) t u (Keeps-Same (took v (took p s)) t held)
                (laws.unlink-Keeps p f last t has_it) in
            subst (λ (x : Status × Names). Keeps s x.1) (sym is)
              ((λ w. ground (arith, kept.0 w, kept.0 v, kept.0 p)), kept.1, kept.2))
          h

    Unlinked-Keeps :
        (s : Names) (o : Option ℕ) (last : Name) (r : Status × Names)
        → Unlinked env s o last r
        → Keeps s r.1
    Unlinked-Keeps s none last r (e, h) = Keeps-Same s r.1 h.1
    Unlinked-Keeps s (some p) last r h = UnlinkedAt-Keeps s p last (entry ops s.links p last) r h

    StattedAt-Keeps :
        (s : Names) (o : Option ℕ) (r : Status × Names) → StattedAt env s o r → Keeps s r.1
    StattedAt-Keeps s none r h = Keeps-Same s r.1 h.1
    StattedAt-Keeps s (some v) r h = Keeps-Same s r.1 h.1

    Statted-Keeps :
        (s : Names) (o : Option ℕ) (last : Name) (r : Status × Names)
        → Statted env s o last r
        → Keeps s r.1
    Statted-Keeps s none last r (e, h) = Keeps-Same s r.1 h.1
    Statted-Keeps s (some p) last r h =
        StattedAt-Keeps s (entry ops s.links p (if zero? (length last) then dot else last)) r h

    MovedAt-Balanced :
        (s : Names) (p : ℕ) (last : Name) (o : Option ℕ) (r : Status × Names)
        → 1 ≤ s.refs s.cwd
        → MovedAt env s p last o r
        → Balanced s r
    MovedAt-Balanced s p last none r held (e, t, _, _, h) =
        Balanced-Keeps s r (Keeps-Same s r.1 h.1)
    MovedAt-Balanced s p last (some v) r held h =
        by_test (is_directory (s.kind v)) (Balanced s r)
          (λ (t, h, is). subst (Balanced s) (sym is) (λ u. ground (arith, h.0 u, h.0 s.cwd)))
          (λ h. Balanced-Keeps s r (Keeps-Same s r.1 h.1)) h

    -- Each call that takes paths (do_mknod, do_mkdir, do_rmdir, do_unlink, do_chdir, do_stat and
    -- do_rename) ends without panic and leaves the references in balance: whatever it returns, each
    -- vnode has as many references as before, but for the one of the working directory, which moves
    -- with it. Paths are fit, walks start in directories, directories have all operations, the lookup of a
    -- name without an entry fails with ENOENT only, the working directory has its reference, and for do_mknod and do_chdir the parent resolves, for
    -- do_mknod to a directory without the entry.
    pub run-Balanced :
        (c : PathCall) (s : Names)
        → Rooted s
        → Complete ops s.kind
        → 1 ≤ s.refs s.cwd
        → IsSafe c s
        → Ends (Balanced s) (run c s)
    unfolding run
    run-Balanced (mkdir path) s rooted all held fit =
        Ends-mono (Made env s (leads env path s) (lasts env path)) (Balanced s)
          (do_mkdir env path s)
          (λ r h. Balanced-Keeps s r (Made-Keeps s (leads env path s) (lasts env path) r h))
          (do_mkdir-Made env laws only path s fit rooted all)
    run-Balanced (rmdir path) s rooted all held fit =
        Ends-mono (Removed env laws only s (leads env path s) (lasts env path)) (Balanced s)
          (do_rmdir env path s)
          (λ r h. Balanced-Keeps s r (Removed-Keeps s (leads env path s) (lasts env path) r h))
          (do_rmdir-Removed env laws only path s fit rooted all)
    run-Balanced (mknod path) s rooted all held (fit, (p, at, free)) =
        let last = lasts env path in
        let node : NodeAt env laws only s p last (entry ops s.links p last) (do_mknod env path s) =
          subst (λ o. Node env laws only s o last (do_mknod env path s)) at
            (do_mknod-Node env laws only path s fit rooted all) in
        Ends-mono (λ d. Keeps s d.1) (Balanced s) (do_mknod env path s)
          (λ r h. Balanced-Keeps s r h)
          (NodeAt-Keeps s p last (entry ops s.links p last) (do_mknod env path s) free node)
    run-Balanced (unlink path) s rooted all held fit =
        Ends-mono (Unlinked env s (leads env path s) (lasts env path)) (Balanced s)
          (do_unlink env path s)
          (λ r h. Balanced-Keeps s r (Unlinked-Keeps s (leads env path s) (lasts env path) r h))
          (do_unlink-Unlinked env laws only path s fit rooted all)
    run-Balanced (stat []) s rooted all held fit = rw (do_stat-empty env laws only s) (λ u. refl)
    run-Balanced (stat (c ∷ path)) s rooted all held fit =
        Ends-mono (Statted env s (leads env (c ∷ path) s) (lasts env (c ∷ path))) (Balanced s)
          (do_stat env (c ∷ path) s)
          (λ r h.
            Balanced-Keeps s r
              (Statted-Keeps s (leads env (c ∷ path) s) (lasts env (c ∷ path)) r h))
          (do_stat-Statted env laws only (c ∷ path) s refl fit rooted all)
    run-Balanced (chdir path) s rooted all held (fit, (p, at)) =
        let last = lasts env path in
        let move : Ends (MovedAt env s p last (entry ops s.links p last)) (do_chdir env path s) =
          subst (λ o. Moved env s o last (do_chdir env path s)) at
            (do_chdir-Moved env laws path s fit) in
        Ends-mono (MovedAt env s p last (entry ops s.links p last)) (Balanced s)
          (do_chdir env path s)
          (λ r h. MovedAt-Balanced s p last (entry ops s.links p last) r held h) move
    run-Balanced (rename old new) s rooted all held (fit, fit') =
        Ends-mono (λ d. Keeps s d.1) (Balanced s) (do_rename env old new s)
          (λ r h. Balanced-Keeps s r h)
          (do_rename-Keeps env laws only old new s fit fit' rooted all)
