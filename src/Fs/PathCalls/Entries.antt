-- ===== src/Fs/PathCalls/Entries.antt =====
-- do_unlink, do_chdir and do_stat on every branch.
use weenix_kernel.Base.{
  ℕ, ◌≡◌, refl, sym, ap, subst, ◌∙◌, true, false, Option, none, some, [], if◌then◌else◌, length,
  inl, inr, Bool-cases,
}
use weenix_kernel.Base.Outcome.{Outcome, ok, panic, ◌>>=◌, Ends}
use weenix_kernel.Fs.Layer.{Kind, Errno, enotdir, enoent, einval, eperm}
use weenix_kernel.Fs.Calls.{is_directory}
use weenix_kernel.Fs.Names.{
  Name, Names, failed, Status, done, fails, Laws, Same, took, gave, gave-Same, took-Same,
  gave-took-Same, Same-trans,
}
use weenix_kernel.Fs.Path.{is_empty, take, Place, Res, good, bad, look}
use weenix_kernel.Fs.Path.Resolve.{entry}
use weenix_kernel.Fs.Path.Parent.{IsFit, Resolved}
use weenix_kernel.Fs.PathCalls.{
  PathEnv, dot, zero?, look_last, unlink_looked, unlink_in, do_unlink, chdir_looked, chdir_in,
  do_chdir, stat_looked, stat_in, do_stat,
}
use weenix_kernel.Fs.PathCalls.References.{
  Complete, OnlyEnoent, Rooted, Refused, gave-both-Same, gave-first-Same, gave-held-Same,
  parent-directory, look_last-looked, look_last-cases, leads, lasts, in_parent, parent_found,
}

module _ (env : PathEnv) where
  open env use {ops}

  -- do_unlink, with both the parent and the vnode of the entry held.
  abbrev pub UnlinkedAt : Names → ℕ → Name → Option ℕ → Status × Names → Type 0
  UnlinkedAt s p last none r = Refused s enoent r
  UnlinkedAt s p last (some v) r =
      if is_directory (s.kind v)
      then Refused s eperm r
      else (f : Name → Names → Status × Names) × (t : Names) × (ops.unlink p ≡ some f)
        × Same (took v (took p s)) t
        × (r ≡ ((f last t).0, gave v (gave p (f last t).1)))

  abbrev pub Unlinked : Names → Option ℕ → Name → Status × Names → Type 0
  Unlinked s none last r = (e : Errno) × Refused s e r
  Unlinked s (some p) last r = UnlinkedAt s p last (entry ops s.links p last) r

  -- do_chdir.
  abbrev moved : ℕ → ℕ → Names → Status × Names
  moved c v t = (done, record (gave c t) { cwd = v })

  abbrev pub MovedAt : Names → ℕ → Name → Option ℕ → Status × Names → Type 0
  MovedAt s p last none r =
      (e : Errno) × (t : Names) × Same (took p s) t
      × (look ops p last t ≡ (failed e, t))
      × Refused s e r
  MovedAt s p last (some v) r =
      if is_directory (s.kind v)
      then ((t : Names) × Same (took v s) t × (r ≡ (done, record (gave s.cwd t) { cwd = v })))
      else Refused s enotdir r

  abbrev pub Moved : Names → Option ℕ → Name → Outcome (Status × Names) → Type 0
  Moved s none last r = r ≡ panic
  Moved s (some p) last r = Ends (MovedAt s p last (entry ops s.links p last)) r

  -- do_stat.
  abbrev pub StattedAt : Names → Option ℕ → Status × Names → Type 0
  StattedAt s none r = Refused s enoent r
  StattedAt s (some v) (st, s') = (st ≡ done) × Same s s'

  abbrev pub Statted : Names → Option ℕ → Name → Status × Names → Type 0
  Statted s none last r = (e : Errno) × Refused s e r
  Statted s (some p) last r =
      StattedAt s (entry ops s.links p (if zero? (length last) then dot else last)) r

  module _ (laws : Laws ops) where
    chdir_in-Moved :
        (o : Option ℕ) (last : Name) (s : Names) (r : Res Place × Names)
        → Resolved ops s o last r
        → Moved s o last (chdir_in env r)
    unfolding chdir_in chdir_looked
    chdir_in-Moved o last s (bad e, s1) h = rw (h.0) refl
    chdir_in-Moved o last s (good p, s1) (at, (name, has, len, is), h) =
        rw at (elim (look_last-looked env laws s s1 p last name has is h) [
          | inl (v, entry_at, here) ↦ rw here (elim (Bool-cases (is_directory (s.kind v))) [
            | inl b ↦
                let t = gave p.parent (took v s1) in
                rw (ap (λ (k : ℕ → Kind). is_directory (k v)) h.1 ∙ b) rw
                  (laws.vput_lem p.parent (took v s1)) rw (laws.vput_lem s1.cwd t) rw entry_at rw b
                  (t, gave-took-Same p.parent v s s1 h, ap (λ (c : ℕ). moved c v t) h.3)
            | inr b ↦
                rw (ap (λ (k : ℕ → Kind). is_directory (k v)) h.1 ∙ b) rw
                  (laws.vput_lem v (took v s1)) rw (laws.vput_lem p.parent (gave v (took v s1))) rw
                  entry_at rw b (refl, gave-both-Same p.parent v s s1 h)
          ])
          | inr (entry_at, (e, looked, here)) ↦
              rw here rw (laws.vput_lem p.parent s1) rw entry_at
                (e, s1, h, looked, (refl, gave-Same p.parent s s1 h))
        ])

    -- For a fit path, do_chdir panics exactly where the parent of the path does not resolve. Else it
    -- fails with the error of the lookup where the last component has no entry, and with ENOTDIR where
    -- that is no directory, and leaves everything as it was; or it makes the directory that the path
    -- names the working directory, with one more reference, and takes one from the old one.
    pub do_chdir-Moved :
        (path : Name) (s : Names)
        → IsFit env.beyond path
        → Moved s (leads env path s) (lasts env path) (do_chdir env path s)
    unfolding do_chdir
    do_chdir-Moved path s fit =
        let (r, is, h) = parent_found env laws path s fit in
        rw is (chdir_in-Moved (leads env path s) (lasts env path) s r h)

  module _ (laws : Laws ops) (only : OnlyEnoent ops) where
    unlink_in-Unlinked :
        (o : Option ℕ) (last : Name) (s : Names) (r : Res Place × Names)
        → Complete ops s.kind
        → ((p : ℕ) → o ≡ some p → is_directory (s.kind p) ≡ true)
        → Resolved ops s o last r
        → Ends (Unlinked s o last) (unlink_in env r)
    unfolding unlink_in unlink_looked
    unlink_in-Unlinked o last s (bad e, s1) all dir h = rw (h.0) (e, (refl, h.1))
    unlink_in-Unlinked o last s (good p, s1) all dir (at, (name, has, len, is), h) =
        let d : is_directory (s.kind p.parent) ≡ true = dir p.parent at in
        let (f, has_it) = all.unlink p.parent d in
        rw at (elim (look_last-cases env laws s s1 p last name has is h only all d) [
          | inl (v, entry_at, here) ↦ rw here (elim (Bool-cases (is_directory (s.kind v))) [
            | inl b ↦
                rw (ap (λ (k : ℕ → Kind). is_directory (k v)) h.1 ∙ b) rw
                  (laws.vput_lem p.parent (took v s1)) rw
                  (laws.vput_lem v (gave p.parent (took v s1))) rw entry_at rw b
                  (refl, gave-first-Same p.parent v s s1 h)
            | inr b ↦
                let t = took v s1 in
                let u = (f last t).1 in
                rw (ap (λ (k : ℕ → Kind). is_directory (k v)) h.1 ∙ b) rw has_it rw has rw is rw
                  (laws.vput_lem p.parent u) rw (laws.vput_lem v (gave p.parent u)) rw entry_at rw b
                  (f, t, has_it, took-Same v (took p.parent s) s1 h, refl)
          ])
          | inr (entry_at, here) ↦
              rw here rw (laws.vput_lem p.parent s1) rw entry_at (refl, gave-Same p.parent s s1 h)
        ])

    stat_looked-Statted :
        (s s1 : Names) (p : Place) (last name : Name)
        → p.name ≡ some name
        → take p.len name ≡ last
        → Same (took p.parent s) s1
        → Complete ops s.kind
        → is_directory (s.kind p.parent) ≡ true
        → Ends
            (StattedAt s (entry ops s.links p.parent last))
            (look_last env p s1 >>= stat_looked env p)
    unfolding stat_looked
    stat_looked-Statted s s1 p last name has is h all d =
        elim (look_last-cases env laws s s1 p last name has is h only all d) [
          | inl (v, entry_at, here) ↦
              let (f, has_it) = all.stat v in
              let t = (f (took v s1)).1 in
              let same : Same (took v s1) t = laws.stat-Same v f (took v s1) has_it in
              let both : Same (took v (took p.parent s)) t =
                Same-trans (took v (took p.parent s)) (took v s1) t
                  (took-Same v (took p.parent s) s1 h) same in
              rw here rw has_it rw (laws.vput_lem p.parent t) rw (laws.vput_lem v (gave p.parent t))
                rw entry_at (refl, gave-held-Same p.parent v s t both)
          | inr (entry_at, here) ↦
              rw here rw (laws.vput_lem p.parent s1) rw entry_at (refl, gave-Same p.parent s s1 h)
        ]

    stat_in-Statted :
        (o : Option ℕ) (last : Name) (s : Names) (r : Res Place × Names)
        → Complete ops s.kind
        → ((p : ℕ) → o ≡ some p → is_directory (s.kind p) ≡ true)
        → Resolved ops s o last r
        → Ends (Statted s o last) (stat_in env r)
    unfolding stat_in
    stat_in-Statted o last s (bad e, s1) all dir h = rw (h.0) (e, (refl, h.1))
    stat_in-Statted o last s (good p, s1) all dir (at, (name, has, len, is), h) =
        let d : is_directory (s.kind p.parent) ≡ true = dir p.parent at in
        let same = ap (λ (k : ℕ). zero? k) len in
        let goal = λ (n : Name) (q : Place).
          Ends (StattedAt s (entry ops s.links p.parent n))
            (look_last env q s1 >>= stat_looked env q) in
        rw at (elim (Bool-cases (zero? (length last))) [
          | inl z ↦
              let found_dot : (if zero? (length last) then dot else last) ≡ dot = rw z refl in
              rw (same ∙ z) (
                subst (λ n. goal n (record p { name = some dot; len = 1 })) (sym found_dot)
                  (stat_looked-Statted s s1 (record p { name = some dot; len = 1 }) dot dot refl
                    refl h all d))
          | inr z ↦
              let found_last : (if zero? (length last) then dot else last) ≡ last = rw z refl in
              rw (same ∙ z) (
                subst (λ n. goal n p) (sym found_last)
                  (stat_looked-Statted s s1 p last name has is h all d))
        ])

    pub do_unlink-Unlinked :
        (path : Name) (s : Names)
        → IsFit env.beyond path
        → Rooted s
        → Complete ops s.kind
        → Ends (Unlinked s (leads env path s) (lasts env path)) (do_unlink env path s)
    unfolding do_unlink
    do_unlink-Unlinked path s fit rooted all =
        in_parent env laws path s (Unlinked s (leads env path s) (lasts env path)) (unlink_in env)
          fit
          (λ r h.
            unlink_in-Unlinked (leads env path s) (lasts env path) s r all
              (λ p e. parent-directory env path s p rooted e) h)

    pub do_stat-Statted :
        (path : Name) (s : Names)
        → is_empty path ≡ false
        → IsFit env.beyond path
        → Rooted s
        → Complete ops s.kind
        → Ends (Statted s (leads env path s) (lasts env path)) (do_stat env path s)
    unfolding do_stat
    do_stat-Statted path s text fit rooted all = rw text (
        in_parent env laws path s (Statted s (leads env path s) (lasts env path)) (stat_in env) fit
          (λ r h.
            stat_in-Statted (leads env path s) (lasts env path) s r all
              (λ p e. parent-directory env path s p rooted e) h))

    pub do_stat-empty : (s : Names) → do_stat env [] s ≡ ok (fails einval, s)
    unfolding do_stat
    do_stat-empty s = refl
