-- ===== src/Fs/PathCalls/Links.antt =====
-- do_link and do_rename keep the references in balance.
use weenix_kernel.Base.{
  ℕ, ◌≡◌, sym, ap, ◌∙◌, Bool, true, Option, none, some, arith, inl, inr, Bool-cases, ltb,
}
use weenix_kernel.Base.Outcome.{Ends, Ends-bind}
use weenix_kernel.Fs.Layer.{Kind}
use weenix_kernel.Fs.Calls.{is_directory}
use weenix_kernel.Fs.Names.{Name, Names, Status, Laws, Keeps, took}
use weenix_kernel.Fs.Path.{Place, Res, good, bad, open_namev}
use weenix_kernel.Fs.Path.Parent.{IsFit, Resolved}
use weenix_kernel.Fs.Path.Open.{slash_follows, Opened, open_namev-Opened}
use weenix_kernel.Fs.PathCalls.{PathEnv, link_looked, link_in, link_opened, do_link, do_rename}
use weenix_kernel.Fs.PathCalls.References.{
  Complete, OnlyEnoent, Rooted, Keeps-Same, Keeps-trans, Keeps-took, Keeps-swap, gave-Keeps,
  parent-directory, look_last-cases, leads, lasts, in_parent,
}

-- The same vnodes are directories.
abbrev SameDirectories : Names → Names → Type 0
SameDirectories s s' = (u : ℕ) → is_directory (s'.kind u) ≡ is_directory (s.kind u)

module _ (env : PathEnv) (laws : Laws env.ops) (only : OnlyEnoent env.ops) where
  open env use {ops}

  abbrev Settled : Names → Status × Names → Type 0
  Settled s (st, s') = Keeps s s'

  Complete-same : (s s' : Names) → SameDirectories s s' → Complete ops s.kind → Complete ops s'.kind
  Complete-same s s' h all = record {
    lookup = λ d e. all.lookup d (sym (h d) ∙ e);
    create = λ d e. all.create d (sym (h d) ∙ e);
    mknod = λ d e. all.mknod d (sym (h d) ∙ e);
    mkdir = λ d e. all.mkdir d (sym (h d) ∙ e);
    rmdir = λ d e. all.rmdir d (sym (h d) ∙ e);
    unlink = λ d e. all.unlink d (sym (h d) ∙ e);
    link = λ d e. all.link d (sym (h d) ∙ e);
    stat = all.stat;
  }

  -- Two references are given back, first the one that was taken first.
  give_two :
      (v p : ℕ) (s t : Names) → Keeps (took p (took v s)) t → Keeps s (ops.vput p (ops.vput v t))
  give_two v p s t h =
      gave-Keeps env laws p s (ops.vput v t)
        (gave-Keeps env laws v (took p s) t (Keeps-swap p v s t h))

  link_in-Keeps :
      (from : ℕ) (o : Option ℕ) (last : Name) (s s1 : Names) (r : Res Place × Names)
      → Keeps (took from s) s1
      → Complete ops s1.kind
      → ((p : ℕ) → o ≡ some p → is_directory (s1.kind p) ≡ true)
      → Resolved ops s1 o last r
      → Ends (Settled s) (link_in env from r)
  unfolding link_in link_looked
  link_in-Keeps from o last s s1 (bad e, s2) k all dir h =
      gave-Keeps env laws from s s2 (Keeps-trans (took from s) s1 s2 k (Keeps-Same s1 s2 h.1))
  link_in-Keeps from o last s s1 (good p, s2) k all dir (at, (name, has, len, is), h) =
      let d : is_directory (s1.kind p.parent) ≡ true = dir p.parent at in
      let (f, has_it) = all.link p.parent d in
      let held : Keeps (took p.parent (took from s)) s2 =
        Keeps-trans (took p.parent (took from s)) (took p.parent s1) s2
          (Keeps-took p.parent (took from s) s1 k) (Keeps-Same (took p.parent s1) s2 h) in
      elim (Bool-cases (ltb env.name_len p.len)) [
        | inl b ↦ rw b (give_two from p.parent s s2 held)
        | inr b ↦ rw b (elim (look_last-cases env laws s1 s2 p last name has is h only all d) [
          | inl (v, entry_at, here) ↦ rw here (
              gave-Keeps env laws v s (ops.vput p.parent (ops.vput from (took v s2))) (
                give_two from p.parent (took v s) (took v s2)
                  ((λ u. ground (arith, held.0 u, held.0 v)), held.1, held.2)))
          | inr (entry_at, here) ↦
              let t = (f from last s2).1 in
              let kept : Keeps s2 t = laws.link-Keeps from f p.parent last s2 has_it in
              rw here rw has_it rw has rw is (
                give_two from p.parent s t
                  (Keeps-trans (took p.parent (took from s)) s2 t held kept))
        ])
      ]

  -- What holds of the vnode that open_namev returned.
  good-Same :
      (slashed : Bool) (o : Option ℕ) (last : Name) (s s1 : Names) (from : ℕ)
      → Opened ops s true slashed o last (good from, s1)
      → SameDirectories s s1
  good-Same slashed o last s s1 from (k, (p, at, inl (_, _, h))) u =
      ap (λ (f : ℕ → Kind). is_directory (f u)) h.1
  good-Same slashed o last s s1 from (k, (p, at, inr (inl (_, _, _, h)))) u =
      ap (λ (f : ℕ → Kind). is_directory (f u)) h.1
  good-Same slashed o last s s1 from (k, (p, at, inr (inr (_, h, _)))) u = h u

  link_opened-Keeps :
      (to : Name) (slashed : Bool) (o : Option ℕ) (last : Name) (s : Names) (r : Res ℕ × Names)
      → IsFit env.beyond to
      → Rooted s
      → Complete ops s.kind
      → Opened ops s true slashed o last r
      → Ends (Settled s) (link_opened env to r)
  unfolding link_opened
  link_opened-Keeps to slashed o last s (bad e, s1) fit rooted all h = Keeps-Same s s1 h.0
  link_opened-Keeps to slashed o last s (good from, s1) fit rooted all h =
      let same = good-Same slashed o last s s1 from h in
      let all1 = Complete-same s s1 same all in
      let rooted1 : Rooted s1 = (
        same s1.cwd ∙ ap (λ c. is_directory (s.kind c)) h.0.1 ∙ rooted.0,
        same s1.root ∙ ap (λ c. is_directory (s.kind c)) h.0.2 ∙ rooted.1,
      ) in
      elim (Bool-cases (is_directory (s1.kind from))) [
        | inl b ↦ rw b (gave-Keeps env laws from s s1 h.0)
        | inr b ↦ rw b (
            in_parent env laws to s1 (Settled s) (link_in env from) fit (λ r k.
              link_in-Keeps from (leads env to s1) (lasts env to) s s1 r h.0 all1
                (λ p e. parent-directory env to s1 p rooted1 e) k))
      ]

  -- do_link and do_rename do not panic where both paths are fit, walks start in directories,
  -- directories have all operations, and the lookup of a name without an entry fails with ENOENT only;
  -- whatever they return, each vnode has as many references as before,
  -- and the working directory is the same.
  pub do_rename-Keeps :
      (old new : Name) (s : Names)
      → IsFit env.beyond old
      → IsFit env.beyond new
      → Rooted s
      → Complete ops s.kind
      → Ends (Settled s) (do_rename env old new s)
  unfolding do_rename do_link
  do_rename-Keeps old new s fit fit' rooted all =
      let slashed = slash_follows old (lasts env old) in
      Ends-bind (Opened ops s true slashed (leads env old s) (lasts env old)) (Settled s)
        (open_namev ops env.beyond old true none s) (link_opened env new)
        (open_namev-Opened ops laws env.beyond old true none s fit
          (λ d _ e. all.create d (parent-directory env old s d rooted e)))
        (λ r h.
          link_opened-Keeps new slashed (leads env old s) (lasts env old) s r fit' rooted all h)
