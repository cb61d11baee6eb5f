-- ===== src/Fs/PathCalls/References.antt =====
-- The references that the calls with paths take and give back.
use weenix_kernel.Base.{
  ℕ, ◌≡◌, refl, sym, ap, ◌∙◌, true, Option, none, some, List, [], ◌∷◌, arith, inl, inr, ◌⊎◌,
  Bool-cases,
}
use weenix_kernel.Base.Outcome.{Outcome, ok, ◌>>=◌, Ends, Ends-bind, Ends-result}
use weenix_kernel.Fs.Layer.{Kind, Errno, enoent}
use weenix_kernel.Fs.Calls.{is_directory}
use weenix_kernel.Fs.Names.{
  Name, Names, Looked, found, failed, Status, fails, NameOps, Laws, Same, Keeps, took, gave,
  gave-Same, took-Same, gave-took-Same,
}
use weenix_kernel.Fs.Path.{is_empty, take, start, Place, Res, look, dir_namev}
use weenix_kernel.Fs.Path.Resolve.{into, entry, follow, look-cases}
use weenix_kernel.Fs.Path.Parent.{IsFit, leading_of, last_of, Resolved, dir_namev-Resolved}
use weenix_kernel.Fs.PathCalls.{PathEnv, look_last}

pub Keeps-Same : (s t : Names) → Same s t → Keeps s t
Keeps-Same s t h = (h.0, h.3, h.4)

pub Keeps-trans : (r s t : Names) → Keeps r s → Keeps s t → Keeps r t
Keeps-trans r s t h k = ((λ u. k.0 u ∙ h.0 u), k.1 ∙ h.1, k.2 ∙ h.2)

pub Keeps-took : (v : ℕ) (r s : Names) → Keeps r s → Keeps (took v r) (took v s)
Keeps-took v r s h = ((λ u. ground (arith, h.0 u, h.0 v)), h.1, h.2)

pub Keeps-swap : (p v : ℕ) (s t : Names) → Keeps (took p (took v s)) t → Keeps (took v (took p s)) t
Keeps-swap p v s t h = ((λ u. h.0 u ∙ ground arith), h.1, h.2)

-- What operations find in a directory that has them all.
pub record Complete (ops : NameOps) (kind : ℕ → Kind) : Type 0 where
  pub lookup :
      (d : ℕ)
      → is_directory (kind d) ≡ true
      → (f : Name → Names → Looked × Names) × (ops.lookup d ≡ some f)
  pub create :
      (d : ℕ)
      → is_directory (kind d) ≡ true
      → (f : Name → Names → Looked × Names) × (ops.create d ≡ some f)
  pub mknod :
      (d : ℕ)
      → is_directory (kind d) ≡ true
      → (f : Name → Names → Status × Names) × (ops.mknod d ≡ some f)
  pub mkdir :
      (d : ℕ)
      → is_directory (kind d) ≡ true
      → (f : Name → Names → Status × Names) × (ops.mkdir d ≡ some f)
  pub rmdir :
      (d : ℕ)
      → is_directory (kind d) ≡ true
      → (f : Name → Names → Status × Names) × (ops.rmdir d ≡ some f)
  pub unlink :
      (d : ℕ)
      → is_directory (kind d) ≡ true
      → (f : Name → Names → Status × Names) × (ops.unlink d ≡ some f)
  pub link :
      (d : ℕ)
      → is_directory (kind d) ≡ true
      → (f : ℕ → Name → Names → Status × Names) × (ops.link d ≡ some f)
  pub stat : (v : ℕ) → (f : Names → Status × Names) × (ops.stat v ≡ some f)

-- The lookup of a name without an entry fails with ENOENT, and with no other error.
abbrev pub OnlyEnoent : NameOps → Type 0
OnlyEnoent ops =
    (d : ℕ) (f : Name → Names → Looked × Names) (n : Name) (s : Names)
    → ops.lookup d ≡ some f
    → s.links d n ≡ none
    → f n s ≡ (failed enoent, s)

-- Walks start in directories.
abbrev pub Rooted : Names → Type 0
Rooted s = (is_directory (s.kind s.cwd) ≡ true) × (is_directory (s.kind s.root) ≡ true)

module _ (env : PathEnv) where
  open env use {ops}

  into-directory :
      (s : Names) (goes : ℕ → Option ℕ) (o : Option ℕ) (p : ℕ)
      → ((v : ℕ)
          → is_directory (s.kind v) ≡ true
          → goes v ≡ some p
          → is_directory (s.kind p) ≡ true)
      → into s goes o ≡ some p
      → is_directory (s.kind p) ≡ true
  into-directory s goes none p f h = cc
  into-directory s goes (some v) p f h = elim (Bool-cases (is_directory (s.kind v))) [
    | inl d ↦ f v d (ground arith)
    | inr d ↦ ground arith
  ]

  follow-directory :
      (s : Names) (l : List Name) (d p : ℕ)
      → is_directory (s.kind d) ≡ true
      → follow ops s d l ≡ some p
      → is_directory (s.kind p) ≡ true
  unfolding follow
  follow-directory s [] d p h e = ground arith
  follow-directory s (n ∷ r) d p h e = elim (Bool-cases (is_empty n)) [
    | inl b ↦ follow-directory s r d p h (rw b at e)
    | inr b ↦
        into-directory s (λ v. follow ops s v r) (entry ops s.links d n) p
          (λ v. follow-directory s r v p) (rw b at e)
  ]

  pub parent-directory :
      (path : Name) (s : Names) (p : ℕ)
      → Rooted s
      → follow ops s (start path none s) (leading_of env.beyond path) ≡ some p
      → is_directory (s.kind p) ≡ true
  parent-directory path s p h e =
      follow-directory s (leading_of env.beyond path) (start path none s) p (ground arith) e

  -- Where a path but for its last component leads, and that component.
  abbrev pub leads : Name → Names → Option ℕ
  leads path s = follow ops s (start path none s) (leading_of env.beyond path)

  abbrev pub lasts : Name → Name
  lasts path = last_of env.beyond path

  module _ (laws : Laws ops) where
    -- A call does with the result of dir_namev what its theorem says.
    pub in_parent :
        (path : Name) (s : Names) (Q : Status × Names → Type 0)
        (body : Res Place × Names → Outcome (Status × Names))
        → IsFit env.beyond path
        → ((r : Res Place × Names) → Resolved ops s (leads path s) (lasts path) r → Ends Q (body r))
        → Ends Q (dir_namev ops env.beyond path none s >>= body)
    in_parent path s Q body fit next =
        Ends-bind (Resolved ops s (leads path s) (lasts path)) Q
          (dir_namev ops env.beyond path none s) body
          (dir_namev-Resolved ops laws env.beyond path none s fit) next

    pub parent_found :
        (path : Name) (s : Names)
        → IsFit env.beyond path
        → (r : Res Place × Names) × (dir_namev ops env.beyond path none s ≡ ok r)
          × Resolved ops s (leads path s) (lasts path) r
    parent_found path s fit =
        Ends-result (Resolved ops s (leads path s) (lasts path))
          (dir_namev ops env.beyond path none s)
          (dir_namev-Resolved ops laws env.beyond path none s fit)

    pub gave-Keeps : (v : ℕ) (s t : Names) → Keeps (took v s) t → Keeps s (ops.vput v t)
    gave-Keeps v s t h = rw (laws.vput_lem v t) ((λ u. ground (arith, h.0 u, h.0 v)), h.1, h.2)

    pub gave-taken : (v : ℕ) (s : Names) → Keeps s (ops.vput v (took v s))
    gave-taken v s = gave-Keeps v s (took v s) ((λ u. refl), refl, refl)

    -- The last component is in the directory `p.parent`, which has all operations.
    look-enoent :
        (s s1 : Names) (d : ℕ) (n : Name)
        → OnlyEnoent ops
        → Complete ops s.kind
        → is_directory (s.kind d) ≡ true
        → entry ops s1.links d n ≡ none
        → look ops d n s1 ≡ (failed enoent, s1)
    unfolding look
    look-enoent s s1 d n only all dir at =
        let (f, has_it) = all.lookup d dir in
        rw (has_it, look) (only d f n s1 has_it (rw (has_it, entry) at at))

    module _ (s s1 : Names) (p : Place) (last name : Name) (has : p.name ≡ some name)
        (is : take p.len name ≡ last) (held : Same (took p.parent s) s1) where
      -- With whatever error the lookup fails.
      pub look_last-looked :
          ((v : ℕ) × (entry ops s.links p.parent last ≡ some v)
            × (look_last env p s1 ≡ ok (found v, took v s1)))
          ⊎ ((entry ops s.links p.parent last ≡ none)
              × ((e : Errno) × (look ops p.parent last s1 ≡ (failed e, s1))
                  × (look_last env p s1 ≡ ok (failed e, s1))))
      unfolding look_last
      look_last-looked =
          let entries = λ (o : Option ℕ) (at : entry ops s1.links p.parent last ≡ o).
            ap (λ (l : ℕ → Name → Option ℕ). entry ops l p.parent last) (sym held.2) ∙ at in
          elim (look-cases ops laws p.parent last s1) [
            | inl (v, at, here) ↦ inl (v, entries (some v) at, rw has rw is rw here refl)
            | inr (at, (e, here)) ↦ inr (entries none at, (e, here, rw has rw is rw here refl))
          ]

      pub look_last-cases :
          OnlyEnoent ops
          → Complete ops s.kind
          → is_directory (s.kind p.parent) ≡ true
          → ((v : ℕ) × (entry ops s.links p.parent last ≡ some v)
              × (look_last env p s1 ≡ ok (found v, took v s1)))
            ⊎ ((entry ops s.links p.parent last ≡ none)
                × (look_last env p s1 ≡ ok (failed enoent, s1)))
      look_last-cases only all dir = elim look_last-looked [
        | inl h ↦ inl h
        | inr (at, (e, looked, here)) ↦
            let absent : entry ops s1.links p.parent last ≡ none =
              ap (λ (l : ℕ → Name → Option ℕ). entry ops l p.parent last) held.2 ∙ at in
            let same : failed e ≡ failed enoent =
              ap (λ (x : Looked × Names). x.0)
                (sym looked ∙ look-enoent s s1 p.parent last only all dir absent) in
            inr (at, here ∙ ap (λ (x : Looked). ok (x, s1)) same)
      ]

-- A call that fails with an errno, and leaves everything as it was.
abbrev pub Refused : Names → Errno → Status × Names → Type 0
Refused s e (st, s') = (st ≡ fails e) × Same s s'

-- An operation `f` on the last component ran while the parent `p` was held, and its result is the call's.
abbrev pub Runs : Names → ℕ → Name → (Name → Names → Status × Names) → Status × Names → Type 0
Runs s p last f (st, s') =
    (t : Names) × Same (took p s) t × (st ≡ (f last t).0) × (s' ≡ gave p (f last t).1)

-- The vnode that was found is given back, then its parent, or the other way round.
pub gave-both-Same :
    (p v : ℕ) (s t : Names) → Same (took p s) t → Same s (gave p (gave v (took v t)))
gave-both-Same p v s t h =
    gave-Same p s (gave v (took v t))
      (gave-Same v (took p s) (took v t) (took-Same v (took p s) t h))

pub gave-first-Same :
    (p v : ℕ) (s t : Names) → Same (took p s) t → Same s (gave v (gave p (took v t)))
gave-first-Same p v s t h = gave-Same v s (gave p (took v t)) (gave-took-Same p v s t h)

pub gave-held-Same :
    (p v : ℕ) (s t : Names) → Same (took v (took p s)) t → Same s (gave v (gave p t))
gave-held-Same p v s t h =
    gave-Same v s (gave p t)
      (gave-Same p (took v s) t ((λ u. h.0 u ∙ ground arith), h.1, h.2, h.3, h.4))
