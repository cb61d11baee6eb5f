-- ===== src/Fs/Path/Resolve.antt =====
-- dir_namev against a walk over the entries of the directories.
use weenix_kernel.Base.{
  ℕ, ◌≡◌, refl, sym, ap, ◌∙◌, Option, none, some, List, [], ◌∷◌, if◌then◌else◌, inl, inr,
  Bool-cases, ◌⊎◌, Option-cases,
}
use weenix_kernel.Base.Outcome.{Outcome, Ends}
use weenix_kernel.Fs.Layer.{Kind, Errno, enotdir}
use weenix_kernel.Fs.Calls.{is_directory}
use weenix_kernel.Fs.Names.{
  Name, Names, found, failed, NameOps, Laws, Same, took, gave-Same, took-Same, gave-took-Same,
}
use weenix_kernel.Fs.Path.{is_empty, Res, good, bad, look, step_into, walk, put_prev}

-- From a directory into the entry of a name, which is to be a directory, and on from there.
abbrev pub into : Names → (ℕ → Option ℕ) → Option ℕ → Option ℕ
into s goes none = none
into s goes (some v) = if is_directory (s.kind v) then goes v else none

module _ (ops : NameOps) where
  -- The entry of a name, where the directory has a lookup operation.
  abbrev pub entry : (ℕ → Name → Option ℕ) → ℕ → Name → Option ℕ
  entry links d n = elim (ops.lookup d) [ none ↦ none | some f ↦ links d n ]

  -- Where the components lead from a directory, if all are directories.
  unfoldable pub follow : Names → ℕ → List Name → Option ℕ
  follow s d [] = some d
  follow s d (n ∷ r) =
      let skipped = follow s d r in
      let entered = into s (λ v. follow s v r) (entry s.links d n) in
      if is_empty n then skipped else entered

  module _ (laws : Laws ops) where
    pub look-cases :
        (d : ℕ) (n : Name) (s : Names)
        → ((v : ℕ) × (entry s.links d n ≡ some v) × (look ops d n s ≡ (found v, took v s)))
          ⊎ ((entry s.links d n ≡ none) × ((e : Errno) × (look ops d n s ≡ (failed e, s))))
    unfolding look
    look-cases d n s = elim (Option-cases (ops.lookup d)) [
      | inl e ↦ inr (rw (e, entry) refl, (enotdir, rw (e, look) refl))
      | inr (f, e) ↦ elim (Option-cases (s.links d n)) [
        | inl m ↦
            let (err, is) = laws.lookup-missing d f n s e m in
            inr (rw (e, entry) m, (err, rw (e, look) is))
        | inr (v, m) ↦ inl (v, rw (e, entry) m, rw (e, look) (laws.lookup-entry d f n s v e m))
      ]
    ]

    abbrev pub Followed : Names → Option ℕ → Res ℕ × Names → Type 0
    Followed s o (good v, s') = (o ≡ some v) × Same (took v s) s'
    Followed s o (bad e, s') = (o ≡ none) × Same s s'

    -- The reference that the walk holds between two rounds.
    abbrev Held : Option ℕ → Names → Names → Type 0
    Held none s s' = Same s s'
    Held (some p) s s' = Same (took p s) s'

    put_prev-Same : (p : Option ℕ) (s s' : Names) → Held p s s' → Same s (put_prev ops p s')
    put_prev-Same none s s' h = h
    put_prev-Same (some p) s s' h = rw (laws.vput_lem p s') (gave-Same p s s' h)

    put_prev-took :
        (p : Option ℕ) (v : ℕ) (s s' : Names)
        → Held p s s'
        → Same (took v s) (put_prev ops p (took v s'))
    put_prev-took none v s s' h = took-Same v s s' h
    put_prev-took (some p) v s s' h = rw (laws.vput_lem p (took v s')) (gave-took-Same p v s s' h)

    Held-links : (p : Option ℕ) (s s' : Names) → Held p s s' → s'.links ≡ s.links
    Held-links none s s' h = h.2
    Held-links (some p) s s' h = h.2

    step_into-Followed :
        (rest : ℕ → Names → Outcome (Res ℕ × Names)) (goes : ℕ → Option ℕ) (p : Option ℕ) (cur : ℕ)
        (n : Name) (s s' : Names)
        → Held p s s'
        → ((v : ℕ) (t : Names) → Same (took v s) t → Ends (Followed s (goes v)) (rest v t))
        → Ends
            (Followed s (into s goes (entry s.links cur n)))
            (step_into ops rest p (look ops cur n s'))
    unfolding step_into
    step_into-Followed rest goes p cur n s s' h next =
        let entries = λ (o : Option ℕ) (at : entry s'.links cur n ≡ o).
          ap (λ (l : ℕ → Name → Option ℕ). entry l cur n) (sym (Held-links p s s' h)) ∙ at in
        elim (look-cases cur n s') [
          | inl (v, at, is) ↦
              let t = put_prev ops p (took v s') in
              let same : Same (took v s) t = put_prev-took p v s s' h in
              rw is rw (entries (some v) at) (elim (Bool-cases (is_directory (s.kind v))) [
                | inl d ↦
                    rw d rw (ap (λ (k : ℕ → Kind). is_directory (k v)) same.1 ∙ d) (next v t same)
                | inr d ↦
                    rw d rw (ap (λ (k : ℕ → Kind). is_directory (k v)) same.1 ∙ d) rw
                      (laws.vput_lem v t) (refl, gave-Same v s t same)
              ])
          | inr (at, (e, is)) ↦ rw is rw (entries none at) (refl, put_prev-Same p s s' h)
        ]

    -- The walk behind a component that was found.
    walk-Followed :
        (l : List Name) (cur : ℕ) (s s' : Names)
        → Same (took cur s) s'
        → Ends (Followed s (follow s cur l)) (walk ops l cur (some cur) s')
    unfolding walk follow
    walk-Followed [] cur s s' h = (refl, h)
    walk-Followed (n ∷ r) cur s s' h = elim (Bool-cases (is_empty n)) [
      | inl e ↦ rw e (walk-Followed r cur s s' h)
      | inr e ↦ rw e (
          step_into-Followed (λ v t. walk ops r v (some v) t) (λ v. follow s v r) (some cur) cur n s
            s' h (λ v t same. walk-Followed r v s t same))
    ]

    -- The whole walk, whose first component is not empty.
    pub walk-first :
        (c : ℕ) (n : Name) (l : List Name) (d : ℕ) (s : Names)
        → Ends (Followed s (follow s d ((c ∷ n) ∷ l))) (walk ops ((c ∷ n) ∷ l) d none s)
    unfolding walk follow
    walk-first c n l d s =
        step_into-Followed (λ v t. walk ops l v (some v) t) (λ v. follow s v l) none d (c ∷ n) s s
          ((λ u. refl), refl, refl, refl, refl) (λ v t same. walk-Followed l v s t same)
