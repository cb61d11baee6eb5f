-- ===== src/Fs/Path/Open.antt =====
-- open_namev: which vnode it returns, and with which references.
use weenix_kernel.Base.{
  ℕ, ◌≡◌, refl, sym, ap, subst, ◌∙◌, Bool, true, false, ◌&&◌, Option, none, some, [], ◌∷◌, length,
  if◌then◌else◌, ◌==◌, arith, inl, inr, ◌⊎◌, Bool-cases,
}
use weenix_kernel.Base.Outcome.{Ends, Ends-bind}
use weenix_kernel.Fs.Layer.{Kind, Errno, enotdir}
use weenix_kernel.Fs.Calls.{is_directory}
use weenix_kernel.Fs.Names.{
  Name, Names, Looked, found, failed, NameOps, Laws, Same, Keeps, Creates, took, gave, gave-Same,
  gave-took-Same,
}
use weenix_kernel.Fs.Path.{
  slash, strstr, is_empty, take, start, Place, Res, good, bad, look, dir_namev, char_at, created,
  is_enoent, opened, open_in, open_namev,
}
use weenix_kernel.Fs.Path.Resolve.{entry, follow, look-cases}
use weenix_kernel.Fs.Path.Parent.{IsFit, leading_of, last_of, Located, dir_namev-Located}

emptied : (n : Name) → is_empty n ≡ true → n ≡ []
emptied [] h = refl
emptied (c ∷ r) h = cc

-- A slash stands behind the first place in the path with the text of the last component.
abbrev pub slash_follows : Name → Name → Bool
slash_follows path last = elim (strstr path last) [
  | none ↦ false
  | some name ↦ char_at (length last) name == slash
]

module _ (ops : NameOps) where
  -- While the directory `p` is held, its lookup of a name without an entry fails with `e`.
  abbrev pub Missing : Names → ℕ → Name → Errno → Names → Type 0
  Missing s p last e t =
      Same (took p s) t × (entry ops s.links p last ≡ none) × (look ops p last t ≡ (failed e, t))

  -- The directory creates the name, and that is asked for, as the lookup failed with ENOENT.
  abbrev pub Making : Bool → ℕ → Name → Errno → Names → Looked → Names → Type 0
  Making creates p last e t made u =
      (creates ≡ true)
      × (is_enoent e ≡ true)
      × ((f : Name → Names → Looked × Names) × (ops.create p ≡ some f) × (f last t ≡ (made, u)))

  -- What open_namev leaves: `o` is where the path but for its last component leads.
  abbrev pub Opened : Names → Bool → Bool → Option ℕ → Name → Res ℕ × Names → Type 0
  Opened s creates slashed o last (good v, s') =
      Keeps (took v s) s'
      × ((p : ℕ) × (o ≡ some p)
          × (((last ≡ []) × (p ≡ v) × Same (took v s) s')
              ⊎ ((is_empty last ≡ false)
                  × (entry ops s.links p last ≡ some v)
                  × ((slashed ≡ true) → is_directory (s.kind v) ≡ true)
                  × Same (took v s) s')
              ⊎ ((is_empty last ≡ false)
                  × ((u : ℕ) → is_directory (s'.kind u) ≡ is_directory (s.kind u))
                  × ((e : Errno) × (t : Names) × (u : Names) × Missing s p last e t
                      × Making creates p last e t (found v) u
                      × (s' ≡ gave p u)))))
  Opened s creates slashed o last (bad e, s') =
      Same s s'
      × ((o ≡ none)
          ⊎ ((p : ℕ) × (o ≡ some p)
              × (is_empty last ≡ false)
              × (((v : ℕ) × (e ≡ enotdir)
                    × (entry ops s.links p last ≡ some v)
                    × (slashed ≡ true)
                    × (is_directory (s.kind v) ≡ false))
                  ⊎ ((t : Names) × Missing s p last e t × ((creates && is_enoent e) ≡ false))
                  ⊎ ((d : Errno) × (t : Names) × (u : Names) × Missing s p last d t
                      × Making creates p last d t (failed e) u))))

  module _ (laws : Laws ops) where
    Keeps-gave :
        (d v : ℕ) (s s1 s2 : Names)
        → Same (took d s) s1
        → Keeps (took v s1) s2
        → Keeps (took v s) (gave d s2)
    Keeps-gave d v s s1 s2 h k =
        ((λ u. ground (arith, h.0 u, h.0 v, h.0 d, k.0 u, k.0 d)), k.1 ∙ h.3, k.2 ∙ h.4)

    module _ (creates slashed : Bool) (o : Option ℕ)
        (maker : (d : ℕ)
          → creates ≡ true
          → o ≡ some d
          → (f : Name → Names → Looked × Names) × (ops.create d ≡ some f)) where
      created-Opened :
          (d : ℕ) (last : Name) (e : Errno) (s s1 : Names) (made : Looked × Names)
          → is_empty last ≡ false
          → Missing s d last e s1
          → Making creates d last e s1 made.0 made.1
          → Creates s1 made
          → Opened s creates slashed (some d) last ((created made).0, ops.vput d (created made).1)
      created-Opened d last e s s1 (found v, s2) text miss making k = rw (laws.vput_lem d s2) (
        Keeps-gave d v s s1 s2 miss.0 k.0,
        (
          d,
          refl,
          inr (
              inr (
                text,
                (λ u. k.1 u ∙ ap (λ (f : ℕ → Kind). is_directory (f u)) miss.0.1),
                (e, s1, s2, miss, making, refl),
              )),
        ),
      )
      created-Opened d last e s s1 (failed e2, s2) text miss making k = rw (laws.vput_lem d s2) (
        gave-Same d s s2 (subst (λ t. Same (took d s) t) (sym k) miss.0),
        inr (d, refl, text, inr (inr (e, s1, s2, miss, making))),
      )

      opened-Opened :
          (d : ℕ) (name last : Name) (len : ℕ) (s s1 : Names)
          → Same (took d s) s1
          → take len name ≡ last
          → is_empty last ≡ false
          → (char_at len name == slash) ≡ slashed
          → o ≡ some d
          → Ends
              (Opened s creates slashed (some d) last)
              (opened ops creates d name len (look ops d last s1))
      unfolding opened
      opened-Opened d name last len s s1 h is text slashes parent =
          let entries = λ (o : Option ℕ) (at : entry ops s1.links d last ≡ o).
            ap (λ (l : ℕ → Name → Option ℕ). entry ops l d last) (sym h.2) ∙ at in
          elim (look-cases ops laws d last s1) [
            | inl (v, at, found_it) ↦
                let t = gave d (took v s1) in
                let same : Same (took v s) t = gave-took-Same d v s s1 h in
                let kept = ap (λ (k : ℕ → Kind). is_directory (k v)) (sym h.1) in
                rw found_it rw slashes rw (laws.vput_lem d (took v s1))
                  (elim (Bool-cases
                    (slashed && (if is_directory (s1.kind v) then false else true))) [
                      | inl b ↦
                          let other : is_directory (s1.kind v) ≡ false = ground arith in
                          rw b rw (laws.vput_lem v t) (
                            gave-Same v s t same,
                            inr (
                              d,
                              refl,
                              text,
                              inl (v, refl, entries (some v) at, ground (arith, b), kept ∙ other),
                            ),
                          )
                      | inr b ↦ rw b (
                        (same.0, same.3, same.4),
                        (
                          d,
                          refl,
                          inr (
                              inl (
                                text,
                                entries (some v) at,
                                (λ q. kept ∙ ground (arith, b, q)),
                                same,
                              )),
                        ),
                      )
                    ])
            | inr (at, (e, failed_it)) ↦
                let miss : Missing s d last e s1 = (h, entries none at, failed_it) in
                rw failed_it (elim (Bool-cases (creates && is_enoent e)) [
                  | inl c ↦
                      let (f, has_it) = maker d (ground arith) parent in
                      rw c rw has_it rw is (
                        created-Opened d last e s s1 (f last s1) text miss
                          (ground arith, ground arith, (f, has_it, refl))
                          (laws.create-Creates d f last s1 has_it))
                  | inr c ↦
                      rw c rw (laws.vput_lem d s1)
                        (gave-Same d s s1 h, inr (d, refl, text, inr (inl (s1, miss, c))))
                ])
          ]

      open_in-Opened :
          (path last : Name) (s : Names) (r : Res Place × Names)
          → slashed ≡ slash_follows path last
          → Located ops path s o last r
          → Ends (Opened s creates slashed o last) (open_in ops creates r)
      unfolding open_in
      open_in-Opened path last s (bad e, s1) q h = (h.0.1, inl h.0.0)
      open_in-Opened path last s (good p, s1) q ((at, (name, has, len, is), h), pointed) =
          rw has (elim (Bool-cases (is_empty (take p.len name))) [
            | inl b ↦ rw b (
              (h.0, h.3, h.4),
              (p.parent, at, inl (sym is ∙ emptied (take p.len name) b, refl, h)),
            )
            | inr b ↦
                let there : strstr path last ≡ some name = sym pointed ∙ has in
                let follows : (char_at p.len name == slash) ≡ slashed =
                  rw q rw (there, slash_follows) rw len refl in
                rw b rw is (
                  subst
                    (λ x.
                      Ends (Opened s creates slashed x last)
                        (opened ops creates p.parent name p.len (look ops p.parent last s1)))
                    (sym at)
                    (opened-Opened p.parent name last p.len s s1 h is
                      (ap (λ (n : Name). is_empty n) (sym is) ∙ b) follows at))
          ])

    -- open_namev ends without panic where a path is fit and, with O_CREAT, the parent of its last
    -- component can create. Where it succeeds, it has followed all components but the last, and
    -- returns, with one more reference to it and to nothing else: that directory, if the last
    -- component is empty; the vnode of the entry of the last component, which is a directory if a
    -- slash stands behind the first place in the path with the text of that component; or, with
    -- O_CREAT and if the lookup of the last component failed with ENOENT, the vnode that the
    -- create operation of the directory made. Where it fails, everything is as it was, and there
    -- was no such directory; or the entry is no directory, a slash stands there, and the result is
    -- ENOTDIR; or the lookup failed, and the result is its error, which is not ENOENT with
    -- O_CREAT; or the result is the error of create, with O_CREAT and where the lookup failed with
    -- ENOENT.
    pub open_namev-Opened :
        (beyond path : Name) (creates : Bool) (base : Option ℕ) (s : Names)
        → let o = follow ops s (start path base s) (leading_of beyond path) in
          let last = last_of beyond path in
          IsFit beyond path
          → ((d : ℕ)
              → creates ≡ true
              → o ≡ some d
              → (f : Name → Names → Looked × Names) × (ops.create d ≡ some f))
          → Ends
              (Opened s creates (slash_follows path last) o last)
              (open_namev ops beyond path creates base s)
    unfolding open_namev
    open_namev-Opened beyond path creates base s h maker =
        let o = follow ops s (start path base s) (leading_of beyond path) in
        let last = last_of beyond path in
        let slashed = slash_follows path last in
        Ends-bind (Located ops path s o last) (Opened s creates slashed o last)
          (dir_namev ops beyond path base s) (open_in ops creates)
          (dir_namev-Located ops laws beyond path base s h)
          (λ r k. open_in-Opened creates slashed o maker path last s r refl k)
