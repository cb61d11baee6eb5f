-- ===== src/Fs/Path/Parent.antt =====
-- dir_namev returns the directory to which all components of a path but the last lead.
use weenix_kernel.Base.{
  ℕ, ◌≡◌, ◌≤◌, refl, true, Option, none, some, List, [], ◌∷◌, leb, length, arith,
}
use weenix_kernel.Base.Members.{unsnoc_onto}
use weenix_kernel.Base.Outcome.{ok, Ends, Ends-bind, Ends-mono}
use weenix_kernel.Fs.Names.{Name, Names, NameOps, Laws, Same, took}
use weenix_kernel.Fs.Path.{
  take, strstr, components, split_after, skip_slash, start, Place, Res, good, bad, walk, placed,
  go_to, dir_namev,
}
use weenix_kernel.Fs.Path.Split.{strstr-path}
use weenix_kernel.Fs.Path.Resolve.{follow, Followed, walk-first}

-- A path has text behind its first slash, or memory behind it starts with a NUL; and it has at most
-- 49 slashes behind the first.
abbrev pub IsFit : Name → Name → Type 0
IsFit beyond path =
    (skip_slash path ≡ [] → beyond ≡ []) × (length (components beyond (skip_slash path)).1 ≤ 49)

abbrev pub leading_of : Name → Name → List Name
leading_of beyond path =
    let parts = components beyond (skip_slash path) in (unsnoc_onto parts.0 parts.1).0

abbrev pub last_of : Name → Name → Name
last_of beyond path =
    let parts = components beyond (skip_slash path) in (unsnoc_onto parts.0 parts.1).1

-- The name and length of a place are those of a component.
abbrev pub IsNameOf : Name → Place → Type 0
IsNameOf last p =
    (found : Name) × (p.name ≡ some found) × (p.len ≡ length last) × (take p.len found ≡ last)

-- Only a path without text has an empty first component.
components-empty :
    (beyond rest : Name)
    → (rest ≡ [] → beyond ≡ [])
    → (components beyond rest).0 ≡ []
    → (components beyond rest).1 ≡ []
unfolding components split_after
components-empty beyond [] h e = rw (h refl) refl
components-empty beyond (c ∷ r) h e = cc e

module _ (ops : NameOps) where
  abbrev pub Resolved : Names → Option ℕ → Name → Res Place × Names → Type 0
  Resolved s o last (good p, s') = (o ≡ some p.parent) × IsNameOf last p × Same (took p.parent s) s'
  Resolved s o last (bad e, s') = (o ≡ none) × Same s s'

  -- And the pointer is to the first place in the path where the last component stands.
  abbrev Pointed : Name → Name → Res Place × Names → Type 0
  Pointed path last (good p, s') = p.name ≡ strstr path last
  Pointed path last (bad e, s') = Unit {0}

  abbrev pub Located : Name → Names → Option ℕ → Name → Res Place × Names → Type 0
  Located path s o last r = Resolved s o last r × Pointed path last r

  module _ (laws : Laws ops) where
    placed-Located :
        (path last found : Name) (s : Names) (o : Option ℕ) (r : Res ℕ × Names)
        → strstr path last ≡ some found
        → take (length last) found ≡ last
        → Followed ops laws s o r
        → Located path s o last (placed path last r)
    placed-Located path last found s o (good v, s') at same h =
        ((h.0, (found, at, refl, same), h.1), refl)
    placed-Located path last found s o (bad e, s') at same h = (h, tt)

    go_to-Located :
        (path found first : Name) (more : List Name) (d : ℕ) (s : Names)
        → (first ≡ [] → more ≡ [])
        → let (leading, last) = unsnoc_onto first more in
          strstr path last ≡ some found
          → take (length last) found ≡ last
          → Ends (Located path s (follow ops s d leading) last) (go_to ops path d first more s)
    unfolding go_to unsnoc_onto follow
    go_to-Located path found first [] d s h at same =
        rw (laws.vref_lem d s)
          ((refl, (found, at, refl, same), ((λ u. refl), refl, refl, refl, refl)), refl)
    go_to-Located path found [] (m ∷ more) d s h at same = cc (h refl)
    go_to-Located path found (c ∷ n) (m ∷ more) d s h at same =
        let (leading, last) = unsnoc_onto m more in
        Ends-bind (Followed ops laws s (follow ops s d ((c ∷ n) ∷ leading))) _
          (walk ops ((c ∷ n) ∷ leading) d none s) (λ r. ok (placed path last r))
          (walk-first ops laws c n leading d s)
          (λ r f. placed-Located path last found s _ r at same f)

    pub dir_namev-Located :
        (beyond path : Name) (base : Option ℕ) (s : Names)
        → IsFit beyond path
        → Ends
            (Located path s
              (follow ops s (start path base s) (leading_of beyond path))
              (last_of beyond path))
            (dir_namev ops beyond path base s)
    unfolding dir_namev
    dir_namev-Located beyond path base s (h, k) =
        let (found, at, same) = strstr-path beyond path h in
        let fits : leb (length (components beyond (skip_slash path)).1) 49 ≡ true = ground arith in
        rw fits (
          go_to-Located path found (components beyond (skip_slash path)).0
            (components beyond (skip_slash path)).1 (start path base s) s
            (components-empty beyond (skip_slash path) h) at same)

    -- dir_namev ends without panic where a path is fit. It follows the entries of all components
    -- but the last from the root, the base or the working directory, and returns where they lead, with
    -- one more reference to it, and a pointer to the last component with its length; no other
    -- reference, entry or vnode changes. It fails exactly if a component has no entry or leads to no
    -- directory, and then leaves every reference as it was.
    pub dir_namev-Resolved :
        (beyond path : Name) (base : Option ℕ) (s : Names)
        → IsFit beyond path
        → Ends
            (Resolved s
              (follow ops s (start path base s) (leading_of beyond path))
              (last_of beyond path))
            (dir_namev ops beyond path base s)
    dir_namev-Resolved beyond path base s fit =
        let o = follow ops s (start path base s) (leading_of beyond path) in
        let last = last_of beyond path in
        Ends-mono (Located path s o last) (Resolved s o last) (dir_namev ops beyond path base s)
          (λ r h. h.0) (dir_namev-Located beyond path base s fit)
