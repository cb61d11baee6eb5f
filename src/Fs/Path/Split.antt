-- ===== src/Fs/Path/Split.antt =====
-- How dir_namev finds the last component of a path.
use weenix_kernel.Base.{
  ℕ, ◌≡◌, refl, sym, ap, ◌∙◌, Bool, true, false, ◌&&◌, some, List, [], ◌∷◌, ◌++◌, ◌==◌, ==_iff,
  if◌then◌else◌, length, arith, inl, inr, Bool-cases,
}
use mathlib.Core.List.{append_assoc, append-nil}
use weenix_kernel.Base.Members.{unsnoc_onto}
use weenix_kernel.Fs.Names.{Name}
use weenix_kernel.Fs.Path.{slash, starts, strstr, take, split_after, components, skip_slash}

-- Components joined by slashes.
abbrev pub joined : Name → List Name → Name
joined n [] = n
joined n (m ∷ r) = n ++ (slash ∷ joined m r)

abbrev pub slashless : Name → Bool
slashless [] = true
slashless (c ∷ r) = if c == slash then false else slashless r

abbrev pub all_slashless : List Name → Bool
all_slashless [] = true
all_slashless (n ∷ r) = slashless n && all_slashless r

joined-cons : (c : ℕ) (n : Name) (m : List Name) → joined (c ∷ n) m ≡ c ∷ joined n m
joined-cons c n [] = refl
joined-cons c n (k ∷ r) = refl

split_after-joined :
    (path : Name)
    → (joined (split_after path).0 (split_after path).1 ≡ path)
      × (slashless (split_after path).0 ≡ true)
      × (all_slashless (split_after path).1 ≡ true)
unfolding split_after
split_after-joined [] = (refl, refl, refl)
split_after-joined (c ∷ r) =
    let (same, cur, more) = split_after-joined r in
    elim (Bool-cases (c == slash)) [
      | inl e ↦ rw e (ground (arith, (==_iff c slash).0 e), refl, ground arith)
      | inr e ↦ rw e (rw joined-cons rw same refl, ground arith, more)
    ]

joined-split_after :
    (n : Name) (m : List Name)
    → slashless n ≡ true
    → all_slashless m ≡ true
    → split_after (joined n m) ≡ (n, m)
unfolding split_after
joined-split_after [] [] h k = refl
joined-split_after [] (k ∷ r) h all =
    let rest = joined-split_after k r (ground arith) (ground arith) in rw rest refl
joined-split_after (c ∷ n) m h all =
    let rest = joined-split_after n m (ground arith) all in
    let other : (c == slash) ≡ false = ground arith in rw joined-cons rw rest rw other refl

-- dir_namev cuts a path with at least one character behind its first slash into components that
-- give the path again when they are joined by slashes; only the first character of the first one may
-- be a slash. It is the only way to do so: components without slashes, the first of them not empty,
-- are what their path is cut into.
pub components-joined :
    (beyond : Name) (c : ℕ) (path : Name)
    → (joined (components beyond (c ∷ path)).0 (components beyond (c ∷ path)).1 ≡ c ∷ path)
      × (all_slashless (components beyond (c ∷ path)).1 ≡ true)
      × ((n : Name) (m : List Name)
          → slashless n ≡ true
          → all_slashless m ≡ true
          → components beyond (joined (c ∷ n) m) ≡ (c ∷ n, m))
unfolding components
components-joined beyond c path =
    let (same, cur, more) = split_after-joined path in
    (
      joined-cons c (split_after path).0 (split_after path).1 ∙ ap (λ r. c ∷ r) same,
      more,
      (λ n m h k. rw joined-cons rw (joined-split_after n m h k) refl),
    )

take-starts : (n text : Name) → starts n text ≡ true → take (length n) text ≡ n
take-starts [] [] h = refl
take-starts [] (c ∷ r) h = refl
take-starts (c ∷ n) [] h = cc
take-starts (c ∷ n) (d ∷ text) h =
    ground (arith, take-starts n text (ground arith), (==_iff c d).0 (ground arith))

starts_self : (n text : Name) → starts n (n ++ text) ≡ true
starts_self [] text = refl
starts_self (c ∷ n) text = ground (arith, starts_self n text)

-- strstr finds a part of the text.
pub strstr-part :
    (before n text : Name)
    → (found : Name) × (strstr (before ++ n ++ text) n ≡ some found) × (take (length n) found ≡ n)
unfolding strstr
strstr-part [] [] [] = ([], refl, refl)
strstr-part [] [] (c ∷ r) = (c ∷ r, refl, refl)
strstr-part [] (c ∷ n) text = (
  c ∷ n ++ text,
  rw (starts_self (c ∷ n) text) refl,
  take-starts (c ∷ n) (c ∷ n ++ text) (starts_self (c ∷ n) text),
)
strstr-part (b ∷ before) n text = elim (Bool-cases (starts n ((b ∷ before) ++ n ++ text))) [
  | inl e ↦ ((b ∷ before) ++ n ++ text, rw e refl, take-starts n _ e)
  | inr e ↦ let (at, is, same) = strstr-part before n text in (at, rw e is, same)
]

-- The last component ends the path.
joined-last :
    (n : Name) (m : List Name) → (before : Name) × (joined n m ≡ before ++ (unsnoc_onto n m).1)
unfolding unsnoc_onto
joined-last n [] = ([], refl)
joined-last n (k ∷ r) =
    let (before, is) = joined-last k r in (n ++ (slash ∷ before), rw is simp append_assoc)

-- What dir_namev finds for the last component of a path: a place in it, where that component stands.
pub strstr-last :
    (beyond : Name) (c : ℕ) (path : Name) (front : Name)
    → let last =
        (unsnoc_onto (components beyond (c ∷ path)).0 (components beyond (c ∷ path)).1).1 in
      (found : Name) × (strstr (front ++ (c ∷ path)) last ≡ some found)
      × (take (length last) found ≡ last)
strstr-last beyond c path front =
    let (first, more) = components beyond (c ∷ path) in
    let last = (unsnoc_onto first more).1 in
    let (before, is) = joined-last first more in
    let same : front ++ (c ∷ path) ≡ (front ++ before) ++ last ++ [] =
      ap (λ (t : Name). front ++ t) (sym (components-joined beyond c path).0 ∙ is)
      ∙ simp (append_assoc, append-nil) in
    rw same (strstr-part (front ++ before) last [])

-- The same for a whole path, of which at most the first slash is skipped.
pub strstr-path :
    (beyond path : Name)
    → (skip_slash path ≡ [] → beyond ≡ [])
    → let parts = components beyond (skip_slash path) in
      let last = (unsnoc_onto parts.0 parts.1).1 in
      (found : Name) × (strstr path last ≡ some found) × (take (length last) found ≡ last)
unfolding strstr components unsnoc_onto split_after
strstr-path beyond [] h = rw (h refl) ([], refl, refl)
strstr-path beyond (c ∷ []) h = elim (Bool-cases (c == slash)) [
  | inl e ↦ rw e rw (h (rw e refl)) (c ∷ [], refl, refl)
  | inr e ↦ rw e (strstr-last beyond c [] [])
]
strstr-path beyond (c ∷ d ∷ r) h = elim (Bool-cases (c == slash)) [
  | inl e ↦ rw e (strstr-last beyond d r (c ∷ []))
  | inr e ↦ rw e (strstr-last beyond c (d ∷ r) [])
]
