-- ===== src/Fs/Path.antt =====
-- kernel/fs/namev.c: lookup, dir_namev and open_namev.
pub mod Split
pub mod Resolve
pub mod Parent
pub mod Open
use weenix_kernel.Base.{
  ℕ, zero, suc, Bool, true, false, ◌&&◌, Option, none, some, List, [], ◌∷◌, ◌==◌, leb,
  if◌then◌else◌, length,
}
use weenix_kernel.Base.Members.{unsnoc_onto}
use weenix_kernel.Base.Outcome.{Outcome, ok, panic, ◌>>=◌, ◌>>◌, kassert, deref}
use weenix_kernel.Fs.Layer.{Errno, enotdir, enoent}
use weenix_kernel.Fs.Calls.{is_directory}
use weenix_kernel.Fs.Names.{Name, Names, Looked, found, failed, NameOps}

abbrev pub slash : ℕ
slash = 47

abbrev pub is_empty {ℓ} : {A : Type ℓ} → List A → Bool
is_empty [] = true
is_empty (x ∷ r) = false

-- strstr: the text from the first place where `needle` starts, or NULL.
abbrev pub starts : Name → Name → Bool
starts [] text = true
starts (c ∷ r) [] = false
starts (c ∷ r) (d ∷ text) = c == d && starts r text

pub strstr : Name → Name → Option Name
strstr [] needle = if starts needle [] then some [] else none
strstr (c ∷ text) needle = if starts needle (c ∷ text) then some (c ∷ text) else strstr text needle

abbrev pub take : ℕ → Name → Name
take n [] = []
take zero (c ∷ r) = []
take (suc n) (c ∷ r) = c ∷ take n r

-- The loop that cuts a path at its slashes: the rest of the component that has begun, and those
-- behind it.
pub split_after : Name → Name × List Name
split_after [] = ([], [])
split_after (c ∷ r) =
    let (cur, more) = split_after r in if c == slash then ([], cur ∷ more) else (c ∷ cur, more)

-- The first component, and the others. The loop starts at the second character: for a path without
-- characters it reads what stands in memory behind the copy of the path, `beyond`, up to a NUL.
unfoldable pub components : Name → Name → Name × List Name
unfolding split_after
components beyond [] = ([], (split_after beyond).1)
components beyond (c ∷ r) = let (cur, more) = split_after r in (c ∷ cur, more)

abbrev pub is_absolute : Name → Bool
is_absolute [] = false
is_absolute (c ∷ r) = c == slash

abbrev pub skip_slash : Name → Name
skip_slash [] = []
skip_slash (c ∷ r) = if c == slash then r else c ∷ r

-- Where the walk starts; `none` is a base of NULL.
abbrev pub start : Name → Option ℕ → Names → ℕ
start path none s = if is_absolute path then s.root else s.cwd
start path (some b) s = if is_absolute path then s.root else b

-- What dir_namev returns: the vnode of the parent, a pointer into the path, and a length.
pub record Place : Type 0 where
  pub parent : ℕ
  pub name : Option Name
  pub len : ℕ

-- A result, or -errno.
pub data Res {ℓ} (A : Type ℓ) : Type ℓ where
  good : A → Res A
  bad : Errno → Res A

abbrev pub placed : Name → Name → Res ℕ × Names → Res Place × Names
placed path last (good v, s) =
    (good (record { parent = v; name = strstr path last; len = length last }), s)
placed path last (bad e, s) = (bad e, s)

abbrev pub is_enoent : Errno → Bool
is_enoent enoent = true
is_enoent _ = false

abbrev pub char_at : ℕ → Name → ℕ
char_at n [] = 0
char_at zero (c ∷ r) = c
char_at (suc n) (c ∷ r) = char_at n r

-- What create returned, with the directory given back.
abbrev pub created : Looked × Names → Res ℕ × Names
created (found v, s) = (good v, s)
created (failed e, s) = (bad e, s)

module _ (ops : NameOps) where
  -- lookup, with a directory that is not NULL.
  unfoldable pub look : ℕ → Name → Names → Looked × Names
  look d n s = elim (ops.lookup d) [ none ↦ (failed enotdir, s) | some f ↦ f n s ]

  abbrev pub put_prev : Option ℕ → Names → Names
  put_prev none s = s
  put_prev (some p) s = ops.vput p s

  -- A round of the loop: with what lookup returned, and with the rest of the loop.
  pub step_into :
      (ℕ → Names → Outcome (Res ℕ × Names)) → Option ℕ → Looked × Names → Outcome (Res ℕ × Names)
  step_into rest prev (failed e, s) = ok (bad e, put_prev prev s)
  step_into rest prev (found v, s) =
      let s' = put_prev prev s in
      if is_directory (s'.kind v) then rest v s' else ok (bad enotdir, ops.vput v s')

  -- The loop over the components but the last.
  pub walk : List Name → ℕ → Option ℕ → Names → Outcome (Res ℕ × Names)
  unfolding look step_into
  walk [] cur prev s = ok (good cur, s)
  walk (n ∷ r) cur prev s =
      let skipped = walk r cur prev s in
      let stepped = step_into (λ v s'. walk r v (some v) s') prev (look cur n s) in
      if is_empty n then skipped else stepped

  -- dir_namev with its components: one, or several.
  pub go_to : Name → ℕ → Name → List Name → Names → Outcome (Res Place × Names)
  unfolding strstr walk unsnoc_onto
  go_to path from first [] s = ok (placed path first (good from, ops.vref from s))
  go_to path from first (m ∷ more) s =
      let (leading, last) = unsnoc_onto first (m ∷ more) in
      walk leading from none s >>= λ r. ok (placed path last r)

  -- The array of components has 50 places.
  unfoldable pub dir_namev : Name → Name → Option ℕ → Names → Outcome (Res Place × Names)
  unfolding components go_to
  dir_namev beyond path base s =
      let (first, more) = components beyond (skip_slash path) in
      kassert (leb (length more) 49) >> go_to path (start path base s) first more s

  -- open_namev behind its lookup. `creates` is flag & O_CREAT.
  opened : Bool → ℕ → Name → ℕ → Looked × Names → Outcome (Res ℕ × Names)
  opened creates d name len (found v, s) =
      if char_at len name == slash && (if is_directory (s.kind v) then false else true)
      then ok (bad enotdir, ops.vput v (ops.vput d s))
      else ok (good v, ops.vput d s)
  opened creates d name len (failed e, s) =
      if creates && is_enoent e
      then (do
        create ← deref (ops.create d)
        let (r, s') = created (create (take len name) s)
        ok (r, ops.vput d s'))
      else ok (bad e, ops.vput d s)

  open_in : Bool → Res Place × Names → Outcome (Res ℕ × Names)
  unfolding look opened
  open_in creates (bad e, s) = ok (bad e, s)
  open_in creates (good place, s) = do
    name ← deref place.name
    if is_empty (take place.len name)
        then ok (good place.parent, s)
        else opened creates place.parent name place.len (look place.parent (take place.len name) s)

  unfoldable pub open_namev : Name → Name → Bool → Option ℕ → Names → Outcome (Res ℕ × Names)
  unfolding dir_namev open_in
  open_namev beyond path creates base s = dir_namev beyond path base s >>= open_in creates
