-- ===== src/Mm/Shadow/Write.antt =====
-- pframe_get of a page of a shadow object that has none yet: the first write.
use weenix_kernel.Base.{
  ℕ, ◌<◌, ◌≡◌, refl, sym, subst, ◌∙◌, Bool, true, false, none, some, List, [], ◌∷◌, ◌++◌, ◌==◌,
  ==_iff, Bool-cases, inl, inr, length, All, arith, add32, clash,
}
use weenix_kernel.Base.Outcome.{Outcome, ok}
use weenix_kernel.Mm.Objects.{shadow, Pages, update, is_page, Inv}
use weenix_kernel.Mm.Frames.{listed, add_resident}
use weenix_kernel.Mm.Frames.Pin.{quiet-Inv}
use weenix_kernel.Mm.Frames.Cache.{cached-Inv}
use weenix_kernel.Mm.Frames.Lookup.{Absent, get_resident-Found, not_resident}
use weenix_kernel.Mm.Pager.{Got, got, PagerEnv, positive, set_refcount, set_busy, get}
use weenix_kernel.Mm.Pager.Get.{ref-shadow, alloc_by, filled_by, got_by}
use weenix_kernel.Mm.Shadow.{shadow_fillpage}
use weenix_kernel.Mm.Shadow.Chain.{IsChain, Shown}
use weenix_kernel.Mm.Shadow.Copy.{Copied, shadow_fillpage-Copied}

All-split :
    (P : ℕ → Type 0) (front rest : List ℕ) (p : ℕ) → All P (front ++ (p ∷ rest)) → All P front × P p
All-split P [] rest p h = (tt, h.0)
All-split P (x ∷ r) rest p h = let (a, b) = All-split P r rest p h.1 in ((h.0, a), b)

-- The objects of the list have the same pages in both states.
abbrev SamePages : ℕ → Pages → Pages → ℕ → Type 0
SamePages n s s' p = (u : ℕ) → is_page p n (s'.frames u) ≡ is_page p n (s.frames u)

Absent-same :
    (n : ℕ) (s s' : Pages) (l : List ℕ)
    → All (SamePages n s s') l
    → All (Absent n s) l
    → All (Absent n s') l
Absent-same n s s' [] h k = tt
Absent-same n s s' (p ∷ r) h k = ((λ u. h.0 u ∙ k.0 u), Absent-same n s s' r h.1 k.1)

Shown-same :
    (n g : ℕ) (s s' : Pages) (l : List ℕ)
    → All (SamePages n s s') l
    → Shown l n s g
    → Shown l n s' g
Shown-same n g s s' l h (front, p, rest, is, absent, here) =
    let (a, b) = All-split (SamePages n s s') front rest p (subst (All (SamePages n s s')) is h) in
    (front, p, rest, is, Absent-same n s s' front a absent, b g ∙ here)

not_both : (n g : ℕ) (s : Pages) (l : List ℕ) → All (Absent n s) l → Shown l n s g → ⊥
not_both n g s l h (front, p, rest, is, absent, here) =
    let (a, b) = All-split (Absent n s) front rest p (subst (All (Absent n s)) is h) in
    clash (is_page p n (s.frames g)) here (b g)

IsChain-same :
    (o : ℕ) (l : List ℕ) (b : ℕ) (s s' : Pages)
    → ((p : ℕ) → (s'.objects p).shadowed ≡ (s.objects p).shadowed)
    → IsChain o l b s
    → IsChain o l b s'
IsChain-same o [] b s s' h (e, c) = (e, h b ∙ c)
IsChain-same o (p ∷ r) b s s' h (e, (q, at, c)) = (e, (q, h p ∙ at, IsChain-same q r b s s' h c))

-- The state in which pframe_get fills the frame `f`.
abbrev filling : (ℕ → ℕ → ℕ) → ℕ → ℕ → ℕ → Pages → Pages
filling bucket f o n s =
    add_resident f o (set_refcount o (add32 (s.objects o).refcount 1) (listed bucket f o n s))

same_below :
    (bucket : ℕ → ℕ → ℕ) (f o n : ℕ) (s : Pages) (l : List ℕ)
    → (s.frames f).obj ≡ none
    → All (λ p. (o == p) ≡ false) l
    → All (SamePages n s (set_busy f true (filling bucket f o n s))) l
same_below bucket f o n s [] free h = tt
same_below bucket f o n s (p ∷ r) free h = (
  (λ u. ground (arith, free, h.0, ==_iff f u, ==_iff f f, ==_iff o p, ==_iff p o)),
  same_below bucket f o n s r free h.1,
)

SamePages-sym :
    (n : ℕ) (s s' : Pages) (l : List ℕ) → All (SamePages n s s') l → All (SamePages n s' s) l
SamePages-sym n s s' [] h = tt
SamePages-sym n s s' (p ∷ r) h = ((λ u. sym (h.0 u)), SamePages-sym n s s' r h.1)

apart :
    (p n f g : ℕ) (s : Pages)
    → (s.frames f).obj ≡ none
    → is_page p n (s.frames g) ≡ true
    → (f == g) ≡ false
apart p n f g s free here = elim (Bool-cases (f == g)) [
  | inl e ↦
      let no : is_page p n (s.frames f) ≡ false = ground (arith, free) in
      absurd (
        clash (is_page p n (s.frames g)) here
          (subst (λ u. is_page p n (s.frames u) ≡ false) ((==_iff f g).0 e) no))
  | inr e ↦ e
]

module _ (env : PagerEnv) where
  open env use {bucket}

  -- The frame `f` becomes a copy of the page that the objects of `l` show, pinned once.
  abbrev pub Written : ℕ → ℕ → ℕ → List ℕ → Pages → Outcome (Got × Pages) → Type 0
  Written f o n l s r =
      (g : ℕ) × (s' : Pages) × Shown l n s g
      × (r ≡ ok (got f, s'))
      × Inv bucket s'
      × ((u : ℕ)
          → s'.frames u
            ≡ update s.frames f
                (record {
                  obj = some o;
                  pagenum = n;
                  dirty = false;
                  busy = false;
                  pincount = 1;
                  content = (s.frames g).content;
                })
                u)

  module _ (k : ℕ) (look : ℕ → ℕ → Bool → Pages → Outcome (Got × Pages)) (f o n b : ℕ) (l : List ℕ)
      (s : Pages) (i : Inv bucket s) (new : Absent n s o) (memory : env.slab s ≡ some f)
      (free : (s.frames f).obj ≡ none) (kind : (s.objects o).kind ≡ shadow)
      (counted : positive (s.objects o).refcount ≡ true)
      (above : All (λ p. (o == p) ≡ false) l) where
    got_copy :
        Copied env look l b f
          (set_busy f true (filling bucket f o n s))
          (shadow_fillpage env k look o f (set_busy f true (filling bucket f o n s)))
        → (g : ℕ) → Shown l n s g
        → Written f o n l s (get env k (shadow_fillpage env k look) o n s)
    got_copy (inr (s', all, same, j, e)) g0 shown0 =
        let self : (f == f) ≡ true = (==_iff f f).1 refl in
        let s2 = set_busy f true (filling bucket f o n s) in
        let num : (s2.frames f).pagenum ≡ n = rw self refl in
        absurd (
          not_both n g0 s2 l (subst (λ m. All (Absent m s2) l) num all)
            (Shown-same n g0 s s2 l (same_below bucket f o n s l free above) shown0))
    got_copy (inl (g, s', shown, e, j, frames)) g0 shown0 =
        let self : (f == f) ≡ true = (==_iff f f).1 refl in
        let s1 = filling bucket f o n s in
        let s2 = set_busy f true s1 in
        let num : (s2.frames f).pagenum ≡ n = rw self refl in
        let back : Shown l n s g =
          Shown-same n g s2 s l (SamePages-sym n s s2 l (same_below bucket f o n s l free above))
            (subst (λ m. Shown l m s2 g) num shown) in
        let other : (f == g) ≡ false = apart back.1 n f g s free back.5 in
        let made =
          alloc_by env f o n s
            (set_refcount o (add32 (s.objects o).refcount 1) (listed bucket f o n s)) memory
            (ref-shadow env o (listed bucket f o n s) kind counted) in
        let done = filled_by env (shadow_fillpage env k look) f o s1 s' (rw self refl) e in
        let absent = not_resident bucket o n s _ new (get_resident-Found bucket o n s i).0 in
        (
          g,
          set_busy f false s',
          back,
          got_by env (shadow_fillpage env k look) f o n k s s1 (set_busy f false s') absent made
              done (rw self refl),
          quiet-Inv bucket f _ s' j refl refl refl,
          λ u. ground (arith, frames u, frames f, ==_iff f u, self, other),
        )

    -- pframe_get of a page that a shadow object has no frame for, over a chain of shadow objects with a
    -- frame for it and with a bound on the walk above the length of the chain, does not panic where the
    -- slab allocator gives a frame that is free and the object is referred to and not in the chain: it
    -- returns that frame, which is pinned once and holds a copy of the page that the chain shows.
    -- No other frame changes, those of the objects below among them, and lists and counts stay in step.
    pub get-Written :
        (q g : ℕ)
        → (s.objects o).shadowed ≡ some q
        → (s.objects o).bottom ≡ some b
        → IsChain q l b s
        → length l < k
        → Shown l n s g
        → Written f o n l s (get env k (shadow_fillpage env k look) o n s)
    get-Written q g below bottom c h shown =
        let self : (f == f) ≡ true = (==_iff f f).1 refl in
        let s1 = filling bucket f o n s in
        let s2 = set_busy f true s1 in
        let i1 : Inv bucket s1 =
          cached-Inv bucket f o n (add32 (s.objects o).refcount 1) s i free new in
        got_copy
          (shadow_fillpage-Copied env k f o q b look l s2
            (quiet-Inv bucket f _ s1 i1 refl refl refl) (rw self refl) (rw self refl) (rw self refl)
            (ground (arith, ==_iff o o, below)) (ground (arith, ==_iff o o, bottom))
            (IsChain-same q l b s s2 (λ p. ground (arith, ==_iff o p)) c) h)
          g shown
