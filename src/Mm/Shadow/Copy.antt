-- ===== src/Mm/Shadow/Copy.antt =====
-- shadow_fillpage: copy on write.
use weenix_kernel.Base.{
  ℕ, ◌<◌, ◌≡◌, refl, sym, ap, subst, ◌∙◌, Bool, true, Option, none, some, List, ==_iff, inl, inr,
  ◌⊎◌, length, All, arith,
}
use weenix_kernel.Base.Outcome.{Outcome, ok, ◌>>=◌, Ends, Ends-result}
use weenix_kernel.Mm.Objects.{Frame, Pages, update, is_some, Inv}
use weenix_kernel.Mm.Frames.{pin, set_pincount, to_pinned}
use weenix_kernel.Mm.Frames.Pin.{pin-first, pin-Inv, quiet-Inv}
use weenix_kernel.Mm.Frames.Lookup.{Absent, Reordered}
use weenix_kernel.Mm.Pager.{Got, Filled, filled, PagerEnv, set_content}
use weenix_kernel.Mm.Shadow.{down_to, copy_from, copy_looked, shadow_fillpage}
use weenix_kernel.Mm.Shadow.Chain.{IsChain, Shown, FirstResident, down_to-FirstResident}

module _ (env : PagerEnv) where
  open env use {bucket}

  copy_from-Copied :
      (f g : ℕ) (s : Pages)
      → Inv bucket s
      → is_some (s.frames f).obj ≡ true
      → (s.frames f).pincount ≡ 0
      → (s' : Pages) × (copy_from f g s ≡ ok (filled, s'))
        × Inv bucket s'
        × ((u : ℕ)
            → s'.frames u
              ≡ update s.frames f
                  (record (s.frames f) { pincount = 1; content = (s.frames g).content })
                  u)
  copy_from-Copied f g s i used loose =
      let s1 = set_pincount f 1 (to_pinned f s) in
      let first : pin f s ≡ ok s1 = pin-first bucket f s used loose in
      let j : Inv bucket s1 = subst (Ends (Inv bucket)) first (pin-Inv bucket f s i used) in
      let s2 = set_content f (s1.frames g).content s1 in
      (
        s2,
        rw first refl,
        quiet-Inv bucket f _ s1 j refl refl refl,
        λ u. ground (arith, ==_iff f u, ==_iff f g, ==_iff f f),
      )

  -- shadow_fillpage copies the page that the first object below has; where none has it, what the
  -- lookup of the bottom object, for writing, returns.
  abbrev pub Copied :
      (ℕ → ℕ → Bool → Pages → Outcome (Got × Pages))
      → List ℕ
      → ℕ
      → ℕ
      → Pages
      → Outcome (Filled × Pages)
      → Type 0
  Copied look l b f s r =
      let n = (s.frames f).pagenum in
      (((g : ℕ) × (s' : Pages) × Shown l n s g
          × (r ≡ ok (filled, s'))
          × Inv bucket s'
          × ((u : ℕ)
              → s'.frames u
                ≡ update s.frames f
                    (record (s.frames f) { pincount = 1; content = (s.frames g).content }) u))
        ⊎ ((s' : Pages) × All (Absent n s) l
            × Reordered s s'
            × Inv bucket s'
            × (r ≡ look b n true s' >>= copy_looked f)))

  after_walk :
      (k f o q b : ℕ) (look : ℕ → ℕ → Bool → Pages → Outcome (Got × Pages)) (l : List ℕ) (s : Pages)
      → (s.frames f).busy ≡ true
      → (s.frames f).pincount ≡ 0
      → is_some (s.frames f).obj ≡ true
      → (w : Option ℕ × Option ℕ × Pages)
      → down_to env k (s.objects o).bottom (s.objects o).shadowed (s.frames f).pagenum s ≡ ok w
      → FirstResident l (some b) (s.frames f).pagenum s w
      → Inv bucket w.2
      → Copied look l b f s (shadow_fillpage env k look o f s)
  unfolding shadow_fillpage
  after_walk k f o q b look l s busy loose used (none, cur, s') walked (all, ended, same) j =
      inr (s', all, same, j, rw (walked, busy, loose, ended) refl)
  after_walk k f o q b look l s busy loose used (some g, cur, s') walked (shown, same) j =
      let (s2, copied, i2, frames) =
        copy_from-Copied f g s' j
          (subst (λ (fs : ℕ → Frame). is_some (fs f).obj ≡ true) (sym same.0) used)
          (subst (λ (fs : ℕ → Frame). (fs f).pincount ≡ 0) (sym same.0) loose) in
      inl (
        g,
        s2,
        shown,
        rw (walked, busy, loose) copied,
        i2,
        λ u.
            frames u
            ∙ ap
                (λ (fs : ℕ → Frame).
                  update fs f (record (fs f) { pincount = 1; content = (fs g).content }) u)
                same.0,
      )

  -- shadow_fillpage for a busy frame that is in use and not pinned, over a chain that ends at the
  -- bottom object and with a bound on its rounds above the length of the chain, copies the page of the
  -- first object below that has it, pins the frame once and changes no other frame; where
  -- none has the page, it depends on the lookup of the bottom object, for writing.
  pub shadow_fillpage-Copied :
      (k f o q b : ℕ) (look : ℕ → ℕ → Bool → Pages → Outcome (Got × Pages)) (l : List ℕ) (s : Pages)
      → Inv bucket s
      → (s.frames f).busy ≡ true
      → (s.frames f).pincount ≡ 0
      → is_some (s.frames f).obj ≡ true
      → (s.objects o).shadowed ≡ some q
      → (s.objects o).bottom ≡ some b
      → IsChain q l b s
      → length l < k
      → Copied look l b f s (shadow_fillpage env k look o f s)
  shadow_fillpage-Copied k f o q b look l s i busy loose used below bottom c h =
      let n = (s.frames f).pagenum in
      let (w, walked, (first, j)) =
        Ends-result _ (down_to env k (some b) (some q) n s)
          (down_to-FirstResident env k l q b n s i c h) in
      after_walk k f o q b look l s busy loose used w
        (ap (λ x. down_to env k x (s.objects o).shadowed n s) bottom
          ∙ ap (λ x. down_to env k (some b) x n s) below
          ∙ walked)
        first j
