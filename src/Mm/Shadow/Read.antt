-- ===== src/Mm/Shadow/Read.antt =====
-- shadow_lookuppage for reading.
use weenix_kernel.Base.{
  ℕ, ◌<◌, ◌≡◌, refl, sym, ap, ◌∙◌, Bool, true, false, Option, none, some, List, ◌==◌, ==_iff, inl,
  inr, ◌⊎◌, length, All,
}
use weenix_kernel.Base.Outcome.{Outcome, ok, Ends-result}
use weenix_kernel.Mm.Objects.{Frame, Pages, Inv}
use weenix_kernel.Mm.Frames.Lookup.{Absent, Reordered, page_of}
use weenix_kernel.Mm.Pager.{Got, got, PagerEnv}
use weenix_kernel.Mm.Shadow.{down, shadow_lookuppage}
use weenix_kernel.Mm.Shadow.Chain.{IsChain, Shown, FirstResident, down-FirstResident}

module _ (env : PagerEnv) where
  open env use {bucket}

  -- A read returns the page of the first object that has it; where none has it, it is the lookup of
  -- the object at the bottom.
  abbrev pub Read :
      (ℕ → ℕ → Bool → Pages → Outcome (Got × Pages))
      → List ℕ
      → ℕ
      → ℕ
      → Pages
      → Outcome (Got × Pages)
      → Type 0
  Read look l b n s r =
      (s' : Pages) × Reordered s s'
      × Inv bucket s'
      × (((f : ℕ) × Shown l n s f × (r ≡ ok (got f, s')))
          ⊎ (All (Absent n s) l × (r ≡ look b n false s')))

  from_walk :
      (k : ℕ) (look : ℕ → ℕ → Bool → Pages → Outcome (Got × Pages)) (l : List ℕ) (o b n : ℕ)
      (s : Pages)
      → ((f : ℕ) → Shown l n s f → (s.frames f).busy ≡ false)
      → (w : Option ℕ × ℕ × Pages) → down env k o n s ≡ ok w
      → FirstResident l b n s w
      → Inv bucket w.2
      → Read look l b n s (shadow_lookuppage env k look o n false s)
  unfolding shadow_lookuppage
  from_walk k look l o b n s quiet (none, cur, s') walked (all, ended, same) j =
      (s', same, j, inr (all, rw (walked, ended) refl))
  from_walk k look l o b n s quiet (some f, cur, s') walked (shown, same) j =
      let free : (s'.frames f).busy ≡ false =
        ap (λ (fs : ℕ → Frame). (fs f).busy) same.0 ∙ quiet f shown in
      let right : (n == (s'.frames f).pagenum) ≡ true = (==_iff n _).1 (
        sym (
          ap (λ (fs : ℕ → Frame). (fs f).pagenum) same.0
          ∙ (page_of shown.1 n (s.frames f) shown.5).1)) in
      (s', same, j, inl (f, shown, rw (walked, right, free) refl))

  -- shadow_lookuppage for reading, from the head of a chain of shadow objects and with a bound on its
  -- rounds above the length of the chain, does not panic where the page that the chain shows is not
  -- busy: it returns that page, and where no object of the chain has the page it is the lookup
  -- of the object at the bottom. Only the order of the allocated list changes.
  pub shadow_lookuppage-Read :
      (k : ℕ) (look : ℕ → ℕ → Bool → Pages → Outcome (Got × Pages)) (l : List ℕ) (o b n : ℕ)
      (s : Pages)
      → Inv bucket s
      → IsChain o l b s
      → length l < k
      → ((f : ℕ) → Shown l n s f → (s.frames f).busy ≡ false)
      → Read look l b n s (shadow_lookuppage env k look o n false s)
  shadow_lookuppage-Read k look l o b n s i c h quiet =
      let (w, walked, (first, j)) =
        Ends-result _ (down env k o n s) (down-FirstResident env k l o b n s i c h) in
      from_walk k look l o b n s quiet w walked first j
