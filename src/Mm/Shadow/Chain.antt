-- ===== src/Mm/Shadow/Chain.antt =====
-- What a chain of shadow objects shows at a page, and that shadow_lookuppage finds it.
use weenix_kernel.Base.{
  ℕ, zero, suc, ◌<◌, ◌≡◌, refl, sym, ap, subst, ◌∙◌, true, false, Option, none, some, List, [], ◌∷◌,
  ◌==◌, ==_iff, Bool-cases, inl, inr, length, arith, All, ◌++◌,
}
use weenix_kernel.Base.Outcome.{Ends, Ends-mono}
use weenix_kernel.Mm.Objects.{Object, Frame, Pages, is_page, Inv}
use weenix_kernel.Mm.Frames.{get_resident}
use weenix_kernel.Mm.Frames.Lookup.{Absent, Reordered, Found-cases, get_resident-Found}
use weenix_kernel.Mm.Pager.{PagerEnv}
use weenix_kernel.Mm.Shadow.{down, down_to}

-- From `o` down the objects of `l` are shadow objects, each of which shadows the next, and the last
-- one `b`, which shadows none.
abbrev pub IsChain : ℕ → List ℕ → ℕ → Pages → Type 0
IsChain o [] b s = (o ≡ b) × ((s.objects b).shadowed ≡ none)
IsChain o (p ∷ r) b s = (o ≡ p) × ((q : ℕ) × ((s.objects p).shadowed ≡ some q) × IsChain q r b s)

-- The frame of the page `n` in the first object of `l` that has one.
abbrev pub Shown : List ℕ → ℕ → Pages → ℕ → Type 0
Shown l n s f =
    (front : List ℕ) × (p : ℕ) × (rest : List ℕ) × (l ≡ front ++ (p ∷ rest))
    × All (Absent n s) front
    × (is_page p n (s.frames f) ≡ true)

-- A walk ends at that frame, or at `end` if no object has one.
abbrev pub FirstResident : {C : Type 0} → List ℕ → C → ℕ → Pages → Option ℕ × C × Pages → Type 0
FirstResident l end n s (none, cur, s') = All (Absent n s) l × (cur ≡ end) × Reordered s s'
FirstResident l end n s (some f, cur, s') = Shown l n s f × Reordered s s'

module _ (env : PagerEnv) where
  open env use {bucket}

  Absent-back :
      (n : ℕ) (l : List ℕ) (s s' : Pages)
      → Reordered s s'
      → All (Absent n s') l
      → All (Absent n s) l
  Absent-back n l s s' same h =
      subst (λ (fs : ℕ → Frame). All (λ p. (f : ℕ) → is_page p n (fs f) ≡ false) l) same.0 h

  IsChain-Reordered :
      (o : ℕ) (l : List ℕ) (b : ℕ) (s s' : Pages)
      → Reordered s s'
      → IsChain o l b s
      → IsChain o l b s'
  IsChain-Reordered o [] b s s' same (e, c) =
      (e, ap (λ (os : ℕ → Object). (os b).shadowed) same.1 ∙ c)
  IsChain-Reordered o (p ∷ r) b s s' same (e, (q, at, c)) = (
    e,
    (q, ap (λ (os : ℕ → Object). (os p).shadowed) same.1 ∙ at, IsChain-Reordered q r b s s' same c),
  )

  -- An object without the page above a walk.
  above :
      {C : Type 0} (p : ℕ) (end : C) (n : ℕ) (r : List ℕ) (s s' : Pages) (w : Option ℕ × C × Pages)
      → Absent n s p
      → Reordered s s'
      → FirstResident r end n s' w
      → FirstResident (p ∷ r) end n s w
  above p end n r s s' (none, cur, s2) no_frame same (all, ended, again) =
      ((no_frame, Absent-back n r s s' same all), ended, (again.0 ∙ same.0, again.1 ∙ same.1))
  above p end n r s s' (some f, cur, s2) no_frame same ((front, q, rest, is, all, here), again) = (
    (
      p ∷ front,
      q,
      rest,
      ap (λ (t : List ℕ). p ∷ t) is,
      (no_frame, Absent-back n front s s' same all),
      ap (λ (fs : ℕ → Frame). is_page q n (fs f)) (sym same.0) ∙ here,
    ),
    (again.0 ∙ same.0, again.1 ∙ same.1),
  )

  IsChain-bottom :
      (o : ℕ) (l : List ℕ) (b : ℕ) (s : Pages) → IsChain o l b s → (s.objects b).shadowed ≡ none
  IsChain-bottom o [] b s (e, bottom) = bottom
  IsChain-bottom o (p ∷ r) b s (e, (q, at, c)) = IsChain-bottom q r b s c

  not_bottom :
      (p q b : ℕ) (s : Pages)
      → (s.objects p).shadowed ≡ some q
      → (s.objects b).shadowed ≡ none
      → (b == p) ≡ false
  not_bottom p q b s below bottom = elim (Bool-cases (b == p)) [
    | inl e ↦ ground (arith, below, bottom, ap (λ x. (s.objects x).shadowed) ((==_iff b p).0 e))
    | inr e ↦ e
  ]

  pub down-FirstResident :
      (k : ℕ) (l : List ℕ) (o b n : ℕ) (s : Pages)
      → Inv bucket s
      → IsChain o l b s
      → length l < k
      → Ends (λ r. FirstResident l b n s r × Inv bucket r.2) (down env k o n s)
  unfolding down
  down-FirstResident zero l o b n s i c h = absurd (omega arith)
  down-FirstResident (suc k) [] o b n s i (e, bottom) h =
      let at : (s.objects o).shadowed ≡ none = ap (λ c. (s.objects c).shadowed) e ∙ bottom in
      rw (at, down) ((tt, e, (refl, refl)), i)
  down-FirstResident (suc k) (p ∷ r) o b n s i (e, (q, below, c)) h =
      let (found, i') = get_resident-Found bucket p n s i in
      let s' = (get_resident bucket p n s).1 in
      let goal = λ (x : ℕ).
        Ends (λ w. FirstResident (p ∷ r) b n s w × Inv bucket w.2) (down env (suc k) x n s) in
      subst goal (sym e) (
        rw (below, down)
          (elim (Found-cases bucket p n s (get_resident bucket p n s) found) [
            | inl (f, at, is, same) ↦ rw at ((([], p, r, refl, tt, is), same), i')
            | inr (at, no_frame, same) ↦ rw at (
                Ends-mono (λ w. FirstResident r b n s' w × Inv bucket w.2)
                  (λ w. FirstResident (p ∷ r) b n s w × Inv bucket w.2) (down env k q n s')
                  (λ w (first, j). (above p b n r s s' w no_frame same first, j))
                  (down-FirstResident k r q b n s' i' (IsChain-Reordered q r b s s' same c)
                    (omega arith)))
          ]))

  pub down_to-FirstResident :
      (k : ℕ) (l : List ℕ) (o b n : ℕ) (s : Pages)
      → Inv bucket s
      → IsChain o l b s
      → length l < k
      → Ends
          (λ r. FirstResident l (some b) n s r × Inv bucket r.2)
          (down_to env k (some b) (some o) n s)
  unfolding down_to
  down_to-FirstResident zero l o b n s i c h = absurd (omega arith)
  down_to-FirstResident (suc k) [] o b n s i (e, bottom) h =
      let end : (b == o) ≡ true = (==_iff b o).1 (sym e) in
      rw end ((tt, ap (λ x. some x) e, (refl, refl)), i)
  down_to-FirstResident (suc k) (p ∷ r) o b n s i (e, (q, below, c)) h =
      let (found, i') = get_resident-Found bucket p n s i in
      let s' = (get_resident bucket p n s).1 in
      let goal = λ (x : ℕ).
        Ends (λ w. FirstResident (p ∷ r) (some b) n s w × Inv bucket w.2)
          (down_to env (suc k) (some b) (some x) n s) in
      subst goal (sym e) (
        rw (not_bottom p q b s below (IsChain-bottom q r b s c))
          (elim (Found-cases bucket p n s (get_resident bucket p n s) found) [
            | inl (f, at, is, same) ↦ rw at ((([], p, r, refl, tt, is), same), i')
            | inr (at, no_frame, same) ↦
                rw (at, below)
                  (Ends-mono (λ w. FirstResident r (some b) n s' w × Inv bucket w.2)
                    (λ w. FirstResident (p ∷ r) (some b) n s w × Inv bucket w.2)
                    (down_to env k (some b) (some q) n s')
                    (λ w (first, j). (above p (some b) n r s s' w no_frame same first, j))
                    (down_to-FirstResident k r q b n s' i' (IsChain-Reordered q r b s s' same c)
                      (omega arith)))
          ]))
