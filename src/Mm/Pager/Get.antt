-- ===== src/Mm/Pager/Get.antt =====
-- The steps of pframe_get for a page that is not resident, for any fillpage.
use weenix_kernel.Base.{ℕ, ◌≡◌, refl, ap, ◌∙◌, true, false, none, some, add32}
use weenix_kernel.Base.Outcome.{Outcome, ok, ◌>>=◌, deref}
use weenix_kernel.Mm.Objects.{shadow, file, Pages}
use weenix_kernel.Mm.Frames.{get_resident, listed, add_resident}
use weenix_kernel.Mm.Pager.{
  got, Filled, filled, PagerEnv, positive, set_refcount, set_busy, counted_ref, ref, alloc_in,
  alloc, fill, fill_ended, got_filled, get_in, get,
}

module _ (env : PagerEnv) where
  open env use {bucket}

  -- shadow_ref.
  pub ref-shadow :
      (o : ℕ) (s : Pages)
      → (s.objects o).kind ≡ shadow
      → positive (s.objects o).refcount ≡ true
      → ref env o s ≡ ok (set_refcount o (add32 (s.objects o).refcount 1) s)
  unfolding ref counted_ref
  ref-shadow o s kind counted =
      ap (λ kd. elim kd [ file ↦ env.file_ref o s | _ ↦ counted_ref o s ]) kind ∙ rw counted refl

  pub alloc_by :
      (f o n : ℕ) (s t : Pages)
      → env.slab s ≡ some f
      → ref env o (listed bucket f o n s) ≡ ok t
      → alloc env o n s ≡ ok (some f, add_resident f o t)
  unfolding alloc alloc_in
  alloc_by f o n s t memory counted = ap (λ m. alloc_in env o n m s) memory ∙ rw counted refl

  module _ (fillpage : ℕ → ℕ → Pages → Outcome (Filled × Pages)) where
    pub filled_by :
        (f o : ℕ) (s t : Pages)
        → (s.frames f).obj ≡ some o
        → fillpage o f (set_busy f true s) ≡ ok (filled, t)
        → fill env fillpage f s ≡ ok (filled, set_busy f false t)
    unfolding fill
    filled_by f o s t at done =
        ap (λ x. deref x >>= λ p. fillpage p f (set_busy f true s) >>= λ d. ok (fill_ended f d)) at
        ∙ ap (λ m. m >>= λ d. ok (fill_ended f d)) done

    pub got_by :
        (g o n k : ℕ) (s t w : Pages)
        → get_resident bucket o n s ≡ (none, s)
        → alloc env o n s ≡ ok (some g, t)
        → fill env fillpage g t ≡ ok (filled, w)
        → (w.frames g).busy ≡ false
        → get env k fillpage o n s ≡ ok (got g, w)
    unfolding get get_in got_filled
    got_by g o n k s t w absent made done quiet =
        ap (get_in env k fillpage o n) absent ∙ rw (made, done, quiet) refl
