-- ===== src/Proc/Exit/Close.antt =====
-- The files that proc_cleanup closes.
use weenix_kernel.Base.{
  zero, suc, ◌+◌, ◌++◌, ℕ, ◌≡◌, refl, Option, none, some, List, [], ◌∷◌, arith, subst, ◌∙◌,
}
use weenix_kernel.Proc.Process.{Call}
use weenix_kernel.Proc.Exit.{close_file, close_files, vput_all}
use weenix_kernel.Fs.Descriptors.Count.{holders, points}
use weenix_kernel.Proc.Process.{fput, vget, vput, vmmap_destroy}

-- How often the calls give up a reference to the file `f`.
abbrev pub fputs : ℕ → List Call → ℕ
fputs f [] = 0
fputs f (fput g ∷ r) = points (some g) f + fputs f r
fputs f (vget v ∷ r) = fputs f r
fputs f (vput v ∷ r) = fputs f r
fputs f (vmmap_destroy p ∷ r) = fputs f r

pub fputs-append : (f : ℕ) (a b : List Call) → fputs f (a ++ b) ≡ fputs f a + fputs f b
fputs-append f [] b = omega arith
fputs-append f (fput g ∷ r) b = rw (fputs-append f r b) (omega arith)
fputs-append f (vget v ∷ r) b = fputs-append f r b
fputs-append f (vput v ∷ r) b = fputs-append f r b
fputs-append f (vmmap_destroy p ∷ r) b = fputs-append f r b

fputs-close_file :
    (o : Option ℕ) (r : List Call) (f h : ℕ)
    → fputs f (close_file o r) + h ≡ fputs f r + (h + points o f)
fputs-close_file none r f h = omega arith
fputs-close_file (some g) r f h = omega arith

pub fputs-close_files :
    (n d : ℕ) (files : ℕ → Option ℕ) (f : ℕ)
    → fputs f (close_files n d files) + holders d files f ≡ holders (d + n) files f
unfolding close_files holders
fputs-close_files zero d files f = let e : d + 0 ≡ d = omega arith in rw e (omega arith)
fputs-close_files (suc n) d files f =
    let h = fputs-close_files n (d + 1) files f in
    let u : d + 1 ≡ suc d = omega arith in
    let e : d + 1 + n ≡ d + suc n = omega arith in
    let h' =
      subst
        (λ x. fputs f (close_files n (d + 1) files) + holders (d + 1) files f ≡ holders x files f) e
        h in
    fputs-close_file (files d) (close_files n (d + 1) files) f (holders d files f)
    ∙ subst
        (λ x.
          fputs f (close_files n (d + 1) files) + holders x files f ≡ holders (d + suc n) files f)
        u h'

pub vput_all-fputs : (o : Option ℕ) (p f : ℕ) → fputs f (vput_all o ++ vmmap_destroy p ∷ []) ≡ 0
vput_all-fputs none p f = refl
vput_all-fputs (some v) p f = refl
