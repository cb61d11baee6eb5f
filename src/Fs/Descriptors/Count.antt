-- ===== src/Fs/Descriptors/Count.antt =====
-- The references to a file are the descriptors that point to it and those held elsewhere.
use weenix_kernel.Base.{
  ℕ, zero, suc, ◌+◌, ◌≡◌, ◌<◌, ◌≤◌, Option, none, some, arith, ap, ◌∙◌, sym, refl, if◌then◌else◌,
  ◌==◌, Bool-cases, clash, ==_iff, ◌≢◌, inl, inr,
}
use weenix_kernel.Fs.Layer.{Fs, update}

abbrev pub points : Option ℕ → ℕ → ℕ
points none g = 0
points (some f) g = if f == g then 1 else 0

-- How many of the first `n` descriptors point to `g`.
unfoldable pub holders : ℕ → (ℕ → Option ℕ) → ℕ → ℕ
holders zero fds g = 0
holders (suc n) fds g = holders n fds g + points (fds n) g

-- Only descriptors of the table are in use, and each file counts the descriptors that point to it
-- and the references `outside` (those of other processes, for one).
pub record FdInv (nfiles : ℕ) (outside : ℕ → ℕ) (s : Fs) : Type 0 where
  pub in_table : (d f : ℕ) → s.fds d ≡ some f → d < nfiles
  pub counted : (f : ℕ) → (s.files f).refcount ≡ holders nfiles s.fds f + outside f

pub holders-same :
    (n : ℕ) (a b : ℕ → Option ℕ) (g : ℕ) → ((d : ℕ) → a d ≡ b d) → holders n a g ≡ holders n b g
unfolding holders
holders-same zero a b g e = refl
holders-same (suc n) a b g e = rw (holders-same n a b g e) rw (e n) refl

holders-beyond :
    (n : ℕ) (fds : ℕ → Option ℕ) (d : ℕ) (o : Option ℕ) (g : ℕ)
    → n ≤ d
    → holders n (update fds d o) g ≡ holders n fds g
unfolding holders
holders-beyond zero fds d o g le = refl
holders-beyond (suc n) fds d o g le = ground (arith, holders-beyond n fds d o g (omega arith))

pub holders-update :
    (n : ℕ) (fds : ℕ → Option ℕ) (d : ℕ) (o : Option ℕ) (g : ℕ)
    → d < n
    → holders n (update fds d o) g + points (fds d) g ≡ holders n fds g + points o g
unfolding holders
holders-update zero fds d o g lt = omega arith
holders-update (suc n) fds d o g lt = elim (Bool-cases (d == n)) [
  | inl q ↦
      let e : d ≡ n = (==_iff d n).0 q in
      let h = holders-beyond n fds d o g (omega arith) in rw q rw h rw e (omega arith)
  | inr q ↦
      let ne : d ≢ n = λ e. clash (d == n) ((==_iff d n).1 e) q in
      let h = holders-update n fds d o g (omega arith) in rw q (omega arith)
]

pub holders-open :
    (n : ℕ) (fds : ℕ → Option ℕ) (d f : ℕ) → d < n → fds d ≡ some f → 1 ≤ holders n fds f
unfolding holders
holders-open zero fds d f lt e = omega arith
holders-open (suc n) fds d f lt e = elim (Bool-cases (d == n)) [
  | inl q ↦
      let en : fds n ≡ some f = ap fds (sym ((==_iff d n).0 q)) ∙ e in
      ground (arith, ap (λ x. points x f) en)
  | inr q ↦
      let ne : d ≢ n = λ e. clash (d == n) ((==_iff d n).1 e) q in
      let h = holders-open n fds d f (omega arith) e in omega arith
]

-- One store to the table, and reference counts that follow it.
pub recount :
    (nfiles : ℕ) (outside : ℕ → ℕ) (s s' : Fs) (d : ℕ) (o : Option ℕ)
    → d < nfiles
    → FdInv nfiles outside s
    → ((e : ℕ) → s'.fds e ≡ update s.fds d o e)
    → ((g : ℕ) → (s'.files g).refcount + points (s.fds d) g ≡ (s.files g).refcount + points o g)
    → FdInv nfiles outside s'
recount nfiles outside s s' d o lt i at count = record {
  in_table = λ e g x. ground (arith, i.in_table e g, at e, (==_iff d e).0);
  counted = λ g.
      let a = holders-same nfiles s'.fds (update s.fds d o) g at in
      let b = holders-update nfiles s.fds d o g lt in
      let c = count g in let h = i.counted g in omega arith;
}
