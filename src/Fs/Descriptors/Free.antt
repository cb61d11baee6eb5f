-- ===== src/Fs/Descriptors/Free.antt =====
-- get_empty_fd finds the least unused descriptor.
use weenix_kernel.Base.{
  ℕ, zero, suc, ◌+◌, ◌≡◌, ◌<◌, ◌≤◌, ◌⊎◌, inl, inr, refl, true, false, none, some, arith, Bool-cases,
  Option, ◌==◌, ==_iff, clash, subst, ap, sym, ◌∙◌, ◌≢◌,
}
use weenix_kernel.Fs.Layer.{Fs}
use weenix_kernel.Fs.Descriptors.{in_use, free_from, get_empty_fd}

-- `o` is the least unused descriptor from `low` up to `high`, or there is none.
abbrev pub Least : ℕ → ℕ → Fs → Option ℕ → Type 0
Least low high s o =
    ((o ≡ none) × ((d : ℕ) → low ≤ d → d < high → in_use (s.fds d) ≡ true))
    ⊎ ((e : ℕ) × (o ≡ some e)
        × (low ≤ e)
        × (e < high)
        × (s.fds e ≡ none)
        × ((d : ℕ) → low ≤ d → d < e → in_use (s.fds d) ≡ true))

in_use-none : (o : Option ℕ) → in_use o ≡ false → o ≡ none
in_use-none none e = refl
in_use-none (some f) e = cc

from_next :
    (fd : ℕ) (s : Fs) (P : ℕ → Type 0)
    → in_use (s.fds fd) ≡ true
    → ((d : ℕ) → fd + 1 ≤ d → P d → in_use (s.fds d) ≡ true)
    → (d : ℕ) → fd ≤ d
    → P d
    → in_use (s.fds d) ≡ true
from_next fd s P u all d le p = elim (Bool-cases (fd == d)) [
  | inl q ↦ ap (λ x. in_use (s.fds x)) (sym ((==_iff fd d).0 q)) ∙ u
  | inr q ↦ let ne : fd ≢ d = λ e. clash (fd == d) ((==_iff fd d).1 e) q in all d (omega arith) p
]

free_from-Least : (n fd : ℕ) (s : Fs) → Least fd (fd + n) s (free_from n fd s)
unfolding free_from
free_from-Least zero fd s = inl (refl, λ d a b. absurd (omega arith))
free_from-Least (suc n) fd s = elim (Bool-cases (in_use (s.fds fd))) [
  | inr u ↦
      rw u
        (inr (fd, refl, omega arith, omega arith, in_use-none _ u, λ d a b. absurd (omega arith)))
  | inl u ↦ rw u (elim (free_from-Least n (fd + 1) s) [
    | inl (e, all) ↦
        inl (e, from_next fd s (λ d. d < fd + suc n) u (λ d a b. all d a (omega arith)))
    | inr (d, e, a, b, x, all) ↦
        inr (d, e, omega arith, omega arith, x, from_next fd s (λ g. g < d) u all)
  ])
]

-- get_empty_fd returns the least unused descriptor below the size of the table, and -EMFILE only if
-- all are in use.
pub get_empty_fd-Least : (nfiles : ℕ) (s : Fs) → Least 0 nfiles s (get_empty_fd nfiles s)
unfolding get_empty_fd
get_empty_fd-Least nfiles s =
    subst (λ h. Least 0 h s (free_from nfiles 0 s)) (omega arith) (free_from-Least nfiles 0 s)
