-- ===== src/Base/Members.antt =====
-- Lists of identities: membership as a test, distinctness, removal, the last entry.
use Prim.Native.Nat.{ℕ, suc}
use mathlib.Core.Path.{◌≡◌, refl, sym, ◌∙◌}
use mathlib.Core.Logic.{◌⊎◌, inl, inr}
use mathlib.Core.Bool.{Bool, true, false, ◌||◌}
use mathlib.Core.Option.{Option, none, some}
use mathlib.Core.List.{List, [], ◌∷◌, ◌++◌}
use native.Mathlib.Omega.{arith}
use weenix_kernel.Base.Tests.{◌==◌, ==_iff, if◌then◌else◌}
use weenix_kernel.Base.Lists.{length}

abbrev pub has : ℕ → List ℕ → Bool
has t [] = false
has t (x ∷ r) = (x == t) || has t r

abbrev pub Distinct : List ℕ → Type 0
Distinct [] = Unit {0}
Distinct (x ∷ r) = (has x r ≡ false) × Distinct r

-- The list without the first entry that is `t`.
abbrev pub erase : ℕ → List ℕ → List ℕ
erase t [] = []
erase t (x ∷ r) = if x == t then r else x ∷ erase t r

-- The last entry, and the entries before it.
unfoldable pub unsnoc_onto {ℓ} : {A : Type ℓ} → A → List A → List A × A
unsnoc_onto x [] = ([], x)
unsnoc_onto x (y ∷ r) = let (front, last) = unsnoc_onto y r in (x ∷ front, last)

unfoldable pub unsnoc {ℓ} : {A : Type ℓ} → List A → Option (List A × A)
unfolding unsnoc_onto
unsnoc [] = none
unsnoc (x ∷ r) = some (unsnoc_onto x r)

pub unsnoc_onto-append {ℓ} :
    {A : Type ℓ} (x : A) (r : List A) → (unsnoc_onto x r).0 ++ (unsnoc_onto x r).1 ∷ [] ≡ x ∷ r
unfolding unsnoc_onto
unsnoc_onto-append x [] = refl
unsnoc_onto-append x (y ∷ r) = rw (unsnoc_onto-append y r)

pub unsnoc-snoc {ℓ} : {A : Type ℓ} (xs : List A) (a : A) → unsnoc (xs ++ a ∷ []) ≡ some (xs, a)
unfolding unsnoc
unsnoc-snoc [] a = refl
unsnoc-snoc (x ∷ r) a = ground (arith, unsnoc-snoc r a)

pub has-append : (t : ℕ) (xs ys : List ℕ) → has t (xs ++ ys) ≡ (has t xs || has t ys)
has-append t [] ys = refl
has-append t (x ∷ r) ys = ground (arith, has-append t r ys)

pub has-erase :
    (t u : ℕ) (m : List ℕ) → Distinct m → has u (erase t m) ≡ (if t == u then false else has u m)
has-erase t u [] d = ground arith
has-erase t u (x ∷ r) d = ground (arith, has-erase t u r d.1)

pub erase-Distinct : (t : ℕ) (m : List ℕ) → Distinct m → Distinct (erase t m)
erase-Distinct t [] d = tt
erase-Distinct t (x ∷ r) d = ground (arith, erase-Distinct t r d.1, has-erase t x r d.1)

pub length-erase : (t : ℕ) (m : List ℕ) → has t m ≡ true → suc (length (erase t m)) ≡ length m
length-erase t [] h = cc
length-erase t (x ∷ r) h = ground (arith, length-erase t r)

pub Distinct-snoc :
    (xs : List ℕ) (t : ℕ) → Distinct (xs ++ t ∷ []) → Distinct xs × (has t xs ≡ false)
Distinct-snoc [] t d = (tt, refl)
Distinct-snoc (x ∷ r) t d = ground (arith, Distinct-snoc r t d.1, has-append x r (t ∷ []))

pub unsnoc-cases {ℓ} :
    {A : Type ℓ} (m : List A)
    → ((m ≡ []) × (unsnoc m ≡ none))
      ⊎ ((front : List A) × (a : A) × (m ≡ front ++ a ∷ []) × (unsnoc m ≡ some (front, a)))
unfolding unsnoc
unsnoc-cases [] = inl (refl, refl)
unsnoc-cases (x ∷ r) = inr (_, _, sym (unsnoc_onto-append x r), refl)

-- Each entry put in front, one after the other.
abbrev pub rev_onto : List ℕ → List ℕ → List ℕ
rev_onto [] acc = acc
rev_onto (x ∷ r) acc = rev_onto r (x ∷ acc)

pub has-rev_onto : (t : ℕ) (xs acc : List ℕ) → has t (rev_onto xs acc) ≡ (has t xs || has t acc)
has-rev_onto t [] acc = refl
has-rev_onto t (x ∷ r) acc = has-rev_onto t r (x ∷ acc) ∙ ground arith

pub rev_onto-Distinct :
    (xs acc : List ℕ)
    → Distinct xs
    → Distinct acc
    → ((t : ℕ) → has t xs ≡ true → has t acc ≡ false)
    → Distinct (rev_onto xs acc)
rev_onto-Distinct [] acc d e apart = e
rev_onto-Distinct (x ∷ r) acc d e apart =
    rev_onto-Distinct r (x ∷ acc) d.1 (apart x (ground arith), e)
      (λ t h. ground (arith, apart t, (==_iff x t).0))
