-- ===== src/Proc/Exit/Moves.antt =====
-- The loop of proc_cleanup that gives the children to the init process.
use weenix_kernel.Base.{
  ℕ, ◌≡◌, inl, inr, refl, Bool, true, false, some, List, [], ◌∷◌, has, rev_onto, arith, ◌==◌,
  if◌then◌else◌, ap, ◌∙◌, Bool-cases, ◌||◌, ==_iff,
}
use weenix_kernel.Proc.Process.{Kernel}
use weenix_kernel.Proc.Exit.{move_child, reparent}

-- The processes behind the loop of proc_cleanup.
abbrev pub Moved : List ℕ → ℕ → Kernel → Kernel → Type 0
Moved cs init k k' =
    ((u : ℕ)
      → k'.procs u ≡ (record (k.procs u) {
        parent = if has u cs then some init else (k.procs u).parent;
        children = if init == u then rev_onto cs (k.procs init).children else (k.procs u).children;
      }))
    × (k'.proc_list ≡ k.proc_list)
    × (k'.sys ≡ k.sys)
    × (k'.curproc ≡ k.curproc)
    × (k'.initproc ≡ k.initproc)

same : (u : ℕ) → (u == u) ≡ true
same u = (==_iff u u).1 refl

move_child-Moved : (c init : ℕ) (k : Kernel) → Moved (c ∷ []) init k (move_child c init k)
unfolding move_child
move_child-Moved c init k = (
  (λ u. elim (Bool-cases (c == u)) [
    | inl a ↦ elim (Bool-cases (init == u)) [
      | inl b ↦ rw ((==_iff c u).0 a) rw ((==_iff init u).0 b) rw (same u) refl
      | inr b ↦ rw ((==_iff c u).0 a) rw b rw (same u) refl
    ]
    | inr a ↦ elim (Bool-cases (init == u)) [
      | inl b ↦ rw a rw ((==_iff init u).0 b) rw (same u) refl
      | inr b ↦ rw a rw b refl
    ]
  ]),
  refl,
  refl,
  refl,
  refl,
)

-- The parent behind two moves.
if-if :
    {A : Type 0} (b c : Bool) (x y : A)
    → (if c then x else (if b || false then x else y)) ≡ (if b || c then x else y)
if-if true true x y = refl
if-if true false x y = refl
if-if false true x y = refl
if-if false false x y = refl

if-same :
    {A : Type 0} (b : Bool) (x y z : A)
    → (if b then x else (if b then y else z)) ≡ (if b then x else z)
if-same true x y z = refl
if-same false x y z = refl

pub reparent-Moved : (cs : List ℕ) (init : ℕ) (k : Kernel) → Moved cs init k (reparent cs init k)
unfolding reparent
reparent-Moved [] init k = (
  (λ u. ground (arith, (==_iff init u).0, ap (λ x. (k.procs x).children))),
  refl,
  refl,
  refl,
  refl,
)
reparent-Moved (c ∷ r) init k =
    let k1 = move_child c init k in
    let m = move_child-Moved c init k in
    let h = reparent-Moved r init k1 in
    (
      (λ u.
          h.0 u
          ∙ rw (m.0 u) rw (m.0 init) rw (same init) rw
              (if-same (init == u) (rev_onto r (c ∷ (k.procs init).children))
                (c ∷ (k.procs init).children) (k.procs u).children)
              rw (if-if (c == u) (has u r) (some init) (k.procs u).parent) refl),
      h.1 ∙ m.1,
      h.2 ∙ m.2,
      h.3 ∙ m.3,
      h.4 ∙ m.4,
    )
