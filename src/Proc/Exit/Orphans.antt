-- ===== src/Proc/Exit/Orphans.antt =====
-- The tree of processes without the one that exits: no orphan is left.
use weenix_kernel.Base.{
  ℕ, ◌≡◌, ◌≢◌, inl, inr, refl, true, false, some, has, Distinct, rev_onto, has-rev_onto,
  rev_onto-Distinct, arith, ◌==◌, if◌then◌else◌, ap, sym, subst, ◌∙◌, Bool-cases, ◌||◌, clash,
  ==_iff,
}
use weenix_kernel.Base.Int.{ℤ}
use weenix_kernel.Proc.Process.{running, dead, Kernel}
use weenix_kernel.Proc.Process.Family.{Family}

-- The processes behind proc_cleanup: `cur` is dead, and its children belong to `init`.
pub record Buried (cur init : ℕ) (status : ℤ) (k k' : Kernel) : Type 0 where
  pub listed : k'.proc_list ≡ k.proc_list
  pub states : (u : ℕ) → (k'.procs u).state ≡ (if cur == u then dead else (k.procs u).state)
  pub parents :
      (u : ℕ)
      → (k'.procs u).parent
        ≡ (if has u (k.procs cur).children then some init else (k.procs u).parent)
  pub children :
      (u : ℕ)
      → (k'.procs u).children ≡ (
          if init == u
          then rev_onto (k.procs cur).children (k.procs init).children
          else (k.procs u).children)
  pub exit_status : (k'.procs cur).status ≡ status

module _ (cur init : ℕ) (status : ℤ) (k k' : Kernel) (f : Family k)
    (cur_listed : has cur k.proc_list ≡ true) (cur_runs : (k.procs cur).state ≡ running)
    (init_listed : has init k.proc_list ≡ true) (init_runs : (k.procs init).state ≡ running)
    (ne : init ≢ cur) (b : Buried cur init status k k') where
  apart : (t : ℕ) → has t (k.procs cur).children ≡ true → has t (k.procs init).children ≡ false
  apart t h = elim (Bool-cases (has t (k.procs init).children)) [
    | inr e ↦ e
    | inl e ↦
        let x = (f.is_child cur t cur_listed cur_runs h).1 in
        let y = (f.is_child init t init_listed init_runs e).1 in ground (arith, sym x ∙ y)
  ]

  not_cur : (p : ℕ) → (k'.procs p).state ≡ running → (cur ≢ p) × ((k.procs p).state ≡ running)
  not_cur p r = ground (arith, b.states p)

  -- A child of another process than `cur` keeps its parent.
  keeps :
      (p c : ℕ)
      → has p k.proc_list ≡ true
      → (k.procs p).state ≡ running
      → cur ≢ p
      → has c (k.procs p).children ≡ true
      → has c (k.procs cur).children ≡ false
  keeps p c l r d h = elim (Bool-cases (has c (k.procs cur).children)) [
    | inr e ↦ e
    | inl e ↦
        let x = (f.is_child cur c cur_listed cur_runs e).1 in
        let y = (f.is_child p c l r h).1 in ground (arith, sym x ∙ y)
  ]

  was : (p : ℕ) → has p k'.proc_list ≡ true → has p k.proc_list ≡ true
  was p = subst (λ m. has p m ≡ true) b.listed

  still : (p : ℕ) → has p k.proc_list ≡ true → has p k'.proc_list ≡ true
  still p = subst (λ m. has p m ≡ true) (sym b.listed)

  new_parent : (c : ℕ) → has c (k.procs cur).children ≡ true → (k'.procs c).parent ≡ some init
  new_parent c u = b.parents c ∙ rw u refl

  old_parent :
      (c : ℕ) → has c (k.procs cur).children ≡ false → (k'.procs c).parent ≡ (k.procs c).parent
  old_parent c u = b.parents c ∙ rw u refl

  of_init :
      (c p : ℕ)
      → (init == p) ≡ true
      → has c (k'.procs p).children
        ≡ (has c (k.procs cur).children || has c (k.procs init).children)
  of_init c p e =
      ap (has c) (b.children p ∙ rw e refl)
      ∙ has-rev_onto c (k.procs cur).children (k.procs init).children

  of_other :
      (c p : ℕ) → (init == p) ≡ false → has c (k'.procs p).children ≡ has c (k.procs p).children
  of_other c p e = ap (has c) (b.children p ∙ rw e refl)

  buried_once :
      (p : ℕ)
      → has p k.proc_list ≡ true
      → (k'.procs p).state ≡ running
      → Distinct (k'.procs p).children
  buried_once p l r = elim (Bool-cases (init == p)) [
    | inl e ↦ subst Distinct (sym (b.children p ∙ rw e refl)) (
        rev_onto-Distinct (k.procs cur).children (k.procs init).children
          (f.children_once cur cur_listed cur_runs) (f.children_once init init_listed init_runs)
          apart)
    | inr e ↦ subst Distinct (sym (b.children p ∙ rw e refl)) (f.children_once p l (not_cur p r).1)
  ]

  buried_child :
      (p c : ℕ)
      → has p k.proc_list ≡ true
      → (k'.procs p).state ≡ running
      → has c (k'.procs p).children ≡ true
      → (has c k.proc_list ≡ true) × ((k'.procs c).parent ≡ some p)
  buried_child p c l r h = elim (Bool-cases (init == p)) [
    | inl e ↦ elim (Bool-cases (has c (k.procs cur).children)) [
      | inl u ↦ (
        (f.is_child cur c cur_listed cur_runs u).0,
        new_parent c u ∙ ap some ((==_iff init p).0 e),
      )
      | inr u ↦
          let q = of_init c p e in
          let x = f.is_child init c init_listed init_runs (ground arith) in
          (x.0, old_parent c u ∙ x.1 ∙ ap some ((==_iff init p).0 e))
    ]
    | inr e ↦
        let (d, s) = not_cur p r in
        let h' = sym (of_other c p e) ∙ h in
        let x = f.is_child p c l s h' in (x.0, old_parent c (keeps p c l s d h') ∙ x.1)
  ]

  buried_in :
      (p c : ℕ)
      → has p k.proc_list ≡ true
      → (k'.procs p).state ≡ running
      → has c k.proc_list ≡ true
      → (k'.procs c).parent ≡ some p
      → has c (k'.procs p).children ≡ true
  buried_in p c l r m e = elim (Bool-cases (has c (k.procs cur).children)) [
    | inl u ↦
        let q : init ≡ p = ground (arith, sym (new_parent c u) ∙ e) in
        of_init c p ((==_iff init p).1 q) ∙ rw u refl
    | inr u ↦
        let x = f.in_children p c l (not_cur p r).1 m (sym (old_parent c u) ∙ e) in
        elim (Bool-cases (init == p)) [
          | inl i ↦
              of_init c p i ∙ rw u (ap (λ y. has c (k.procs y).children) ((==_iff init p).0 i) ∙ x)
          | inr i ↦ of_other c p i ∙ x
        ]
  ]

  buried_orphan :
      (c p : ℕ)
      → has c k.proc_list ≡ true
      → (k'.procs c).parent ≡ some p
      → (has p k.proc_list ≡ true) × ((k'.procs p).state ≡ running)
  buried_orphan c p l e = elim (Bool-cases (has c (k.procs cur).children)) [
    | inl u ↦
        let q : init ≡ p = ground (arith, sym (new_parent c u) ∙ e) in
        (
          subst (λ y. has y k.proc_list ≡ true) q init_listed,
          subst (λ y. (k'.procs y).state ≡ running) q (ground (arith, b.states init)),
        )
    | inr u ↦
        let e' = sym (old_parent c u) ∙ e in
        let (a, r) = f.no_orphan c p l e' in
        elim (Bool-cases (cur == p)) [
          | inl i ↦
              clash (has c (k.procs cur).children)
                (f.in_children cur c cur_listed cur_runs l
                  (e' ∙ ap some (sym ((==_iff cur p).0 i))))
                u
          | inr i ↦ (a, b.states p ∙ rw i r)
        ]
  ]

  pub Buried-Family : Family k'
  Buried-Family = record {
    once = subst Distinct (sym b.listed) f.once;
    children_once = λ p l r. buried_once p (was p l) r;
    is_child = λ p c l r h. let (x, y) = buried_child p c (was p l) r h in (still c x, y);
    in_children = λ p c l r m e. buried_in p c (was p l) r (was c m) e;
    no_orphan = λ c p l e. let (x, y) = buried_orphan c p (was c l) e in (still p x, y);
  }
