-- ===== src/Proc/Process/Create.antt =====
-- proc_create adds a child to the current process.
use weenix_kernel.Base.{
  ℕ, ◌≡◌, ◌≢◌, ◌⊎◌, inl, inr, refl, true, false, Option, some, List, [], ◌∷◌, has, Distinct, arith,
  ◌==◌, differ, if◌then◌else◌, ap, sym, subst, ◌∙◌, Bool-cases, ◌||◌, clash, ==_iff,
}
use weenix_kernel.Proc.Process.{running, Process, Kernel, Call, link_in}
use weenix_kernel.Proc.Process.Family.{Family}

-- A new process `p` that no process is yet: it has `parent`, a running process on the list.
pub record NewProcess (p parent : ℕ) (k : Kernel) : Type 0 where
  pub new : has p k.proc_list ≡ false
  pub no_child : (c : ℕ) → has c k.proc_list ≡ true → (k.procs c).parent ≢ some p
  pub parent_is : k.curproc ≡ some parent
  pub parent_listed : has parent k.proc_list ≡ true
  pub parent_runs : (k.procs parent).state ≡ running

abbrev pub Created : ℕ → ℕ → Option ℕ → Kernel → Kernel × List Call → Type 0
Created p parent pid k (k', calls) =
    Family k'
    × (k'.proc_list ≡ p ∷ k.proc_list)
    × ((k'.procs p).pid ≡ pid)
    × ((k'.procs p).parent ≡ some parent)
    × ((k'.procs p).state ≡ running)
    × ((k'.procs p).children ≡ [])
    × ((k'.procs parent).children ≡ p ∷ (k.procs parent).children)
    × ((u : ℕ) → p ≢ u → parent ≢ u → k'.procs u ≡ k.procs u)

module _ (p parent : ℕ) (pid : Option ℕ) (k : Kernel) (f : Family k) (n : NewProcess p parent k)
    (x : Process) (x_pid : x.pid ≡ pid) (x_parent : x.parent ≡ some parent)
    (x_runs : x.state ≡ running) (x_children : x.children ≡ []) where
  other : p ≢ parent
  other e =
      clash (has parent k.proc_list) n.parent_listed
        (subst (λ y. has y k.proc_list ≡ false) e n.new)

  abbrev after : Kernel
  after = link_in p pid x k

  at_new : after.procs p ≡ x
  at_new = rw n.parent_is rw (differ parent p (λ e. other (sym e))) rw ((==_iff p p).1 refl) refl

  at_parent :
      after.procs parent ≡ record (k.procs parent) { children = p ∷ (k.procs parent).children }
  at_parent = rw n.parent_is rw ((==_iff parent parent).1 refl) rw (differ p parent other) refl

  elsewhere : (u : ℕ) → p ≢ u → parent ≢ u → after.procs u ≡ k.procs u
  elsewhere u a b = rw n.parent_is rw (differ parent u b) rw (differ p u a) refl

  list_after : after.proc_list ≡ p ∷ k.proc_list
  list_after = refl

  -- A process is the new one, its parent, or as it was.
  where_is :
      (u : ℕ) → (p ≡ u) ⊎ (((parent ≡ u) × (p ≢ u)) ⊎ ((p ≢ u) × (after.procs u ≡ k.procs u)))
  where_is u = elim (Bool-cases (p == u)) [
    | inl e ↦ inl ((==_iff p u).0 e)
    | inr a ↦ elim (Bool-cases (parent == u)) [
      | inl e ↦ inr (inl ((==_iff parent u).0 e, λ c. clash (p == u) ((==_iff p u).1 c) a))
      | inr b ↦
          let a' : p ≢ u = λ c. clash (p == u) ((==_iff p u).1 c) a in
          inr (inr (a', elsewhere u a' (λ c. clash (parent == u) ((==_iff parent u).1 c) b)))
    ]
  ]

  state_at : (u : ℕ) → (after.procs u).state ≡ (if p == u then running else (k.procs u).state)
  state_at u = elim (where_is u) [
    | inl e ↦
        subst (λ v. (after.procs v).state ≡ (if p == v then running else (k.procs v).state)) e
          (rw ((==_iff p p).1 refl) (ap (λ (y : Process). y.state) at_new ∙ x_runs))
    | inr (inl (e, d)) ↦ rw (differ p u d) (
        subst (λ v. (after.procs v).state ≡ (k.procs v).state) e
          (ap (λ (y : Process). y.state) at_parent))
    | inr (inr (d, e)) ↦ rw (differ p u d) (ap (λ (y : Process). y.state) e)
  ]

  parent_at :
      (u : ℕ) → (after.procs u).parent ≡ (if p == u then some parent else (k.procs u).parent)
  parent_at u = elim (where_is u) [
    | inl e ↦
        subst (λ v. (after.procs v).parent ≡ (if p == v then some parent else (k.procs v).parent)) e
          (rw ((==_iff p p).1 refl) (ap (λ (y : Process). y.parent) at_new ∙ x_parent))
    | inr (inl (e, d)) ↦ rw (differ p u d) (
        subst (λ v. (after.procs v).parent ≡ (k.procs v).parent) e
          (ap (λ (y : Process). y.parent) at_parent))
    | inr (inr (d, e)) ↦ rw (differ p u d) (ap (λ (y : Process). y.parent) e)
  ]

  listed : (c : ℕ) → has c after.proc_list ≡ ((p == c) || has c k.proc_list)
  listed c = ap (has c) list_after

  not_listed : (c : ℕ) → has c k.proc_list ≡ true → p ≢ c
  not_listed c h e = clash (has c k.proc_list) h (subst (λ y. has y k.proc_list ≡ false) e n.new)

  no_child_yet : has p (k.procs parent).children ≡ false
  no_child_yet = elim (Bool-cases (has p (k.procs parent).children)) [
    | inr e ↦ e
    | inl e ↦
        clash (has p k.proc_list) (f.is_child parent p n.parent_listed n.parent_runs e).0 n.new
  ]

  once_after :
      (u : ℕ)
      → has u after.proc_list ≡ true
      → (after.procs u).state ≡ running
      → Distinct (after.procs u).children
  once_after u l r = elim (where_is u) [
    | inl e ↦
        subst (λ v. Distinct (after.procs v).children) e
          (subst Distinct (sym (ap (λ (y : Process). y.children) at_new ∙ x_children)) tt)
    | inr (inl (e, d)) ↦
        subst (λ v. Distinct (after.procs v).children) e
          (subst Distinct (sym (ap (λ (y : Process). y.children) at_parent))
            (no_child_yet, f.children_once parent n.parent_listed n.parent_runs))
    | inr (inr (d, e)) ↦
        subst (λ (y : Process). Distinct y.children) (sym e)
          (f.children_once u (ground (arith, listed u, differ p u d))
            (ground (arith, state_at u, differ p u d)))
  ]

  old_listed : (u : ℕ) → p ≢ u → has u after.proc_list ≡ true → has u k.proc_list ≡ true
  old_listed u d l = ground (arith, listed u, differ p u d)

  old_runs : (u : ℕ) → p ≢ u → (after.procs u).state ≡ running → (k.procs u).state ≡ running
  old_runs u d r = ground (arith, state_at u, differ p u d)

  of_new : (u c : ℕ) → p ≡ u → has c (after.procs u).children ≡ false
  of_new u c e =
      subst (λ v. has c (after.procs v).children ≡ false) e
        (ap (has c) (ap (λ (y : Process). y.children) at_new ∙ x_children))

  of_parent :
      (u c : ℕ)
      → parent ≡ u
      → has c (after.procs u).children ≡ ((p == c) || has c (k.procs parent).children)
  of_parent u c e =
      subst (λ v. has c (after.procs v).children ≡ ((p == c) || has c (k.procs parent).children)) e
        (ap (λ (y : Process). has c y.children) at_parent)

  child_after :
      (u c : ℕ)
      → has u after.proc_list ≡ true
      → (after.procs u).state ≡ running
      → has c (after.procs u).children ≡ true
      → (has c after.proc_list ≡ true) × ((after.procs c).parent ≡ some u)
  child_after u c l r h = elim (where_is u) [
    | inl e ↦ clash (has c (after.procs u).children) h (of_new u c e)
    | inr (inl (e, d)) ↦ elim (Bool-cases (p == c)) [
      | inl i ↦ (listed c ∙ rw i refl, parent_at c ∙ rw i (ap some e))
      | inr i ↦
          let q = of_parent u c e in
          let z = f.is_child parent c n.parent_listed n.parent_runs (ground arith) in
          (listed c ∙ rw i z.0, parent_at c ∙ rw i (z.1 ∙ ap some e))
    ]
    | inr (inr (d, e)) ↦
        let z =
          f.is_child u c (old_listed u d l) (old_runs u d r)
            (ap (λ (y : Process). has c y.children) (sym e) ∙ h) in
        let i = differ p c (not_listed c z.0) in (listed c ∙ rw i z.0, parent_at c ∙ rw i z.1)
  ]

  in_after :
      (u c : ℕ)
      → has u after.proc_list ≡ true
      → (after.procs u).state ≡ running
      → has c after.proc_list ≡ true
      → (after.procs c).parent ≡ some u
      → has c (after.procs u).children ≡ true
  in_after u c l r m e = elim (Bool-cases (p == c)) [
    | inl i ↦
        let q : some parent ≡ some u = sym (parent_at c ∙ rw i refl) ∙ e in
        of_parent u c (ground arith) ∙ rw i refl
    | inr i ↦
        let m' : has c k.proc_list ≡ true = ground (arith, listed c) in
        let e' : (k.procs c).parent ≡ some u = sym (parent_at c ∙ rw i refl) ∙ e in
        elim (where_is u) [
          | inl w ↦ absurd (n.no_child c m' (e' ∙ ap some (sym w)))
          | inr (inl (w, d)) ↦
              of_parent u c w
              ∙ rw i
                  (f.in_children parent c n.parent_listed n.parent_runs m' (e' ∙ ap some (sym w)))
          | inr (inr (d, w)) ↦
              ap (λ (y : Process). has c y.children) w
              ∙ f.in_children u c (old_listed u d l) (old_runs u d r) m' e'
        ]
  ]

  orphan_after :
      (c u : ℕ)
      → has c after.proc_list ≡ true
      → (after.procs c).parent ≡ some u
      → (has u after.proc_list ≡ true) × ((after.procs u).state ≡ running)
  orphan_after c u l e = elim (Bool-cases (p == c)) [
    | inl i ↦
        let q : some parent ≡ some u = sym (parent_at c ∙ rw i refl) ∙ e in
        let w : parent ≡ u = ground arith in
        let d = differ p parent other in
        (
          subst (λ v. has v after.proc_list ≡ true) w (listed parent ∙ rw d n.parent_listed),
          subst (λ v. (after.procs v).state ≡ running) w (state_at parent ∙ rw d n.parent_runs),
        )
    | inr i ↦
        let (a, r) =
          f.no_orphan c u (ground (arith, listed c)) (sym (parent_at c ∙ rw i refl) ∙ e) in
        let d = differ p u (not_listed u a) in (listed u ∙ rw d a, state_at u ∙ rw d r)
  ]

  pub after-Family : Family after
  after-Family = record {
    once = (n.new, f.once);
    children_once = once_after;
    is_child = child_after;
    in_children = in_after;
    no_orphan = orphan_after;
  }

  pub link_in-Created : (calls : List Call) → Created p parent pid k (after, calls)
  link_in-Created calls = (
    after-Family,
    list_after,
    ap (λ (y : Process). y.pid) at_new ∙ x_pid,
    ap (λ (y : Process). y.parent) at_new ∙ x_parent,
    ap (λ (y : Process). y.state) at_new ∙ x_runs,
    ap (λ (y : Process). y.children) at_new ∙ x_children,
    ap (λ (y : Process). y.children) at_parent,
    elsewhere,
  )
