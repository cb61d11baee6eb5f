-- ===== src/Proc/Waitpid/Reaped.antt =====
-- The disposal of a dead child keeps the tree of processes.
use weenix_kernel.Base.{
  ℕ, ◌≡◌, inl, inr, refl, true, false, some, has, Distinct, erase, has-erase, erase-Distinct, arith,
  ◌==◌, if◌then◌else◌, ap, sym, ◌∙◌, Bool-cases, clash, ==_iff,
}
use weenix_kernel.Proc.Process.{running, dead, Kernel, set_proc}
use weenix_kernel.Proc.Process.Family.{Family}

-- The kernel behind the disposal of `child` by `cur`.
abbrev pub disposed : ℕ → ℕ → Kernel → Kernel
disposed cur child k =
    let k' =
      set_proc cur (record (k.procs cur) { children = erase child (k.procs cur).children }) k in
    record k' { proc_list = erase child k.proc_list }

module _ (cur child : ℕ) (k : Kernel) (f : Family k) (cur_listed : has cur k.proc_list ≡ true)
    (cur_runs : (k.procs cur).state ≡ running) (mine : has child (k.procs cur).children ≡ true)
    (gone : (k.procs child).state ≡ dead) where
  same_state : (u : ℕ) → ((disposed cur child k).procs u).state ≡ (k.procs u).state
  same_state u = ground (arith, (==_iff cur u).0, ap (λ x. (k.procs x).state))

  same_parent : (u : ℕ) → ((disposed cur child k).procs u).parent ≡ (k.procs u).parent
  same_parent u = ground (arith, (==_iff cur u).0, ap (λ x. (k.procs x).parent))

  listed :
      (u : ℕ)
      → has u (disposed cur child k).proc_list ≡ (if child == u then false else has u k.proc_list)
  listed u = has-erase child u k.proc_list f.once

  children_of :
      (p u : ℕ)
      → has u ((disposed cur child k).procs p).children ≡ (
          if cur == p
          then (if child == u then false else has u (k.procs cur).children)
          else has u (k.procs p).children)
  children_of p u = elim (Bool-cases (cur == p)) [
    | inl e ↦
        rw e (has-erase child u (k.procs cur).children (f.children_once cur cur_listed cur_runs))
    | inr e ↦ rw e refl
  ]

  parent_of_child : (k.procs child).parent ≡ some cur
  parent_of_child = (f.is_child cur child cur_listed cur_runs mine).1

  once_after :
      (p : ℕ)
      → has p k.proc_list ≡ true
      → (k.procs p).state ≡ running
      → Distinct ((disposed cur child k).procs p).children
  once_after p l r = elim (Bool-cases (cur == p)) [
    | inl e ↦
        rw e (erase-Distinct child (k.procs cur).children (f.children_once cur cur_listed cur_runs))
    | inr e ↦ rw e (f.children_once p l r)
  ]

  before :
      (p : ℕ)
      → has p (disposed cur child k).proc_list ≡ true
      → (has p k.proc_list ≡ true) × ((child == p) ≡ false)
  before p l = ground (arith, listed p)

  -- Who is a child afterwards was one before, and is another one.
  child_before :
      (p c : ℕ)
      → has p k.proc_list ≡ true
      → (k.procs p).state ≡ running
      → has c ((disposed cur child k).procs p).children ≡ true
      → (has c (k.procs p).children ≡ true) × ((child == c) ≡ false)
  child_before p c l r h = elim (Bool-cases (cur == p)) [
    | inl e ↦
        let q : (if child == c then false else has c (k.procs cur).children) ≡ true =
          sym (children_of p c ∙ rw e refl) ∙ h in
        (
          ap (λ y. has c (k.procs y).children) (sym ((==_iff cur p).0 e)) ∙ ground arith,
          ground arith,
        )
    | inr e ↦
        let q : has c (k.procs p).children ≡ true = sym (children_of p c ∙ rw e refl) ∙ h in
        (
          q,
          elim (Bool-cases (child == c)) [
            | inr d ↦ d
            | inl d ↦
                let x = (f.is_child p c l r q).1 in
                let y =
                  ap (λ z. (k.procs z).parent) (sym ((==_iff child c).0 d)) ∙ parent_of_child in
                let z : cur ≡ p = ground (arith, sym y ∙ x) in
                clash (cur == p) ((==_iff cur p).1 z) e
          ],
        )
  ]

  not_gone : (p : ℕ) → (k.procs p).state ≡ running → (child == p) ≡ false
  not_gone p r = ground (arith, ap (λ z. (k.procs z).state), (==_iff child p).0)

  pub disposed-Family : Family (disposed cur child k)
  disposed-Family = record {
    once = erase-Distinct child k.proc_list f.once;
    children_once = λ p l r. once_after p ((before p l).0) (sym (same_state p) ∙ r);
    is_child = λ p c l r h.
        let (a, d) = child_before p c (before p l).0 (sym (same_state p) ∙ r) h in
        let x = f.is_child p c (before p l).0 (sym (same_state p) ∙ r) a in
        (listed c ∙ rw d x.0, same_parent c ∙ x.1);
    in_children = λ p c l r m e.
        let x =
          f.in_children p c (before p l).0 (sym (same_state p) ∙ r) (before c m).0
            (sym (same_parent c) ∙ e) in
        let d = (before c m).1 in
        children_of p c ∙ elim (Bool-cases (cur == p)) [
          | inl q ↦ rw q rw d (ap (λ y. has c (k.procs y).children) ((==_iff cur p).0 q) ∙ x)
          | inr q ↦ rw q x
        ];
    no_orphan = λ c p l e.
        let (a, r) = f.no_orphan c p (before c l).0 (sym (same_parent c) ∙ e) in
        (listed p ∙ rw (not_gone p r) a, same_state p ∙ r);
  }
