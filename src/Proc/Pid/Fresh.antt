-- ===== src/Proc/Pid/Fresh.antt =====
-- _proc_getid ends with a pid that is not in use, if there is one.
use weenix_kernel.Base.{
  ℕ, leb, zero, suc, ◌+◌, ◌-◌, ◌%◌, ◌<◌, ◌≤◌, ◌≡◌, ◌≢◌, inl, inr, refl, true, false, Option, none,
  some, List, ltb, ◌==◌, ==_iff, clash, subst, ltb→lt, if◌then◌else◌, has, arith, Bool-cases, ap,
  sym, ◌∙◌,
}
use native.Mathlib.Nat.{mod-eq_of_lt, mod_self}
use weenix_kernel.Proc.Pid.{pid_loop, getid, advance_pid, finish}

-- The `k`-th pid behind `next`.
abbrev pub nth_pid : ℕ → ℕ → ℕ → ℕ
nth_pid max next k = if ltb (next + k) max then next + k else next + k - max

-- The pid behind `pid`.
succ_pid : (max pid : ℕ) → pid < max → (pid + 1) % max ≡ (if ltb (pid + 1) max then pid + 1 else 0)
succ_pid max pid lt = elim (Bool-cases (ltb (pid + 1) max)) [
  | inl e ↦ rw e (mod-eq_of_lt (ltb→lt _ _ e))
  | inr e ↦ let q : pid + 1 ≡ max = ground arith in rw e rw q (mod_self max)
]

module _ (max : ℕ) (pids : List ℕ) (next : ℕ) where
  -- From the `k`-th pid behind `next` on: the first that is not in use, or all are.
  abbrev pub First : ℕ → Option ℕ → Type 0
  First k none = (j : ℕ) → k ≤ j → j < max → has (nth_pid max next j) pids ≡ true
  First k (some pid) =
      (i : ℕ) × (k ≤ i)
      × (i < max)
      × (pid ≡ nth_pid max next i)
      × (has pid pids ≡ false)
      × ((j : ℕ) → k ≤ j → j < i → has (nth_pid max next j) pids ≡ true)

  used_from :
      (k : ℕ) (P : ℕ → Type 0)
      → has (nth_pid max next k) pids ≡ true
      → ((j : ℕ) → k + 1 ≤ j → P j → has (nth_pid max next j) pids ≡ true)
      → (j : ℕ) → k ≤ j
      → P j
      → has (nth_pid max next j) pids ≡ true
  used_from k P used all j le p = elim (Bool-cases (k == j)) [
    | inl e ↦ ap (λ x. has (nth_pid max next x) pids) (sym ((==_iff k j).0 e)) ∙ used
    | inr ne ↦ let d : k ≢ j = λ e. clash (k == j) ((==_iff k j).1 e) ne in all j (omega arith) p
  ]

  widen :
      (k : ℕ) (o : Option ℕ) → has (nth_pid max next k) pids ≡ true → First (k + 1) o → First k o
  widen k none used f = used_from k (λ j. j < max) used f
  widen k (some pid) used (i, a, b, e, free, all) =
      (i, omega arith, b, e, free, used_from k (λ j. j < i) used all)

  pid_loop-First :
      next < max
      → (rounds k : ℕ) → k + rounds ≡ max
      → 0 < rounds
      → (o : Option ℕ) × (pid_loop rounds max pids next (nth_pid max next k) ≡ some o) × First k o
  unfolding pid_loop
  pid_loop-First lt zero k e pos = absurd (omega arith)
  pid_loop-First lt (suc rounds) k e pos = elim (Bool-cases (has (nth_pid max next k) pids)) [
    | inr free ↦ (
      some (nth_pid max next k),
      rw free refl,
      (k, omega arith, omega arith, refl, free, λ j a b. absurd (omega arith)),
    )
    | inl used ↦
        let s = succ_pid max (nth_pid max next k) (ground arith) in
        elim (Bool-cases (ltb (k + 1) max)) [
          | inl more ↦
              let n : (nth_pid max next k + 1) % max ≡ nth_pid max next (k + 1) =
                s ∙ ground arith in
              let ne : (nth_pid max next (k + 1) == next) ≡ false = ground arith in
              let (o, q, f) = pid_loop-First lt rounds (k + 1) (omega arith) (ground arith) in
              (o, rw used rw n rw ne q, widen k o used f)
          | inr last ↦
              let n : (nth_pid max next k + 1) % max ≡ next = s ∙ ground arith in
              (
                none,
                rw used rw n rw ((==_iff next next).1 refl) refl,
                λ j a b.
                    let q : j ≡ k = ground arith in
                    ap (λ x. has (nth_pid max next x) pids) q ∙ used,
              )
        ]
  ]

  -- A pid that is not in use, or every pid is.
  abbrev pub Fresh : Option ℕ → Type 0
  Fresh none = (pid : ℕ) → pid < max → has pid pids ≡ true
  Fresh (some pid) = (pid < max) × (has pid pids ≡ false)

  nth_pid-onto :
      (pid : ℕ) → next < max → pid < max → (j : ℕ) × (j < max) × (nth_pid max next j ≡ pid)
  nth_pid-onto pid lt le =
      ((if leb next pid then pid - next else pid + max - next), ground arith, ground arith)

  First-Fresh : next < max → (o : Option ℕ) → First 0 o → Fresh o
  First-Fresh lt none f = λ pid le.
      let (j, a, e) = nth_pid-onto pid lt le in ap (λ x. has x pids) (sym e) ∙ f j (omega arith) a
  First-Fresh lt (some pid) (i, a, b, e, free, all) = (rw e (ground arith), free)

  getid-run :
      (o : Option ℕ)
      → pid_loop max max pids next next ≡ some o
      → getid max pids next ≡ some (advance_pid max next o)
  unfolding getid
  getid-run o e = ap (finish max next) e

  -- If next_pid is below PROC_MAX_COUNT, then _proc_getid ends: it returns the first pid from
  -- next_pid on, around the end of the range, that no process has, and next_pid is the one behind
  -- it; it returns -1 and leaves next_pid only if processes have all the pids.
  pub getid-First :
      next < max
      → (o : Option ℕ) × (getid max pids next ≡ some (advance_pid max next o)) × First 0 o × Fresh o
  unfolding getid
  getid-First lt =
      let at : nth_pid max next 0 ≡ next = ground arith in
      let (o, e, f) = pid_loop-First lt max 0 (omega arith) (omega arith) in
      let q : pid_loop max max pids next next ≡ some o =
        subst (λ x. pid_loop max max pids next x ≡ some o) at e in
      (o, getid-run o q, f, First-Fresh lt o f)
