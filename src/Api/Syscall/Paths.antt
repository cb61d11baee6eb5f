-- ===== src/Api/Syscall/Paths.antt =====
-- What a system call leaves, and the calls that take paths.
use weenix_kernel.Base.{
  ℕ, zero, suc, ◌+◌, ◌≡◌, refl, sym, subst, none, some, ◌⊎◌, inl, inr, Bool-cases, arith,
}
use weenix_kernel.Base.Int.{ℤ, pos, negsuc}
use weenix_kernel.Api.User.{
  ArgStr, TwoPaths, OpenArgs, Text, Calls, Thread, set_errno, set_kernel, allocated, freed, negate,
  is_negative, minus_one, user_strdup,
}
use weenix_kernel.Api.Syscall.{
  Codes, answer, answer_zero, with_args, with_args_or, freeing, got_path, with_path, sys_on_path,
  sys_on_paths, sys_open,
}

module _ {K : Type 0} where
  -- What a call leaves: as many buffers as before, and errno, unless it returns -1.
  abbrev pub Answered : Thread K → ℤ × Thread K → Type 0
  Answered t (r, t') = (t'.live ≡ t.live) × ((r ≡ minus_one) ⊎ (t'.errno ≡ t.errno))

  pub answer-Answered : (t : Thread K) (r : ℤ × K) → Answered t (answer t r)
  answer-Answered t (negsuc n, k) = (refl, inl refl)
  answer-Answered t (pos n, k) = (refl, inr refl)

  pub answer_zero-Answered : (t : Thread K) (r : ℤ × K) → Answered t (answer_zero t r)
  answer_zero-Answered t (negsuc n, k) = (refl, inl refl)
  answer_zero-Answered t (pos zero, k) = (refl, inr refl)
  answer_zero-Answered t (pos (suc n), k) = (refl, inl refl)

  pub with_args-Answered :
      {A : Type 0} (t : Thread K) (x : ℤ × A × K) (body : A → Thread K → ℤ × Thread K)
      → ((a : A) (t1 : Thread K) → Answered t1 (body a t1))
      → Answered t (with_args t x body)
  with_args-Answered t (negsuc n, a, k) body h = (refl, inl refl)
  with_args-Answered t (pos n, a, k) body h = h a (set_kernel k t)

  pub with_args_or-Answered :
      {A : Type 0} (code : ℕ) (t : Thread K) (x : ℤ × A × K) (body : A → Thread K → ℤ × Thread K)
      → ((a : A) (t1 : Thread K) → Answered t1 (body a t1))
      → Answered t (with_args_or code t x body)
  with_args_or-Answered code t (negsuc n, a, k) body h = (refl, inl refl)
  with_args_or-Answered code t (pos n, a, k) body h = h a (set_kernel k t)

  -- A buffer that was allocated before is freed.
  pub freeing-Answered :
      (t t1 : Thread K) (r : ℤ × Thread K)
      → t1.live ≡ t.live + 1
      → t1.errno ≡ t.errno
      → Answered t1 r
      → Answered t (freeing r)
  freeing-Answered t t1 (r, t2) live errno (a, b) =
      (ground (arith, live, a), ground (arith, b, errno))

module _ {K : Type 0} (c : Calls K) (codes : Codes) where
  open codes use {enomem, einval, efault}

  user_strdup-cases :
      (a : ArgStr) (t : Thread K)
      → ((t1 : Thread K) × (user_strdup c enomem a t ≡ (none, t1)) × (t1.live ≡ t.live))
        ⊎ ((text : Text) × (t1 : Thread K) × (user_strdup c enomem a t ≡ (some text, t1))
            × (t1.live ≡ t.live + 1)
            × (t1.errno ≡ t.errno))
  unfolding user_strdup
  user_strdup-cases a t =
      let (e, text, k) = c.get_str a.str (a.len + 1) t.kernel in
      elim (Bool-cases (c.has_memory t.kernel)) [
        | inr m ↦ inl (set_errno (pos enomem) t, rw m refl, refl)
        | inl m ↦ elim (Bool-cases (is_negative e)) [
          | inl bad ↦ inl (
            freed (set_errno (negate e) (set_kernel k (allocated t))),
            rw m rw bad refl,
            omega arith,
          )
          | inr good ↦ inr (text, set_kernel k (allocated t), rw m rw good refl, refl, refl)
        ]
      ]

  pub with_path-Answered :
      (a : ArgStr) (t : Thread K) (body : Text → Thread K → ℤ × Thread K)
      → ((path : Text) (t1 : Thread K) → Answered t1 (body path t1))
      → Answered t (with_path c codes a t body)
  unfolding with_path
  with_path-Answered a t body h = elim (user_strdup-cases a t) [
    | inl (t1, at, live) ↦
        subst (λ r. Answered t (got_path c codes r body)) (sym at) (live, inl refl)
    | inr (text, t1, at, live, errno) ↦
        subst (λ r. Answered t (got_path c codes r body)) (sym at)
          (freeing-Answered t t1 (body text t1) live errno (h text t1))
  ]

  pub sys_on_path-Answered :
      (call : Text → K → ℤ × K) (args : ℕ) (t : Thread K)
      → Answered t (sys_on_path c codes call args t)
  unfolding sys_on_path
  sys_on_path-Answered call args t =
      let ended = λ (path : Text) (t2 : Thread K). answer t2 (call path t2.kernel) in
      with_args-Answered t (c.get_path args t.kernel) (λ a t1. with_path c codes a t1 ended)
        (λ a t1.
          with_path-Answered a t1 ended (λ path t2. answer-Answered t2 (call path t2.kernel)))

  pub sys_on_paths-Answered :
      (call : Text → Text → K → ℤ × K) (args : ℕ) (t : Thread K)
      → Answered t (sys_on_paths c codes call args t)
  unfolding sys_on_paths
  sys_on_paths-Answered call args t =
      let ended = λ (one two : Text) (t3 : Thread K). answer t3 (call one two t3.kernel) in
      let second =
        λ (a : TwoPaths) (one : Text) (t2 : Thread K). with_path c codes a.second t2 (ended one) in
      with_args-Answered t (c.get_two_paths args t.kernel)
        (λ a t1. with_path c codes a.first t1 (second a))
        (λ a t1. with_path-Answered a.first t1 (second a) (λ one t2.
          with_path-Answered a.second t2 (ended one)
            (λ two t3. answer-Answered t3 (call one two t3.kernel))))

  pub sys_open-Answered : (args : ℕ) (t : Thread K) → Answered t (sys_open c codes args t)
  unfolding sys_open
  sys_open-Answered args t =
      let ended = λ (a : OpenArgs) (path : Text) (t2 : Thread K).
        answer t2 (c.do_open path a.flags t2.kernel) in
      with_args-Answered t (c.get_open args t.kernel)
        (λ a t1. with_path c codes a.filename t1 (ended a))
        (λ a t1.
          with_path-Answered a.filename t1 (ended a)
            (λ path t2. answer-Answered t2 (c.do_open path a.flags t2.kernel)))
