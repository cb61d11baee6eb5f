-- ===== src/Api/Syscall.antt =====
-- kernel/api/syscall.c.
pub mod Paths
pub mod Answered
use weenix_kernel.Base.{
  ℕ, zero, suc, ◌+◌, ◌-◌, ◌/◌, Bool, true, false, Option, none, some, List, if◌then◌else◌, length,
}
use weenix_kernel.Base.Int.{ℤ, pos, negsuc, ◌+ℤ◌, pos_part}
use weenix_kernel.Api.User.{
  ArgStr, Dup2Args, TwoPaths, LseekArgs, OpenArgs, StatArgs, RangeArgs, MmapArgs, WaitArgs,
  BufferArgs, Text, Calls, Thread, set_errno, set_kernel, allocated, freed, negate, is_negative,
  is_zero, minus_one, as_int, user_strdup,
}

-- The errors that this file returns by itself.
pub record Codes : Type 0 where
  pub enomem : ℕ
  pub einval : ℕ
  pub efault : ℕ
  pub enosys : ℕ

-- The cases of syscall_dispatch that are modelled.
pub data Sysnum : Type 0 where
  nr_waitpid nr_fork nr_getpid nr_sync nr_mmap nr_munmap nr_open nr_close nr_read nr_write nr_dup
        nr_dup2 nr_mkdir nr_rmdir :
      Sysnum
  nr_unlink nr_link nr_rename nr_chdir nr_getdents nr_brk nr_lseek nr_halt nr_stat nr_pipe
        nr_thr_yield nr_errno unknown :
      Sysnum

-- How syscall_handler ends: with a value for the user program, or in kthread_exit.
pub data Handled (K : Type 0) : Type 0 where
  returned : ℤ → Thread K → Handled K
  exited : Thread K → Handled K

module _ {K : Type 0} where
  -- `curthr->kt_errno = e; return -1`.
  abbrev pub fail : ℤ → Thread K → ℤ × Thread K
  fail e t = (minus_one, set_errno e t)

  -- `if (err < 0) { curthr->kt_errno = -err; return -1; } else return err`.
  abbrev pub answer : Thread K → ℤ × K → ℤ × Thread K
  answer t (e, k) = if is_negative e then fail (negate e) (set_kernel k t) else (e, set_kernel k t)

  -- A call that succeeds with 0 only.
  abbrev pub answer_zero : Thread K → ℤ × K → ℤ × Thread K
  answer_zero t (e, k) =
      if is_zero e then (pos 0, set_kernel k t) else fail (negate e) (set_kernel k t)

  -- The structure that the argument of a call points to is copied.
  abbrev pub with_args :
      {A : Type 0} → Thread K → ℤ × A × K → (A → Thread K → ℤ × Thread K) → ℤ × Thread K
  with_args t (e, a, k) body =
      if is_negative e then fail (negate e) (set_kernel k t) else body a (set_kernel k t)

  -- The same, where the error is EFAULT whatever the copy returns.
  abbrev pub with_args_or :
      {A : Type 0} → ℕ → Thread K → ℤ × A × K → (A → Thread K → ℤ × Thread K) → ℤ × Thread K
  with_args_or efault t (e, a, k) body =
      if is_negative e then fail (pos efault) (set_kernel k t) else body a (set_kernel k t)

  abbrev pub freeing : ℤ × Thread K → ℤ × Thread K
  freeing (r, t) = (r, freed t)

module _ {K : Type 0} (c : Calls K) (codes : Codes) where
  open codes use {enomem, einval, efault, enosys}

  -- A path is copied, used, and freed.
  abbrev pub got_path : Option Text × Thread K → (Text → Thread K → ℤ × Thread K) → ℤ × Thread K
  got_path (none, t) body = fail (pos einval) t
  got_path (some path, t) body = freeing (body path t)

  pub with_path : ArgStr → Thread K → (Text → Thread K → ℤ × Thread K) → ℤ × Thread K
  unfolding user_strdup
  with_path a t body = got_path (user_strdup c enomem a t) body

  pub sys_close : ℕ → Thread K → ℤ × Thread K
  sys_close args t = answer t (c.do_close (as_int args) t.kernel)

  pub sys_dup : ℕ → Thread K → ℤ × Thread K
  sys_dup args t = answer t (c.do_dup (as_int args) t.kernel)

  pub sys_dup2 : ℕ → Thread K → ℤ × Thread K
  sys_dup2 args t =
      with_args t (c.get_dup2 args t.kernel) (λ a t1. answer t1 (c.do_dup2 a.ofd a.nfd t1.kernel))

  -- sys_mkdir, sys_rmdir, sys_unlink and sys_chdir are the same but for what they call.
  pub sys_on_path : (Text → K → ℤ × K) → ℕ → Thread K → ℤ × Thread K
  unfolding with_path
  sys_on_path call args t =
      with_args t (c.get_path args t.kernel)
        (λ a t1. with_path a t1 (λ path t2. answer t2 (call path t2.kernel)))

  -- sys_link and sys_rename.
  pub sys_on_paths : (Text → Text → K → ℤ × K) → ℕ → Thread K → ℤ × Thread K
  unfolding with_path
  sys_on_paths call args t = with_args t (c.get_two_paths args t.kernel) (λ a t1.
      with_path a.first t1
        (λ one t2. with_path a.second t2 (λ two t3. answer t3 (call one two t3.kernel))))

  pub sys_lseek : ℕ → Thread K → ℤ × Thread K
  sys_lseek args t =
      with_args t (c.get_lseek args t.kernel)
        (λ a t1. answer t1 (c.do_lseek a.fd a.offset a.whence t1.kernel))

  pub sys_open : ℕ → Thread K → ℤ × Thread K
  unfolding with_path
  sys_open args t =
      with_args t (c.get_open args t.kernel)
        (λ a t1. with_path a.filename t1 (λ path t2. answer t2 (c.do_open path a.flags t2.kernel)))

  -- sys_munmap tests whether the copy returns 0.
  munmapped : ℤ × RangeArgs × K → Thread K → ℤ × Thread K
  munmapped (e, a, k) t =
      let t1 = set_kernel k t in
      if is_zero e
      then (let (r, k1) = c.do_munmap a.addr a.len k in
          if is_negative r then fail (negate r) (set_kernel k1 t) else (pos 0, set_kernel k1 t))
      else fail (pos efault) t1

  pub sys_munmap : ℕ → Thread K → ℤ × Thread K
  unfolding munmapped
  sys_munmap args t = munmapped (c.get_range args t.kernel) t

  -- MAP_FAILED is (void *) -1.
  mapped : Thread K → ℤ × ℕ × K → ℤ × Thread K
  mapped t (e, addr, k) =
      if is_negative e then fail (negate e) (set_kernel k t) else (as_int addr, set_kernel k t)

  pub sys_mmap : ℕ → Thread K → ℤ × Thread K
  unfolding mapped
  sys_mmap args t =
      with_args_or efault t (c.get_mmap args t.kernel) (λ a t1. mapped t1 (c.do_mmap a t1.kernel))

  -- sys_waitpid behind do_waitpid; a status of NULL is not copied.
  waited : Option ℕ → Thread K → ℤ × Text × K → ℤ × Thread K
  waited status t (p, s, k) =
      let t1 = set_kernel k t in
      if is_negative p then fail (negate p) t1 else elim status [
        | none ↦ (p, t1)
        | some addr ↦
            let (e, k1) = c.put_bytes addr s k in
            if is_negative e then fail (pos efault) (set_kernel k1 t) else (p, set_kernel k1 t)
      ]

  pub sys_waitpid : ℕ → Thread K → ℤ × Thread K
  unfolding waited
  sys_waitpid args t =
      with_args_or efault t (c.get_wait args t.kernel)
        (λ a t1. waited a.status t1 (c.do_waitpid a.pid a.options t1.kernel))

  broken : Thread K → ℤ × ℕ × K → ℤ × Thread K
  broken t (e, addr, k) =
      if is_zero e then (as_int addr, set_kernel k t) else fail (negate e) (set_kernel k t)

  pub sys_brk : ℕ → Thread K → ℤ × Thread K
  unfolding broken
  sys_brk args t = broken t (c.do_brk args t.kernel)

  -- sys_stat and sys_pipe behind their call: what it returned is copied if it succeeded.
  copied_out : ℕ → Thread K → ℤ × Text × K → ℤ × Thread K
  copied_out addr t (e, text, k) =
      if is_zero e
      then answer_zero t (c.put_bytes addr text k)
      else fail (negate e) (set_kernel k t)

  pub sys_stat : ℕ → Thread K → ℤ × Thread K
  unfolding with_path copied_out
  sys_stat args t =
      with_args_or efault t (c.get_stat args t.kernel)
        (λ a t1. with_path a.path t1 (λ path t2. copied_out a.buf t2 (c.do_stat path t2.kernel)))

  pub sys_pipe : ℕ → Thread K → ℤ × Thread K
  unfolding copied_out
  sys_pipe args t = copied_out args t (c.do_pipe t.kernel)

  pub sys_fork : Thread K → ℤ × Thread K
  sys_fork t = answer t (c.do_fork t.kernel)

  -- sys_read behind its copy of the arguments, whose result it does not test. The buffer is one page.
  read_into : ℕ → Thread K → ℤ × Text × K → ℤ × Thread K
  read_into args t (n, text, k) =
      if is_negative n
      then fail (negate n) (set_kernel k t)
      else (n, set_kernel (c.put_bytes (c.peek args k).buf text k).1 t)

  pub sys_read : ℕ → Thread K → ℤ × Thread K
  unfolding read_into
  sys_read args t =
      let (e, a, k) = c.get_buffer args t.kernel in
      freeing (read_into args (allocated (set_kernel k t)) (c.do_read a.fd a.count k))

  pub sys_write : ℕ → Thread K → ℤ × Thread K
  sys_write args t =
      let (e, a, k) = c.get_buffer args t.kernel in
      let (e1, text, k1) = c.get_bytes a.buf (c.peek args k).count k in
      freeing (answer (allocated (set_kernel k1 t)) (c.do_write a.fd text a.count k1))

  -- The loop of sys_getdents, with `n` rounds to go, behind `total` bytes; `at` is where they go.
  pub getdents_loop : ℕ → ℤ → ℕ → ℤ → Thread K → ℤ × Thread K
  getdents_loop zero fd at total t = (total, t)
  getdents_loop (suc n) fd at total t =
      let (r, entry, k) = c.do_getdent fd t.kernel in
      let next =
        getdents_loop n fd at (total +ℤ r)
          (set_kernel (c.put_bytes (at + pos_part total) entry k).1 t) in
      if is_negative r
      then fail (negate r) (set_kernel k t)
      else (if is_zero r then (total, set_kernel k t) else next)

  -- `size` is sizeof(dirent_t).
  pub sys_getdents : ℕ → ℕ → Thread K → ℤ × Thread K
  unfolding getdents_loop
  sys_getdents size args t =
      let (e, a, k) = c.get_buffer args t.kernel in
      getdents_loop (a.count / size) a.fd a.buf (pos 0) (set_kernel k t)

  -- syscall_dispatch, but for the calls that end the thread or replace its program, and those for
  -- debugging.
  pub dispatch : ℕ → Sysnum → ℕ → Thread K → ℤ × Thread K
  unfolding sys_close sys_dup sys_dup2 sys_on_path sys_on_paths sys_lseek sys_open sys_munmap
      sys_mmap sys_waitpid sys_brk sys_stat sys_pipe sys_fork sys_read sys_write sys_getdents
  dispatch size nr_waitpid args t = sys_waitpid args t
  dispatch size nr_fork args t = sys_fork t
  dispatch size nr_getpid args t = (c.getpid t.kernel, t)
  dispatch size nr_sync args t = (pos 0, set_kernel (c.clean_all t.kernel) t)
  dispatch size nr_mmap args t = sys_mmap args t
  dispatch size nr_munmap args t = sys_munmap args t
  dispatch size nr_open args t = sys_open args t
  dispatch size nr_close args t = sys_close args t
  dispatch size nr_read args t = sys_read args t
  dispatch size nr_write args t = sys_write args t
  dispatch size nr_dup args t = sys_dup args t
  dispatch size nr_dup2 args t = sys_dup2 args t
  dispatch size nr_mkdir args t = sys_on_path c.do_mkdir args t
  dispatch size nr_rmdir args t = sys_on_path c.do_rmdir args t
  dispatch size nr_unlink args t = sys_on_path c.do_unlink args t
  dispatch size nr_link args t = sys_on_paths (λ to from. c.do_link from to) args t
  dispatch size nr_rename args t = sys_on_paths c.do_rename args t
  dispatch size nr_chdir args t = sys_on_path c.do_chdir args t
  dispatch size nr_getdents args t = sys_getdents size args t
  dispatch size nr_brk args t = sys_brk args t
  dispatch size nr_lseek args t = sys_lseek args t
  dispatch size nr_halt args t = (minus_one, set_kernel (c.kill_all t.kernel) t)
  dispatch size nr_stat args t = sys_stat args t
  dispatch size nr_pipe args t = sys_pipe args t
  dispatch size nr_thr_yield args t = (pos 0, set_kernel (c.yield t.kernel) t)
  dispatch size nr_errno args t = (t.errno, t)
  dispatch size unknown args t = fail (pos enosys) t

  -- syscall_handler; `cancelled` is curthr->kt_cancelled.
  abbrev pub answered : (K → Bool) → ℤ × Thread K → Handled K
  answered cancelled (r, t) = if cancelled t.kernel then exited t else returned r t

  pub handler : (K → Bool) → ℕ → Sysnum → ℕ → Thread K → Handled K
  unfolding dispatch
  handler cancelled size n args t =
      if cancelled t.kernel then exited t else answered cancelled (dispatch size n args t)
