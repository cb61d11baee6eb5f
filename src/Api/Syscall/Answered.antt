-- ===== src/Api/Syscall/Answered.antt =====
-- Every system call keeps errno unless it fails, and frees what it allocates.
use weenix_kernel.Base.{
  ℕ, zero, suc, ◌/◌, ◌≡◌, refl, Bool, true, false, Option, none, some, inl, inr, Bool-cases,
}
use weenix_kernel.Base.Int.{ℤ, pos, negsuc}
use weenix_kernel.Api.User.{
  StatArgs, RangeArgs, Text, as_int, Calls, Thread, set_kernel, allocated, is_negative, is_zero,
}
use weenix_kernel.Api.Syscall.{
  Codes, Sysnum, nr_waitpid, nr_fork, nr_getpid, nr_sync, nr_mmap, nr_munmap, nr_open, nr_close,
  nr_read, nr_write, nr_dup, nr_dup2, nr_mkdir, nr_rmdir, nr_unlink, nr_link, nr_rename, nr_chdir,
  nr_getdents, nr_brk, nr_lseek, nr_halt, nr_stat, nr_pipe, nr_thr_yield, nr_errno, unknown, answer,
  with_path, sys_lseek, sys_close, sys_dup, sys_dup2, sys_munmap, sys_mmap, sys_waitpid, sys_brk,
  sys_pipe, sys_fork, munmapped, mapped, waited, broken, copied_out, sys_stat, sys_read, read_into,
  sys_write, getdents_loop, sys_getdents, dispatch, Handled, returned, exited, answered, handler,
}
use weenix_kernel.Api.Syscall.Paths.{
  Answered, answer-Answered, answer_zero-Answered, with_args-Answered, with_args_or-Answered,
  freeing-Answered, with_path-Answered, sys_on_path-Answered, sys_on_paths-Answered,
  sys_open-Answered,
}

module _ {K : Type 0} where
  -- What syscall_handler does: a thread that is cancelled, before the call or behind it, exits, and any other
  -- returns.
  abbrev pub Ended : (K → Bool) → Thread K → Handled K → Type 0
  Ended cancelled t (returned r t') =
      (cancelled t.kernel ≡ false) × (cancelled t'.kernel ≡ false) × Answered t (r, t')
  Ended cancelled t (exited t') = (cancelled t'.kernel ≡ true) × (t'.live ≡ t.live)

module _ {K : Type 0} (c : Calls K) (codes : Codes) where
  open codes use {enomem, einval, efault}

  munmapped-Answered : (x : ℤ × RangeArgs × K) (t : Thread K) → Answered t (munmapped c codes x t)
  unfolding munmapped
  munmapped-Answered (e, a, k) t = elim (Bool-cases (is_zero e)) [
    | inl z ↦ elim (Bool-cases (is_negative (c.do_munmap a.addr a.len k).0)) [
      | inl bad ↦ rw z rw bad (refl, inl refl)
      | inr good ↦ rw z rw good (refl, inr refl)
    ]
    | inr z ↦ rw z (refl, inl refl)
  ]

  mapped-Answered : (t : Thread K) (x : ℤ × ℕ × K) → Answered t (mapped c codes t x)
  unfolding mapped
  mapped-Answered t (negsuc n, addr, k) = (refl, inl refl)
  mapped-Answered t (pos n, addr, k) = (refl, inr refl)

  waited-Answered :
      (status : Option ℕ) (t : Thread K) (x : ℤ × Text × K) → Answered t (waited c codes status t x)
  unfolding waited
  waited-Answered status t (negsuc n, s, k) = (refl, inl refl)
  waited-Answered none t (pos n, s, k) = (refl, inr refl)
  waited-Answered (some addr) t (pos n, s, k) =
      elim (Bool-cases (is_negative (c.put_bytes addr s k).0)) [
        | inl bad ↦ rw bad (refl, inl refl)
        | inr good ↦ rw good (refl, inr refl)
      ]

  broken-Answered : (t : Thread K) (x : ℤ × ℕ × K) → Answered t (broken c codes t x)
  unfolding broken
  broken-Answered t (negsuc n, addr, k) = (refl, inl refl)
  broken-Answered t (pos zero, addr, k) = (refl, inr refl)
  broken-Answered t (pos (suc n), addr, k) = (refl, inl refl)

  copied_out-Answered :
      (addr : ℕ) (t : Thread K) (x : ℤ × Text × K) → Answered t (copied_out c codes addr t x)
  unfolding copied_out
  copied_out-Answered addr t (negsuc n, text, k) = (refl, inl refl)
  copied_out-Answered addr t (pos zero, text, k) = answer_zero-Answered t (c.put_bytes addr text k)
  copied_out-Answered addr t (pos (suc n), text, k) = (refl, inl refl)

  sys_stat-Answered : (args : ℕ) (t : Thread K) → Answered t (sys_stat c codes args t)
  unfolding sys_stat
  sys_stat-Answered args t =
      let ended = λ (a : StatArgs) (path : Text) (t2 : Thread K).
        copied_out c codes a.buf t2 (c.do_stat path t2.kernel) in
      with_args_or-Answered efault t (c.get_stat args t.kernel)
        (λ a t1. with_path c codes a.path t1 (ended a))
        (λ a t1.
          with_path-Answered c codes a.path t1 (ended a)
            (λ path t2. copied_out-Answered a.buf t2 (c.do_stat path t2.kernel)))

  read_into-Answered :
      (args : ℕ) (t : Thread K) (x : ℤ × Text × K) → Answered t (read_into c codes args t x)
  unfolding read_into
  read_into-Answered args t (negsuc n, text, k) = (refl, inl refl)
  read_into-Answered args t (pos n, text, k) = (refl, inr refl)

  getdents_loop-Answered :
      (n : ℕ) (fd : ℤ) (at : ℕ) (total : ℤ) (t : Thread K)
      → Answered t (getdents_loop c codes n fd at total t)
  unfolding getdents_loop
  getdents_loop-Answered zero fd at total t = (refl, inr refl)
  getdents_loop-Answered (suc n) fd at total t =
      let r = (c.do_getdent fd t.kernel).0 in
      elim (Bool-cases (is_negative r)) [
        | inl bad ↦ rw bad (refl, inl refl)
        | inr good ↦ elim (Bool-cases (is_zero r)) [
          | inl z ↦ rw good rw z (refl, inr refl)
          | inr z ↦ rw good rw z (getdents_loop-Answered n fd at _ _)
        ]
      ]

  -- Every call frees its buffers, and leaves errno unless it returns -1.
  pub dispatch-Answered :
      (size : ℕ) (n : Sysnum) (args : ℕ) (t : Thread K)
      → Answered t (dispatch c codes size n args t)
  unfolding dispatch sys_close sys_dup sys_dup2 sys_lseek sys_munmap sys_mmap sys_waitpid sys_brk
      sys_pipe sys_fork sys_read sys_write sys_getdents
  dispatch-Answered size nr_waitpid args t =
      with_args_or-Answered efault t (c.get_wait args t.kernel)
        (λ a t1. waited c codes a.status t1 (c.do_waitpid a.pid a.options t1.kernel))
        (λ a t1. waited-Answered a.status t1 (c.do_waitpid a.pid a.options t1.kernel))
  dispatch-Answered size nr_fork args t = answer-Answered t (c.do_fork t.kernel)
  dispatch-Answered size nr_getpid args t = (refl, inr refl)
  dispatch-Answered size nr_sync args t = (refl, inr refl)
  dispatch-Answered size nr_mmap args t =
      with_args_or-Answered efault t (c.get_mmap args t.kernel)
        (λ a t1. mapped c codes t1 (c.do_mmap a t1.kernel))
        (λ a t1. mapped-Answered t1 (c.do_mmap a t1.kernel))
  dispatch-Answered size nr_munmap args t = munmapped-Answered (c.get_range args t.kernel) t
  dispatch-Answered size nr_open args t = sys_open-Answered c codes args t
  dispatch-Answered size nr_close args t = answer-Answered t (c.do_close (as_int args) t.kernel)
  dispatch-Answered size nr_read args t =
      let (e, a, k) = c.get_buffer args t.kernel in
      let t1 = allocated (set_kernel k t) in
      let r = c.do_read a.fd a.count k in
      freeing-Answered t t1 (read_into c codes args t1 r) refl refl (read_into-Answered args t1 r)
  dispatch-Answered size nr_write args t =
      let (e, a, k) = c.get_buffer args t.kernel in
      let (e1, text, k1) = c.get_bytes a.buf (c.peek args k).count k in
      let t1 = allocated (set_kernel k1 t) in
      let r = c.do_write a.fd text a.count k1 in
      freeing-Answered t t1 (answer t1 r) refl refl (answer-Answered t1 r)
  dispatch-Answered size nr_dup args t = answer-Answered t (c.do_dup (as_int args) t.kernel)
  dispatch-Answered size nr_dup2 args t =
      with_args-Answered t (c.get_dup2 args t.kernel)
        (λ a t1. answer t1 (c.do_dup2 a.ofd a.nfd t1.kernel))
        (λ a t1. answer-Answered t1 (c.do_dup2 a.ofd a.nfd t1.kernel))
  dispatch-Answered size nr_mkdir args t = sys_on_path-Answered c codes c.do_mkdir args t
  dispatch-Answered size nr_rmdir args t = sys_on_path-Answered c codes c.do_rmdir args t
  dispatch-Answered size nr_unlink args t = sys_on_path-Answered c codes c.do_unlink args t
  dispatch-Answered size nr_link args t =
      sys_on_paths-Answered c codes (λ to from. c.do_link from to) args t
  dispatch-Answered size nr_rename args t = sys_on_paths-Answered c codes c.do_rename args t
  dispatch-Answered size nr_chdir args t = sys_on_path-Answered c codes c.do_chdir args t
  dispatch-Answered size nr_getdents args t =
      let (e, a, k) = c.get_buffer args t.kernel in
      getdents_loop-Answered (a.count / size) a.fd a.buf (pos 0) (set_kernel k t)
  dispatch-Answered size nr_brk args t = broken-Answered t (c.do_brk args t.kernel)
  dispatch-Answered size nr_lseek args t =
      with_args-Answered t (c.get_lseek args t.kernel)
        (λ a t1. answer t1 (c.do_lseek a.fd a.offset a.whence t1.kernel))
        (λ a t1. answer-Answered t1 (c.do_lseek a.fd a.offset a.whence t1.kernel))
  dispatch-Answered size nr_halt args t = (refl, inl refl)
  dispatch-Answered size nr_stat args t = sys_stat-Answered args t
  dispatch-Answered size nr_pipe args t = copied_out-Answered args t (c.do_pipe t.kernel)
  dispatch-Answered size nr_thr_yield args t = (refl, inr refl)
  dispatch-Answered size nr_errno args t = (refl, inr refl)
  dispatch-Answered size unknown args t = (refl, inl refl)

  answered-Ended :
      (cancelled : K → Bool) (t : Thread K) (r : ℤ × Thread K)
      → cancelled t.kernel ≡ false
      → Answered t r
      → Ended cancelled t (answered c codes cancelled r)
  answered-Ended cancelled t (r, t') before h = elim (Bool-cases (cancelled t'.kernel)) [
    | inl e ↦ rw e (e, h.0)
    | inr e ↦ rw e (before, e, h)
  ]

  -- For each of the system calls that are modelled and whatever the routines behind it do: the buffers
  -- that it allocates are freed again, on all branches; it leaves errno as it was unless it returns -1;
  -- and a thread that is cancelled, before the call or behind it, does not return to its program.
  pub handler-Ended :
      (cancelled : K → Bool) (size : ℕ) (n : Sysnum) (args : ℕ) (t : Thread K)
      → Ended cancelled t (handler c codes cancelled size n args t)
  unfolding handler
  handler-Ended cancelled size n args t = elim (Bool-cases (cancelled t.kernel)) [
    | inl e ↦ rw e (e, refl)
    | inr e ↦ rw e (
        answered-Ended cancelled t (dispatch c codes size n args t) e
          (dispatch-Answered size n args t))
  ]
