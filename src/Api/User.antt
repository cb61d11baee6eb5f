-- ===== src/Api/User.antt =====
-- What kernel/api/syscall.c uses of the rest of the kernel, and user_strdup of kernel/api/access.c.
use weenix_kernel.Base.{
  ℕ, zero, suc, ◌+◌, ◌-◌, ◌^◌, Bool, true, false, Option, none, some, List, ltb, if◌then◌else◌,
}
use weenix_kernel.Base.Int.{ℤ, pos, negsuc}

-- argstr_t, and the structures that user programs pass.
pub record ArgStr : Type 0 where
  pub str : ℕ
  pub len : ℕ

pub record Dup2Args : Type 0 where
  pub ofd : ℤ
  pub nfd : ℤ

pub record TwoPaths : Type 0 where
  pub first : ArgStr
  pub second : ArgStr

pub record LseekArgs : Type 0 where
  pub fd : ℤ
  pub offset : ℤ
  pub whence : ℤ

pub record OpenArgs : Type 0 where
  pub filename : ArgStr
  pub flags : ℤ

pub record StatArgs : Type 0 where
  pub path : ArgStr
  pub buf : ℕ

pub record RangeArgs : Type 0 where
  pub addr : ℕ
  pub len : ℕ

pub record MmapArgs : Type 0 where
  pub addr : ℕ
  pub len : ℕ
  pub prot : ℕ
  pub flags : ℕ
  pub fd : ℤ
  pub off : ℤ

pub record WaitArgs : Type 0 where
  pub pid : ℤ
  pub options : ℤ
  pub status : Option ℕ

-- read_args_t, write_args_t and getdents_args_t; `count` is in bytes.
pub record BufferArgs : Type 0 where
  pub fd : ℤ
  pub buf : ℕ
  pub count : ℕ

abbrev pub Text : Type 0
Text = List ℕ

-- The rest of the kernel, with a state `K`: the copies of kernel/api/access.c with what they return and
-- what the kernel's structure holds then, kmalloc's having memory, and the routines that the system
-- calls are for. A routine that panics is the end of a run, and is not considered here.
pub record Calls (K : Type 0) : Type 0 where
  pub has_memory : K → Bool
  pub get_str : ℕ → ℕ → K → ℤ × Text × K
  pub get_path : ℕ → K → ℤ × ArgStr × K
  pub get_dup2 : ℕ → K → ℤ × Dup2Args × K
  pub get_two_paths : ℕ → K → ℤ × TwoPaths × K
  pub get_lseek : ℕ → K → ℤ × LseekArgs × K
  pub get_open : ℕ → K → ℤ × OpenArgs × K
  pub get_stat : ℕ → K → ℤ × StatArgs × K
  pub get_range : ℕ → K → ℤ × RangeArgs × K
  pub get_mmap : ℕ → K → ℤ × MmapArgs × K
  pub get_wait : ℕ → K → ℤ × WaitArgs × K
  pub get_buffer : ℕ → K → ℤ × BufferArgs × K
  -- What `arg` points to, without a copy.
  pub peek : ℕ → K → BufferArgs
  pub get_bytes : ℕ → ℕ → K → ℤ × Text × K
  pub put_bytes : ℕ → Text → K → ℤ × K
  pub do_close : ℤ → K → ℤ × K
  pub do_dup : ℤ → K → ℤ × K
  pub do_dup2 : ℤ → ℤ → K → ℤ × K
  pub do_mkdir : Text → K → ℤ × K
  pub do_rmdir : Text → K → ℤ × K
  pub do_unlink : Text → K → ℤ × K
  pub do_link : Text → Text → K → ℤ × K
  pub do_rename : Text → Text → K → ℤ × K
  pub do_chdir : Text → K → ℤ × K
  pub do_lseek : ℤ → ℤ → ℤ → K → ℤ × K
  pub do_open : Text → ℤ → K → ℤ × K
  pub do_munmap : ℕ → ℕ → K → ℤ × K
  pub do_mmap : MmapArgs → K → ℤ × ℕ × K
  pub do_waitpid : ℤ → ℤ → K → ℤ × Text × K
  pub do_brk : ℕ → K → ℤ × ℕ × K
  pub do_stat : Text → K → ℤ × Text × K
  pub do_pipe : K → ℤ × Text × K
  pub do_fork : K → ℤ × K
  pub do_read : ℤ → ℕ → K → ℤ × Text × K
  pub do_write : ℤ → Text → ℕ → K → ℤ × K
  pub do_getdent : ℤ → K → ℤ × Text × K
  pub clean_all : K → K
  pub kill_all : K → K
  pub yield : K → K
  pub getpid : K → ℤ

-- curthr->kt_errno and how many buffers of the kernel are allocated, beside the rest.
pub record Thread (K : Type 0) : Type 0 where
  pub kernel : K
  pub errno : ℤ
  pub live : ℕ

abbrev pub set_errno : {K : Type 0} → ℤ → Thread K → Thread K
set_errno e t = record t { errno = e }

abbrev pub set_kernel : {K : Type 0} → K → Thread K → Thread K
set_kernel k t = record t { kernel = k }

-- kmalloc or page_alloc, and kfree or page_free.
abbrev pub allocated : {K : Type 0} → Thread K → Thread K
allocated t = record t { live = t.live + 1 }

abbrev pub freed : {K : Type 0} → Thread K → Thread K
freed t = record t { live = t.live - 1 }

abbrev pub negate : ℤ → ℤ
negate (negsuc n) = pos (suc n)
negate (pos zero) = pos zero
negate (pos (suc n)) = negsuc n

abbrev pub is_negative : ℤ → Bool
is_negative (negsuc n) = true
is_negative (pos n) = false

abbrev pub is_zero : ℤ → Bool
is_zero (pos zero) = true
is_zero _ = false

abbrev pub minus_one : ℤ
minus_one = negsuc 0

-- A word as an int.
abbrev pub as_int : ℕ → ℤ
as_int w = if ltb w (2 ^ 31) then pos w else negsuc (2 ^ 32 - 1 - w)

module _ {K : Type 0} (c : Calls K) where
  -- user_strdup; the number is ENOMEM.
  unfoldable pub user_strdup : ℕ → ArgStr → Thread K → Option Text × Thread K
  user_strdup enomem a t =
      if c.has_memory t.kernel
      then (let (e, text, k) = c.get_str a.str (a.len + 1) t.kernel in
          let t1 = set_kernel k (allocated t) in
          if is_negative e then (none, freed (set_errno (negate e) t1)) else (some text, t1))
      else (none, set_errno (pos enomem) t)
