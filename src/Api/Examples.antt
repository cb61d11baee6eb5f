-- ===== src/Api/Examples.antt =====
-- A rename that fails, in a kernel whose state counts calls.
use weenix_kernel.Base.{ℕ, suc, true, none, [], ◌==◌}
use weenix_kernel.Base.Int.{pos, negsuc}
use weenix_kernel.Api.User.{ArgStr, Calls, Thread}
use weenix_kernel.Api.Syscall.{Codes, nr_rename, handler}
use weenix_kernel.Api.Syscall.Answered.{Ended, handler-Ended}

abbrev name : ArgStr
name = record { str = 4096; len = 1 }

abbrev calls : Calls ℕ
calls = record {
  has_memory = λ k. true;
  get_str = λ a b k. (pos 0, [], k);
  get_path = λ a k. (pos 0, name, k);
  get_dup2 = λ a k. (pos 0, record { ofd = pos 0; nfd = pos 1 }, k);
  get_two_paths = λ a k. (pos 0, record { first = name; second = name }, k);
  get_lseek = λ a k. (pos 0, record { fd = pos 0; offset = pos 0; whence = pos 0 }, k);
  get_open = λ a k. (pos 0, record { filename = name; flags = pos 0 }, k);
  get_stat = λ a k. (pos 0, record { path = name; buf = 4096 }, k);
  get_range = λ a k. (pos 0, record { addr = 4096; len = 1 }, k);
  get_mmap =
      λ a k. (pos 0, record { addr = 0; len = 1; prot = 0; flags = 0; fd = pos 0; off = pos 0 }, k);
  get_wait = λ a k. (pos 0, record { pid = pos 1; options = pos 0; status = none }, k);
  get_buffer = λ a k. (pos 0, record { fd = pos 0; buf = 4096; count = 1 }, k);
  peek = λ a k. record { fd = pos 0; buf = 4096; count = 1 };
  get_bytes = λ a b k. (pos 0, [], k);
  put_bytes = λ a b k. (pos 0, k);
  do_close = λ a k. (pos 0, k);
  do_dup = λ a k. (pos 0, k);
  do_dup2 = λ a b k. (pos 0, k);
  do_mkdir = λ a k. (pos 0, k);
  do_rmdir = λ a k. (pos 0, k);
  do_unlink = λ a k. (pos 0, k);
  do_link = λ a b k. (pos 0, k);
  do_rename = λ a b k. (negsuc 16, suc k);
  do_chdir = λ a k. (pos 0, k);
  do_lseek = λ a b c k. (pos 0, k);
  do_open = λ a b k. (pos 0, k);
  do_munmap = λ a b k. (pos 0, k);
  do_mmap = λ a k. (pos 0, 0, k);
  do_waitpid = λ a b k. (pos 0, [], k);
  do_brk = λ a k. (pos 0, 0, k);
  do_stat = λ a k. (pos 0, [], k);
  do_pipe = λ k. (pos 0, [], k);
  do_fork = λ k. (pos 0, k);
  do_read = λ a b k. (pos 0, [], k);
  do_write = λ a b c k. (pos 0, k);
  do_getdent = λ a k. (pos 0, [], k);
  clean_all = λ k. k;
  kill_all = λ k. k;
  yield = λ k. k;
  getpid = λ k. pos 0;
}

abbrev codes : Codes
codes = record { enomem = 12; einval = 22; efault = 14; enosys = 38 }

abbrev thread : Thread ℕ
thread = record { kernel = 0; errno = pos 0; live = 2 }

handler-Ended_example :
    Ended (λ k. k == 9) thread (handler calls codes (λ k. k == 9) 268 nr_rename 4096 thread)
handler-Ended_example = handler-Ended calls codes (λ k. k == 9) 268 nr_rename 4096 thread
