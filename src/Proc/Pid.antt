-- ===== src/Proc/Pid.antt =====
-- _proc_getid of kernel/proc/proc.c.
pub mod Fresh
use weenix_kernel.Base.{
  ℕ, zero, suc, ◌+◌, ◌%◌, Bool, true, false, Option, none, some, List, ◌==◌, if◌then◌else◌, has,
}

-- The loop from the pid `pid`, with fuel for its rounds: `none` says that it ran out, `some none`
-- is the return of -1, and `some (some pid)` a pid. `max` is PROC_MAX_COUNT, `pids` are the
-- pids on the process list.
pub pid_loop : ℕ → ℕ → List ℕ → ℕ → ℕ → Option (Option ℕ)
pid_loop zero max pids next pid = none
pid_loop (suc rounds) max pids next pid =
    let next_round = pid_loop rounds max pids next ((pid + 1) % max) in
    if has pid pids
    then (if (pid + 1) % max == next then some none else next_round)
    else some (some pid)

-- What _proc_getid returns, and next_pid behind it.
abbrev pub advance_pid : ℕ → ℕ → Option ℕ → Option ℕ × ℕ
advance_pid max next none = (none, next)
advance_pid max next (some pid) = (some pid, (pid + 1) % max)

abbrev pub finish : ℕ → ℕ → Option (Option ℕ) → Option (Option ℕ × ℕ)
finish max next none = none
finish max next (some o) = some (advance_pid max next o)

-- A round for each pid is enough.
unfoldable pub getid : ℕ → List ℕ → ℕ → Option (Option ℕ × ℕ)
unfolding pid_loop
getid max pids next = finish max next (pid_loop max max pids next next)
