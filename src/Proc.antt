-- ===== src/Proc.antt =====
-- kernel/proc: threads, the scheduler, mutexes and processes.
pub mod Thread
pub mod Queue
pub mod Sched
pub mod Mutex
pub mod Pid
pub mod Process
pub mod Exit
pub mod Waitpid
pub mod Kill
pub mod Examples
pub mod TreeExamples
