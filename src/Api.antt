-- ===== src/Api.antt =====
-- kernel/api: system calls.
pub mod User
pub mod Syscall
mod Examples
