-- ===== src/Vm.antt =====
-- kernel/vm: address spaces.
pub mod Area
pub mod Vmmap
pub mod Remove
pub mod Mapping
pub mod Syscalls
pub mod Fork
pub mod Destroy
pub mod Access
pub mod Copy
pub mod View
pub mod Range
pub mod Insert
pub mod Examples
pub mod SyscallExamples
