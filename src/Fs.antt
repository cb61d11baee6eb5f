-- ===== src/Fs.antt =====
-- kernel/fs: open files and descriptors.
pub mod Layer
pub mod Calls
pub mod Descriptors
pub mod Names
pub mod Path
pub mod PathCalls
pub mod Open
mod Examples
mod PathExamples
mod OpenExamples
