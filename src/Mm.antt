-- ===== src/Mm.antt =====
-- kernel/mm and the memory objects of kernel/vm: page frames, anonymous and shadow objects.
pub mod Objects
pub mod Frames
pub mod Pager
pub mod Shadow
pub mod Writeback
mod Examples
