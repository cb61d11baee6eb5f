-- ===== src/Vm/Range.antt =====
-- vmmap_is_range_empty and vmmap_find_range of kernel/vm/vmmap.c.
pub mod Empty
pub mod Gap
