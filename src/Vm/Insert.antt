-- ===== src/Vm/Insert.antt =====
-- vmmap_insert, vmmap_clone and vmmap_map of kernel/vm/vmmap.c.
pub mod Place
pub mod Clone
