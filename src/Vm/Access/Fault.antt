-- ===== src/Vm/Access/Fault.antt =====
-- A page fault maps what the address space shows, if its permissions allow it.
use weenix_kernel.Base.{ℕ, Bool, not, ◌&&◌, ◌||◌, Option, none, some, if◌then◌else◌}
use weenix_kernel.Vm.Area.{Area}
use weenix_kernel.Vm.View.{View}
use weenix_kernel.Vm.Access.{FaultEnv, Faulted, killed, bit_set, map_frame}

-- Whether a page with these permissions may be read, or written.
abbrev pub allows : FaultEnv → Bool → View → Bool
allows e write w = bit_set e.prot_read w.prot && (not write || bit_set e.prot_write w.prot)

abbrev pub FaultAt : FaultEnv → ℕ → Bool → Option View → Faulted
FaultAt e vaddr write none = killed
FaultAt e vaddr write (some w) =
    if allows e write w then map_frame vaddr write (e.pframe_lookup w.obj w.page write) else killed
