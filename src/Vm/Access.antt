-- ===== src/Vm/Access.antt =====
-- Permission checks on user addresses (kernel/api/access.c) and page faults (kernel/vm/pagefault.c).
pub mod Range
pub mod Fault
use weenix_kernel.Base.{
  ℕ, zero, suc, ◌+◌, ◌*◌, ◌/◌, ◌%◌, ◌^◌, Bool, true, false, not, ◌&&◌, ◌||◌, Option, none, some,
  List, bit_and, ltb, ◌==◌, if◌then◌else◌, add32, sub32,
}
use weenix_kernel.Base.Outcome.{Outcome, ok, panic, ◌>>=◌, ◌>>◌, kassert}
use weenix_kernel.Vm.Area.{Area}
use weenix_kernel.Vm.Vmmap.{lookup}
use weenix_kernel.Vm.Mapping.{page_size}

abbrev pub is_mapped : Option Area → Bool
is_mapped none = false
is_mapped (some a) = true

-- addr_perm, which does not use its permissions.
pub addr_perm : List Area → ℕ → Bool
addr_perm m vaddr = is_mapped (lookup (vaddr / page_size) m)

-- The loop of range_perm from `diff` on, with fuel for its rounds: `none` says that it ran out.
pub perm_loop : ℕ → List Area → ℕ → ℕ → ℕ → Option Bool
unfolding addr_perm
perm_loop zero m avaddr len diff = none
perm_loop (suc rounds) m avaddr len diff =
    let rest = perm_loop rounds m avaddr len (add32 diff page_size) in
    if ltb diff len
    then (if addr_perm m (add32 avaddr diff) then rest else some false)
    else some true

-- range_perm. A round for each page, begun or not, and the last test are enough if `diff` does not
-- wrap.
pub range_perm : List Area → ℕ → ℕ → Option Bool
unfolding perm_loop
range_perm m avaddr len = perm_loop (len / page_size + 2) m avaddr len 0

-- The bits of mm/mman.h and pagefault.h that handle_pagefault tests, and pframe_lookup: it gets the
-- object, the page and `forwrite`, and gives the frame, or `none` for an error.
pub record FaultEnv : Type 0 where
  pub prot_read : ℕ
  pub prot_write : ℕ
  pub fault_write : ℕ
  pub pframe_lookup : Option ℕ → ℕ → Bool → Option ℕ

-- The process is killed, or pt_map maps the page of the address to the frame, with the write bits
-- of both tables set or not.
pub data Faulted : Type 0 where
  killed : Faulted
  pt_map : ℕ → ℕ → Bool → Faulted

abbrev pub bit_set : ℕ → ℕ → Bool
bit_set bits word = ltb 0 (bit_and word bits)

abbrev pub map_frame : ℕ → Bool → Option ℕ → Faulted
map_frame vaddr write none = killed
map_frame vaddr write (some frame) = pt_map (vaddr / page_size) frame write

pub fault_in : FaultEnv → ℕ → Bool → Option Area → Faulted
fault_in e vaddr write none = killed
fault_in e vaddr write (some a) =
    if not (bit_set e.prot_read a.prot) || (write && not (bit_set e.prot_write a.prot))
    then killed
    else map_frame vaddr write
        (e.pframe_lookup a.obj (add32 (sub32 (vaddr / page_size) a.start) a.off) write)

pub handle_pagefault : FaultEnv → List Area → ℕ → ℕ → Faulted
unfolding fault_in
handle_pagefault e m vaddr cause =
    fault_in e vaddr (bit_set e.fault_write cause) (lookup (vaddr / page_size) m)
