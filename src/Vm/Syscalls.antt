-- ===== src/Vm/Syscalls.antt =====
-- do_mmap and do_munmap of kernel/vm/mmap.c. The flushes of the TLB are left out.
pub mod Munmap
pub mod Mmap
use weenix_kernel.Base.{
  ℕ, ◌+◌, ◌-◌, ◌*◌, ◌/◌, ◌%◌, ◌^◌, Bool, true, false, not, ◌&&◌, ◌||◌, Option, none, some, List,
  bit_and, ltb, leb, ◌==◌, if◌then◌else◌, sub32,
}
use weenix_kernel.Base.Outcome.{Outcome, ok, ◌>>=◌}
use weenix_kernel.Vm.Area.{Layout, MapFlags, Area, Effect}
use weenix_kernel.Vm.Vmmap.{hilo}
use weenix_kernel.Vm.Remove.{Removal, remove}
use weenix_kernel.Vm.Mapping.{Objects, Request, Mapped, mapped, no_room, page_size, map_area}

-- The pages that `len` bytes fill.
abbrev pub pages_of : ℕ → ℕ
pages_of len = if len % page_size == 0 then len / page_size else len / page_size + 1

pub data Errno : Type 0 where
  einval eperm ebadf : Errno

pub data Unmapped : Type 0 where
  unmapped : Removal → Unmapped
  refused : Errno → Unmapped

pub do_munmap : Layout → List Area → ℕ → ℕ → Unmapped
do_munmap l m addr len =
    if len == 0 || addr == 0
    then refused einval
    else (if ltb addr (l.low * page_size) || ltb (sub32 (l.high * page_size) addr) len
        then refused einval
        else (if not (addr % page_size == 0)
            then refused einval
            else unmapped (remove m (addr / page_size) (pages_of len))))

-- The other bits that do_mmap tests, and the open files: the vnode of a descriptor, and whether
-- FMODE_WRITE is set. The call gives back the reference from fget before it goes on.
pub record MmapBits : Type 0 where
  pub map : MapFlags
  pub fixed : ℕ
  pub anon : ℕ
  pub prot_write : ℕ

pub record MmapArgs : Type 0 where
  pub addr : ℕ
  pub len : ℕ
  pub prot : ℕ
  pub flags : ℕ
  pub file : Option (ℕ × Bool)
  pub off : ℕ

-- The result: an errno, the result -1 of vmmap_map, or the address with the map, the area and the
-- calls that vmmap_map made.
pub data Mmapped : Type 0 where
  failed : Errno → Mmapped
  full : Mmapped
  placed : ℕ → List Area → Area → List Effect → Mmapped

abbrev pub some_bit : ℕ → ℕ → Bool
some_bit bits flags = ltb 0 (bit_and bits flags)

-- The vnode for a mapping that is not anonymous, or an errno.
pub data Node : Type 0 where
  node : Option ℕ → Node
  no_node : Errno → Node

abbrev pub file_node : MmapBits → MmapArgs → Option (ℕ × Bool) → Node
file_node b a none = no_node ebadf
file_node b a (some (vnode, writes)) =
    if some_bit b.prot_write a.prot && not writes then no_node eperm else node (some vnode)

pub find_node : MmapBits → MmapArgs → Node
find_node b a = if some_bit b.anon a.flags then node none else file_node b a a.file

-- `flags ^ MAP_FIXED` is not 0 for all flags but MAP_FIXED alone.
abbrev pub request : MmapBits → MmapArgs → Option ℕ → Request
request b a vnode = record {
  file = vnode;
  lopage = if not (a.flags == b.fixed) then a.addr / page_size else 0;
  npages = (a.len - 1) / page_size + 1;
  prot = a.prot;
  flags = a.flags;
  off = a.off;
  dir = hilo;
}

abbrev pub mmap_result : Mapped → Mmapped
mmap_result no_room = full
mmap_result (mapped m a effects) = placed (a.start * page_size) m a effects

pub run_mmap : Layout → MmapBits → Objects → List Area → MmapArgs → Node → Outcome Mmapped
run_mmap l b o m a (no_node e) = ok (failed e)
run_mmap l b o m a (node vnode) =
    map_area l b.map o m (request b a vnode) >>= λ done. ok (mmap_result done)

pub do_mmap : Layout → MmapBits → Objects → List Area → MmapArgs → Outcome Mmapped
unfolding run_mmap find_node
do_mmap l b o m a =
    if a.len == 0 || ltb (l.high * page_size - l.low * page_size) a.len
    then ok (failed einval)
    else (if not (a.off % page_size == 0) || not (a.addr % page_size == 0)
        then ok (failed einval)
        else (if not (some_bit b.map.shared a.flags || some_bit b.map.private a.flags)
            then ok (failed eperm)
            else (if some_bit b.fixed a.flags && a.addr == 0
                then ok (failed einval)
                else run_mmap l b o m a (find_node b a))))
