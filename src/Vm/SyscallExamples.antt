-- ===== src/Vm/SyscallExamples.antt =====
-- The theorems about the calls for memory at a small address space.
use weenix_kernel.Base.{ℕ, ◌+◌, ◌^◌, ◌<◌, ◌≡◌, refl, true, none, some, List, [], ◌∷◌, arith}
use weenix_kernel.Base.Outcome.{Ends}
use weenix_kernel.Vm.Area.{Layout, Area}
use weenix_kernel.Vm.Vmmap.{lookup}
use weenix_kernel.Vm.Mapping.{Objects}
use weenix_kernel.Vm.Syscalls.{MmapBits, MmapArgs}
use weenix_kernel.Vm.Syscalls.Munmap.{touches}
use weenix_kernel.Vm.Access.{FaultEnv}
use weenix_kernel.Vm.Copy.{CopyEnv, vmmap_write}
use weenix_kernel.Vm.Copy.Pieces.{Copied, vmmap_write-Copied}

abbrev user_pages : Layout
user_pages = record {
  low = 0x400;
  high = 0xc0000;
  low_pos = omega arith;
  low-lt-high = omega arith;
  high-le = omega arith;
}

-- 16 pages, readable and writable.
abbrev data_area : ℕ → Area
data_area off = record {
  start = 0x1000;
  end = 0x1010;
  off = off;
  prot = 3;
  flags = 2;
  obj = some 7;
  attached = true;
  olinked = true;
}

abbrev space : ℕ → List Area
space off = data_area off ∷ []

abbrev bits : MmapBits
bits = record { map = record { shared = 1; private = 2 }; fixed = 4; anon = 8; prot_write = 2 }

abbrev objects : Objects
objects = record { mmap = λ v a. some (v + 100); anon = 20; new_shadow = 21 }

abbrev request_at : ℕ → MmapArgs
request_at addr = record { addr = addr; len = 5000; prot = 3; flags = 10; file = none; off = 0 }

abbrev env : FaultEnv
env = record {
  prot_read = 1;
  prot_write = 2;
  fault_write = 2;
  pframe_lookup = λ o n w. some (n + 500);
}

touched_area :
    (off v : ℕ) → touches 0x1004123 5000 v ≡ true → lookup v (space off) ≡ some (data_area off)
unfolding lookup
touched_area off v t = ground arith

-- The state is the list of the dirty frames.
abbrev copy_env : CopyEnv (List ℕ)
copy_env = record { pframe_lookup = λ o n w k. (some (n + 500), k); pframe_dirty = λ f k. f ∷ k }

vmmap_write-Copied_example :
    Ends
      (Copied copy_env true (space 3) 0x1004123 5000 [])
      (vmmap_write copy_env (space 3) 0x1004123 5000 [])
vmmap_write-Copied_example =
    vmmap_write-Copied copy_env (space 3) 0x1004123 5000 [] (omega arith)
      (λ v t. (data_area 3, touched_area 3 v t, λ k. (_, k, refl)))

space_zero : (v : ℕ) (a : Area) → lookup v (space 0) ≡ some a → (a.off ≡ 0) × (a.start < 2 ^ 32)
unfolding lookup
space_zero v a e = ground arith
