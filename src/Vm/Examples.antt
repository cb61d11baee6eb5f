-- ===== src/Vm/Examples.antt =====
-- The theorems about address spaces at a small one: two areas of an object each.
use weenix_kernel.Base.{
  ℕ, ◌+◌, ◌≡◌, refl, true, false, none, some, List, [], ◌∷◌, arith, if◌then◌else◌,
}
use weenix_kernel.Base.Outcome.{Ends, ok}
use weenix_kernel.Vm.Fork.{TypeBits, fork_areas}
use weenix_kernel.Vm.Fork.Views.{Seen, fork-Seen}
use weenix_kernel.Vm.Destroy.{destroy, GivesBack, destroy-GivesBack}
use weenix_kernel.Vm.Area.{Layout, MapFlags, Area, Sorted, Vacant}
use weenix_kernel.Vm.Vmmap.{lookup, clone, hilo, find_range}
use weenix_kernel.Vm.View.{page_at, in_range}
use weenix_kernel.Vm.Remove.{remove}
use weenix_kernel.Vm.Remove.Pages.{page_at-remove}
use weenix_kernel.Vm.Remove.Order.{remove-Sorted}
use weenix_kernel.Vm.Remove.References.{Balanced, remove-Balanced}
use weenix_kernel.Vm.Range.Gap.{Highest, find_range-Highest}
use weenix_kernel.Vm.Mapping.{Objects, Request}
use weenix_kernel.Vm.Mapping.Result.{Result}

abbrev user_pages : Layout
user_pages = record {
  low = 0x400;
  high = 0xc0000;
  low_pos = omega arith;
  low-lt-high = omega arith;
  high-le = omega arith;
}

abbrev flag_bits : MapFlags
flag_bits = record { shared = 1; private = 2 }

abbrev text : Area
text = record {
  start = 0x1000;
  end = 0x1010;
  off = 4;
  prot = 1;
  flags = 2;
  obj = some 7;
  attached = true;
  olinked = true;
}

abbrev stack : Area
stack = record {
  start = 0xbff00;
  end = 0xc0000;
  off = 0;
  prot = 3;
  flags = 2;
  obj = some 8;
  attached = true;
  olinked = true;
}

abbrev space : List Area
space = text ∷ stack ∷ []

space-Sorted : Sorted 0x400 0xc0000 space
space-Sorted = omega arith

page_at-remove_example :
    page_at 0x1009 (remove space 0x1004 4).areas
    ≡ (if in_range 0x1004 0x1008 0x1009 then none else page_at 0x1009 space)
page_at-remove_example =
    page_at-remove user_pages space 0x1004 4 0x1009 space-Sorted (omega arith) (omega arith)

remove-Sorted_example :
    Sorted 0x400 0xc0000 (remove space 0x1004 4).areas
    × Vacant 0x1004 0x1008 (remove space 0x1004 4).areas
remove-Sorted_example =
    remove-Sorted user_pages space 0x1004 4 space-Sorted (omega arith) (omega arith)

remove-Balanced_example : Balanced 7 space (remove space 0x1004 4)
remove-Balanced_example = remove-Balanced 7 0x1004 4 space

find_range-Highest_example :
    Ends (Highest 0x400 0xc0000 space 32) (find_range user_pages space 32 hilo)
find_range-Highest_example =
    find_range-Highest user_pages text (stack ∷ []) 32 space-Sorted (omega arith)

abbrev heap : Area
heap = record text { start = 0x2000; end = 0x2008; attached = false }

abbrev objects : Objects
objects = record { mmap = λ v a. some (v + 100); anon = 20; new_shadow = 21 }

abbrev anywhere : Request
anywhere = record { file = none; lopage = 0; npages = 4; prot = 3; flags = 2; off = 0; dir = hilo }

-- MAP_SHARED and MAP_PRIVATE are 1 and 2, MAP_TYPE is 3.
abbrev type_bits : TypeBits
type_bits = record { map_type = 3; private = 2 }

fork-Seen_example :
    (copies : List Area) × (clone user_pages space ≡ ok copies)
    × ((v : ℕ) → Seen type_bits 40 v (lookup v space) (fork_areas type_bits 40 space copies))
fork-Seen_example = fork-Seen user_pages type_bits 40 space space-Sorted

destroy-GivesBack_example : Ends (GivesBack space) (destroy space)
destroy-GivesBack_example = destroy-GivesBack space ((_, refl), ((_, refl), tt))
