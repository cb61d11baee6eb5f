-- ===== src/Mm/Objects.antt =====
-- Memory objects and page frames: mmobj_t, pframe_t, and the lists and counts of kernel/mm/pframe.c.
use weenix_kernel.Base.{
  ℕ, ◌+◌, ◌%◌, ◌≡◌, Bool, true, false, ◌&&◌, Option, none, some, List, ◌==◌, if◌then◌else◌, length,
  has, Distinct, u32_mod,
}

-- mmo_ops: which of the tables of operations an object has.
pub data ObjectKind : Type 0 where
  anon shadow file : ObjectKind

-- mmobj_t; counts are 32-bit. `bottom` is mmo_bottom_obj.
pub record Object : Type 0 where
  pub kind : ObjectKind
  pub refcount : ℕ
  pub nrespages : ℕ
  pub respages : List ℕ
  pub shadowed : Option ℕ
  pub bottom : Option ℕ

-- pframe_t. `obj` is none in a frame that is free; `content` stands for what the page holds.
pub record Frame : Type 0 where
  pub obj : Option ℕ
  pub pagenum : ℕ
  pub dirty : Bool
  pub busy : Bool
  pub pincount : ℕ
  pub content : ℕ

-- The frames and objects by identity, alloc_list and pinned_list with their counts, and the
-- chains of pframe_hash.
pub record Pages : Type 0 where
  pub frames : ℕ → Frame
  pub objects : ℕ → Object
  pub alloc : List ℕ
  pub pinned : List ℕ
  pub nallocated : ℕ
  pub npinned : ℕ
  pub hash : ℕ → List ℕ

abbrev pub update {ℓ} : {A : Type ℓ} → (ℕ → A) → ℕ → A → ℕ → A
update f i a j = if i == j then a else f j

abbrev pub set_frame : ℕ → Frame → Pages → Pages
set_frame f x s = record s { frames = update s.frames f x }

abbrev pub set_object : ℕ → Object → Pages → Pages
set_object o x s = record s { objects = update s.objects o x }

abbrev pub is_some : Option ℕ → Bool
is_some none = false
is_some (some o) = true

abbrev pub is_it : ℕ → Option ℕ → Bool
is_it o none = false
is_it o (some p) = o == p

-- The frame is the page `n` of the object `o`.
abbrev pub is_page : ℕ → ℕ → Frame → Bool
is_page o n x = is_it o x.obj && n == x.pagenum

-- hash_page, for `size` chains and objects at the addresses `address`.
abbrev pub hash_page : ℕ → (ℕ → ℕ) → ℕ → ℕ → ℕ
hash_page size address o n = ((address o + n) % u32_mod) % size

abbrev pub in_chain : (ℕ → ℕ → ℕ) → ℕ → Frame → Bool
in_chain bucket b x = elim x.obj [ none ↦ false | some o ↦ bucket o x.pagenum == b ]

-- Frames in use are on one of the two lists, in their chain and on the list of their object, once;
-- the counts count the lists; no page has two frames.
pub record Inv (bucket : ℕ → ℕ → ℕ) (s : Pages) : Type 0 where
  pub on_alloc : (f : ℕ) → has f s.alloc ≡ (is_some (s.frames f).obj && (s.frames f).pincount == 0)
  pub on_pinned :
      (f : ℕ)
      → has f s.pinned
        ≡ (is_some (s.frames f).obj && (if (s.frames f).pincount == 0 then false else true))
  pub hashed : (b f : ℕ) → has f (s.hash b) ≡ in_chain bucket b (s.frames f)
  pub resident : (o f : ℕ) → has f (s.objects o).respages ≡ is_it o (s.frames f).obj
  pub alloc_once : Distinct s.alloc
  pub pinned_once : Distinct s.pinned
  pub hash_once : (b : ℕ) → Distinct (s.hash b)
  pub resident_once : (o : ℕ) → Distinct (s.objects o).respages
  pub nallocated : s.nallocated ≡ length s.alloc % u32_mod
  pub npinned : s.npinned ≡ length s.pinned % u32_mod
  pub nrespages : (o : ℕ) → (s.objects o).nrespages ≡ length (s.objects o).respages % u32_mod
  pub unique :
      (o f g : ℕ)
      → (s.frames f).obj ≡ some o
      → (s.frames g).obj ≡ some o
      → (s.frames f).pagenum ≡ (s.frames g).pagenum
      → f ≡ g
