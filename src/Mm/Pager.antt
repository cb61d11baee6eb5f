-- ===== src/Mm/Pager.antt =====
-- The routines of kernel/mm/pframe.c that call the operations of memory objects, and these operations:
-- kernel/vm/anon.c and kernel/vm/shadow.c.
pub mod Anon
pub mod Put
pub mod Get
use weenix_kernel.Base.{
  ℕ, zero, suc, ◌+◌, ◌-◌, ◌^◌, Bool, true, false, not, ◌&&◌, Option, none, some, List, [], ◌∷◌,
  ◌==◌, ltb, if◌then◌else◌, erase, add32, sub32,
}
use weenix_kernel.Base.Outcome.{Outcome, ok, panic, ◌>>=◌, ◌>>◌, kassert, deref}
use weenix_kernel.Mm.Objects.{
  ObjectKind, anon, shadow, file, Object, Frame, Pages, update, set_frame, set_object, is_it,
}
use weenix_kernel.Mm.Frames.{
  is_pinned, is_free, pin, unpin, get_resident, listed, add_resident, uncached,
}

-- What a lookup returns: a frame, an error, or that the thread sleeps on the queue of a frame that is
-- busy.
pub data Got : Type 0 where
  got : ℕ → Got
  failure : Got
  sleeps : ℕ → Got

-- What fillpage returns: 0, another number, or that the thread sleeps.
pub data Filled : Type 0 where
  filled unfilled : Filled
  waits : ℕ → Filled

-- hash_page, the frame that the slab and page allocators give (none without memory), and the
-- operations of the objects of files, which are fs/vnode.c's.
pub record PagerEnv : Type 0 where
  pub bucket : ℕ → ℕ → ℕ
  pub slab : Pages → Option ℕ
  pub file_ref : ℕ → Pages → Outcome Pages
  pub file_put : ℕ → Pages → Outcome Pages
  pub file_lookup : ℕ → ℕ → Bool → Pages → Outcome (Got × Pages)

-- `0 < o->mmo_refcount` for an int.
abbrev pub positive : ℕ → Bool
positive w = ltb 0 w && ltb w (2 ^ 31)

abbrev pub set_refcount : ℕ → ℕ → Pages → Pages
set_refcount o n s = set_object o (record (s.objects o) { refcount = n }) s

abbrev pub set_busy : ℕ → Bool → Pages → Pages
set_busy f b s = set_frame f (record (s.frames f) { busy = b }) s

abbrev pub set_content : ℕ → ℕ → Pages → Pages
set_content f c s = set_frame f (record (s.frames f) { content = c }) s

-- anon_ref and shadow_ref.
unfoldable pub counted_ref : ℕ → Pages → Outcome Pages
counted_ref o s = do
  kassert (positive (s.objects o).refcount)
  ok (set_refcount o (add32 (s.objects o).refcount 1) s)

-- anon_create and shadow_create, in the object `o` that the slab allocator returned.
abbrev pub new_object : ObjectKind → Object
new_object k = record {
  kind = k;
  refcount = 1;
  nrespages = 0;
  respages = [];
  shadowed = none;
  bottom = none;
}

pub anon_create : ℕ → Pages → Pages
anon_create o s = set_object o (new_object anon) s

pub shadow_create : ℕ → Pages → Pages
shadow_create o s = set_object o (new_object shadow) s

-- anon_fillpage: the page holds zeros, which are content 0.
pub anon_fillpage : ℕ → Pages → Outcome (Filled × Pages)
anon_fillpage f s = do
  kassert (s.frames f).busy
  kassert (not (is_pinned (s.frames f)))
  s' ← pin f (set_content f 0 s)
  ok (filled, s')

abbrev pub last_user : Object → Bool
last_user o = sub32 o.refcount 1 == o.nrespages

abbrev pub drop_ref : ℕ → Pages → Pages
drop_ref o s = set_refcount o (sub32 (s.objects o).refcount 1) s

-- pframe_fill behind the fillpage of the object: a page is busy while its thread sleeps. The
-- broadcast on pf_waitq is left out.
abbrev pub fill_ended : ℕ → Filled × Pages → Filled × Pages
fill_ended f (waits q, s) = (waits q, s)
fill_ended f (r, s) = (r, set_busy f false s)

module _ (env : PagerEnv) where
  open env use {bucket}

  -- mmo_ops->ref.
  unfoldable pub ref : ℕ → Pages → Outcome Pages
  unfolding counted_ref
  ref o s = elim (s.objects o).kind [ file ↦ env.file_ref o s | _ ↦ counted_ref o s ]

  -- pframe_alloc.
  alloc_in : ℕ → ℕ → Option ℕ → Pages → Outcome (Option ℕ × Pages)
  unfolding ref
  alloc_in o n none s = ok (none, s)
  alloc_in o n (some f) s = do s' ← ref o (listed bucket f o n s); ok (some f, add_resident f o s')

  pub alloc : ℕ → ℕ → Pages → Outcome (Option ℕ × Pages)
  unfolding alloc_in
  alloc o n s = alloc_in o n (env.slab s) s

  -- pframe_free, with the put of the frame's object.
  unfoldable pub free : (ℕ → Pages → Outcome Pages) → ℕ → Pages → Outcome Pages
  free put f s = do
    kassert (not (is_pinned (s.frames f)))
    o ← deref (s.frames f).obj
    kassert (not (s.frames f).busy)
    put o (uncached bucket f o s)

  -- The loop of anon_put and shadow_put over the pages of the object.
  pub free_all : (ℕ → Pages → Outcome Pages) → List ℕ → Pages → Outcome Pages
  unfolding free
  free_all put [] s = ok s
  free_all put (f ∷ r) s = do s1 ← unpin f s; s2 ← free put f s1; free_all put r s2

  -- anon_put and shadow_put. The object that they free stays in the model, and gets no references.
  abbrev pub anon_put : (ℕ → Pages → Outcome Pages) → ℕ → Pages → Outcome Pages
  anon_put put o s = do
    kassert (positive (s.objects o).refcount)
    if last_user (s.objects o) then free_all put (s.objects o).respages s else ok (drop_ref o s)

  abbrev pub shadow_put : (ℕ → Pages → Outcome Pages) → ℕ → Pages → Outcome Pages
  shadow_put put o s = do
    kassert (positive (s.objects o).refcount)
    if last_user (s.objects o)
        then (do
          s1 ← free_all put (s.objects o).respages s
          below ← deref (s1.objects o).shadowed
          s2 ← put below s1
          ok (drop_ref o s2))
        else ok (drop_ref o s)

  -- mmo_ops->put, with room for `k` more calls of put on the kernel's stack.
  pub put : ℕ → ℕ → Pages → Outcome Pages
  unfolding free_all
  put zero o s = panic
  put (suc k) o s = elim (s.objects o).kind [
    | file ↦ env.file_put o s
    | anon ↦ anon_put (put k) o s
    | shadow ↦ shadow_put (put k) o s
  ]

  -- pframe_fill, with the fillpage of the object.
  pub fill : (ℕ → ℕ → Pages → Outcome (Filled × Pages)) → ℕ → Pages → Outcome (Filled × Pages)
  fill fillpage f s = do
    o ← deref (s.frames f).obj
    done ← fillpage o f (set_busy f true s)
    ok (fill_ended f done)

  -- pframe_get behind its fill.
  pub got_filled : ℕ → ℕ → Filled × Pages → Outcome (Got × Pages)
  unfolding free put
  got_filled k f (filled, s) = do kassert (not (s.frames f).busy); ok (got f, s)
  got_filled k f (unfilled, s) = do s' ← free (put k) f s; ok (failure, s')
  got_filled k f (waits q, s) = ok (sleeps q, s)

  abbrev pub got_resident : ℕ → Pages → Got × Pages
  got_resident f s = if (s.frames f).busy then (sleeps f, s) else (got f, s)

  get_in :
      ℕ
      → (ℕ → ℕ → Pages → Outcome (Filled × Pages))
      → ℕ
      → ℕ
      → Option ℕ × Pages
      → Outcome (Got × Pages)
  unfolding alloc fill got_filled
  get_in k fillpage o n (some f, s) = ok (got_resident f s)
  get_in k fillpage o n (none, s) = do
    made ← alloc o n s
    f ← deref made.0
    done ← fill fillpage f made.1
    got_filled k f done

  -- pframe_get.
  pub get : ℕ → (ℕ → ℕ → Pages → Outcome (Filled × Pages)) → ℕ → ℕ → Pages → Outcome (Got × Pages)
  unfolding get_in
  get k fillpage o n s = get_in k fillpage o n (get_resident bucket o n s)
