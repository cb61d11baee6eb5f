-- ===== src/Mm/Writeback.antt =====
-- Writing pages back and taking their frames: the rest of kernel/mm/pframe.c.
pub mod Dirty
pub mod Sweep
pub mod Pageout
pub mod Migrate
use weenix_kernel.Base.{
  ℕ, zero, suc, Bool, true, false, not, ◌&&◌, Option, none, some, List, [], ◌∷◌, ◌==◌,
  if◌then◌else◌, erase, add32, sub32,
}
use weenix_kernel.Base.Outcome.{Outcome, ok, panic, ◌>>=◌, ◌>>◌, kassert, deref}
use weenix_kernel.Mm.Objects.{
  anon, shadow, file, Object, Frame, Pages, update, set_frame, set_object, is_some,
}
use weenix_kernel.Mm.Frames.{is_pinned, is_free, unpin, get_resident, add_resident}
use weenix_kernel.Mm.Pager.{Filled, filled, unfilled, waits, PagerEnv, set_busy, free, put, ref}

abbrev pub set_dirty : ℕ → Bool → Pages → Pages
set_dirty f b s = set_frame f (record (s.frames f) { dirty = b }) s

-- How a loop of this file stands: at its end, asleep on the queue of a page, or in a further round.
pub data Swept : Type 0 where
  swept : Swept
  asleep : ℕ → Swept
  running : Swept

-- What the walk of pframe_clean_all meets first.
pub data Visit : Type 0 where
  passed : Visit
  at_busy at_dirty : ℕ → Visit

-- shadow_dirtypage.
abbrev pub shadow_dirtypage : ℕ → ℕ → Pages → Outcome (Filled × Pages)
shadow_dirtypage o f s = ok (filled, set_dirty f true s)

abbrev pub dirty_ended : ℕ → Filled × Pages → Filled × Pages
dirty_ended f (filled, s) = (filled, set_busy f false (set_dirty f true s))
dirty_ended f (unfilled, s) = (unfilled, set_busy f false s)
dirty_ended f (waits q, s) = (waits q, s)

-- pframe_dirty, with the dirtypage of the objects.
unfoldable pub dirty :
    (ℕ → ℕ → Pages → Outcome (Filled × Pages)) → ℕ → Pages → Outcome (Filled × Pages)
dirty dirtypage f s = do
  kassert (not (s.frames f).busy)
  o ← deref (s.frames f).obj
  done ← dirtypage o f (set_busy f true s)
  ok (dirty_ended f done)

abbrev pub clean_ended : ℕ → Filled × Pages → Filled × Pages
clean_ended f (filled, s) = (filled, set_busy f false s)
clean_ended f (unfilled, s) = (unfilled, set_busy f false (set_dirty f true s))
clean_ended f (waits q, s) = (waits q, s)

-- The walk along alloc_list.
unfoldable pub scan : List ℕ → Pages → Outcome Visit
scan [] s = ok passed
scan (f ∷ r) s =
    let rest = scan r s in
    (do
      kassert (not (is_pinned (s.frames f)))
      kassert (not (is_free (s.frames f)))
      if (s.frames f).busy
          then ok (at_busy f)
          else (if (s.frames f).dirty then ok (at_dirty f) else rest))

-- mmo_ops->cleanpage: anon_cleanpage and shadow_cleanpage only return -1, and that of the objects of
-- files is fs/vnode.c's.
abbrev pub cleanpage :
    (ℕ → ℕ → Pages → Outcome (Filled × Pages)) → ℕ → ℕ → Pages → Outcome (Filled × Pages)
cleanpage file_cleanpage o f s = elim (s.objects o).kind [
  | file ↦ file_cleanpage o f s
  | anon ↦ ok (unfilled, s)
  | shadow ↦ ok (unfilled, s)
]

module _ (file_cleanpage : ℕ → ℕ → Pages → Outcome (Filled × Pages)) where
  -- pframe_clean, with the cleanpage of the objects. Page tables and the TLB are left out.
  unfoldable pub clean : ℕ → Pages → Outcome (Filled × Pages)
  clean f s = do
    kassert (s.frames f).dirty
    kassert ((s.frames f).pincount == 0)
    o ← deref (s.frames f).obj
    done ← cleanpage file_cleanpage o f (set_busy f true (set_dirty f false s))
    ok (clean_ended f done)

  -- pframe_clean_all, for `k` rounds.
  unfoldable pub clean_all : ℕ → Pages → Outcome (Swept × Pages)
  unfolding clean scan
  clean_all zero s = ok (running, s)
  clean_all (suc k) s = do
    met ← scan s.alloc s
    elim met [
      | passed ↦ ok (swept, s)
      | at_busy f ↦ ok (asleep f, s)
      | at_dirty f ↦ do
        done ← clean f s
        elim done.0 [ waits q ↦ ok (asleep q, done.1) | _ ↦ clean_all k done.1 ]
    ]

module _ (env : PagerEnv) where
  open env use {bucket}

  -- pframe_migrate where the destination has no such page: before and behind the put of the source.
  abbrev pub unlinked : ℕ → ℕ → ℕ → Pages → Pages
  unlinked f src dest s =
      let n = (s.frames f).pagenum in
      record s {
        frames = update s.frames f (record (s.frames f) { obj = some dest });
        hash = update s.hash (bucket src n) (erase f (s.hash (bucket src n)));
        objects = update s.objects src (record (s.objects src) {
          nrespages = sub32 (s.objects src).nrespages 1;
          respages = erase f (s.objects src).respages;
        });
      }

  abbrev pub linked : ℕ → ℕ → Pages → Pages
  linked f dest s =
      let b = bucket dest (s.frames f).pagenum in
      add_resident f dest (record s { hash = update s.hash b (f ∷ s.hash b) })

-- With room for `depth` calls of put on the kernel's stack.
module _ (env : PagerEnv) (depth : ℕ)
    (file_cleanpage : ℕ → ℕ → Pages → Outcome (Filled × Pages)) where
  open env use {bucket}

  -- The inner loop of pageoutd_run, for `k` rounds; `met` is pageoutd_target_met.
  unfoldable pub pageout : (Pages → Bool) → ℕ → Pages → Outcome (Swept × Pages)
  unfolding clean free
  pageout met zero s = ok (running, s)
  pageout met (suc k) s = if met s then ok (swept, s) else elim s.alloc [
    | [] ↦ ok (swept, s)
    | f ∷ r ↦ if (s.frames f).busy then ok (asleep f, s) else elim (s.frames f).dirty [
      | true ↦ do
        done ← clean file_cleanpage f s
        elim done.0 [ waits q ↦ ok (asleep q, done.1) | _ ↦ pageout met k done.1 ]
      | false ↦ do s' ← free env (put env depth) f s; pageout met k s'
    ]
  ]

  -- pframe_migrate, behind its lookup of the page in the destination.
  unfoldable pub migrate_to : ℕ → ℕ → Option ℕ × Pages → Outcome (Swept × Pages)
  unfolding unpin clean free ref
  migrate_to f dest (some g, s) = do
    s1 ← unpin f s
    done ← clean file_cleanpage f s1
    elim done.0 [
      | waits q ↦ ok (asleep q, done.1)
      | _ ↦ do s2 ← free env (put env depth) f done.1; ok (swept, s2)
    ]
  migrate_to f dest (none, s) = do
    src ← deref (s.frames f).obj
    s1 ← put env depth src (unlinked env f src dest s)
    s2 ← ref env dest (linked env f dest s1)
    ok (swept, s2)

  unfoldable pub migrate : ℕ → ℕ → Pages → Outcome (Swept × Pages)
  unfolding get_resident migrate_to
  migrate f dest s = do
    kassert (not (s.frames f).busy)
    migrate_to f dest (get_resident bucket dest (s.frames f).pagenum s)
