-- ===== src/Mm/Frames.antt =====
-- Page frames: kernel/mm/pframe.c.
pub mod Pin
pub mod Lookup
pub mod Cache
use weenix_kernel.Base.{
  ℕ, zero, suc, ◌+◌, ◌-◌, Bool, true, false, not, ◌&&◌, Option, none, some, List, [], ◌∷◌, ◌++◌,
  ◌==◌, ltb, if◌then◌else◌, has, erase, add32, sub32,
}
use weenix_kernel.Base.Outcome.{Outcome, ok, panic, ◌>>=◌, ◌>>◌, kassert, deref}
use weenix_kernel.Mm.Objects.{
  Object, Frame, Pages, update, set_frame, set_object, is_some, is_page, hash_page,
}

abbrev pub is_pinned : Frame → Bool
is_pinned x = not (x.pincount == 0)

abbrev pub is_free : Frame → Bool
is_free x = not (is_some x.obj)

-- list_remove of a link and list_insert_tail.
abbrev pub to_tail : ℕ → List ℕ → List ℕ
to_tail f l = erase f l ++ f ∷ []

-- pframe_pin.
abbrev pub to_pinned : ℕ → Pages → Pages
to_pinned f s = record s {
  alloc = erase f s.alloc;
  pinned = s.pinned ++ f ∷ [];
  npinned = add32 s.npinned 1;
  nallocated = sub32 s.nallocated 1;
}

abbrev pub set_pincount : ℕ → ℕ → Pages → Pages
set_pincount f n s = set_frame f (record (s.frames f) { pincount = n }) s

unfoldable pub pin : ℕ → Pages → Outcome Pages
pin f s = do
  kassert (not (is_free (s.frames f)))
  let s' = if is_pinned (s.frames f) then s else to_pinned f s
  ok (set_pincount f ((s.frames f).pincount + 1) s')

-- pframe_unpin.
abbrev pub to_alloc : ℕ → Pages → Pages
to_alloc f s = record s {
  pinned = erase f s.pinned;
  alloc = s.alloc ++ f ∷ [];
  npinned = sub32 s.npinned 1;
  nallocated = add32 s.nallocated 1;
}

unfoldable pub unpin : ℕ → Pages → Outcome Pages
unpin f s = do
  kassert (not (is_free (s.frames f)))
  kassert (ltb 0 (s.frames f).pincount)
  let n = (s.frames f).pincount - 1
  let s' = set_pincount f n s
  ok (if n == 0 then to_alloc f s' else s')

module _ (bucket : ℕ → ℕ → ℕ) where
  -- pframe_get_resident: the walk along a chain, and the move of a page that is not pinned.
  unfoldable pub find_in : ℕ → ℕ → List ℕ → Pages → Option ℕ
  find_in o n [] s = none
  find_in o n (f ∷ r) s = if is_page o n (s.frames f) then some f else find_in o n r s

  abbrev pub used : Option ℕ → Pages → Pages
  used none s = s
  used (some f) s = if is_pinned (s.frames f) then s else record s { alloc = to_tail f s.alloc }

  unfoldable pub get_resident : ℕ → ℕ → Pages → Option ℕ × Pages
  unfolding find_in
  get_resident o n s = let found = find_in o n (s.hash (bucket o n)) s in (found, used found s)

-- pframe_alloc, for the frame `f` that the slab allocator returned: before and behind its call of ref.
abbrev pub listed : (ℕ → ℕ → ℕ) → ℕ → ℕ → ℕ → Pages → Pages
listed bucket f o n s = record s {
  nallocated = add32 s.nallocated 1;
  alloc = s.alloc ++ f ∷ [];
  frames = update s.frames f (record (s.frames f) {
    obj = some o;
    pagenum = n;
    dirty = false;
    busy = false;
    pincount = 0;
  });
  hash = update s.hash (bucket o n) (f ∷ s.hash (bucket o n));
}

abbrev pub add_resident : ℕ → ℕ → Pages → Pages
add_resident f o s =
    set_object o
      (record (s.objects o) {
        nrespages = add32 (s.objects o).nrespages 1;
        respages = f ∷ (s.objects o).respages;
      })
      s

-- pframe_free, before its call of put.
abbrev pub uncached : (ℕ → ℕ → ℕ) → ℕ → ℕ → Pages → Pages
uncached bucket f o s =
    let b = bucket o (s.frames f).pagenum in
    record s {
      hash = update s.hash b (erase f (s.hash b));
      frames = update s.frames f (record (s.frames f) { obj = none });
      nallocated = sub32 s.nallocated 1;
      alloc = erase f s.alloc;
      objects = update s.objects o (record (s.objects o) {
        nrespages = sub32 (s.objects o).nrespages 1;
        respages = erase f (s.objects o).respages;
      });
    }
