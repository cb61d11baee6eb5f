-- ===== src/Mm/Writeback/Migrate.antt =====
-- pframe_migrate.
use weenix_kernel.Base.{
  ℕ, ◌≡◌, refl, sym, ap, subst, ◌∙◌, true, false, not, none, some, ◌==◌, ==_iff, arith, has-erase,
  erase-Distinct, length-erase,
}
use weenix_kernel.Mm.Objects.{Pages, update, Inv}
use weenix_kernel.Mm.Frames.Lookup.{not_resident, Absent}
use weenix_kernel.Base.Outcome.{Outcome, ok, ◌>>=◌, ◌>>◌, kassert, deref, Ends}
use weenix_kernel.Mm.Objects.{anon}
use weenix_kernel.Mm.Frames.{get_resident}
use weenix_kernel.Mm.Frames.Lookup.{get_resident-Found}
use weenix_kernel.Mm.Pager.{PagerEnv, set_refcount, Filled, positive, drop_ref, put, ref}
use weenix_kernel.Mm.Pager.Anon.{ref-counted}
use weenix_kernel.Mm.Pager.Put.{refcount-Inv}
use weenix_kernel.Mm.Writeback.{swept, migrate, migrate_to}
use weenix_kernel.Mm.Writeback.{unlinked, linked}

module _ (env : PagerEnv) where
  open env use {bucket}

  -- A page moves to an object that has none with its number; the references of the objects may be
  -- any.
  pub moved-Inv :
      (f src dest refs : ℕ) (s : Pages)
      → Inv bucket s
      → (s.frames f).obj ≡ some src
      → (src == dest) ≡ false
      → Absent (s.frames f).pagenum s dest
      → Inv bucket (linked env f dest (set_refcount src refs (unlinked env f src dest s)))
  moved-Inv f src dest refs s i at other new =
      let n = (s.frames f).pagenum in
      let k = bucket src n in
      let m = bucket dest n in
      record {
        on_alloc = λ u. ground (arith, i.on_alloc u, i.on_alloc f, ==_iff f u);
        on_pinned = λ u. ground (arith, i.on_pinned u, i.on_pinned f, ==_iff f u);
        hashed = λ b u. ground (
          arith,
          i.hashed b u,
          i.hashed b f,
          ==_iff f u,
          ==_iff k b,
          ==_iff m b,
          ==_iff k m,
          has-erase f u (s.hash k) (i.hash_once k),
          i.hashed k u,
          i.hashed m u,
        );
        resident = λ p u. ground (
          arith,
          i.resident p u,
          i.resident p f,
          i.resident src u,
          i.resident dest u,
          ==_iff f u,
          ==_iff src p,
          ==_iff dest p,
          ==_iff src dest,
          has-erase f u (s.objects src).respages (i.resident_once src),
        );
        alloc_once = i.alloc_once;
        pinned_once = i.pinned_once;
        hash_once = λ b. ground (
          arith,
          i.hash_once b,
          i.hash_once k,
          i.hash_once m,
          i.hashed k f,
          i.hashed m f,
          ==_iff k b,
          ==_iff m b,
          ==_iff k m,
          ==_iff f f,
          has-erase f f (s.hash k) (i.hash_once k),
          erase-Distinct f (s.hash k) (i.hash_once k),
        );
        resident_once = λ p. ground (
          arith,
          i.resident_once p,
          ==_iff src p,
          ==_iff dest p,
          ==_iff src dest,
          i.resident_once src,
          i.resident_once dest,
          i.resident dest f,
          erase-Distinct f (s.objects src).respages (i.resident_once src),
        );
        nallocated = i.nallocated;
        npinned = i.npinned;
        nrespages = λ p. ground (
          arith,
          i.nrespages p,
          i.nrespages src,
          i.nrespages dest,
          ==_iff src p,
          ==_iff dest p,
          ==_iff src dest,
          length-erase f (s.objects src).respages
              (ground (arith, i.resident src f, ==_iff src src)),
        );
        unique = λ p g h a b c.
            ground (arith, i.unique p g h, new g, new h, ==_iff f g, ==_iff f h, ==_iff dest p);
      }

module _ (env : PagerEnv) (depth : ℕ)
    (file_cleanpage : ℕ → ℕ → Pages → Outcome (Filled × Pages)) where
  open env use {bucket}

  migrate_by :
      (f src dest : ℕ) (s t w : Pages)
      → (s.frames f).busy ≡ false
      → get_resident bucket dest (s.frames f).pagenum s ≡ (none, s)
      → (s.frames f).obj ≡ some src
      → put env depth src (unlinked env f src dest s) ≡ ok t
      → ref env dest (linked env f dest t) ≡ ok w
      → migrate env depth file_cleanpage f dest s ≡ ok (swept, w)
  unfolding migrate migrate_to
  migrate_by f src dest s t w idle none_there at dropped counted =
      let ended = λ (p : ℕ). put env depth p (unlinked env f p dest s) >>= λ s1.
      ref env dest (linked env f dest s1) >>= λ s2. ok (swept, s2) in
      ap
        (λ c.
          kassert (not c)
          >> migrate_to env depth file_cleanpage f dest
              (get_resident bucket dest (s.frames f).pagenum s))
        idle
      ∙ ap (migrate_to env depth file_cleanpage f dest) none_there
      ∙ ap (λ x. deref x >>= ended) at
      ∙ ap (λ m. m >>= λ s1. ref env dest (linked env f dest s1) >>= λ s2. ok (swept, s2)) dropped
      ∙ ap (λ m. m >>= λ s2. ok (swept, s2)) counted

  -- pframe_migrate of a page that is not busy to another object, which is anonymous, is referred to and
  -- has no page of its number, does not panic where the put of its object only drops a reference: the frame becomes
  -- a page of that object, no other frame changes, and lists and counts stay in step.
  pub migrate-Moved :
      (f src dest : ℕ) (s : Pages)
      → Inv bucket s
      → put env depth src (unlinked env f src dest s)
        ≡ ok (drop_ref src (unlinked env f src dest s))
      → (s.frames f).busy ≡ false
      → (s.frames f).obj ≡ some src
      → (src == dest) ≡ false
      → Absent (s.frames f).pagenum s dest
      → (s.objects dest).kind ≡ anon
      → positive (s.objects dest).refcount ≡ true
      → Ends
          (λ r.
            (r.0 ≡ swept)
            × Inv bucket r.1
            × ((u : ℕ)
                → r.1.frames u ≡ update s.frames f (record (s.frames f) { obj = some dest }) u))
          (migrate env depth file_cleanpage f dest s)
  migrate-Moved f src dest s i puts idle at other new kind counted =
      let own : (dest == dest) ≡ true = (==_iff dest dest).1 refl in
      let s1 = unlinked env f src dest s in
      let t = drop_ref src s1 in
      let s2 = linked env f dest t in
      let j : Inv bucket s2 = moved-Inv env f src dest _ s i at other new in
      let none_there =
        not_resident bucket dest (s.frames f).pagenum s _ new
          (get_resident-Found bucket dest (s.frames f).pagenum s i).0 in
      let w = set_refcount dest _ s2 in
      subst (Ends _)
        (sym (
          migrate_by f src dest s t w idle none_there at puts
            (ref-counted env dest s2 (rw own rw other kind) (rw own rw other counted))))
        (refl, refcount-Inv env dest _ s2 j, λ u. refl)
