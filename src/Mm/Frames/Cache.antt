-- ===== src/Mm/Frames/Cache.antt =====
-- Taking a frame for a page, and giving it back.
use weenix_kernel.Base.{
  ℕ, ◌≡◌, ◌∙◌, false, none, some, [], ◌∷◌, ==_iff, arith, has-erase, erase-Distinct, length-erase,
  has-append, length-append,
}
use weenix_kernel.Mm.Objects.{Pages, set_object, is_page, Inv}
use weenix_kernel.Mm.Frames.{is_pinned, listed, add_resident, uncached}
use weenix_kernel.Mm.Frames.Pin.{append-Distinct}

module _ (bucket : ℕ → ℕ → ℕ) where
  -- A frame that is free becomes the page of an object that has no frame for it; its object gets
  -- any number of references.
  pub cached-Inv :
      (f o n refs : ℕ) (s : Pages)
      → Inv bucket s
      → (s.frames f).obj ≡ none
      → ((g : ℕ) → is_page o n (s.frames g) ≡ false)
      → Inv bucket (
          add_resident f o
            (set_object o (record (s.objects o) { refcount = refs }) (listed bucket f o n s)))
  cached-Inv f o n refs s i free new = record {
    on_alloc =
        λ u. has-append u s.alloc (f ∷ []) ∙ ground (arith, i.on_alloc u, i.on_alloc f, ==_iff f u);
    on_pinned = λ u. ground (arith, i.on_pinned u, i.on_pinned f, ==_iff f u);
    hashed = λ b u. ground (arith, i.hashed b u, i.hashed b f, ==_iff f u, ==_iff (bucket o n) b);
    resident = λ p u. ground (
      arith,
      i.resident p u,
      i.resident p f,
      i.resident o u,
      i.resident o f,
      ==_iff f u,
      ==_iff o p,
    );
    alloc_once = append-Distinct s.alloc f i.alloc_once (ground (arith, i.on_alloc f));
    pinned_once = i.pinned_once;
    hash_once = λ b. ground (
      arith,
      i.hash_once b,
      i.hashed b f,
      ==_iff (bucket o n) b,
      i.hash_once (bucket o n),
      i.hashed (bucket o n) f,
    );
    resident_once =
        λ p. ground (arith, i.resident_once p, i.resident_once o, i.resident o f, ==_iff o p);
    nallocated = ground (arith, length-append {0} s.alloc (f ∷ []), i.nallocated);
    npinned = i.npinned;
    nrespages = λ p. ground (arith, i.nrespages p, i.nrespages o, ==_iff o p);
    unique = λ p g h a b c.
        ground (arith, i.unique p g h, new g, new h, ==_iff f g, ==_iff f h, ==_iff o p);
  }

  -- A frame that is not pinned is given back.
  pub uncached-Inv :
      (f o : ℕ) (s : Pages)
      → Inv bucket s
      → (s.frames f).obj ≡ some o
      → is_pinned (s.frames f) ≡ false
      → Inv bucket (uncached bucket f o s)
  uncached-Inv f o s i at loose =
      let k = bucket o (s.frames f).pagenum in
      record {
        on_alloc = λ u.
            has-erase f u s.alloc i.alloc_once
            ∙ ground (arith, i.on_alloc u, i.on_alloc f, ==_iff f u);
        on_pinned = λ u. ground (arith, i.on_pinned u, i.on_pinned f, ==_iff f u);
        hashed = λ b u. ground (
          arith,
          i.hashed b u,
          i.hashed b f,
          ==_iff f u,
          ==_iff k b,
          has-erase f u (s.hash k) (i.hash_once k),
          i.hashed k u,
          i.hashed k f,
        );
        resident = λ p u. ground (
          arith,
          i.resident p u,
          i.resident p f,
          i.resident o u,
          ==_iff f u,
          ==_iff o p,
          has-erase f u (s.objects o).respages (i.resident_once o),
        );
        alloc_once = erase-Distinct f s.alloc i.alloc_once;
        pinned_once = i.pinned_once;
        hash_once = λ b.
            ground (arith, i.hash_once b, ==_iff k b, erase-Distinct f (s.hash k) (i.hash_once k));
        resident_once = λ p. ground (
          arith,
          i.resident_once p,
          ==_iff o p,
          erase-Distinct f (s.objects o).respages (i.resident_once o),
        );
        nallocated =
            ground (arith, length-erase f s.alloc (ground (arith, i.on_alloc f)), i.nallocated);
        npinned = i.npinned;
        nrespages = λ p. ground (
          arith,
          i.nrespages p,
          i.nrespages o,
          ==_iff o p,
          length-erase f (s.objects o).respages (ground (arith, i.resident o f, ==_iff o o)),
        );
        unique = λ p g h a b c. ground (arith, i.unique p g h, ==_iff f g, ==_iff f h);
      }
