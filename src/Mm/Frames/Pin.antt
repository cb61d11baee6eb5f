-- ===== src/Mm/Frames/Pin.antt =====
-- pframe_pin, pframe_unpin and pframe_get_resident keep the lists and counts in step.
use weenix_kernel.Base.{
  ℕ, ◌+◌, ◌%◌, ◌≡◌, refl, sym, ap, subst, ◌∙◌, true, false, ◌&&◌, Option, List, [], ◌∷◌, ◌++◌, ◌-◌,
  ltb, ◌==◌, ==_iff, Bool-cases, inl, inr, if◌then◌else◌, length, arith, has, Distinct, has-erase,
  erase-Distinct, length-erase, has-append, length-append, u32_mod,
}
use weenix_kernel.Base.Outcome.{ok, Ends}
use weenix_kernel.Mm.Objects.{Object, Frame, Pages, set_frame, is_some, is_it, in_chain, Inv}
use weenix_kernel.Mm.Frames.{pin, unpin, is_pinned, set_pincount, to_pinned, to_alloc, used}

pub append-Distinct : (m : List ℕ) (t : ℕ) → Distinct m → has t m ≡ false → Distinct (m ++ t ∷ [])
append-Distinct [] t d h = ground arith
append-Distinct (x ∷ r) t d h = ground (arith, append-Distinct r t d.1, has-append x r (t ∷ []))

-- The lists and counts of the frames in use.
abbrev pub Listed : Pages → Type 0
Listed s =
    ((f : ℕ) → has f s.alloc ≡ (is_some (s.frames f).obj && (s.frames f).pincount == 0))
    × ((f : ℕ)
        → has f s.pinned
          ≡ (is_some (s.frames f).obj && (if (s.frames f).pincount == 0 then false else true)))
    × Distinct s.alloc
    × Distinct s.pinned
    × (s.nallocated ≡ length s.alloc % u32_mod)
    × (s.npinned ≡ length s.pinned % u32_mod)

module _ (bucket : ℕ → ℕ → ℕ) where
  pub in_chain-eq :
      (b : ℕ) (x y : Frame)
      → x.obj ≡ y.obj
      → x.pagenum ≡ y.pagenum
      → in_chain bucket b x ≡ in_chain bucket b y
  in_chain-eq b x y e n =
      ap (λ (o : Option ℕ). in_chain bucket b (record x { obj = o })) e
      ∙ ap (λ (m : ℕ). in_chain bucket b (record x { obj = y.obj; pagenum = m })) n

  -- Where no page moves, only the two lists and their counts matter.
  pub same_pages :
      (s s' : Pages)
      → Inv bucket s
      → ((u : ℕ) → (s'.frames u).obj ≡ (s.frames u).obj)
      → ((u : ℕ) → (s'.frames u).pagenum ≡ (s.frames u).pagenum)
      → s'.hash ≡ s.hash
      → s'.objects ≡ s.objects
      → Listed s'
      → Inv bucket s'
  same_pages s s' i e n h o l = record {
    on_alloc = l.0;
    on_pinned = l.1;
    hashed = λ b u.
        ap (λ (c : ℕ → List ℕ). has u (c b)) h
        ∙ i.hashed b u
        ∙ sym (in_chain-eq b (s'.frames u) (s.frames u) (e u) (n u));
    resident = λ p u.
        ap (λ (c : ℕ → Object). has u (c p).respages) o ∙ i.resident p u ∙ ap (is_it p) (sym (e u));
    alloc_once = l.2;
    pinned_once = l.3;
    hash_once = λ b. subst (λ (c : ℕ → List ℕ). Distinct (c b)) (sym h) (i.hash_once b);
    resident_once =
        λ p. subst (λ (c : ℕ → Object). Distinct (c p).respages) (sym o) (i.resident_once p);
    nallocated = l.4;
    npinned = l.5;
    nrespages = λ p.
        subst (λ (c : ℕ → Object). (c p).nrespages ≡ length (c p).respages % u32_mod) (sym o)
          (i.nrespages p);
    unique = λ p f g a b c. i.unique p f g (sym (e f) ∙ a) (sym (e g) ∙ b) (sym (n f) ∙ c ∙ n g);
  }

  -- pframe_pin does not panic for a frame in use, and keeps lists and counts in step.
  pub pin-Inv :
      (f : ℕ) (s : Pages)
      → Inv bucket s
      → is_some (s.frames f).obj ≡ true
      → Ends (Inv bucket) (pin f s)
  unfolding pin
  pin-Inv f s i used = elim (Bool-cases (is_pinned (s.frames f))) [
    | inl e ↦ rw used rw e (
        same_pages s (set_pincount f ((s.frames f).pincount + 1) s) i
          (λ u. ground (arith, ==_iff f u)) (λ u. ground (arith, ==_iff f u)) refl refl
          (
            (λ u. ground (arith, i.on_alloc u, i.on_alloc f, ==_iff f u)),
            (λ u. ground (arith, i.on_pinned u, i.on_pinned f, ==_iff f u)),
            i.alloc_once,
            i.pinned_once,
            i.nallocated,
            i.npinned,
          ))
    | inr e ↦ rw used rw e (
        same_pages s (set_pincount f ((s.frames f).pincount + 1) (to_pinned f s)) i
          (λ u. ground (arith, ==_iff f u)) (λ u. ground (arith, ==_iff f u)) refl refl
          (
            (λ u.
                has-erase f u s.alloc i.alloc_once
                ∙ ground (arith, i.on_alloc u, i.on_alloc f, ==_iff f u)),
            (λ u.
                has-append u s.pinned (f ∷ [])
                ∙ ground (arith, i.on_pinned u, i.on_pinned f, ==_iff f u)),
            erase-Distinct f s.alloc i.alloc_once,
            append-Distinct s.pinned f i.pinned_once (ground (arith, i.on_pinned f)),
            ground (arith, length-erase f s.alloc (ground (arith, i.on_alloc f)), i.nallocated),
            ground (arith, length-append {0} s.pinned (f ∷ []), i.npinned),
          ))
  ]

  -- pframe_unpin does not panic for a pinned frame, and keeps lists and counts in step.
  pub unpin-Inv :
      (f : ℕ) (s : Pages)
      → Inv bucket s
      → is_some (s.frames f).obj ≡ true
      → is_pinned (s.frames f) ≡ true
      → Ends (Inv bucket) (unpin f s)
  unfolding unpin
  unpin-Inv f s i used held =
      let some_left : ltb 0 (s.frames f).pincount ≡ true = ground arith in
      let n = (s.frames f).pincount - 1 in
      elim (Bool-cases (n == 0)) [
        | inl e ↦ rw used rw some_left rw e (
            same_pages s (to_alloc f (set_pincount f n s)) i (λ u. ground (arith, ==_iff f u))
              (λ u. ground (arith, ==_iff f u)) refl refl
              (
                (λ u.
                    has-append u s.alloc (f ∷ [])
                    ∙ ground (arith, i.on_alloc u, i.on_alloc f, ==_iff f u)),
                (λ u.
                    has-erase f u s.pinned i.pinned_once
                    ∙ ground (arith, i.on_pinned u, i.on_pinned f, ==_iff f u)),
                append-Distinct s.alloc f i.alloc_once (ground (arith, i.on_alloc f)),
                erase-Distinct f s.pinned i.pinned_once,
                ground (arith, length-append {0} s.alloc (f ∷ []), i.nallocated),
                ground (arith, length-erase f s.pinned (ground (arith, i.on_pinned f)), i.npinned),
              ))
        | inr e ↦ rw used rw some_left rw e (
            same_pages s (set_pincount f n s) i (λ u. ground (arith, ==_iff f u))
              (λ u. ground (arith, ==_iff f u)) refl refl
              (
                (λ u. ground (arith, i.on_alloc u, i.on_alloc f, ==_iff f u)),
                (λ u. ground (arith, i.on_pinned u, i.on_pinned f, ==_iff f u)),
                i.alloc_once,
                i.pinned_once,
                i.nallocated,
                i.npinned,
              ))
      ]

  -- A frame may change what is neither its page nor its pin count.
  pub quiet-Inv :
      (f : ℕ) (x : Frame) (s : Pages)
      → Inv bucket s
      → x.obj ≡ (s.frames f).obj
      → x.pagenum ≡ (s.frames f).pagenum
      → x.pincount ≡ (s.frames f).pincount
      → Inv bucket (set_frame f x s)
  quiet-Inv f x s i e n c =
      same_pages s (set_frame f x s) i (λ u. ground (arith, ==_iff f u))
        (λ u. ground (arith, ==_iff f u)) refl refl
        (
          (λ u. ground (arith, i.on_alloc u, i.on_alloc f, ==_iff f u)),
          (λ u. ground (arith, i.on_pinned u, i.on_pinned f, ==_iff f u)),
          i.alloc_once,
          i.pinned_once,
          i.nallocated,
          i.npinned,
        )

  -- The first pin of a frame.
  pub pin-first :
      (f : ℕ) (s : Pages)
      → is_some (s.frames f).obj ≡ true
      → (s.frames f).pincount ≡ 0
      → pin f s ≡ ok (set_pincount f 1 (to_pinned f s))
  unfolding pin
  pin-first f s used free = rw used rw free refl
