-- ===== src/Mm/Writeback/Dirty.antt =====
-- How many pages of a list are dirty.
use weenix_kernel.Base.{
  ℕ, ◌<◌, ◌≤◌, ◌+◌, ◌≡◌, true, false, List, [], ◌∷◌, ==_iff, if◌then◌else◌, length, arith, has,
}
use weenix_kernel.Mm.Objects.{Frame, update}

unfoldable pub dirty_pages : List ℕ → (ℕ → Frame) → ℕ
dirty_pages [] fs = 0
dirty_pages (f ∷ r) fs = if (fs f).dirty then dirty_pages r fs + 1 else dirty_pages r fs

-- Cleaning a page of the list leaves fewer dirty ones.
fewer_at_most :
    (l : List ℕ) (f : ℕ) (fs : ℕ → Frame) (x : Frame)
    → x.dirty ≡ false
    → dirty_pages l (update fs f x) ≤ dirty_pages l fs
unfolding dirty_pages
fewer_at_most [] f fs x c = omega arith
fewer_at_most (g ∷ r) f fs x c = ground (arith, fewer_at_most r f fs x c, c, ==_iff f g)

pub fewer :
    (l : List ℕ) (f : ℕ) (fs : ℕ → Frame) (x : Frame)
    → x.dirty ≡ false
    → has f l ≡ true
    → (fs f).dirty ≡ true
    → dirty_pages l (update fs f x) < dirty_pages l fs
unfolding dirty_pages
fewer [] f fs x c h d = cc
fewer (g ∷ r) f fs x c h d =
    ground (arith, fewer_at_most r f fs x c, fewer r f fs x c, c, h, d, ==_iff f g, ==_iff g f)

-- Giving a clean page back leaves less of the list.
pub shorter :
    (f : ℕ) (r : List ℕ) (fs : ℕ → Frame) (x : Frame)
    → x.dirty ≡ false
    → (fs f).dirty ≡ false
    → length r + dirty_pages r (update fs f x) < length (f ∷ r) + dirty_pages (f ∷ r) fs
unfolding dirty_pages
shorter f r fs x c d = ground (arith, fewer_at_most r f fs x c, d)
