-- ===== src/Mm/Shadow.antt =====
-- shadow_lookuppage and shadow_fillpage of kernel/vm/shadow.c, anon_lookuppage of kernel/vm/anon.c, and
-- pframe_lookup, which calls the lookuppage of an object.
pub mod Chain
pub mod Read
pub mod Copy
pub mod Write
use weenix_kernel.Base.{
  ℕ, zero, suc, Bool, true, false, not, ◌&&◌, Option, none, some, ◌==◌, if◌then◌else◌,
}
use weenix_kernel.Base.Outcome.{Outcome, ok, panic, ◌>>=◌, ◌>>◌, kassert, deref}
use weenix_kernel.Mm.Objects.{ObjectKind, anon, shadow, file, Object, Frame, Pages}
use weenix_kernel.Mm.Frames.{is_pinned, pin, get_resident}
use weenix_kernel.Mm.Pager.{
  Got, got, failure, sleeps, Filled, filled, unfilled, waits, PagerEnv, set_content, anon_fillpage,
  get,
}

-- Equality of pointers, of which one may be NULL.
abbrev pub same_pointer : Option ℕ → Option ℕ → Bool
same_pointer none none = true
same_pointer (some p) (some q) = p == q
same_pointer _ _ = false

-- shadow_fillpage behind its walk: the copy of the page `g`.
abbrev pub copy_from : ℕ → ℕ → Pages → Outcome (Filled × Pages)
copy_from f g s = do s' ← pin f s; ok (filled, set_content f (s'.frames g).content s')

abbrev pub copy_looked : ℕ → Got × Pages → Outcome (Filled × Pages)
copy_looked f (got g, s) = copy_from f g s
copy_looked f (failure, s) = ok (unfilled, s)
copy_looked f (sleeps q, s) = ok (waits q, s)

module _ (env : PagerEnv) where
  open env use {bucket}

  -- The loop of shadow_lookuppage: the frame that it found, and the object where it ended. The first
  -- argument bounds its rounds.
  unfoldable pub down : ℕ → ℕ → ℕ → Pages → Outcome (Option ℕ × ℕ × Pages)
  down zero cur n s = panic
  down (suc k) cur n s = elim (s.objects cur).shadowed [
    | none ↦ ok (none, cur, s)
    | some below ↦ elim (get_resident bucket cur n s).0 [
      | some f ↦ ok (some f, below, (get_resident bucket cur n s).1)
      | none ↦ down k below n (get_resident bucket cur n s).1
    ]
  ]

  -- The loop of shadow_fillpage, which ends at the bottom object.
  unfoldable pub down_to :
      ℕ → Option ℕ → Option ℕ → ℕ → Pages → Outcome (Option ℕ × Option ℕ × Pages)
  down_to zero bottom cur n s = panic
  down_to (suc k) bottom none n s = if same_pointer bottom none then ok (none, none, s) else panic
  down_to (suc k) bottom (some cur) n s =
      if same_pointer bottom (some cur)
      then ok (none, some cur, s)
      else elim (get_resident bucket cur n s).0 [
        | some f ↦ ok (some f, (s.objects cur).shadowed, (get_resident bucket cur n s).1)
        | none ↦ down_to k bottom (s.objects cur).shadowed n (get_resident bucket cur n s).1
      ]

  -- shadow_fillpage.
  pub shadow_fillpage :
      ℕ → (ℕ → ℕ → Bool → Pages → Outcome (Got × Pages)) → ℕ → ℕ → Pages → Outcome (Filled × Pages)
  unfolding down_to
  shadow_fillpage k look o f s = do
    kassert (s.frames f).busy
    kassert (not (is_pinned (s.frames f)))
    let n = (s.frames f).pagenum
    walked ← down_to k (s.objects o).bottom (s.objects o).shadowed n s
    elim walked.0 [
      | some g ↦ copy_from f g walked.2
      | none ↦ do cur ← deref walked.1; looked ← look cur n true walked.2; copy_looked f looked
    ]

  -- shadow_lookuppage.
  pub shadow_lookuppage :
      ℕ
      → (ℕ → ℕ → Bool → Pages → Outcome (Got × Pages))
      → ℕ
      → ℕ
      → Bool
      → Pages
      → Outcome (Got × Pages)
  unfolding down shadow_fillpage
  shadow_lookuppage k look o n true s = get env k (shadow_fillpage k look) o n s
  shadow_lookuppage k look o n false s = do
    walked ← down k o n s
    elim walked.0 [
      | none ↦ look walked.1 n false walked.2
      | some f ↦ do
        kassert (n == (walked.2.frames f).pagenum && not (walked.2.frames f).busy)
        ok (got f, walked.2)
    ]

  -- pframe_lookup, with room for `k` more of these calls on the kernel's stack.
  pub lookup : ℕ → ℕ → ℕ → Bool → Pages → Outcome (Got × Pages)
  unfolding shadow_lookuppage
  lookup zero o n w s = panic
  lookup (suc k) o n w s = elim (s.objects o).kind [
    | file ↦ env.file_lookup o n w s
    | anon ↦ get env k (λ p f. anon_fillpage f) o n s
    | shadow ↦ shadow_lookuppage k (lookup k) o n w s
  ]
