-- ===== src/Fs/Calls/Held.antt =====
-- A call that holds a file: fget gives it one more reference, which fput takes back.
use weenix_kernel.Base.{ℕ, ◌≡◌, ◌+◌, some, arith, ◌∙◌}
use weenix_kernel.Base.Int.{ℤ}
use weenix_kernel.Fs.Layer.{Vnode, Fs, update, bump, FileLayer, Counted, Leaves}

module _ (l : FileLayer) (s : Fs) (fd f : ℕ) where
  open l use {fget, fput}

  pub update-at : {A : Type 0} (h : ℕ → A) (a : A) → update h f a f ≡ a
  update-at h a = ground arith

  -- The state in a call, behind its fget, with the position `p` and the vnodes `v`.
  abbrev pub in_call : ℤ → (ℕ → Vnode) → Fs
  in_call p v = record (bump f s) {
    files =
        update (bump f s).files f
          (record (s.files f) { position = p; refcount = (s.files f).refcount + 1 });
    vnodes = v;
  }

  pub fput-in_call :
      (p : ℤ) (v : ℕ → Vnode)
      → Counted s
      → s.fds fd ≡ some f
      → Leaves f p v s (fput f (in_call p v))
  fput-in_call p v c e = (
    (λ u. l.files-fput _ f u ∙ ground arith),
    (λ d. l.fds-fput _ f d),
    l.vnodes-fput _ f (ground (arith, c fd f e)),
  )

  pub fput-bumped :
      (v : ℕ → Vnode)
      → Counted s
      → s.fds fd ≡ some f
      → Leaves f (s.files f).position v s (fput f (record (bump f s) { vnodes = v }))
  fput-bumped v c e = (
    (λ u. l.files-fput _ f u ∙ ground arith),
    (λ d. l.fds-fput _ f d),
    l.vnodes-fput _ f (ground (arith, c fd f e)),
  )

  pub file-bumped : (bump f s).files f ≡ record (s.files f) { refcount = (s.files f).refcount + 1 }
  file-bumped = update-at s.files (record (s.files f) { refcount = (s.files f).refcount + 1 })

  pub left_at :
      (p : ℤ) (v : ℕ → Vnode) (s' : Fs)
      → Leaves f p v s s'
      → s'.files f ≡ record (s.files f) { position = p }
  left_at p v s' h = h.0 f ∙ update-at s.files (record (s.files f) { position = p })

  module _ (c : Counted s) (open_fd : s.fds fd ≡ some f) (p : ℤ) (v w : ℕ → Vnode) (s1 : Fs)
      (h : Leaves f p v (bump f s) s1) where
    pub fput-left : Leaves f p w s (fput f (record s1 { vnodes = w }))
    fput-left = (
      (λ u. l.files-fput _ f u ∙ ground (arith, h.0 u, h.0 f)),
      (λ d. l.fds-fput _ f d ∙ h.1 d),
      l.vnodes-fput _ f (ground (arith, c fd f open_fd, h.0 f)),
    )

    pub fput-moved :
        (q : ℤ)
        → Leaves f q w s (
            fput f (record s1 {
              files =
                  update s1.files f
                    (record (s.files f) { position = q; refcount = (s.files f).refcount + 1 });
              vnodes = w;
            }))
    fput-moved q = (
      (λ u. l.files-fput _ f u ∙ ground (arith, h.0 u, h.0 f)),
      (λ d. l.fds-fput _ f d ∙ h.1 d),
      l.vnodes-fput _ f (ground (arith, c fd f open_fd, h.0 f)),
    )
