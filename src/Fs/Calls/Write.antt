-- ===== src/Fs/Calls/Write.antt =====
-- do_write starts at the end of the file if the descriptor appends, and keeps every reference count.
use weenix_kernel.Base.{
  ℕ, ◌≡◌, ◌⊎◌, ◌+◌, inl, inr, refl, Bool, true, false, ◌&&◌, ◌||◌, some, arith, ap, ◌∙◌, subst,
  Bool-cases, if◌then◌else◌, clash,
}
use weenix_kernel.Base.Int.{ℤ, pos, ◌+ℤ◌, ltb_ℤ, leb_ℤ, +ℤ-zero}
use weenix_kernel.Base.Outcome.{Outcome, Ends, Ends-bind, Ends-mono, ◌>>=◌}
use weenix_kernel.Fs.Layer.{
  Mode, File, Vnode, Fs, ebadf, Ret, ret, err, VnodeOps, bump, FileLayer, Counted, Leaves,
}
use weenix_kernel.Fs.Calls.Held.{
  fput-bumped, file-bumped, left_at, fput-left, fput-moved, update-at,
}
use weenix_kernel.Fs.Calls.Seek.{Sought, do_lseek-Sought}
use weenix_kernel.Fs.Calls.{
  no_mode, do_lseek, do_write, write_file, write_at, seek_end, seek_cur, is_device, is_regular,
}

-- A write operation that returns a positive number has written a device, or a regular file that
-- then reaches as far as the write.
abbrev pub Extends : ℕ → (ℤ → ℕ → (ℕ → Vnode) → ℤ × (ℕ → Vnode)) → Type 0
Extends v write =
    (p : ℤ) (n : ℕ) (vs : ℕ → Vnode)
    → ltb_ℤ (pos 0) (write p n vs).0 ≡ true
    → (is_device ((write p n vs).1 v).kind
        || (is_regular ((write p n vs).1 v).kind
            && leb_ℤ (p +ℤ (write p n vs).0) ((write p n vs).1 v).len))
      ≡ true

module _ (l : FileLayer) (ops : VnodeOps) (nbytes : ℕ) (s : Fs) (fd f : ℕ) where
  open l use {fget, fput}

  -- Where a write starts.
  abbrev pub start : ℤ
  start =
      if (s.files f).mode.appends then (s.vnodes (s.files f).vnode).len else (s.files f).position

  abbrev pub moved_from : ℤ → ℤ → ℤ
  moved_from p n = if ltb_ℤ (pos 0) n then p +ℤ n else p

  abbrev pub Wrote : Ret × Fs → Type 0
  Wrote (r, s') =
      ((((s.files f).mode.writes || (s.files f).mode.appends) ≡ false)
        × (r ≡ err ebadf)
        × Leaves f (s.files f).position s.vnodes s s')
      ⊎ ((((s.files f).mode.writes || (s.files f).mode.appends) ≡ true)
          × ((write : ℤ → ℕ → (ℕ → Vnode) → ℤ × (ℕ → Vnode)) × (ops.write (s.files f).vnode
                ≡ some write)
              × (let done = write start nbytes s.vnodes in
                  (r ≡ ret done.0) × Leaves f (moved_from start done.0) done.1 s s')))

  module _ (c : Counted s) (open_fd : s.fds fd ≡ some f)
      (write : ℤ → ℕ → (ℕ → Vnode) → ℤ × (ℕ → Vnode))
      (has_write : ops.write (s.files f).vnode ≡ some write)
      (extends : Extends (s.files f).vnode write) where
    -- The write, from a state `s1` in which the file is held and at `p`.
    write_at-Wrote :
        (p : ℤ) (s1 : Fs)
        → Leaves f p s.vnodes (bump f s) s1
        → Ends
            (λ (r, s').
              let done = write p nbytes s.vnodes in
              (r ≡ ret done.0) × Leaves f (moved_from p done.0) done.1 s s')
            (write_at l ops f nbytes s1)
    unfolding write_at
    write_at-Wrote p s1 h =
        let e : s1.files f
            ≡ record (s.files f) { position = p; refcount = (s.files f).refcount + 1 } =
          left_at l (bump f s) fd f p s.vnodes s1 h ∙ rw (file-bumped l s fd f) refl in
        rw h.2 rw e rw has_write elim (Bool-cases (ltb_ℤ (pos 0) (write p nbytes s.vnodes).0)) [
          | inl gt ↦
              let x = extends p nbytes s.vnodes gt in
              let at = update-at l s1 fd f s1.files (record (s.files f) {
                position = p +ℤ (write p nbytes s.vnodes).0;
                refcount = (s.files f).refcount + 1;
              }) in
              rw gt rw at rw x (refl, fput-moved l s fd f c open_fd p s.vnodes _ s1 h _)
          | inr le ↦ rw le (refl, fput-left l s fd f c open_fd p s.vnodes _ s1 h)
        ]

    bump-Counted : Counted (bump f s)
    bump-Counted d g e = ground (arith, c d g e)

    to_end :
        no_mode (s.files f).mode ≡ false
        → leb_ℤ (pos 0) (s.vnodes (s.files f).vnode).len ≡ true
        → (r : Ret) (s1 : Fs) → Sought l ops (bump f s) fd f (pos 0) seek_end (r, s1)
        → Leaves f (s.vnodes (s.files f).vnode).len s.vnodes (bump f s) s1
    to_end m le r s1 (inl (k, e, x)) = cc
    to_end m le r s1 (inr (inl (k, n, e, x))) =
        clash (no_mode (s.files f).mode)
          (subst (λ (y : File). no_mode y.mode ≡ true) (file-bumped l s fd f) n) m
    to_end m le r s1 (inr (inr (inl (k, n, g, e, x)))) =
        subst (λ q. Leaves f q s.vnodes (bump f s) s1) (+ℤ-zero _ ∙ rw (file-bumped l s fd f) refl)
          x
    to_end m le r s1 (inr (inr (inr (k, n, g, e, x)))) =
        clash (leb_ℤ (pos 0) (s.vnodes (s.files f).vnode).len) le
          (subst (λ q. leb_ℤ (pos 0) q ≡ false) (+ℤ-zero _ ∙ rw (file-bumped l s fd f) refl) g)

    stays :
        no_mode (s.files f).mode ≡ false
        → (r : Ret) (s1 : Fs) → Sought l ops (bump f s) fd f (pos 0) seek_cur (r, s1)
        → Leaves f (s.files f).position s.vnodes (bump f s) s1
    stays m r s1 (inl (k, e, x)) = cc
    stays m r s1 (inr (inl (k, n, e, x))) =
        subst (λ q. Leaves f q s.vnodes (bump f s) s1)
          (ap (λ (y : File). y.position) (file-bumped l s fd f)) x
    stays m r s1 (inr (inr (inl (k, n, g, e, x)))) =
        subst (λ q. Leaves f q s.vnodes (bump f s) s1)
          (+ℤ-zero _ ∙ ap (λ (y : File). y.position) (file-bumped l s fd f)) x
    stays m r s1 (inr (inr (inr (k, n, g, e, x)))) =
        subst (λ q. Leaves f q s.vnodes (bump f s) s1)
          (ap (λ (y : File). y.position) (file-bumped l s fd f)) x

    refused : Leaves f (s.files f).position s.vnodes s (fput f (bump f s))
    refused = fput-bumped l s fd f s.vnodes c open_fd

    write_behind :
        (p : ℤ)
        → start ≡ p
        → ((s.files f).mode.writes || (s.files f).mode.appends) ≡ true
        → (o : Outcome (Ret × Fs)) → Ends (λ (r, s1). Leaves f p s.vnodes (bump f s) s1) o
        → Ends Wrote (o >>= λ sought. write_at l ops f nbytes sought.1)
    write_behind p e m o h = Ends-bind _ Wrote o _ h λ (r, s1) x.
        Ends-mono _ Wrote (write_at l ops f nbytes s1) (λ w y. inr (m, (write, has_write, rw e y)))
          (write_at-Wrote p s1 x)

    bumped_mode :
        (P : Mode → Bool) (b : Bool) → P (s.files f).mode ≡ b → P ((bump f s).files f).mode ≡ b
    bumped_mode P b e = ap (λ (x : File). P x.mode) (file-bumped l s fd f) ∙ e

    write_file-Wrote :
        leb_ℤ (pos 0) (s.vnodes (s.files f).vnode).len ≡ true
        → Ends Wrote (write_file l ops (pos fd) nbytes f (bump f s))
    unfolding write_file
    write_file-Wrote le = elim (Bool-cases (no_mode (s.files f).mode)) [
      | inl e ↦ rw (bumped_mode no_mode true e) (inl (ground arith, refl, refused))
      | inr e ↦ elim (Bool-cases (s.files f).mode.appends) [
        | inl a ↦ rw (bumped_mode no_mode false e) rw (bumped_mode (λ m. m.appends) true a) (
            write_behind (s.vnodes (s.files f).vnode).len (rw a refl) (ground arith)
              (do_lseek l ops (pos fd) (pos 0) seek_end (bump f s))
              (Ends-mono _ _ (do_lseek l ops (pos fd) (pos 0) seek_end (bump f s))
                (λ (r, s1) x. to_end e le r s1 x)
                (do_lseek-Sought l ops (bump f s) fd f (pos 0) seek_end bump-Counted open_fd)))
        | inr a ↦ elim (Bool-cases (s.files f).mode.writes) [
          | inl w ↦
              rw (bumped_mode no_mode false e) rw (bumped_mode (λ m. m.appends) false a) rw
                (bumped_mode (λ m. m.writes) true w)
                (write_behind (s.files f).position (rw a refl) (ground arith)
                  (do_lseek l ops (pos fd) (pos 0) seek_cur (bump f s))
                  (Ends-mono _ _ (do_lseek l ops (pos fd) (pos 0) seek_cur (bump f s))
                    (λ (r, s1) x. stays e r s1 x)
                    (do_lseek-Sought l ops (bump f s) fd f (pos 0) seek_cur bump-Counted open_fd)))
          | inr w ↦
              rw (bumped_mode no_mode false e) rw (bumped_mode (λ m. m.appends) false a) rw
                (bumped_mode (λ m. m.writes) false w) (inl (ground arith, refl, refused))
        ]
      ]
    ]

  -- do_write of an open descriptor, whose file has a reference, a length that is not negative and a
  -- write operation that makes a regular file as long as it has written, does not panic. It is
  -- -EBADF if the mode neither writes nor appends; else it returns what the write operation returns
  -- at the end of the file if the mode appends, and at the file's position if not, and the position
  -- moves from there by that number if it is positive; so a file that is open for reading and appending
  -- is written, though it is not open for writing. On every branch each reference count and each
  -- descriptor is as it was.
  pub do_write-Wrote :
      Counted s
      → s.fds fd ≡ some f
      → (write : ℤ → ℕ → (ℕ → Vnode) → ℤ × (ℕ → Vnode)) → ops.write (s.files f).vnode ≡ some write
      → Extends (s.files f).vnode write
      → leb_ℤ (pos 0) (s.vnodes (s.files f).vnode).len ≡ true
      → Ends Wrote (do_write l ops (pos fd) nbytes s)
  unfolding do_write
  do_write-Wrote c open_fd write has_write extends le =
      rw (l.fget-open s fd f open_fd) (write_file-Wrote c open_fd write has_write extends le)
