-- ===== src/Fs/Open/Opens.antt =====
-- do_open on every branch.
use weenix_kernel.Base.{ℕ, ◌<◌, ◌≡◌, true, false, ◌&&◌, Option, some, ◌==◌, length, ◌⊎◌}
use weenix_kernel.Base.Int.{pos}
use weenix_kernel.Fs.Layer.{Ret, ret, err, einval, eisdir, enametoolong, update}
use weenix_kernel.Fs.Calls.{is_directory}
use weenix_kernel.Fs.Names.{Name, Names, NameOps, Keeps}
use weenix_kernel.Fs.Path.{good, bad}
use weenix_kernel.Fs.Path.Open.{slash_follows, Opened}
use weenix_kernel.Fs.Open.{Flags, World, mode_of, writing}

-- No descriptor changes, and no file but `f`.
abbrev pub Untouched : ℕ → World → World → Type 0
Untouched f w w' =
    ((d : ℕ) → w'.fs.fds d ≡ w.fs.fds d)
    × ((u : ℕ) → (f == u) ≡ false → w'.fs.files u ≡ w.fs.files u)

module _ (name_len : ℕ) (ops : NameOps) where
  -- What do_open returns and leaves, with the file `f` and the descriptor `d`; the directory of the
  -- last component is `o`.
  abbrev pub Opens : Names → Option ℕ → Name → Name → Flags → ℕ → ℕ → World → Ret × World → Type 0
  Opens n o path last flags f d w (err e, w') =
      Untouched f w w'
      × (((flags.access ≡ 3) × (e ≡ einval) × (w' ≡ w))
          ⊎ ((name_len < length path) × (e ≡ enametoolong) × (w' ≡ w))
          ⊎ Opened ops n flags.creates (slash_follows path last) o last (bad e, w'.names)
          ⊎ ((e ≡ eisdir)
              × (writing flags ≡ true)
              × ((v : ℕ) × (t : Names) × Opened ops n flags.creates (slash_follows path last) o last
                    (good v, t)
                  × (is_directory (t.kind v) ≡ true))
              × Keeps n w'.names))
  Opens n o path last flags f d w (ret z, w') =
      (z ≡ pos d)
      × ((x : ℕ) → w'.fs.fds x ≡ update w.fs.fds d (some f) x)
      × ((u : ℕ) → (f == u) ≡ false → w'.fs.files u ≡ w.fs.files u)
      × (w'.has_vnode f ≡ true)
      × ((v : ℕ) × (w'.fs.files f
            ≡ record { mode = mode_of flags; position = pos 0; vnode = v; refcount = 1 })
          × Opened ops n flags.creates (slash_follows path last) o last (good v, w'.names)
          × ((is_directory (w'.names.kind v) && writing flags) ≡ false))
