-- ===== src/Fs/PathCalls.antt =====
-- The calls of kernel/fs/vfs_syscall.c that take paths: do_mknod, do_mkdir, do_rmdir, do_unlink, do_link,
-- do_rename, do_chdir and do_stat.
pub mod References
pub mod Directories
pub mod Entries
pub mod Links
pub mod Balance
use weenix_kernel.Base.{
  ℕ, zero, suc, Bool, true, false, ◌||◌, Option, none, some, List, [], ◌∷◌, ltb, ◌==◌,
  if◌then◌else◌,
}
use weenix_kernel.Base.Outcome.{Outcome, ok, panic, ◌>>=◌, deref}
use weenix_kernel.Fs.Layer.{Errno, enotdir, enoent, eexist, eperm, einval, enotempty, enametoolong}
use weenix_kernel.Fs.Calls.{is_directory}
use weenix_kernel.Fs.Names.{Name, Names, Looked, found, failed, Status, done, fails, NameOps}
use weenix_kernel.Fs.Path.{
  is_empty, take, Place, Res, good, bad, look, dir_namev, is_enoent, open_namev,
}

abbrev pub dot : Name
dot = 46 ∷ []

abbrev pub dots : Name
dots = 46 ∷ 46 ∷ []

abbrev pub is_enotdir : Errno → Bool
is_enotdir enotdir = true
is_enotdir _ = false

abbrev pub zero? : ℕ → Bool
zero? n = n == 0

abbrev pub Result : Type 0
Result = Outcome (Status × Names)

-- What the calls use from elsewhere: the directory operations, name_match of fs/vnode.h, NAME_LEN, and
-- the memory behind the copies of paths that dir_namev makes.
pub record PathEnv : Type 0 where
  pub ops : NameOps
  pub matches : Name → Name → ℕ → Bool
  pub name_len : ℕ
  pub beyond : Name

module _ (env : PathEnv) where
  -- lookup of the last component.
  pub look_last : Place → Names → Outcome (Looked × Names)
  look_last p s = do name ← deref p.name; ok (look env.ops p.parent (take p.len name) s)

  -- What an operation on the parent returned, with the parent given back.
  abbrev pub leaves : ℕ → Status × Names → Result
  leaves p (st, s) = ok (st, env.ops.vput p s)

  -- do_mknod. A failed dir_namev leaves the parent NULL.
  mknod_looked : Place → Looked × Names → Result
  mknod_looked p (found v, s) = panic
  mknod_looked p (failed e, s) =
      if is_enoent e
      then (do
        mknod ← deref (env.ops.mknod p.parent)
        name ← deref p.name
        leaves p.parent (mknod (take p.len name) s))
      else panic

  mknod_in : Res Place × Names → Result
  unfolding mknod_looked
  mknod_in (bad e, s) = panic
  mknod_in (good p, s) = do
    mknod ← deref (env.ops.mknod p.parent)
    looked ← look_last p s
    mknod_looked p looked

  pub do_mknod : Name → Names → Result
  unfolding mknod_in
  do_mknod path s = dir_namev env.ops env.beyond path none s >>= mknod_in

  -- do_mkdir.
  mkdir_looked : Place → Looked × Names → Result
  mkdir_looked p (found v, s) = ok (fails eexist, env.ops.vput p.parent (env.ops.vput v s))
  mkdir_looked p (failed e, s) =
      if is_enoent e
      then (do
        mkdir ← deref (env.ops.mkdir p.parent)
        name ← deref p.name
        leaves p.parent (mkdir (take p.len name) s))
      else panic

  mkdir_in : Res Place × Names → Result
  unfolding mkdir_looked
  mkdir_in (bad e, s) = ok (fails e, s)
  mkdir_in (good p, s) =
      if ltb env.name_len p.len
      then ok (fails enametoolong, env.ops.vput p.parent s)
      else (if zero? p.len
          then ok (fails eexist, env.ops.vput p.parent s)
          else (if is_directory (s.kind p.parent)
              then (do
                mkdir ← deref (env.ops.mkdir p.parent)
                looked ← look_last p s
                mkdir_looked p looked)
              else ok (fails enotdir, env.ops.vput p.parent s)))

  pub do_mkdir : Name → Names → Result
  unfolding mkdir_in
  do_mkdir path s = dir_namev env.ops env.beyond path none s >>= mkdir_in

  -- do_rmdir.
  rmdir_in : Res Place × Names → Result
  rmdir_in (bad e, s) = ok (fails e, s)
  rmdir_in (good p, s) =
      if is_directory (s.kind p.parent)
      then (do
        name ← deref p.name
        if env.matches dot name p.len
            then ok (fails einval, env.ops.vput p.parent s)
            else (if env.matches dots name p.len
                then ok (fails enotempty, env.ops.vput p.parent s)
                else (do
                  rmdir ← deref (env.ops.rmdir p.parent)
                  leaves p.parent (rmdir (take p.len name) s))))
      else ok (fails enotdir, env.ops.vput p.parent s)

  pub do_rmdir : Name → Names → Result
  unfolding rmdir_in
  do_rmdir path s = dir_namev env.ops env.beyond path none s >>= rmdir_in

  -- do_unlink.
  unlink_looked : Place → Looked × Names → Result
  unlink_looked p (failed e, s) = ok (fails e, env.ops.vput p.parent s)
  unlink_looked p (found v, s) =
      if is_directory (s.kind v)
      then ok (fails eperm, env.ops.vput v (env.ops.vput p.parent s))
      else (do
        unlink ← deref (env.ops.unlink p.parent)
        name ← deref p.name
        let (st, s') = unlink (take p.len name) s
        ok (st, env.ops.vput v (env.ops.vput p.parent s')))

  unlink_in : Res Place × Names → Result
  unfolding unlink_looked
  unlink_in (bad e, s) = ok (fails e, s)
  unlink_in (good p, s) = do looked ← look_last p s; unlink_looked p looked

  pub do_unlink : Name → Names → Result
  unfolding unlink_in
  do_unlink path s = dir_namev env.ops env.beyond path none s >>= unlink_in

  -- do_link, with the vnode `from` of its first path. Any failed lookup leads to the link.
  link_looked : ℕ → Place → Looked × Names → Result
  link_looked from p (found v, s) =
      ok (fails eexist, env.ops.vput v (env.ops.vput p.parent (env.ops.vput from s)))
  link_looked from p (failed e, s) = do
    link ← deref (env.ops.link p.parent)
    name ← deref p.name
    let (st, s') = link from (take p.len name) s
    ok (st, env.ops.vput p.parent (env.ops.vput from s'))

  link_in : ℕ → Res Place × Names → Result
  unfolding link_looked
  link_in from (bad e, s) = ok (fails e, env.ops.vput from s)
  link_in from (good p, s) =
      if ltb env.name_len p.len
      then ok (fails enametoolong, env.ops.vput p.parent (env.ops.vput from s))
      else (do looked ← look_last p s; link_looked from p looked)

  link_opened : Name → Res ℕ × Names → Result
  unfolding link_in
  link_opened to (bad e, s) = ok (fails e, s)
  link_opened to (good from, s) =
      if is_directory (s.kind from)
      then ok (fails eperm, env.ops.vput from s)
      else (dir_namev env.ops env.beyond to none s >>= link_in from)

  pub do_link : Name → Name → Names → Result
  unfolding link_opened
  do_link from to s = open_namev env.ops env.beyond from true none s >>= link_opened to

  pub do_rename : Name → Name → Names → Result
  unfolding do_link
  do_rename old new s = do_link old new s

  -- do_chdir. A failed dir_namev leaves the parent NULL, which lookup asserts not to be.
  chdir_looked : Place → Looked × Names → Result
  chdir_looked p (failed e, s) = ok (fails e, env.ops.vput p.parent s)
  chdir_looked p (found v, s) =
      if is_directory (s.kind v)
      then (let s' = env.ops.vput s.cwd (env.ops.vput p.parent s) in
          ok (done, record s' { cwd = v }))
      else ok (fails enotdir, env.ops.vput p.parent (env.ops.vput v s))

  chdir_in : Res Place × Names → Result
  unfolding chdir_looked
  chdir_in (bad e, s) = panic
  chdir_in (good p, s) = do looked ← look_last p s; chdir_looked p looked

  pub do_chdir : Name → Names → Result
  unfolding chdir_in
  do_chdir path s = dir_namev env.ops env.beyond path none s >>= chdir_in

  -- do_stat. Behind a lookup that failed otherwise it goes through a pointer that was never set.
  stat_looked : Place → Looked × Names → Result
  stat_looked p (failed e, s) =
      if is_enotdir e || is_enoent e then ok (fails e, env.ops.vput p.parent s) else panic
  stat_looked p (found v, s) = do
    stat ← deref (env.ops.stat v)
    ok (done, env.ops.vput v (env.ops.vput p.parent (stat s).1))

  abbrev pub or_dot : Place → Place
  or_dot p = if zero? p.len then record p { name = some dot; len = 1 } else p

  stat_in : Res Place × Names → Result
  unfolding stat_looked
  stat_in (bad e, s) = ok (fails e, s)
  stat_in (good p, s) = do looked ← look_last (or_dot p) s; stat_looked (or_dot p) looked

  pub do_stat : Name → Names → Result
  unfolding stat_in
  do_stat path s =
      if is_empty path
      then ok (fails einval, s)
      else (dir_namev env.ops env.beyond path none s >>= stat_in)
