-- ===== src/Fs/Examples.antt =====
-- The theorems about open files at a table of four descriptors, of which two point to one file.
use weenix_kernel.Base.{ℕ, ◌-◌, refl, true, none, some, Option, arith, if◌then◌else◌, ltb, ◌==◌}
use weenix_kernel.Base.Int.{◌+ℤ◌, ℤ, pos, negsuc}
use weenix_kernel.Base.Outcome.{Ends}
use weenix_kernel.Fs.Layer.{File, regular, Vnode, Fs, update, VnodeOps, bump, FileLayer, Counted}
use weenix_kernel.Fs.Calls.{do_read, do_write}
use weenix_kernel.Fs.Calls.Read.{Read, do_read-Read}
use weenix_kernel.Fs.Calls.Write.{Wrote, Extends, do_write-Wrote}
use weenix_kernel.Fs.Descriptors.{do_close, do_dup2}
use weenix_kernel.Fs.Descriptors.Count.{FdInv, holders}
use weenix_kernel.Fs.Descriptors.Close.{Closed, do_close-Closed}
use weenix_kernel.Fs.Descriptors.Dup.{Duped2Any, do_dup2-Duped2}

abbrev give_back : ℕ → Fs → Fs
give_back f s = record s {
  files = update s.files f (record (s.files f) { refcount = (s.files f).refcount - 1 });
}

abbrev take_from : Option ℕ → Fs → Option ℕ × Fs
take_from none s = (none, s)
take_from (some f) s = (some f, bump f s)

abbrev take : ℤ → Fs → Option ℕ × Fs
take (pos fd) s = take_from (s.fds fd) s
take (negsuc n) s = (none, s)

abbrev layer : FileLayer
layer = record {
  fget = take;
  fput = give_back;
  fget-open = λ s fd f e. ground (arith, e);
  fget-closed = λ s fd e. ground (arith, e);
  fget-negative = λ s n. refl;
  files-fput = λ s f u. refl;
  fds-fput = λ s f fd. refl;
  vnodes-fput = λ s f lt. refl;
}

abbrev text : Vnode
text = record { kind = regular; len = pos 10 }

-- A write of `n` bytes at `p` leaves a regular file that is long enough.
abbrev write_text : ℤ → ℕ → (ℕ → Vnode) → ℤ × (ℕ → Vnode)
write_text p n vs = (pos n, update vs 7 (record (vs 7) { kind = regular; len = p +ℤ pos n }))

abbrev vnode_ops : VnodeOps
vnode_ops = record {
  read = λ v. some (λ p n vs. (pos 4, vs));
  write = λ v. some write_text;
  readdir = λ v. some (λ p vs. (pos 1, vs));
}

abbrev notes : File
notes = record {
  mode = record { reads = true; writes = true; appends = true };
  position = pos 3;
  vnode = 7;
  refcount = 2;
}

abbrev two_descriptors : Fs
two_descriptors = record {
  files = λ u. if 0 == u then notes else record notes { refcount = 0 };
  fds = λ d. if ltb d 2 then some 0 else none;
  vnodes = λ v. text;
}

two_descriptors-FdInv : FdInv 4 (λ f. 0) two_descriptors
unfolding holders
two_descriptors-FdInv = record { in_table = λ d f e. ground arith; counted = λ f. ground arith }

two_descriptors-Counted : Counted two_descriptors
two_descriptors-Counted fd f e = ground arith

write_text-Extends : Extends 7 write_text
write_text-Extends p n vs e = ground arith

do_read-Read_example :
    Ends
      (Read layer vnode_ops 4 two_descriptors 1 0)
      (do_read layer vnode_ops (pos 1) 4 two_descriptors)
do_read-Read_example =
    do_read-Read layer vnode_ops 4 two_descriptors 1 0 two_descriptors-Counted refl
      (λ e. ground arith)

do_write-Wrote_example :
    Ends
      (Wrote layer vnode_ops 4 two_descriptors 1 0)
      (do_write layer vnode_ops (pos 1) 4 two_descriptors)
do_write-Wrote_example =
    do_write-Wrote layer vnode_ops 4 two_descriptors 1 0 two_descriptors-Counted refl write_text
      refl write_text-Extends refl

do_close-Closed_example :
    Ends (Closed 4 layer (λ f. 0) two_descriptors 1 0) (do_close 4 layer (pos 1) two_descriptors)
do_close-Closed_example =
    do_close-Closed 4 layer (λ f. 0) two_descriptors 1 0 two_descriptors-FdInv refl

do_dup2-Duped2_example :
    Ends
      (Duped2Any 4 layer (λ f. 0) two_descriptors 4 (pos 0) (pos 1))
      (do_dup2 4 layer 4 (pos 0) (pos 1) two_descriptors)
do_dup2-Duped2_example =
    do_dup2-Duped2 4 layer (λ f. 0) two_descriptors 4 (pos 0) (pos 1) two_descriptors-FdInv
      (omega arith)
