-- ===== src/Lib.antt =====
-- Weenix kernel: address spaces, page frames, threads, mutexes, processes, open files, system
-- calls.
--
-- The kernel is modelled as pure functions on explicit state. A routine that can stop the kernel (a
-- failed KASSERT, an access through NULL, a store outside of an array) returns an `Outcome`, which
-- is `ok` with the result or `panic` (Base/Outcome.antt); `Ends P o` says that `o` is no panic and
-- that its value satisfies `P`. Pointers are identities (numbers), NULL is `none`, and memory is a
-- function from identities to records, so that threads, processes and files that several places
-- point to are shared as they are in C. The intrusive lists of util/list.h are sequences, from the
-- head to the tail.
--
-- Address spaces. Vm/Area.antt and Vm/Vmmap.antt are the areas and the lookups, insertion, gap
-- search and copy of kernel/vm/vmmap.c; Vm/Remove.antt is vmmap_remove and Vm/Mapping.antt is
-- vmmap_map. The calls that these make for memory objects and page tables are listed as effects, in
-- their order. What an address space is to its process is the function from pages to what they show
-- (Vm/View.antt): each routine is described by it. Page numbers are the 32-bit words of the source,
-- with the wrap-around written out; USER_MEM_LOW and USER_MEM_HIGH, as page numbers, and the MAP_
-- bits are parameters. Theorems: Vm/Remove, Vm/Range, Vm/Insert and Vm/Mapping. On top of these
-- stand do_mmap and do_munmap of kernel/vm/mmap.c (Vm/Syscalls.antt), addr_perm and range_perm of
-- kernel/api/access.c and handle_pagefault of kernel/vm/pagefault.c (Vm/Access.antt), and
-- vmmap_read and vmmap_write (Vm/Copy.antt). The loop of range_perm has a round of fuel for each
-- page that is begun and one for the last test; that of vmmap_read and vmmap_write one more round
-- than there are bytes. Both are shown to be enough, for ranges that do not wrap. pframe_lookup is
-- a parameter of the page fault and, with pframe_dirty, of vmmap_read and vmmap_write; so is the
-- mmap operation of a vnode, of vmmap_map. Vm/Fork.antt is the loop of do_fork (kernel/proc/fork.c)
-- over the areas of the parent and their copies, and Vm/Destroy.antt is vmmap_destroy.
--
-- Pages. Mm/Objects.antt has page frames, memory objects, and the lists, counts and hash chains of
-- kernel/mm/pframe.c; its `Inv` says that they fit together. Mm/Frames.antt is what pframe.c does
-- with these alone (pframe_pin, pframe_unpin, pframe_get_resident), Mm/Pager.antt what it does by
-- way of the operations of objects (pframe_alloc, pframe_get, pframe_free), with kernel/vm/anon.c
-- and the reference counts of kernel/vm/shadow.c, Mm/Shadow.antt is the lookup and the copy on
-- write of shadow.c and pframe_lookup, and Mm/Writeback.antt is pframe_dirty, pframe_clean,
-- pframe_clean_all, pframe_migrate and the loop of pageoutd_run, with the cleanpage of anon.c and
-- shadow.c. The operations of the objects of files are parameters, since fs/vnode.c is not in the
-- repository; so is the frame that the allocators give next. What a page holds is a number, 0 for
-- zeros. A run ends where its thread falls asleep. Lookups and puts that call one another have
-- fuel, which stands for the kernel's stack; the walks down a chain and the loops over pages have a
-- round of fuel for each object or page, which is shown to be enough.
--
-- Threads. Proc/Thread.antt and Proc/Queue.antt are kthread_t and the queues of
-- kernel/proc/sched.c, Proc/Sched.antt the scheduler of sched.c and sched_helper.c, Proc/Mutex.antt
-- is kernel/proc/kmutex.c. A routine that sleeps ends, in the model, when another thread runs; what
-- it does when its own thread runs again is a routine of its own. The interrupts that come while no
-- thread is runnable are a list of the queues on which their handlers wake a thread. The loop of
-- sched_broadcast_on has fuel: one round more than there are waiters, which is shown to be enough.
--
-- Processes. Proc/Pid.antt is _proc_getid, with a round of fuel for each pid, which is shown to be
-- enough; Proc/Process.antt is proc_create, Proc/Exit.antt is proc_cleanup and Proc/Waitpid.antt is
-- do_waitpid, all of kernel/proc/proc.c. They use the scheduler through its theorems, and name
-- their calls of fput, vget, vput and vmmap_destroy in a list. The invariant of the process tree is
-- `Family` (Proc/Process/Family.antt). Proc/Kill.antt is proc_kill and proc_kill_all, with
-- kthread_cancel and kthread_exit of kernel/proc/kthread.c: a kill of the process that calls ends
-- in an exit, which is the end of the run there.
--
-- Open files. Fs/Layer.antt has files, descriptors and vnodes, and an interface for fget and fput
-- of fs/file.c, which the repository does not have: it says what their documentation says, and an
-- instance is in Fs/Examples.antt. The vnode operations are a table of functions. Fs/Calls.antt is
-- do_read, do_write, do_lseek and do_getdent, and Fs/Descriptors.antt is get_empty_fd, do_close,
-- do_dup and do_dup2, of kernel/fs/vfs_syscall.c and kernel/fs/open.c. NFILES and MAX_FILES are
-- parameters. Paths. Fs/Names.antt has directories and vnodes with reference counts, and an
-- interface for the vnode operations of a file system and for vref and vput, which the repository
-- does not have: `Laws` says what their documentation says, and an instance is in
-- Fs/PathExamples.antt; that directories have all operations (`Complete`) and that a failed lookup
-- is ENOENT (`OnlyEnoent`) are hypotheses of their own. Fs/Path.antt is lookup, dir_namev and
-- open_namev of kernel/fs/namev.c, and Fs/PathCalls.antt the calls of kernel/fs/vfs_syscall.c that
-- take paths. A path is the list of its characters, and the memory behind the copy that dir_namev
-- makes is a parameter, since it is read for a path without text. More than 50 components are a
-- panic.
--
-- Fs/Open.antt is do_open of kernel/fs/open.c, on descriptors and paths together. The access mode
-- is oflags & 0x3, and O_RDONLY, O_WRONLY and O_RDWR are 0, 1 and 2.
--
-- That the reference counts of processes and of descriptors fit is counted by the same function
-- (`holders` of Fs/Descriptors/Count.antt).
--
-- System calls. Api/User.antt has the structures that programs pass, user_strdup of
-- kernel/api/access.c, and `Calls`, the interface of what the calls are for: the copies of
-- access.c, and the do_ routines that the files above model on their own state. Api/Syscall.antt is
-- the calls, the dispatch and the handler of kernel/api/syscall.c over any such kernel, with errno
-- and the number of buffers that are allocated. The bytes behind a pointer are a parameter, and
-- SYS_ numbers are the cases of the dispatch.
--
-- Not modelled: file positions and lengths are integers without bound, where off_t has 32 bits; the
-- bytes that are copied; slab allocation, which is taken to succeed outside of Mm/; interrupt
-- priority levels, which decide only when handlers run; debugging output; and the parts of the
-- kernel that no file here is about: brk (kernel/vm), execve, uname and the debugging calls
-- (kernel/api), what do_fork does beside the address spaces, thread creation, and start-up. The
-- flushes of the TLB, the changes of page tables in kernel/mm/pframe.c and its broadcasts on the
-- queues of frames are left out.
--
-- Base/ has what the parts share: tests on numbers, 32-bit words, integers, lists of identities.
-- The files called Examples apply the theorems to concrete states.
pub mod Api
pub mod Base
pub mod Vm
pub mod Proc
pub mod Fs
pub mod Mm
