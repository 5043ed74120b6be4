-- ===== src/Lib.antt =====
-- NexOS, a teaching kernel for RISC-V with several harts, written in C under kernel/, with user
-- programs under user/. The kernel runs processes with their own page tables over a page allocator,
-- and gives them pipes, a console and files on a disk.
--
-- The parts and their files:
-- * Memory models memset and memmove of kernel/lib/string.c and the 64-bit accesses that the kernel
--   makes to pages. Memory is a function from addresses to bytes. `memset_loop`, `move_down` and
--   `move_up` are the loops.
-- * Kalloc models kfree, kinit and kalloc of kernel/core/kalloc.c. The state `Kmem` is the memory
--   and the head of the free list, which is linked through the pages as in the source. `end`, an
--   address that the linker sets, is the parameter `kernel_end`. The fuel of `free_from` is the
--   number of pages below PHYSTOP, which is at least the number of rounds.
-- * Vm models kernel/core/vm.c and the macros of kernel/include/riscv.h. Entries stand in the
--   memory of `Kmem`, so the walk allocates, reads and writes as the source does. A loop over a
--   range has as many rounds as the range has pages; `copyin`, `copyout` and `copyinstr` have as
--   many as bytes, each round moving one at least. A panic is the result `panic`, -1 is `none` or
--   `false`.
-- * Lock has push_off and pop_off of kernel/core/intr.c (Intr), acquire and release of
--   kernel/core/spinlock.c as steps of any number of harts (Spin), each with its push_off and
--   pop_off, and kernel/core/sleeplock.c (Sleep).
-- * Bio models kernel/core/bio.c: the list from bcache.head.next on, with the references, the locks
--   and the bytes of the buffers. The disk is a function from blocks to bytes.
-- * Pipe models pipewrite, piperead and pipeclose of kernel/core/pipe.c. A call holds the pipe's
--   lock but for `sleep`, so it is a sequence of atomic segments, each from a start or a wakeup to
--   the next `sleep` or to the return. The caller's memory and its killed flag are the record
--   `Caller`.
-- * Console models kernel/core/console.c in the same way, with the console's lock.
-- * Proc models the process table of kernel/core/proc.c and the memory of processes: Table has the
--   slots, Sched has sleep, wakeup, kill and the choice of the scheduler, Exit has proc_exit, Wait
--   has wait and fork, Image has page tables and stacks. A process is named by its slot.
-- * File models fileinit, filealloc, filedup and fileclose of kernel/core/file.c. `fileclose` hands
--   on what the source calls at its end, pipeclose or iput.
-- * Fs models kernel/fs/fs.c on the disk as a function from blocks to bytes: readsb and the check
--   of fsinit, balloc and bfree on the bitmap (Bitmap), ilock, iunlock, iupdate and ialloc
--   (Dinode), bmap, readi and itrunc (Bmap), writei (Write), dirlookup, dirlink and iput (Dirs),
--   skipelem (Names) and namex (Paths), and iget and idup on the table of inodes (Inode). Chunks
--   has the loops of fileread and filewrite of kernel/core/file.c for a file with an inode, with a
--   round for each byte at most. The operations are those of one caller, and `bread` gives the
--   bytes of the disk, since each change of a buffer there is followed by `bwrite`. The superblock
--   is the parameter `sb`. The fuel of `readi_from` and `writei_from` is the number of bytes, of
--   which each round moves one at least; `balloc_from` has a round for each block of the bitmap,
--   `find_entry` for each entry of the directory, and `walk_path` for each byte of the path.
-- * Sys models the calls of kernel/core/syscall.c on descriptors: sys_close, sys_dup and sys_pipe
--   with pipealloc of kernel/core/pipe.c (Fd), and sys_open (Open), where what the path leads to is
--   an argument. System has processes in slots with their tables of descriptors, over one table of
--   open files, and runs any list of these calls, of fork and of exit. Paths and Links have create,
--   sys_mkdir, sys_chdir, isdirempty, sys_link and sys_unlink on the table of inodes and the disk
--   of Fs, for one caller; the path that copyinstr copies is an argument, and the fuel of
--   `empty_from` is the number of entries of the directory.
-- * Virtio models kernel/drivers/virtio_disk.c: the descriptors, the rings and the calls as
--   segments under the driver's lock. The addresses of descriptors are a type, since the driver
--   stores only those of requests, buffers and statuses. Device has the steps of callers, the
--   interrupt and a device that serves requests in any order; what a device does to a chain is the
--   parameter `Serves` with the hypothesis `IsDevice`, which says that it follows the chain as the
--   virtio specification has it: with the status 0 it has copied the data, and with an error status
--   nothing is said of the content. A round of the loop of `complete_used` takes an entry of the
--   used ring, which has 8 at most, and `free_chain` has a round for each of 8 descriptors.
-- * Trap models on_timer_tick, ticks_get and ticks_sleep of kernel/core/trap.c over the table of
--   Proc. A call of `ticks_sleep` is a sequence of segments, each from its start or a wakeup on,
--   among ticks and changes of other processes in any order.
-- * Print models kernel/lib/printf.c as what it hands to consputc. The loop of `printuint` has 64
--   rounds, one for each bit of the number.
-- * User has match, matchhere and matchstar of user/grep.c. The recursion of `matchhere` on the
--   pattern and of `matchstar` on the text is structural. Shell has parseargs, makepath and the
--   choice of a command of user/sh.c, where the fuel of `parse_loop` is the number of bytes of the
--   line. Wc has do_wc of user/wc.c over the results of its reads.
-- * Common has what these share: tests, lists as C arrays, words of 32 and 64 bits with their wrap
--   (`add32`, `sub32`, `add64`), integers, and results that may panic.
--
-- How they interact: Vm and Proc allocate and free pages through `kalloc` and `kfree` of Kalloc,
-- which write to pages by Memory; Sys changes the table of File; Fs takes the disk of Bio, which is
-- what Virtio reads and writes; Sys.Paths and Sys.Links work by Fs; Bio takes and drops the locks
-- of Lock.Sleep; Proc.Exit and Proc.Wait wake and sleep by Proc.Sched, and their address spaces are
-- those of Vm.
--
-- Not modelled: fs_read_file of kernel/fs/fs.c; the dispatch of fileread and filewrite on the kind
-- of a file, and filestat of kernel/core/file.c; the fetching of arguments and the dispatch of
-- system calls, the handling of traps but for the clock, exec and the loading of programs, the
-- drivers of the UART and the PLIC, and the registers that virtio_disk_init sets up, the boot code,
-- and the user programs but for the matcher of grep, the counts of wc and the command lines of sh.
-- Assembly, device registers and control registers have no model. A segment under a lock is atomic
-- here, which rests on the exclusion of spinlocks. Log messages and the names of locks are left
-- out.
pub mod Common
pub mod Memory
pub mod Kalloc
pub mod Vm
pub mod Lock
pub mod Bio
pub mod Pipe
pub mod Console
pub mod Proc
pub mod File
pub mod Fs
pub mod Sys
pub mod Print
pub mod User
pub mod Trap
pub mod Virtio
