-- ===== src/Lib.antt =====
-- Models of the kernel that runs the Linux programs of CodexPad: an x86 emulator (emu/, asbestos/)
-- whose system calls (kernel/calls.c) are served by kernel/ and fs/, on top of util/.
--
-- A task holds a table of descriptors (fs/fd.c) whose slots name shared file objects; paths
-- are normalized (fs/path.c) before the file systems see them; closing a
-- descriptor drops the record locks of the table (fs/lock.c) and, at the last reference, the file. A
-- ring buffer (util/fifo.c) carries the kernel's log. An address space (kernel/memory.c, kernel/mmap.c)
-- is a page table whose entries share reference-counted blocks of host memory. A task's user and group ids
-- (kernel/getset.c) decide what it may do; event counters (kernel/eventfd.c) are files that tasks wait on. Tasks that wait for a word of
-- their memory to change are in the queues of futexes (kernel/futex.c), one for each address. Signals (kernel/signal.c) are queued
-- for a task, which receives them on its way back from a system call. Process groups and sessions
-- (kernel/group.c) are lists of the table of pids (kernel/task.c).
--
-- Files, each with its children in the folder of its name:
--   Prelude        errors and results of kernel/errno.h, 32- and 64-bit integers, lists by number
--   Util/Fifo      util/fifo.c: `struct fifo` is `Fifo`, one function for each function of the file
--   Fs/Lock        fs/lock.c: a `struct file_lock` is a `FileLock`, an inode's list is a `List`
--   Fs/Lock/Flock  fs/lock.c: `struct flock_`, F_GETLK and F_SETLK
--   Fs/Fd          fs/fd.c: `struct fd` and `struct fdtable` are `Fd` and `Sys`, the system calls on them
--   Fs/Fd/Fcntl    fs/fd.c: `sys_fcntl`
--   Fs/Path        fs/path.c: `__path_normalize` is `normalize` and its loop `walk`; what the mounts answer is
--                  a parameter, `Files`
--   Kernel/Memory  kernel/memory.c: `struct mem` is `Mem`, its blocks of data are in a `Store`
--   Kernel/Mmap    kernel/mmap.c: the system calls on an address space
--   Kernel/Mm      kernel/mmap.c and kernel/memory.c: `struct mm`, from `mem_init` to `mm_release`
--   Kernel/Getset  kernel/getset.c: the ids of `struct task` are `Task`
--   Kernel/Eventfd kernel/eventfd.c: the `eventfd` part of `struct fd` is `Counter`
--   Kernel/Futex   kernel/futex.c: `struct futex` and `struct futex_wait` are `Futex` and `FutexWait` in a
--                  `Table`; the system calls are in Calls, what they do to the queues is in Wait, Wake and Requeue
--   Kernel/Signal  kernel/signal.c: the signals of `struct task` and `struct sighand` are `Task` and `Sighand`;
--                  Receive has handlers and returns from them, Calls and Pids the system calls
--   Kernel/Group   kernel/group.c, and the pids of kernel/task.c: a `struct tgroup` is a `Group`, the table of pids `Sys`;
--                  Sessions has sessions and `tgroup_copy` of kernel/fork.c
-- Pointers are numbers that name an object of a store. A call runs under the locks that the source takes,
-- so that it is one step; a wait that gives up a lock is an event whose outcome is an argument.
--
-- Bounds: a `dword_t`, `unsigned` or `atomic_uint` is a number below 2 ^ 32 and wraps; `off_t_` is a signed
-- integer of 64 bits. Loops over a table or a list are structural, over a range of pages or slots they run
-- on the number of steps that the range has, and the loop of `mem_ptr` runs on fuel that is shown to
-- be enough; the loops that skip page directories run on as many steps as there are pages or directories
-- left, which are enough since each goes forward. The loop of `futex_wakelike`
-- that requeues runs on the number of rounds that the caller asks for. The loop of `__path_normalize` runs on the
-- length of the path, which is shown to be enough, and the search for a pid on one round
-- through the table, which is enough if a pid is free. Nothing else has fuel.
--
-- Left out: the emulator and its code generator, processes, sockets, terminals, the
-- mounts and the file systems, and the app around the kernel; and the gaps in which another thread may run
-- inside one call.
pub mod Fs
pub mod Kernel
pub mod Prelude
pub mod Util
