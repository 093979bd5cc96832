-- ===== src/Lib.antt =====
-- EAFITos: the xv6 kernel for RISC-V, with a shell of its own and system calls that show how memory
-- is managed.
--
-- The parts and how they meet. User programs (user/), the shell user/eafitos.c among them, enter the
-- kernel through system calls (kernel/sysfile.c, kernel/sysproc.c). A process (kernel/proc.c) has a
-- page table (kernel/vm.c) over pages that kernel/kalloc.c hands out; a page that is touched for the
-- first time is mapped by the page fault it causes (kernel/trap.c, `vmfault`). Descriptors lead to
-- pipes (kernel/pipe.c) or to the file system (kernel/fs.c), whose writes become transactions of the
-- log (kernel/log.c) on top of the block cache (kernel/bio.c) and the disk driver.
--
-- Base: shared helpers. Boolean tests on the native numbers, lists measured by them, arrays as
-- functions with a write at one index, and the library's names.
--
-- Files: kernel/file.c, the table of open files: `filealloc`, `filedup` and `fileclose`. A file is its
-- index in the table, and the references to files are a list. What is released with the last
-- reference is named, and left to the pipes and the file system. Files/Transfer has `filewrite`, whose
-- loop gets n rounds since each sends a byte or more, and `fileread`, over the inodes of Fs. Each round
-- is a transaction of its own on an empty log.
--
-- Locks: kernel/spinlock.c, `push_off` and `pop_off` on the fields of one hart. The atomic swap of
-- `acquire` is the hardware's.
--
-- Log: kernel/log.c. The state is the log's fields, the cached and the stored blocks, and the list of
-- device writes in the order they were made; `write_log`, `write_head`, `install_trans`, `commit`,
-- `recover_from_log`, `begin_op`, `log_write` and `end_op` have their source's names. A crash is a
-- prefix of the writes. Log/System is a step relation of operations that run side by side. bread is a
-- view of the cache, since the least recently used buffer that it would give up is never a pinned one.
--
-- Pipe: kernel/pipe.c. A call is a sequence of runs, each from one sleep to the next, since the lock is
-- held in between. The counters wrap at 2 ^ 32. copyin, copyout and killed are arguments. Pipe/Fifo
-- has the runs of any number of writers and readers in any order.
--
-- Console: kernel/console.c. The ring of input bytes with its three 32-bit indices; `consoleintr` is one
-- function, and a call of `consoleread` is a sequence of runs, as for a pipe. The kill loop gets as many
-- rounds as there are bytes in the line.
--
-- Memory: kernel/kalloc.c. Memory is a function from an address to its 64-bit word, and the free
-- pages are linked through their first words, as in the source. Operations are commands on that
-- machine which can panic. Memory/FreeList reads the list as a stack of pages.
--
-- Vm: kernel/vm.c on the same machine: `walk`, `walkaddr`, `mappages`, `uvmunmap`, `uvmdealloc`,
-- `uvmalloc`, `vmfault` and their loops. A loop over pages has the number of its rounds as structural
-- argument. Vm/Tree says what each page of memory is for: free, held by the kernel, mapped, or a page
-- table, where a table below the top knows the one entry that refers to it. Vm/Mapping reads a page
-- table as a map from addresses to entries.
--
-- Traps: kernel/trap.c, kernel/sysproc.c, `growproc` of kernel/proc.c and `syscall` of
-- kernel/syscall.c. `usertrap` is one function with the registers as arguments, and `page_fault` is its
-- branch for loads and stores; `sys_sbrk`, `sys_mapzero`, `sys_map_ro`, `sys_shmem` and the others are
-- commands on the machine given the fields of the process. An int is its 32 bits.
--
-- Bcache: kernel/bio.c. A buffer is its index, and the list in order of use is a list of indices:
-- `bget`, `bread`, `brelse`, `bpin` and `bunpin`. Bcache/Life is the step relation of all of them.
--
-- Fs: kernel/fs.c. The disk is the bytes of its blocks as `bread` shows them, on one device. Fs and
-- Fs/Inode are the bitmap and the blocks of an inode, Fs/Content has `readi` and `writei`, Fs/Dinode
-- the dinode as `iupdate` writes it, Fs/Path the names in a path. The header of the log is the list of
-- its blocks, as `log_write` fills it: `itrunc` is run with it, and Fs/Journal lists what `writei`
-- gives to it, which `filewrite` needs; elsewhere a transaction has room. An int is its 32 bits in
-- `balloc`, whose disk has at most 2 ^ 31 - 8192 blocks, since its loop overflows past that.
-- either_copyin and either_copyout are arguments. The loops of `readi` and `writei` get n rounds,
-- since each moves a byte or more; the loop of `namex` gets as many as the path has bytes. Fs/File
-- reads an inode as a map from positions to blocks: 0 to 267 are the content, 268 is the indirect
-- block.
--
-- Procs: kernel/proc.c. The table of processes, where a process is its index. `kfork`, `kexit`,
-- `kwait` (one round of its loop), `sleep`, `wakeup`, `yield`, `kkill` and a choice of `scheduler` are
-- functions on it, each up to where it gives up the processor; Procs/Life is the step relation of all
-- of them. Memory, files and inodes are behind the interface `Services`. The gaps between the locks of
-- one `kfork` or `kexit` are not modelled, and pids are assumed not to wrap.
--
-- Shell: user/eafitos.c, and `gets` of user/ulib.c. Texts are the bytes before the NUL. Shell/Words is
-- `parse_line`, Shell/History the ring of rows, Shell/Ui the prompt and the theme, and Shell/Loop the
-- table of commands and `main`. `parse_line` recurs on the room left in argv and needs no fuel;
-- `run_rounds` takes the number of rounds, since `main` need not end. What a command does outside the
-- shell is an output that names it.
--
-- The other models leave locks out: every function is a critical section, or is cut where it sleeps. Not
-- modelled are the hardware (virtio, uart, plic, assembly, the atomic instructions), the build and the
-- demonstration programs; the table of inodes, directories and the system calls on files are still to
-- come.
pub mod Base
pub mod Files
pub mod Fs
pub mod Locks
pub mod Log
pub mod Pipe
pub mod Console
pub mod Memory
pub mod Vm
pub mod Bcache
pub mod Procs
pub mod Shell
pub mod Traps
