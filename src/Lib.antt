-- ===== src/Lib.antt =====
-- A model of the operating system's own code in the kernel, the file server, the C library and the
-- library and shell of user programs.
--
-- The kernel (kern/) keeps the physical pages with their reference counts and a list of free ones,
-- the page tables in those pages, and a table of 1024 environments. System calls act on the
-- environments and their page tables and run the scheduler. The file server (fs/) is an environment
-- with a cache of disk blocks in its memory, and the C library (lib/) is what user programs share.
--
-- Files and what they are about:
--   Base: tests on numbers, lists, bits of words, and the error codes of inc/error.h.
--   Kern/Machine: the state of the kernel (the globals of kern/pmap.c and kern/env.c, the words of
--     every page, the requests to the TLBs) and the monad of its functions. A function returns,
--     leaves by iret into an environment (`switches`), waits for ever (`spins`) or panics.
--   Kern/Page, Kern/PageTable: kern/pmap.c from page_init to user_mem_check. A `struct Page *` is
--     its index, a `pte_t *` a page with an index.
--   Kern/Env: kern/env.c from envid2env to env_run, and kern/sched.c. A `struct Env *` is its index.
--   Kern/Syscall: kern/syscall.c. The calls on devices are a parameter of the dispatcher.
--   Clib/Str: lib/string.c, on a memory of bytes. Clib/Moves: its memset and memmove.
--   Clib/Num, Clib/Fmt: lib/printfmt.c. What is printed is the list of the characters.
--   Clib/Pipe: lib/pipe.c, as steps of two processes and as whole calls, with its positions as words.
--   Fs/Disk: the globals of fs/fs.c, the memory from DISKMAP on, and the disk.
--   Fs/Block: fs/fs.c from diskaddr to fs_init. Fs/File: from file_block_walk to file_close.
--   Fs/Dir: directories and paths.
--   Fs/Serve: fs/serv.c. A request is a value, and what the handler sends back is its result. The
--     pageref of the page of an open file is a part of the state that clients change.
--   Kern/Trap: trap, trap_dispatch and page_fault_handler of kern/trap.c, for traps from user mode.
--     The interrupts of devices, the store to the exception stack and the load of a frame from user
--     memory are parameters.
--   Kern/Stabs: stab_binsearch of kern/kdebug.c, and debuginfo_eip in Kern/Stabs/Debug. The ints of
--     the source that can be -1 are kept as the index behind them.
--   Kern/Console: the ring of input characters of kern/console.c.
--   Clib/Line: lib/readline.c. Clib/Printbuf: lib/printf.c. Clib/Fprintf: lib/fprintf.c.
--   Shell: the tokenizer of user/sh.c, on a memory of bytes.
--   User/Space: the page entries of a process as vpt shows them, and the file server as it answers
--     the requests of lib/fsipc.c, which is an interface.
--   User/File: fd_alloc and fd_lookup of lib/fd.c, and the mapping of files of lib/file.c.
--   User/Fd: the calls of lib/fd.c on descriptors over any devices, with dup in User/Fd/Dup, and the
--     device of files of lib/file.c in User/Fd/Device, with the memmove of lib/string.c that it calls.
--     What a descriptor and the pages hold is kept by the frame that a page entry names, so that
--     descriptors share it.
--   User/Fork: the copy of the address space in lib/fork.c, and User/Fork/Fault its handler of page
--     faults. Which calls the kernel refuses is a parameter.
--   User/Spawn: init_stack of lib/spawn.c, on the bytes of the page it fills, and copy_shared_pages in
--     User/Spawn/Shared, on the address spaces of User/Fork.
-- The children of a module hold the proofs about it, and the modules named Tests the examples.
--
-- Bounds and fuel. Words wrap at 2^32 where the source's do. Loops that count are recursion on the
-- count. Loops whose end depends on memory take fuel: strlen, strcmp, strcpy and strtol need more
-- than the bytes of the string, vprintfmt more than the characters of the format, printnum more than
-- the number, and each of these gives itself enough or has it as a hypothesis. The loop of
-- user_mem_check has fuel for the 2^20 pages of an address space, read_bitmap for the 24 bitmap
-- blocks of the largest disk. funmap and fmap have a round for every page that the file touches and
-- one more, readn one for every byte; stab_binsearch has two rounds for every entry of the table;
-- the tokenizer needs more than the characters of the line.
--
-- Not modelled: device drivers, the entry code of traps, the boot code and the start of other
-- processors, which are port I/O and assembly; locks, since each kernel function runs as one step;
-- load_icode, which reads an ELF image; malloc of the library; the part of spawn that loads an ELF
-- image; the loops of the shell that start processes, and the other user programs; and net/lwip,
-- which is another project. The disk driver of the file server is the array of the disk's blocks
-- with the set of the blocks whose transfer fails.
pub mod Base
pub mod Kern
pub mod Clib
pub mod Fs
pub mod Shell
pub mod User
