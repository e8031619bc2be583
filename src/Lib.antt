-- ===== src/Lib.antt =====
-- XMeRTL: the XtratuM hypervisor with its devices, and the PaRTiKle real-time kernel.
--
-- XtratuM runs several domains over one machine. Linux is the root domain. The interrupts and
-- the virtual events of a domain are bits of bitmaps; the scheduler passes the events that a
-- domain does not intercept to the next one in order of priority, picks a domain, and calls its
-- handlers. Devices are drivers in a registry; the FIFO device moves bytes between the root
-- domain and others.
--
-- PaRTiKle is a kernel of threads that can be such a domain. It runs the thread of the most
-- urgent priority that is ready; its files are descriptors of devices, and it has a small C
-- library of its own.
--
-- Files of this library, and the code they model:
--  * Base: what the modules share: lists and options over native numbers, words, memory copies.
--  * Bitmap: xtratum/include/bitmap.h. The macros assign to their argument; here they return it.
--    `ffs` looks at the 32 positions in order, which is what `bsfl` does at once.
--  * Domain: domain_t and event_handling_t of xtratum/include/domain.h and events.h, as far as
--    the scheduler goes, and the delivery of events of xtratum/kernel/irqs.c. Handlers are
--    functions of the domain: a parameter `handle` that may change the domain's events in any
--    way. The local copy of the pending events loses one bit a round, so that 33 rounds of fuel
--    end every loop.
--  * Sched: xm_sched of xtratum/kernel/sched.c with its callers generic_trap_handler and
--    exit_domain_sys (xtratum/kernel/syscalls.c), and the list of domains of
--    xtratum/include/domain.h. The linked list is a list, and a pointer to a domain is the
--    domain's id. After the context switch the code runs for the chosen domain, with its stack
--    and page directory, which are not modelled.
--  * Xmdev: xtratum/kernel/xmdev.c. The result 0 of C is `true`, -1 is `false`; a driver's
--    functions are named, not modelled.
--  * Rtfifo: xtratum/devs/rtfifo/rtfifo.c and rtfifo.h: the calls rt_fifo_user_*. A page is a
--    list of bytes and `none` is an access out of range. Each do-while has one round, since
--    nothing else changes a FIFO between the load and the CAS; fuel 1 is enough.
--  * Tlsf: xtratum/kernel/tlsf.c, the allocator: table, ms_bit, MAPPING_SEARCH, MAPPING_INSERT,
--    with the values that the macros assign as a record. Tlsf/Blocks has the lists of free blocks by class with
--    their bitmaps, FIND_SUITABLE_BLOCK, the macros that link and unlink a block, malloc_ex and
--    free_ex; Tlsf/Start has init_memory_pool. A pointer is an address and 0 a null pointer; a
--    field of the headers is a function of the address, so that headers do not overlap; a list
--    that free_ptr links is a list of addresses. Tlsf/Resize has realloc_ex, calloc_ex and the
--    calls that pass on to these; memcpy and memset are parameters on a memory of any type. The
--    proofs follow what is done to the blocks: Find, Cut and Use for malloc_ex, Merge and Join
--    for free_ex, Trim, Sized and Inplace for realloc_ex; Client, Served and Runs are about runs
--    of all three, by a client that frees what it holds.
--  * Shm: xtratum/devs/shm/shm.c: the table of segments by name: create, open, unlink, release,
--    resize. The allocator's malloc_ex and free_ex are parameters on a pool of any type.
--  * Xmtrace: rtl_do_trace and rtl_trace_finalize of xtratum/kernel/xmtrace_core.c. The pointers
--    into the buffers are indices; the clock, the classes and the flag of the tracer are
--    arguments.
--  * Pthread: partikle/core/include/sched_struct.h and partikle/core/kernel/port/sched.c: the
--    lists of ready threads by priority under two levels of bitmaps. A list that next_matrix and
--    prev_matrix link is a list of numbers; the clock of a schedule is an argument. A new thread
--    starts where it was created; its starting time is set as if it had been switched to before.
--  * Heap: partikle/core/kernel/port/heap.c: the heap of the timers by their expiry. Each loop has
--    as much fuel as there are places, and each of its rounds goes on to a lower or a higher one.
--  * Fs: partikle/core/kernel/port/fs.c, dev.c, devroot.c and devcons.c: the table of open files
--    and two devices. A device is a record of its operations on the table.
--  * Libc: partikle/core/libc/string.c, stdlib.c and time.c. The strings stand in one memory of
--    bytes; a loop up to a terminator has fuel, and more than the length of the string is
--    enough. The numbers are parsed from the list of the bytes before the terminator.
--  * Tests: runs at concrete inputs.
--
-- Names of C in capitals are written in small letters. `unsigned long` has 32 bits. `~x` is 2 ^
-- 32 - 1 - x. Enabling and disabling interrupts, and the output of messages, are left out.
--
-- Not modelled: assembly, page tables and the start of the system; the Linux glue of the
-- devices; the libraries and tools under xtratum/user_tools and partikle/user; the semaphores,
-- signals, timers and conditions of PaRTiKle, and its formatted output.
pub mod Base
pub mod Bitmap
pub mod Domain
pub mod Fs
pub mod Heap
pub mod Libc
pub mod Pthread
pub mod Rtfifo
pub mod Sched
pub mod Shm
pub mod Tests
pub mod Tlsf
pub mod Xmdev
pub mod Xmtrace
