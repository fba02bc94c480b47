-- ===== src/Lib.antt =====
-- The kernel of the operating systems course (Homework/Kernel): its address spaces, its page
-- frames and memory objects, its scheduler, its mutexes, its descriptor tables and its process
-- table; and the two programs that come before it, the sorting of transactions (Homework/Warmup1)
-- and the token bucket (Homework/Warmup2), with the linked list of both.
--
-- Parts and files. Paths are from the root of the repository.
-- * Vmmap and its children model Homework/Kernel/vm/vmmap.c. A vmmap is the list of its areas in
--   list order, a Vmarea has the fields of struct vmarea, and each function has its name from the
--   code. Vmmap has the functions that only read or insert, Vmmap/Effects those that allocate,
--   count references or call the MMU. Vmmap/Sorted has the order of the areas, Vmmap/Translate the
--   pages that an address space maps, Vmmap/Gaps, Vmmap/FindRange, Vmmap/Insert, Vmmap/Unmap,
--   Vmmap/Counts and Vmmap/Clone the proofs on the operations.
-- * Brk models do_brk of Homework/Kernel/vm/brk.c, on the fields of the current process that it
--   uses; its proof is in Brk/Break. It calls vmmap_lookup, vmmap_is_range_empty and vmmap_remove.
-- * Paging has the page macros, as a parameter, and the results of system calls.
-- * Access models addr_perm and range_perm of Homework/Kernel/api/access.c, Mmap models do_munmap
--   of Homework/Kernel/vm/mmap.c, and Pagefault models Homework/Kernel/vm/pagefault.c; their proofs
--   are in Access/Range, Mmap/Munmap and Pagefault/Served. All three read the address space through
--   Vmmap.
-- * Sched models Homework/Kernel/proc/sched.c and Homework/Kernel/proc/sched_helper.c. Threads and
--   queues are numbers, queue 0 is kt_runq, and Sched holds what the globals, the threads and the
--   queues hold. The children are the invariant of the queues (Sched/Queues) and the proofs on the
--   operations (Sched/Wakeup, Sched/Broadcast, Sched/Cancel, Sched/Switch, Sched/Waiting).
-- * Files models the descriptor table: get_empty_fd of Homework/Kernel/fs/open.c, and do_close,
--   do_dup and do_dup2 of Homework/Kernel/fs/vfs_syscall.c. Files/Counted and Files/Moved have the
--   references of a file against the descriptors that have it.
-- * Position models do_read and do_lseek of Homework/Kernel/fs/vfs_syscall.c on the positions of
--   open files, over the descriptor table of Files; its proofs are in Position/Seek. Position/Write
--   models do_write, with its proofs in Position/Write/Appends.
-- * Pframe models pframe_pin and pframe_unpin of Homework/Kernel/mm/pframe.c; its proofs are in
--   Pframe/Pinned.
-- * Kmutex models Homework/Kernel/proc/kmutex.c over Sched; its proofs are in Kmutex/Lock and
--   Kmutex/Handover.
-- * Bucket models the threads of Homework/Warmup2/warmup2.c: packetFunc, tokenFunc, serverFunc and
--   signalFunc. A function of Bucket is a critical section, from the lock to the unlock, on the
--   globals that the threads share. Bucket/Run has the steps of all threads in any order, with the
--   packets that are in service and the clock, and the states that they reach; Bucket/Tokens,
--   Bucket/Fifo, Bucket/Places and Bucket/Times have invariants of these states, Bucket/Progress
--   what the token and the signal thread bring about.
-- * Config models the command line and the trace file of the same program: isValidOption,
--   isInteger, isNumber, checkFileLine, checkField, checkInput, readTsFileConfig, readTsFileData
--   and the whole numbers of readInput. Its proofs are in Config/Bounds.
-- * Ledger models Homework/Warmup1/warmup1.c: the checks of a line of the transaction file, the
--   record that main makes of it, and BubbleSortForwardList over the list of transactions. Its
--   proofs are in Ledger/Amount and Ledger/Sort. Ledger/Format models transferFormat and the lines
--   of printTable, a line being an array of characters; its proofs are in Ledger/Format/Reads and
--   Ledger/Format/Columns.
-- * Procs models the process table of Homework/Kernel/proc/proc.c: proc_lookup, _proc_getid,
--   proc_create and do_waitpid, the last on the tables that it finds at the call and at each
--   wake-up; its proofs are in Procs/Pids, Procs/Create and Procs/Waitpid.
-- * Objects models the lookups of pages in Homework/Kernel/vm/anon.c and
--   Homework/Kernel/vm/shadow.c, with pframe_get and what it calls of Homework/Kernel/mm/pframe.c;
--   Memory has the frames and the fields of the objects. Objects/Views has the contents of pages
--   and what a chain of shadow objects shows, Objects/Search the loops along a chain,
--   Objects/Filled, Objects/Contents, Objects/Below and Objects/Copied what the allocation of a
--   page and the copy into it do, Objects/Looked and Objects/Written the lookup for reading and for
--   writing.
-- * MyList models Homework/Warmup1/my402list.c, of which Homework/Warmup2 has a copy: elements by
--   address, with a test that an address is allocated. MyList/Ring and MyList/Rep have the ring of
--   a list of addresses, MyList/Insert, MyList/Unlink and MyList/Walk the proofs on the operations,
--   MyList/Refines the operations on lists that they stand for.
-- * Prelude has what they share: lists, Boolean tests, 32-bit words, and the results of code that
--   may stop (Outcome: a return, a failed KASSERT, an access through a wild or NULL pointer, no
--   fuel left).
-- * Tests has runs at small inputs.
--
-- Words and fuel. Page numbers and addresses are natural numbers; sums and differences that the
-- code computes in uint32_t are reduced modulo 2 ^ 32. A sum of ints that does not fit an int is an
-- overflow, which Outcome has as `wild`. The loop of vmmap_remove has as fuel twice the number of
-- areas and one, since a split adds at most one area per area visited; the loop of
-- sched_broadcast_on has the length of the queue and one, the loop of range_perm the number of
-- pages and two, the loop of _proc_getid PROC_MAX_COUNT, since it is back at next_pid by then. The
-- wait of sched_switch runs over a list of interrupts, that of pframe_get over a list of the
-- memories that it finds. The loops of My402ListUnlinkAll and My402ListFind have the number of
-- members and one, the loops along a chain of shadow objects more than the objects of the chain.
--
-- Parameters. The headers of the kernel, its lists, the slab allocator, the objects behind an area,
-- the page table and the TLB are not in the repository. They are the fields of World, Paging,
-- Frames, Refs and VnodeOps; theorems name what they assume of them. Of the C library, atoll,
-- fopen, sscanf, strftime and time are parameters (Libc in Config, arguments in Ledger); what
-- malloc gives is an argument in MyList, and what slab_obj_alloc and page_alloc give for a page is
-- one in Objects, as is the lookup of an object of a vnode. The clock of Bucket is a number of
-- microseconds that a step may advance; that it does not go back is an assumption of the model.
--
-- Not modelled. do_mmap, the copies from and to user space, the other operations on memory objects
-- and page frames, the exit of processes, threads and fork, the other calls on files and
-- directories, the dispatch of system calls and the start-up of the kernel; in vmmap.c vmmap_map,
-- vmmap_read, vmmap_write and the printing of vmmap_mapping_info. In the warm-ups printed texts,
-- and the floating point numbers: the intervals of the packets and tokens and the statistics.
pub mod Prelude
pub mod Vmmap
pub mod Pagefault
pub mod Paging
pub mod Position
pub mod Objects
pub mod Pframe
pub mod Procs
pub mod Access
pub mod Brk
pub mod Bucket
pub mod Config
pub mod Sched
pub mod Files
pub mod Kmutex
pub mod Ledger
pub mod Mmap
pub mod MyList
mod Tests
