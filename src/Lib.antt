-- ===== src/Lib.antt =====
-- A verification library for the Yalnix kernel of ksrc/, a teaching operating system in C.
--
-- The kernel keeps its state in C globals and structures linked by pointers: queues of processes
-- are doubly-linked lists (ksrc/linked_list.c), pipes and terminals store bytes in circular buffers
-- (ksrc/pilocvario.c), and physical frames are handed out from a bit vector (ksrc/memory.c).
--
-- - Common: the names the modules share; Booleans on native numbers, lists, signed integers.
-- - Heap: the C heap of nodes and list headers, and commands over it. A command without a result
--   has followed a NULL or dangling pointer, or its loop ran out of fuel.
-- - LinkedList: new_ll, new_node, destroy_node, get_size, is_empty, enqueue, push, pop, dequeue,
--   remove, has_member and find of ksrc/linked_list.c. LinkedList/Shape says when the nodes
--   between head and tail are the list of given nodes, LinkedList/Keeps what is left alone, and
--   Create, Insert, Ends, Remove and Search prove the operations. The walks take fuel; more than
--   the number of nodes is enough. malloc returns a given address and does not fail.
-- - Buffer: buffer_t of ksrc/pilocvario.c with new_buffer, write_buffer, read_buffer,
--   reset_buffer and destroy_buffer, for lengths that are not negative. A char pointer is the memory behind it.
-- - Frames: free_frame_t, get_bit, set_bit, get_frame, vacate_frame and frames_left of
--   ksrc/memory.c, with the initial values of ksrc/kernel.c. The number of the first frame,
--   BASE_FRAME, comes from a header that is not in the repository: it is an argument. The search
--   for the next free frame has fuel for every frame.
-- - Memory: page tables, with the user part of ksrc/memory.c (set_pte, destroy_usermem, the
--   check functions, no_kernel_memory) and KernelUserBrk of ksrc/syscalls.c. Memory/Owns is the
--   invariant that valid pages hold different taken frames; Brk, Destroy, Checks and Strings
--   prove the operations. The machine's constants and its rounding to pages, from headers that are
--   not in the repository, are the record Machine; flushes of the TLB are a list of addresses, and
--   the bytes of a process's memory are a function.
--   Memory/Tables has the rest of ksrc/memory.c (SetKernelBrk, new_user_pt, copy_user_mem,
--   destroy_kstack), the page tables of KCSwitch and KCCopy of ksrc/cswitch.c, and the stack that
--   TrapMemory of ksrc/traps.c grows; Memory/Tables/Stack proves the growth. Memory/Tables/Fresh is
--   about tables that get frames which were free before, which nobody else then has; Copy,
--   KernelStack and Load/Region use it for what a fork and a new program get, and Memory/Isolation
--   says what becomes of the others where one is destroyed. Memory/Tables/Context is KCSwitch and
--   KCCopy with the kernel contexts, which are of any type, and sequences of switches.
-- - Kernel: the globals, the process control blocks, the structures of ksrc/pilocvario.h, and
--   commands over them; data Wait says where a blocked process goes on. Kernel/Runs takes runs apart.
-- - Sched: the functions of ksrc/scheduling.c but reap_orphans, with get_parent
--   of ksrc/process.c. Sched/Queues is the invariant that the ready queue and a list of blocked
--   processes are well formed and share no node; Block, Unblock, Preempt and Delay prove the
--   operations, Waiting and Graveyard the end of a process, and Turns follows clock ticks in a row.
--   switch_proc is the change of procs->running and an entry in a list of switches; it and the trace
--   read the control blocks of both processes, which is left out.
--   The loops take fuel; more than the number of blocked processes is enough for unblock_all, and
--   more than the number of waiting ones for check_wait.
-- - Locks, Pipes, Ttys: the rest of ksrc/pilocvario.c. A function that blocks in a loop is cut at its
--   block: one definition runs the loop until it returns or blocks, another what follows the wakeup.
--   Locks/Effect and Pipes/Effect say what such a run does to the object whatever the queues hold;
--   Locks/Steps, Pipes/Stream and Ttys/Overlap are step relations over the runs of all processes, in
--   any order, with invariants, the first's in Locks/Exclusion.
--   Locks/Destroy and Locks/Leak are about destroy_lock and destroy_cvar. The word behind a condition variable,
--   which destroy_cvar takes for its list, is a field of it and an argument of new_cvar.
-- - Process: ksrc/process.c, with reap_orphans. Freed nodes and blocks hold
--   nothing. Process/Ended says what processes that have ended look like, and Destroy and Orphans
--   prove process_destroy and reap_orphans, for which more fuel than orphans is enough; Process/Walk
--   and Process/Reap are about the walks over a process's children.
-- - Load: LoadProgram of ksrc/load.c. What the file, its header and malloc give is the record
--   Program, the names of the headers the record Constants. Load/Layout is about the new stack,
--   Load/Maps and Load/Region about the pages, Load/Steps and Load/Whole about a whole call.
-- - Syscalls, Traps: the calls of ksrc/syscalls.c and the handlers of ksrc/traps.c, composed of the
--   parts above. What the machine, malloc and the helper library give is the record Supply.
--   Syscalls/Unknown is about ids that no object has, Traps/Answer about the way of a result back.
--   Syscalls/Reaping and Syscalls/Wait are about KernelWait.
-- - Boot: KernelStart of ksrc/kernel.c and what it calls. Boot/Identity is about the page table of
--   region 0 that VM_setup makes.
--
-- Not modelled: the programs of test/, and DoIdle, which only pauses the machine. Lengths and terminal numbers that are negative are outside the model. Trace output and
-- the hardware registers other than the TLB flush are left out.
pub mod Common
pub mod Buffer
pub mod Heap
pub mod LinkedList
pub mod Frames
pub mod Memory
pub mod Kernel
pub mod Sched
pub mod Process
pub mod Syscalls
pub mod Traps
pub mod Boot
pub mod Load
pub mod Locks
pub mod Ttys
pub mod Pipes
