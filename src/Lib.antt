-- ===== src/Lib.antt =====
-- Verification library for NoviumOS, a 32-bit x86 kernel in C.
--
-- The parts of the kernel that this library models, and where:
--   Pages      mm/page_alloc.c: the bitmap of physical pages, its counter, and every function of the
--              file (`page_set` is PageSet, `page_alloc_pages` PageAllocPages, and so on), with the
--              multiboot memory map of include/novium/boot_info.h. Pages.Update relates the bitmap to
--              the set of free pages, Pages.Alloc, Pages.Free and Pages.Boot state what the operations
--              do to that set.
--   Task       the descriptors of include/novium/sched.h and the linked queues of kernel/sched.c
--              (SchedQueueAdd is `queue_add`, SchedQueueRemove `queue_remove`). Task.Chain reads a
--              queue as a list; Task.Linked has the three queues in one descriptor array.
--   Sched      kernel/sched.c: its static variables are the record `Scheduler`, each function is the
--              definition with its name in small letters. Sched.Select picks the next task, Sched.Switch
--              has SchedYield, SchedTick and SchedPreempt, Sched.Wait blocking and waking, Sched.Life
--              creation, exit and kill. The other modules below Sched prove what these do to
--              the queues; `Sched.Invariant.IsValid` is what holds between two operations.
--   Ipc        ipc/ipc.c, ipc/sync.c and ipc/message.c: wait queues and IpcPark, semaphores and mutexes,
--              message ports. `IpcWait` is a record, each function is the definition with its name in
--              small letters. Ipc.Fifo reads a port as the list of its messages.
--   Heap       mm/heap.c: `Heap` is the static variables with a header at every address, each function is
--              the definition with its name in small letters (HeapListInsert is `heap_list_insert`).
--              Heap.FreeList and Heap.Walking read the free list as a list, Heap.Fitting has the search,
--              Heap.Sound the invariant, Heap.Carving, Heap.Claiming, Heap.Growing and Heap.Allocating
--              the steps of kmalloc and kmalloc itself.
--   Paging     mm/paging.c. Paging.Translation walks the tables the way the processor does; Paging.Mapping
--              and Paging.Identity are about PagingMap, PagingUnmap and PagingInit.
--   Library    lib/string.c and the number printing of lib/stdio.c on a memory of bytes.
--   Console    drivers/video/vga_console.c, with the cursor that the hardware shows, and kprintf of
--              lib/stdio.c in Console.Printing.
--   Keyboard   drivers/input/keyboard.c. Keyboard.Queue reads the ring as the list of waiting scancodes.
--   Interrupts arch/x86_32/kernel/irq.c: the gates, the handler table, and a log of what goes to the ports.
--   Timer      arch/x86_32/kernel/pit.c, on Sched and Interrupts.
--   Startup    arch/x86_32/boot/hw_init.c and, of init/main.c, the first steps of kernel_main and the loop
--              of shell_task: the parts put together. Startup.Shell has the states that the shell and
--              the keyboard's interrupts reach.
--   Prelude    what the others share.
--
-- How they interact: the IPC functions find and wake tasks by `sched_find` and `sched_wake_task`, park
-- them by `sched_block`, and save and restore the interrupt flag of the record `Scheduler`. The heap takes
-- its pages from `page_alloc_pages_at` of the allocator in its state. The timer's interrupt runs
-- `sched_tick` and `sched_wake_expired`, timer_init calls `irq_register`, and the console scrolls by
-- `memmove`; kprintf writes by `console_putchar`.
--
-- State is passed explicitly. A pointer to a task is an index, a null pointer is `none`. 32-bit words are
-- natural numbers, with the wrap-around written out where the code can wrap. SchedSwitch (assembly) leaves
-- the caller until it is resumed: what runs in between is the argument `resume`, for an object that a
-- task parks on `meanwhile`, and for the clock `away`; they are arbitrary functions.
--
-- Fuel: a walk along a queue takes `max_tasks`, which is enough since no task is on a queue twice. The
-- loop of PageAllocPages takes one round per page, that of the memory map one per 24 bytes, as it has
-- entries of at least that size. The second loop of IpcWaitTakeLive takes a round per entry. The loops
-- of IpcPark, SemWait, MutexLock, IpcSend and IpcReceive have no bound in the code, since other tasks
-- decide when they end: they take fuel as an argument and return `none` when it is used up.
--
-- A walk along the heap's free list takes 2^32 rounds, which is enough since its addresses ascend. The
-- characters of console_putchar nest three deep at most, a tab that ends a line whose new row is marked.
-- 32 rounds print any number of 32 bits. keyboard_getchar and timer_sleep_ms wait for interrupts and take
-- fuel; how much is enough is in their theorems.
--
-- Not modelled: the self tests of init/main.c, port reads, debug output, and
-- assembly and hardware access in general. What a port read returns and what a handler does are arguments.
pub mod Prelude
pub mod Pages
pub mod Task
pub mod Sched
pub mod Ipc
pub mod Heap
pub mod Paging
pub mod Library
pub mod Console
pub mod Keyboard
pub mod Interrupts
pub mod Timer
pub mod Startup
