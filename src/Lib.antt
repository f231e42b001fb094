-- ===== src/Lib.antt =====
-- A model of the kernel of VSnx OS, from the sources below os/kernel, and of its keyboard driver.
--
-- Parts, and how they interact:
--   Mmap      the memory map that the boot loader's information is read into
--             (os/kernel/hal/multiboot2/multiboot2.h), which the page allocator consults
--   Pmm       the physical page allocator (os/kernel/hal/mem/k_mem/pmm.c): a bitmap of pages, a
--             counter and a search hint; every function takes the state `pmm_info` and returns it
--   Kmalloc   the kernel allocator over it (os/kernel/hal/mem/k_mem/pmm_api.c)
--   Paging    four levels of page tables (os/kernel/hal/mem/k_mem/paging.c), which take their tables
--             from the page allocator
--   Umalloc   the user heap (os/kernel/hal/mem/u_mem/vmm_api.c): a list of blocks, whose pages are
--             taken from the page allocator and mapped by the page tables
--   Memory    the byte functions of os/kernel/hal/mem/k_mem/pmm_api.c (kmemcpy to kmemchr),
--             os/kernel/hal/mem/u_mem/vmm_api.c (umemcpy to umemchr) and
--             os/kernel/utilities/strings/strings.c (memcpy to memchr)
--   Queue     the scheduler's ready queue (os/kernel/threading/schedular.c): threads linked by their
--             `next` fields, against a list
--   Scheduler scheduler_tick of os/kernel/threading/schedular.c over that queue: strides, cooldowns
--             and the frame that is restored; the threads' records are a function of their addresses
--   Threads   creating, ending, blocking and finding threads (os/kernel/threading/threading.c) over the
--             scheduler's state; what the allocators return and the state after the interrupt that
--             calls the scheduler are arguments. Where a function that is declared not to return
--             does, it has no result
--   Startup   the list of processes to start (os/kernel/startup/slistcfg.c), read buffer by buffer;
--             what spawn_process returns is an argument
--   Registry  the tables of named functions (os/kernel/driver/hook.c, os/kernel/ipc/pipe/pipecall.c)
--             over strcmp of os/kernel/utilities/strings/strings.c
--   HookCalls the handlers and the dispatch of hook calls (os/kernel/driver/hookcall) over the table of
--             hooks and the page tables
--   Strings   the functions on strings of os/kernel/utilities/strings/strings.c: a string is the list
--             of its bytes, a pointer into it an offset
--   Printf    os/kernel/utilities/printf.c: what is printed is a list of bytes
--   Hookorder the table of drivers that may claim a device class
--             (os/kernel/driver/hookorder/hookorder.c): the parser of its configuration, the load
--             over a file system given by its answers, lookups and claims
--   Disk      the disk layer (os/kernel/hal/io/disk/disk.c) over the ATA driver
--             (os/kernel/hal/io/disk/ideata.c): detection, the table of disks, block addresses,
--             and the chunks of reads and writes. The drives are given by their answers to the
--             registers written so far, and the AHCI driver by what it returns
--   Console   the text screen (os/kernel/hal/vga/vga_text/vga_text.c): its entries are a function of
--             their index, and what is written to the ports is listed
--   Keyboard  the driver drivers/hid/pstwo/keybrd/keypstwo.c: the buffer, the keys, the interrupt and
--             the port accesses, where a port is given by its answers to the accesses so far
--   Ps2       the kernel's search for PS/2 devices (os/kernel/hal/io/ps2/ps2dect.c) by the same ports
--   Elf       the loader of programs (os/kernel/elf/elf.c) over the user heap; the file system is given
--             by its answers to the calls so far
--   Process   processes (os/kernel/elf/process.c) over the loader, the threads and the user heap, from
--             which the stacks of ring 3 come
--   Syscalls  the handlers and the dispatch of system calls (os/kernel/syscalls) over the parts above
--   Clock     the system clock (os/kernel/systemclock/clock.c), which the timer interrupt advances
-- Base holds what these share: C's fixed-width arithmetic with its wrap-around, bit operations, and
-- lists and tests over native numbers.
--
-- Each operation of the source is a function of the same name. State that the source keeps in globals
-- is passed in and returned. Memory is a function from address to byte, or to word for page tables.
-- Below each part, Valid, Tree or IsValid say when its state is well-formed, and the other modules
-- are named for what they show.
--
-- Loops run by structural recursion on the rounds that the source's bounds give. The search of
-- `kmalloc` can run for ever: its result `none` stands for that, and is given exactly where the
-- source's bound lets every `uint64_t` through. `time_now_ms` repeats its reads until two agree: it
-- takes a number of rounds, and the reads are a sequence that is given, since an interrupt may come
-- between any two; one round more than it takes for two reads to agree is enough.
-- The loops over the ready queue follow pointers, on fuel: as much as the queue has threads, and one
-- more to add a thread, is enough. The jumps of `scheduler_tick` back to its choice are rounds: more
-- than the cooldowns of the queue add up to are enough for threads that can run. The loops of the
-- disk layer take one round for a chunk of at least one sector, so that more fuel than sectors is
-- enough; those of the configuration take a byte or more a round, so that more fuel than the 65536
-- bytes of the cache is enough.
--
-- Not modelled: control registers and cache flushes, the output devices, the FAT32 library, the boot
-- loader, applications and the other loadable drivers; of devices, the ports themselves;
-- and so far the AHCI driver.
pub mod Base
pub mod Clock
pub mod Mmap
pub mod Pmm
pub mod Kmalloc
pub mod Paging
pub mod Memory
pub mod Queue
pub mod Strings
pub mod Registry
pub mod HookCalls
pub mod Hookorder
pub mod Keyboard
pub mod Ps2
pub mod Console
pub mod Elf
pub mod Disk
pub mod Scheduler
pub mod Threads
pub mod Process
pub mod Syscalls
pub mod Startup
pub mod Umalloc
pub mod Printf
