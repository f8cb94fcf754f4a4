-- ===== src/Lib.antt =====
-- Miyabi, a kernel for x86_64: a model of its parts in C, and theorems about them.
--
-- The program. `src/main.c` starts the parts in this order: the segment and interrupt tables, the
-- physical page allocator, the page tables, the heap, the block devices with their partitions, the
-- file systems, the scheduler and the modules. The heap takes pages from the page allocator and maps
-- them; threads, nodes and modules are allocated on the heap; the timer interrupt calls the
-- scheduler; the file systems look up devices in the table of block devices, and open files refer to
-- nodes of the virtual file system.
--
-- The files, and the code that each is about:
--   Base            shared helpers: tests on numbers, lists, machine words, signed results, the
--                   search of a table, bits of words, and `Run`, the outcome of code that may halt the
--                   machine or whose loops take fuel
--   Mm/Pmm          src/mm/pmm.c: the bitmap of pages, `pmm_alloc`, `init_pmm`. Child modules: Bitmap
--                   (bits of bytes), Alloc (any number of allocations), Offered (the pages that the memory
--                   map lets be used) and Init (the state after start)
--   Mm/Heap         src/mm/heap.c and include/mm/heap.h: the chain of block headers, `kmalloc`,
--                   `kfree`, `heap_expand`, `init_heap`. Child modules: Blocks and Layout (the blocks
--                   as a list, and the invariant that they tile the heap), Search, Extend, Malloc,
--                   Free, RoundTrip, Safety
--   Mm/Vmm          src/mm/vmm.c and include/mm/vmm.h, the page tables, over an interface for the page
--                   allocator. Child modules: Walk (what the processor finds, the specification), Tree
--                   (the invariant, and what the allocator promises), Ensure, Map, Range, Unmap, Copied
--                   and User (the operations), Frames (the page allocator of Mm/Pmm keeps the promises)
--   Arch/Thread     src/arch/x86_64/thread.c: the scheduler. Child modules: Queue, Schedule, Fair,
--                   Create
--   Arch/Gdt        src/arch/x86_64/gdt.c, the segment table
--   Arch/Idt        src/arch/x86_64/idt.c, the interrupt table
--   Cstring         src/lib/string.c: Copy (memory), Text (texts)
--   Drivers/Block   src/drivers/storage/block.c, the table of block devices
--   Fs/Fd           src/fs/fd.c, the open files
--   Fs/Vfs          src/fs/vfs.c: Components (paths), Descent (the specification of the look-up) and
--                   Lookup, Types (file system types)
--   Fs/Initramfs    src/fs/initramfs.c: Octal, Match, Finddir, Read, and Build (the table of nodes)
--   Fs/Devfs        src/fs/devfs/devfs.c, the table of devices
--   Fs/Mbr, Fs/Gpt  src/fs/part/mbr.c and gpt.c, the partitions of a disk. Child modules of Gpt:
--                   Sectors (what the walk over a table may come to) and Walk
--   Modules/Ksym    src/modules/ksym.c, the kernel's symbols
--   Elf/Loader      src/elf/loader.c, the loader of programs. Child module: Page (what a page holds)
--   Modules/Elf     include/elf/elf.h, the fields of ELF files in memory
--   Modules/Loader  src/modules/loader.c. Child modules: Sections (their layout and their copies),
--                   Relocate (the symbols and the relocations), Load (the whole of the loader)
--   Cmdline         src/cmdline.c: Flag, Collect
-- The modules named Tests run the definitions at concrete inputs.
--
-- How the code is translated. The static variables of a file are a record, and a function is a
-- function on it that also returns the result. Objects behind pointers are stores, functions from
-- addresses, and 0 is NULL; a text is the list of its characters where the code only reads it.
-- Numbers are natural numbers, with `% 2 ^ w` where the code computes in w bits. Code that is not C
-- (assembly, the boot loader's answers, the linker's addresses) and functions behind pointers are
-- arguments. Of what `printf` shows nothing is modelled.
--
-- Fuel. A `while` loop takes a number of rounds and is `stuck` when they run out; its theorem says
-- how many are enough: the number of blocks of the heap and a few more, of threads in the queue, of
-- characters of a path, a text or a command line, of registered file system types, of headers of an
-- archive, of sections of a module; and for a partition table one more than a quarter of the largest
-- number that stands in a sector where a header has its number of entries. `halted` is a machine that halts, and in
-- Fs/Vfs a write and in Fs/Gpt a read past the end of an array.
--
-- What is not modelled. The file system ext2, the ATA and PCI drivers, the screen, the interrupt
-- handlers and system calls: they are parts for which no model has been written. The heap takes the
-- page tables as the interface `Frames`, and the loader of programs as `Pager`, not from Mm/Vmm,
-- whose memory is words and not bytes. Of the processor's caches of translations nothing is modelled.
-- Concurrency: the code of a part runs without an interrupt in between.
pub mod Base
pub mod Mm
pub mod Arch
pub mod Cstring
pub mod Fs
pub mod Drivers
pub mod Modules
pub mod Elf
pub mod Cmdline
