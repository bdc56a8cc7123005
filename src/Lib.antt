-- ===== src/Lib.antt =====
-- slobOS: a model of the kernel's core, with its theorems.
--
-- slobOS is a 32-bit protected-mode kernel for a single processor. The kernel keeps one heap of
-- 4096-byte blocks; gives each process a page directory that it fills with paging_map_to; reads
-- FAT16 files through a byte stream over an ATA disk, by way of a table of file descriptors; loads
-- ELF programs; and passes keys from the PS/2 keyboard to the ring buffer of the current process.
--
-- Files, and the sources they model:
--   Heap          src/memory/heap/heap.c    Heap.heap_malloc is heap_malloc, and so on
--   Kheap         src/memory/heap/kheap.c
--   Paging        src/memory/paging/paging.c; Paging.Chunk has paging_new_4gb and paging_free_4gb
--   Text          src/string/string.c and src/memory/memory.c
--   Disk          src/disk/disk.c and src/disk/streamer.c
--   PathParser    src/fs/pparser.c
--   Vfs           src/fs/file.c
--   Fat16         src/fs/fat/fat16.c: names of items, stat and seek; Fat16.Volume has the clusters and
--                 the reads, Fat16.Directory the directories, the search for paths, open and read
--   Process       src/task/process.c: the process table and the allocations of a process
--   Task          src/task/task.c: the list of tasks; Task.Switch has the switch to a task, with
--                 src/task/task.asm, and Task.Copy the reads of a task's memory
--   Idt           src/idt/idt.c: the tables of interrupts and commands, and the handlers
--   Isr80h        src/isr80h: the system calls
--   Terminal      src/kernel.c: the text screen
--   Keyboard      src/keyboard/keyboard.c and src/keyboard/ps2.c: the ring, the scan codes and the
--                 drivers
--   Elf           src/loader/formats/elfloader.c, behind the reading of the file
--   Gdt           src/gdt/gdt.c
--   Status        src/status.h
--   Prelude       shared types, tests, lists, bits, integers, memory and stores
-- Each definition has the name of its function. A helper by clauses or a `_loop` is the loop or the
-- rest of the function it stands before. The children of a module prove its theorems; its Examples
-- apply them at concrete inputs.
--
-- State. Memory is a function from addresses to bytes; page directories are 32-bit words by address.
-- The heap is a record with the memory, the address of the block table, its length and the pool's
-- start. A function that changes state returns the new state beside its result; a negated status
-- code is a Result, a pointer that may be 0 an Option or an address. Native numbers stand for
-- unsigned integers, with the wrap-around written out where the source can reach it, and ℤ for `int`
-- values that may be negative.
--
-- How the parts interact. The process model takes kzalloc, kfree and paging_map_to as an interface,
-- a record over a machine state. The file system drivers that file.c calls are a record as well,
-- with the functions of struct filesystem. The FAT16 driver reads the disk through the stream of
-- Disk. Tasks take the heap and the page directories as an interface; a system call finds the
-- current task of the Task model, and takes the parts that it calls as an interface. The disk takes the controller as a function from the
-- commands it was sent to the bytes it delivers, and the copy from a task the processor's translation
-- of addresses. A function that does not return, because it enters a task or panics, has an outcome
-- that says so.
--
-- Bounds and fuel. Loops with a bound recur on it. strlen, strcpy, the path parser, the recursive
-- diskstreamer_read, the loops over the disk and the mutual calls of terminal_backspace take fuel;
-- their theorems give the fuel that is enough.
--
-- Not modelled: boot code and the assembly stubs of interrupts, ports and the VBE screen, which are
-- hardware; kernel_main, the order of the start-up calls; the loading of processes, which is C code
-- of its own; strtok, which keeps a static pointer; user programs.
pub mod Disk
pub mod Elf
pub mod Fat16
pub mod Gdt
pub mod Heap
pub mod Idt
pub mod Isr80h
pub mod Keyboard
pub mod Kheap
pub mod Paging
pub mod PathParser
pub mod Prelude
pub mod Process
pub mod Status
pub mod Task
pub mod Terminal
pub mod Text
pub mod Vfs
