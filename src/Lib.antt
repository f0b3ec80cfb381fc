-- ===== src/Lib.antt =====
-- MiniOrangeOS: a verification library for the kernel of a 32-bit x86 teaching system.
--
-- The kernel boots from a BIOS, manages physical pages, address spaces and a heap, runs up to 16
-- processes under a preemptive scheduler, serves system calls through `int 0x80`, and keeps its files
-- in MiniFS on an ATA disk. The parts modelled here, and the code they stand for:
--
--   Errno               include/minios/abi/errno.h
--   Block               kernel/block/block.c: 4 KiB blocks over the sectors of the ATA driver; a disk in
--                       memory to run it on
--   Drivers/Keyboard    kernel/drivers/keyboard.c: scancodes to characters, and their ring
--   Fs/Interface        kernel/include/minios/fs/minifs.h: what the VFS calls of MiniFS
--   Fs/Vfs              kernel/fs/vfs.c: open files, handles and the operations on them
--   Fs/MiniFs           kernel/fs/minifs.c: the file system on the disk. Bytes, Inodes, Mount and
--                       Directory are its encodings; Volume the buffers and bitmaps over Block; InodeTable
--                       and DataBlocks what is allocated from them; Paths the walk along a path; Mounting,
--                       Files, Writing, Names, Truncation and Listing the operations
--   Fs/Composed         kernel/fs/vfs.c above kernel/fs/minifs.c: a read through both
--   Mm/Bitmap, Mm/Pmm   kernel/mm/pmm.c: the physical page allocator and its two bitmaps
--   Mm/Usercopy         kernel/mm/usercopy.c: checked copies between user and kernel memory
--   Proc/Process        kernel/proc/scheduler.c: the process structure
--   Proc/Elf            kernel/proc/elf.c: which images the loader accepts
--   Proc/Scheduler      kernel/proc/scheduler.c: the process table, yield, sleep, exit, wait, tick
--   User/Io             user/libc/io.c: writing all of a buffer, and numbers in decimal
--
-- State and operations. The static variables of a file are a record (`Pmm`, `Scheduler`, `Vfs`,
-- `Keyboard`); a function that changes them takes the record and returns the new one beside its
-- result. A pointer into a table is its index, an error code is a negative integer, a panic is `none`.
-- 32-bit sums are written with their wrap-around (`add32`, `sub32`, `mul32`). The kernel disables
-- interrupts around each of these functions, so each is one step. What a component calls of another
-- one that is not modelled is a record of operations on an abstract state: `Ata` for the disk driver,
-- `MiniFs` for what the VFS calls of the file system, `Kernel` for the heap, the address spaces and the
-- GDT; the page tables are functions that give the flags and the frame of a page.
--
-- How the parts meet. The VFS installs the address of a slot of its file table in the descriptor table
-- of the current process, which is part of the scheduler's state, so Fs/Vfs works on both. The
-- scheduler closes the files of a process that exits through the record `Kernel`. MiniFS transfers its
-- blocks by the functions of Block; its operations make up the record `MiniFs` (minifs_operations in
-- Fs/MiniFs/Listing). A function of minifs.c that may fail is a command of Fs/MiniFs/Command, which
-- returns a value or an error and the changed buffers and disk. Where the volume lies comes from a
-- header that the build writes, and is the record `Layout`; a disk that keeps what is written is the
-- record `Disk`, which the memory disk of Block/Memory fills.
--
-- A context switch is a step that ends with the next process current; what the code does after the
-- switch belongs to the step in which the process runs again. A wait that blocks ends its round with
-- `switched_away`, and its next round is a new call.
--
-- Bounds. The searches are structural recursion on the number of rounds of the loop in the code: 16
-- slots of the process table, 32 of the file table, 2^20 pages, 2^31 - 1 process identifiers. The page
-- loop of validate_user_range has 0xC0000 rounds, the pages below the kernel, and copy_user_string has
-- one round for each byte it may copy, since a chunk is never empty; minios_write_all has one round for
-- each byte, since a round that goes on has written one. In MiniFS the walk along a path has a round
-- for each byte of the path, a read or write one for each byte, and the loops over a directory one for
-- each entry.
--
-- Not modelled: the boot loader and the assembly (boot/, kernel/arch/x86), port input and output (the
-- PS/2 dialogue of keyboard_init, PIC, PIT, VGA, serial, ATA commands, power), the contents of page
-- tables (kernel/mm/vmm.c, address_space.c), the heap (kernel/mm/heap.c), the self tests of
-- kernel/fs/minifs.c, the copying of ELF segments into pages, the system call dispatcher, the
-- rest of the user library, the user programs, and the self tests that start real threads.
pub mod Block
pub mod Drivers
pub mod Errno
pub mod Fs
pub mod Mm
pub mod Prelude
pub mod Proc
pub mod User
