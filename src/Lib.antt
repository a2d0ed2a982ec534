-- ===== src/Lib.antt =====
-- HeavenOS is a small x86-64 kernel in C. This library models its start, its memory management, its tasks
-- and interrupts and its output to the screen, and proves what makes them correct.
--
-- The parts and their files, with paths from the root of the repository:
--
-- - utils/list.c is LinkedList: the next and prev links are two functions from addresses, and each
--   of list_empty, list_init, list_insert_after and list_extract is a function of that name.
--   LinkedList.Ring says when the links from a head form a ring that stands for a list.
-- - common.c and common.h are Memory: memset, memcpy, memmove, memcmp and strlen over a memory of
--   bytes, and the rounding macros. The four loops of memmove are the x86 string instructions.
-- - mm/frame_alloc.c is FrameAlloc: a Zone holds a free list and a bitmap address per order, and the
--   bitmaps are bytes of memory. zone_alloc and zone_dealloc stand in FrameAlloc, zone_add and
--   frame_alloc_init in FrameAlloc.Init, and frames_alloc and frames_free in FrameAlloc.Zones. A free
--   list is the list of the addresses of its blocks, since list_insert_after and list_extract do to
--   a ring what push and extract do to that list. FrameAlloc.Geometry has blocks and
--   buddies, Cover counts the free blocks at an address, Bitmap has the writes to the bitmaps, Invariant
--   the free lists, Alloc zone_alloc, Init.Sound and Init.Chain the zones that zone_add and
--   frame_alloc_init make, and Init.Regions the memory that they are made of.
-- - mm/vmem.c and mm/paging.h are Vmem: Vmem has the list of areas of an address space and the
--   conversion of flags, Vmem.Tables the page tables with the functions that map and unmap pages,
--   Vmem.Space the areas and the copy of mappings, and Vmem.Life copies and ends of address spaces
--   and the page fault handler. Memory is a function of the addresses of 64-bit words there, and the
--   frames that frame_alloc returns, in order, are a list. Vmem.Entry reads the bits of an entry.
--   Vmem.Walk has the walk of the processor and the tree that the tables form, Keep, Grow, Ensure and
--   Way follow vmem_ensure_next_table, and Map, Mapped, Unmap and Fault have the theorems on pages.
-- - mm/obj.c is Obj: free objects are linked by words of memory. The page that frame_alloc returns is
--   an argument of object_alloc. Obj.FreeList and Obj.Carve have the theorems.
-- - drivers/fb.c is Fb: the framebuffer is a window of the memory of bytes, whose words
--   Memory.Words reads and writes. Fb.Pixels has the pixels, Rect, Scroll and Glyph the theorems, and
--   Bounds the bytes that are not written.
-- - kernel/console.c is Console, with its font in Console.Font. Console.Cursor and Write keep the
--   cursor on the grid, Text has strings, and Grid is a terminal of cells, which Cells and Refine show
--   the console to implement on the pixels.
-- - kernel/printk.c is Printk: Digits, Reverse and Number follow bprintu64, Bounds has the buffer and
--   Format the interpreter of formats. It prints through Console, and Console draws through Fb.
-- - drivers/acpi.c is Acpi: the checksums of Acpi.Check and the search of Acpi.Lookup, over the bytes of
--   memory and without the messages.
-- - kernel/multiboot.c is Multiboot: the walk over the tags of the boot information in Multiboot.Tags
--   and the iterator over the memory map in Multiboot.Iter, over the bytes of memory.
-- - drivers/apic.c is Apic: what is done to the ports and the registers of devices is a list of
--   actions, and the answer of a device to a read is a function of that list. Apic.Madt follows the
--   search for the APICs and Apic.Timer the calibration of the timer.
-- - arch/x86/irq.c is Irq, over the tasks of Sched, an address space of Vmem, the actions of Apic and
--   the console: Irq.Dispatch has irq_handler, and Irq.Names the names of exceptions.
-- - arch/x86/x86.c is X86, with the stacks of threads in X86.Thread: X86.Decode reads a descriptor the
--   way the processor does, Start and Clone follow the stacks of a new and of a forked thread.
-- - boot/early.c is Boot, over the words of physical memory: Boot.Direct and Boot.Sections follow its
--   two loops, Boot.Translate its entries, and Boot.Paging the walk through its tables.
-- - kernel/kernel.c is Start, which puts the parts together, and kernel/panic.c is Panic. The program
--   of the initial task, in sched/user.c, is User: a tree of its calls and of what follows an answer.
-- - sched/sched.c and kernel/syscall.c are Sched: the task table, the body of the scheduler's loop,
--   the timer and the system calls. A handler ends where it switches to the scheduler, and what it
--   does behind the switch is a function of its own, which the task's resume names. Sched.Exit has a tick
--   of the timer in sys_exit, Sched.Rounds a pass of the scheduler's loop, where what happens from the
--   switch to a task to the switch back is an argument, and Sched.Init and Setup the initial task.
--
-- Steps that may panic return an Option, and none is the panic, an access through NULL or behind an
-- array. Assertions are active, as NDEBUG is not defined. Numbers are natural; where the code counts
-- in 64 bits the remainder is written out. The loops over orders, zones, bytes and tasks run on their
-- counters. strlen runs on fuel, for which the index of the NUL byte plus one is enough, and
-- pages2order on eleven turns, which its assertion makes enough; the loop over the objects of a page
-- has 65 turns, which objects 64 bytes apart do not exceed. The digits of a number have 64 turns, which
-- is enough for 64 bits in any base of two or more. A string that is printed runs on fuel, for which
-- its length plus one is enough. The loops over the tags of the boot information, the memory map and
-- the MADT run on fuel, for which one more than the number of their items is enough, the wait for the
-- PIT on one more than the reads that it takes, and the loop over the sections of the kernel on one
-- more than their pages of 2 MB.
--
-- Not modelled: the links of free blocks are kept apart from the bytes of a zone, and those of free
-- objects from the words of Vmem, which has their number. System calls and the scheduler's loop run with
-- interrupts enabled, but their functions have no interrupt in them: Sched.Exit puts one into sys_exit,
-- and a tick between the first and the last line of sched_switch_to has no model. The errors of
-- vmem_clone and arch_thread_clone_current are arguments of sys_fork. frame_free in Vmem records the frame, and writes
-- no link into it. Coordinates and sizes of the framebuffer are not negative and do not overflow. A
-- format and the strings of kernel/printk.c are lists of bytes, where the strings of %s and the buffer
-- stand in memory. The words of Vmem and Boot, the bytes of the other parts and the registers of
-- devices are memories of their own. The table of interrupts, the context switch, the entry of system
-- calls and the code before boot/early.c are assembly and have no model.
--
-- FrameAlloc.Init follows zone_add as it is written, with bitmaps that overlap. zone_alloc never reads a
-- bitmap, and its theorem lets them overlap. zone_dealloc reads them, and has no theorem.
pub mod Prelude
pub mod LinkedList
pub mod Memory
pub mod FrameAlloc
pub mod Vmem
pub mod Obj
pub mod Fb
pub mod Console
pub mod Printk
pub mod Acpi
pub mod Multiboot
pub mod Apic
pub mod X86
pub mod Boot
pub mod Panic
pub mod Irq
pub mod Start
pub mod User
pub mod Sched
