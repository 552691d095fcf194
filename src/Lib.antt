-- ===== src/Lib.antt =====
-- A model of the TinuOS kernel, and theorems about it.
--
-- kernel_main starts the descriptor tables, the page allocator, the text screen, the timer and the clock, prints
-- the time and installs the page tables, each part going on with what the ports have seen so far. Interrupts
-- go through the table of gates to a dispatcher and from there to the handlers that the drivers register. The
-- page allocator protects its free list with a spinlock. A second allocator hands out blocks of any size from
-- an array of its own. Numbers are printed on the screen and into buffers. Before all that, main.c fills the
-- boot parameters with what the BIOS answers.
--
-- Which file models which part:
--   Memory          system.c: the byte memory, memset and memcpy
--   Strings         system.c: memcmp, strcpy, strncpy; monitor.c: strlen
--   Ports           include/boot.h: outb and inb, as a trace of accesses
--   Spinlock        mmu/spinlock.c; Exclusion interleaves processors at the atomic exchange
--   Layout          include/memlayout.h and include/paging.h: address arithmetic
--   PageAlloc       mmu/kmalloc.c: kfree, kalloc, freerange, kinit1; Sharing interleaves the calls of
--                   several processors, with the lock and without
--   Paging          mmu/mmu.c: page tables, over the page allocator; Fault, what page_fault prints
--   Heap            mmu/umalloc.c and include/kheap.h: malloc, free, ksbrk, next_power_of_two
--   Terminal        monitor.c: the screen
--   Kprintf         monitor.c: itoa and kprintf
--   Gdt, Idt        io/gdt.c, io/idt.c, io/irq.c: the descriptor tables
--   Isrs            io/isrs.c: dispatch of interrupts
--   Timer           io/timer.c: the tick count and sleep
--   Ide             drivers/ide.c: registers, polling, block transfers and errors of the disk controller
--   Rtc             drivers/rtc/clock.c: the real time clock; Rtc/Texts, the time in words
--   Printk          printk.c: numbers and formats in a buffer; Rendering, the texts of a format as a
--                   relation; Console, putchar and the start of kprintf
--   Bios            include/boot.h, regs.c: the calls of the BIOS
--   MemoryMap       devices/memory.c: the memory map of the BIOS
--   Edd             devices/edd.c: the disks that the BIOS knows
--   Apm             apm.c: power management
--   Tty             devices/tty.c: puts, for the screen and the serial port
--   Printf          printf.c: printf and sprintf, over Printk and Tty
--   Kernel          kernel.c: kernel_main, and the first page directory; Interrupts, the way from the
--                   table of gates to the tick count
--   Bootparam       include/bootparam.h and include/edd.h: the layout of the boot parameters
--   RealMode        main.c: the start in real mode, over Bios, Tty, Kprintf, MemoryMap, Apm and Edd
--   Cpu             cpu.c: whether the processor will do, over Printf
--   EarlySerial     devices/early_serial_printk.c: the serial port at the start
-- Digits says what a text of digits stands for, and Texts what bytes a buffer holds. Prelude holds shared
-- lemmas and the machine widths, and Tests runs the theorems at concrete inputs. Functions have the names
-- they have in C.
--
-- State is passed explicitly: a record holds the static variables of a C file, with the memory or the trace of
-- ports that it uses. A machine word is a natural number with its wrap-around written out. Where a text goes past
-- the end of a buffer of the code (in Printf, Printk/Console and Cpu), or the list of the BIOS past the end of the
-- memory map, the behaviour of the code is not defined, and there is no result.
--
-- Fuel. A loop that may not end takes the number of its rounds, and none is a loop that has not ended:
-- the wait for a lock, the walks along the chain of heap blocks, the loop over pages, the loops that
-- count digits or look for the end of a text, the loop that maps pages, the list of the BIOS, and the
-- waits for the timer, the disk, the clock and the serial port. The theorems say how much fuel is
-- enough: one round for a free lock, one more than there are blocks for the chain, one more than there
-- are pages for the range, 32 and 8 for the digits of printk.c and ten for those of monitor.c, one more
-- than its bytes for a text (33 more for printf), one more than there are entries for the list of the BIOS, as many interrupts
-- as ticks for sleep, one more than the accesses after which the disk is ready, and two for the clock.
--
-- Not modelled: the assembly files, include/multiboot.h, which is another project's, and the second half of
-- printk.c (itoa, kprintf behind the loops that clear the screen, debug_print), which is not valid C. In
-- RealMode the memory map is apart from the memory that holds `hdr` behind it, which no list within the map reaches.
-- `desc` of devices/memory.c is taken for a pointer to entries of the map, though it is declared as one to registers.
-- Parameters stand for what is outside the code: the conversion to float, the addresses of
-- the assembly routines, what a device answers, what the BIOS answers (with the carry flag, whose header is
-- not in the repository), the levels that do_intel finds, and what the stack holds.
pub mod Prelude
pub mod Memory
pub mod Ports
pub mod Spinlock
pub mod Layout
pub mod PageAlloc
pub mod Paging
pub mod Heap
pub mod Digits
pub mod Texts
pub mod Strings
pub mod Terminal
pub mod Kprintf
pub mod Printf
pub mod Kernel
pub mod Bios
pub mod Tty
pub mod EarlySerial
pub mod Apm
pub mod Edd
pub mod Bootparam
pub mod RealMode
pub mod Cpu
pub mod MemoryMap
pub mod Gdt
pub mod Idt
pub mod Isrs
pub mod Timer
pub mod Ide
pub mod Rtc
pub mod Printk
pub mod Tests
