-- ===== src/Lib.antt =====
-- The JOS kernel: its C code as definitions, and theorems about them.
--
-- The program is a small 32-bit kernel. The boot loader (boot/main.c) reads it from disk, and it
-- starts on the page tables of kern/entrypgdir.c. It writes to and reads from the console
-- (kern/console.c), formats output by lib/printfmt.c, reads lines by lib/readline.c and runs
-- commands in the monitor (kern/monitor.c). kern/kdebug.c finds the function and the line of an
-- address, kern/pmap.c is the beginning of a memory manager with its checks, and lib/string.c holds
-- the functions that all of these use.
--
-- Values and failure. Numbers are natural numbers, with the wrap-around of machine words written
-- out; `int` values are the ℤ of Prelude/Int where they stay in range. A pointer into a string is
-- the list of the bytes from it to the end of its object, and a read or write past that end, a panic
-- and other behaviour that C does not define are `none`. State is passed explicitly. What a routine
-- prints is the list of the arguments of its calls of `putch` or `cputchar`.
--
-- The parts:
--   Prelude    names of the libraries, Boolean tests, lists, ℤ, and facts by evaluation.
--   Strings    lib/string.c. Scan: strlen, strnlen, strchr, strfind. Copy: strcpy, strcat, strncpy,
--              strlcpy. Compare: strcmp, strncmp, memcmp. Memory and Fill: memmove, memcpy, memset and
--              memfind on a memory of numbered bytes, by the string instructions of the variant
--              that is compiled (ASM is 1). Portable: the other variant. Number: strtol.
--   Format     lib/printfmt.c. Number: printnum. Flags: the flags of a %-escape sequence. Convert:
--              its last character. Print: vprintfmt. Buffer: sprintputch and vsnprintf. Arguments
--              behind the format are a list.
--   Ports      the accesses of inc/x86.h to ports, as an interface to the devices.
--   Boot       boot/main.c: Headers, inc/elf.h; Disk, what is relied on of the drive; Sector, Segment
--              and Load, on waitdisk and readsect, on readseg, and on bootmain; Kernel, the files
--              that the loader can load.
--   Debug      kern/kdebug.c: stab_binsearch and inc/stab.h. An index that may be -1 is kept one
--              higher. Info: debuginfo_eip, on tables that are parameters.
--   Paging     Address: inc/mmu.h, inc/memlayout.h, and the rounding of inc/types.h. Physical:
--              kern/pmap.h. Walk: check_va2pa of kern/pmap.c. Directory: check_kern_pgdir.
--              EntryTable: kern/entrypgdir.c, its table entry by entry.
--   Clock      kern/kclock.c, and nvram_read and i386_detect_memory of kern/pmap.c.
--   Pages      kern/pmap.c: page_init, page_decref, and check_page_free_list with the list in its
--              array (Chain), the pointers to the ends of two lists (Trail, Split, Order), and the
--              checks (Fill, Check, Verdict). boot_alloc, page_alloc and page_free are modelled as
--              the unfinished functions that they are.
--   Console    kern/console.c. Buffer: the circular buffer, cons_intr, cons_getc. Keyboard: its tables
--              and kbd_proc_data. Screen: cga_putc and cons_putc. Output: kern/printf.c.
--              Input: getchar. Lines: the port accesses of the serial line and the parallel port.
--   Start      kern/init.c: i386_init, _panic and _warn; and mem_init of kern/pmap.c.
--   Readline   lib/readline.c, on the list of what getchar returns.
--   Monitor    kern/monitor.c: runcmd up to the call of the command's function. Commands: the commands,
--              and runcmd with its output.
-- The modules below a part prove what its definitions do; those named Tests run them.
--
-- Loops and fuel. Loops over strings and blocks are recursion on the list or the length.
-- stab_binsearch gets twice the number of entries of its region and two, vprintfmt nine more than
-- the length of its format (a sequence may print a format of its own, of at most nine), printnum the
-- number itself, and the parser of commands the 16 entries of argv. readseg gets three passes more
-- than the whole sectors of its count, the loop over the program headers one more than their number,
-- a loop over pages two more than the whole pages up to its end, a walk through the free list one
-- more than the pages of the array, and waitdisk its patience, a parameter. The theorems below show
-- that these are enough.
--
-- Devices. What a device of the console returns is a list of results, an argument of the operation
-- that polls it. Screen keeps the list of what is sent to the output ports; the loops that wait for
-- a port stand in Lines. The disk, the clock and the serial line are a state and what each port
-- access answers and changes (Ports), with what is relied on of them as hypotheses (Boot/Disk,
-- Clock/Cells, Console/Lines), which a simulated device of the tests fulfils. The memory that holds
-- page tables is a function from addresses to words. The array of pages is kept beside the memory
-- that check_page_free_list fills, so that Pages is about lists whose pages lie apart from it. After a
-- panic, what the loop of the monitor and the code that it runs write is arbitrary text (Start/Once).
--
-- Not modelled: the loop of the monitor, mem_init behind its panic, the checks of kern/pmap.c whose
-- first allocation fails as page_alloc is unfinished, the other unfinished functions there, which
-- return NULL or 0 or do nothing, the search for the display in cga_init, assembly code, the single
-- instructions of inc/x86.h, and the descriptors of the processor.
pub mod Prelude
pub mod Ports
pub mod Strings
pub mod Format
pub mod Boot
pub mod Debug
pub mod Paging
pub mod Clock
pub mod Pages
pub mod Console
pub mod Start
pub mod Readline
pub mod Monitor
