-- ===== src/Lib.antt =====
-- Verification of the OperatingStress kernel: its FAT32 file system, the drivers below it, and the
-- interrupts and system calls above it, the start of the kernel and the user's shell.
--
-- The program. User code reaches the kernel by `syscall` (src/interrupt.c), which runs the four
-- operations of the file system (src/fat32.c), the keyboard driver (src/keyboard.c) and the text
-- screen (src/framebuffer.c). The file system keeps its tables in clusters of four blocks, which
-- `read_blocks` and `write_blocks` move: those of src/disk.c in the kernel and those of
-- src/external/external-inserter.c in the inserter. src/paging.c, src/gdt.c and src/idt.c hold the
-- tables of the processor. `kernel_setup` (src/kernel.c) brings all of them up and starts the shell,
-- src/user-shell.c, whose commands are sequences of system calls.
--
-- The models.
--   * Base: what all modules share: lists, options, integers and bits.
--   * Strings: src/stdlib/string.c. Memory is a function from addresses to bytes; a buffer that is
--     only read is a list, and reading past its end is `none`.
--   * Disk: storage as blocks by number, as the inserter implements it. Disk/Ata is the driver of
--     src/disk.c as its port traffic; the device is a parameter, given by what its ports return. For
--     Disk/Ata/Drive it is a drive that keeps the two commands of the ATA standard.
--   * Inserter: `main` of src/external/external-inserter.c. The C library and the heap are a
--     parameter; Laws has what is relied on of them, Insert is `make insert-shell`, and Start the
--     kernel on the image that it leaves.
--   * Fat32: src/fat32.c and src/header/filesystem/fat32.h. Types has the structures, Codec their
--     packed bytes, Driver the state `fat32_driver_state` with the disk and the memory around it, and
--     Init, Read, Write and Delete the operations by the names of the source. An operation takes a
--     request and the state, and returns the `int8_t` code with the new state. Links says what a
--     chain of clusters is, and RoundTrip relates write and read. Files has the abstract view of a
--     directory, the files that a disk holds in it by name and extension, with one child for what each
--     operation does to the view.
--   * Framebuffer: src/framebuffer.c. The screen is byte memory; calls of `out` are a list.
--   * Keyboard: src/keyboard.c, one state for the structure and the module's variables; Layout has
--     the two scancode tables.
--   * Paging, Gdt, Idt: src/paging.c, src/gdt.c, src/idt.c with their headers.
--   * Interrupt: src/interrupt.c; Pic is the set-up of the interrupt controllers,
--     and Tss the task state segment.
--   * Boot: `kernel_setup` of src/kernel.c, over the state of all parts.
--   * Shell: src/user-shell.c, the globals and the commands of `parseCommand`. Navigate has "cd", "ls"
--     and "find", Files "mkdir", "cat", "cp", "mv" and "rm", Parse the dispatch and the rounds of the
--     loop, and Main the splash screen and `main`. A system call of the file system is the operation
--     it reaches, printing is a list of texts, and what the stack holds before a variable is set is a
--     parameter.
--
-- Faults. An access outside an array of the source is `none`, as is a search that runs off its
-- table. Fixed-width arithmetic is written out with its modulus.
--
-- Bounds and fuel. The busy waits of the disk driver run on fuel, one unit for each poll; one poll
-- is enough for a device that is ready. The wait for a line of input runs over the list of key
-- interrupts that come meanwhile. All other loops are structural over a table or a counter.
--
-- A text that the shell prints from memory is followed for 256 bytes, or for the five clusters of
-- the buffer of "cat"; without an end there it is a fault.
--
-- Not modelled: the port instructions, the assembly files, and src/parseCommand.c, which is not part
-- of the build and not valid C. The stack that `listDir` points into is memory like any other, and the
-- typed line is the list of its 256 bytes.
--
-- The kernel's variables are a state apart from memory. A system call stores through addresses that
-- the code does not check; that such a store hits a variable of the kernel is not modelled. What
-- `fread` leaves of a file that is shorter than the element asked for is not specified by C, and the
-- theorems on the inserter say nothing of it.
pub mod Base
pub mod Strings
pub mod Disk
pub mod Fat32
pub mod Framebuffer
pub mod Interrupt
pub mod Keyboard
pub mod Paging
pub mod Gdt
pub mod Idt
pub mod Boot
pub mod Inserter
pub mod Shell
