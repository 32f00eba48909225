-- ===== src/Lib.antt =====
-- A verification library for the kernel in student-distrib/: a small Unix-like system for one
-- 32-bit x86 processor, with a read-only file system, three text terminals, a keyboard, a real-time
-- clock, paging and system calls.
--
-- How the parts interact: an interrupt goes through the descriptor table (idt_handlers.c) to the
-- handler of a device. The keyboard's fills the line buffer of the visible terminal and echoes
-- through `putc`; the clock's sets a flag that `rtc_read` waits for. A system call looks up the
-- descriptor table of the running process and calls through a table of function pointers into the
-- file system, the clock or the terminal. `map_program`, `map_video` and `switch_display` change
-- the page tables and the screen. `execute` puts a program in front of the visible terminal and `halt`
-- takes it away; `entry` of kernel.c prepares all of it and executes the first shell.
--
-- The files, and the code that each is about:
--   Base: numbers, bytes, memories and tests that all files share. A `uint32_t` is a natural number
--     with its wrap-around written out, an `int32_t` that may be negative an integer, and an array
--     or a memory a function from indices or addresses to bytes.
--   CLib: student-distrib/lib.c, the functions on memory, strings and numbers. The assembly of the
--     block operations is followed loop by loop.
--   Process: student-distrib/system_calls.h, the process control block, and `get_pcb`.
--   FileSys: student-distrib/filesys.c. The image is an array of bytes and the pointers into it are
--     offsets; `Ops` has the functions for descriptors.
--   Console: student-distrib/terminal.c and the screen functions of lib.c; `Print` has `printf`.
--   Keyboard: student-distrib/keyboard.c, and `terminal_read` of terminal.c.
--   Pic, Rtc: student-distrib/i8259.c and rtc.c. A function gives its port operations in order; what
--     a port answers is an argument.
--   Paging: student-distrib/paging.c. `translate` in Paging.Walk is the processor's translation of
--     an address by the IA-32 manual, which the theorems take as the meaning of the entries.
--   Display: `switch_display` of student-distrib/paging.c; the stack registers are values.
--   Idt: student-distrib/idt_handlers.c, the table and the exceptions' handlers.
--   Syscalls: student-distrib/system_calls.c, the calls on descriptors. `sys_open` is `open`; the
--     others keep their names. `Tables` and `Keep` are about what the calls leave alone; `Link` is the
--     test of the number in student-distrib/system_calls_wrapper.S.
--   Command: the part of `execute` that takes the command line apart. A write outside of the arrays
--     `exec` and `argb` is the result `overrun`.
--   Programs: `execute` and `halt` of student-distrib/system_calls.c. Entering user code and
--     returning to the caller of `execute` are results with the entry point or the registers. The
--     specification, in Programs.Stacks, is a stack of processes for each terminal.
--   Machine: the whole handler of student-distrib/keyboard.c with the switch of terminals and the
--     shell it may start, and the steps of the kernel: calls, exceptions and keys.
--   Scheduler: student-distrib/scheduler.c, which nothing calls. What `t_cur` becomes after a
--     switch depends on the frame that is resumed, and is left open.
--   User: the programs of syscalls/. `Support` has ece391support.c, `Basic` the short programs and
--     the shell, `Grep` and `Syserr` those of these names. A program is a function of the calls that
--     it makes; `OnKernel` answers them with Syscalls. An array of a program stands at one address
--     in each call, since no call keeps a pointer. Running another program is a parameter there, and
--     so is a call by `int $0x80` whose number Syscalls.Link lets through.
--   Boot: `entry` of student-distrib/kernel.c. What the loader leaves is read from memory; `Lines`
--     has what is printed of it, `Descriptors` the entries for the local table and the task state.
--
-- Loops that a count bounds recur on the rounds that are left. Scans for a zero byte, the digits
-- of `itoa`, the powers of `rtc_write` and the blocks of `read_data` recur on fuel; running out of
-- it is `none`. A string of n characters needs n + 1, a number 33, a frequency 16, and `read_data`
-- one more than the bytes that it copies, which it is given. The scans of a command line count in
-- a byte: 256 rounds without an end are a loop that does not end, which is `none`. `execute` scans
-- its two arrays of 33 bytes with 33 rounds, since each has a zero byte. The texts of `entry` and
-- the lists of the loader recur on one fuel; the last text needs 21. The loops of a user program
-- and its scans recur on one fuel. The waits of `rtc_read` and `terminal_read` recur on the
-- interrupts and scan codes that come in.
--
-- Not modelled: the other assembly stubs, and the loading of control registers, tables and the
-- interrupt flag; the kernel's tests, which have assembly in them; ece391pingpong.c and
-- ece391sigtest.c, and fish/ with the emulation of the calls on Linux. The memory of a caller is
-- kept apart from the kernel's own data, so a call with a buffer inside the kernel's memory is
-- outside the model. When `switch_display` goes to a process that was left in the keyboard's
-- handler, the handler ends with that process's registers; what its earlier call does next is
-- not followed. The scan of `dir_read` for the end of a name goes on in the image, not on the
-- stack, behind an entry of 64 bytes without a zero. A read that waits for a line ends where Alt
-- and a function key ask for another terminal.
pub mod Base
pub mod CLib
pub mod Process
pub mod FileSys
pub mod Console
pub mod Pic
pub mod Rtc
pub mod Paging
pub mod Idt
pub mod Keyboard
pub mod Syscalls
pub mod User
pub mod Display
pub mod Command
pub mod Programs
pub mod Machine
pub mod Scheduler
pub mod Boot
