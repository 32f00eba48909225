-- ===== src/Boot.antt =====
-- `entry` of student-distrib/kernel.c, with the descriptors of student-distrib/x86_desc.h. What the
-- loader leaves in memory is in the console's memory; where the linker puts things is an argument.
pub mod Text
pub mod Descriptors
pub mod Lines
pub mod Start
pub mod Runs
mod Examples
use ece391_linux_os.Base.{
  ℕ, zero, suc, ◌+◌, ◌-◌, ◌^◌, ◌*◌, ◌/◌, ◌%◌, ◌<◌, Bool, true, false, Option, none, some, Bytes,
  shift, update, List, [], ◌∷◌, ◌++◌, ◌==◌, ltb, ◌&&◌, if◌then◌else◌, ℤ, pos, minus_one, u32_mod,
  bit_and,
}
use ece391_linux_os.Process.{Pcb, get_pcb, process_count}
use ece391_linux_os.FileSys.{FileSystem, u32_at, fs_init}
use ece391_linux_os.Console.{Console, clear, terminal_init}
use ece391_linux_os.Console.Print.{printf}
use ece391_linux_os.Pic.{i8259_init}
use ece391_linux_os.Idt.{Handler, IdtDesc, initialize_idt}
use ece391_linux_os.Keyboard.{keyboard_init}
use ece391_linux_os.Paging.{paging_init}
use ece391_linux_os.Rtc.{Io, out_ios, initialize_rtc}
use ece391_linux_os.Syscalls.{Kernel}
use ece391_linux_os.Programs.{System, with_kernel, Scratch, Outcome, shell_name, execute}
use ece391_linux_os.Boot.Text.{text}
use ece391_linux_os.Boot.Descriptors.{SegDesc, ldt_descriptor, tss_descriptor}
use ece391_linux_os.Boot.Lines.{say, Report, stopped, goes_on, report}

-- Where the linker puts the tables and the handlers, and what the devices answer.
pub record Platform : Type 0 where
  pub ldt : ℕ
  pub ldt_size : ℕ
  pub tss : ℕ
  pub tss_size : ℕ
  pub pt : ℕ
  pub address : Handler → ℕ
  pub mask : ℕ → ℕ
  pub rtc_answer : ℕ

-- The system with the processor's tables.
pub record Computer : Type 0 where
  pub system : System
  pub idt : ℕ → IdtDesc
  pub ldt_desc_ptr : SegDesc
  pub tss_desc_ptr : SegDesc
  pub ldt_segment_selector : ℕ

-- The loop that frees the processes, from process `p` on.
pub free_processes : ℕ → (ℕ → ℤ) → ℕ → ℕ → ℤ
free_processes zero status p = status
free_processes (suc rounds) status p = free_processes rounds (update status p minus_one) (p + 1)

-- From the descriptors up to `terminal_init`; `junk` is what is on the stack.
pub initialize : Platform → SegDesc → SegDesc → Computer → Computer
initialize h junk_ldt junk_tss b =
    let k = b.system.kernel in
    let (c, keyboard_irq) = keyboard_init h.mask k.console in
    let (rtc_ios, flag) = initialize_rtc h.mask h.rtc_answer in
    record {
      system = record {
        kernel = record k {
          tss_ss0 = 0x18;
          tss_esp0 = 0x800000;
          ports = k.ports ++ out_ios (i8259_init h.mask) ++ out_ios (keyboard_irq ∷ []) ++ rtc_ios;
          paging = paging_init h.pt k.paging;
          rtc_int_received = flag;
          console = terminal_init c;
        };
        process_status = free_processes process_count b.system.process_status 0;
      };
      idt = initialize_idt h.address b.idt;
      ldt_desc_ptr = ldt_descriptor junk_ldt h.ldt h.ldt_size;
      tss_desc_ptr = tss_descriptor junk_tss h.tss h.tss_size;
      ldt_segment_selector = 0x38;
    }

-- From the message on: the registers are kept, and the first shell is executed.
pub start_shell : ℕ → Bytes → Scratch → (esp ebp : ℕ) → Computer → Option (Outcome × Computer)
start_shell fuel junk scratch esp ebp b =
    let k = b.system.kernel in
    elim (say fuel junk (text "Enabling Interrupts\n") [] k.console) [
      | none ↦ none
      | some c ↦
          let at = get_pcb (pos 0) in
          let s = with_kernel b.system (record k {
            console = c;
            pcb = update k.pcb at (record (k.pcb at) { cur_esp = esp; cur_ebp = ebp });
          }) in
          elim (execute scratch esp ebp s (some shell_name)) [
            | none ↦ none
            | some o ↦ some (o, record b { system = s })
          ]
    ]

-- How `entry` ends: it returns, or it has executed the shell.
pub data Ending : Type 0 where
  returns : Computer → Ending
  executes : Outcome → Computer → Ending

abbrev after_report :
    ℕ
    → Bytes
    → Platform
    → SegDesc
    → SegDesc
    → Scratch
    → (esp ebp : ℕ) → Computer
    → Report
    → Option Ending
after_report fuel junk h junk_ldt junk_tss scratch esp ebp b (stopped fs c) = some (
    returns (record b {
      system = with_kernel b.system (record b.system.kernel { console = c; fs = fs });
    }))
after_report fuel junk h junk_ldt junk_tss scratch esp ebp b (goes_on fs c) =
    let ready = initialize h junk_ldt junk_tss (record b {
      system = with_kernel b.system (record b.system.kernel { console = c; fs = fs });
    }) in
    elim (start_shell fuel junk scratch esp ebp ready) [
      | none ↦ none
      | some (o, b') ↦ some (executes o b')
    ]

pub entry :
    ℕ
    → Bytes
    → Platform
    → SegDesc
    → SegDesc
    → Scratch
    → (esp ebp magic addr : ℕ) → Computer
    → Option Ending
entry fuel junk h junk_ldt junk_tss scratch esp ebp magic addr b =
    let k = b.system.kernel in
    elim (report fuel junk magic addr k.fs (record k.console { mem = clear k.console.mem })) [
      | none ↦ none
      | some r ↦ after_report fuel junk h junk_ldt junk_tss scratch esp ebp b r
    ]
