-- ===== src/Scheduler.antt =====
-- student-distrib/scheduler.c, which is written for the programmable interval timer and not in use.
pub mod Round
use ece391_linux_os.Base.{
  ℕ, ◌+◌, ◌/◌, ◌%◌, ◌≡◌, refl, ◌∙◌, sym, ap, arith, Bool, true, false, List, [], ◌∷◌, ◌++◌, Option,
  none, some, update, ◌==◌, if◌then◌else◌, ◌||◌, ℤ, pos, to_nat, nat_eq,
}
use ece391_linux_os.Pic.{Out, outb, enable_irq, send_eoi}
use ece391_linux_os.Rtc.{out_ios}
use ece391_linux_os.Process.{Pcb, get_pcb, kernel_stack}
use ece391_linux_os.Console.{Console, Terminal, terminal_count}
use ece391_linux_os.Paging.{map_program}
use ece391_linux_os.Syscalls.{Kernel}
use ece391_linux_os.Programs.{
  System, with_kernel, Scratch, Outcome, is_minus_one, shell_name, execute,
}

-- The port operations; 1193182 / 100 is the divisor for ten milliseconds.
pub pit_init : (ℕ → ℕ) → List Out
pit_init inb =
    let divisor : ℕ = 1193182 / 100 in
    outb 0x36 0x43
    ∷ outb (divisor % 256) 0x40
    ∷ outb (divisor / 256 % 256) 0x40
    ∷ enable_irq inb 0
    ∷ []

-- How a call goes on: it has executed a shell; it returns, with another `t_cur`; or it goes on at
-- the registers of the next terminal's process. In the last case `t_cur = t_next` is run in the
-- frame of those registers, so with the `t_next` that an earlier call has left there: `t_cur` stays
-- open.
pub data Scheduled : Type 0 where
  executed : Outcome → Scheduled
  skipped : (t_cur : ℕ) → System → Scheduled
  switched : (esp ebp : ℕ) → System → Scheduled

-- A terminal without a shell executes one, on the terminal that is visible.
pub start_terminal : Scratch → (esp ebp : ℕ) → System → ℕ → Option Outcome
start_terminal scratch esp ebp s t_cur =
    let k = s.kernel in
    let at = get_pcb (pos t_cur) in
    execute scratch esp ebp
      (with_kernel s (record k {
        pcb = update k.pcb at (record (k.pcb at) { cur_esp = esp; cur_ebp = ebp });
        console = record k.console {
          t = update k.console.t t_cur (record (k.console.t t_cur) { running_process = pos t_cur });
        };
      }))
      (some shell_name)

-- From the process of terminal `t_cur` to that of `t_next`.
pub switch_process : (esp ebp : ℕ) → System → (t_cur t_next : ℕ) → Scheduled
switch_process esp ebp s t_cur t_next =
    let k = s.kernel in
    let old = get_pcb (k.console.t t_cur).running_process in
    let pcb = update k.pcb old (record (k.pcb old) { cur_esp = esp; cur_ebp = ebp }) in
    let next = pcb (get_pcb (k.console.t t_next).running_process) in
    switched next.cur_esp next.cur_ebp (
      with_kernel s (record k {
        pcb = pcb;
        tss_ss0 = 0x18;
        tss_esp0 = kernel_stack next.pid;
        paging = map_program (to_nat next.pid) k.paging;
      }))

-- `schedule`; `i` is what the local variable holds, which is not initialised.
pub schedule : ℕ → Scratch → (esp ebp : ℕ) → System → ℕ → Option Scheduled
schedule i scratch esp ebp s t_cur =
    let k = s.kernel in
    let t_next = (t_cur + 1) % terminal_count in
    let shell = start_terminal scratch esp ebp s t_cur in
    if is_minus_one (k.console.t t_cur).shell_flag
    then elim shell [ none ↦ none | some o ↦ some (executed o) ]
    else if is_minus_one (k.console.t t_next).shell_flag || i == terminal_count
    then some
        (skipped t_next (with_kernel s (record k { ports = k.ports ++ out_ios (send_eoi 0) })))
    else some (switch_process esp ebp s t_cur t_next)

-- `pit_handler` of student-distrib/idt_handlers.c, which acknowledges the interrupt first.
pub pit_handler : ℕ → Scratch → (esp ebp : ℕ) → System → ℕ → Option Scheduled
pit_handler i scratch esp ebp s t_cur =
    let k = s.kernel in
    schedule i scratch esp ebp
      (with_kernel s (record k { ports = k.ports ++ out_ios (send_eoi 0) })) t_cur
