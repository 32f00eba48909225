-- ===== src/Machine.antt =====
-- The kernel between interrupts: the whole of student-distrib/keyboard.c's handler, with the switch
-- of terminals and the shell that it starts, and the system calls as steps of one system.
pub mod Keys
pub mod Invariant
mod Examples
use ece391_linux_os.Base.{
  ℕ, ◌≡◌, List, Bytes, Bool, true, false, Option, none, some, ℤ, pos, update, ◌==◌, if◌then◌else◌,
  ◌&&◌,
}
use ece391_linux_os.Process.{Pcb, get_pcb}
use ece391_linux_os.Console.{Console, Terminal, visible, set_visible}
use ece391_linux_os.Keyboard.{KeyResult, done, switch_to, keyboard_handler}
use ece391_linux_os.Idt.{Handler}
use ece391_linux_os.Boot.Text.{text}
use ece391_linux_os.Console.Print.{printf}
use ece391_linux_os.Idt.Exceptions.{exception_handler, user_prog_code}
use ece391_linux_os.Display.{switch_display}
use ece391_linux_os.Syscalls.{Kernel, sys_open, close, read, write, vidmap}
use ece391_linux_os.Programs.{
  System, with_kernel, Scratch, Outcome, failed, started, returned, crashed, is_minus_one,
  shell_name, execute, halt,
}
use ece391_linux_os.Programs.Leaving.{Leaves}
use ece391_linux_os.Command.Parse.{IsLine}

-- How the handler goes on: it returns; it goes on at the registers that another process had when
-- its terminal was left; or it has executed a shell.
pub data KeyOutcome : Type 0 where
  handled : System → KeyOutcome
  resumed : (esp ebp : ℕ) → System → KeyOutcome
  executed : Outcome → KeyOutcome

-- The visible terminal's `running_process` is set to `tid`, whose process's block takes the registers.
abbrev pub name_process : (esp ebp : ℕ) → Kernel → ℕ → Kernel
name_process esp ebp k tid =
    let at = get_pcb (pos tid) in
    record k {
      pcb = update k.pcb at (record (k.pcb at) { cur_esp = esp; cur_ebp = ebp });
      console = set_visible k.console (record (visible k.console) { running_process = pos tid });
    }

-- The terminal has no shell, and one is executed.
pub start_shell : Scratch → (esp ebp : ℕ) → System → ℕ → Option Outcome
start_shell scratch esp ebp s tid =
    execute scratch esp ebp (with_kernel s (name_process esp ebp s.kernel tid)) (some shell_name)

-- The rest of the handler behind the switch.
abbrev pub after_switch : Scratch → (esp ebp : ℕ) → System → ℕ → Option (ℕ × ℕ) → Option KeyOutcome
after_switch scratch esp ebp s tid (some (new_esp, new_ebp)) = some (resumed new_esp new_ebp s)
after_switch scratch esp ebp s tid none =
    let shell = start_shell scratch esp ebp s tid in
    if (if tid == 0 then false else is_minus_one (s.kernel.console.t tid).shell_flag)
    then elim shell [ none ↦ none | some o ↦ some (executed o) ]
    else some (handled s)

-- Alt with a function key, for terminal `tid`, from the switch of the terminals on.
pub switch_terminal : Scratch → (esp ebp : ℕ) → System → ℕ → Option KeyOutcome
switch_terminal scratch esp ebp s tid =
    let (k, registers) = switch_display esp ebp s.kernel (pos tid) in
    after_switch scratch esp ebp (with_kernel s k) tid registers

-- `keyboard_handler` for a scan code.
pub press_key : (ℕ → ℕ) → Scratch → (esp ebp : ℕ) → System → ℕ → Option KeyOutcome
press_key past scratch esp ebp s scan_code =
    elim (keyboard_handler past s.kernel.console scan_code) [
      | done c ↦ some (handled (with_kernel s (record s.kernel { console = c })))
      | switch_to tid c ↦
          switch_terminal scratch esp ebp (with_kernel s (record s.kernel { console = c })) tid
    ]

-- A handler of student-distrib/idt_handlers.c, from its message on: the process is halted. `junk`
-- and `args` are what is on the stack, and the fuel is for the message.
pub take_exception :
    (fuel : ℕ) (junk : Bytes) (args : ℕ → ℕ)
    → Scratch
    → (esp ebp : ℕ) → System
    → Handler
    → Option Outcome
take_exception fuel junk args scratch esp ebp s h =
    let k = s.kernel in
    elim (exception_handler fuel k.console.mem junk args h k.console) [
      | none ↦ none
      | some (c, status) ↦ halt scratch esp ebp (with_kernel s (record k { console = c })) status
    ]

-- `sys_call_handler` of student-distrib/idt_handlers.c, which no entry of the table names any more.
pub sys_call_handler :
    (fuel : ℕ) (junk : Bytes) (args : ℕ → ℕ) → Scratch → (esp ebp : ℕ) → System → Option Outcome
sys_call_handler fuel junk args scratch esp ebp s =
    let k = s.kernel in
    elim (printf fuel k.console.mem junk (text "System call was handled\n") args k.console) [
      | none ↦ none
      | some (c, n) ↦ halt scratch esp ebp (with_kernel s (record k { console = c })) user_prog_code
    ]

-- What an outcome leaves to go on with.
abbrev pub KeyLeaves : KeyOutcome → System → Type 0
KeyLeaves (handled s) s' = s ≡ s'
KeyLeaves (resumed esp ebp s) s' = s ≡ s'
KeyLeaves (executed o) s' = Leaves o s'

-- What may happen next: a system call or an exception of the process that runs, or a key. Only a
-- terminal that has a process makes a call to `halt`, or has an exception.
pub data Step (s : System) : System → Type 0 where
  opens :
      (fuel : ℕ) (m : Bytes) (filename : ℕ) (ret : ℤ) (k : Kernel)
      → sys_open fuel s.kernel m filename ≡ some (ret, k)
      → Step s (with_kernel s k)
  closes : (fd : ℤ) → Step s (with_kernel s (close s.kernel fd).1)
  reads :
      (fuel : ℕ) (fd : ℤ) (m m' : Bytes) (buf : ℕ) (nbytes ret : ℤ) (k : Kernel)
      → read fuel s.kernel fd m buf nbytes ≡ some (ret, k, m')
      → Step s (with_kernel s k)
  writes :
      (fd : ℤ) (m : Bytes) (buf : ℕ) (nbytes ret : ℤ) (k : Kernel)
      → write s.kernel fd m buf nbytes ≡ some (ret, k)
      → Step s (with_kernel s k)
  maps_video :
      (pt : ℕ) (m : Bytes) (screen_start : ℕ)
      → Step s (with_kernel s (vidmap pt s.kernel m screen_start).1)
  executes :
      (scratch : Scratch) (esp ebp : ℕ) (command : Bytes) (start name_end arg_start arg_end : ℕ)
      (o : Outcome) (s' : System)
      → IsLine command start name_end arg_start arg_end
      → execute scratch esp ebp s (some command) ≡ some o
      → Leaves o s'
      → Step s s'
  halts :
      (scratch : Scratch) (esp ebp status : ℕ) (o : Outcome) (s' : System)
      → (visible s.kernel.console).shell_flag ≡ pos 0
      → halt scratch esp ebp s status ≡ some o
      → Leaves o s'
      → Step s s'
  faults :
      (fuel : ℕ) (junk : Bytes) (args : ℕ → ℕ) (scratch : Scratch) (esp ebp : ℕ) (h : Handler)
      (o : Outcome) (s' : System)
      → (visible s.kernel.console).shell_flag ≡ pos 0
      → take_exception fuel junk args scratch esp ebp s h ≡ some o
      → Leaves o s'
      → Step s s'
  presses :
      (past : ℕ → ℕ) (scratch : Scratch) (esp ebp scan_code : ℕ) (o : KeyOutcome) (s' : System)
      → press_key past scratch esp ebp s scan_code ≡ some o
      → KeyLeaves o s'
      → Step s s'

pub data Reach (s : System) : System → Type 0 where
  here : Reach s s
  and_then : (s' s'' : System) → Reach s s' → Step s' s'' → Reach s s''
