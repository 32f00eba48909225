-- ===== src/Machine/Invariant.antt =====
-- Every step of the kernel leaves a stack of processes for each terminal.

use ece391_linux_os.Base.{ℕ, ◌≡◌, refl, ap, ◌∙◌, arith, Option-cases, inl, inr, some, Bytes, pos}
use ece391_linux_os.Console.{visible}
use ece391_linux_os.Console.Processes.{SameProcesses}
use ece391_linux_os.Idt.{Handler}
use ece391_linux_os.Idt.Exceptions.{exception_handler, exception_handler-SameProcesses}
use ece391_linux_os.Machine.{take_exception, faults}
use ece391_linux_os.Programs.{Scratch, Outcome, with_kernel}
use ece391_linux_os.Programs.Leaving.{Leaves}
use ece391_linux_os.Syscalls.{Kernel}
use ece391_linux_os.Syscalls.Keep.{
  sys_open-SameTables, close-SameTables, read-SameTables, write-SameTables, vidmap-SameTables,
}
use ece391_linux_os.Programs.{System}
use ece391_linux_os.Programs.Stacks.{Stacks, Represents}
use ece391_linux_os.Programs.Leaving.{HasStacks, execute-HasStacks, halt-HasStacks}
use ece391_linux_os.Machine.{
  Step, opens, closes, reads, writes, maps_video, executes, halts, presses, Reach, here, and_then,
}
use ece391_linux_os.Machine.Keys.{same-HasStacks, press_key-HasStacks}

-- An exception of the process in front does.
take_exception-HasStacks :
    (fuel : ℕ) (junk : Bytes) (args : ℕ → ℕ) (scratch : Scratch) (esp ebp : ℕ) (s s' : System)
    (handler : Handler) (o : Outcome)
    → HasStacks s
    → (visible s.kernel.console).shell_flag ≡ pos 0
    → take_exception fuel junk args scratch esp ebp s handler ≡ some o
    → Leaves o s'
    → HasStacks s'
unfolding take_exception
take_exception-HasStacks fuel junk args scratch esp ebp s s' handler o h shell e leaves =
    let k : Kernel = s.kernel in
    elim (Option-cases (exception_handler fuel k.console.mem junk args handler k.console)) [
      | inl never ↦ absurd (ground (arith, rw (never, take_exception) at e))
      | inr ((c, status), is) ↦
          let same : SameProcesses k.console c =
            exception_handler-SameProcesses fuel k.console.mem junk args handler k.console c status
              is in
          let flag : (visible c).shell_flag ≡ pos 0 =
            ap (λ (v : ℕ). (c.t v).shell_flag) same.same_visible
            ∙ (same.same k.console.t_visible).2
            ∙ shell in
          halt-HasStacks scratch esp ebp (with_kernel s (record k { console = c })) s' status o
            (same-HasStacks
              (record { terminals = same; blocks = record { blocks = λ a. (refl, refl, refl) } }) h)
            flag (rw (is, take_exception) at e) leaves
    ]

-- Every step does.
Step-HasStacks : (s s' : System) → HasStacks s → Step s s' → HasStacks s'
Step-HasStacks s s' h (opens fuel m filename ret k e) =
    same-HasStacks (sys_open-SameTables fuel s.kernel k m filename ret e) h
Step-HasStacks s s' h (closes fd) = same-HasStacks (close-SameTables s.kernel fd) h
Step-HasStacks s s' h (reads fuel fd m m' buf nbytes ret k e) =
    same-HasStacks (read-SameTables fuel s.kernel k fd m m' buf nbytes ret e) h
Step-HasStacks s s' h (writes fd m buf nbytes ret k e) =
    same-HasStacks (write-SameTables s.kernel k fd m buf nbytes ret e) h
Step-HasStacks s s' h (maps_video pt m at) = same-HasStacks (vidmap-SameTables pt s.kernel m at) h
Step-HasStacks s s' h
      (executes scratch esp ebp command start name_end arg_start arg_end o t line e leaves) =
    execute-HasStacks scratch esp ebp s s' command start name_end arg_start arg_end o h line e
      leaves
Step-HasStacks s s' h (halts scratch esp ebp status o t shell e leaves) =
    halt-HasStacks scratch esp ebp s s' status o h shell e leaves
Step-HasStacks s s' h (faults fuel junk args scratch esp ebp handler o t shell e leaves) =
    take_exception-HasStacks fuel junk args scratch esp ebp s s' handler o h shell e leaves
Step-HasStacks s s' h (presses past scratch esp ebp scan_code o t e leaves) =
    press_key-HasStacks past scratch esp ebp s s' scan_code o h e leaves

reached : (s s' : System) → HasStacks s → Reach s s' → HasStacks s'
reached s s' h here = h
reached s s' h (and_then t u before step) = Step-HasStacks t s' (reached s t h before) step

-- From a system whose tables hold a stack of processes for each of the three terminals, every run of
-- system calls, exceptions, started and ended programs, and keys in any order leads to a system whose tables do:
-- no process stands on two stacks or twice on one, a process is taken where it stands on one, no
-- terminal has more than four, each terminal's record has the count of its processes and its front
-- one, and each block names the process below it. Only a terminal with a process calls `halt`, and
-- a command line has less than 256 characters.
pub Reach-HasStacks :
    (s s' : System) (stacks : Stacks)
    → Represents s stacks
    → Reach s s'
    → (stacks' : Stacks) × Represents s' stacks'
Reach-HasStacks s s' stacks r run = reached s s' (stacks, r) run
