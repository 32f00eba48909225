-- ===== src/Machine/Examples.antt =====
-- A shell closes a descriptor, and the next key is "a".
use ece391_linux_os.Base.{pos}
use ece391_linux_os.Programs.{System, with_kernel}
use ece391_linux_os.Programs.Stacks.{Stacks, Represents}
use ece391_linux_os.Programs.Samples.{shell_system, shell_stacks}
use ece391_linux_os.Programs.Examples.{shell_system-Represents}
use ece391_linux_os.Syscalls.{close}
use ece391_linux_os.Machine.{closes, here, and_then}
use ece391_linux_os.Machine.Invariant.{Reach-HasStacks}

abbrev closed : System
closed = with_kernel shell_system (close shell_system.kernel (pos 2)).1

Reach-HasStacks_example : (stacks : Stacks) × Represents closed stacks
Reach-HasStacks_example =
    Reach-HasStacks shell_system closed shell_stacks shell_system-Represents
      (and_then shell_system closed here (closes (pos 2)))
