-- ===== src/User/OnKernel/Shell.antt =====
-- A round of the shell of syscalls/ece391shell.c on the kernel.
use ece391_linux_os.Base.{ℕ, ◌+◌, ◌*◌, ◌≡◌, Option, Bytes, ℤ}
use ece391_linux_os.Console.{Console}
use ece391_linux_os.Console.Screen.{InScreen}
use ece391_linux_os.Syscalls.{Kernel}
use ece391_linux_os.User.{◌>>=◌}
use ece391_linux_os.User.Basic.{report_status, shell_loop}
use ece391_linux_os.User.OnKernel.{kernel_calls}

-- A terminal at which a line can be typed.
pub record AtPrompt (c : Console) (row : ℕ) : Type 0 where
  pub on_screen : InScreen c
  pub no_alt : c.alt_flag ≡ 0
  pub no_ctrl : c.ctrl_flag ≡ 0
  pub of_row : c.caps_lock_flag * 2 + c.shift_flag ≡ row
  pub no_enter : c.enter_flag c.t_visible ≡ 0

module _ (base pt scan : ℕ) (launch : Kernel → Bytes → Option (ℤ × Kernel))
    (gate : Kernel → ℤ → Option (ℤ × Kernel)) where
  -- What the loop does with a command: it runs it, reports how it ended, and goes on.
  abbrev pub after_command : ℕ → Kernel → Bytes → Option (ℤ × Kernel)
  after_command fuel k buf = launch k buf >>= λ out.
      report_status (kernel_calls base pt scan launch gate) scan out.1 out.0 >>= λ k'.
      shell_loop fuel (kernel_calls base pt scan launch gate) scan k' buf
