-- ===== src/User/OnKernel.antt =====
-- The calls of syscalls/ece391syscall.h as student-distrib/system_calls.c answers them. The array
-- that a call is given stands at the address `base` of the caller's memory. `pt` is the address of
-- the page table of `vidmap`, and `fuel` is for the kernel's scans of strings. `launch`, which runs
-- another program, and `gate`, what a call with a number in the range does with the registers that it
-- finds, are parameters.
pub mod Files
pub mod Opening
pub mod Cat
pub mod Ls
pub mod Errors
pub mod Passing
pub mod Lots
pub mod AllTests
pub mod Shell
use ece391_linux_os.Base.{ℕ, ◌+◌, ◌-◌, Option, none, some, Bytes, shift, ℤ}
use ece391_linux_os.Syscalls.{Kernel, sys_open, close, read, write, getargs, vidmap}
use ece391_linux_os.Syscalls.Link.{sys_call_link}
use ece391_linux_os.User.{◌>>=◌, Calls}

-- The memory in which `array` stands at `base`.
abbrev pub placed : ℕ → Bytes → Bytes
placed base array a = array (a - base)

abbrev pub kernel_read : (base fuel : ℕ) → Kernel → ℤ → Bytes → ℕ → ℤ → Option (ℤ × Kernel × Bytes)
kernel_read base fuel k fd array at nbytes = do
  (ret, k', m) ← read fuel k fd (placed base array) (base + at) nbytes
  some (ret, k', shift m base)

abbrev pub kernel_getargs : (base fuel : ℕ) → Kernel → Bytes → ℤ → Option (ℤ × Bytes)
kernel_getargs base fuel k array nbytes = do
  (ret, m) ← getargs fuel k (placed base array) base nbytes
  some (ret, shift m base)

abbrev pub kernel_vidmap : (pt : ℕ) → Kernel → ℕ → Option (ℤ × Kernel)
kernel_vidmap pt k address = let (ret, k', m) = vidmap pt k (λ i. 0) address in some (ret, k')

abbrev pub kernel_calls :
    (base pt fuel : ℕ)
    → (launch : Kernel → Bytes → Option (ℤ × Kernel)) → (gate : Kernel → ℤ → Option (ℤ × Kernel))
    → Calls Kernel
kernel_calls base pt fuel launch gate = record {
  execute = launch;
  read_to = kernel_read base fuel;
  write_from = λ k fd array at nbytes. write k fd (placed base array) (base + at) nbytes;
  open_named = λ k name. sys_open fuel k (placed base name) base;
  close_fd = λ k fd. some (close k fd);
  arguments_to = kernel_getargs base fuel;
  video = kernel_vidmap pt;
  raw = sys_call_link gate;
}
