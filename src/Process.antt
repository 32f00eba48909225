-- ===== src/Process.antt =====
-- The process control block of student-distrib/system_calls.h, and where `get_pcb` finds it.
pub mod Layout
mod Examples
use ece391_linux_os.Base.{ℕ, ◌+◌, ◌-◌, ◌*◌, Bytes, ℤ, pos, negsuc, Bool, false, ltb, leb, ◌&&◌}

-- The tables of function pointers; a descriptor's `fops_ptr` names one.
pub data FileOps : Type 0 where
  fops_rtc fops_dir fops_file std_in std_out : FileOps

pub record FileDesc : Type 0 where
  pub fops_ptr : FileOps
  pub inode : ℕ
  pub file_pos : ℕ
  pub flags : ℕ

pub record Pcb : Type 0 where
  pub fd_table : ℕ → FileDesc
  pub esp : ℕ
  pub ebp : ℕ
  pub cur_esp : ℕ
  pub cur_ebp : ℕ
  pub pid : ℤ
  pub parent_pid : ℤ
  pub ss0 : ℕ
  pub esp0 : ℕ
  pub arg : Bytes

abbrev pub fd_start : ℕ
fd_start = 2

abbrev pub fd_max : ℕ
fd_max = 8

abbrev pub process_count : ℕ
process_count = 6

abbrev pub eight_kb : ℕ
eight_kb = 8192

abbrev pub eight_mb : ℕ
eight_mb = 8388608

-- The address of the block of a process, also for the pid -1 of a terminal that runs none.
unfoldable pub get_pcb : ℤ → ℕ
get_pcb (pos n) = eight_mb - eight_kb * (n + 1)
get_pcb (negsuc n) = eight_mb + eight_kb * n

-- The top of the kernel stack that a process uses, `_8_MB - _8_KB * pid - FOUR_BYTE`.
pub kernel_stack : ℤ → ℕ
kernel_stack (pos n) = eight_mb - eight_kb * n - 4
kernel_stack (negsuc n) = eight_mb + eight_kb * (n + 1) - 4

-- The size of `pcb_t`: eight descriptors of four words, six words, a half word, one more word
-- and the argument buffer, packed.
abbrev pub pcb_size : ℕ
pcb_size = 8 * 16 + 6 * 4 + 2 + 4 + 128

-- `!(fd >= FD_MAX || fd < lo)`
abbrev pub fd_ok : ℕ → ℤ → Bool
fd_ok lo (pos fd) = leb lo fd && ltb fd fd_max
fd_ok lo (negsuc n) = false
