-- ===== src/Programs/Samples.antt =====
-- Systems for the examples: none of the terminals has a process, or the first has some. The file
-- system has one file, "a", with three bytes.
use ece391_linux_os.Base.{ℕ, ◌+◌, [], ◌∷◌, true, Bytes, ◌==◌, ltb, if◌then◌else◌, ℤ, pos, minus_one}
use ece391_linux_os.Process.{Pcb, std_in, kernel_stack}
use ece391_linux_os.FileSys.{FileSystem, Dentry}
use ece391_linux_os.Console.{Console, Terminal}
use ece391_linux_os.Syscalls.{Kernel}
use ece391_linux_os.Programs.{System, Scratch}
use ece391_linux_os.Programs.Stacks.{Stacks}

abbrev pub zeros : Bytes
zeros a = 0

abbrev pub scratch : Scratch
scratch = record { exec = zeros; argb = zeros; buffer = zeros }

abbrev pub image : Bytes
image a =
    if a == 0
    then 1
    else if a == 4
    then 1
    else if a == 8
    then 1
    else if a == 64
    then b'a'
    else if a == 96
    then 2
    else if a == 4096
    then 3
    else if a == 8192
    then 0x7f
    else 0

abbrev pub files : FileSystem
files = record {
  present = true;
  image = image;
  inode_arr = 4096;
  data_arr = 8192;
  den_arr = 64;
  dir_offset = 0;
}

abbrev pub program : Dentry
program = record { file_name = λ i. if i == 0 then b'a' else 0; file_type = 2; inode = 0 }

-- A terminal with `n` processes, `front` in front.
abbrev pub terminal : (n : ℕ) → (front flag : ℤ) → Terminal
terminal n front flag = record {
  screen_x = 0;
  screen_y = 0;
  video_mem = 0xb9000;
  buffer = zeros;
  buffer_idx = 0;
  process_ct = pos n;
  running_process = front;
  shell_flag = flag;
}

abbrev pub console : Terminal → Console
console first = record {
  t = λ i. if i == 0 then first else terminal 0 minus_one minus_one;
  t_visible = 0;
  mem = zeros;
  cursor_low = 0;
  cursor_high = 0;
  caps_lock_flag = 0;
  shift_flag = 0;
  alt_flag = 0;
  ctrl_flag = 0;
  enter_flag = λ i. 0;
}

-- The block of a process on top of process 0.
abbrev pub block : ℕ → Pcb
block p = record {
  fd_table = λ i. record { fops_ptr = std_in; inode = 0; file_pos = 0; flags = 0 };
  esp = 100 + p;
  ebp = 200 + p;
  cur_esp = 0;
  cur_ebp = 0;
  pid = pos p;
  parent_pid = pos 0;
  ss0 = 0x18;
  esp0 = kernel_stack (pos 0);
  arg = zeros;
}

abbrev pub blocks : ℕ → Pcb
blocks a = if a == 0x7fc000 then block 1 else block 0

abbrev pub kernel : Console → Kernel
kernel c = record {
  console = c;
  fs = files;
  pcb = blocks;
  rtc_int_received = 0;
  paging = record { page_dir = λ i. 0x403003; page_table = λ i. 0 };
  tss_ss0 = 0x18;
  tss_esp0 = 0;
  ports = [];
  keys = [];
  interrupts = [];
  mask = λ p. 0xff;
  register_a = 0x26;
  register_b = 0x02;
  past_keys = λ i. 0;
}

-- The first terminal has this record, and the first `taken` processes run.
abbrev pub system : Terminal → ℕ → System
system first taken = record {
  kernel = kernel (console first);
  process_status = λ p. if ltb p taken then pos 1 else minus_one;
}

abbrev pub idle_system : System
idle_system = system (terminal 0 minus_one minus_one) 0

abbrev pub shell_system : System
shell_system = system (terminal 1 (pos 0) (pos 0)) 1

abbrev pub busy_system : System
busy_system = system (terminal 2 (pos 1) (pos 0)) 2

abbrev pub idle_stacks : Stacks
idle_stacks i = []

abbrev pub shell_stacks : Stacks
shell_stacks i = if i == 0 then 0 ∷ [] else []

abbrev pub busy_stacks : Stacks
busy_stacks i = if i == 0 then 1 ∷ 0 ∷ [] else []
