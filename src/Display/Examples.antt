-- ===== src/Display/Examples.antt =====
-- Three terminals that run one shell each, the first one visible.
use ece391_linux_os.Base.{
  ℕ, ◌+◌, ◌*◌, ◌<◌, ◌≡◌, refl, arith, [], true, some, ◌==◌, ltb, if◌then◌else◌, pos,
}
use ece391_linux_os.Process.{FileDesc, Pcb, std_in, std_out, get_pcb, kernel_stack}
use ece391_linux_os.Console.{Console, Terminal, vid_mem}
use ece391_linux_os.Paging.{map_program}
use ece391_linux_os.Syscalls.{Kernel}
use ece391_linux_os.Display.{switch_display}
use ece391_linux_os.Display.Switch.{
  Pages, on_screen, behind, switch_display-screen, switch_display-registers,
}

abbrev terminal : ℕ → Terminal
terminal i = record {
  screen_x = 0;
  screen_y = 0;
  video_mem = vid_mem + (i + 1) * 4096;
  buffer = λ i. 0;
  buffer_idx = 0;
  process_ct = pos 1;
  running_process = pos i;
  shell_flag = pos 0;
}

abbrev console : Console
console = record {
  t = terminal;
  t_visible = 0;
  mem = λ a. 0;
  cursor_low = 0;
  cursor_high = 0;
  caps_lock_flag = 0;
  shift_flag = 0;
  alt_flag = 0;
  ctrl_flag = 0;
  enter_flag = λ i. 0;
}

abbrev table : ℕ → FileDesc
table i = record {
  fops_ptr = if i == 0 then std_in else std_out;
  inode = 0;
  file_pos = 0;
  flags = if ltb i 2 then 1 else 0;
}

abbrev block : Pcb
block = record {
  fd_table = table;
  esp = 0;
  ebp = 0;
  cur_esp = 0;
  cur_ebp = 0;
  pid = pos 0;
  parent_pid = pos 0;
  ss0 = 0x18;
  esp0 = 0;
  arg = λ i. 0;
}

abbrev kernel : Kernel
kernel = record {
  console = console;
  fs = record {
    present = true;
    image = λ a. 0;
    inode_arr = 4096;
    data_arr = 8192;
    den_arr = 64;
    dir_offset = 0;
  };
  pcb = λ a. block;
  rtc_int_received = 0;
  paging = record { page_dir = λ i. 0x403003; page_table = λ i. 0 };
  tss_ss0 = 0x18;
  tss_esp0 = 0;
  ports = [];
  keys = [];
  interrupts = [];
  mask = λ p. 0xff;
  register_a = 0x26;
  register_b = 0x02;
  past_keys = λ i. 0;
}

console-Pages : Pages console
console-Pages = record { visible_is = omega arith; page = λ i lt. refl }

switch_display-screen_example :
    let k1 = (switch_display 1 2 kernel (pos 2)).0 in
    let k2 = (switch_display 3 4 k1 (pos 0)).0 in
    (k1.console.t_visible ≡ 2)
    × (k2.console.t_visible ≡ 0)
    × (k1.console.t ≡ terminal)
    × (k2.console.t ≡ terminal)
    × ((i : ℕ)
        → i < 4096
        → (on_screen k1.console i ≡ behind console 2 i)
          × (on_screen k2.console i ≡ on_screen console i))
switch_display-screen_example =
    switch_display-screen 1 2 3 4 2 kernel console-Pages (omega arith) (omega arith)

switch_display-registers_example :
    let (k1, registers) = switch_display 1 2 kernel (pos 2) in
    (registers ≡ some (0, 0))
    × (k1.tss_esp0 ≡ kernel_stack (pos 0))
    × (k1.paging ≡ map_program 0 kernel.paging)
    × ((switch_display 3 4 k1 (pos 0)).1 ≡ some (1, 2))
unfolding get_pcb
switch_display-registers_example =
    switch_display-registers 1 2 3 4 2 kernel (omega arith) (omega arith) (omega arith) refl refl
      (omega arith)
