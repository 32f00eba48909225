-- ===== src/Syscalls/Examples.antt =====
-- The calls of a process that has `sh` for its arguments, an open file at no descriptor but the
-- first two, and an image without entries.
use ece391_linux_os.Base.{
  ℕ, ◌+◌, ◌-◌, ◌<◌, ◌≤◌, ◌≡◌, ◌≢◌, ◌⊎◌, refl, arith, [], true, some, Bytes, update, ◌==◌, ltb,
  if◌then◌else◌, ℤ, pos, minus_one,
}
use ece391_linux_os.CLib.Str.Laws.{IsString}
use ece391_linux_os.Process.{get_pcb, FileDesc, Pcb, std_in, std_out, fops_rtc}
use ece391_linux_os.FileSys.{Dentry, u32_at}
use ece391_linux_os.Console.{Console, Terminal}
use ece391_linux_os.Paging.Walk.{translate}
use ece391_linux_os.Syscalls.{
  Kernel, running, fd_table, set_fd_table, type_ops, sys_open, close, getargs, vidmap,
}
use ece391_linux_os.Syscalls.Descriptors.{Opens, OpenOutcome, sys_open-OpenOutcome, close-Opens}
use ece391_linux_os.Syscalls.Results.{arguments, getargs-arguments, vidmap-translate}

abbrev text : Bytes
text a = if a == 0 then b's' else if a == 1 then b'h' else 0

text-IsString : IsString text 2
text-IsString = record { chars = λ i lt. ground arith; stop = refl }

abbrev terminal : Terminal
terminal = record {
  screen_x = 0;
  screen_y = 0;
  video_mem = 0xb9000;
  buffer = λ i. 0;
  buffer_idx = 0;
  process_ct = pos 1;
  running_process = pos 0;
  shell_flag = pos 0;
}

abbrev console : Console
console = record {
  t = λ i. terminal;
  t_visible = 0;
  mem = λ a. 0;
  cursor_low = 0;
  cursor_high = 0;
  caps_lock_flag = 0;
  shift_flag = 0;
  alt_flag = 0;
  ctrl_flag = 0;
  enter_flag = λ i. 0;
}

abbrev table : ℕ → FileDesc
table i = record {
  fops_ptr = if i == 0 then std_in else std_out;
  inode = 0;
  file_pos = 0;
  flags = if ltb i 2 then 1 else 0;
}

abbrev block : Pcb
block = record {
  fd_table = table;
  esp = 0;
  ebp = 0;
  cur_esp = 0;
  cur_ebp = 0;
  pid = pos 0;
  parent_pid = pos 0;
  ss0 = 0x18;
  esp0 = 0;
  arg = text;
}

abbrev kernel : Kernel
kernel = record {
  console = console;
  fs = record {
    present = true;
    image = λ a. 0;
    inode_arr = 4096;
    data_arr = 8192;
    den_arr = 64;
    dir_offset = 0;
  };
  pcb = λ a. block;
  rtc_int_received = 0;
  paging = record { page_dir = λ i. 0x403003; page_table = λ i. 0 };
  tss_ss0 = 0x18;
  tss_esp0 = 0;
  ports = [];
  keys = [];
  interrupts = [];
  mask = λ p. 0xff;
  register_a = 0x26;
  register_b = 0x02;
  past_keys = λ i. 0;
}

abbrev clock : Dentry
clock = record { file_name = text; file_type = 0; inode = 0 }

abbrev kernel_opened : Kernel
kernel_opened =
    set_fd_table kernel
      (update table 2 (record { fops_ptr = fops_rtc; inode = 0; file_pos = 0; flags = 1 }))

kernel_opened-Opens : Opens kernel clock kernel_opened 2
unfolding type_ops get_pcb
kernel_opened-Opens = record {
  bounds = (omega arith, omega arith);
  was_free = refl;
  lowest = λ i le lt. absurd (omega arith);
  kind = refl;
  at_start = refl;
  in_use = refl;
  same = λ i ne. ground arith;
  others = λ a ne. ground arith;
  same_console = refl;
}

sys_open-OpenOutcome_example :
    (r : ℤ × Kernel) × (sys_open 9 kernel (λ a. text (a - 5)) 5 ≡ some r)
    × OpenOutcome kernel (λ a. text (a - 5)) 5 2 r
sys_open-OpenOutcome_example =
    sys_open-OpenOutcome 9 kernel (λ a. text (a - 5)) 5 2
      (record { chars = λ i lt. ground arith; stop = refl }) (omega arith)

close-Opens_example :
    let (ret, k2) = close kernel_opened (pos 2) in
    (ret ≡ pos 0)
    × ((fd_table k2 2).flags ≡ 0)
    × (close k2 (pos 2) ≡ (minus_one, k2))
    × ((i : ℕ) → i ≢ 2 → fd_table k2 i ≡ fd_table kernel i)
    × ((a : ℕ) → a ≢ running kernel → k2.pcb a ≡ kernel.pcb a)
close-Opens_example = close-Opens kernel kernel_opened clock 2 kernel_opened-Opens

getargs-arguments_example :
    (((◌≡◌ {A = ℕ} 100 0) ⊎ (5 ≤ 2)) → getargs 9 kernel text 100 (pos 5) ≡ some (minus_one, text))
    × (◌≢◌ {A = ℕ} 100 0
        → 2 < 5
        → (m' : Bytes) × (getargs 9 kernel text 100 (pos 5) ≡ some (pos 0, m'))
          × ((a : ℕ) → m' a ≡ arguments text 100 text 2 5 a))
getargs-arguments_example =
    getargs-arguments 9 kernel text 100 2 (pos 5) text-IsString (omega arith)

vidmap-translate_example :
    let (ret, k', m') = vidmap 0x403000 kernel text 0x8048000 in
    (0x8000000 ≤ 0x8048000
      → 0x8048000 + 4 ≤ 0x8400000
      → (ret ≡ pos 0)
        × (translate 0x403000 k'.paging (u32_at m' 0x8048000 + 16)
            ≡ some (record { address = 0xb8010; user = true })))
    × ((0x8048000 < 0x8000000) ⊎ (0x8400000 < 0x8048000 + 4)
        → vidmap 0x403000 kernel text 0x8048000 ≡ (minus_one, kernel, text))
vidmap-translate_example =
    vidmap-translate 0x403000 16 kernel text 0x8048000 refl refl (omega arith)
