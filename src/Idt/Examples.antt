-- ===== src/Idt/Examples.antt =====
-- The system call's vector, with handlers at 4 MB, and a page fault at the end of the screen.
use ece391_linux_os.Base.{arith}
use ece391_linux_os.Idt.{Handler, IdtDesc, initialize_idt, sys_call_handler_link}
use ece391_linux_os.Idt.Vectors.{Gate, initialize_idt-Gate}
use ece391_linux_os.Base.{ℕ, Bytes, pos}
use ece391_linux_os.Console.{Console, Terminal}
use ece391_linux_os.Console.Screen.{InScreen}

abbrev address : Handler → ℕ
address h = 0x401234

abbrev empty : ℕ → IdtDesc
empty v = record {
  offset_15_00 = 0;
  seg_selector = 0;
  reserved4 = 0;
  reserved3 = 0;
  reserved2 = 0;
  reserved1 = 0;
  size = 0;
  reserved0 = 0;
  dpl = 0;
  present = 0;
  offset_31_16 = 0;
}

initialize_idt-Gate_example :
    Gate address sys_call_handler_link 3 (initialize_idt address empty 0x80)
initialize_idt-Gate_example =
    initialize_idt-Gate address empty 0x80 (omega arith) (λ h. omega arith)

abbrev memory : Bytes
memory a = 0

abbrev terminal : Terminal
terminal = record {
  screen_x = 79;
  screen_y = 24;
  video_mem = 0xb9000;
  buffer = memory;
  buffer_idx = 126;
  process_ct = pos 1;
  running_process = pos 0;
  shell_flag = pos 0;
}

abbrev console : Console
console = record {
  t = λ i. terminal;
  t_visible = 0;
  mem = memory;
  cursor_low = 0;
  cursor_high = 0;
  caps_lock_flag = 0;
  shift_flag = 0;
  alt_flag = 0;
  ctrl_flag = 0;
  enter_flag = λ i. 0;
}

console-InScreen : InScreen console
console-InScreen = omega arith
