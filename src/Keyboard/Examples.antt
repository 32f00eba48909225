-- ===== src/Keyboard/Examples.antt =====
-- The key for `a` at the last column of the last row, with a line one short of full.
use ece391_linux_os.Base.{ℕ, arith, Bytes, pos, List, [], ◌∷◌}
use ece391_linux_os.Console.{Console, Terminal}
use ece391_linux_os.Keyboard.{keyboard_handler}
use ece391_linux_os.Keyboard.Line.{IsValid, KeyKeeps, keyboard_handler-KeyKeeps}
use ece391_linux_os.Keyboard.Cases.{console_after}

abbrev memory : Bytes
memory a = 0

abbrev terminal : Terminal
terminal = record {
  screen_x = 79;
  screen_y = 24;
  video_mem = 0xb9000;
  buffer = memory;
  buffer_idx = 126;
  process_ct = pos 1;
  running_process = pos 0;
  shell_flag = pos 0;
}

abbrev console : Console
console = record {
  t = λ i. terminal;
  t_visible = 0;
  mem = memory;
  cursor_low = 0;
  cursor_high = 0;
  caps_lock_flag = 0;
  shift_flag = 0;
  alt_flag = 0;
  ctrl_flag = 0;
  enter_flag = λ i. 0;
}

console-IsValid : IsValid console
console-IsValid = record { screen = omega arith; line = omega arith }

keyboard_handler-KeyKeeps_example :
    KeyKeeps console (console_after (keyboard_handler (λ i. 0) console 0x1e))
keyboard_handler-KeyKeeps_example = keyboard_handler-KeyKeeps (λ i. 0) console 0x1e console-IsValid

-- The keys for `a`, a backspace and the key for `b` on an idle terminal.
abbrev keys_ab : List ℕ
keys_ab = 0x1e ∷ 0x0e ∷ 0x30 ∷ []
