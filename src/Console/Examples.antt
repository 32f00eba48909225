-- ===== src/Console/Examples.antt =====
-- The theorems on the console at a screen with the cursor in row 3.
use ece391_linux_os.Base.{
  ℕ, ◌+◌, ◌*◌, ◌≡◌, ◌≢◌, arith, Bytes, ◌==◌, ◌||◌, true, false, pos, minus_one,
}
use ece391_linux_os.Console.{Console, Terminal, putc, vid_mem, attrib, terminal_write}
use ece391_linux_os.CLib.Str.Laws.{IsString}
use ece391_linux_os.Base.{some, refl, if◌then◌else◌}
use ece391_linux_os.Console.{put_bytes}
use ece391_linux_os.Console.Print.{printf, puts}
use ece391_linux_os.Console.Print.Text.{printf-puts}
use ece391_linux_os.Console.Screen.{InScreen, Touched, putc-Touched}
use ece391_linux_os.Console.Write.{
  position, shown, putc-position, putc-putc_backspace, terminal_write-Touched,
}

abbrev memory : Bytes
memory a = 0

abbrev terminal : Terminal
terminal = record {
  screen_x = 7;
  screen_y = 3;
  video_mem = 0xb9000;
  buffer = memory;
  buffer_idx = 0;
  process_ct = pos 1;
  running_process = pos 0;
  shell_flag = pos 0;
}

abbrev console : Console
console = record {
  t = λ i. terminal;
  t_visible = 0;
  mem = memory;
  cursor_low = 0;
  cursor_high = 0;
  caps_lock_flag = 0;
  shift_flag = 0;
  alt_flag = 0;
  ctrl_flag = 0;
  enter_flag = λ i. 0;
}

console-InScreen : InScreen console
console-InScreen = omega arith

putc-Touched_example : Touched 79 console (putc console b'x')
putc-Touched_example = putc-Touched console b'x' console-InScreen

putc-position_example :
    let c' = putc console b'x' in
    (position c' ≡ 247 + 1)
    × (shown c' ≡ position c')
    × (c'.mem (vid_mem + 2 * 247) ≡ b'x')
    × (c'.mem (vid_mem + 2 * 247 + 1) ≡ attrib)
    × ((a : ℕ) → a ≢ vid_mem + 2 * 247 → a ≢ vid_mem + 2 * 247 + 1 → c'.mem a ≡ 0)
putc-position_example = putc-position console b'x' console-InScreen (omega arith) (omega arith)

putc-putc_backspace_example :
    let c' = putc (putc console b'x') 8 in
    (position c' ≡ 247)
    × (shown c' ≡ 247)
    × (c'.mem (vid_mem + 2 * 247) ≡ b' ')
    × (c'.mem (vid_mem + 2 * 247 + 1) ≡ attrib)
    × ((a : ℕ) → a ≢ vid_mem + 2 * 247 → a ≢ vid_mem + 2 * 247 + 1 → c'.mem a ≡ 0)
putc-putc_backspace_example =
    putc-putc_backspace console b'x' console-InScreen (omega arith) (omega arith)

terminal_write-Touched_example :
    ((1000 == 0 || false) ≡ true
      → terminal_write console memory 1000 (pos 5) ≡ (minus_one, console))
    × ((1000 == 0 || false) ≡ false → (terminal_write console memory 1000 (pos 5)).0 ≡ pos 5)
    × Touched 79 console (terminal_write console memory 1000 (pos 5)).1
terminal_write-Touched_example = terminal_write-Touched console memory 1000 (pos 5) console-InScreen

abbrev text : Bytes
text a = if a == 0 then b'h' else if a == 1 then b'i' else 0

text-IsString : IsString text 2
text-IsString = record { chars = λ i lt. ground arith; stop = refl }

printf-puts_example :
    (printf 9 memory memory text (λ i. 0) console ≡ some (put_bytes 2 console text 0, 2))
    × (puts 9 text console ≡ some (put_bytes 2 console text 0, 2))
    × Touched 79 console (put_bytes 2 console text 0)
printf-puts_example =
    printf-puts 9 2 memory memory text (λ i. 0) console console-InScreen text-IsString
      (λ i lt. ground arith) (omega arith)
