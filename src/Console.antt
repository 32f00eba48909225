-- ===== src/Console.antt =====
-- The terminals of student-distrib/terminal.h and terminal.c, and the screen functions of
-- student-distrib/lib.c that write on the visible one. `mem` is physical memory, where the text
-- screen starts at `vid_mem`, two bytes to a character.
pub mod Video
pub mod Screen
pub mod Write
pub mod Print
pub mod Processes
pub mod Rounds
pub mod Start
mod Examples
use ece391_linux_os.Base.{
  ℕ, zero, suc, ◌+◌, ◌-◌, ◌*◌, ◌/◌, ◌%◌, Bytes, update, ◌==◌, ltb, leb, ◌||◌, ◌&&◌, if◌then◌else◌,
  true, false, ℤ, pos, negsuc, minus_one, add32, to_nat, is_neg,
}
use ece391_linux_os.CLib.Mem.{memmove}

abbrev pub num_cols : ℕ
num_cols = 80

abbrev pub num_rows : ℕ
num_rows = 25

abbrev pub attrib : ℕ
attrib = 7

abbrev pub vid_mem : ℕ
vid_mem = 0xb8000

abbrev pub buf_size : ℕ
buf_size = 128

abbrev pub terminal_count : ℕ
terminal_count = 3

pub record Terminal : Type 0 where
  pub screen_x : ℕ
  pub screen_y : ℕ
  pub video_mem : ℕ
  pub buffer : Bytes
  pub buffer_idx : ℕ
  pub process_ct : ℤ
  pub running_process : ℤ
  pub shell_flag : ℤ

-- `cursor_low` and `cursor_high` are the registers of the VGA controller that hold the cursor's
-- place; the flags are those of student-distrib/keyboard.c.
pub record Console : Type 0 where
  pub t : ℕ → Terminal
  pub t_visible : ℕ
  pub mem : Bytes
  pub cursor_low : ℕ
  pub cursor_high : ℕ
  pub caps_lock_flag : ℕ
  pub shift_flag : ℕ
  pub alt_flag : ℕ
  pub ctrl_flag : ℕ
  pub enter_flag : ℕ → ℕ

-- `t[t_visible]`
abbrev pub visible : Console → Terminal
visible c = c.t c.t_visible

abbrev pub set_visible : Console → Terminal → Console
set_visible c v = record c { t = update c.t c.t_visible v }

abbrev pub set_xy : Console → ℕ → ℕ → Console
set_xy c x y = set_visible c (record (visible c) { screen_x = x; screen_y = y })

-- The two bytes of cell `i`.
abbrev pub put_cell : Bytes → ℕ → ℕ → Bytes
put_cell m i ch = update (update m (vid_mem + 2 * i) ch) (vid_mem + 2 * i + 1) attrib

-- The loop that clears the cells from `i` on.
pub blank_cells : ℕ → Bytes → ℕ → Bytes
blank_cells zero m i = m
blank_cells (suc rounds) m i = blank_cells rounds (put_cell m i b' ') (i + 1)

pub clear : Bytes → Bytes
clear m = blank_cells (num_rows * num_cols) m 0

pub scroll_up : Bytes → Bytes
scroll_up m =
    blank_cells num_cols
      (memmove m vid_mem (vid_mem + num_cols * 2) (num_cols * (num_rows - 1) * 2))
      ((num_rows - 1) * num_cols)

-- `position` is a `uint16_t`.
unfoldable pub update_cursor : Console → Console
update_cursor c =
    let position = ((visible c).screen_y * num_cols + (visible c).screen_x) % 65536 in
    record c { cursor_low = position % 256; cursor_high = position / 256 % 256 }

-- The end of `putc`: wrap at the last column, and the cursor.
pub wrap_line : Console → Console
wrap_line c =
    let v = visible c in
    if v.screen_x == num_cols && ltb v.screen_y (num_rows - 1)
    then set_xy c 0 (add32 v.screen_y 1)
    else if v.screen_x == num_cols && leb (num_rows - 1) v.screen_y
    then set_xy (record c { mem = scroll_up c.mem }) 0 (add32 v.screen_y 1 - 1)
    else c

pub put_newline : Console → Console
put_newline c =
    let y = add32 (visible c).screen_y 1 in
    if leb num_rows y then set_xy (record c { mem = scroll_up c.mem }) 0 (y - 1) else set_xy c 0 y

pub put_char : Console → ℕ → Console
put_char c ch =
    let x = (visible c).screen_x in
    let y = (visible c).screen_y in
    set_xy (record c { mem = put_cell c.mem (num_cols * y + x) ch }) (add32 x 1) y

pub put_backspace : Console → ℕ → ℕ → Console
put_backspace c x y = set_xy (record c { mem = put_cell c.mem (num_cols * y + x) b' ' }) x y

-- A backspace at the first cell of the screen returns before the cursor is set.
pub putc : Console → ℕ → Console
putc c ch =
    let x = (visible c).screen_x in
    let y = (visible c).screen_y in
    if ch == 0
    then c
    else if ch == 10 || ch == 13
    then update_cursor (wrap_line (put_newline c))
    else if ch == 8
    then (if x == 0
        then (if y == 0
            then c
            else update_cursor (wrap_line (put_backspace c (num_cols - 1) (y - 1))))
        else update_cursor (wrap_line (put_backspace c (x - 1) y)))
    else update_cursor (wrap_line (put_char c ch))

-- the loops of `terminal_write` and `clear_buffer`
pub put_bytes : ℕ → Console → Bytes → ℕ → Console
put_bytes zero c buf i = c
put_bytes (suc rounds) c buf i = put_bytes rounds (putc c (buf i)) buf (i + 1)

-- `buf` is an address of the memory `m`.
pub terminal_write : Console → Bytes → ℕ → ℤ → ℤ × Console
terminal_write c m buf nbytes =
    if buf == 0 || is_neg nbytes
    then (minus_one, c)
    else (nbytes, put_bytes (to_nat nbytes) c m buf)

unfoldable pub zero_buffer : ℕ → Bytes → ℕ → Bytes
zero_buffer zero b i = b
zero_buffer (suc rounds) b i = zero_buffer rounds (update b i 0) (i + 1)

unfoldable pub clear_buffer : Console → Console
clear_buffer c =
    set_visible c
      (record (visible c) { buffer = zero_buffer buf_size (visible c).buffer 0; buffer_idx = 0 })

unfoldable pub terminal_reset : Console → Console
terminal_reset c =
    let c1 = set_xy c 0 0 in update_cursor (clear_buffer (record c1 { mem = clear c1.mem }))

-- The loop of `terminal_init` over the terminals, from terminal `i` on.
pub init_terminals : ℕ → (ℕ → Terminal) → ℕ → ℕ → Terminal
init_terminals zero t i = t
init_terminals (suc rounds) t i =
    init_terminals rounds
      (update t i (record (t i) {
        running_process = minus_one;
        shell_flag = minus_one;
        video_mem = vid_mem + (i + 1) * 4096;
      }))
      (i + 1)

pub terminal_init : Console → Console
terminal_init c = terminal_reset (record c { t = init_terminals terminal_count c.t 0 })

pub terminal_open : Console → ℤ × Console
terminal_open c = (pos 0, terminal_init c)

pub terminal_close : Console → ℤ × Console
terminal_close c = (minus_one, clear_buffer c)
