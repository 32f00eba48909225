-- ===== src/Keyboard.antt =====
-- The keyboard's interrupt handler and the line buffer that it fills, student-distrib/keyboard.c,
-- and `terminal_read` of student-distrib/terminal.c, which waits for a line.
pub mod Cases
pub mod Line
pub mod Terminals
pub mod Typing
pub mod Reading
mod Examples
use ece391_linux_os.Base.{
  ℕ, zero, suc, ◌+◌, ◌-◌, ◌*◌, ◌/◌, ◌%◌, List, [], ◌∷◌, Bool, true, false, Option, none, some,
  Bytes, update, ◌==◌, ltb, leb, ◌&&◌, ◌||◌, if◌then◌else◌, ℤ, pos, negsuc, minus_one, is_neg,
  to_nat,
}
use ece391_linux_os.Pic.{Out, enable_irq}
use ece391_linux_os.Console.{
  Console, Terminal, visible, set_visible, putc, terminal_reset, clear_buffer, buf_size,
}

get_or : List ℕ → ℕ → ℕ → ℕ
get_or [] i d = d
get_or (x ∷ xs) zero d = x
get_or (x ∷ xs) (suc i) d = get_or xs i d

-- The four rows of `scan_code_to_ascii`, each without the zeros at its end.
abbrev plain_keys : List ℕ
plain_keys =
    0 ∷ 0 ∷ b'1' ∷ b'2' ∷ b'3' ∷ b'4' ∷ b'5' ∷ b'6' ∷ b'7' ∷ b'8' ∷ b'9' ∷ b'0' ∷ b'-' ∷ b'=' ∷ 0
    ∷ 0 ∷ b'q' ∷ b'w' ∷ b'e' ∷ b'r' ∷ b't' ∷ b'y' ∷ b'u' ∷ b'i' ∷ b'o' ∷ b'p' ∷ b'[' ∷ b']' ∷ 0 ∷ 0
    ∷ b'a' ∷ b's' ∷ b'd' ∷ b'f' ∷ b'g' ∷ b'h' ∷ b'j' ∷ b'k' ∷ b'l' ∷ b';' ∷ 39 ∷ b'`' ∷ 0 ∷ 92
    ∷ b'z' ∷ b'x' ∷ b'c' ∷ b'v' ∷ b'b' ∷ b'n' ∷ b'm' ∷ b',' ∷ b'.' ∷ b'/' ∷ 0 ∷ b'*' ∷ 0 ∷ b' ' ∷ 0
    ∷ 0 ∷ 0 ∷ 0 ∷ 0 ∷ 0 ∷ 0 ∷ 0 ∷ 0 ∷ 0 ∷ 0 ∷ 0 ∷ 0 ∷ 0 ∷ 0 ∷ 0 ∷ b'-' ∷ 0 ∷ 0 ∷ 0 ∷ b'+' ∷ []

abbrev shift_keys : List ℕ
shift_keys =
    0 ∷ 0 ∷ b'!' ∷ b'@' ∷ b'#' ∷ b'$' ∷ b'%' ∷ b'^' ∷ b'&' ∷ b'*' ∷ b'(' ∷ b')' ∷ b'_' ∷ b'+' ∷ 0
    ∷ 0 ∷ b'Q' ∷ b'W' ∷ b'E' ∷ b'R' ∷ b'T' ∷ b'Y' ∷ b'U' ∷ b'I' ∷ b'O' ∷ b'P' ∷ b'{' ∷ b'}' ∷ 0 ∷ 0
    ∷ b'A' ∷ b'S' ∷ b'D' ∷ b'F' ∷ b'G' ∷ b'H' ∷ b'J' ∷ b'K' ∷ b'L' ∷ b':' ∷ 34 ∷ b'~' ∷ 0 ∷ b'|'
    ∷ b'Z' ∷ b'X' ∷ b'C' ∷ b'V' ∷ b'B' ∷ b'N' ∷ b'M' ∷ b'<' ∷ b'>' ∷ b'?' ∷ 0 ∷ b'*' ∷ 0 ∷ b' ' ∷ 0
    ∷ 0 ∷ 0 ∷ 0 ∷ 0 ∷ 0 ∷ 0 ∷ 0 ∷ 0 ∷ 0 ∷ 0 ∷ 0 ∷ 0 ∷ 0 ∷ 0 ∷ 0 ∷ b'-' ∷ 0 ∷ 0 ∷ 0 ∷ b'+' ∷ []

abbrev caps_keys : List ℕ
caps_keys =
    0 ∷ 0 ∷ b'1' ∷ b'2' ∷ b'3' ∷ b'4' ∷ b'5' ∷ b'6' ∷ b'7' ∷ b'8' ∷ b'9' ∷ b'0' ∷ b'-' ∷ b'=' ∷ 0
    ∷ 0 ∷ b'Q' ∷ b'W' ∷ b'E' ∷ b'R' ∷ b'T' ∷ b'Y' ∷ b'U' ∷ b'I' ∷ b'O' ∷ b'P' ∷ b'[' ∷ b']' ∷ 0 ∷ 0
    ∷ b'A' ∷ b'S' ∷ b'D' ∷ b'F' ∷ b'G' ∷ b'H' ∷ b'J' ∷ b'K' ∷ b'L' ∷ b';' ∷ 39 ∷ b'`' ∷ 0 ∷ 92
    ∷ b'Z' ∷ b'X' ∷ b'C' ∷ b'V' ∷ b'B' ∷ b'N' ∷ b'M' ∷ b',' ∷ b'.' ∷ b'/' ∷ 0 ∷ b'*' ∷ 0 ∷ b' ' ∷ 0
    ∷ 0 ∷ 0 ∷ 0 ∷ 0 ∷ 0 ∷ 0 ∷ 0 ∷ 0 ∷ 0 ∷ 0 ∷ 0 ∷ 0 ∷ 0 ∷ 0 ∷ 0 ∷ b'-' ∷ 0 ∷ 0 ∷ 0 ∷ b'+' ∷ []

abbrev caps_shift_keys : List ℕ
caps_shift_keys =
    0 ∷ 0 ∷ b'!' ∷ b'@' ∷ b'#' ∷ b'$' ∷ b'%' ∷ b'^' ∷ b'&' ∷ b'*' ∷ b'(' ∷ b')' ∷ b'_' ∷ b'+' ∷ 0
    ∷ 0 ∷ b'q' ∷ b'w' ∷ b'e' ∷ b'r' ∷ b't' ∷ b'y' ∷ b'u' ∷ b'i' ∷ b'o' ∷ b'p' ∷ b'{' ∷ b'}' ∷ 0 ∷ 0
    ∷ b'a' ∷ b's' ∷ b'd' ∷ b'f' ∷ b'g' ∷ b'h' ∷ b'j' ∷ b'k' ∷ b'l' ∷ b':' ∷ 34 ∷ b'~' ∷ 0 ∷ b'|'
    ∷ b'z' ∷ b'x' ∷ b'c' ∷ b'v' ∷ b'b' ∷ b'n' ∷ b'm' ∷ b'<' ∷ b'>' ∷ b'?' ∷ 0 ∷ b'*' ∷ 0 ∷ b' ' ∷ 0
    ∷ 0 ∷ 0 ∷ 0 ∷ 0 ∷ 0 ∷ 0 ∷ 0 ∷ 0 ∷ 0 ∷ 0 ∷ 0 ∷ 0 ∷ 0 ∷ 0 ∷ 0 ∷ b'-' ∷ 0 ∷ 0 ∷ 0 ∷ b'+' ∷ []

-- `scan_code_to_ascii[row][scan_code]`. A release code reads on into the next row, and behind the last
-- one what `past` says stands there in memory.
unfoldable pub key_ascii : (ℕ → ℕ) → ℕ → ℕ → ℕ
unfolding get_or
key_ascii past row scan_code =
    let i = row * 128 + scan_code in
    let r = i / 128 in
    if r == 0
    then get_or plain_keys (i % 128) 0
    else if r == 1
    then get_or shift_keys (i % 128) 0
    else if r == 2
    then get_or caps_keys (i % 128) 0
    else if r == 3
    then get_or caps_shift_keys (i % 128) 0
    else past (i - 512)

-- What the handler goes on to: nothing, or another terminal, which its `switch_display` shows and
-- in which it starts a shell if there is none yet.
pub data KeyResult : Type 0 where
  done : Console → KeyResult
  switch_to : ℕ → Console → KeyResult

pub press_enter : Console → Console
press_enter c = putc (record c { enter_flag = update c.enter_flag c.t_visible 1 }) 10

pub press_backspace : Console → Console
press_backspace c =
    let v = visible c in
    if v.buffer_idx == 0
    then c
    else putc
        (set_visible c (record v {
          buffer_idx = v.buffer_idx - 1;
          buffer = update v.buffer (v.buffer_idx - 1) 0;
        }))
        8

-- The line buffer with one more character; a line that is one short of full gets a newline in
-- place of it, and a full one starts over.
pub append_key : Terminal → ℕ → Terminal
append_key v ascii =
    let i = v.buffer_idx in
    if ltb i (buf_size - 2)
    then record v { buffer_idx = i + 1; buffer = update (update v.buffer i ascii) (i + 1) 0 }
    else if i == buf_size - 2
    then record v { buffer_idx = i + 1; buffer = update (update v.buffer i 10) (i + 1) 0 }
    else record v { buffer_idx = 0 }

-- The part of the handler behind the special keys.
pub other_key : (ℕ → ℕ) → Console → ℕ → KeyResult
other_key past c scan_code =
    let ascii = key_ascii past (c.caps_lock_flag * 2 + c.shift_flag) scan_code in
    if c.alt_flag == 0
    then (if (if c.ctrl_flag == 0 then false else true) && (ascii == b'L' || ascii == b'l')
        then done (terminal_reset c)
        else if (if ascii == 0 then false else true) && ltb scan_code 0x80
        then done (putc (set_visible c (append_key (visible c) ascii)) ascii)
        else done c)
    else if scan_code == 0x3b
    then switch_to 0 c
    else if scan_code == 0x3c
    then switch_to 1 c
    else if scan_code == 0x3d
    then switch_to 2 c
    else done c

-- The handler, from the scan code that it has read on.
pub keyboard_handler : (ℕ → ℕ) → Console → ℕ → KeyResult
keyboard_handler past c scan_code =
    if scan_code == 0x3a
    then done (record c { caps_lock_flag = if c.caps_lock_flag == 0 then 1 else 0 })
    else if scan_code == 0x2a || scan_code == 0x36
    then done (record c { shift_flag = 1 })
    else if scan_code == 0xaa || scan_code == 0xb6
    then done (record c { shift_flag = 0 })
    else if scan_code == 0x38
    then done (record c { alt_flag = 1 })
    else if scan_code == 0xb8
    then done (record c { alt_flag = 0 })
    else if scan_code == 0x1d
    then done (record c { ctrl_flag = 1 })
    else if scan_code == 0x9d
    then done (record c { ctrl_flag = 0 })
    else if scan_code == 0x1c
    then done (press_enter c)
    else if scan_code == 0x0e
    then done (press_backspace c)
    else other_key past c scan_code

-- The loop over the terminals clears the flag of the visible one in each of its three rounds. `inb`
-- is what the interrupt controllers' ports answer.
pub keyboard_init : (ℕ → ℕ) → Console → Console × Out
keyboard_init inb c =
    let clear_flag : (ℕ → ℕ) → ℕ → ℕ = λ flags. update flags c.t_visible 0 in
    (
      record c {
        caps_lock_flag = 0;
        shift_flag = 0;
        alt_flag = 0;
        ctrl_flag = 0;
        enter_flag = clear_flag (clear_flag (clear_flag c.enter_flag));
      },
      enable_irq inb 1,
    )

pub get_enter_flag : Console → ℕ
get_enter_flag c = c.enter_flag c.t_visible

pub release_enter : Console → Console
release_enter c = record c { enter_flag = update c.enter_flag c.t_visible 0 }

-- The wait of `terminal_read`, over the scan codes that the keyboard sends in it. `none` is a wait
-- that they do not end, or in which Alt and a function key ask for a terminal.
pub wait_line : (ℕ → ℕ) → List ℕ → Console → Option (List ℕ × Console)
wait_line past [] c =
    if ltb (visible c).buffer_idx (buf_size - 1) && get_enter_flag c == 0
    then none
    else some ([], c)
wait_line past (k ∷ ks) c =
    let rest : Option (List ℕ × Console) = elim (keyboard_handler past c k) [
      | done c' ↦ wait_line past ks c'
      | switch_to tid c' ↦ none
    ] in
    if ltb (visible c).buffer_idx (buf_size - 1) && get_enter_flag c == 0
    then rest
    else some (k ∷ ks, c)

-- The copy loop.
pub copy_line : ℕ → Bytes → ℕ → Bytes → ℕ → Bytes
copy_line zero m buf line i = m
copy_line (suc rounds) m buf line i =
    copy_line rounds (update m (buf + i) (line i)) buf line (i + 1)

pub terminal_read :
    (ℕ → ℕ) → List ℕ → Console → Bytes → ℕ → ℤ → Option (ℤ × Console × Bytes × List ℕ)
terminal_read past keys c m buf nbytes =
    if buf == 0 || is_neg nbytes
    then some (minus_one, c, m, keys)
    else elim (wait_line past keys (clear_buffer c)) [
      | none ↦ none
      | some (later, c') ↦
          let v = visible c' in
          let size = if ltb v.buffer_idx (to_nat nbytes) then v.buffer_idx else to_nat nbytes in
          some (pos size, clear_buffer (release_enter c'), copy_line size m buf v.buffer 0, later)
    ]
