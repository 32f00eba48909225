-- ===== src/Command.antt =====
-- How `execute` of student-distrib/system_calls.c takes a command line apart, into the name of the
-- program and its arguments. The indices are `uint8_t`.
pub mod Scan
pub mod Parse
mod Examples
use ece391_linux_os.Base.{
  ℕ, zero, suc, ◌+◌, ◌-◌, ◌%◌, Bool, true, false, Option, none, some, Bytes, update, ◌==◌, ltb, leb,
  ◌&&◌, ◌||◌, if◌then◌else◌,
}

abbrev pub cmd_max_len : ℕ
cmd_max_len = 32

abbrev pub max_kbuff_len : ℕ
max_kbuff_len = 128

-- The three loops over the command, from index `i` on: past the spaces, to the end of a word, and to
-- the end of the line. After 256 rounds an index is back where it was, so that `none` is a loop
-- that does not end.
pub skip_spaces : ℕ → Bytes → ℕ → Option ℕ
skip_spaces zero command i = none
skip_spaces (suc rounds) command i =
    let rest = skip_spaces rounds command ((i + 1) % 256) in
    if command i == b' ' then rest else some i

pub word_end : ℕ → Bytes → ℕ → Option ℕ
word_end zero command i = none
word_end (suc rounds) command i =
    let rest = word_end rounds command ((i + 1) % 256) in
    if command i == b' ' || (command i == 0 || command i == 10) then some i else rest

pub line_end : ℕ → Bytes → ℕ → Option ℕ
line_end zero command i = none
line_end (suc rounds) command i =
    let rest = line_end rounds command ((i + 1) % 256) in
    if command i == 0 || command i == 10 then some i else rest

-- `for(i = from; i < to; i++) dest[i - from] = command[i]`
pub copy_chars : ℕ → Bytes → Bytes → ℕ → ℕ → Bytes
copy_chars zero dest command from i = dest
copy_chars (suc rounds) dest command from i =
    copy_chars rounds (update dest (i - from) (command i)) command from (i + 1)

-- The result: the line is refused; `exec` and `argb`; or a write outside `argb`, which has 33 bytes.
pub data Parsed : Type 0 where
  refused : Parsed
  parsed : Bytes → Bytes → Parsed
  overrun : Parsed

abbrev is_grep : Bytes → Bytes → Bool
is_grep exec argb =
    argb 0 == 0 && (exec 0 == b'g' && (exec 1 == b'r' && (exec 2 == b'e' && exec 3 == b'p')))

-- From the end of the name on; `exec` has the name.
parse_arguments : Bytes → Bytes → Bytes → ℕ → Option Parsed
parse_arguments command exec argb name_end = elim (skip_spaces 256 command name_end) [
  | none ↦ none
  | some cmd_idx ↦ elim (line_end 256 command cmd_idx) [
    | none ↦ none
    | some arg_idx ↦
        let args = copy_chars (arg_idx - cmd_idx) argb command cmd_idx cmd_idx in
        let args' = update args (arg_idx - cmd_idx) 0 in
        some (
          if ltb max_kbuff_len arg_idx
          then refused
          else if ltb arg_idx cmd_idx || ltb cmd_max_len (arg_idx - cmd_idx)
          then overrun
          else if is_grep exec args'
          then refused
          else parsed exec args')
  ]
]

-- `exec` and `argb` are what the two arrays hold before. The terminator of the name goes to
-- `exec[cmd_idx]`, also where spaces stand before the name.
pub parse_command : Bytes → Bytes → Bytes → Option Parsed
unfolding parse_arguments
parse_command command exec argb = elim (skip_spaces 256 command 0) [
  | none ↦ none
  | some cmd_start ↦ elim (word_end 256 command cmd_start) [
    | none ↦ none
    | some cmd_idx ↦
        let name = copy_chars (cmd_idx - cmd_start) exec command cmd_start cmd_start in
        let rest = parse_arguments command (update name cmd_idx 0) argb cmd_idx in
        if ltb cmd_max_len cmd_idx then some refused else rest
  ]
]
