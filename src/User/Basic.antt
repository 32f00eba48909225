-- ===== src/User/Basic.antt =====
-- The programs of syscalls/ece391cat.c, ece391ls.c, ece391hello.c, ece391testprint.c and
-- ece391counter.c, and the shell of syscalls/ece391shell.c. The fuel is for the scans of strings
-- and for the rounds of the program's loop. A count that a call returns is -1 or not negative.
use ece391_linux_os.Base.{
  ℕ, zero, suc, ◌+◌, ◌-◌, Option, none, some, Bytes, update, ◌==◌, ltb, ◌||◌, ◌&&◌, if◌then◌else◌,
  ℤ, pos, minus_one, to_nat,
}
use ece391_linux_os.Boot.Text.{text}
use ece391_linux_os.User.{◌>>=◌, Calls, int_eq}
use ece391_linux_os.User.Support.{ece391_fdputs, ece391_strlen, ece391_strcmp, ece391_itoa}

abbrev pub program_bufsize : ℕ
program_bufsize = 1024

-- SBUFSIZE
abbrev pub name_bufsize : ℕ
name_bufsize = 33

-- `max`, by the character that is typed
abbrev count_limit : ℕ → ℕ
count_limit ch =
    if ch == b'0' then 100 else if ch == b'1' then 10000 else if ch == b'2' then 100000 else 0

-- The line that was read, ended: `cnt` characters, less a newline at the end.
unfoldable pub end_line : Bytes → ℕ → Bytes
end_line buf cnt =
    if ltb 0 cnt && buf (cnt - 1) == b'\n' then update buf (cnt - 1) 0 else update buf cnt 0

module _ {S : Type 0} where
  -- `ece391_fdputs` of a literal to the screen.
  abbrev pub print_text : Calls S → ℕ → S → Bytes → Option S
  print_text calls fuel s message = ece391_fdputs calls fuel s (pos 1) message 0

  -- A message, and the return from `main`.
  abbrev pub return_with : Calls S → ℕ → S → Bytes → ℤ → Option (ℤ × S)
  return_with calls fuel s message code = do s' ← print_text calls fuel s message; some (code, s')

  -- The loop of `main` in ece391cat.c.
  unfoldable pub cat_loop : ℕ → Calls S → ℕ → S → ℤ → Bytes → Option (ℤ × S)
  cat_loop zero calls scan s fd buf = none
  cat_loop (suc fuel) calls scan s fd buf = do
    (cnt, s', buf') ← calls.read_to s fd buf 0 (pos program_bufsize)
    if int_eq cnt (pos 0)
        then some (pos 0, s')
        else if int_eq cnt minus_one
        then return_with calls scan s' (text "file read failed\n") (pos 3)
        else do
          (written, s'') ← calls.write_from s' (pos 1) buf' 0 cnt
          let rest = cat_loop fuel calls scan s'' fd buf'
          if int_eq written minus_one then some (pos 3, s'') else rest

  unfoldable pub cat : Calls S → ℕ → S → Bytes → Option (ℤ × S)
  cat calls fuel s buf = do
    (got, buf') ← calls.arguments_to s buf (pos program_bufsize)
    if int_eq got (pos 0)
        then (do
          (fd, s') ← calls.open_named s buf'
          if int_eq fd minus_one
              then return_with calls fuel s' (text "file not found\n") (pos 2)
              else cat_loop fuel calls fuel s' fd buf')
        else return_with calls fuel s (text "could not read arguments\n") (pos 3)

  -- The loop of `main` in ece391ls.c.
  unfoldable pub ls_loop : ℕ → Calls S → ℕ → S → ℤ → Bytes → Option (ℤ × S)
  ls_loop zero calls scan s fd buf = none
  ls_loop (suc fuel) calls scan s fd buf = do
    (cnt, s', buf') ← calls.read_to s fd buf 0 (pos (name_bufsize - 1))
    if int_eq cnt (pos 0)
        then some (pos 0, s')
        else if int_eq cnt minus_one
        then return_with calls scan s' (text "directory entry read failed\n") (pos 3)
        else do
          let line = update buf' (to_nat cnt) b'\n'
          (written, s'') ← calls.write_from s' (pos 1) line 0 (pos (to_nat cnt + 1))
          let rest = ls_loop fuel calls scan s'' fd line
          if int_eq written minus_one then some (pos 3, s'') else rest

  unfoldable pub ls : Calls S → ℕ → S → Bytes → Option (ℤ × S)
  ls calls fuel s buf = do
    (fd, s') ← calls.open_named s (text ".")
    if int_eq fd minus_one
        then return_with calls fuel s' (text "directory open failed\n") (pos 2)
        else ls_loop fuel calls fuel s' fd buf

  unfoldable pub hello : Calls S → ℕ → S → Bytes → Option (ℤ × S)
  hello calls fuel s buf = do
    s1 ← print_text calls fuel s (text "Hi, what's your name? ")
    (cnt, s2, buf') ← calls.read_to s1 (pos 0) buf 0 (pos (program_bufsize - 1))
    if int_eq cnt minus_one
        then return_with calls fuel s2 (text "Can't read name from keyboard.\n") (pos 3)
        else do
          s3 ← print_text calls fuel s2 (text "Hello, ")
          s4 ← print_text calls fuel s3 (update buf' (to_nat cnt) 0)
          some (pos 0, s4)

  unfoldable pub testprint : Calls S → ℕ → S → Option (ℤ × S)
  testprint calls fuel s =
      return_with calls fuel s (text "Hello, if this ran, the program was correct. Yay!\n") (pos 0)

  -- The loop of `main` in ece391counter.c, with `max - i` rounds left.
  count_from : ℕ → Calls S → ℕ → S → Bytes → ℕ → Option S
  count_from zero calls fuel s buf i = some s
  count_from (suc rounds) calls fuel s buf i = do
    buf' ← ece391_itoa fuel (i + 1) buf 10
    s' ← print_text calls fuel s buf'
    s'' ← print_text calls fuel s' (text "\n")
    count_from rounds calls fuel s'' buf' (i + 1)

  pub counter : Calls S → ℕ → S → Bytes → Option (ℤ × S)
  unfolding count_from
  counter calls fuel s buf = do
    let question = text "Enter the Test Number: (0): 100, (1): 10000, (2): 100000\n"
    s1 ← print_text calls fuel s question
    (cnt, s2, read) ← calls.read_to s1 (pos 0) buf 0 (pos (program_bufsize - 1))
    if int_eq cnt minus_one
        then return_with calls fuel s2 (text "Can't read the number from keyboard.\n") (pos 3)
        else do
          let buf' = update read (to_nat cnt) 0
          len ← ece391_strlen fuel buf'
          if ltb 2 len || len == 2 && (ltb (buf' 0) b'0' || ltb b'2' (buf' 0))
              then return_with calls fuel s2 (text "Wrong Choice!\n") (pos 0)
              else do s3 ← count_from (count_limit (buf' 0)) calls fuel s2 buf' 0; some (pos 0, s3)

  -- What the shell prints for the value that `execute` returns.
  pub report_status : Calls S → ℕ → S → ℤ → Option S
  report_status calls fuel s rval =
      if int_eq rval minus_one
      then print_text calls fuel s (text "no such command\n")
      else if int_eq rval (pos 256)
      then print_text calls fuel s (text "program terminated by exception\n")
      else if int_eq rval (pos 0)
      then some s
      else print_text calls fuel s (text "program terminated abnormally\n")

  -- The loop of `main` in ece391shell.c.
  unfoldable pub shell_loop : ℕ → Calls S → ℕ → S → Bytes → Option (ℤ × S)
  shell_loop zero calls scan s buf = none
  shell_loop (suc fuel) calls scan s buf = do
    s1 ← print_text calls scan s (text "391OS> ")
    (cnt, s2, read) ← calls.read_to s1 (pos 0) buf 0 (pos (program_bufsize - 1))
    if int_eq cnt minus_one
        then return_with calls scan s2 (text "read from keyboard failed\n") (pos 3)
        else do
          let buf' = end_line read (to_nat cnt)
          is_exit ← ece391_strcmp scan buf' (text "exit")
          let next = shell_loop fuel calls scan s2 buf'
          if int_eq is_exit (pos 0) then some (pos 0, s2) else if buf' 0 == 0 then next else do
            (rval, s3) ← calls.execute s2 buf'
            s4 ← report_status calls scan s3 rval
            shell_loop fuel calls scan s4 buf'

  pub shell : Calls S → ℕ → S → Bytes → Option (ℤ × S)
  unfolding shell_loop
  shell calls fuel s buf = do
    s1 ← print_text calls fuel s (text "Starting 391 Shell\n")
    shell_loop fuel calls fuel s1 buf
