-- ===== src/User/Grep.antt =====
-- The program of syscalls/ece391grep.c, up to the end of its `main`. The fuel is for the scans of
-- strings and for the rounds of each loop. A count that a call returns is -1 or not negative.
use ece391_linux_os.Base.{
  ℕ, zero, suc, ◌+◌, ◌-◌, Option, none, some, Bytes, shift, update, ◌==◌, leb, ◌&&◌, if◌then◌else◌,
  true, false, Bool, ℤ, pos, minus_one, to_nat, sub_ℕ,
}
use ece391_linux_os.Boot.Text.{text}
use ece391_linux_os.User.{◌>>=◌, Calls, int_eq, not}
use ece391_linux_os.User.Support.{ece391_fdputs, ece391_strlen, ece391_strcpy, ece391_strncmp}
use ece391_linux_os.User.Basic.{program_bufsize, name_bufsize, print_text, return_with}

-- The end of the line at `line_end`: the next newline, or `last`; `rounds` are left up to there.
line_end_from : ℕ → Bytes → ℕ → ℕ
line_end_from zero buffer line_end = line_end
line_end_from (suc rounds) buffer line_end =
    let rest = line_end_from rounds buffer (line_end + 1) in
    if buffer line_end == b'\n' then line_end else rest

-- Whether the pattern stands at one of the next `rounds` places from `check` on.
occurs_from : ℕ → Bytes → Bytes → ℕ → ℕ → Bool
occurs_from zero pattern buffer s_len check = false
occurs_from (suc rounds) pattern buffer s_len check =
    let rest = occurs_from rounds pattern buffer s_len (check + 1) in
    if pattern 0 == buffer check
      && int_eq (ece391_strncmp (shift buffer check) pattern s_len) (pos 0)
    then true
    else rest

module _ {S : Type 0} where
  -- The four writes for a line that matches.
  print_match : Calls S → ℕ → S → Bytes → Bytes → ℕ → Option S
  print_match calls fuel s fname buffer line_start = do
    s1 ← print_text calls fuel s fname
    s2 ← print_text calls fuel s1 (text ":")
    s3 ← ece391_fdputs calls fuel s2 (pos 1) buffer line_start
    print_text calls fuel s3 (text "\n")

  -- The loop over the lines of the buffer, with the buffer and `last` behind it.
  lines_loop :
      ℕ
      → Calls S
      → ℕ
      → S
      → (pattern : Bytes) → ℕ
      → (fname : Bytes) → ℤ
      → Bytes
      → ℕ
      → ℕ
      → Option (S × Bytes × ℕ)
  unfolding line_end_from occurs_from print_match
  lines_loop zero calls scan s pattern s_len fname cnt buffer last line_start = none
  lines_loop (suc fuel) calls scan s pattern s_len fname cnt buffer last line_start =
      let line_end = line_end_from (last - line_start) buffer line_start in
      let ended = update buffer line_end 0 in
      let is_part =
        not (buffer line_end == b'\n') && not (int_eq cnt (pos 0)) && not (line_start == 0) in
      if is_part
      then (do moved ← ece391_strcpy scan ended 0 line_start; some (s, moved, last - line_start))
      else do
        s' ←
            if occurs_from (line_end - line_start) pattern ended s_len line_start
            then print_match calls scan s fname ended line_start
            else some s
        let rest = lines_loop fuel calls scan s' pattern s_len fname cnt ended last (line_end + 1)
        if leb last (line_end + 1) then some (s', ended, 0) else rest

  -- The loop over the reads of a file.
  file_loop :
      ℕ → Calls S → ℕ → S → (pattern : Bytes) → ℕ → (fname : Bytes) → ℤ → Bytes → ℕ → Option (ℤ × S)
  unfolding lines_loop
  file_loop zero calls scan s pattern s_len fname fd buffer last = none
  file_loop (suc fuel) calls scan s pattern s_len fname fd buffer last = do
    (cnt, s', read) ← calls.read_to s fd buffer last (sub_ℕ program_bufsize last)
    if int_eq cnt minus_one
        then return_with calls scan s' (text "file read failed\n") minus_one
        else do
          (s'', buffer', last') ←
              lines_loop scan calls scan s' pattern s_len fname cnt read (last + to_nat cnt) 0
          let rest = file_loop fuel calls scan s'' pattern s_len fname fd buffer' last'
          if int_eq cnt (pos 0)
              then (do
                (closed, s3) ← calls.close_fd s'' fd
                if int_eq closed minus_one
                    then return_with calls scan s3 (text "file close failed\n") minus_one
                    else some (pos 0, s3))
              else rest

  -- `buffer` is what the array `data` holds at first.
  pub do_one_file : Calls S → ℕ → S → Bytes → Bytes → Bytes → Option (ℤ × S)
  unfolding file_loop
  do_one_file calls fuel s pattern fname buffer = do
    s_len ← ece391_strlen fuel pattern
    (fd, s') ← calls.open_named s fname
    if int_eq fd minus_one
        then return_with calls fuel s' (text "file open failed\n") minus_one
        else file_loop fuel calls fuel s' pattern s_len fname fd buffer 0

  -- The loop over the directory.
  grep_loop : ℕ → Calls S → ℕ → S → ℤ → Bytes → Bytes → Bytes → Option (ℤ × S)
  grep_loop zero calls scan s fd pattern buf buffer = none
  grep_loop (suc fuel) calls scan s fd pattern buf buffer = do
    (cnt, s', read) ← calls.read_to s fd buf 0 (pos (name_bufsize - 1))
    if int_eq cnt (pos 0)
        then some (pos 0, s')
        else if int_eq cnt minus_one
        then return_with calls scan s' (text "directory entry read failed\n") (pos 3)
        else let named = update read (to_nat cnt) 0 in
          let skipped = grep_loop fuel calls scan s' fd pattern read buffer in
          if read 0 == b'.' then skipped else do
            (ret, s'') ← do_one_file calls scan s' pattern named buffer
            let rest = grep_loop fuel calls scan s'' fd pattern named buffer
            if int_eq ret (pos 0) then rest else some (pos 3, s'')

  pub grep : Calls S → ℕ → S → Bytes → Bytes → Bytes → Option (ℤ × S)
  unfolding grep_loop
  grep calls fuel s pattern buf buffer = do
    (got, pattern') ← calls.arguments_to s pattern (pos program_bufsize)
    if int_eq got (pos 0)
        then (do
          (fd, s') ← calls.open_named s (text ".")
          if int_eq fd minus_one
              then return_with calls fuel s' (text "directory open failed\n") (pos 2)
              else grep_loop fuel calls fuel s' fd pattern' buf buffer)
        else return_with calls fuel s (text "could not read argument\n") (pos 3)
