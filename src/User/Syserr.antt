-- ===== src/User/Syserr.antt =====
-- The program of syscalls/ece391syserr.c, which tests how the system calls fail. A test returns the
-- value of its `fail`, 0 or 2.
use ece391_linux_os.Base.{
  ℕ, zero, suc, ◌+◌, Option, some, Bytes, ◌==◌, if◌then◌else◌, ℤ, pos, negsuc, minus_one,
}
use ece391_linux_os.Boot.Text.{text}
use ece391_linux_os.User.{◌>>=◌, Calls, int_eq}
use ece391_linux_os.User.Basic.{print_text, return_with}

-- NEG_FD and NEG_NUM
abbrev pub neg_fd : ℤ
neg_fd = negsuc 1073741822

-- BIG_FD and BIG_NUM
abbrev pub big_fd : ℤ
big_fd = pos 1073741823

module _ {S : Type 0} where
  -- One check: a call that does not return -1 prints `message` and sets `fail`.
  unfoldable pub check : Calls S → ℕ → ℕ → Bytes → ℤ × S → Option (ℕ × S)
  check calls fuel fail message (ret, s) =
      if int_eq ret minus_one
      then some (fail, s)
      else do s' ← print_text calls fuel s message; some (2, s')

  unfoldable pub verdict : Calls S → ℕ → S → ℕ → (failed passed : Bytes) → Option (ℕ × S)
  verdict calls fuel s fail failed passed = do
    s' ← print_text calls fuel s (if fail == 0 then passed else failed)
    some (fail, s')

  -- The three checks of `err_neg_fd` and `err_big_fd`.
  unfoldable pub err_fd : Calls S → ℕ → S → ℤ → Bytes → (failed passed : Bytes) → Option (ℕ × S)
  err_fd calls fuel s fd buf failed passed = do
    (ret1, s1, buf') ← calls.read_to s fd buf 0 (pos 31)
    (fail1, s2) ← check calls fuel 0 (text "read fail\n") (ret1, s1)
    r2 ← calls.write_from s2 fd buf' 0 (pos 31)
    (fail2, s3) ← check calls fuel fail1 (text "write fail\n") r2
    r3 ← calls.close_fd s3 fd
    (fail3, s4) ← check calls fuel fail2 (text "close fail\n") r3
    verdict calls fuel s4 fail3 failed passed

  unfoldable pub err_neg_fd : Calls S → ℕ → S → Bytes → Option (ℕ × S)
  err_neg_fd calls fuel s buf =
      err_fd calls fuel s neg_fd buf (text "err_neg_fd: FAIL\n") (text "err_neg_fd: PASS\n")

  unfoldable pub err_big_fd : Calls S → ℕ → S → Bytes → Option (ℕ × S)
  err_big_fd calls fuel s buf =
      err_fd calls fuel s big_fd buf (text "err_big_fd: FAIL\n") (text "err_big_fd: PASS\n")

  -- The loop that opens the directory `rounds` times, with the count of failures.
  unfoldable pub open_times : ℕ → Calls S → S → ℕ → Option (ℕ × S)
  open_times zero calls s cnt = some (cnt, s)
  open_times (suc rounds) calls s cnt = do
    (fd, s') ← calls.open_named s (text ".")
    open_times rounds calls s' (if int_eq fd minus_one then cnt + 1 else cnt)

  -- The loop that closes `rounds` descriptors, from `i` on.
  unfoldable pub close_from : ℕ → Calls S → S → ℕ → Option S
  close_from zero calls s i = some s
  close_from (suc rounds) calls s i = do
    (ret, s') ← calls.close_fd s (pos i)
    close_from rounds calls s' (i + 1)

  unfoldable pub err_open_lots : Calls S → ℕ → S → Option (ℕ × S)
  err_open_lots calls fuel s = do
    (cnt, s1) ← open_times 7 calls s 0
    s2 ← close_from 6 calls s1 2
    verdict calls fuel s2 (if cnt == 1 then 0 else 2) (text "err_open_lots: FAIL\n")
        (text "err_open_lots: PASS\n")

  unfoldable pub err_open : Calls S → ℕ → S → Option (ℕ × S)
  err_open calls fuel s = do
    r1 ← calls.open_named s (text "helloo")
    (fail1, s1) ← check calls fuel 0 (text "'helloo' fail\n") r1
    r2 ← calls.open_named s1 (text "shel")
    (fail2, s2) ← check calls fuel fail1 (text "'shel' fail\n") r2
    r3 ← calls.open_named s2 (text "")
    (fail3, s3) ← check calls fuel fail2 (text "empty string fail\n") r3
    verdict calls fuel s3 fail3 (text "err_open: FAIL\n") (text "err_open: PASS\n")

  -- The three loops of `err_unopened`, from descriptor `i` on.
  unfoldable pub close_unopened : ℕ → Calls S → ℕ → S → ℕ → ℕ → Option (ℕ × S)
  close_unopened zero calls fuel s i fail = some (fail, s)
  close_unopened (suc rounds) calls fuel s i fail = do
    r ← calls.close_fd s (pos i)
    (fail', s') ← check calls fuel fail (text "close unopened or invalid fd fail\n") r
    close_unopened rounds calls fuel s' (i + 1) fail'

  unfoldable pub read_unopened : ℕ → Calls S → ℕ → S → Bytes → ℕ → ℕ → Option (ℕ × S × Bytes)
  read_unopened zero calls fuel s buf i fail = some (fail, s, buf)
  read_unopened (suc rounds) calls fuel s buf i fail = do
    (ret, s', buf') ← calls.read_to s (pos i) buf 0 (pos 31)
    (fail', s'') ← check calls fuel fail (text "read from unopened fd fail\n") (ret, s')
    read_unopened rounds calls fuel s'' buf' (i + 1) fail'

  unfoldable pub write_unopened : ℕ → Calls S → ℕ → S → Bytes → ℕ → ℕ → Option (ℕ × S)
  write_unopened zero calls fuel s buf i fail = some (fail, s)
  write_unopened (suc rounds) calls fuel s buf i fail = do
    r ← calls.write_from s (pos i) buf 0 (pos 31)
    (fail', s') ← check calls fuel fail (text "write to unopened fd fail\n") r
    write_unopened rounds calls fuel s' buf (i + 1) fail'

  unfoldable pub err_unopened : Calls S → ℕ → S → Bytes → Option (ℕ × S)
  err_unopened calls fuel s buf = do
    (fail1, s1) ← close_unopened 8 calls fuel s 0 0
    (fail2, s2, buf') ← read_unopened 6 calls fuel s1 buf 2 fail1
    (fail3, s3) ← write_unopened 6 calls fuel s2 buf' 2 fail2
    verdict calls fuel s3 fail3 (text "err_unopened: FAIL\n") (text "err_unopened: PASS\n")

  unfoldable pub err_vidmap : Calls S → ℕ → S → Option (ℕ × S)
  err_vidmap calls fuel s = do
    r1 ← calls.video s 0x0
    (fail1, s1) ← check calls fuel 0 (text "Null pointer fail\n") r1
    r2 ← calls.video s1 0x400000
    (fail2, s2) ← check calls fuel fail1 (text "Kernel pointer fail fail\n") r2
    verdict calls fuel s2 fail2 (text "err_vidmap: FAIL\n") (text "err_vidmap: PASS\n")

  unfoldable pub err_stdin_out : Calls S → ℕ → S → Bytes → Option (ℕ × S)
  err_stdin_out calls fuel s buf = do
    r1 ← calls.write_from s (pos 0) buf 0 (pos 31)
    (fail1, s1) ← check calls fuel 0 (text "write to stdin fail\n") r1
    (ret, s2, buf') ← calls.read_to s1 (pos 1) buf 0 (pos 31)
    (fail2, s3) ← check calls fuel fail1 (text "read from stdout fail\n") (ret, s2)
    verdict calls fuel s3 fail2 (text "err_stdin_out: FAIL\n") (text "err_stdin_out: PASS\n")

  unfoldable pub err_syscall_num : Calls S → ℕ → S → Option (ℕ × S)
  err_syscall_num calls fuel s = do
    r1 ← calls.raw s big_fd
    (fail1, s1) ← check calls fuel 0 (text "syscall 0 fail\n") r1
    r2 ← calls.raw s1 neg_fd
    (fail2, s2) ← check calls fuel fail1 (text "big num syscall fail\n") r2
    r3 ← calls.raw s2 (pos 0)
    (fail3, s3) ← check calls fuel fail2 (text "neg num syscall fail\n") r3
    verdict calls fuel s3 fail3 (text "err_syscall_num: FAIL\n") (text "err_syscall_num: PASS\n")

  -- The value of a test, returned from `main`.
  abbrev returned_value : Option (ℕ × S) → Option (ℤ × S)
  returned_value run = do (fail, s) ← run; some (pos fail, s)

  -- The tests in order, with `fail` added up.
  unfoldable pub err_all : Calls S → ℕ → S → Bytes → Option (ℕ × S)
  err_all calls fuel s buf = do
    (f1, s1) ← err_neg_fd calls fuel s buf
    (f2, s2) ← err_big_fd calls fuel s1 buf
    (f3, s3) ← err_open_lots calls fuel s2
    (f4, s4) ← err_open calls fuel s3
    (f5, s5) ← err_unopened calls fuel s4 buf
    (f6, s6) ← err_vidmap calls fuel s5
    (f7, s7) ← err_stdin_out calls fuel s6 buf
    (f8, s8) ← err_syscall_num calls fuel s7
    verdict calls fuel s8 (f1 + f2 + f3 + f4 + f5 + f6 + f7 + f8) (text "\nOverall Tests: FAIL\n")
        (text "\nOverall Tests: PASS\n")

  -- `main`; `buf` is its array, and `small` what the arrays of the tests hold at first.
  pub syserr : Calls S → ℕ → S → Bytes → Bytes → Option (ℤ × S)
  syserr calls fuel s buf small = do
    s1 ← print_text calls fuel s (text "Choose from tests 1-8. 0 to run all: ")
    (cnt, s2, buf') ← calls.read_to s1 (pos 0) buf 0 (pos 127)
    let ch = buf' 0
    if int_eq cnt minus_one
        then return_with calls fuel s2 (text "Can't read test #\n") (pos 2)
        else if ch == b'0'
        then returned_value (err_all calls fuel s2 small)
        else if ch == b'1'
        then returned_value (err_neg_fd calls fuel s2 small)
        else if ch == b'2'
        then returned_value (err_big_fd calls fuel s2 small)
        else if ch == b'3'
        then returned_value (err_open_lots calls fuel s2)
        else if ch == b'4'
        then returned_value (err_open calls fuel s2)
        else if ch == b'5'
        then returned_value (err_unopened calls fuel s2 small)
        else if ch == b'6'
        then returned_value (err_vidmap calls fuel s2)
        else if ch == b'7'
        then returned_value (err_stdin_out calls fuel s2 small)
        else if ch == b'8'
        then returned_value (err_syscall_num calls fuel s2)
        else return_with calls fuel s2 (text "Invalid test number. Choose from tests 1-8 or 0")
            (pos 0)
