-- ===== src/User/Examples.antt =====
-- A process on an image with the directory "." and a file "a" of three bytes, with the screen at
-- descriptor 1. The theorems on the programs of syscalls/ at that process.
use ece391_linux_os.Base.{
  ◌↔◌, List, ◌<◌, ℕ, zero, suc, ◌<◌, ◌≡◌, ◌≢◌, refl, arith, some, none, Option, Bytes, ◌==◌,
  if◌then◌else◌, true, pos, ℤ, minus_one, [], ◌∷◌,
}
use ece391_linux_os.Boot.Text.{text}
use ece391_linux_os.CLib.Str.{strncmp}
use ece391_linux_os.CLib.Str.Laws.{IsString}
use ece391_linux_os.Process.{FileDesc, std_in, std_out}
use ece391_linux_os.FileSys.{
  FileSystem, u32_at, num_of_inodes, num_of_dir_e, inode_length, dir_entry, find_dentry,
}
use ece391_linux_os.FileSys.Data.{file_byte}
use ece391_linux_os.Console.{put_bytes}
use ece391_linux_os.Programs.Samples.{zeros, terminal, console, block, kernel}
use ece391_linux_os.Syscalls.{Kernel, fd_table}
use ece391_linux_os.User.Support.{ece391_strcmp}
use ece391_linux_os.User.Support.Laws.{ece391_strcmp-IsString}
use ece391_linux_os.User.Basic.{cat, ls}
use ece391_linux_os.User.Syserr.{err_all}
use ece391_linux_os.User.OnKernel.{kernel_calls}
use ece391_linux_os.User.OnKernel.Files.{HasScreen, HasInode}
use ece391_linux_os.User.OnKernel.Cat.{cat-put_bytes}
use ece391_linux_os.User.OnKernel.Ls.{Names, listed}
use ece391_linux_os.User.OnKernel.Ls.Loop.{ls-listed}
use ece391_linux_os.User.OnKernel.Passing.{Ready}
use ece391_linux_os.User.OnKernel.Lots.{HasDot}
use ece391_linux_os.User.OnKernel.AllTests.{says_all, err_all-says_all}

abbrev two_entries : Bytes
two_entries a =
    if a == 0
    then 2
    else if a == 4
    then 1
    else if a == 64
    then b'.'
    else if a == 96
    then 1
    else if a == 128
    then b'a'
    else if a == 160
    then 2
    else if a == 4096
    then 3
    else if a == 8192
    then b'h'
    else if a == 8193
    then b'i'
    else if a == 8194
    then b'\n'
    else 0

abbrev small_fs : FileSystem
small_fs = record {
  present = true;
  image = two_entries;
  inode_arr = 4096;
  data_arr = 8192;
  den_arr = 64;
  dir_offset = 0;
}

abbrev table : ℕ → FileDesc
table i =
    if i == 0
    then record { fops_ptr = std_in; inode = 0; file_pos = 0; flags = 1 }
    else if i == 1
    then record { fops_ptr = std_out; inode = 0; file_pos = 0; flags = 1 }
    else record { fops_ptr = std_in; inode = 0; file_pos = 0; flags = 0 }

abbrev process : Kernel
process = record (kernel (console (terminal 1 (pos 0) (pos 0)))) {
  fs = small_fs;
  pcb = λ a. record (block 0) { fd_table = table; arg = text "a" };
}

abbrev no_launch : Kernel → Bytes → Option (ℤ × Kernel)
no_launch k name = some (minus_one, k)

-- A call with a number in the range.
abbrev answer : Kernel → ℤ → Option (ℤ × Kernel)
answer k n = some (minus_one, k)

found_a : find_dentry small_fs (text "a") 1 ≡ some (dir_entry small_fs 1)
unfolding find_dentry strncmp dir_entry
found_a = refl

found_dot : find_dentry small_fs (text ".") 1 ≡ some (dir_entry small_fs 0)
unfolding find_dentry strncmp dir_entry
found_dot = refl

missing_helloo : find_dentry small_fs (text "helloo") 6 ≡ none
unfolding find_dentry strncmp dir_entry
missing_helloo = refl

missing_shel : find_dentry small_fs (text "shel") 4 ≡ none
unfolding find_dentry strncmp dir_entry
missing_shel = refl

b-IsString : IsString (text "b") 1
b-IsString = record { chars = λ i lt. one i lt; stop = refl }
  where
    one : (i : ℕ) → i < 1 → text "b" i ≢ 0
    one zero lt = ground arith
    one (suc i) lt = absurd (omega arith)

a-IsString : IsString (text "a") 1
a-IsString = record { chars = λ i lt. one i lt; stop = refl }
  where
    one : (i : ℕ) → i < 1 → text "a" i ≢ 0
    one zero lt = ground arith
    one (suc i) lt = absurd (omega arith)

process-HasScreen : HasScreen (fd_table process)
process-HasScreen = record { screen = refl; screen_used = ground arith }

small_fs-HasInode : HasInode small_fs 0 3
unfolding num_of_inodes inode_length u32_at
small_fs-HasInode = record {
  mounted = refl;
  in_range = omega arith;
  of_length = refl;
  not_huge = omega arith;
}

type_of_a : (dir_entry small_fs 1).file_type ≡ 2
unfolding dir_entry u32_at
type_of_a = refl

inode_of_a : HasInode small_fs (dir_entry small_fs 1).inode 3
unfolding dir_entry u32_at
inode_of_a = small_fs-HasInode

cat-put_bytes_example :
    (k' : Kernel) × (cat (kernel_calls 4096 0 5 no_launch answer) 5 process zeros
      ≡ some (pos 0, k'))
    × (k'.console ≡ put_bytes 3 process.console (file_byte small_fs (dir_entry small_fs 1).inode) 0)
cat-put_bytes_example =
    cat-put_bytes 4096 0 5 no_launch answer process zeros 1 2 3 (dir_entry small_fs 1) (omega arith)
      a-IsString (omega arith) (omega arith) (omega arith) found_a type_of_a inode_of_a
      process-HasScreen (omega arith) (omega arith) refl (omega arith)

name_of : (i : ℕ) → i < 2 → IsString (dir_entry small_fs i).file_name 1
unfolding dir_entry
name_of i lt = record { chars = λ j p. ground arith; stop = ground arith }

small_fs-Names : Names small_fs (λ i. 1) 5
unfolding num_of_dir_e u32_at
small_fs-Names = record {
  mounted = refl;
  few = omega arith;
  names = λ i lt. name_of i lt;
  some_chars = λ i lt. (omega arith, omega arith);
}

type_of_dot : (dir_entry small_fs 0).file_type ≡ 1
unfolding dir_entry u32_at
type_of_dot = refl

entries : num_of_dir_e small_fs < 5
unfolding num_of_dir_e u32_at
entries = omega arith

ls-listed_example :
    (k' : Kernel) × (ls (kernel_calls 4096 0 5 no_launch answer) 5 process zeros ≡ some (pos 0, k'))
    × (k'.console ≡ listed (num_of_dir_e small_fs) small_fs (λ i. 1) process.console 0)
ls-listed_example =
    ls-listed 4096 0 5 no_launch answer process zeros 2 (λ i. 1) (dir_entry small_fs 0)
      (omega arith) found_dot type_of_dot small_fs-Names process-HasScreen (omega arith)
      (omega arith) refl entries (omega arith)

process-HasDot : HasDot small_fs (dir_entry small_fs 0)
process-HasDot = record { mounted = refl; dot = found_dot; is_directory = type_of_dot }

process-Ready : Ready small_fs (fd_table process)
process-Ready = record {
  has_screen = process-HasScreen;
  keyboard = refl;
  unopened = λ i le lt. ground arith;
  no_helloo = missing_helloo;
  no_shel = missing_shel;
}

err_all-says_all_example :
    (k' : Kernel) × (err_all (kernel_calls 4096 0 64 no_launch answer) 64 process zeros
      ≡ some (0, k'))
    × (k'.console
        ≡ says_all process.console (
            "err_neg_fd: PASS\n" ∷ "err_big_fd: PASS\n" ∷ "err_open_lots: PASS\n"
            ∷ "err_open: PASS\n" ∷ "err_unopened: PASS\n" ∷ "err_vidmap: PASS\n"
            ∷ "err_stdin_out: PASS\n" ∷ "err_syscall_num: PASS\n" ∷ "\nOverall Tests: PASS\n" ∷ []))
err_all-says_all_example =
    err_all-says_all 4096 0 64 no_launch answer process (dir_entry small_fs 0) zeros (omega arith)
      (omega arith) process-HasDot process-Ready

-- The keys of "ls" and Enter.
abbrev at_shell : Kernel
at_shell = record process { keys = 0x26 ∷ 0x1f ∷ 0x1c ∷ 0x9c ∷ [] }

abbrev ls_keys : List ℕ
ls_keys = 0x26 ∷ 0x1f ∷ []

ece391_strcmp-IsString_example :
    (r : ℤ) × (ece391_strcmp 2 (text "a") (text "b") ≡ some r)
    × ((r ≡ pos 0) ↔ ((◌≡◌ {A = ℕ} 1 1) × ((j : ℕ) → j < 1 → text "a" j ≡ text "b" j)))
ece391_strcmp-IsString_example =
    ece391_strcmp-IsString 2 (text "a") (text "b") 1 1 a-IsString b-IsString (omega arith)
