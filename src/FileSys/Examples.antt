-- ===== src/FileSys/Examples.antt =====
-- A small image: one directory entry "a", one inode of five bytes, one data block. The theorems at
-- its file and directory.
use ece391_linux_os.Base.{
  ℕ, ◌+◌, ◌-◌, ◌<◌, ◌≤◌, ◌≡◌, ◌≢◌, refl, arith, some, Option, Bytes, ◌==◌, if◌then◌else◌, true, pos,
  update,
}
use ece391_linux_os.CLib.Mem.Laws.{within}
use ece391_linux_os.CLib.Str.Laws.{IsString}
use ece391_linux_os.Process.{FileDesc, fops_file}
use ece391_linux_os.FileSys.{
  FileSystem, Dentry, fs_init, u32_at, num_of_inodes, num_of_dir_e, inode_length, dir_entry,
  read_data, read_dentry_by_name,
}
use ece391_linux_os.FileSys.Data.{file_byte, returned, read_data-file_byte}
use ece391_linux_os.FileSys.Names.{Search, read_dentry_by_name-Search}
use ece391_linux_os.FileSys.Ops.{file_read, dir_read}
use ece391_linux_os.FileSys.Ops.Sequential.{file_read-file_byte, name_listed, dir_read-dir_entry}

abbrev image : Bytes
image a =
    if a == 0
    then 1
    else if a == 4
    then 1
    else if a == 8
    then 1
    else if a == 64
    then b'a'
    else if a == 96
    then 2
    else if a == 4096
    then 5
    else if a == 8192
    then b'h'
    else if a == 8193
    then b'e'
    else if a == 8194
    then b'y'
    else 0

abbrev fs : FileSystem
fs = record {
  present = true;
  image = image;
  inode_arr = 4096;
  data_arr = 8192;
  den_arr = 64;
  dir_offset = 0;
}

init_example : fs_init image ≡ fs
unfolding fs_init u32_at
init_example = refl

image_bytes : (i : ℕ) → image i < 256
image_bytes i = ground arith

abbrev zeros : Bytes
zeros i = 0

abbrev file_name : Bytes
file_name = update zeros 0 b'a'

file_name-IsString : IsString file_name 1
file_name-IsString = record { chars = λ i lt. ground arith; stop = refl }

read_data-file_byte_example :
    (r : Bytes) × (read_data fs 0 1 zeros 100 10 ≡ some (returned 1 4, r))
    × ((i : ℕ) → r i ≡ (if within 100 4 i then file_byte fs 0 (1 + (i - 100)) else 0))
unfolding num_of_inodes inode_length u32_at
read_data-file_byte_example =
    read_data-file_byte fs 0 1 10 zeros 100 (omega arith) (omega arith) (omega arith) (omega arith)

read_dentry_by_name-Search_example :
    (r : Option Dentry) × (read_dentry_by_name 5 fs file_name ≡ some r) × Search fs file_name 1 r
read_dentry_by_name-Search_example =
    read_dentry_by_name-Search 5 fs file_name 1 refl file_name-IsString (omega arith)
      (λ i. ground arith) image_bytes

abbrev table : ℕ → FileDesc
table i = record { fops_ptr = fops_file; inode = 0; file_pos = 1; flags = 1 }

file_read-file_byte_example :
    (moved : ℕ) × (table' : ℕ → FileDesc) × (r : Bytes) × (file_read fs table
        (pos 2)
        zeros
        100
        (pos 3)
      ≡ some (pos moved, table', r))
    × (pos moved ≡ returned 1 3)
    × (1 + 3 < 4096 → moved ≡ 3)
    × (table' 2 ≡ record (table 2) { file_pos = 1 + moved })
    × ((j : ℕ) → j ≢ 2 → table' j ≡ table j)
    × ((i : ℕ) → r i ≡ (if within 100 3 i then file_byte fs 0 (1 + (i - 100)) else 0))
unfolding num_of_inodes inode_length u32_at
file_read-file_byte_example =
    file_read-file_byte fs table 2 zeros 100 3 refl (omega arith) (omega arith) (omega arith)
      (omega arith) (omega arith) (omega arith)

dir_read-dir_entry_example :
    (0 < 1
      → IsString (dir_entry fs 0).file_name 1
      → 1 < 5
      → (r : Bytes) × (dir_read 5 fs zeros 100 ≡ some (pos 1, record fs { dir_offset = 1 }, r))
        × ((i : ℕ) → r i ≡ name_listed (dir_entry fs 0).file_name 1 zeros 100 i))
    × (1 ≤ 0 → dir_read 5 fs zeros 100 ≡ some (pos 0, record fs { dir_offset = 0 }, zeros))
unfolding num_of_dir_e u32_at
dir_read-dir_entry_example = dir_read-dir_entry 5 fs zeros 100 1 refl (omega arith)
