-- ===== src/FileSys/Ops.antt =====
-- The operations on files and on the directory that the descriptors' tables name, in
-- student-distrib/filesys.c. The outer option is `none` only where a string scan has no end.
pub mod Opening
pub mod Sequential
use ece391_linux_os.Base.{
  ℕ, zero, suc, ◌+◌, ◌-◌, ◌*◌, Option, none, some, Bytes, update, ltb, leb, if◌then◌else◌, Bool,
  true, false, ℤ, pos, negsuc, minus_one, to_nat, to_u32, of_u32, add32, ◌&&◌,
}
use ece391_linux_os.CLib.Mem.{memcpy}
use ece391_linux_os.CLib.Str.{strlen}
use ece391_linux_os.Process.{FileDesc, fd_start, fd_ok}
use ece391_linux_os.FileSys.{
  FileSystem, Dentry, name_size, read_data, read_dentry_by_name, read_dentry_by_index,
}

-- The table is that of the running process; `m` is the memory that `buf` points into.
pub file_read :
    FileSystem → (ℕ → FileDesc) → ℤ → Bytes → ℕ → ℤ → Option (ℤ × (ℕ → FileDesc) × Bytes)
file_read fs fd_table fd m buf nbytes =
    let k = to_nat fd in
    let desc = fd_table k in
    if fd_ok fd_start fd && fs.present
    then elim (read_data fs desc.inode desc.file_pos m buf (to_u32 nbytes)) [
      | none ↦ none
      | some (ret, m') ↦
          let num_read = to_u32 ret in
          some (
            of_u32 num_read,
            update fd_table k (record desc { file_pos = add32 desc.file_pos num_read }),
            m',
          )
    ]
    else some (minus_one, fd_table, m)

pub file_write : ℤ
file_write = minus_one

pub file_open : ℕ → FileSystem → Bytes → Option ℤ
file_open fuel fs filename =
    if fs.present
    then elim (read_dentry_by_name fuel fs filename) [
      | none ↦ none
      | some none ↦ some minus_one
      | some (some entry_info) ↦ some (pos 0)
    ]
    else some minus_one

pub file_close : ℤ
file_close = pos 0

-- the loop that clears the caller's buffer
pub clear_bytes : ℕ → Bytes → ℕ → Bytes
clear_bytes zero m a = m
clear_bytes (suc rounds) m a = clear_bytes rounds (update m a 0) (a + 1)

-- The name is clamped to 32 bytes, so what the scan finds behind the 64 bytes of the entry matters
-- only to whether it ends. The source scans a copy on its stack, and here it goes on in the image.
pub dir_read : ℕ → FileSystem → Bytes → ℕ → Option (ℤ × FileSystem × Bytes)
dir_read fuel fs m buf =
    if fs.present
    then elim (read_dentry_by_index fs fs.dir_offset) [
      | none ↦ some (pos 0, record fs { dir_offset = 0 }, m)
      | some entry_info ↦ elim (strlen fuel entry_info.file_name) [
        | none ↦ none
        | some len ↦
            let name_length = if ltb name_size len then name_size else len in
            some (
              pos name_length,
              record fs { dir_offset = add32 fs.dir_offset 1 },
              memcpy name_length (clear_bytes (name_size + 1) m buf) buf entry_info.file_name 0,
            )
      ]
    ]
    else some (minus_one, fs, m)

pub dir_write : ℤ
dir_write = minus_one

pub dir_open : FileSystem → ℤ × FileSystem
dir_open fs = if fs.present then (pos 0, record fs { dir_offset = 0 }) else (minus_one, fs)

pub dir_close : ℤ
dir_close = pos 0
