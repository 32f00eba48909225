-- ===== src/FileSys.antt =====
-- The read-only file system of student-distrib/filesys.c. The image is what `filesystem` points to,
-- and the other pointers are offsets into it. An `int32_t` function with a `dentry_t*` result is an
-- option: `none` for -1, with the entry not written.
pub mod Data
pub mod Total
pub mod Names
pub mod Alike
pub mod Ops
mod Examples
use ece391_linux_os.Base.{
  ℕ, zero, suc, ◌+◌, ◌-◌, ◌*◌, ◌/◌, ◌%◌, ◌^◌, Option, none, some, Bytes, shift, update, ◌==◌, ltb,
  leb, if◌then◌else◌, Bool, true, false, ℤ, pos, minus_one, nat_eq, to_u32, of_u32, add32, sub32,
}
use ece391_linux_os.CLib.Mem.{memcpy}
use ece391_linux_os.CLib.Str.{strlen, strncmp}
use ece391_linux_os.Process.{FileDesc, fd_start, fd_max}

abbrev pub four_kb : ℕ
four_kb = 4096

abbrev pub max_file_count : ℕ
max_file_count = 63

abbrev pub name_size : ℕ
name_size = 32

-- A little-endian word.
unfoldable pub u32_at : Bytes → ℕ → ℕ
u32_at m a = m a + 256 * m (a + 1) + 65536 * m (a + 2) + 16777216 * m (a + 3)

-- `present` says that `filesystem` is not NULL.
pub record FileSystem : Type 0 where
  pub present : Bool
  pub image : Bytes
  pub inode_arr : ℕ
  pub data_arr : ℕ
  pub den_arr : ℕ
  pub dir_offset : ℕ

-- `file_name` is the array and what follows it in the image.
pub record Dentry : Type 0 where
  pub file_name : Bytes
  pub file_type : ℕ
  pub inode : ℕ

-- The fields of the boot block.
unfoldable pub num_of_dir_e : FileSystem → ℕ
num_of_dir_e fs = u32_at fs.image 0

unfoldable pub num_of_inodes : FileSystem → ℕ
num_of_inodes fs = u32_at fs.image 4

-- `boot->dir_entries[i]`: 64 bytes each, behind the 64 bytes of counts
unfoldable pub dir_entry : FileSystem → ℕ → Dentry
dir_entry fs i = record {
  file_name = shift fs.image (64 + 64 * i);
  file_type = u32_at fs.image (64 + 64 * i + 32);
  inode = u32_at fs.image (64 + 64 * i + 36);
}

-- `inode_arr[i].length` and `inode_arr[i].dblk[k]`
unfoldable pub inode_length : FileSystem → ℕ → ℕ
inode_length fs i = u32_at fs.image (fs.inode_arr + four_kb * i)

unfoldable pub inode_dblk : FileSystem → ℕ → ℕ → ℕ
inode_dblk fs i k = u32_at fs.image (fs.inode_arr + four_kb * i + 4 + 4 * k)

unfoldable pub fs_init : Bytes → FileSystem
fs_init image = record {
  present = true;
  image = image;
  inode_arr = four_kb;
  data_arr = four_kb * (1 + u32_at image 4);
  den_arr = 64;
  dir_offset = 0;
}

-- The loop over the directory entries, from entry `i` on.
find_name : ℕ → FileSystem → Bytes → ℕ → ℕ → Option Dentry
find_name zero fs fname name_len i = none
find_name (suc rounds) fs fname name_len i =
    let rest = find_name rounds fs fname name_len (i + 1) in
    if nat_eq (strncmp fname (dir_entry fs i).file_name name_len) 0
    then some (dir_entry fs i)
    else rest

-- `read_dentry_by_name` from the check of `filesystem` on
unfoldable pub find_dentry : FileSystem → Bytes → ℕ → Option Dentry
unfolding find_name
find_dentry fs fname name_len =
    if fs.present
    then (if ltb name_size name_len
        then none
        else find_name max_file_count fs fname
            (if name_len == name_size then name_len else name_len + 1) 0)
    else none

-- The outer option is `none` if `strlen` does not return within the fuel.
pub read_dentry_by_name : ℕ → FileSystem → Bytes → Option (Option Dentry)
unfolding find_dentry
read_dentry_by_name fuel fs fname = elim (strlen fuel fname) [
  | none ↦ none
  | some name_len ↦ some (find_dentry fs fname name_len)
]

unfoldable pub read_dentry_by_index : FileSystem → ℕ → Option Dentry
read_dentry_by_index fs index =
    if fs.present
    then (if leb (num_of_dir_e fs) index then none else some (dir_entry fs index))
    else none

-- The loop of `read_data` on fuel, in the variables of the source. `m` is the caller's memory. The
-- unsigned length is returned as an `int32_t`.
pub read_data_loop :
    ℕ
    → FileSystem
    → (inode length cur start_byte offset bytes_left : ℕ) → Bytes
    → ℕ
    → Option (ℤ × Bytes)
read_data_loop zero fs inode length cur start_byte offset bytes_left m buf = none
read_data_loop (suc fuel) fs inode length cur start_byte offset bytes_left m buf =
    let data_blk = fs.data_arr + four_kb * inode_dblk fs inode cur in
    let first =
      read_data_loop fuel fs inode length (cur + 1) start_byte 0
        (bytes_left - (four_kb - start_byte))
        (memcpy (four_kb - start_byte) m buf fs.image (data_blk + start_byte))
        (buf + (four_kb - start_byte)) in
    let between =
      read_data_loop fuel fs inode length (cur + 1) start_byte 0 (bytes_left - four_kb)
        (memcpy four_kb m buf fs.image data_blk) (buf + four_kb) in
    if bytes_left == 0
    then some (pos 0, m)
    else if offset == 0
    then (if leb four_kb bytes_left
        then between
        else some (of_u32 length, memcpy bytes_left m buf fs.image data_blk))
    else if leb bytes_left (four_kb - start_byte)
    then some (of_u32 length, memcpy bytes_left m buf fs.image (data_blk + start_byte))
    else first

-- `length` as the clamp to the end of the file leaves it
abbrev pub clamped : ℕ → ℕ → ℕ → ℕ
clamped filesize offset length =
    if ltb filesize (add32 length offset) then sub32 filesize offset else length

pub read_data : FileSystem → ℕ → ℕ → Bytes → ℕ → ℕ → Option (ℤ × Bytes)
unfolding read_data_loop
read_data fs inode offset m buf length =
    let n = clamped (inode_length fs inode) offset length in
    if leb (num_of_inodes fs) inode
    then some (minus_one, m)
    else if leb (inode_length fs inode) offset
    then some (pos 0, m)
    else read_data_loop (suc n) fs inode n (offset / four_kb) (offset % four_kb) offset n m buf
