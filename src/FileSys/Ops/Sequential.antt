-- ===== src/FileSys/Ops/Sequential.antt =====
-- Reads that follow one another: `file_read` and `dir_read` of student-distrib/filesys.c.
use ece391_linux_os.Base.{
  ℕ, zero, suc, ◌+◌, ◌-◌, ◌%◌, ◌^◌, ◌<◌, ◌≤◌, ◌≡◌, ◌≢◌, ◌∙◌, ap, arith, some, Bytes, ltb,
  if◌then◌else◌, true, pos, min, to_u32, to_nat, of_u32, ◌&&◌, add32, update, u32_mod,
}
use ece391_linux_os.CLib.Mem.{memcpy}
use ece391_linux_os.CLib.Mem.Laws.{within, memcpy-copied}
use ece391_linux_os.CLib.Str.{strlen}
use ece391_linux_os.CLib.Str.Laws.{IsString, strlen-IsString}
use ece391_linux_os.Process.{FileDesc, fd_ok, fd_start}
use ece391_linux_os.FileSys.{
  FileSystem, four_kb, name_size, inode_length, num_of_inodes, num_of_dir_e, dir_entry,
  read_dentry_by_index, read_data,
}
use ece391_linux_os.FileSys.Data.{file_byte, returned, read_data-file_byte}
use ece391_linux_os.FileSys.Ops.{file_read, clear_bytes, dir_read}

-- A read that asks for fewer bytes than it takes to the end of its first block returns their
-- number.
returned-small : (offset n : ℕ) → offset % four_kb + n < four_kb → returned offset n ≡ pos n
returned-small offset n h = ground arith

returned_nat : (offset n : ℕ) → n < 2 ^ 31 → pos (to_nat (returned offset n)) ≡ returned offset n
returned_nat offset n h = ground arith

returned-le : (offset n : ℕ) → n < 2 ^ 31 → to_nat (returned offset n) ≤ n
returned-le offset n h = ground arith

abbrev pub advanced : (ℕ → FileDesc) → ℕ → ℕ → ℕ → FileDesc
advanced fd_table fd k =
    update fd_table fd (record (fd_table fd) { file_pos = (fd_table fd).file_pos + k })

pub file_read_step :
    (fs : FileSystem) (fd_table : ℕ → FileDesc) (fd : ℕ) (m r : Bytes) (buf nbytes k : ℕ)
    → fs.present ≡ true
    → 2 ≤ fd
    → fd < 8
    → nbytes < 2 ^ 31
    → (fd_table fd).file_pos + k < 2 ^ 31
    → read_data fs (fd_table fd).inode (fd_table fd).file_pos m buf nbytes ≡ some (pos k, r)
    → file_read fs fd_table (pos fd) m buf (pos nbytes) ≡ some (pos k, advanced fd_table fd k, r)
unfolding file_read
file_read_step fs fd_table fd m r buf nbytes k here lo hi small size run =
    let whole : nbytes % u32_mod ≡ nbytes = omega arith in
    let ret : of_u32 (to_u32 (pos k)) ≡ pos k = ground arith in
    let at : add32 (fd_table fd).file_pos (to_u32 (pos k)) ≡ (fd_table fd).file_pos + k =
      omega arith in
    let ok : (fd_ok fd_start (pos fd) && fs.present) ≡ true = ground arith in
    rw (ok, whole, run, ret, at)

-- `file_read` of `nbytes` bytes through an open descriptor of a file, at a position inside the
-- file: it always returns, delivers the bytes of the file from the position on, changes nothing
-- behind them, and moves the position of that descriptor alone, by the number that it returns. That
-- is the number of bytes delivered, if they end before the block ends in which they begin.
pub file_read-file_byte :
    (fs : FileSystem) (fd_table : ℕ → FileDesc) (fd : ℕ) (m : Bytes) (buf nbytes : ℕ)
    → fs.present ≡ true
    → 2 ≤ fd
    → fd < 8
    → (fd_table fd).inode < num_of_inodes fs
    → (fd_table fd).file_pos < inode_length fs (fd_table fd).inode
    → inode_length fs (fd_table fd).inode < 2 ^ 31
    → nbytes < 2 ^ 31
    → let desc = fd_table fd in
      let n = min nbytes (inode_length fs desc.inode - desc.file_pos) in
      (moved : ℕ) × (table : ℕ → FileDesc) × (r : Bytes) × (file_read fs fd_table
          (pos fd)
          m
          buf
          (pos nbytes)
        ≡ some (pos moved, table, r))
      × (pos moved ≡ returned desc.file_pos n)
      × (desc.file_pos % four_kb + n < four_kb → moved ≡ n)
      × (table fd ≡ record desc { file_pos = desc.file_pos + moved })
      × ((j : ℕ) → j ≢ fd → table j ≡ fd_table j)
      × ((i : ℕ)
          → r i
            ≡ (if within buf n i then file_byte fs desc.inode (desc.file_pos + (i - buf)) else m i))
unfolding file_read
file_read-file_byte fs fd_table fd m buf nbytes here lo hi ino at size small =
    let desc : FileDesc = fd_table fd in
    let n : ℕ = min nbytes (inode_length fs desc.inode - desc.file_pos) in
    let (r, run, is) =
      read_data-file_byte fs desc.inode desc.file_pos nbytes m buf ino at (omega arith)
        (omega arith) in
    let e : pos (to_nat (returned desc.file_pos n)) ≡ returned desc.file_pos n =
      returned_nat desc.file_pos n (omega arith) in
    (
      to_nat (returned desc.file_pos n),
      update fd_table fd
          (record desc { file_pos = desc.file_pos + to_nat (returned desc.file_pos n) }),
      r,
      file_read_step fs fd_table fd m r buf nbytes _ here lo hi small
          (omega (arith, returned-le desc.file_pos n (omega arith))) (rw e run),
      e,
      λ h. ap to_nat (returned-small desc.file_pos n h),
      ground arith,
      λ j ne. ground arith,
      is,
    )

clear_bytes_lem :
    (n : ℕ) (m : Bytes) (a i : ℕ) → clear_bytes n m a i ≡ (if within a n i then 0 else m i)
unfolding clear_bytes
clear_bytes_lem zero m a i = ground arith
clear_bytes_lem (suc n) m a i = ground (arith, clear_bytes_lem n (update m a 0) (a + 1) i)

-- What `dir_read` leaves in the caller's memory for a name of which `n` characters count.
abbrev pub name_listed : Bytes → ℕ → Bytes → ℕ → Bytes
name_listed name n m buf i =
    if within buf n i then name (i - buf) else if within buf 33 i then 0 else m i

-- `dir_read` with its callees' results.
dir_read_step :
    (fuel : ℕ) (fs : FileSystem) (m : Bytes) (buf len : ℕ)
    → fs.present ≡ true
    → add32 fs.dir_offset 1 ≡ fs.dir_offset + 1
    → read_dentry_by_index fs fs.dir_offset ≡ some (dir_entry fs fs.dir_offset)
    → strlen fuel (dir_entry fs fs.dir_offset).file_name ≡ some len
    → dir_read fuel fs m buf
      ≡ some (
        pos (min len 32),
        record fs { dir_offset = fs.dir_offset + 1 },
        memcpy (min len 32) (clear_bytes 33 m buf) buf (dir_entry fs fs.dir_offset).file_name 0,
      )
unfolding dir_read
dir_read_step fuel fs m buf len here wrap entry scan =
    let capped : (if ltb name_size len then name_size else len) ≡ min len 32 = ground arith in
    ground arith

-- `dir_read` on a mounted image: while the directory has an entry at the position, it delivers the
-- characters of that entry's name, 32 at most, and zero bytes up to 33 whatever the size of the
-- buffer is, returns the count of characters and goes on to the next entry; past the last entry it
-- returns 0, writes nothing and starts over.
pub dir_read-dir_entry :
    (fuel : ℕ) (fs : FileSystem) (m : Bytes) (buf len : ℕ)
    → fs.present ≡ true
    → num_of_dir_e fs < u32_mod
    → (fs.dir_offset < num_of_dir_e fs
        → IsString (dir_entry fs fs.dir_offset).file_name len
        → len < fuel
        → (r : Bytes) × (dir_read fuel fs m buf
            ≡ some (pos (min len 32), record fs { dir_offset = fs.dir_offset + 1 }, r))
          × ((i : ℕ)
              → r i ≡ name_listed (dir_entry fs fs.dir_offset).file_name (min len 32) m buf i))
      × (num_of_dir_e fs ≤ fs.dir_offset
          → dir_read fuel fs m buf ≡ some (pos 0, record fs { dir_offset = 0 }, m))
unfolding dir_read read_dentry_by_index
dir_read-dir_entry fuel fs m buf len here few = (
  λ lt string short.
      let name : Bytes = (dir_entry fs fs.dir_offset).file_name in
      (
        memcpy (min len 32) (clear_bytes 33 m buf) buf name 0,
        dir_read_step fuel fs m buf len here (omega arith) (ground arith)
            ((strlen-IsString fuel name len).0 string short),
        λ i.
            memcpy-copied (min len 32) (clear_bytes 33 m buf) buf name 0 i
            ∙ (let z : 0 + (i - buf) ≡ i - buf = omega arith in
                ground (arith, clear_bytes_lem 33 m buf i, ap name z)),
      ),
  λ ge. ground arith,
)
