-- ===== src/FileSys/Alike.antt =====
-- The search by name in student-distrib/filesys.c looks at the name up to its zero byte.
use ece391_linux_os.Base.{ℕ, zero, suc, ◌+◌, ◌<◌, ◌≤◌, ◌≡◌, refl, arith, Bytes, ◌==◌, if◌then◌else◌}
use ece391_linux_os.CLib.Str.Alike.{strncmp_ext}
use ece391_linux_os.FileSys.{
  FileSystem, dir_entry, name_size, max_file_count, find_name, find_dentry,
}

find_name_ext :
    (rounds : ℕ) (fs : FileSystem) (s s' : Bytes) (n i : ℕ)
    → ((j : ℕ) → j < n → s j ≡ s' j)
    → find_name rounds fs s n i ≡ find_name rounds fs s' n i
unfolding find_name
find_name_ext zero fs s s' n i h = refl
find_name_ext (suc rounds) fs s s' n i h =
    rw (strncmp_ext n s s' (dir_entry fs i).file_name h, find_name_ext rounds fs s s' n (i + 1) h)
      refl

pub find_dentry_ext :
    (fs : FileSystem) (s s' : Bytes) (n : ℕ)
    → ((j : ℕ) → j ≤ n → s j ≡ s' j)
    → find_dentry fs s n ≡ find_dentry fs s' n
unfolding find_dentry
find_dentry_ext fs s s' n h =
    let compared : ℕ = if n == name_size then n else n + 1 in
    rw (find_name_ext max_file_count fs s s' compared 0 (λ j lt. h j (ground arith))) refl

-- Nor does it depend on the position in the directory.
find_name_offset :
    (rounds p : ℕ) (fs : FileSystem) (s : Bytes) (n i : ℕ)
    → find_name rounds (record fs { dir_offset = p }) s n i ≡ find_name rounds fs s n i
unfolding find_name dir_entry
find_name_offset zero p fs s n i = refl
find_name_offset (suc rounds) p fs s n i = rw (find_name_offset rounds p fs s n (i + 1)) refl

pub find_dentry_offset :
    (p : ℕ) (fs : FileSystem) (s : Bytes) (n : ℕ)
    → find_dentry (record fs { dir_offset = p }) s n ≡ find_dentry fs s n
unfolding find_dentry
find_dentry_offset p fs s n =
    let compared : ℕ = if n == name_size then n else n + 1 in
    let same = find_name_offset max_file_count p fs s compared 0 in ground (arith, same)
