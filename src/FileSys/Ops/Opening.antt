-- ===== src/FileSys/Ops/Opening.antt =====
-- `file_open` of student-distrib/filesys.c on a name that ends.
use ece391_linux_os.Base.{
  ℕ, ◌≡◌, true, some, Bytes, ℤ, pos, minus_one, Bool-cases, Option-cases, inl, inr,
}
use ece391_linux_os.CLib.Str.{strlen}
use ece391_linux_os.FileSys.{FileSystem, find_dentry}
use ece391_linux_os.FileSys.Names.{read_dentry_by_name-find_dentry}
use ece391_linux_os.FileSys.Ops.{file_open, dir_open}

pub file_open-some :
    (fuel : ℕ) (fs : FileSystem) (name : Bytes) (n : ℕ)
    → strlen fuel name ≡ some n
    → (ret : ℤ) × (file_open fuel fs name ≡ some ret)
unfolding file_open
file_open-some fuel fs name n e = elim (Bool-cases fs.present) [
  | inr absent ↦ (minus_one, rw (absent, file_open))
  | inl there ↦ elim (Option-cases (find_dentry fs name n)) [
    | inl missing ↦ (
      minus_one,
      rw (read_dentry_by_name-find_dentry fuel fs name n e, missing, there, file_open),
    )
    | inr (d, hit) ↦
        (pos 0, rw (read_dentry_by_name-find_dentry fuel fs name n e, hit, there, file_open))
  ]
]

-- Opening the directory of a mounted image goes back to its first entry.
pub dir_open-start :
    (fs : FileSystem) → fs.present ≡ true → (dir_open fs).1 ≡ record fs { dir_offset = 0 }
unfolding dir_open
dir_open-start fs here = rw here
