-- ===== src/FileSys/Total.antt =====
-- `read_data` always returns.
use ece391_linux_os.Base.{ℕ, ◌≡◌, Bytes, ℤ, pos, minus_one, some, leb, Bool-cases, inl, inr}
use ece391_linux_os.FileSys.{FileSystem, num_of_inodes, inode_length, clamped, read_data}
use ece391_linux_os.FileSys.Data.{returned, loop-Copied}

-- For all arguments, also where `length + offset` wraps round.
pub read_data_returns :
    (fs : FileSystem) (inode offset : ℕ) (m : Bytes) (buf length : ℕ)
    → (ret : ℤ) × (r : Bytes) × (read_data fs inode offset m buf length ≡ some (ret, r))
unfolding read_data
read_data_returns fs inode offset m buf length =
    let n : ℕ = clamped (inode_length fs inode) offset length in
    elim (Bool-cases (leb (num_of_inodes fs) inode)) [
      | inl out ↦ (minus_one, m, rw (out, read_data))
      | inr there ↦ elim (Bool-cases (leb (inode_length fs inode) offset)) [
        | inl past ↦ (pos 0, m, rw (there, past, read_data))
        | inr before ↦
            let (r, run, is) = loop-Copied fs inode n offset m buf in
            (returned offset n, r, rw (there, before, read_data) run)
      ]
    ]
