-- ===== src/Syscalls/OpenFile.antt =====
-- `open` of student-distrib/system_calls.c for a file or the directory, with a descriptor to spare.
use ece391_linux_os.Base.{
  ℕ, ◌+◌, ◌<◌, ◌≤◌, ◌≡◌, ◌≢◌, ◌⊎◌, refl, ◌∙◌, ap, arith, none, some, Bytes, shift, update, ◌==◌,
  false, pos, inl, inr, minus_one, Bool-cases, ==→ne,
}
use native.Mathlib.Decide.{dec_lt}
use ece391_linux_os.CLib.Str.{strlen}
use ece391_linux_os.CLib.Str.Laws.{IsString, strlen-IsString}
use ece391_linux_os.Process.{FileOps, fops_file, fops_dir, FileDesc}
use ece391_linux_os.FileSys.{Dentry, find_dentry}
use ece391_linux_os.FileSys.Names.{read_dentry_by_name-find_dentry}
use ece391_linux_os.FileSys.Ops.{dir_open}
use ece391_linux_os.FileSys.Ops.Opening.{file_open-some}
use ece391_linux_os.Syscalls.{
  Kernel, fd_table, set_fd_table, find_free, type_ops, call_open, open_entry, sys_open,
}
use ece391_linux_os.Syscalls.Descriptors.{find_free_lem}

-- The descriptor that `open` makes.
abbrev pub fresh : FileOps → ℕ → FileDesc
fresh ops inode = record { fops_ptr = ops; inode = inode; file_pos = 0; flags = 1 }

-- `sys_open` with the results of what it calls.
sys_open_step :
    (fuel : ℕ) (k k' : Kernel) (m : Bytes) (filename n fd inode : ℕ) (d : Dentry) (ops : FileOps)
    → filename ≢ 0
    → IsString (shift m filename) n
    → n ≢ 0
    → n < fuel
    → find_dentry k.fs (shift m filename) n ≡ some d
    → find_free 6 (fd_table k) 2 ≡ some fd
    → type_ops d ≡ some (ops, inode)
    → call_open fuel ops
        (set_fd_table k (update (fd_table k) fd (fresh ops inode)))
        (shift m filename)
      ≡ some k'
    → sys_open fuel k m filename ≡ some (pos fd, k')
unfolding sys_open open_entry
sys_open_step fuel k k' m filename n fd inode d ops there string chars lt found free kind run =
    let e : strlen fuel (shift m filename) ≡ some n = (strlen-IsString fuel _ n).0 string lt in
    let search = read_dentry_by_name-find_dentry fuel k.fs (shift m filename) n e in
    let t : (filename == 0) ≡ false = ground (arith, there) in
    let c : (n == 0) ≡ false = ground (arith, chars) in
    rw (t, e, c, search, found, free, kind, run, open_entry, sys_open)

-- A free descriptor is found if there is one.
find_free-free :
    (table : ℕ → FileDesc) (i : ℕ)
    → 2 ≤ i
    → i < 8
    → (table i).flags ≡ 0
    → (fd : ℕ) × (find_free 6 table 2 ≡ some fd) × (2 ≤ fd) × (fd < 8)
find_free-free table i le lt free = elim (find_free_lem 6 table 2) [
  | inl (e, all) ↦ absurd (all i le lt free)
  | inr (fd, e, lo, hi, is, before) ↦ (fd, e, lo, hi)
]

-- A file of data.
pub sys_open-file :
    (fuel : ℕ) (k : Kernel) (m : Bytes) (filename n i : ℕ) (d : Dentry)
    → filename ≢ 0
    → IsString (shift m filename) n
    → n ≢ 0
    → n < fuel
    → find_dentry k.fs (shift m filename) n ≡ some d
    → d.file_type ≡ 2
    → 2 ≤ i
    → i < 8
    → (fd_table k i).flags ≡ 0
    → (fd : ℕ) × (2 ≤ fd)
      × (fd < 8)
      × (sys_open fuel k m filename
          ≡ some (pos fd, set_fd_table k (update (fd_table k) fd (fresh fops_file d.inode))))
unfolding call_open type_ops
sys_open-file fuel k m filename n i d there string chars lt found is_file le hi free =
    let (fd, e, lo, up) = find_free-free (fd_table k) i le hi free in
    let kind : type_ops d ≡ some (fops_file, d.inode) = rw (is_file, type_ops) in
    let len : strlen fuel (shift m filename) ≡ some n = (strlen-IsString fuel _ n).0 string lt in
    let (ret, run) = file_open-some fuel k.fs (shift m filename) n len in
    (
      fd,
      lo,
      up,
      sys_open_step fuel k _ m filename n fd d.inode d fops_file there string chars lt found e kind
          (rw (run, call_open)),
    )

-- The directory, at the descriptor that the search comes to.
pub sys_open-dir_at :
    (fuel : ℕ) (k : Kernel) (m : Bytes) (filename n fd : ℕ) (d : Dentry)
    → filename ≢ 0
    → IsString (shift m filename) n
    → n ≢ 0
    → n < fuel
    → find_dentry k.fs (shift m filename) n ≡ some d
    → d.file_type ≡ 1
    → find_free 6 (fd_table k) 2 ≡ some fd
    → sys_open fuel k m filename
      ≡ some (
        pos fd,
        record (set_fd_table k (update (fd_table k) fd (fresh fops_dir 0))) {
          fs = (dir_open k.fs).1;
        },
      )
unfolding call_open type_ops
sys_open-dir_at fuel k m filename n fd d there string chars lt found is_dir e =
    let kind : type_ops d ≡ some (fops_dir, 0) = rw (is_dir, type_ops) in
    sys_open_step fuel k _ m filename n fd 0 d fops_dir there string chars lt found e kind refl

pub sys_open-dir :
    (fuel : ℕ) (k : Kernel) (m : Bytes) (filename n i : ℕ) (d : Dentry)
    → filename ≢ 0
    → IsString (shift m filename) n
    → n ≢ 0
    → n < fuel
    → find_dentry k.fs (shift m filename) n ≡ some d
    → d.file_type ≡ 1
    → 2 ≤ i
    → i < 8
    → (fd_table k i).flags ≡ 0
    → (fd : ℕ) × (2 ≤ fd)
      × (fd < 8)
      × (sys_open fuel k m filename
          ≡ some (
            pos fd,
            record (set_fd_table k (update (fd_table k) fd (fresh fops_dir 0))) {
              fs = (dir_open k.fs).1;
            },
          ))
sys_open-dir fuel k m filename n i d there string chars lt found is_dir le hi free =
    let (fd, e, lo, up) = find_free-free (fd_table k) i le hi free in
    (fd, lo, up, sys_open-dir_at fuel k m filename n fd d there string chars lt found is_dir e)

-- The lowest free descriptor, and a table that has none.
pub find_free-lowest :
    (table : ℕ → FileDesc) (j : ℕ)
    → j < 6
    → ((i : ℕ) → 2 ≤ i → i < 2 + j → (table i).flags ≢ 0)
    → (table (2 + j)).flags ≡ 0
    → find_free 6 table 2 ≡ some (2 + j)
find_free-lowest table j lt used free = elim (find_free_lem 6 table 2) [
  | inl (e, all) ↦ absurd (all (2 + j) (omega arith) (omega arith) free)
  | inr (fd, e, lo, hi, is, before) ↦ elim (dec_lt fd (2 + j)) [
    | yes p ↦ absurd (used fd lo p is)
    | no p ↦ elim (dec_lt (2 + j) fd) [
      | yes q ↦ absurd (before (2 + j) (omega arith) q free)
      | no q ↦ e ∙ ap (λ (x : ℕ). some x) (omega arith)
    ]
  ]
]

pub sys_open-full :
    (fuel : ℕ) (k : Kernel) (m : Bytes) (filename n : ℕ) (d : Dentry)
    → filename ≢ 0
    → IsString (shift m filename) n
    → n ≢ 0
    → n < fuel
    → find_dentry k.fs (shift m filename) n ≡ some d
    → ((i : ℕ) → 2 ≤ i → i < 8 → (fd_table k i).flags ≢ 0)
    → sys_open fuel k m filename ≡ some (minus_one, k)
unfolding sys_open open_entry
sys_open-full fuel k m filename n d there string chars lt found used =
    let e : strlen fuel (shift m filename) ≡ some n = (strlen-IsString fuel _ n).0 string lt in
    let search = read_dentry_by_name-find_dentry fuel k.fs (shift m filename) n e in
    let t : (filename == 0) ≡ false = ground (arith, there) in
    let c : (n == 0) ≡ false = ground (arith, chars) in
    let none_free : find_free 6 (fd_table k) 2 ≡ none = elim (find_free_lem 6 (fd_table k) 2) [
      | inl (no_fd, all) ↦ no_fd
      | inr (fd, some_fd, lo, hi, is, before) ↦ absurd (used fd lo hi is)
    ] in
    rw (t, e, c, search, found, none_free, open_entry, sys_open)

-- A name that is empty or not in the directory.
pub sys_open-missing :
    (fuel : ℕ) (k : Kernel) (m : Bytes) (filename n : ℕ)
    → IsString (shift m filename) n
    → n < fuel
    → (n ≡ 0) ⊎ (find_dentry k.fs (shift m filename) n ≡ none)
    → sys_open fuel k m filename ≡ some (minus_one, k)
unfolding sys_open
sys_open-missing fuel k m filename n string lt bad =
    let e : strlen fuel (shift m filename) ≡ some n = (strlen-IsString fuel _ n).0 string lt in
    let search = read_dentry_by_name-find_dentry fuel k.fs (shift m filename) n e in
    elim (Bool-cases (filename == 0)) [
      | inl null ↦ rw (null, sys_open)
      | inr there ↦ elim (Bool-cases (n == 0)) [
        | inl empty ↦ rw (there, e, empty, sys_open)
        | inr chars ↦ elim bad [
          | inl z ↦ absurd (==→ne _ _ chars z)
          | inr missing ↦ rw (there, e, chars, search, missing, sys_open)
        ]
      ]
    ]
