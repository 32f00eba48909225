-- ===== src/Syscalls/Steps.antt =====
-- Reads of a file and of the directory, and writes to the screen, through an open descriptor of the
-- running process: `read` and `write` of student-distrib/system_calls.c.
use ece391_linux_os.Base.{
  List, ℕ, ◌+◌, ◌^◌, ◌<◌, ◌≤◌, ◌≡◌, ◌≢◌, refl, ◌∙◌, ap, arith, some, Bytes, update, ◌==◌, leb, true,
  false, ℤ, pos, minus_one, Bool-cases, inl, inr, ==→eq,
}
use ece391_linux_os.Process.{FileOps, fops_file, fops_dir, std_in, std_out, fd_ok}
use ece391_linux_os.FileSys.{FileSystem, read_data}
use ece391_linux_os.FileSys.Ops.{dir_read}
use ece391_linux_os.FileSys.Ops.Sequential.{advanced, file_read_step}
use ece391_linux_os.Console.{Console, put_bytes}
use ece391_linux_os.Keyboard.{terminal_read}
use ece391_linux_os.Console.Rounds.{terminal_write-put_bytes}
use ece391_linux_os.Syscalls.{
  Kernel, fd_table, set_fd_table, may_use, call_read, call_write, read, write, close, bad_call,
}

may_use_open :
    (k : Kernel) (fd buf n : ℕ)
    → fd < 8
    → buf ≢ 0
    → (fd_table k fd).flags ≢ 0
    → may_use k (pos fd) buf (pos n) ≡ true
unfolding may_use
may_use_open k fd buf n lt there used = ground (arith, there, used)

-- A read through a descriptor of a file whose data is delivered.
pub read_file_step :
    (fuel : ℕ) (k : Kernel) (fd : ℕ) (m r : Bytes) (buf nbytes n : ℕ)
    → k.fs.present ≡ true
    → 2 ≤ fd
    → fd < 8
    → buf ≢ 0
    → nbytes < 2 ^ 31
    → (fd_table k fd).flags ≢ 0
    → (fd_table k fd).fops_ptr ≡ fops_file
    → (fd_table k fd).file_pos + n < 2 ^ 31
    → read_data k.fs (fd_table k fd).inode (fd_table k fd).file_pos m buf nbytes ≡ some (pos n, r)
    → read fuel k (pos fd) m buf (pos nbytes)
      ≡ some (pos n, set_fd_table k (advanced (fd_table k) fd n), r)
unfolding read call_read
read_file_step fuel k fd m r buf nbytes n here lo hi there small used is size run =
    let step = file_read_step k.fs (fd_table k) fd m r buf nbytes n here lo hi small size run in
    rw (may_use_open k fd buf nbytes hi there used, read)
      (ap (λ (ops : FileOps). call_read fuel ops k (pos fd) m buf (pos nbytes)) is
        ∙ rw (step, call_read))

-- A read through a descriptor of the directory.
pub read_dir_step :
    (fuel : ℕ) (k : Kernel) (fd : ℕ) (m r : Bytes) (buf nbytes : ℕ) (ret : ℤ) (fs' : FileSystem)
    → fd < 8
    → buf ≢ 0
    → (fd_table k fd).flags ≢ 0
    → (fd_table k fd).fops_ptr ≡ fops_dir
    → dir_read fuel k.fs m buf ≡ some (ret, fs', r)
    → read fuel k (pos fd) m buf (pos nbytes) ≡ some (ret, record k { fs = fs' }, r)
unfolding read call_read
read_dir_step fuel k fd m r buf nbytes ret fs' hi there used is run =
    rw (may_use_open k fd buf nbytes hi there used, read)
      (ap (λ (ops : FileOps). call_read fuel ops k (pos fd) m buf (pos nbytes)) is
        ∙ rw (run, call_read))

-- A write to the screen.
pub write_screen_step :
    (k : Kernel) (m : Bytes) (buf n : ℕ)
    → buf ≢ 0
    → (fd_table k 1).flags ≢ 0
    → (fd_table k 1).fops_ptr ≡ std_out
    → write k (pos 1) m buf (pos n)
      ≡ some (pos n, record k { console = put_bytes n k.console m buf })
unfolding write call_write
write_screen_step k m buf n there used is =
    let print = terminal_write-put_bytes k.console m buf n there in
    rw (may_use_open k 1 buf n (omega arith) there used, write)
      (ap (λ (ops : FileOps). call_write ops k m buf (pos n)) is ∙ rw (print, call_write))

-- A write to the keyboard and a read from the screen fail.
pub write_std_in_step :
    (k : Kernel) (m : Bytes) (buf : ℕ) (nbytes : ℤ)
    → (fd_table k 0).fops_ptr ≡ std_in
    → write k (pos 0) m buf nbytes ≡ some (minus_one, k)
unfolding write call_write bad_call
write_std_in_step k m buf nbytes is = elim (Bool-cases (may_use k (pos 0) buf nbytes)) [
  | inr refused ↦ rw (refused, write)
  | inl ok ↦ rw (ok, write) (ap (λ (ops : FileOps). call_write ops k m buf nbytes) is)
]

pub read_std_out_step :
    (fuel : ℕ) (k : Kernel) (m : Bytes) (buf : ℕ) (nbytes : ℤ)
    → (fd_table k 1).fops_ptr ≡ std_out
    → read fuel k (pos 1) m buf nbytes ≡ some (minus_one, k, m)
unfolding read call_read bad_call
read_std_out_step fuel k m buf nbytes is = elim (Bool-cases (may_use k (pos 1) buf nbytes)) [
  | inr refused ↦ rw (refused, read)
  | inl ok ↦ rw (ok, read) (ap (λ (ops : FileOps). call_read fuel ops k (pos 1) m buf nbytes) is)
]

-- `close` of a standard descriptor, or of one that is not open.
pub close_standard_step :
    (k : Kernel) (fd : ℕ)
    → fd < 8
    → (2 ≤ fd → (fd_table k fd).flags ≡ 0)
    → close k (pos fd) ≡ (minus_one, k)
unfolding close
close_standard_step k fd lt free = elim (Bool-cases (leb 2 fd)) [
  | inr standard ↦ let out : fd_ok 2 (pos fd) ≡ false = ground arith in rw (out, close)
  | inl le ↦
      let unused : ((fd_table k fd).flags == 0) ≡ true = ground (arith, free (ground arith)) in
      let ok : fd_ok 2 (pos fd) ≡ true = ground arith in rw (ok, unused, close)
]

-- Behind `close` the descriptor is free, and nothing else has changed.
pub close_free_step :
    (k : Kernel) (fd : ℕ)
    → 2 ≤ fd
    → fd < 8
    → (ret : ℤ) × (k' : Kernel) × (close k (pos fd) ≡ (ret, k'))
      × (k'.console ≡ k.console)
      × (k'.fs ≡ k.fs)
      × ((fd_table k' fd).flags ≡ 0)
      × ((i : ℕ) → i ≢ fd → fd_table k' i ≡ fd_table k i)
unfolding close
close_free_step k fd le lt =
    let ok : fd_ok 2 (pos fd) ≡ true = ground arith in
    elim (Bool-cases ((fd_table k fd).flags == 0)) [
      | inl unused ↦
          (minus_one, k, rw (ok, unused, close), refl, refl, ==→eq _ _ unused, λ i ne. refl)
      | inr used ↦ (
        pos 0,
        set_fd_table k (update (fd_table k) fd (record (fd_table k fd) { flags = 0 })),
        rw (ok, used, close),
        refl,
        refl,
        ground arith,
        λ i ne. ground (arith, ne),
      )
    ]

-- A read of a line from the keyboard.
pub read_std_in_step :
    (fuel : ℕ) (k : Kernel) (m m' : Bytes) (buf n ret : ℕ) (c : Console) (later : List ℕ)
    → buf ≢ 0
    → (fd_table k 0).flags ≢ 0
    → (fd_table k 0).fops_ptr ≡ std_in
    → terminal_read k.past_keys k.keys k.console m buf (pos n) ≡ some (pos ret, c, m', later)
    → read fuel k (pos 0) m buf (pos n) ≡ some (pos ret, record k { console = c; keys = later }, m')
unfolding read call_read
read_std_in_step fuel k m m' buf n ret c later there used is run =
    rw (may_use_open k 0 buf n (omega arith) there used, read)
      (ap (λ (ops : FileOps). call_read fuel ops k (pos 0) m buf (pos n)) is ∙ rw (run, call_read))
