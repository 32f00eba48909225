-- ===== src/User/OnKernel/Ls.antt =====
-- The program of syscalls/ece391ls.c on the kernel.
pub mod Loop
use mathlib.Core.Path.{subst}
use native.Mathlib.Decide.{dec_lt}
use ece391_linux_os.Base.{
  ℕ, zero, suc, ◌+◌, ◌-◌, ◌<◌, ◌≤◌, ◌≡◌, ◌≢◌, refl, ◌∙◌, ap, sym, arith, some, Option, Bytes, shift,
  update, ◌==◌, true, false, ℤ, pos, min, u32_mod,
}
use ece391_linux_os.Boot.Text.{text, text-IsString}
use ece391_linux_os.Programs.Stacks.{length}
use ece391_linux_os.CLib.Str.Laws.{IsString}
use ece391_linux_os.Process.{FileDesc, fops_dir}
use ece391_linux_os.FileSys.{FileSystem, Dentry, find_dentry, dir_entry, num_of_dir_e}
use ece391_linux_os.FileSys.Ops.{dir_read, dir_open}
use ece391_linux_os.FileSys.Ops.Sequential.{dir_read-dir_entry}
use ece391_linux_os.FileSys.Ops.Opening.{dir_open-start}
use ece391_linux_os.Console.{Console, putc, put_bytes}
use ece391_linux_os.Console.Rounds.{put_bytes-append, put_bytes-putc, put_bytes_ext}
use ece391_linux_os.Syscalls.{Kernel, fd_table, set_fd_table, sys_open}
use ece391_linux_os.Syscalls.Steps.{read_dir_step}
use ece391_linux_os.Syscalls.OpenFile.{fresh}
use ece391_linux_os.User.Basic.{ls_loop, ls}
use ece391_linux_os.User.OnKernel.{kernel_calls, kernel_read, placed}
use ece391_linux_os.User.OnKernel.Opening.{open-dir, fresh-HasScreen}
use ece391_linux_os.User.OnKernel.Files.{HasScreen, printed, printed_table, write-HasScreen}

-- The names of `n` directory entries from entry `i` on, printed a name to a line; `len` gives their
-- lengths.
pub listed : ℕ → FileSystem → (ℕ → ℕ) → Console → ℕ → Console
listed zero fs len c i = c
listed (suc n) fs len c i =
    listed n fs len (putc (put_bytes (min (len i) 32) c (dir_entry fs i).file_name 0) b'\n') (i + 1)

-- Descriptor `fd` is open for the directory.
pub record HasDir (table : ℕ → FileDesc) (fd : ℕ) : Type 0 where
  pub bounds : (2 ≤ fd) × (fd < 8)
  pub is_dir : (table fd).fops_ptr ≡ fops_dir
  pub dir_used : (table fd).flags ≢ 0

-- The names of the entries end, and none is empty.
pub record Names (fs : FileSystem) (len : ℕ → ℕ) (fuel : ℕ) : Type 0 where
  pub mounted : fs.present ≡ true
  pub few : num_of_dir_e fs < u32_mod
  pub names : (i : ℕ) → i < num_of_dir_e fs → IsString (dir_entry fs i).file_name (len i)
  pub some_chars : (i : ℕ) → i < num_of_dir_e fs → (len i ≢ 0) × (len i < fuel)

-- The file system with the directory at entry `p`.
abbrev pub at_entry : FileSystem → ℕ → FileSystem
at_entry fs p = record fs { dir_offset = p }

-- A line of `n` characters of a name, and its newline.
pub line_lem :
    (n : ℕ) (c : Console) (name : Bytes)
    → put_bytes (n + 1) c (update name n b'\n') 0 ≡ putc (put_bytes n c name 0) b'\n'
line_lem n c name =
    let line : Bytes = update name n b'\n' in
    sym (put_bytes-append n 1 c line 0)
    ∙ put_bytes-putc (put_bytes n c line 0) line (0 + n)
    ∙ (let e : line (0 + n) ≡ b'\n' = ground arith in
        ap (λ (ch : ℕ). putc (put_bytes n c line 0) ch) e)
    ∙ ap (λ (c' : Console). putc c' b'\n') (put_bytes_ext n c line name 0 0 (λ i lt. ground arith))

pub line_alike :
    (n : ℕ) (s s' : Bytes)
    → ((i : ℕ) → i < n → s i ≡ s' i)
    → (i : ℕ) → i < n + 1
    → update s n b'\n' i ≡ update s' n b'\n' (0 + i)
line_alike n s s' h i lt =
    let e : 0 + i ≡ i = omega arith in
    elim (dec_lt i n) [ yes inside ↦ ground (arith, h i inside, ap s' e) | no last ↦ ground arith ]

-- A read of the directory: the name of the entry at the position, or the end.
pub read-HasDir :
    (base fuel fd p : ℕ) (len : ℕ → ℕ) (fs : FileSystem) (k : Kernel) (buf : Bytes)
    → base ≢ 0
    → Names fs len fuel
    → k.fs ≡ at_entry fs p
    → HasDir (fd_table k) fd
    → (p < num_of_dir_e fs
        → (buf' : Bytes) × (kernel_read base fuel k (pos fd) buf 0 (pos 32)
            ≡ some (pos (min (len p) 32), record k { fs = at_entry fs (p + 1) }, buf'))
          × ((i : ℕ) → i < min (len p) 32 → buf' i ≡ (dir_entry fs p).file_name i))
      × (num_of_dir_e fs ≤ p
          → kernel_read base fuel k (pos fd) buf 0 (pos 32)
            ≡ some (pos 0, record k { fs = at_entry fs 0 }, shift (placed base buf) base))
unfolding num_of_dir_e dir_entry
read-HasDir base fuel fd p len fs k buf there h at dir =
    let m : Bytes = placed base buf in
    let (more, end) =
      dir_read-dir_entry fuel (at_entry fs p) m (base + 0) (len p) h.mounted h.few in
    let go =
      λ (r : Bytes) (ret : ℤ) (fs' : FileSystem)
          (run : dir_read fuel (at_entry fs p) m (base + 0) ≡ some (ret, fs', r)).
        read_dir_step fuel k fd m r (base + 0) 32 ret fs' dir.bounds.1 (λ z. there (omega arith))
          dir.dir_used dir.is_dir
          (ap (λ (f : FileSystem). dir_read fuel f m (base + 0)) at ∙ run) in
    (
      λ lt.
          let (r, run, is) = more lt (h.names p lt) (h.some_chars p lt).1 in
          (
            shift r base,
            rw (go r _ _ run) refl,
            λ i l.
                let e : base + i - (base + 0) ≡ i = omega arith in
                is (base + i) ∙ ground (arith, ap (dir_entry fs p).file_name e),
          ),
      λ ge. rw (go m _ _ (end ge)) refl,
    )
