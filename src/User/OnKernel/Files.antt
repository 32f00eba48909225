-- ===== src/User/OnKernel/Files.antt =====
-- What a program of syscalls/ finds when it reads a file and writes to the screen, with the kernel's
-- `read` and `write` of student-distrib/system_calls.c.
use ece391_linux_os.Base.{
  ℕ, ◌+◌, ◌-◌, ◌^◌, ◌<◌, ◌≤◌, ◌≡◌, ◌≢◌, refl, ◌∙◌, ap, sym, arith, some, Bytes, shift, ℤ, pos, true,
  min,
}
use mathlib.Core.Path.{subst}
use native.Mathlib.Decide.{dec_lt}
use ece391_linux_os.CLib.Mem.Laws.{within}
use ece391_linux_os.Process.{FileDesc, fops_file, std_out, get_pcb}
use ece391_linux_os.FileSys.{FileSystem, four_kb, inode_length, num_of_inodes, read_data}
use ece391_linux_os.FileSys.Data.{file_byte, returned, read_data-file_byte, read_data-outside}
use ece391_linux_os.FileSys.Ops.Sequential.{advanced}
use ece391_linux_os.Console.{Console, put_bytes}
use ece391_linux_os.Console.Processes.{put_bytes-SameProcesses}
use ece391_linux_os.Console.Rounds.{put_bytes_ext}
use ece391_linux_os.Syscalls.{Kernel, fd_table, set_fd_table, write}
use ece391_linux_os.Syscalls.Steps.{read_file_step, write_screen_step}
use ece391_linux_os.User.OnKernel.{placed, kernel_read}

-- A read of less than a block returns the number of bytes that it delivers.
returned-block : (offset n : ℕ) → n < four_kb → returned offset n ≡ pos n
returned-block offset n h = ground arith

-- Descriptor 1 of a table is the screen.
pub record HasScreen (table : ℕ → FileDesc) : Type 0 where
  pub screen : (table 1).fops_ptr ≡ std_out
  pub screen_used : (table 1).flags ≢ 0

-- Descriptor `fd` is open for the file of an inode, at position `p`.
pub record HasFile (table : ℕ → FileDesc) (fd inode p : ℕ) : Type 0 where
  pub bounds : (2 ≤ fd) × (fd < 8)
  pub is_file : (table fd).fops_ptr ≡ fops_file
  pub of_inode : (table fd).inode ≡ inode
  pub at_pos : (table fd).file_pos ≡ p
  pub file_used : (table fd).flags ≢ 0

-- The file system has a file of `len` bytes at an inode.
pub record HasInode (fs : FileSystem) (inode len : ℕ) : Type 0 where
  pub mounted : fs.present ≡ true
  pub in_range : inode < num_of_inodes fs
  pub of_length : inode_length fs inode ≡ len
  pub not_huge : len < 2 ^ 31 - 4096

-- The state behind a read of `n` bytes, and behind a write to the screen.
abbrev pub moved : Kernel → ℕ → ℕ → Kernel
moved k fd n = set_fd_table k (advanced (fd_table k) fd n)

abbrev pub printed : Kernel → Bytes → ℕ → ℕ → Kernel
printed k b j n = record k { console = put_bytes n k.console b j }

pub moved_table : (k : Kernel) (fd n : ℕ) → fd_table (moved k fd n) ≡ advanced (fd_table k) fd n
moved_table k fd n = ground arith

pub printed_table : (k : Kernel) (b : Bytes) (j n : ℕ) → fd_table (printed k b j n) ≡ fd_table k
printed_table k b j n =
    let kept = put_bytes-SameProcesses n k.console b j in
    ap (λ (front : ℤ). (k.pcb (get_pcb front)).fd_table)
      (ap (λ (v : ℕ). ((put_bytes n k.console b j).t v).running_process) kept.same_visible
        ∙ (kept.same k.console.t_visible).0)

pub advanced-HasScreen :
    (table : ℕ → FileDesc) (fd n : ℕ) → 2 ≤ fd → HasScreen table → HasScreen (advanced table fd n)
advanced-HasScreen table fd n le h = record {
  screen = ground (arith, h.screen);
  screen_used = ground (arith, h.screen_used);
}

pub advanced-HasFile :
    (table : ℕ → FileDesc) (fd n inode p : ℕ)
    → HasFile table fd inode p
    → HasFile (advanced table fd n) fd inode (p + n)
advanced-HasFile table fd n inode p h = record {
  bounds = h.bounds;
  is_file = ground (arith, h.is_file);
  of_inode = ground (arith, h.of_inode);
  at_pos = ground (arith, h.at_pos);
  file_used = ground (arith, h.file_used);
}

-- The state behind a read and a write of what was read.
pub round-HasScreen :
    (k : Kernel) (fd n : ℕ) (b : Bytes) (j : ℕ)
    → 2 ≤ fd
    → HasScreen (fd_table k)
    → HasScreen (fd_table (moved k fd n)) × HasScreen (fd_table (printed (moved k fd n) b j n))
round-HasScreen k fd n b j le s =
    let s' : HasScreen (fd_table (moved k fd n)) =
      subst (λ (t : ℕ → FileDesc). HasScreen t) (sym (moved_table k fd n))
        (advanced-HasScreen (fd_table k) fd n le s) in
    (s', subst (λ (t : ℕ → FileDesc). HasScreen t) (sym (printed_table (moved k fd n) b j n)) s')

pub round-HasFile :
    (k : Kernel) (fd n inode p : ℕ) (b : Bytes) (j : ℕ)
    → HasFile (fd_table k) fd inode p
    → HasFile (fd_table (printed (moved k fd n) b j n)) fd inode (p + n)
round-HasFile k fd n inode p b j f =
    subst (λ (t : ℕ → FileDesc). HasFile t fd inode (p + n))
      (sym (printed_table (moved k fd n) b j n ∙ moved_table k fd n))
      (advanced-HasFile (fd_table k) fd n inode p f)

-- What `read_data` leaves for a read of up to 1024 bytes, at the end of the file too.
read_data-HasInode :
    (fs : FileSystem) (inode p len nbytes : ℕ) (m : Bytes) (buf : ℕ)
    → nbytes < four_kb
    → HasInode fs inode len
    → p ≤ len
    → let n = min nbytes (len - p) in
      (r : Bytes) × (read_data fs inode p m buf nbytes ≡ some (pos n, r))
      × ((i : ℕ) → i < n → r (buf + i) ≡ file_byte fs inode (p + i))
read_data-HasInode fs inode p len nbytes m buf small i le = elim (dec_lt p len) [
  | yes inside ↦
      let n : ℕ = min nbytes (len - p) in
      let same : min nbytes (inode_length fs inode - p) ≡ n =
        ap (λ (l : ℕ). min nbytes (l - p)) i.of_length in
      let (r, run, is) =
        read_data-file_byte fs inode p nbytes m buf i.in_range (omega (arith, i.of_length))
          (omega (arith, i.of_length, i.not_huge)) (omega (arith, i.not_huge)) in
      (
        r,
        run
            ∙ ap (λ (l : ℕ). some (returned p l, r)) same
            ∙ ap (λ (ret : ℤ). some (ret, r)) (returned-block p n (omega arith)),
        λ j lt.
            let at : within buf (min nbytes (inode_length fs inode - p)) (buf + j) ≡ true =
              ground (arith, same) in
            is (buf + j) ∙ rw at (ap (λ (q : ℕ). file_byte fs inode (p + q)) (omega arith)),
      )
  | no end ↦ (
    m,
    (read_data-outside fs inode p nbytes m buf).1 i.in_range (omega (arith, i.of_length))
        ∙ ap (λ (l : ℕ). some (pos l, m)) (omega arith),
    λ j lt. absurd (omega arith),
  )
]

-- What a read of less than a block does.
pub read-HasFile :
    (base fuel : ℕ) (k : Kernel) (fd inode p len nbytes : ℕ) (array : Bytes)
    → base ≢ 0
    → nbytes < four_kb
    → HasInode k.fs inode len
    → HasFile (fd_table k) fd inode p
    → p ≤ len
    → let n = min nbytes (len - p) in
      (array' : Bytes) × (kernel_read base fuel k (pos fd) array 0 (pos nbytes)
        ≡ some (pos n, moved k fd n, array'))
      × ((i : ℕ) → i < n → array' i ≡ file_byte k.fs inode (p + i))
read-HasFile base fuel k fd inode p len nbytes array there small i f le =
    let n : ℕ = min nbytes (len - p) in
    let m : Bytes = placed base array in
    let (r, run, is) = read_data-HasInode k.fs inode p len nbytes m (base + 0) small i le in
    let at : read_data k.fs (fd_table k fd).inode (fd_table k fd).file_pos m (base + 0) nbytes
        ≡ some (pos n, r) =
      rw (f.of_inode, f.at_pos) run in
    let step =
      read_file_step fuel k fd m r (base + 0) nbytes n i.mounted f.bounds.0 f.bounds.1
        (λ z. there (omega arith)) (omega arith) f.file_used f.is_file
        (omega (arith, f.at_pos, i.not_huge)) at in
    (
      shift r base,
      rw step refl,
      λ j lt. let e : base + j ≡ base + 0 + j = omega arith in ap r e ∙ is j lt,
    )

-- What a write of the first `n` characters of an array does, which stand in `b` from `j` on.
pub write-HasScreen :
    (base : ℕ) (k : Kernel) (array b : Bytes) (j n : ℕ)
    → base ≢ 0
    → HasScreen (fd_table k)
    → ((i : ℕ) → i < n → array i ≡ b (j + i))
    → write k (pos 1) (placed base array) (base + 0) (pos n) ≡ some (pos n, printed k b j n)
write-HasScreen base k array b j n there s is =
    write_screen_step k (placed base array) (base + 0) n (λ z. there (omega arith)) s.screen_used
      s.screen
    ∙ ap (λ (c : Console). some (pos n, record k { console = c }))
        (put_bytes_ext n k.console (placed base array) b (base + 0) j
          (λ i lt. let e : base + 0 + i - base ≡ i = omega arith in ap array e ∙ is i lt))
