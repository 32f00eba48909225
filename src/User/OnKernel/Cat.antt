-- ===== src/User/OnKernel/Cat.antt =====
-- The program of syscalls/ece391cat.c on the kernel.
use ece391_linux_os.Base.{
  ℕ, zero, suc, ◌+◌, ◌-◌, ◌*◌, ◌<◌, ◌≤◌, ◌≡◌, ◌≢◌, refl, ◌∙◌, ap, arith, some, Option, Bytes,
  update, ◌==◌, false, ℤ, pos, min,
}
use native.Mathlib.Decide.{dec_lt}
use mathlib.Core.Path.{sym}
use ece391_linux_os.CLib.Str.Laws.{IsString}
use ece391_linux_os.Process.{fops_file}
use ece391_linux_os.FileSys.{Dentry, find_dentry}
use ece391_linux_os.FileSys.Data.{file_byte}
use ece391_linux_os.Console.{put_bytes}
use ece391_linux_os.Console.Rounds.{put_bytes-append, put_bytes-none}
use ece391_linux_os.Syscalls.{Kernel, running, fd_table, set_fd_table, sys_open}
use ece391_linux_os.Syscalls.OpenFile.{fresh}
use ece391_linux_os.User.Basic.{cat_loop, cat}
use ece391_linux_os.User.OnKernel.{kernel_calls, kernel_read, kernel_getargs, placed}
use ece391_linux_os.User.OnKernel.Opening.{
  kernel_getargs-arguments, open-file, fresh-HasScreen, fresh-HasFile,
}
use ece391_linux_os.User.OnKernel.Files.{
  HasScreen, HasFile, HasInode, moved, printed, round-HasScreen, round-HasFile, read-HasFile,
  write-HasScreen,
}

module _ (base pt scan : ℕ) (launch : Kernel → Bytes → Option (ℤ × Kernel))
    (gate : Kernel → ℤ → Option (ℤ × Kernel)) (there : base ≢ 0) where
  -- A round that prints `n` bytes.
  cat_loop_step :
      (fuel fd n : ℕ) (k k' k'' : Kernel) (buf buf' : Bytes)
      → n ≢ 0
      → kernel_read base scan k (pos fd) buf 0 (pos 1024) ≡ some (pos n, k', buf')
      → (kernel_calls base pt scan launch gate).write_from k' (pos 1) buf' 0 (pos n)
        ≡ some (pos n, k'')
      → cat_loop (suc fuel) (kernel_calls base pt scan launch gate) scan k (pos fd) buf
        ≡ cat_loop fuel (kernel_calls base pt scan launch gate) scan k'' (pos fd) buf'
  unfolding cat_loop
  cat_loop_step fuel fd n k k' k'' buf buf' some_left r w =
      let more : (n == 0) ≡ false = ground (arith, some_left) in rw (r, more, w, cat_loop) refl

  -- The last round.
  cat_loop_end :
      (fuel fd n : ℕ) (k k' : Kernel) (buf buf' : Bytes)
      → n ≡ 0
      → kernel_read base scan k (pos fd) buf 0 (pos 1024) ≡ some (pos n, k', buf')
      → cat_loop (suc fuel) (kernel_calls base pt scan launch gate) scan k (pos fd) buf
        ≡ some (pos 0, k')
  unfolding cat_loop
  cat_loop_end fuel fd n k k' buf buf' e r = rw (r, e, cat_loop) refl

  -- From position `p` on, the loop prints the rest of the file.
  cat_loop_lem :
      (fuel fd inode p len : ℕ) (k : Kernel) (buf : Bytes)
      → HasInode k.fs inode len
      → HasScreen (fd_table k)
      → HasFile (fd_table k) fd inode p
      → p ≤ len
      → len - p + 1024 ≤ 1024 * fuel
      → (k' : Kernel) × (cat_loop fuel (kernel_calls base pt scan launch gate) scan k (pos fd) buf
          ≡ some (pos 0, k'))
        × (k'.console ≡ put_bytes (len - p) k.console (file_byte k.fs inode) p)
  unfolding cat_loop
  cat_loop_lem zero fd inode p len k buf i s f le enough = absurd (omega arith)
  cat_loop_lem (suc fuel) fd inode p len k buf i s f le enough =
      let n : ℕ = min 1024 (len - p) in
      let (buf', r, is) =
        read-HasFile base scan k fd inode p len 1024 buf there (omega arith) i f le in
      let k' : Kernel = moved k fd n in
      elim (dec_lt p len) [
        | yes inside ↦
            let (s', s'') = round-HasScreen k fd n (file_byte k.fs inode) p f.bounds.0 s in
            let w = write-HasScreen base k' buf' (file_byte k.fs inode) p n there s' is in
            let k'' : Kernel = printed k' (file_byte k.fs inode) p n in
            let (kr, run, shown) =
              cat_loop_lem fuel fd inode (p + n) len k'' buf' i s''
                (round-HasFile k fd n inode p (file_byte k.fs inode) p f) (omega arith)
                (omega arith) in
            (
              kr,
              cat_loop_step fuel fd n k k' k'' buf buf' (λ z. absurd (omega arith)) r w ∙ run,
              shown
                  ∙ put_bytes-append n (len - (p + n)) k.console (file_byte k.fs inode) p
                  ∙ ap (λ (l : ℕ). put_bytes l k.console (file_byte k.fs inode) p) (omega arith),
            )
        | no end ↦ (
          k',
          cat_loop_end fuel fd n k k' buf buf' (omega arith) r,
          sym (put_bytes-none (len - p) k.console (file_byte k.fs inode) p (omega arith)),
        )
      ]

-- `cat` with what its first calls give.
cat_step :
    (base pt fuel fd : ℕ) (launch : Kernel → Bytes → Option (ℤ × Kernel))
    (gate : Kernel → ℤ → Option (ℤ × Kernel)) (k k1 : Kernel) (buf buf' : Bytes)
    → kernel_getargs base fuel k buf (pos 1024) ≡ some (pos 0, buf')
    → sys_open fuel k (placed base buf') base ≡ some (pos fd, k1)
    → cat (kernel_calls base pt fuel launch gate) fuel k buf
      ≡ cat_loop fuel (kernel_calls base pt fuel launch gate) fuel k1 (pos fd) buf'
unfolding cat
cat_step base pt fuel fd launch gate k k1 buf buf' got opens = rw (got, opens, cat) refl

-- `cat`, run by a process whose argument is the name of a file in the directory, of 1 to 1023
-- characters, with the screen at descriptor 1, a descriptor to spare and an array that is not at
-- the address 0, ends: on a mounted image that has the file's inode, with less than 2 GB less a
-- block in the file, and with fuel for the file's length and for the scan of the name, it returns
-- 0 and has printed exactly the bytes of the file, in order.
pub cat-put_bytes :
    (base pt fuel : ℕ) (launch : Kernel → Bytes → Option (ℤ × Kernel))
    (gate : Kernel → ℤ → Option (ℤ × Kernel)) (k : Kernel) (buf : Bytes) (n i len : ℕ) (d : Dentry)
    → base ≢ 0
    → IsString (k.pcb (running k)).arg n
    → n ≢ 0
    → n < 1024
    → n < fuel
    → find_dentry k.fs (k.pcb (running k)).arg n ≡ some d
    → d.file_type ≡ 2
    → HasInode k.fs d.inode len
    → HasScreen (fd_table k)
    → 2 ≤ i
    → i < 8
    → (fd_table k i).flags ≡ 0
    → len + 1024 ≤ 1024 * fuel
    → (k' : Kernel) × (cat (kernel_calls base pt fuel launch gate) fuel k buf ≡ some (pos 0, k'))
      × (k'.console ≡ put_bytes len k.console (file_byte k.fs d.inode) 0)
cat-put_bytes base pt fuel launch gate k buf n i len d there string chars short lt found is_file
      inode screen le hi free enough =
    let (buf', got, same) = kernel_getargs-arguments base fuel k buf n 1024 there string lt short in
    let (fd, lo, up, opens) =
      open-file base fuel k (k.pcb (running k)).arg buf' n i d there string chars lt same found le
        hi free is_file in
    let k1 : Kernel = set_fd_table k (update (fd_table k) fd (fresh fops_file d.inode)) in
    let (k', run, shown) =
      cat_loop_lem base pt fuel launch gate there fuel fd d.inode 0 len k1 buf' inode
        (fresh-HasScreen k fd (fresh fops_file d.inode) lo screen)
        (fresh-HasFile k fd d.inode lo up) (omega arith) (omega arith) in
    (
      k',
      cat_step base pt fuel fd launch gate k k1 buf buf' got opens ∙ run,
      shown ∙ ap (λ (l : ℕ). put_bytes l k.console (file_byte k.fs d.inode) 0) (omega arith),
    )
