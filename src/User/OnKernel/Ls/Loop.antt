-- ===== src/User/OnKernel/Ls/Loop.antt =====
-- The loop of syscalls/ece391ls.c on the kernel, and the program.
use mathlib.Core.Path.{subst}
use ece391_linux_os.Base.{
  ℕ, zero, suc, ◌+◌, ◌<◌, ◌≤◌, ◌≡◌, ◌≢◌, refl, ◌∙◌, ap, sym, arith, some, Option, Bytes, update,
  ◌==◌, false, ℤ, pos, min,
}
use ece391_linux_os.Boot.Text.{text, text-IsString}
use ece391_linux_os.Programs.Stacks.{length}
use ece391_linux_os.CLib.Str.Laws.{IsString}
use ece391_linux_os.Process.{FileDesc, fops_dir}
use ece391_linux_os.FileSys.{FileSystem, Dentry, find_dentry, dir_entry, num_of_dir_e}
use ece391_linux_os.FileSys.Ops.{dir_open}
use ece391_linux_os.FileSys.Ops.Opening.{dir_open-start}
use ece391_linux_os.Console.{Console}
use ece391_linux_os.Syscalls.{Kernel, fd_table, set_fd_table, sys_open}
use ece391_linux_os.Syscalls.OpenFile.{fresh}
use ece391_linux_os.User.Basic.{ls_loop, ls}
use ece391_linux_os.User.OnKernel.{kernel_calls, kernel_read, placed}
use ece391_linux_os.User.OnKernel.Opening.{open-dir, fresh-HasScreen}
use ece391_linux_os.User.OnKernel.Files.{HasScreen, printed, printed_table, write-HasScreen}
use ece391_linux_os.User.OnKernel.Ls.{
  listed, HasDir, Names, at_entry, line_lem, line_alike, read-HasDir,
}

-- The state behind a round of the loop.
round-HasDir :
    (k : Kernel) (fd n : ℕ) (fs' : FileSystem) (b : Bytes)
    → HasScreen (fd_table k)
    → HasDir (fd_table k) fd
    → HasScreen (fd_table (printed (record k { fs = fs' }) b 0 n))
      × HasDir (fd_table (printed (record k { fs = fs' }) b 0 n)) fd
round-HasDir k fd n fs' b s h =
    let e : fd_table (printed (record k { fs = fs' }) b 0 n) ≡ fd_table k =
      printed_table (record k { fs = fs' }) b 0 n in
    (
      subst (λ (t : ℕ → FileDesc). HasScreen t) (sym e) s,
      subst (λ (t : ℕ → FileDesc). HasDir t fd) (sym e) h,
    )

module _ (base pt scan : ℕ) (launch : Kernel → Bytes → Option (ℤ × Kernel))
    (gate : Kernel → ℤ → Option (ℤ × Kernel)) (there : base ≢ 0) where
  -- A round that prints a name of `n` characters.
  ls_loop_step :
      (fuel fd n : ℕ) (k k' k'' : Kernel) (buf buf' : Bytes)
      → n ≢ 0
      → kernel_read base scan k (pos fd) buf 0 (pos 32) ≡ some (pos n, k', buf')
      → (kernel_calls base pt scan launch gate).write_from k'
          (pos 1)
          (update buf' n b'\n')
          0
          (pos (n + 1))
        ≡ some (pos (n + 1), k'')
      → ls_loop (suc fuel) (kernel_calls base pt scan launch gate) scan k (pos fd) buf
        ≡ ls_loop fuel
            (kernel_calls base pt scan launch gate)
            scan
            k''
            (pos fd)
            (update buf' n b'\n')
  unfolding ls_loop
  ls_loop_step fuel fd n k k' k'' buf buf' some_left r w =
      let more : (n == 0) ≡ false = ground (arith, some_left) in rw (r, more, w, ls_loop) refl

  -- The last round.
  ls_loop_end :
      (fuel fd : ℕ) (k k' : Kernel) (buf buf' : Bytes)
      → kernel_read base scan k (pos fd) buf 0 (pos 32) ≡ some (pos 0, k', buf')
      → ls_loop (suc fuel) (kernel_calls base pt scan launch gate) scan k (pos fd) buf
        ≡ some (pos 0, k')
  unfolding ls_loop
  ls_loop_end fuel fd k k' buf buf' r = rw (r, ls_loop) refl

  -- From entry `p` on, the loop prints the other names.
  ls_loop_lem :
      (left fuel fd p : ℕ) (len : ℕ → ℕ) (fs : FileSystem) (k : Kernel) (buf : Bytes)
      → Names fs len scan
      → k.fs ≡ at_entry fs p
      → HasScreen (fd_table k)
      → HasDir (fd_table k) fd
      → p + left ≡ num_of_dir_e fs
      → left < fuel
      → (k' : Kernel) × (ls_loop fuel (kernel_calls base pt scan launch gate) scan k (pos fd) buf
          ≡ some (pos 0, k'))
        × (k'.console ≡ listed left fs len k.console p)
  unfolding listed
  ls_loop_lem left zero fd p len fs k buf h at s dir all enough = absurd (omega arith)
  ls_loop_lem zero (suc fuel) fd p len fs k buf h at s dir all enough = (
    record k { fs = at_entry fs 0 },
    ls_loop_end fuel fd k _ buf _
        ((read-HasDir base scan fd p len fs k buf there h at dir).1 (omega arith)),
    refl,
  )
  ls_loop_lem (suc left) (suc fuel) fd p len fs k buf h at s dir all enough =
      let n : ℕ = min (len p) 32 in
      let lt : p < num_of_dir_e fs = omega arith in
      let (buf', r, is) = (read-HasDir base scan fd p len fs k buf there h at dir).0 lt in
      let k1 : Kernel = record k { fs = at_entry fs (p + 1) } in
      let b : Bytes = update (dir_entry fs p).file_name n b'\n' in
      let w =
        write-HasScreen base k1 (update buf' n b'\n') b 0 (n + 1) there s
          (line_alike n buf' (dir_entry fs p).file_name is) in
      let (s', dir') = round-HasDir k fd (n + 1) (at_entry fs (p + 1)) b s dir in
      let (k', run, shown) =
        ls_loop_lem left fuel fd (p + 1) len fs (printed k1 b 0 (n + 1)) (update buf' n b'\n') h
          refl s' dir' (omega arith) (omega arith) in
      (
        k',
        ls_loop_step fuel fd n k k1 (printed k1 b 0 (n + 1)) buf buf'
              (λ z. (h.some_chars p lt).0 (omega arith)) r w
            ∙ run,
        shown
            ∙ ap (λ (c : Console). listed left fs len c (p + 1))
                (line_lem n k.console (dir_entry fs p).file_name),
      )

-- `ls` with what its first call gives.
ls_step :
    (base pt fuel fd : ℕ) (launch : Kernel → Bytes → Option (ℤ × Kernel))
    (gate : Kernel → ℤ → Option (ℤ × Kernel)) (k k1 : Kernel) (buf : Bytes)
    → sys_open fuel k (placed base (text ".")) base ≡ some (pos fd, k1)
    → ls (kernel_calls base pt fuel launch gate) fuel k buf
      ≡ ls_loop fuel (kernel_calls base pt fuel launch gate) fuel k1 (pos fd) buf
unfolding ls
ls_step base pt fuel fd launch gate k k1 buf opens = rw (opens, ls) refl

dot-IsString : IsString (text ".") 1
unfolding length
dot-IsString = (text-IsString "." refl).0

fresh-HasDir :
    (k : Kernel) (fd : ℕ) (fs : FileSystem)
    → 2 ≤ fd
    → fd < 8
    → HasDir
        (fd_table (record (set_fd_table k (update (fd_table k) fd (fresh fops_dir 0))) { fs = fs }))
        fd
fresh-HasDir k fd fs le lt =
    let e : fd_table (set_fd_table k (update (fd_table k) fd (fresh fops_dir 0)))
        ≡ update (fd_table k) fd (fresh fops_dir 0) =
      ground arith in
    subst (λ (t : ℕ → FileDesc). HasDir t fd) (sym e)
      (record { bounds = (le, lt); is_dir = ground arith; dir_used = ground arith })

-- `ls`, run by a process with the screen at descriptor 1, a descriptor to spare and an array that
-- is not at the address 0, on a mounted image whose directory has an entry "." of the directory's
-- type and no empty name or name without an end, ends: with fuel for the entries and for the scans
-- of their names it returns 0, and has printed the name of each entry of the directory in order,
-- its first 32 characters and a newline.
pub ls-listed :
    (base pt fuel : ℕ) (launch : Kernel → Bytes → Option (ℤ × Kernel))
    (gate : Kernel → ℤ → Option (ℤ × Kernel)) (k : Kernel) (buf : Bytes) (i : ℕ) (len : ℕ → ℕ)
    (d : Dentry)
    → base ≢ 0
    → find_dentry k.fs (text ".") 1 ≡ some d
    → d.file_type ≡ 1
    → Names k.fs len fuel
    → HasScreen (fd_table k)
    → 2 ≤ i
    → i < 8
    → (fd_table k i).flags ≡ 0
    → num_of_dir_e k.fs < fuel
    → 1 < fuel
    → (k' : Kernel) × (ls (kernel_calls base pt fuel launch gate) fuel k buf ≡ some (pos 0, k'))
      × (k'.console ≡ listed (num_of_dir_e k.fs) k.fs len k.console 0)
ls-listed base pt fuel launch gate k buf i len d there found is_dir h screen le hi free enough two =
    let (fd, lo, up, opens) =
      open-dir base fuel k (text ".") (text ".") 1 i d there dot-IsString
        (λ e. absurd (omega (arith, e))) two (λ j l. refl) found le hi free is_dir in
    let k1 : Kernel = record (set_fd_table k (update (fd_table k) fd (fresh fops_dir 0))) {
      fs = (dir_open k.fs).1;
    } in
    let (k', run, shown) =
      ls_loop_lem base pt fuel launch gate there (num_of_dir_e k.fs) fuel fd 0 len k.fs k1 buf h
        (dir_open-start k.fs h.mounted) (fresh-HasScreen k fd (fresh fops_dir 0) lo screen)
        (fresh-HasDir k fd (dir_open k.fs).1 lo up) (omega arith) enough in
    (k', ls_step base pt fuel fd launch gate k k1 buf opens ∙ run, shown)
