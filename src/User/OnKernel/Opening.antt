-- ===== src/User/OnKernel/Opening.antt =====
-- What a program of syscalls/ finds when it asks for its arguments and opens a file or the
-- directory, with the kernel's calls of student-distrib/system_calls.c.
use mathlib.Core.Path.{subst}
use ece391_linux_os.Base.{
  ℕ, ◌+◌, ◌-◌, ◌<◌, ◌≤◌, ◌≡◌, ◌≢◌, refl, ◌∙◌, ap, sym, arith, some, Bytes, shift, update, ltb,
  if◌then◌else◌, pos,
}
use ece391_linux_os.CLib.Str.Laws.{IsString}
use ece391_linux_os.Process.{FileDesc, fops_file, fops_dir}
use ece391_linux_os.FileSys.{Dentry, find_dentry}
use ece391_linux_os.FileSys.Alike.{find_dentry_ext}
use ece391_linux_os.FileSys.Ops.{dir_open}
use ece391_linux_os.Syscalls.{Kernel, running, fd_table, set_fd_table, sys_open}
use ece391_linux_os.Syscalls.Results.{getargs-arguments}
use ece391_linux_os.Syscalls.OpenFile.{fresh, sys_open-file, sys_open-dir}
use ece391_linux_os.User.OnKernel.{placed, kernel_getargs}
use ece391_linux_os.User.OnKernel.Files.{HasScreen, HasFile}

-- The arguments arrive with their zero byte.
pub kernel_getargs-arguments :
    (base fuel : ℕ) (k : Kernel) (buf : Bytes) (n nbytes : ℕ)
    → base ≢ 0
    → IsString (k.pcb (running k)).arg n
    → n < fuel
    → n < nbytes
    → (buf' : Bytes) × (kernel_getargs base fuel k buf (pos nbytes) ≡ some (pos 0, buf'))
      × ((j : ℕ) → j ≤ n → buf' j ≡ (k.pcb (running k)).arg j)
kernel_getargs-arguments base fuel k buf n nbytes there string lt short =
    let arg : Bytes = (k.pcb (running k)).arg in
    let (m, got, is) =
      (getargs-arguments fuel k (placed base buf) base n (pos nbytes) string lt).1 there short in
    (
      shift m base,
      rw got refl,
      λ j le.
          let e : base + j - base ≡ j = omega arith in
          is (base + j) ∙ ground (arith, ap arg e, string.stop, ap arg (≤-end j n le)),
    )
  where
    ≤-end : (j n : ℕ) → j ≤ n → (if ltb j n then j else n) ≡ j
    ≤-end j n le = ground arith

-- An array that agrees with a string up to its end.
pub IsString-alike :
    (s s' : Bytes) (n : ℕ) → ((j : ℕ) → j ≤ n → s' j ≡ s j) → IsString s n → IsString s' n
IsString-alike s s' n same h = record {
  chars = λ i lt z. h.chars i lt (sym (same i (omega arith)) ∙ z);
  stop = same n (omega arith) ∙ h.stop;
}

module _ (base fuel : ℕ) (k : Kernel) (s name : Bytes) (n i : ℕ) (d : Dentry) (there : base ≢ 0)
    (string : IsString s n) (chars : n ≢ 0) (lt : n < fuel) (same : (j : ℕ) → j ≤ n → name j ≡ s j)
    (found : find_dentry k.fs s n ≡ some d) (le : 2 ≤ i) (hi : i < 8)
    (free : (fd_table k i).flags ≡ 0) where
  abbrev given : Bytes
  given = shift (placed base name) base

  given_same : (j : ℕ) → j ≤ n → given j ≡ s j
  given_same j h = let e : base + j - base ≡ j = omega arith in ap name e ∙ same j h

  -- The file or the directory that a name in an array stands for.
  pub open-file :
      d.file_type ≡ 2
      → (fd : ℕ) × (2 ≤ fd)
        × (fd < 8)
        × (sys_open fuel k (placed base name) base
            ≡ some (pos fd, set_fd_table k (update (fd_table k) fd (fresh fops_file d.inode))))
  open-file is_file =
      sys_open-file fuel k (placed base name) base n i d there
        (IsString-alike s given n given_same string) chars lt
        (find_dentry_ext k.fs given s n given_same ∙ found) is_file le hi free

  pub open-dir :
      d.file_type ≡ 1
      → (fd : ℕ) × (2 ≤ fd)
        × (fd < 8)
        × (sys_open fuel k (placed base name) base
            ≡ some (
              pos fd,
              record (set_fd_table k (update (fd_table k) fd (fresh fops_dir 0))) {
                fs = (dir_open k.fs).1;
              },
            ))
  open-dir is_dir =
      sys_open-dir fuel k (placed base name) base n i d there
        (IsString-alike s given n given_same string) chars lt
        (find_dentry_ext k.fs given s n given_same ∙ found) is_dir le hi free

-- The descriptor table behind it.
pub fresh-HasScreen :
    (k : Kernel) (fd : ℕ) (desc : FileDesc)
    → 2 ≤ fd
    → HasScreen (fd_table k)
    → HasScreen (fd_table (set_fd_table k (update (fd_table k) fd desc)))
fresh-HasScreen k fd desc le h =
    let e : fd_table (set_fd_table k (update (fd_table k) fd desc)) ≡ update (fd_table k) fd desc =
      ground arith in
    subst (λ (t : ℕ → FileDesc). HasScreen t) (sym e)
      (record { screen = ground (arith, h.screen); screen_used = ground (arith, h.screen_used) })

pub fresh-HasFile :
    (k : Kernel) (fd inode : ℕ)
    → 2 ≤ fd
    → fd < 8
    → HasFile
        (fd_table (set_fd_table k (update (fd_table k) fd (fresh fops_file inode))))
        fd
        inode
        0
fresh-HasFile k fd inode le lt =
    let e : fd_table (set_fd_table k (update (fd_table k) fd (fresh fops_file inode)))
        ≡ update (fd_table k) fd (fresh fops_file inode) =
      ground arith in
    subst (λ (t : ℕ → FileDesc). HasFile t fd inode 0) (sym e)
      (record {
        bounds = (le, lt);
        is_file = ground arith;
        of_inode = ground arith;
        at_pos = ground arith;
        file_used = ground arith;
      })
