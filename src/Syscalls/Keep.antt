-- ===== src/Syscalls/Keep.antt =====
-- The system calls on files keep the tables of the processes.
use ece391_linux_os.Base.{
  ℕ, ◌≡◌, inl, inr, refl, arith, Bool-cases, Option, some, none, Option-cases, Bytes, shift, update,
  ◌==◌, ℤ, to_nat, minus_one,
}
use mathlib.Core.Path.{subst}
use ece391_linux_os.Process.{
  FileOps, fops_rtc, fops_dir, fops_file, std_in, std_out, FileDesc, fd_start, fd_ok,
}
use ece391_linux_os.CLib.Str.{strlen}
use ece391_linux_os.FileSys.{Dentry, read_dentry_by_name}
use ece391_linux_os.FileSys.Ops.{file_read, file_open, dir_read}
use ece391_linux_os.Console.Processes.{SameProcesses-refl, terminal_write-SameProcesses}
use ece391_linux_os.Keyboard.{terminal_read}
use ece391_linux_os.Keyboard.Terminals.{terminal_read-SameProcesses}
use ece391_linux_os.Rtc.{rtc_read, rtc_write}
use ece391_linux_os.Syscalls.{
  Kernel, fd_table, set_fd_table, find_free, type_ops, call_open, open_entry, sys_open, close,
  may_use, call_read, read, call_write, write, vidmap,
}
use ece391_linux_os.Syscalls.Tables.{SameTables, SameTables-refl, SameTables-trans, same_fields}

-- The kernel of a result.
last_kernel :
    {A : Type 0} {a a' : A} {k k' : Kernel} {k0 : Kernel}
    → ◌≡◌ {A = Option (A × Kernel)} (some (a, k)) (some (a', k'))
    → SameTables k0 k
    → SameTables k0 k'
last_kernel {k = k} {k' = k'} {k0 = k0} e h =
    let same : k ≡ k' = cc in subst (λ (b : Kernel). SameTables k0 b) same h

middle_kernel :
    {A B : Type 0} {a a' : A} {b b' : B} {k k' : Kernel} {k0 : Kernel}
    → ◌≡◌ {A = Option (A × Kernel × B)} (some (a, k, b)) (some (a', k', b'))
    → SameTables k0 k
    → SameTables k0 k'
middle_kernel {k = k} {k' = k'} {k0 = k0} e h =
    let same : k ≡ k' = cc in subst (λ (b : Kernel). SameTables k0 b) same h

only_kernel :
    {k k' : Kernel} {k0 : Kernel}
    → ◌≡◌ {A = Option Kernel} (some k) (some k')
    → SameTables k0 k
    → SameTables k0 k'
only_kernel {k = k} {k' = k'} {k0 = k0} e h =
    let same : k ≡ k' = cc in subst (λ (b : Kernel). SameTables k0 b) same h

set_fd_table-SameTables : (k : Kernel) (table : ℕ → FileDesc) → SameTables k (set_fd_table k table)
set_fd_table-SameTables k table = record {
  terminals = SameProcesses-refl k.console;
  blocks = record { blocks = λ a. ground arith };
}

pub close-SameTables : (k : Kernel) (fd : ℤ) → SameTables k (close k fd).1
unfolding close
close-SameTables k fd = elim (Bool-cases (fd_ok fd_start fd)) [
  | inl ok ↦ elim (Bool-cases ((fd_table k (to_nat fd)).flags == 0)) [
    | inl closed ↦ rw (ok, closed, close) (SameTables-refl k)
    | inr opened ↦ rw (ok, opened, close) (set_fd_table-SameTables k _)
  ]
  | inr bad ↦ rw (bad, close) (SameTables-refl k)
]

call_open-SameTables :
    (fuel : ℕ) (ops : FileOps) (k k' : Kernel) (name : Bytes)
    → call_open fuel ops k name ≡ some k'
    → SameTables k k'
unfolding call_open
call_open-SameTables fuel fops_rtc k k' name e = only_kernel e (same_fields k _ refl refl)
call_open-SameTables fuel fops_dir k k' name e = only_kernel e (same_fields k _ refl refl)
call_open-SameTables fuel fops_file k k' name e = elim (Option-cases (file_open fuel k.fs name)) [
  | inl never ↦ absurd (ground (arith, rw (never, call_open) at e))
  | inr (ret, is) ↦ only_kernel (rw (is, call_open) at e) (SameTables-refl k)
]
call_open-SameTables fuel std_in k k' name e = only_kernel e (SameTables-refl k)
call_open-SameTables fuel std_out k k' name e = only_kernel e (SameTables-refl k)

pub vidmap-SameTables :
    (pt : ℕ) (k : Kernel) (m : Bytes) (at : ℕ) → SameTables k (vidmap pt k m at).1
unfolding vidmap
vidmap-SameTables pt k m at = same_fields k _ (ground arith) (ground arith)

open_entry-SameTables :
    (fuel : ℕ) (k k' : Kernel) (name : Bytes) (file_block : Dentry) (ret : ℤ)
    → open_entry fuel k name file_block ≡ some (ret, k')
    → SameTables k k'
unfolding open_entry
open_entry-SameTables fuel k k' name file_block ret e =
    elim (Option-cases (find_free 6 (fd_table k) fd_start)) [
      | inl full ↦ last_kernel (rw (full, open_entry) at e) (SameTables-refl k)
      | inr (fd, found) ↦ elim (Option-cases (type_ops file_block)) [
        | inl other ↦ last_kernel (rw (found, other, open_entry) at e) (SameTables-refl k)
        | inr ((ops, inode), is) ↦
            let table : ℕ → FileDesc =
              update (fd_table k) fd
                (record { fops_ptr = ops; inode = inode; file_pos = 0; flags = 1 }) in
            elim (Option-cases (call_open fuel ops (set_fd_table k table) name)) [
              | inl never ↦ absurd (ground (arith, rw (found, is, never, open_entry) at e))
              | inr (b, run) ↦ last_kernel (rw (found, is, run, open_entry) at e) (
                  SameTables-trans (set_fd_table-SameTables k table)
                    (call_open-SameTables fuel ops (set_fd_table k table) b name run))
            ]
      ]
    ]

-- `open` keeps the tables.
pub sys_open-SameTables :
    (fuel : ℕ) (k k' : Kernel) (m : Bytes) (filename : ℕ) (ret : ℤ)
    → sys_open fuel k m filename ≡ some (ret, k')
    → SameTables k k'
unfolding sys_open
sys_open-SameTables fuel k k' m filename ret e =
    let name : Bytes = shift m filename in
    elim (Bool-cases (filename == 0)) [
      | inl null ↦ last_kernel (rw (null, sys_open) at e) (SameTables-refl k)
      | inr given ↦ elim (Option-cases (strlen fuel name)) [
        | inl never ↦ absurd (ground (arith, rw (given, never, sys_open) at e))
        | inr (len, is) ↦ elim (Bool-cases (len == 0)) [
          | inl empty ↦ last_kernel (rw (given, is, empty, sys_open) at e) (SameTables-refl k)
          | inr more ↦ elim (Option-cases (read_dentry_by_name fuel k.fs name)) [
            | inl never ↦ absurd (ground (arith, rw (given, is, more, never, sys_open) at e))
            | inr (found, run) ↦
                entry_found fuel k k' m filename found ret
                  (rw (given, is, more, run, sys_open) at e)
          ]
        ]
      ]
    ]
  where
    entry_found :
        (fuel : ℕ) (k k' : Kernel) (m : Bytes) (filename : ℕ) (found : Option Dentry) (ret : ℤ)
        → ◌≡◌ {A = Option (ℤ × Kernel)}
            (elim found [
              | none ↦ some (minus_one, k)
              | some file_block ↦ open_entry fuel k (shift m filename) file_block
            ])
            (some (ret, k'))
        → SameTables k k'
    entry_found fuel k k' m filename none ret e = last_kernel e (SameTables-refl k)
    entry_found fuel k k' m filename (some d) ret e =
        open_entry-SameTables fuel k k' (shift m filename) d ret e

call_read-SameTables :
    (fuel : ℕ) (ops : FileOps) (k k' : Kernel) (fd : ℤ) (m m' : Bytes) (buf : ℕ) (nbytes ret : ℤ)
    → call_read fuel ops k fd m buf nbytes ≡ some (ret, k', m')
    → SameTables k k'
unfolding call_read
call_read-SameTables fuel fops_rtc k k' fd m m' buf nbytes ret e =
    elim (Option-cases (rtc_read k.interrupts k.rtc_int_received)) [
      | inl never ↦ absurd (ground (arith, rw (never, call_read) at e))
      | inr ((r, later, flag), is) ↦
          middle_kernel (rw (is, call_read) at e) (same_fields k _ refl refl)
    ]
call_read-SameTables fuel fops_dir k k' fd m m' buf nbytes ret e =
    elim (Option-cases (dir_read fuel k.fs m buf)) [
      | inl never ↦ absurd (ground (arith, rw (never, call_read) at e))
      | inr ((r, fs', b), is) ↦ middle_kernel (rw (is, call_read) at e) (same_fields k _ refl refl)
    ]
call_read-SameTables fuel fops_file k k' fd m m' buf nbytes ret e =
    elim (Option-cases (file_read k.fs (fd_table k) fd m buf nbytes)) [
      | inl never ↦ absurd (ground (arith, rw (never, call_read) at e))
      | inr ((r, table, b), is) ↦
          middle_kernel (rw (is, call_read) at e) (set_fd_table-SameTables k table)
    ]
call_read-SameTables fuel std_in k k' fd m m' buf nbytes ret e =
    elim (Option-cases (terminal_read k.past_keys k.keys k.console m buf nbytes)) [
      | inl never ↦ absurd (ground (arith, rw (never, call_read) at e))
      | inr ((r, c, b, later), is) ↦ middle_kernel (rw (is, call_read) at e) (record {
        terminals =
            terminal_read-SameProcesses k.past_keys k.keys later k.console c m b buf nbytes r is;
        blocks = record { blocks = λ a. (refl, refl, refl) };
      })
    ]
call_read-SameTables fuel std_out k k' fd m m' buf nbytes ret e =
    middle_kernel e (SameTables-refl k)

-- `read` keeps the tables.
pub read-SameTables :
    (fuel : ℕ) (k k' : Kernel) (fd : ℤ) (m m' : Bytes) (buf : ℕ) (nbytes ret : ℤ)
    → read fuel k fd m buf nbytes ≡ some (ret, k', m')
    → SameTables k k'
unfolding read
read-SameTables fuel k k' fd m m' buf nbytes ret e = elim (Bool-cases (may_use k fd buf nbytes)) [
  | inl ok ↦ call_read-SameTables fuel _ k k' fd m m' buf nbytes ret (rw (ok, read) at e)
  | inr bad ↦ middle_kernel (rw (bad, read) at e) (SameTables-refl k)
]

call_write-SameTables :
    (ops : FileOps) (k k' : Kernel) (m : Bytes) (buf : ℕ) (nbytes ret : ℤ)
    → call_write ops k m buf nbytes ≡ some (ret, k')
    → SameTables k k'
unfolding call_write
call_write-SameTables fops_rtc k k' m buf nbytes ret e =
    elim (Option-cases (rtc_write m buf nbytes k.register_a)) [
      | inl never ↦ absurd (ground (arith, rw (never, call_write) at e))
      | inr ((r, ios), is) ↦ last_kernel (rw (is, call_write) at e) (same_fields k _ refl refl)
    ]
call_write-SameTables fops_dir k k' m buf nbytes ret e = last_kernel e (SameTables-refl k)
call_write-SameTables fops_file k k' m buf nbytes ret e = last_kernel e (SameTables-refl k)
call_write-SameTables std_in k k' m buf nbytes ret e = last_kernel e (SameTables-refl k)
call_write-SameTables std_out k k' m buf nbytes ret e = last_kernel e (record {
  terminals = terminal_write-SameProcesses k.console m buf nbytes;
  blocks = record { blocks = λ a. (refl, refl, refl) };
})

-- `write` keeps the tables.
pub write-SameTables :
    (k k' : Kernel) (fd : ℤ) (m : Bytes) (buf : ℕ) (nbytes ret : ℤ)
    → write k fd m buf nbytes ≡ some (ret, k')
    → SameTables k k'
unfolding write
write-SameTables k k' fd m buf nbytes ret e = elim (Bool-cases (may_use k fd buf nbytes)) [
  | inl ok ↦ call_write-SameTables _ k k' m buf nbytes ret (rw (ok, write) at e)
  | inr bad ↦ last_kernel (rw (bad, write) at e) (SameTables-refl k)
]
