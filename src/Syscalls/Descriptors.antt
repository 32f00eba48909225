-- ===== src/Syscalls/Descriptors.antt =====
-- The descriptor table of a process under `open` and `close` of student-distrib/system_calls.c.
use ece391_linux_os.Base.{
  ℕ, zero, suc, ◌+◌, ◌<◌, ◌≤◌, ◌≡◌, ◌≢◌, ◌⊎◌, inl, inr, refl, ◌∙◌, ap, sym, arith, true, false,
  none, some, Bytes, shift, update, ◌==◌, ℤ, pos, minus_one, Bool-cases, ==→eq, ==→ne, Option-cases,
  leb, ltb, ◌&&◌,
}
use ece391_linux_os.CLib.Str.{strlen}
use ece391_linux_os.CLib.Str.Laws.{IsString, strlen-IsString}
use ece391_linux_os.Process.{
  FileOps, fops_rtc, fops_dir, fops_file, FileDesc, fd_start, fd_max, get_pcb,
}
use ece391_linux_os.FileSys.{Dentry, find_dentry}
use ece391_linux_os.FileSys.Names.{read_dentry_by_name-find_dentry}
use ece391_linux_os.FileSys.Ops.Opening.{file_open-some}
use ece391_linux_os.Console.{Console, visible}
use ece391_linux_os.Syscalls.{
  Kernel, running, fd_table, set_fd_table, find_free, type_ops, call_open, open_entry, sys_open,
  close,
}

-- A call has put a descriptor for the file with entry `d` at `fd`, the lowest free place from 2 on,
-- and has changed no other descriptor, no other process and not the console.
pub record Opens (k : Kernel) (d : Dentry) (k' : Kernel) (fd : ℕ) : Type 0 where
  pub bounds : (fd_start ≤ fd) × (fd < fd_max)
  pub was_free : (fd_table k fd).flags ≡ 0
  pub lowest : (i : ℕ) → fd_start ≤ i → i < fd → (fd_table k i).flags ≢ 0
  pub kind : type_ops d ≡ some ((fd_table k' fd).fops_ptr, (fd_table k' fd).inode)
  pub at_start : (fd_table k' fd).file_pos ≡ 0
  pub in_use : (fd_table k' fd).flags ≡ 1
  pub same : (i : ℕ) → i ≢ fd → fd_table k' i ≡ fd_table k i
  pub others : (a : ℕ) → a ≢ running k → k'.pcb a ≡ k.pcb a
  pub same_console : k'.console ≡ k.console

-- The outcomes of `open` for a name of `n` characters at `filename`.
pub data OpenOutcome (k : Kernel) (m : Bytes) (filename n : ℕ) : ℤ × Kernel → Type 0 where
  no_name : (filename ≡ 0) ⊎ (n ≡ 0) → OpenOutcome k m filename n (minus_one, k)
  not_found :
      find_dentry k.fs (shift m filename) n ≡ none → OpenOutcome k m filename n (minus_one, k)
  no_type :
      (d : Dentry)
      → find_dentry k.fs (shift m filename) n ≡ some d
      → 3 ≤ d.file_type
      → OpenOutcome k m filename n (minus_one, k)
  table_full :
      ((i : ℕ) → fd_start ≤ i → i < fd_max → (fd_table k i).flags ≢ 0)
      → OpenOutcome k m filename n (minus_one, k)
  opened :
      (d : Dentry) (fd : ℕ) (k' : Kernel)
      → filename ≢ 0
      → n ≢ 0
      → find_dentry k.fs (shift m filename) n ≡ some d
      → Opens k d k' fd
      → OpenOutcome k m filename n (pos fd, k')

-- No descriptor from `fd` on is free, for `rounds` of them.
abbrev pub AllUsed : (ℕ → FileDesc) → ℕ → ℕ → Type 0
AllUsed table fd end = (i : ℕ) → fd ≤ i → i < end → (table i).flags ≢ 0

abbrev pub Finds : ℕ → (ℕ → FileDesc) → ℕ → Type 0
Finds rounds table fd =
    ((find_free rounds table fd ≡ none) × AllUsed table fd (fd + rounds))
    ⊎ ((j : ℕ) × (find_free rounds table fd ≡ some j)
        × (fd ≤ j)
        × (j < fd + rounds)
        × ((table j).flags ≡ 0)
        × AllUsed table fd j)

used_from :
    (table : ℕ → FileDesc) (fd end : ℕ)
    → (table fd).flags ≢ 0
    → AllUsed table (fd + 1) end
    → AllUsed table fd end
used_from table fd end here later i le lt = elim (Bool-cases (i == fd)) [
  | inl e ↦ λ z. here (ap (λ (j : ℕ). (table j).flags) (sym (==→eq _ _ e)) ∙ z)
  | inr ne ↦ later i (ground arith) lt
]

pub find_free_lem : (rounds : ℕ) (table : ℕ → FileDesc) (fd : ℕ) → Finds rounds table fd
unfolding find_free
find_free_lem zero table fd = inl (refl, λ i le lt. absurd (omega arith))
find_free_lem (suc rounds) table fd = elim (Bool-cases ((table fd).flags == 0)) [
  | inl free ↦
      inr (fd, rw free, omega arith, omega arith, ==→eq _ _ free, λ i le lt. absurd (omega arith))
  | inr used ↦ elim (find_free_lem rounds table (fd + 1)) [
    | inl (e, all) ↦
        inl
          (rw (used, e), used_from table fd _ (==→ne _ _ used) (λ i le lt. all i le (omega arith)))
    | inr (j, e, le, lt, free, all) ↦
        inr (
          j,
          rw (used, e),
          omega arith,
          omega arith,
          free,
          used_from table fd j (==→ne _ _ used) all,
        )
  ]
]

abbrev IsOpened : FileOps → Type 0
IsOpened ops = (ops ≡ fops_rtc) ⊎ ((ops ≡ fops_dir) ⊎ (ops ≡ fops_file))

type_ops_lem :
    (d : Dentry)
    → ((type_ops d ≡ none) × (3 ≤ d.file_type))
      ⊎ ((ops : FileOps) × (inode : ℕ) × (type_ops d ≡ some (ops, inode)) × IsOpened ops)
unfolding type_ops
type_ops_lem d = elim (Bool-cases (d.file_type == 0)) [
  | inl t0 ↦ inr (fops_rtc, 0, rw t0, inl refl)
  | inr n0 ↦ elim (Bool-cases (d.file_type == 1)) [
    | inl t1 ↦ inr (fops_dir, 0, rw (n0, t1), inr (inl refl))
    | inr n1 ↦ elim (Bool-cases (d.file_type == 2)) [
      | inl t2 ↦ inr (fops_file, d.inode, rw (n0, n1, t2), inr (inr refl))
      | inr n2 ↦ inl (rw (n0, n1, n2), ground arith)
    ]
  ]
]

abbrev Quiet : ℕ → FileOps → Kernel → Bytes → Type 0
Quiet fuel ops k name =
    (k' : Kernel) × (call_open fuel ops k name ≡ some k')
    × (k'.pcb ≡ k.pcb)
    × (k'.console ≡ k.console)

call_open-Quiet :
    (fuel : ℕ) (ops : FileOps) (k : Kernel) (name : Bytes) (n : ℕ)
    → strlen fuel name ≡ some n
    → IsOpened ops
    → Quiet fuel ops k name
unfolding call_open
call_open-Quiet fuel ops k name n e (inl is) = rw is (_, refl, refl, refl)
call_open-Quiet fuel ops k name n e (inr (inl is)) = rw is (_, refl, refl, refl)
call_open-Quiet fuel ops k name n e (inr (inr is)) =
    let (ret, run) = file_open-some fuel k.fs name n e in rw is (k, rw (run, call_open), refl, refl)

-- The state behind a successful call, from what `fops_ptr->open` has left.
open_entry-Opens :
    (k k' : Kernel) (d : Dentry) (fd inode : ℕ) (ops : FileOps)
    → find_free 6 (fd_table k) fd_start ≡ some fd
    → fd_start ≤ fd
    → fd < fd_max
    → (fd_table k fd).flags ≡ 0
    → AllUsed (fd_table k) fd_start fd
    → type_ops d ≡ some (ops, inode)
    → k'.pcb
      ≡ (set_fd_table k (
          update
            (fd_table k)
            fd
            (record { fops_ptr = ops; inode = inode; file_pos = 0; flags = 1 }))).pcb
    → k'.console ≡ k.console
    → Opens k d k' fd
open_entry-Opens k k' d fd inode ops e le lt free all kind ep ec = record {
  bounds = (le, lt);
  was_free = free;
  lowest = all;
  kind = rw (ec, ep) (kind ∙ ground arith);
  at_start = rw (ec, ep) (ground arith);
  in_use = rw (ec, ep) (ground arith);
  same = λ i ne. rw (ec, ep) (ground arith);
  others = λ a ne. rw ep (ground arith);
  same_console = ec;
}

open_entry-OpenOutcome :
    (fuel : ℕ) (k : Kernel) (m : Bytes) (filename n : ℕ) (d : Dentry)
    → filename ≢ 0
    → n ≢ 0
    → strlen fuel (shift m filename) ≡ some n
    → find_dentry k.fs (shift m filename) n ≡ some d
    → (r : ℤ × Kernel) × (open_entry fuel k (shift m filename) d ≡ some r)
      × OpenOutcome k m filename n r
unfolding open_entry
open_entry-OpenOutcome fuel k m filename n d there chars e found =
    elim (find_free_lem 6 (fd_table k) fd_start) [
      | inl (full, all) ↦ ((minus_one, k), rw (full, open_entry), table_full all)
      | inr (fd, free, le, lt, flags, all) ↦ elim (type_ops_lem d) [
        | inl (other, big) ↦ ((minus_one, k), rw (free, other, open_entry), no_type d found big)
        | inr (ops, inode, kind, is) ↦
            let (k', run, ep, ec) =
              call_open-Quiet fuel ops
                (set_fd_table k (
                  update (fd_table k) fd
                    (record { fops_ptr = ops; inode = inode; file_pos = 0; flags = 1 })))
                (shift m filename) n e is in
            (
              (pos fd, k'),
              rw (free, kind, run, open_entry),
              opened d fd k' there chars found
                  (open_entry-Opens k k' d fd inode ops free le lt flags all kind ep ec),
            )
      ]
    ]

-- `open` of a string of `n` characters returns, with fuel for its scans. It gives -1 and changes
-- nothing for the address 0 or an empty name, a name that is not in the directory, a file of none
-- of the three types or a full descriptor table. Else it returns the lowest free place, with a
-- descriptor for the file there; that the address is not 0 and the name not empty is part of this
-- outcome.
pub sys_open-OpenOutcome :
    (fuel : ℕ) (k : Kernel) (m : Bytes) (filename n : ℕ)
    → IsString (shift m filename) n
    → n < fuel
    → (r : ℤ × Kernel) × (sys_open fuel k m filename ≡ some r) × OpenOutcome k m filename n r
unfolding sys_open
sys_open-OpenOutcome fuel k m filename n h lt =
    let e : strlen fuel (shift m filename) ≡ some n =
      (strlen-IsString fuel (shift m filename) n).0 h lt in
    elim (Bool-cases (filename == 0)) [
      | inl null ↦ ((minus_one, k), rw (null, sys_open), no_name (inl (==→eq _ _ null)))
      | inr there ↦ elim (Bool-cases (n == 0)) [
        | inl empty ↦
            ((minus_one, k), rw (there, e, empty, sys_open), no_name (inr (==→eq _ _ empty)))
        | inr chars ↦
            let search = read_dentry_by_name-find_dentry fuel k.fs (shift m filename) n e in
            elim (Option-cases (find_dentry k.fs (shift m filename) n)) [
              | inl missing ↦ (
                (minus_one, k),
                rw (there, e, chars, search, missing, sys_open),
                not_found missing,
              )
              | inr (d, hit) ↦
                  let (r, run, is) =
                    open_entry-OpenOutcome fuel k m filename n d (==→ne _ _ there) (==→ne _ _ chars)
                      e hit in
                  (r, rw (there, e, chars, search, hit, run, sys_open), is)
            ]
      ]
    ]

-- `close` of a descriptor that `open` has just given returns 0 and frees it: a second `close` of it
-- returns -1, and all other descriptors are as before `open`, also those of the other processes.
pub close-Opens :
    (k k' : Kernel) (d : Dentry) (fd : ℕ)
    → Opens k d k' fd
    → let (ret, k2) = close k' (pos fd) in
      (ret ≡ pos 0)
      × ((fd_table k2 fd).flags ≡ 0)
      × (close k2 (pos fd) ≡ (minus_one, k2))
      × ((i : ℕ) → i ≢ fd → fd_table k2 i ≡ fd_table k i)
      × ((a : ℕ) → a ≢ running k → k2.pcb a ≡ k.pcb a)
unfolding close
close-Opens k k' d fd h =
    let (le, lt) = h.bounds in
    let in_range : (leb fd_start fd && ltb fd fd_max) ≡ true = ground arith in
    let used : ((fd_table k' fd).flags == 0) ≡ false = ground (arith, h.in_use) in
    let same_running : running k' ≡ running k =
      ap (λ (c : Console). get_pcb (visible c).running_process) h.same_console in
    rw (in_range, used)
      (
        refl,
        ground arith,
        ground arith,
        λ i ne. ground (arith, h.same i ne),
        λ a ne. ground (arith, h.others a ne, same_running),
      )
