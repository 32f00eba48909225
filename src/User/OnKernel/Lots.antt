-- ===== src/User/OnKernel/Lots.antt =====
-- `err_open_lots` of syscalls/ece391syserr.c on the kernel: it opens the directory seven times and
-- closes the six descriptors.
use mathlib.Core.Path.{subst}
use native.Mathlib.Decide.{ℕ_discrete}
use ece391_linux_os.Base.{
  ℕ, zero, suc, ◌+◌, ◌<◌, ◌≤◌, ◌≡◌, ◌≢◌, refl, ◌∙◌, ap, sym, fun_ext, arith, some, Option, Bytes,
  shift, update, true, ℤ, pos, minus_one,
}
use ece391_linux_os.Boot.Text.{text, text-IsString}
use ece391_linux_os.Programs.Stacks.{length}
use ece391_linux_os.CLib.Str.Laws.{IsString}
use ece391_linux_os.Process.{FileDesc, fops_dir}
use ece391_linux_os.FileSys.{Dentry, FileSystem, find_dentry}
use ece391_linux_os.FileSys.Alike.{find_dentry_offset}
use ece391_linux_os.FileSys.Ops.{dir_open}
use ece391_linux_os.FileSys.Ops.Opening.{dir_open-start}
use ece391_linux_os.Syscalls.{Kernel, fd_table, set_fd_table, sys_open}
use ece391_linux_os.Syscalls.Steps.{close_free_step}
use ece391_linux_os.Syscalls.OpenFile.{fresh, sys_open-dir_at, sys_open-full, find_free-lowest}
use ece391_linux_os.User.Syserr.{open_times, close_from, err_open_lots}
use ece391_linux_os.User.OnKernel.{kernel_calls, placed}
use ece391_linux_os.User.OnKernel.Errors.{said, verdict-Passes}
use ece391_linux_os.User.OnKernel.Passing.{Ready}

-- A mounted image with an entry "." of the directory's type.
pub record HasDot (fs : FileSystem) (d : Dentry) : Type 0 where
  pub mounted : fs.present ≡ true
  pub dot : find_dentry fs (text ".") 1 ≡ some d
  pub is_directory : d.file_type ≡ 1

-- Two states that differ in the descriptors from 2 on and in the position in the directory.
pub record Alike (k k' : Kernel) : Type 0 where
  pub same_console : k'.console ≡ k.console
  pub same_mounted : k'.fs.present ≡ k.fs.present
  pub same_names : (s : Bytes) (n : ℕ) → find_dentry k'.fs s n ≡ find_dentry k.fs s n
  pub standard : (i : ℕ) → i < 2 → fd_table k' i ≡ fd_table k i

Alike-trans : {k k' k'' : Kernel} → Alike k k' → Alike k' k'' → Alike k k''
Alike-trans h h' = record {
  same_console = h'.same_console ∙ h.same_console;
  same_mounted = h'.same_mounted ∙ h.same_mounted;
  same_names = λ s n. h'.same_names s n ∙ h.same_names s n;
  standard = λ i lt. h'.standard i lt ∙ h.standard i lt;
}

Alike-refl : (k : Kernel) → Alike k k
Alike-refl k = record {
  same_console = refl;
  same_mounted = refl;
  same_names = λ s n. refl;
  standard = λ i lt. refl;
}

pub kept-HasDot : (k k' : Kernel) (d : Dentry) → Alike k k' → HasDot k.fs d → HasDot k'.fs d
kept-HasDot k k' d h dot = record {
  mounted = h.same_mounted ∙ dot.mounted;
  dot = h.same_names (text ".") 1 ∙ dot.dot;
  is_directory = dot.is_directory;
}

kept-Ready :
    (k k' : Kernel)
    → Alike k k'
    → ((i : ℕ) → 2 ≤ i → i < 8 → (fd_table k' i).flags ≡ 0)
    → Ready k.fs (fd_table k)
    → Ready k'.fs (fd_table k')
kept-Ready k k' h empty ready = record {
  has_screen = record {
    screen =
        ap (λ (f : FileDesc). f.fops_ptr) (h.standard 1 (omega arith)) ∙ ready.has_screen.screen;
    screen_used = λ z.
        ready.has_screen.screen_used
          (sym (ap (λ (f : FileDesc). f.flags) (h.standard 1 (omega arith))) ∙ z);
  };
  keyboard = ap (λ (f : FileDesc). f.fops_ptr) (h.standard 0 (omega arith)) ∙ ready.keyboard;
  unopened = empty;
  no_helloo = h.same_names (text "helloo") 6 ∙ ready.no_helloo;
  no_shel = h.same_names (text "shel") 4 ∙ ready.no_shel;
}

-- The first `j` descriptors from 2 on are in use, and those behind them are not.
record Filled (k : Kernel) (j : ℕ) : Type 0 where
  in_use : (i : ℕ) → 2 ≤ i → i < 2 + j → (fd_table k i).flags ≢ 0
  spare : (i : ℕ) → 2 + j ≤ i → i < 8 → (fd_table k i).flags ≡ 0

-- The state behind a call that opens the directory.
abbrev opened_dir : Kernel → ℕ → Kernel
opened_dir k fd = record (set_fd_table k (update (fd_table k) fd (fresh fops_dir 0))) {
  fs = (dir_open k.fs).1;
}

opened_table :
    (k : Kernel) (fd : ℕ) → fd_table (opened_dir k fd) ≡ update (fd_table k) fd (fresh fops_dir 0)
opened_table k fd = ground arith

opened-Alike : (k : Kernel) (fd : ℕ) → k.fs.present ≡ true → 2 ≤ fd → Alike k (opened_dir k fd)
opened-Alike k fd here le =
    let e : (dir_open k.fs).1 ≡ record k.fs { dir_offset = 0 } = dir_open-start k.fs here in
    record {
      same_console = refl;
      same_mounted = ap (λ (f : FileSystem). f.present) e;
      same_names =
          λ s n. ap (λ (f : FileSystem). find_dentry f s n) e ∙ find_dentry_offset 0 k.fs s n;
      standard = λ i lt. ground arith;
    }

opened-Filled : (k : Kernel) (j : ℕ) → Filled k j → Filled (opened_dir k (2 + j)) (1 + j)
opened-Filled k j h = record {
  in_use = λ i le lt. elim (ℕ_discrete i (2 + j)) [
    | yes e ↦ ground arith
    | no ne ↦
        let same : fd_table (opened_dir k (2 + j)) i ≡ fd_table k i = ground (arith, ne) in
        rw same (h.in_use i le (omega arith))
  ];
  spare = λ i le lt.
      let same : fd_table (opened_dir k (2 + j)) i ≡ fd_table k i = ground arith in
      rw same (h.spare i (omega arith) lt);
}

module _ (base pt fuel : ℕ) (launch : Kernel → Bytes → Option (ℤ × Kernel))
    (gate : Kernel → ℤ → Option (ℤ × Kernel)) (there : base ≢ 0) (enough : 64 ≤ fuel) where
  -- An open of ".", with `j` descriptors in use.
  dot_back : shift (placed base (text ".")) base ≡ text "."
  dot_back = fun_ext (λ j. ap (text ".") (omega arith))

  dot-IsString : IsString (shift (placed base (text ".")) base) 1
  unfolding length
  dot-IsString = subst (λ (b : Bytes). IsString b 1) (sym dot_back) (text-IsString "." refl).0

  open_dot :
      (j : ℕ) (k : Kernel) (d : Dentry)
      → j < 6
      → HasDot k.fs d
      → Filled k j
      → sys_open fuel k (placed base (text ".")) base ≡ some (pos (2 + j), opened_dir k (2 + j))
  open_dot j k d lt dot filled =
      sys_open-dir_at fuel k (placed base (text ".")) base 1 (2 + j) d there dot-IsString
        (λ z. absurd (omega (arith, z))) (omega arith)
        (ap (λ (b : Bytes). find_dentry k.fs b 1) dot_back ∙ dot.dot) dot.is_directory
        (find_free-lowest (fd_table k) j lt filled.in_use
          (filled.spare (2 + j) (omega arith) (omega arith)))

  open_dot_full :
      (k : Kernel) (d : Dentry)
      → HasDot k.fs d
      → Filled k 6
      → sys_open fuel k (placed base (text ".")) base ≡ some (minus_one, k)
  open_dot_full k d dot filled =
      sys_open-full fuel k (placed base (text ".")) base 1 d there dot-IsString
        (λ z. absurd (omega (arith, z))) (omega arith)
        (ap (λ (b : Bytes). find_dentry k.fs b 1) dot_back ∙ dot.dot) filled.in_use

  -- The seven opens: six succeed.
  open_times_lem :
      (rounds j : ℕ) (k : Kernel) (d : Dentry)
      → j + rounds ≡ 6
      → HasDot k.fs d
      → Filled k j
      → (k' : Kernel) × (open_times (suc rounds) (kernel_calls base pt fuel launch gate) k 0
          ≡ some (1, k'))
        × Alike k k'
  unfolding open_times
  open_times_lem zero j k d all dot filled =
      let full : Filled k 6 = subst (λ (x : ℕ). Filled k x) (omega arith) filled in
      (k, rw (open_dot_full k d dot full) refl, Alike-refl k)
  open_times_lem (suc rounds) j k d all dot filled =
      let k1 : Kernel = opened_dir k (2 + j) in
      let like : Alike k k1 = opened-Alike k (2 + j) dot.mounted (omega arith) in
      let (k', run, like') =
        open_times_lem rounds (1 + j) k1 d (omega arith) (kept-HasDot k k1 d like dot)
          (opened-Filled k j filled) in
      (k', rw (open_dot j k d (omega arith) dot filled) run, Alike-trans like like')

  -- The closes leave no descriptor from 2 on in use.
  close_from_lem :
      (rounds i : ℕ) (k : Kernel)
      → i + rounds ≡ 8
      → 2 ≤ i
      → ((x : ℕ) → 2 ≤ x → x < i → (fd_table k x).flags ≡ 0)
      → (k' : Kernel) × (close_from rounds (kernel_calls base pt fuel launch gate) k i ≡ some k')
        × Alike k k'
        × ((x : ℕ) → 2 ≤ x → x < 8 → (fd_table k' x).flags ≡ 0)
  unfolding close_from
  close_from_lem zero i k all le done = (k, refl, Alike-refl k, λ x l lt. done x l (omega arith))
  close_from_lem (suc rounds) i k all le done =
      let (ret, k1, run, console, fs, free, others) = close_free_step k i le (omega arith) in
      let like : Alike k k1 = record {
        same_console = console;
        same_mounted = ap (λ (f : FileSystem). f.present) fs;
        same_names = λ s n. ap (λ (f : FileSystem). find_dentry f s n) fs;
        standard = λ x lt. others x (omega arith);
      } in
      let (k', later, like', empty) =
        close_from_lem rounds (i + 1) k1 (omega arith) (omega arith) (λ x l lt.
          elim (ℕ_discrete x i) [
            | yes e ↦ rw e free
            | no ne ↦ rw (others x ne) (done x l (omega arith))
          ]) in
      (k', rw run later, Alike-trans like like', empty)

  -- The test passes, and leaves no descriptor from 2 on in use.
  pub err_open_lots-Passes :
      (k : Kernel) (d : Dentry)
      → HasDot k.fs d
      → Ready k.fs (fd_table k)
      → (k' : Kernel) × (err_open_lots (kernel_calls base pt fuel launch gate) fuel k
          ≡ some (0, said k' "err_open_lots: PASS\n"))
        × Alike k k'
        × Ready k'.fs (fd_table k')
  unfolding err_open_lots length
  err_open_lots-Passes k d dot ready =
      let (k1, opens, like1) = open_times_lem 6 0 k d refl dot (record {
        in_use = λ i le lt. absurd (omega arith);
        spare = λ i le lt. ready.unopened i le lt;
      }) in
      let (k2, closes, like2, empty) =
        close_from_lem 6 2 k1 refl (omega arith) (λ x l lt. absurd (omega arith)) in
      let like : Alike k k2 = Alike-trans like1 like2 in
      let ready2 : Ready k2.fs (fd_table k2) = kept-Ready k k2 like empty ready in
      (
        k2,
        rw (opens, closes)
            (verdict-Passes base pt fuel launch gate there enough k2 "err_open_lots: FAIL\n"
              "err_open_lots: PASS\n" ready2.has_screen refl refl),
        like,
        ready2,
      )
