-- ===== src/User/OnKernel/Passing.antt =====
-- Each of the tests of syscalls/ece391syserr.c passes on the kernel.
use mathlib.Core.Path.{subst}
use ece391_linux_os.Base.{
  ℕ, ◌+◌, ◌<◌, ◌≤◌, ◌≡◌, ◌≢◌, ◌⊎◌, inl, inr, refl, ap, sym, fun_ext, arith, some, none, Option,
  Bytes, shift, true, ℤ, pos, minus_one,
}
use Prim.Native.String.{String}
use ece391_linux_os.Boot.Text.{text, text-IsString, codes, plain}
use ece391_linux_os.Programs.Stacks.{length}
use ece391_linux_os.CLib.Str.Laws.{IsString}
use ece391_linux_os.Process.{FileDesc, std_in}
use ece391_linux_os.FileSys.{FileSystem, find_dentry}
use ece391_linux_os.Syscalls.{Kernel, fd_table, sys_open, close}
use ece391_linux_os.Syscalls.Results.{Unusable, vidmap-outside}
use ece391_linux_os.Syscalls.Steps.{write_std_in_step, read_std_out_step, close_standard_step}
use ece391_linux_os.Syscalls.OpenFile.{sys_open-missing}
use ece391_linux_os.Syscalls.Link.{sys_call_link}
use ece391_linux_os.User.Syserr.{
  neg_fd, big_fd, check, err_neg_fd, err_big_fd, err_open, err_unopened, err_vidmap, err_stdin_out,
  err_syscall_num,
}
use ece391_linux_os.User.OnKernel.{kernel_calls, placed}
use ece391_linux_os.User.OnKernel.Files.{HasScreen, printed_table}
use ece391_linux_os.User.OnKernel.Errors.{
  said, Passes, verdict-Passes, err_fd-Passes, close_unopened_lem, read_unopened_lem,
  write_unopened_lem,
}

-- What the tests rely on: the keyboard and the screen at descriptors 0 and 1 and no others, and no
-- files of the names that are slightly incorrect.
pub record Ready (fs : FileSystem) (table : ℕ → FileDesc) : Type 0 where
  pub has_screen : HasScreen table
  pub keyboard : (table 0).fops_ptr ≡ std_in
  pub unopened : (i : ℕ) → 2 ≤ i → i < 8 → (table i).flags ≡ 0
  pub no_helloo : find_dentry fs (text "helloo") 6 ≡ none
  pub no_shel : find_dentry fs (text "shel") 4 ≡ none

pub said-Ready :
    (k : Kernel) (s : String) → Ready k.fs (fd_table k) → Ready k.fs (fd_table (said k s))
said-Ready k s h =
    subst (λ (t : ℕ → FileDesc). Ready k.fs t) (sym (printed_table k (text s) 0 (length (codes s))))
      h

module _ (base pt fuel : ℕ) (launch : Kernel → Bytes → Option (ℤ × Kernel))
    (gate : Kernel → ℤ → Option (ℤ × Kernel)) (there : base ≢ 0) (enough : 64 ≤ fuel) (k : Kernel)
    (ready : Ready k.fs (fd_table k)) where
  pub err_neg_fd-Passes :
      (buf : Bytes)
      → Passes
          (err_neg_fd (kernel_calls base pt fuel launch gate) fuel k buf)
          k
          "err_neg_fd: PASS\n"
  unfolding err_neg_fd length
  err_neg_fd-Passes buf =
      err_fd-Passes base pt fuel launch gate there enough k neg_fd buf "err_neg_fd: FAIL\n"
        "err_neg_fd: PASS\n" (inl refl) ready.has_screen refl refl

  pub err_big_fd-Passes :
      (buf : Bytes)
      → Passes
          (err_big_fd (kernel_calls base pt fuel launch gate) fuel k buf)
          k
          "err_big_fd: PASS\n"
  unfolding err_big_fd length
  err_big_fd-Passes buf =
      err_fd-Passes base pt fuel launch gate there enough k big_fd buf "err_big_fd: FAIL\n"
        "err_big_fd: PASS\n" (inl refl) ready.has_screen refl refl

  -- A name that is not there.
  open-missing :
      (s : String) (n : ℕ)
      → plain (codes s) ≡ true
      → length (codes s) ≡ n
      → n < 64
      → (n ≡ 0) ⊎ (find_dentry k.fs (text s) n ≡ none)
      → sys_open fuel k (placed base (text s)) base ≡ some (minus_one, k)
  open-missing s n is e small bad =
      let back : shift (placed base (text s)) base ≡ text s =
        fun_ext (λ j. ap (text s) (omega arith)) in
      let string : IsString (text s) n =
        subst (λ (l : ℕ). IsString (text s) l) e (text-IsString s is).0 in
      sys_open-missing fuel k (placed base (text s)) base n
        (subst (λ (b : Bytes). IsString b n) (sym back) string) (omega arith)
        (subst (λ (b : Bytes). (n ≡ 0) ⊎ (find_dentry k.fs b n ≡ none)) (sym back) bad)

  pub err_open-Passes :
      Passes (err_open (kernel_calls base pt fuel launch gate) fuel k) k "err_open: PASS\n"
  unfolding err_open check length
  err_open-Passes =
      let e1 = open-missing "helloo" 6 refl refl (omega arith) (inr ready.no_helloo) in
      let e2 = open-missing "shel" 4 refl refl (omega arith) (inr ready.no_shel) in
      let e3 = open-missing "" 0 refl refl (omega arith) (inl refl) in
      rw (e1, e2, e3)
        (verdict-Passes base pt fuel launch gate there enough k "err_open: FAIL\n"
          "err_open: PASS\n" ready.has_screen refl refl)

  pub err_vidmap-Passes :
      Passes (err_vidmap (kernel_calls base pt fuel launch gate) fuel k) k "err_vidmap: PASS\n"
  unfolding err_vidmap check length
  err_vidmap-Passes =
      let e1 = vidmap-outside pt k (λ i. 0) 0x0 (omega arith) in
      let e2 = vidmap-outside pt k (λ i. 0) 0x400000 (omega arith) in
      rw (e1, e2)
        (verdict-Passes base pt fuel launch gate there enough k "err_vidmap: FAIL\n"
          "err_vidmap: PASS\n" ready.has_screen refl refl)

  pub err_stdin_out-Passes :
      (buf : Bytes)
      → Passes
          (err_stdin_out (kernel_calls base pt fuel launch gate) fuel k buf)
          k
          "err_stdin_out: PASS\n"
  unfolding err_stdin_out check length
  err_stdin_out-Passes buf =
      let w = write_std_in_step k (placed base buf) (base + 0) (pos 31) ready.keyboard in
      let r =
        read_std_out_step fuel k (placed base buf) (base + 0) (pos 31) ready.has_screen.screen in
      rw (w, r)
        (verdict-Passes base pt fuel launch gate there enough k "err_stdin_out: FAIL\n"
          "err_stdin_out: PASS\n" ready.has_screen refl refl)

  pub err_syscall_num-Passes :
      Passes
        (err_syscall_num (kernel_calls base pt fuel launch gate) fuel k)
        k
        "err_syscall_num: PASS\n"
  unfolding err_syscall_num check length sys_call_link
  err_syscall_num-Passes =
      (verdict-Passes base pt fuel launch gate there enough k "err_syscall_num: FAIL\n"
        "err_syscall_num: PASS\n" ready.has_screen refl refl)

  -- The descriptors that `err_unopened` tries.
  closed-Unusable : (j : ℕ) → j < 6 → Unusable k (pos (2 + j))
  closed-Unusable j lt = inr (ready.unopened (2 + j) (omega arith) (omega arith))

  refused_close : (j : ℕ) → j < 8 → close k (pos (0 + j)) ≡ (minus_one, k)
  refused_close j lt =
      close_standard_step k (0 + j) (omega arith) (λ le. ready.unopened (0 + j) le (omega arith))

  pub err_unopened-Passes :
      (buf : Bytes)
      → Passes
          (err_unopened (kernel_calls base pt fuel launch gate) fuel k buf)
          k
          "err_unopened: PASS\n"
  unfolding err_unopened length
  err_unopened-Passes buf =
      let c = close_unopened_lem base pt fuel launch gate there enough 8 0 k refused_close in
      let (buf', r) =
        read_unopened_lem base pt fuel launch gate there enough 6 2 k buf closed-Unusable in
      let w = write_unopened_lem base pt fuel launch gate there enough 6 2 k buf' closed-Unusable in
      rw (c, r, w)
        (verdict-Passes base pt fuel launch gate there enough k "err_unopened: FAIL\n"
          "err_unopened: PASS\n" ready.has_screen refl refl)
