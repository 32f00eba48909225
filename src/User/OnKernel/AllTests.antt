-- ===== src/User/OnKernel/AllTests.antt =====
-- All the tests of syscalls/ece391syserr.c in order, on the kernel.
use Prim.Native.String.{String}
use ece391_linux_os.Base.{ℕ, ◌≤◌, ◌≡◌, ◌≢◌, refl, ◌∙◌, ap, some, Option, Bytes, ℤ, List, [], ◌∷◌}
use ece391_linux_os.Boot.Text.{text}
use ece391_linux_os.Programs.Stacks.{length}
use ece391_linux_os.FileSys.{Dentry}
use ece391_linux_os.Console.{Console}
use ece391_linux_os.Syscalls.{Kernel, fd_table}
use ece391_linux_os.User.{Calls}
use ece391_linux_os.User.Syserr.{
  verdict, err_neg_fd, err_big_fd, err_open_lots, err_open, err_unopened, err_vidmap, err_stdin_out,
  err_syscall_num, err_all,
}
use ece391_linux_os.User.OnKernel.{kernel_calls}
use ece391_linux_os.User.OnKernel.Errors.{said, says, verdict-Passes}
use ece391_linux_os.User.OnKernel.Passing.{
  Ready, said-Ready, err_neg_fd-Passes, err_big_fd-Passes, err_open-Passes, err_unopened-Passes,
  err_vidmap-Passes, err_stdin_out-Passes, err_syscall_num-Passes,
}
use ece391_linux_os.User.OnKernel.Lots.{HasDot, err_open_lots-Passes}

-- `err_all` with tests that all return 0.
err_all_step :
    {S : Type 0} (calls : Calls S) (fuel : ℕ) (k k1 k2 k3 k4 k5 k6 k7 k8 : S) (buf : Bytes)
    → err_neg_fd calls fuel k buf ≡ some (0, k1)
    → err_big_fd calls fuel k1 buf ≡ some (0, k2)
    → err_open_lots calls fuel k2 ≡ some (0, k3)
    → err_open calls fuel k3 ≡ some (0, k4)
    → err_unopened calls fuel k4 buf ≡ some (0, k5)
    → err_vidmap calls fuel k5 ≡ some (0, k6)
    → err_stdin_out calls fuel k6 buf ≡ some (0, k7)
    → err_syscall_num calls fuel k7 ≡ some (0, k8)
    → err_all calls fuel k buf
      ≡ verdict calls fuel k8 0 (text "\nOverall Tests: FAIL\n") (text "\nOverall Tests: PASS\n")
unfolding err_all
err_all_step calls fuel k k1 k2 k3 k4 k5 k6 k7 k8 buf e1 e2 e3 e4 e5 e6 e7 e8 =
    rw (e1, e2, e3, e4, e5, e6, e7, e8) refl

-- Texts printed one after the other.
pub says_all : Console → List String → Console
says_all c [] = c
says_all c (s ∷ rest) = says_all (says c s) rest

-- All tests of `ece391syserr`, for a process with the keyboard and the screen at descriptors 0 and
-- 1, no others open and arrays that are not at the address 0, on a mounted image with a directory
-- entry "." and none called "helloo" or "shel", end: with fuel for the texts they return 0 in all, and have printed that
-- each of the eight has passed, and that all have, and nothing else.
pub err_all-says_all :
    (base pt fuel : ℕ) (launch : Kernel → Bytes → Option (ℤ × Kernel))
    (gate : Kernel → ℤ → Option (ℤ × Kernel)) (k : Kernel) (d : Dentry) (buf : Bytes)
    → base ≢ 0
    → 64 ≤ fuel
    → HasDot k.fs d
    → Ready k.fs (fd_table k)
    → (k' : Kernel) × (err_all (kernel_calls base pt fuel launch gate) fuel k buf ≡ some (0, k'))
      × (k'.console
          ≡ says_all k.console (
              "err_neg_fd: PASS\n" ∷ "err_big_fd: PASS\n" ∷ "err_open_lots: PASS\n"
              ∷ "err_open: PASS\n" ∷ "err_unopened: PASS\n" ∷ "err_vidmap: PASS\n"
              ∷ "err_stdin_out: PASS\n" ∷ "err_syscall_num: PASS\n" ∷ "\nOverall Tests: PASS\n"
              ∷ []))
unfolding says_all length
err_all-says_all base pt fuel launch gate k d buf there enough dot ready =
    let k1 : Kernel = said k "err_neg_fd: PASS\n" in
    let h1 : Ready k1.fs (fd_table k1) = said-Ready k "err_neg_fd: PASS\n" ready in
    let k2 : Kernel = said k1 "err_big_fd: PASS\n" in
    let h2 : Ready k2.fs (fd_table k2) = said-Ready k1 "err_big_fd: PASS\n" h1 in
    let (kl, lots, like, hl) =
      err_open_lots-Passes base pt fuel launch gate there enough k2 d dot h2 in
    let k3 : Kernel = said kl "err_open_lots: PASS\n" in
    let h3 : Ready k3.fs (fd_table k3) = said-Ready kl "err_open_lots: PASS\n" hl in
    let k4 : Kernel = said k3 "err_open: PASS\n" in
    let h4 : Ready k4.fs (fd_table k4) = said-Ready k3 "err_open: PASS\n" h3 in
    let k5 : Kernel = said k4 "err_unopened: PASS\n" in
    let h5 : Ready k5.fs (fd_table k5) = said-Ready k4 "err_unopened: PASS\n" h4 in
    let k6 : Kernel = said k5 "err_vidmap: PASS\n" in
    let h6 : Ready k6.fs (fd_table k6) = said-Ready k5 "err_vidmap: PASS\n" h5 in
    let k7 : Kernel = said k6 "err_stdin_out: PASS\n" in
    let h7 : Ready k7.fs (fd_table k7) = said-Ready k6 "err_stdin_out: PASS\n" h6 in
    let k8 : Kernel = said k7 "err_syscall_num: PASS\n" in
    let h8 : Ready k8.fs (fd_table k8) = said-Ready k7 "err_syscall_num: PASS\n" h7 in
    (
      said k8 "\nOverall Tests: PASS\n",
      err_all_step (kernel_calls base pt fuel launch gate) fuel k k1 k2 k3 k4 k5 k6 k7 k8 buf
            (err_neg_fd-Passes base pt fuel launch gate there enough k ready buf)
            (err_big_fd-Passes base pt fuel launch gate there enough k1 h1 buf) lots
            (err_open-Passes base pt fuel launch gate there enough k3 h3)
            (err_unopened-Passes base pt fuel launch gate there enough k4 h4 buf)
            (err_vidmap-Passes base pt fuel launch gate there enough k5 h5)
            (err_stdin_out-Passes base pt fuel launch gate there enough k6 h6 buf)
            (err_syscall_num-Passes base pt fuel launch gate there enough k7 h7)
          ∙ verdict-Passes base pt fuel launch gate there enough k8 "\nOverall Tests: FAIL\n"
              "\nOverall Tests: PASS\n" h8.has_screen refl refl,
      ap
          (λ (c : Console). says_all (says c "err_open_lots: PASS\n") (
            "err_open: PASS\n" ∷ "err_unopened: PASS\n" ∷ "err_vidmap: PASS\n"
            ∷ "err_stdin_out: PASS\n" ∷ "err_syscall_num: PASS\n" ∷ "\nOverall Tests: PASS\n" ∷ []))
          like.same_console,
    )
