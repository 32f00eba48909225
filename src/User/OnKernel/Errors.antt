-- ===== src/User/OnKernel/Errors.antt =====
-- The tests of syscalls/ece391syserr.c on the kernel.

use ece391_linux_os.Base.{
  ℕ, zero, suc, ◌+◌, ◌<◌, ◌≤◌, ◌≡◌, ◌≢◌, refl, ◌∙◌, ap, fun_ext, arith, some, Option, Bytes, shift,
  ltb, true, ℤ, pos, minus_one, of_u32,
}
use Prim.Native.String.{String}
use ece391_linux_os.Boot.Text.{text, text-IsString, codes, plain}
use ece391_linux_os.Programs.Stacks.{length}
use ece391_linux_os.Console.{Console, put_bytes}
use ece391_linux_os.Syscalls.{Kernel, fd_table, close}
use ece391_linux_os.Syscalls.Results.{Unusable, read-Unusable}
use ece391_linux_os.User.Basic.{print_text}
use ece391_linux_os.User.Support.{ece391_fdputs, ece391_strlen}
use ece391_linux_os.User.Support.Laws.{ece391_strlen-IsString}
use ece391_linux_os.User.Syserr.{
  check, verdict, err_fd, close_unopened, read_unopened, write_unopened,
}
use ece391_linux_os.User.OnKernel.{kernel_calls, kernel_read, placed}
use ece391_linux_os.User.OnKernel.Files.{HasScreen, printed, write-HasScreen}

-- The kernel with a text printed.
abbrev pub said : Kernel → String → Kernel
said k s = printed k (text s) 0 (length (codes s))

abbrev pub says : Console → String → Console
says c s = put_bytes (length (codes s)) c (text s) 0

-- What a test has done that returned 0 and printed `s`.
abbrev pub Passes : Option (ℕ × Kernel) → Kernel → String → Type 0
Passes run k s = run ≡ some (0, said k s)

module _ (base pt fuel : ℕ) (launch : Kernel → Bytes → Option (ℤ × Kernel))
    (gate : Kernel → ℤ → Option (ℤ × Kernel)) (there : base ≢ 0) (enough : 64 ≤ fuel) where
  -- A text to the screen.
  pub print_text-said :
      (k : Kernel) (s : String)
      → HasScreen (fd_table k)
      → plain (codes s) ≡ true
      → ltb (length (codes s)) 64 ≡ true
      → print_text (kernel_calls base pt fuel launch gate) fuel k (text s) ≡ some (said k s)
  unfolding ece391_fdputs
  print_text-said k s screen is short =
      let n : ℕ = length (codes s) in
      let lt : n < 64 = ground arith in
      let back : (λ (i : ℕ). text s (0 + i)) ≡ text s = fun_ext (λ i. ap (text s) (omega arith)) in
      let len =
        ap (λ (b : Bytes). ece391_strlen fuel b) back
        ∙ ece391_strlen-IsString fuel (text s) n (text-IsString s is).0 (omega arith) in
      let whole : of_u32 n ≡ pos n = ground arith in
      let w =
        write-HasScreen base k (text s) (text s) 0 n there screen
          (λ i l. ap (text s) (omega arith)) in
      rw (len, whole, w) refl

  pub verdict-Passes :
      (k : Kernel) (failed s : String)
      → HasScreen (fd_table k)
      → plain (codes s) ≡ true
      → ltb (length (codes s)) 64 ≡ true
      → Passes (verdict (kernel_calls base pt fuel launch gate) fuel k 0 (text failed) (text s)) k s
  unfolding verdict
  verdict-Passes k failed s screen is short = rw (print_text-said k s screen is short) refl

  -- A descriptor that is not open.
  pub kernel_read-Unusable :
      (k : Kernel) (fd : ℤ) (buf : Bytes)
      → Unusable k fd
      → kernel_read base fuel k fd buf 0 (pos 31)
        ≡ some (minus_one, k, shift (placed base buf) base)
  kernel_read-Unusable k fd buf h =
      rw ((read-Unusable fuel k fd (placed base buf) (base + 0) (pos 31) h).0) refl

  pub err_fd-Passes :
      (k : Kernel) (fd : ℤ) (buf : Bytes) (failed s : String)
      → Unusable k fd
      → HasScreen (fd_table k)
      → plain (codes s) ≡ true
      → ltb (length (codes s)) 64 ≡ true
      → Passes
          (err_fd (kernel_calls base pt fuel launch gate) fuel k fd buf (text failed) (text s))
          k
          s
  unfolding err_fd check
  err_fd-Passes k fd buf failed s h screen is short =
      let r = kernel_read-Unusable k fd buf h in
      let b : Bytes = shift (placed base buf) base in
      let (x, w, c) = read-Unusable fuel k fd (placed base b) (base + 0) (pos 31) h in
      rw (r, w, c) (verdict-Passes k failed s screen is short)

  -- The loops of `err_unopened` over descriptors that are not open.
  pub close_unopened_lem :
      (rounds i : ℕ) (k : Kernel)
      → ((j : ℕ) → j < rounds → close k (pos (i + j)) ≡ (minus_one, k))
      → close_unopened rounds (kernel_calls base pt fuel launch gate) fuel k i 0 ≡ some (0, k)
  unfolding close_unopened check
  close_unopened_lem zero i k h = refl
  close_unopened_lem (suc rounds) i k h =
      let e : i + 0 ≡ i = omega arith in
      let first : close k (pos i) ≡ (minus_one, k) = rw e at (h 0 (omega arith)) in
      rw first (
        close_unopened_lem rounds (i + 1) k (λ j lt.
          let e' : i + 1 + j ≡ i + (1 + j) = omega arith in rw e' (h (1 + j) (omega arith))))

  pub read_unopened_lem :
      (rounds i : ℕ) (k : Kernel) (buf : Bytes)
      → ((j : ℕ) → j < rounds → Unusable k (pos (i + j)))
      → (buf' : Bytes) × (read_unopened rounds
            (kernel_calls base pt fuel launch gate)
            fuel
            k
            buf
            i
            0
          ≡ some (0, k, buf'))
  unfolding read_unopened check
  read_unopened_lem zero i k buf h = (buf, refl)
  read_unopened_lem (suc rounds) i k buf h =
      let e : i + 0 ≡ i = omega arith in
      let b : Bytes = shift (placed base buf) base in
      let first = kernel_read-Unusable k (pos i) buf (rw e at (h 0 (omega arith))) in
      let (buf', run) = read_unopened_lem rounds (i + 1) k b (λ j lt.
        let e' : i + 1 + j ≡ i + (1 + j) = omega arith in rw e' (h (1 + j) (omega arith))) in
      (buf', rw first run)

  pub write_unopened_lem :
      (rounds i : ℕ) (k : Kernel) (buf : Bytes)
      → ((j : ℕ) → j < rounds → Unusable k (pos (i + j)))
      → write_unopened rounds (kernel_calls base pt fuel launch gate) fuel k buf i 0 ≡ some (0, k)
  unfolding write_unopened check
  write_unopened_lem zero i k buf h = refl
  write_unopened_lem (suc rounds) i k buf h =
      let e : i + 0 ≡ i = omega arith in
      let first =
        (read-Unusable fuel k (pos i) (placed base buf) (base + 0) (pos 31)
          (rw e at (h 0 (omega arith)))).1 in
      rw first (
        write_unopened_lem rounds (i + 1) k buf (λ j lt.
          let e' : i + 1 + j ≡ i + (1 + j) = omega arith in rw e' (h (1 + j) (omega arith))))
