-- ===== src/CLib/Str/Alike.antt =====
-- `strncmp` of student-distrib/lib.c looks at the characters that it compares and at no others.
use ece391_linux_os.Base.{ℕ, zero, suc, ◌+◌, ◌<◌, ◌≤◌, ◌≡◌, refl, arith, Bytes}
use ece391_linux_os.CLib.Str.{strncmp, strncmp_loop}

strncmp_loop_ext :
    (n : ℕ) (s s' t : Bytes) (i : ℕ)
    → ((j : ℕ) → i ≤ j → j < i + n → s j ≡ s' j)
    → strncmp_loop n s t i ≡ strncmp_loop n s' t i
unfolding strncmp_loop
strncmp_loop_ext zero s s' t i h = refl
strncmp_loop_ext (suc n) s s' t i h =
    let here : s i ≡ s' i = h i (omega arith) (omega arith) in
    let later : strncmp_loop n s t (i + 1) ≡ strncmp_loop n s' t (i + 1) =
      strncmp_loop_ext n s s' t (i + 1) (λ j le lt. h j (omega arith) (omega arith)) in
    rw (here, later) refl

pub strncmp_ext :
    (n : ℕ) (s s' t : Bytes) → ((j : ℕ) → j < n → s j ≡ s' j) → strncmp s t n ≡ strncmp s' t n
unfolding strncmp
strncmp_ext n s s' t h = strncmp_loop_ext n s s' t 0 (λ j le lt. h j (omega arith))
