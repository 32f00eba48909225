-- ===== src/Console/Print/Text.antt =====
-- What `printf` and `puts` do with plain text.
use ece391_linux_os.Base.{
  ℕ, zero, suc, ◌+◌, ◌<◌, ◌≡◌, ◌≢◌, ◌∙◌, ap, arith, true, some, Bytes, ◌==◌, false,
}
use ece391_linux_os.CLib.Str.Laws.{IsString}
use ece391_linux_os.Console.{Console, putc, put_bytes}
use ece391_linux_os.Console.Screen.{InScreen, Touched}
use ece391_linux_os.Console.Write.{put_bytes-Touched}
use ece391_linux_os.Console.Print.{puts, puts_loop, printf, printf_loop}

puts_loop-IsString :
    (fuel rest : ℕ) (s : Bytes) (n index : ℕ) (c : Console)
    → IsString s n
    → index + rest ≡ n
    → rest < fuel
    → puts_loop fuel s index c ≡ some (put_bytes rest c s index, n)
unfolding puts_loop put_bytes
puts_loop-IsString zero rest s n index c h e lt = absurd (omega arith)
puts_loop-IsString (suc fuel) zero s n index c h e lt =
    let at : index ≡ n = omega arith in
    let stop : s index ≡ 0 = ap s at ∙ h.stop in rw stop (ap (λ (k : ℕ). some (c, k)) at)
puts_loop-IsString (suc fuel) (suc rest) s n index c h e lt =
    let more : (s index == 0) ≡ false = ground (arith, h.chars index (omega arith)) in
    rw more (
      puts_loop-IsString fuel rest s n (index + 1) (putc c (s index)) h (omega arith) (omega arith))

printf_loop-plain :
    (fuel rest : ℕ) (m junk format : Bytes) (args : ℕ → ℕ) (n esp buf : ℕ) (c : Console)
    → IsString format n
    → ((i : ℕ) → i < n → format i ≢ b'%')
    → buf + rest ≡ n
    → rest < fuel
    → printf_loop fuel m junk format args esp buf c ≡ some (put_bytes rest c format buf, n)
unfolding printf_loop put_bytes
printf_loop-plain zero rest m junk format args n esp buf c h plain e lt = absurd (omega arith)
printf_loop-plain (suc fuel) zero m junk format args n esp buf c h plain e lt =
    let at : buf ≡ n = omega arith in
    let stop : (format buf == 0) ≡ true = ground (arith, ap format at ∙ h.stop) in
    rw (stop, printf_loop) (ap (λ (k : ℕ). some (c, k)) at)
printf_loop-plain (suc fuel) (suc rest) m junk format args n esp buf c h plain e lt =
    let more : (format buf == 0) ≡ false = ground (arith, h.chars buf (omega arith)) in
    let text : (format buf == b'%') ≡ false = ground (arith, plain buf (omega arith)) in
    rw (more, text, printf_loop)
      (printf_loop-plain fuel rest m junk format args n esp (buf + 1) (putc c (format buf)) h plain
        (omega arith) (omega arith))

pub printf-plain :
    (fuel n : ℕ) (m junk text : Bytes) (args : ℕ → ℕ) (c : Console)
    → IsString text n
    → ((i : ℕ) → i < n → text i ≢ b'%')
    → n < fuel
    → printf fuel m junk text args c ≡ some (put_bytes n c text 0, n)
unfolding printf
printf-plain fuel n m junk text args c h plain lt =
    printf_loop-plain fuel n m junk text args n 0 0 c h plain (omega arith) lt

-- `printf` of a text of `n` characters without `%`, and `puts` of it, return `n` with fuel for
-- the scan, after `putc` of each character in order; they write no memory but the screen's.
pub printf-puts :
    (fuel n : ℕ) (m junk text : Bytes) (args : ℕ → ℕ) (c : Console)
    → InScreen c
    → IsString text n
    → ((i : ℕ) → i < n → text i ≢ b'%')
    → n < fuel
    → (printf fuel m junk text args c ≡ some (put_bytes n c text 0, n))
      × (puts fuel text c ≡ some (put_bytes n c text 0, n))
      × Touched 79 c (put_bytes n c text 0)
unfolding printf puts
printf-puts fuel n m junk text args c s h plain lt = (
  printf_loop-plain fuel n m junk text args n 0 0 c h plain (omega arith) lt,
  puts_loop-IsString fuel n text n 0 c h (omega arith) lt,
  put_bytes-Touched n c text 0 s,
)
