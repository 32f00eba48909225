-- ===== src/Console/Print.antt =====
-- `puts` and `printf` of student-distrib/lib.c. Fuel bounds the scan of a string and the digits of a
-- number; `m` is the memory that the arguments point into.
pub mod Text
pub mod Processes
use ece391_linux_os.Base.{
  ℕ, zero, suc, ◌+◌, ◌-◌, Bool, true, false, Option, none, some, Bytes, shift, update, ◌==◌, ltb,
  if◌then◌else◌, u32_mod, ◌^◌, ◌%◌,
}
use ece391_linux_os.CLib.Itoa.{itoa}
use ece391_linux_os.CLib.Str.{strlen}
use ece391_linux_os.Console.{Console, putc}

puts_loop : ℕ → Bytes → ℕ → Console → Option (Console × ℕ)
puts_loop zero s index c = none
puts_loop (suc fuel) s index c =
    let rest = puts_loop fuel s (index + 1) (putc c (s index)) in
    if s index == 0 then some (c, index) else rest

pub puts : ℕ → Bytes → Console → Option (Console × ℕ)
unfolding puts_loop
puts fuel s c = puts_loop fuel s 0 c

-- the loop that puts zeros before a number
fill_zeros : ℕ → Bytes → ℕ → Bytes
fill_zeros zero conv_buf i = conv_buf
fill_zeros (suc rounds) conv_buf i =
    if ltb i 8 then fill_zeros rounds (update conv_buf i b'0') (i + 1) else conv_buf

-- `itoa(value, &conv_buf[at], radix)`; what is in the buffer before is `junk`
abbrev itoa_at : ℕ → Bytes → ℕ → ℕ → ℕ → Option Bytes
itoa_at fuel junk at value radix = elim (itoa fuel value (shift junk at) radix) [
  | none ↦ none
  | some r ↦ some (λ i. if ltb i at then junk i else r (i - at))
]

abbrev only_console : Option (Console × ℕ) → Option Console
only_console none = none
only_console (some (c, index)) = some c

print_number : ℕ → Bytes → ℕ → ℕ → Console → Option Console
unfolding puts
print_number fuel junk value radix c = elim (itoa_at fuel junk 0 value radix) [
  | none ↦ none
  | some conv_buf ↦ only_console (puts fuel conv_buf c)
]

print_padded : ℕ → Bytes → ℕ → Console → Option Console
unfolding puts fill_zeros
print_padded fuel junk value c = elim (itoa_at fuel junk 8 value 16) [
  | none ↦ none
  | some conv_buf ↦ elim (strlen fuel (shift conv_buf 8)) [
    | none ↦ none
    | some starting_index ↦
        only_console (puts fuel (shift (fill_zeros 8 conv_buf starting_index) starting_index) c)
  ]
]

-- The negative numbers are those from 2 ^ 31 on.
print_signed : ℕ → Bytes → ℕ → Console → Option Console
unfolding puts print_number
print_signed fuel junk value c =
    if ltb value (2 ^ 31)
    then print_number fuel junk value 10 c
    else elim (itoa_at fuel junk 1 ((u32_mod - value) % u32_mod) 10) [
      | none ↦ none
      | some conv_buf ↦ only_console (puts fuel (update conv_buf 0 b'-') c)
    ]

-- One conversion, with the argument `esp` names.
abbrev next_arg : Option Console → ℕ → ℕ → Option (Console × ℕ × ℕ)
next_arg none esp buf = none
next_arg (some c) esp buf = some (c, esp + 1, buf)

-- `args k` is the word at `esp[k]`, and `junk` what is on the stack where `conv_buf` stands.
conversion : ℕ → Bytes → Bytes → Bytes → (ℕ → ℕ) → Bool → ℕ → ℕ → Console → Option (Console × ℕ × ℕ)
conversion zero m junk format args alternate esp buf c = none
conversion (suc fuel) m junk format args alternate esp buf c =
    let again = conversion fuel m junk format args true esp (buf + 1) c in
    let ch = format buf in
    if ch == b'%'
    then some (putc c b'%', esp, buf)
    else if ch == b'#'
    then again
    else if ch == b'x'
    then next_arg
        (if alternate
          then print_padded fuel junk (args esp) c
          else print_number fuel junk (args esp) 16 c)
        esp buf
    else if ch == b'u'
    then next_arg (print_number fuel junk (args esp) 10 c) esp buf
    else if ch == b'd'
    then next_arg (print_signed fuel junk (args esp) c) esp buf
    else if ch == b'c'
    then some (putc c (args esp % 256), esp + 1, buf)
    else if ch == b's'
    then next_arg (only_console (puts fuel (shift m (args esp)) c)) esp buf
    else some (c, esp, buf)

printf_loop : ℕ → Bytes → Bytes → Bytes → (ℕ → ℕ) → ℕ → ℕ → Console → Option (Console × ℕ)
printf_loop zero m junk format args esp buf c = none
printf_loop (suc fuel) m junk format args esp buf c =
    let plain = printf_loop fuel m junk format args esp (buf + 1) (putc c (format buf)) in
    let converted : Option (Console × ℕ) =
      elim (conversion fuel m junk format args false esp (buf + 1) c) [
        | none ↦ none
        | some (c', esp', buf') ↦ printf_loop fuel m junk format args esp' (buf' + 1) c'
      ] in
    if format buf == 0 then some (c, buf) else if format buf == b'%' then converted else plain

-- A `%` that ends the format is skipped together with the zero byte behind it.
pub printf : ℕ → Bytes → Bytes → Bytes → (ℕ → ℕ) → Console → Option (Console × ℕ)
unfolding printf_loop conversion print_number print_padded print_signed
printf fuel m junk format args c = printf_loop fuel m junk format args 0 0 c
