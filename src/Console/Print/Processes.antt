-- ===== src/Console/Print/Processes.antt =====
-- `printf` does not touch what the terminals' records say of processes.
use ece391_linux_os.Base.{
  ℕ, zero, suc, ◌+◌, ◌-◌, ◌%◌, ◌^◌, inl, inr, Bool, true, false, Option, none, some, Option-cases,
  Bytes, shift, update, ◌==◌, ltb, if◌then◌else◌, u32_mod,
}
use mathlib.Core.Path.{subst}
use ece391_linux_os.CLib.Str.{strlen}
use ece391_linux_os.Console.{Console, putc}
use ece391_linux_os.Console.Processes.{
  SameProcesses, SameProcesses-refl, SameProcesses-trans, putc-SameProcesses,
}
use ece391_linux_os.Console.Print.{
  puts_loop, puts, fill_zeros, itoa_at, only_console, print_number, print_padded, print_signed,
  next_arg, conversion, printf_loop, printf,
}

-- Where a console is returned, it has the processes of `c`.
pub data Same (c : Console) : Option Console → Type 0 where
  nothing : Same c none
  kept : {c' : Console} → SameProcesses c c' → Same c (some c')

pub data SameWith (c : Console) : Option (Console × ℕ) → Type 0 where
  nothing_with : SameWith c none
  kept_with : {c' : Console} {index : ℕ} → SameProcesses c c' → SameWith c (some (c', index))

data SameAfter (c : Console) : Option (Console × ℕ × ℕ) → Type 0 where
  nothing_after : SameAfter c none
  kept_after : {c' : Console} {esp buf : ℕ} → SameProcesses c c' → SameAfter c (some (c', esp, buf))

pub if-branch :
    {A : Type 0} (P : A → Type 0) (test : Bool) (a b : A) → P a → P b → P (if test then a else b)
if-branch P true a b p q = p
if-branch P false a b p q = q

puts_loop-Same :
    (fuel : ℕ) (s : Bytes) (index : ℕ) (c d : Console)
    → SameProcesses c d
    → SameWith c (puts_loop fuel s index d)
unfolding puts_loop
puts_loop-Same zero s index c d h = nothing_with
puts_loop-Same (suc fuel) s index c d h = if-branch (SameWith c) (s index == 0) _ _ (kept_with h) (
    puts_loop-Same fuel s (index + 1) c (putc d (s index))
      (SameProcesses-trans h (putc-SameProcesses d (s index))))

only_console-Same :
    (c : Console) (r : Option (Console × ℕ)) → SameWith c r → Same c (only_console r)
only_console-Same c none nothing_with = nothing
only_console-Same c (some (d, n)) (kept_with h) = kept h

puts-Same : (fuel : ℕ) (s : Bytes) (c : Console) → Same c (only_console (puts fuel s c))
unfolding puts
puts-Same fuel s c =
    only_console-Same c (puts_loop fuel s 0 c) (puts_loop-Same fuel s 0 c c (SameProcesses-refl c))

print_number-Same :
    (fuel : ℕ) (junk : Bytes) (value radix : ℕ) (c : Console)
    → Same c (print_number fuel junk value radix c)
unfolding print_number
print_number-Same fuel junk value radix c = elim (Option-cases (itoa_at fuel junk 0 value radix)) [
  | inl never ↦ rw (never, print_number) nothing
  | inr (b, is) ↦ rw (is, print_number) (puts-Same fuel b c)
]

print_padded-Same :
    (fuel : ℕ) (junk : Bytes) (value : ℕ) (c : Console) → Same c (print_padded fuel junk value c)
unfolding print_padded
print_padded-Same fuel junk value c = elim (Option-cases (itoa_at fuel junk 8 value 16)) [
  | inl never ↦ rw (never, print_padded) nothing
  | inr (b, is) ↦ elim (Option-cases (strlen fuel (shift b 8))) [
    | inl never ↦ rw (is, never, print_padded) nothing
    | inr (start, len) ↦
        rw (is, len, print_padded) (puts-Same fuel (shift (fill_zeros 8 b start) start) c)
  ]
]

print_signed-Same :
    (fuel : ℕ) (junk : Bytes) (value : ℕ) (c : Console) → Same c (print_signed fuel junk value c)
unfolding print_signed
print_signed-Same fuel junk value c =
    if-branch (Same c) (ltb value (2 ^ 31)) _ _ (print_number-Same fuel junk value 10 c)
      (elim (Option-cases (itoa_at fuel junk 1 ((u32_mod - value) % u32_mod) 10)) [
        | inl never ↦ rw never nothing
        | inr (b, is) ↦ rw is (puts-Same fuel (update b 0 b'-') c)
      ])

next_arg-Same :
    (c : Console) (r : Option Console) (esp buf : ℕ) → Same c r → SameAfter c (next_arg r esp buf)
next_arg-Same c none esp buf nothing = nothing_after
next_arg-Same c (some d) esp buf (kept h) = kept_after h

conversion-Same :
    (fuel : ℕ) (m junk format : Bytes) (args : ℕ → ℕ) (alternate : Bool) (esp buf : ℕ) (c : Console)
    → SameAfter c (conversion fuel m junk format args alternate esp buf c)
unfolding conversion
conversion-Same zero m junk format args alternate esp buf c = nothing_after
conversion-Same (suc fuel) m junk format args alternate esp buf c =
    let ch = format buf in
    if-branch (SameAfter c) (ch == b'%') _ _
      (kept_after {esp = esp} {buf = buf} (putc-SameProcesses c b'%'))
      (if-branch (SameAfter c) (ch == b'#') _ _
        (conversion-Same fuel m junk format args true esp (buf + 1) c)
        (if-branch (SameAfter c) (ch == b'x') _ _
          (next_arg-Same c _ esp buf (
            if-branch (Same c) alternate _ _ (print_padded-Same fuel junk (args esp) c)
              (print_number-Same fuel junk (args esp) 16 c)))
          (if-branch (SameAfter c) (ch == b'u') _ _
            (next_arg-Same c _ esp buf (print_number-Same fuel junk (args esp) 10 c))
            (if-branch (SameAfter c) (ch == b'd') _ _
              (next_arg-Same c _ esp buf (print_signed-Same fuel junk (args esp) c))
              (if-branch (SameAfter c) (ch == b'c') _ _
                (kept_after {esp = esp + 1} {buf = buf} (putc-SameProcesses c (args esp % 256)))
                (if-branch (SameAfter c) (ch == b's') _ _
                  (next_arg-Same c _ esp buf (puts-Same fuel (shift m (args esp)) c))
                  (kept_after {esp = esp} {buf = buf} (SameProcesses-refl c))))))))

after_kept : {c c' : Console} {esp buf : ℕ} → SameAfter c (some (c', esp, buf)) → SameProcesses c c'
after_kept (kept_after h) = h

printf_loop-Same :
    (fuel : ℕ) (m junk format : Bytes) (args : ℕ → ℕ) (esp buf : ℕ) (c d : Console)
    → SameProcesses c d
    → SameWith c (printf_loop fuel m junk format args esp buf d)
unfolding printf_loop
printf_loop-Same zero m junk format args esp buf c d h = nothing_with
printf_loop-Same (suc fuel) m junk format args esp buf c d h =
    let plain =
      printf_loop-Same fuel m junk format args esp (buf + 1) c (putc d (format buf))
        (SameProcesses-trans h (putc-SameProcesses d (format buf))) in
    elim (Option-cases (conversion fuel m junk format args false esp (buf + 1) d)) [
      | inl never ↦
          rw (never, printf_loop)
            (if-branch (SameWith c) (format buf == 0) _ _ (kept_with h)
              (if-branch (SameWith c) (format buf == b'%') none _ nothing_with plain))
      | inr ((d', esp', buf'), is) ↦
          let same : SameProcesses d d' = after_kept (
            subst (λ (r : Option (Console × ℕ × ℕ)). SameAfter d r) is
              (conversion-Same fuel m junk format args false esp (buf + 1) d)) in
          rw (is, printf_loop)
            (if-branch (SameWith c) (format buf == 0) _ _ (kept_with h) (
              if-branch (SameWith c) (format buf == b'%') _ _
                (printf_loop-Same fuel m junk format args esp' (buf' + 1) c d'
                  (SameProcesses-trans h same))
                plain))
    ]

pub printf-Same :
    (fuel : ℕ) (m junk format : Bytes) (args : ℕ → ℕ) (c : Console)
    → SameWith c (printf fuel m junk format args c)
unfolding printf
printf-Same fuel m junk format args c =
    printf_loop-Same fuel m junk format args 0 0 c c (SameProcesses-refl c)
