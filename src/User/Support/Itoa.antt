-- ===== src/User/Support/Itoa.antt =====
-- `ece391_strlen`, `ece391_strrev` and `ece391_itoa` of syscalls/ece391support.c against the
-- functions of student-distrib/lib.c.
use ece391_linux_os.Base.{
  ℕ, zero, suc, ◌+◌, ◌-◌, ◌/◌, ◌%◌, ◌≡◌, refl, ap, sym, arith, some, Bytes, update, ◌==◌, leb,
  if◌then◌else◌, false, Bool-cases, inl, inr, Option-cases,
}
use ece391_linux_os.CLib.Str.{strlen, strlen_loop}
use ece391_linux_os.CLib.Itoa.{strrev, strrev_loop, itoa, digits_loop, lookup}
use ece391_linux_os.User.Support.{
  ece391_strlen, strlen_from, ece391_strrev, strrev_swaps, ece391_itoa, itoa_places,
}

strlen_from-strlen_loop :
    (fuel : ℕ) (s : Bytes) (i : ℕ) → strlen_from fuel s i ≡ strlen_loop fuel s i
unfolding strlen_from strlen_loop
strlen_from-strlen_loop zero s i = refl
strlen_from-strlen_loop (suc fuel) s i = rw (strlen_from-strlen_loop fuel s (i + 1)) refl

ece391_strlen-strlen : (fuel : ℕ) (s : Bytes) → ece391_strlen fuel s ≡ strlen fuel s
unfolding ece391_strlen strlen
ece391_strlen-strlen fuel s = strlen_from-strlen_loop fuel s 0

strrev_swaps-strrev_loop :
    (rounds : ℕ) (s : Bytes) (beg end : ℕ)
    → strrev_swaps rounds s beg end ≡ strrev_loop rounds s beg end
unfolding strrev_swaps strrev_loop
strrev_swaps-strrev_loop zero s beg end = refl
strrev_swaps-strrev_loop (suc rounds) s beg end =
    rw
      (strrev_swaps-strrev_loop rounds (update (update s end (s beg)) beg (s end)) (beg + 1)
        (end - 1))
      refl

-- A string of one character is its own reverse.
one_char : (s : Bytes) (len : ℕ) → len ≡ 1 → strrev_loop len s 0 (len - 1) ≡ s
unfolding strrev_loop
one_char s len e = rw e refl

reversed :
    (s : Bytes) (len : ℕ)
    → (if leb len 1 then some s else some (strrev_swaps len s 0 (len - 1)))
      ≡ some (if len == 0 then s else strrev_loop len s 0 (len - 1))
reversed s len = elim (Bool-cases (leb len 1)) [
  | inl short ↦ elim (Bool-cases (len == 0)) [
    | inl empty ↦ rw (short, empty) refl
    | inr one ↦ rw (short, one) (ap (λ (b : Bytes). some b) (sym (one_char s len (ground arith))))
  ]
  | inr long ↦
      let some_left : (len == 0) ≡ false = ground arith in
      rw (long, some_left) (ap (λ (b : Bytes). some b) (strrev_swaps-strrev_loop len s 0 (len - 1)))
]

ece391_strrev-strrev : (fuel : ℕ) (s : Bytes) → ece391_strrev fuel s ≡ strrev fuel s
unfolding ece391_strrev strrev
ece391_strrev-strrev fuel s = elim (Option-cases (strlen fuel s)) [
  | inl endless ↦ rw (ece391_strlen-strlen fuel s, endless, strrev) refl
  | inr (len, e) ↦ rw (ece391_strlen-strlen fuel s, e, strrev) (reversed s len)
]

itoa_places-digits_loop :
    (fuel newval : ℕ) (buf : Bytes) (newbuf radix : ℕ)
    → itoa_places fuel newval buf newbuf radix ≡ digits_loop fuel newval buf newbuf radix
unfolding itoa_places digits_loop
itoa_places-digits_loop zero newval buf newbuf radix = refl
itoa_places-digits_loop (suc fuel) newval buf newbuf radix =
    rw
      (itoa_places-digits_loop fuel (newval / radix) (update buf newbuf (lookup (newval % radix)))
        (newbuf + 1) radix)
      refl

-- The functions of the user programs do what the kernel's do.
pub ece391_itoa-itoa :
    (fuel value : ℕ) (buf : Bytes) (radix : ℕ)
    → ece391_itoa fuel value buf radix ≡ itoa fuel value buf radix
unfolding ece391_itoa itoa
ece391_itoa-itoa fuel value buf radix = elim (Bool-cases (value == 0)) [
  | inl none_left ↦ rw none_left refl
  | inr some_left ↦ elim (Option-cases (digits_loop fuel value buf 0 radix)) [
    | inl endless ↦ rw (some_left, itoa_places-digits_loop fuel value buf 0 radix, endless) refl
    | inr ((b, newbuf), e) ↦
        rw (some_left, itoa_places-digits_loop fuel value buf 0 radix, e)
          (ece391_strrev-strrev fuel (update b newbuf 0))
  ]
]
