-- ===== src/CLib/Str.antt =====
-- The string functions of student-distrib/lib.c. A string is what its pointer points to, `s i`
-- being `s[i]`. A scan for the terminating zero byte takes fuel, and is `none` when it has used
-- that up; the loops that `n` bounds recur on the rounds that are left.
pub mod Laws
pub mod Ends
pub mod Alike
use ece391_linux_os.Base.{
  ℕ, zero, suc, ◌+◌, ◌-◌, ◌%◌, Option, none, some, Bytes, update, ◌==◌, ltb, ◌||◌, ◌&&◌,
  if◌then◌else◌, true, false, ℤ, pos, sub_ℕ, Bool,
}

unfoldable pub strlen_loop : ℕ → Bytes → ℕ → Option ℕ
strlen_loop zero s len = none
strlen_loop (suc fuel) s len =
    let rest = strlen_loop fuel s (len + 1) in if s len == 0 then some len else rest

unfoldable pub strlen : ℕ → Bytes → Option ℕ
unfolding strlen_loop
strlen fuel s = strlen_loop fuel s 0

-- `a - b` of two `int8_t`, given as bytes
abbrev pub char_diff : ℕ → ℕ → ℤ
char_diff a b = sub_ℕ ((a + 128) % 256) ((b + 128) % 256)

strncmp_loop : ℕ → Bytes → Bytes → ℕ → ℤ
strncmp_loop zero s1 s2 i = pos 0
strncmp_loop (suc rounds) s1 s2 i =
    let rest = strncmp_loop rounds s1 s2 (i + 1) in
    if s1 i == s2 i
    then (if s1 i == 0 then char_diff (s1 i) (s2 i) else rest)
    else char_diff (s1 i) (s2 i)

unfoldable pub strncmp : Bytes → Bytes → ℕ → ℤ
unfolding strncmp_loop
strncmp s1 s2 n = strncmp_loop n s1 s2 0

strcpy_loop : ℕ → Bytes → Bytes → ℕ → Option Bytes
strcpy_loop zero dest src i = none
strcpy_loop (suc fuel) dest src i =
    let rest = strcpy_loop fuel (update dest i (src i)) src (i + 1) in
    if src i == 0 then some (update dest i 0) else rest

pub strcpy : ℕ → Bytes → Bytes → Option Bytes
unfolding strcpy_loop
strcpy fuel dest src = strcpy_loop fuel dest src 0

-- the second loop of `strncpy`
strncpy_pad : ℕ → Bytes → ℕ → Bytes
strncpy_pad zero dest i = dest
strncpy_pad (suc rounds) dest i = strncpy_pad rounds (update dest i 0) (i + 1)

-- and the first
strncpy_loop : ℕ → Bytes → Bytes → ℕ → Bytes
strncpy_loop zero dest src i = dest
strncpy_loop (suc rounds) dest src i =
    let rest = strncpy_loop rounds (update dest i (src i)) src (i + 1) in
    if src i == 0 then strncpy_pad (suc rounds) dest i else rest

pub strncpy : Bytes → Bytes → ℕ → Bytes
unfolding strncpy_loop strncpy_pad
strncpy dest src n = strncpy_loop n dest src 0
