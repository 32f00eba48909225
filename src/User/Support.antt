-- ===== src/User/Support.antt =====
-- The functions of syscalls/ece391support.c. Scans for a zero byte take fuel, and are `none` when
-- they have used it up.
pub mod Laws
pub mod Itoa
use ece391_linux_os.Base.{
  ℕ, zero, suc, ◌+◌, ◌-◌, ◌/◌, ◌%◌, Option, none, some, Bytes, update, ◌==◌, ltb, leb,
  if◌then◌else◌, ℤ, pos, sub_ℕ, of_u32, sub32,
}
use ece391_linux_os.CLib.Itoa.{lookup}
use ece391_linux_os.User.{◌>>=◌, Calls}

strlen_from : ℕ → Bytes → ℕ → Option ℕ
strlen_from zero s len = none
strlen_from (suc fuel) s len =
    let rest = strlen_from fuel s (len + 1) in if s len == 0 then some len else rest

pub ece391_strlen : ℕ → Bytes → Option ℕ
unfolding strlen_from
ece391_strlen fuel s = strlen_from fuel s 0

-- `dst` and `src` point into one array, at `d` and `i`.
strcpy_within : ℕ → Bytes → ℕ → ℕ → Option Bytes
strcpy_within zero array d i = none
strcpy_within (suc fuel) array d i =
    let rest = strcpy_within fuel (update array d (array i)) (d + 1) (i + 1) in
    if array i == 0 then some (update array d 0) else rest

pub ece391_strcpy : ℕ → Bytes → ℕ → ℕ → Option Bytes
unfolding strcpy_within
ece391_strcpy fuel array dst src = strcpy_within fuel array dst src

strcmp_from : ℕ → Bytes → Bytes → ℕ → Option ℤ
strcmp_from zero s1 s2 i = none
strcmp_from (suc fuel) s1 s2 i =
    let rest = strcmp_from fuel s1 s2 (i + 1) in
    if s1 i == s2 i then (if s1 i == 0 then some (pos 0) else rest) else some (sub_ℕ (s1 i) (s2 i))

pub ece391_strcmp : ℕ → Bytes → Bytes → Option ℤ
unfolding strcmp_from
ece391_strcmp fuel s1 s2 = strcmp_from fuel s1 s2 0

-- `n` is what is left of the count; it is not 0.
strncmp_from : ℕ → Bytes → Bytes → ℕ → ℤ
strncmp_from zero s1 s2 i = pos 0
strncmp_from (suc n) s1 s2 i =
    let rest = strncmp_from n s1 s2 (i + 1) in
    if s1 i == s2 i
    then (if s1 i == 0 then pos 0 else if n == 0 then pos 0 else rest)
    else sub_ℕ (s1 i) (s2 i)

pub ece391_strncmp : Bytes → Bytes → ℕ → ℤ
unfolding strncmp_from
ece391_strncmp s1 s2 n = if n == 0 then pos 0 else strncmp_from n s1 s2 0

-- The loop of `ece391_strrev`.
strrev_swaps : ℕ → Bytes → ℕ → ℕ → Bytes
strrev_swaps zero s beg end = s
strrev_swaps (suc rounds) s beg end =
    let rest =
      strrev_swaps rounds (update (update s end (s beg)) beg (s end)) (beg + 1) (end - 1) in
    if ltb beg end then rest else s

-- `end` is the length less 1, and the function returns where that is not positive.
pub ece391_strrev : ℕ → Bytes → Option Bytes
unfolding strrev_swaps
ece391_strrev fuel s = do
  len ← ece391_strlen fuel s
  if leb len 1 then some s else some (strrev_swaps len s 0 (len - 1))

-- The loop over the places, lowest first; with its end in `buf`.
itoa_places : ℕ → ℕ → Bytes → ℕ → ℕ → Option (Bytes × ℕ)
itoa_places zero newval buf newbuf radix = none
itoa_places (suc fuel) newval buf newbuf radix =
    let rest =
      itoa_places fuel (newval / radix) (update buf newbuf (lookup (newval % radix))) (newbuf + 1)
        radix in
    if newval == 0 then some (buf, newbuf) else rest

pub ece391_itoa : ℕ → ℕ → Bytes → ℕ → Option Bytes
unfolding itoa_places
ece391_itoa fuel value buf radix =
    if value == 0
    then some (update (update buf 0 b'0') 1 0)
    else do (b, newbuf) ← itoa_places fuel value buf 0 radix; ece391_strrev fuel (update b newbuf 0)

-- The string is at index `at` of an array.
unfoldable pub ece391_fdputs : {S : Type 0} → Calls S → ℕ → S → ℤ → Bytes → ℕ → Option S
ece391_fdputs calls fuel s fd array at = do
  len ← ece391_strlen fuel (λ i. array (at + i))
  (ret, s') ← calls.write_from s fd array at (of_u32 len)
  some s'
