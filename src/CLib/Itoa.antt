-- ===== src/CLib/Itoa.antt =====
-- `strrev` and `itoa` of student-distrib/lib.c.
pub mod Laws
use ece391_linux_os.Base.{
  ℕ, zero, suc, ◌+◌, ◌-◌, ◌/◌, ◌%◌, Option, none, some, List, [], ◌∷◌, Bytes, update, ◌==◌, ltb,
  if◌then◌else◌,
}
use ece391_linux_os.CLib.Str.{strlen}

-- The loop of `strrev`: it swaps the ends until they meet.
unfoldable pub strrev_loop : ℕ → Bytes → ℕ → ℕ → Bytes
strrev_loop zero s beg end = s
strrev_loop (suc rounds) s beg end =
    let rest = strrev_loop rounds (update (update s end (s beg)) beg (s end)) (beg + 1) (end - 1) in
    if ltb beg end then rest else s

-- `end` is -1 for an empty string, and the loop then makes no round.
unfoldable pub strrev : ℕ → Bytes → Option Bytes
strrev fuel s = elim (strlen fuel s) [
  | none ↦ none
  | some len ↦ some (if len == 0 then s else strrev_loop len s 0 (len - 1))
]

-- `lookup[i]`, of the digits '0' to '9' and 'A' to 'Z'
pub lookup : ℕ → ℕ
lookup i = if ltb i 10 then b'0' + i else b'A' + (i - 10)

-- The loop over the places, lowest first; with its end in `buf`.
unfoldable pub digits_loop : ℕ → ℕ → Bytes → ℕ → ℕ → Option (Bytes × ℕ)
digits_loop zero newval buf newbuf radix = none
digits_loop (suc fuel) newval buf newbuf radix =
    let rest =
      digits_loop fuel (newval / radix) (update buf newbuf (lookup (newval % radix))) (newbuf + 1)
        radix in
    if newval == 0 then some (buf, newbuf) else rest

-- `fuel` bounds the places of the number and the scan for its end.
unfoldable pub itoa : ℕ → ℕ → Bytes → ℕ → Option Bytes
itoa fuel value buf radix =
    if value == 0
    then some (update (update buf 0 b'0') 1 0)
    else elim (digits_loop fuel value buf 0 radix) [
      | none ↦ none
      | some (b, newbuf) ↦ strrev fuel (update b newbuf 0)
    ]
