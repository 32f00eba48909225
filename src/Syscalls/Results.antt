-- ===== src/Syscalls/Results.antt =====
-- What the other calls of student-distrib/system_calls.c give back.
use ece391_linux_os.Base.{
  ℕ, ◌+◌, ◌-◌, ◌%◌, ◌<◌, ◌≤◌, ◌≡◌, ◌≢◌, ◌⊎◌, inl, inr, refl, ◌∙◌, ap, arith, true, false, some,
  Bytes, shift, update, ◌==◌, ltb, leb, ◌&&◌, ◌||◌, if◌then◌else◌, ℤ, pos, negsuc, minus_one,
  to_nat, Bool-cases,
}
use ece391_linux_os.CLib.Str.{strlen, strncpy}
use ece391_linux_os.CLib.Str.Laws.{IsString, strlen-IsString, strncpy-padded}
use ece391_linux_os.Process.{fd_ok}
use ece391_linux_os.FileSys.{u32_at}
use ece391_linux_os.Paging.{map_video}
use ece391_linux_os.Paging.Walk.{translate}
use ece391_linux_os.Paging.Video.{translate-map_video}
use ece391_linux_os.Syscalls.{
  Kernel, running, fd_table, may_use, read, write, close, splice, getargs, vidmap,
}

-- No open descriptor has this number.
abbrev pub Unusable : Kernel → ℤ → Type 0
Unusable k fd = (fd_ok 0 fd ≡ false) ⊎ ((fd_table k (to_nat fd)).flags ≡ 0)

may_use_lem :
    (k : Kernel) (fd : ℤ) (buf : ℕ) (nbytes : ℤ) → Unusable k fd → may_use k fd buf nbytes ≡ false
unfolding may_use
may_use_lem k fd buf nbytes (inl out) = rw out
may_use_lem k fd buf nbytes (inr free) = ground (arith, free)

-- `read`, `write` and `close` of a number that is out of range or has no open descriptor return -1
-- and change nothing.
pub read-Unusable :
    (fuel : ℕ) (k : Kernel) (fd : ℤ) (m : Bytes) (buf : ℕ) (nbytes : ℤ)
    → Unusable k fd
    → (read fuel k fd m buf nbytes ≡ some (minus_one, k, m))
      × (write k fd m buf nbytes ≡ some (minus_one, k))
      × (close k fd ≡ (minus_one, k))
unfolding read write close
read-Unusable fuel k fd m buf nbytes h = (
  rw (may_use_lem k fd buf nbytes h, read),
  rw (may_use_lem k fd buf nbytes h, write),
  closed fd h,
)
  where
    closed : (fd : ℤ) → Unusable k fd → close k fd ≡ (minus_one, k)
    closed (pos n) (inl out) = ground (arith, out)
    closed (pos n) (inr free) = ground (arith, free)
    closed (negsuc n) h = refl

-- What `getargs` leaves in the caller's memory.
abbrev pub arguments : Bytes → ℕ → Bytes → ℕ → ℕ → Bytes
arguments m buf arg len nbytes a =
    if leb buf a && ltb a (buf + nbytes)
    then (if ltb (a - buf) len then arg (a - buf) else 0)
    else m a

-- `getargs` for a process whose arguments are a string of `len` characters returns, with fuel for
-- it: -1 with the memory as it was for the address 0 or a size that does not hold the string and
-- its zero byte, and else 0, with the string at `buf`, zero bytes after it up to the size, and
-- nothing else changed.
pub getargs-arguments :
    (fuel : ℕ) (k : Kernel) (m : Bytes) (buf len : ℕ) (nbytes : ℤ)
    → IsString (k.pcb (running k)).arg len
    → len < fuel
    → ((buf ≡ 0) ⊎ (to_nat nbytes ≤ len) → getargs fuel k m buf nbytes ≡ some (minus_one, m))
      × (buf ≢ 0
          → len < to_nat nbytes
          → (m' : Bytes) × (getargs fuel k m buf nbytes ≡ some (pos 0, m'))
            × ((a : ℕ) → m' a ≡ arguments m buf (k.pcb (running k)).arg len (to_nat nbytes) a))
unfolding getargs
getargs-arguments fuel k m buf len nbytes h lt =
    let arg : Bytes = (k.pcb (running k)).arg in
    let n : ℕ = to_nat nbytes in
    let e : strlen fuel arg ≡ some len = (strlen-IsString fuel arg len).0 h lt in
    (
      λ bad. elim (Bool-cases (buf == 0 || leb n 0)) [
        | inl refused ↦ rw (refused, getargs)
        | inr ok ↦ let small : ltb n (len + 1) ≡ true = ground arith in rw (ok, e, small, getargs)
      ],
      λ there fits.
          let ok : (buf == 0 || leb n 0) ≡ false = ground arith in
          let holds : ltb n (len + 1) ≡ false = ground arith in
          (
            update (splice m buf (strncpy (shift m buf) arg n)) (buf + len) 0,
            rw (ok, e, holds, getargs),
            λ a. ground (arith, strncpy-padded (shift m buf) arg n len (a - buf) h),
          ),
    )

-- A pointer outside the process's 4 MB.
pub vidmap-outside :
    (pt : ℕ) (k : Kernel) (m : Bytes) (start : ℕ)
    → start < 0x8000000
    → vidmap pt k m start ≡ (minus_one, k, m)
unfolding vidmap
vidmap-outside pt k m start lt =
    let refused : (ltb start 0x8000000 || ltb (0x8400000 - 4) start) ≡ true = ground arith in
    rw (refused, vidmap)

-- `vidmap` with a pointer into the process's 4 MB from 128 MB on, less the last 3 bytes, over the
-- kernel's table returns 0 and stores there an address at which user code then has the 4 KB of the
-- text screen; with any other pointer it returns -1 and changes nothing.
pub vidmap-translate :
    (pt va : ℕ) (k : Kernel) (m : Bytes) (start : ℕ)
    → pt % 4096 ≡ 0
    → k.paging.page_dir 0 ≡ pt + 3
    → va < 4096
    → let (ret, k', m') = vidmap pt k m start in
      (0x8000000 ≤ start
        → start + 4 ≤ 0x8400000
        → (ret ≡ pos 0)
          × (translate pt k'.paging (u32_at m' start + va)
              ≡ some (record { address = 0xb8000 + va; user = true })))
      × ((start < 0x8000000) ⊎ (0x8400000 < start + 4) → vidmap pt k m start ≡ (minus_one, k, m))
unfolding vidmap u32_at
vidmap-translate pt va k m start aligned dir lt = (
  λ lo hi.
      let ok : (ltb start 0x8000000 || ltb (0x8400000 - 4) start) ≡ false = ground arith in
      rw (ok, vidmap)
        (
          refl,
          ap (λ (a : ℕ). translate pt (map_video pt k.paging) (a + va)) (ground arith)
              ∙ ((translate-map_video pt va k.paging aligned dir).0 lt).0,
        ),
  λ bad.
      let refused : (ltb start 0x8000000 || ltb (0x8400000 - 4) start) ≡ true = ground arith in
      rw (refused, vidmap),
)
