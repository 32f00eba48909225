-- ===== src/CLib/Mem/Laws.antt =====
-- What the block copies and fills of student-distrib/lib.c do, byte by byte.
use ece391_linux_os.Base.{
  ℕ, zero, suc, ◌+◌, ◌-◌, ◌*◌, ◌/◌, ◌%◌, ◌<◌, ◌≤◌, ◌≡◌, refl, ◌∙◌, arith, Bool, Bytes, ltb, leb,
  ◌==◌, ◌&&◌, if◌then◌else◌, true, inl, inr, Bool-cases, bit_and, update,
}
use ece391_linux_os.Base.Bits.{all_below, all_below_sound}
use ece391_linux_os.CLib.Mem.{
  copy_bytes, rep_movsl, memcpy_aligned, memcpy, movsb_up, movsb_down, memmove, fill_bytes,
  rep_stosl, rep_stosw, memset_aligned, memset_top, spread, memset,
}

-- Whether the address `i` is one of the `n` from `d` on.
abbrev pub within : ℕ → ℕ → ℕ → Bool
within d n i = leb d i && ltb i (d + n)

-- `dst` with the `n` bytes of `src` from `s` on in place of those from `d` on
abbrev pub copied : ℕ → Bytes → ℕ → Bytes → ℕ → Bytes
copied n dst d src s i = if within d n i then src (s + (i - d)) else dst i

copy_bytes-copied :
    (n : ℕ) (dst : Bytes) (d : ℕ) (src : Bytes) (s i : ℕ)
    → copy_bytes n dst d src s i ≡ copied n dst d src s i
unfolding copy_bytes
copy_bytes-copied zero dst d src s i = ground arith
copy_bytes-copied (suc n) dst d src s i =
    ground (arith, copy_bytes-copied n (update dst d (src s)) (d + 1) src (s + 1) i)

rep_movsl-copied :
    (n : ℕ) (dst : Bytes) (d : ℕ) (src : Bytes) (s i : ℕ)
    → rep_movsl n dst d src s i ≡ copied (4 * n) dst d src s i
unfolding rep_movsl
rep_movsl-copied zero dst d src s i = ground arith
rep_movsl-copied (suc n) dst d src s i = rep_movsl-copied n _ (d + 4) src (s + 4) i ∙ ground arith

memcpy_aligned-copied :
    (n : ℕ) (dst : Bytes) (d : ℕ) (src : Bytes) (s i : ℕ)
    → memcpy_aligned n dst d src s i ≡ copied n dst d src s i
unfolding memcpy_aligned
memcpy_aligned-copied n dst d src s i =
    copy_bytes-copied (n % 4) (rep_movsl (n / 4) dst d src s) (d + 4 * (n / 4)) src
      (s + 4 * (n / 4)) i
    ∙ ground (arith, rep_movsl-copied (n / 4) dst d src s i)

-- `memcpy` by double words copies the same bytes as a copy of each byte, for every length and
-- alignment, and changes nothing else.
pub memcpy-copied :
    (n : ℕ) (dst : Bytes) (d : ℕ) (src : Bytes) (s i : ℕ)
    → memcpy n dst d src s i ≡ copied n dst d src s i
unfolding memcpy
memcpy-copied zero dst d src s i = ground arith
memcpy-copied (suc n) dst d src s i = ground (
  arith,
  memcpy_aligned-copied (suc n) dst d src s i,
  memcpy-copied n (update dst d (src s)) (d + 1) src (s + 1) i,
)

movsb_up-copied : (n : ℕ) (m : Bytes) (d s i : ℕ) → d ≤ s → movsb_up n m d s i ≡ copied n m d m s i
unfolding movsb_up
movsb_up-copied zero m d s i h = ground arith
movsb_up-copied (suc n) m d s i h =
    ground (arith, movsb_up-copied n (update m d (m s)) (d + 1) (s + 1) i (omega arith))

movsb_down-copied :
    (n : ℕ) (m : Bytes) (d s i : ℕ) → s < d → movsb_down n m d s i ≡ copied n m d m s i
unfolding movsb_down
movsb_down-copied zero m d s i h = ground arith
movsb_down-copied (suc n) m d s i h =
    ground (arith, movsb_down-copied n (update m (d + n) (m (s + n))) d s i h)

-- `memmove` within one memory moves the bytes that stood at the source before the call, whether
-- or not the two areas overlap, and changes nothing else.
pub memmove-copied : (m : Bytes) (d s n i : ℕ) → memmove m d s n i ≡ copied n m d m s i
unfolding memmove
memmove-copied m d s n i = elim (Bool-cases (leb d s)) [
  | inl up ↦ rw up (movsb_up-copied n m d s i (ground arith))
  | inr down ↦ rw down (movsb_down-copied n m d s i (ground arith))
]

-- `dst` with `c` in each of the `n` bytes from `d` on
abbrev pub filled : ℕ → Bytes → ℕ → ℕ → Bytes
filled n dst d c i = if within d n i then c else dst i

fill_bytes-filled :
    (n : ℕ) (dst : Bytes) (d a i : ℕ) → fill_bytes n dst d a i ≡ filled n dst d (a % 256) i
unfolding fill_bytes
fill_bytes-filled zero dst d a i = ground arith
fill_bytes-filled (suc n) dst d a i =
    fill_bytes-filled n (update dst d (a % 256)) (d + 1) a i ∙ ground arith

-- A word with the same byte four times.
abbrev Splat : ℕ → ℕ → Type 0
Splat a c = (a % 256 ≡ c) × (a / 256 % 256 ≡ c) × (a / 65536 % 256 ≡ c) × (a / 16777216 % 256 ≡ c)

rep_stosl-filled :
    (n : ℕ) (dst : Bytes) (d a c i : ℕ)
    → Splat a c
    → rep_stosl n dst d a i ≡ filled (4 * n) dst d c i
unfolding rep_stosl
rep_stosl-filled zero dst d a c i h = ground arith
rep_stosl-filled (suc n) dst d a c i (h0, h1, h2, h3) =
    rw (h0, h1, h2, h3) (rep_stosl-filled n _ (d + 4) a c i (h0, h1, h2, h3) ∙ ground arith)

memset_aligned-filled :
    (n : ℕ) (dst : Bytes) (d a c i : ℕ)
    → Splat a c
    → memset_aligned n dst d a i ≡ filled n dst d c i
unfolding memset_aligned
memset_aligned-filled n dst d a c i h =
    fill_bytes-filled (n % 4) (rep_stosl (n / 4) dst d a) (d + 4 * (n / 4)) a i
    ∙ ground (arith, h.0, rep_stosl-filled (n / 4) dst d a c i h)

memset_top-filled :
    (n : ℕ) (dst : Bytes) (d a c i : ℕ) → Splat a c → memset_top n dst d a i ≡ filled n dst d c i
unfolding memset_top
memset_top-filled zero dst d a c i h = ground arith
memset_top-filled (suc n) dst d a c i h = ground (
  arith,
  h.0,
  memset_aligned-filled (suc n) dst d a c i h,
  memset_top-filled n (update dst d (a % 256)) (d + 1) a c i h,
)

abbrev splat_test : ℕ → Bool
splat_test c =
    let a = spread (bit_and c 0xff) in
    (a % 256 == c)
    && ((a / 256 % 256 == c) && ((a / 65536 % 256 == c) && (a / 16777216 % 256 == c)))

splat_table : all_below 256 splat_test ≡ true
unfolding all_below spread
splat_table = refl

spread-Splat : (c : ℕ) → c < 256 → Splat (spread (bit_and c 0xff)) c
spread-Splat c h = ground (arith, all_below_sound 256 splat_test c splat_table h)

-- `memset` by double words sets each of the `n` bytes to `c`, for every byte `c`, length and
-- alignment, and changes nothing else.
pub memset-filled : (dst : Bytes) (s c n i : ℕ) → c < 256 → memset dst s c n i ≡ filled n dst s c i
unfolding memset
memset-filled dst s c n i h =
    memset_top-filled n dst s (spread (bit_and c 0xff)) c i (spread-Splat c h)

-- `memset_word` stores the low and the high byte of the word in turn, `n` times.
rep_stosw-stored :
    (n : ℕ) (dst : Bytes) (d a i : ℕ)
    → rep_stosw n dst d a i ≡ (
        if within d (2 * n) i then (if (i - d) % 2 == 0 then a % 256 else a / 256 % 256) else dst i)
unfolding rep_stosw
rep_stosw-stored zero dst d a i = ground arith
rep_stosw-stored (suc n) dst d a i = rep_stosw-stored n _ (d + 2) a i ∙ ground arith
