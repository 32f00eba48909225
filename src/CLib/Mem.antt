-- ===== src/CLib/Mem.antt =====
-- The inline assembly of `memcpy`, `memset`, `memset_word`, `memset_dword` and `memmove` in
-- student-distrib/lib.c, instruction by instruction. `edi` and `esi` are addresses, and `ecx` is
-- the count of rounds that is left. Addresses do not wrap.
pub mod Laws
use ece391_linux_os.Base.{
  ℕ, zero, suc, ◌+◌, ◌*◌, ◌/◌, ◌%◌, ◌^◌, bit_and, bit_or, Bytes, update, leb, ◌==◌, if◌then◌else◌,
}

-- `movl (%esi), (%edi)`: four bytes, of a source that the destination does not overlap.
abbrev pub store4 : Bytes → ℕ → ℕ → ℕ → ℕ → ℕ → Bytes
store4 m a b0 b1 b2 b3 = update (update (update (update m a b0) (a + 1) b1) (a + 2) b2) (a + 3) b3

-- `.memcpy_bottom`, and the byte by byte part of `.memcpy_top`
pub copy_bytes : ℕ → Bytes → ℕ → Bytes → ℕ → Bytes
copy_bytes zero dst edi src esi = dst
copy_bytes (suc edx) dst edi src esi =
    copy_bytes edx (update dst edi (src esi)) (edi + 1) src (esi + 1)

-- `rep movsl`
pub rep_movsl : ℕ → Bytes → ℕ → Bytes → ℕ → Bytes
rep_movsl zero dst edi src esi = dst
rep_movsl (suc ecx) dst edi src esi =
    rep_movsl ecx (store4 dst edi (src esi) (src (esi + 1)) (src (esi + 2)) (src (esi + 3)))
      (edi + 4) src (esi + 4)

-- `.memcpy_aligned`
pub memcpy_aligned : ℕ → Bytes → ℕ → Bytes → ℕ → Bytes
memcpy_aligned ecx dst edi src esi =
    copy_bytes (ecx % 4) (rep_movsl (ecx / 4) dst edi src esi) (edi + 4 * (ecx / 4)) src
      (esi + 4 * (ecx / 4))

-- `.memcpy_top`
pub memcpy : ℕ → Bytes → ℕ → Bytes → ℕ → Bytes
memcpy zero dst edi src esi = dst
memcpy (suc ecx) dst edi src esi =
    let rest = memcpy ecx (update dst edi (src esi)) (edi + 1) src (esi + 1) in
    if edi % 4 == 0 then memcpy_aligned (suc ecx) dst edi src esi else rest

-- `rep stosl` of the word with the four bytes of `eax`, lowest first
pub rep_stosl : ℕ → Bytes → ℕ → ℕ → Bytes
rep_stosl zero dst edi eax = dst
rep_stosl (suc ecx) dst edi eax =
    rep_stosl ecx
      (store4 dst edi (eax % 256) (eax / 256 % 256) (eax / 65536 % 256) (eax / 16777216 % 256))
      (edi + 4) eax

pub rep_stosw : ℕ → Bytes → ℕ → ℕ → Bytes
rep_stosw zero dst edi eax = dst
rep_stosw (suc ecx) dst edi eax =
    rep_stosw ecx (update (update dst edi (eax % 256)) (edi + 1) (eax / 256 % 256)) (edi + 2) eax

-- `.memset_bottom`: `movb %al, (%edi)`
pub fill_bytes : ℕ → Bytes → ℕ → ℕ → Bytes
fill_bytes zero dst edi eax = dst
fill_bytes (suc edx) dst edi eax = fill_bytes edx (update dst edi (eax % 256)) (edi + 1) eax

pub memset_aligned : ℕ → Bytes → ℕ → ℕ → Bytes
memset_aligned ecx dst edi eax =
    fill_bytes (ecx % 4) (rep_stosl (ecx / 4) dst edi eax) (edi + 4 * (ecx / 4)) eax

pub memset_top : ℕ → Bytes → ℕ → ℕ → Bytes
memset_top zero dst edi eax = dst
memset_top (suc ecx) dst edi eax =
    let rest = memset_top ecx (update dst edi (eax % 256)) (edi + 1) eax in
    if edi % 4 == 0 then memset_aligned (suc ecx) dst edi eax else rest

-- `c << 24 | c << 16 | c << 8 | c`
pub spread : ℕ → ℕ
spread c = bit_or (bit_or (bit_or (c * 2 ^ 24) (c * 2 ^ 16)) (c * 2 ^ 8)) c

pub memset : Bytes → ℕ → ℕ → ℕ → Bytes
memset dst s c n = memset_top n dst s (spread (bit_and c 0xff))

pub memset_word : Bytes → ℕ → ℕ → ℕ → Bytes
memset_word dst s c n = rep_stosw n dst s c

pub memset_dword : Bytes → ℕ → ℕ → ℕ → Bytes
memset_dword dst s c n = rep_stosl n dst s c

-- `rep movsb` within one memory, with the direction flag clear
pub movsb_up : ℕ → Bytes → ℕ → ℕ → Bytes
movsb_up zero m edi esi = m
movsb_up (suc ecx) m edi esi = movsb_up ecx (update m edi (m esi)) (edi + 1) (esi + 1)

-- and with the flag set: `edi + ecx` and `esi + ecx` go down
pub movsb_down : ℕ → Bytes → ℕ → ℕ → Bytes
movsb_down zero m edi esi = m
movsb_down (suc ecx) m edi esi = movsb_down ecx (update m (edi + ecx) (m (esi + ecx))) edi esi

-- `cmp %edi, %esi; jae .memmove_go`
pub memmove : Bytes → ℕ → ℕ → ℕ → Bytes
memmove m dest src n = if leb dest src then movsb_up n m dest src else movsb_down n m dest src
