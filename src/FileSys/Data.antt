-- ===== src/FileSys/Data.antt =====
-- `read_data` of student-distrib/filesys.c against the bytes of a file.
use ece391_linux_os.Base.{
  ℕ, zero, suc, ◌+◌, ◌-◌, ◌*◌, ◌/◌, ◌%◌, ◌<◌, ◌≤◌, ◌≡◌, refl, ◌∙◌, ap, ap₂, sym, arith, Option,
  some, Bytes, ◌==◌, leb, if◌then◌else◌, ℤ, pos, minus_one, of_u32, min, u32_mod, inl, inr,
  Bool-cases,
}
use native.Mathlib.Decide.{ℕ_discrete, dec_lt}
use ece391_linux_os.CLib.Mem.{memcpy}
use ece391_linux_os.CLib.Mem.Laws.{within, memcpy-copied}
use ece391_linux_os.FileSys.{
  FileSystem, four_kb, inode_length, inode_dblk, num_of_inodes, read_data_loop, read_data, clamped,
}

-- Byte `k` of a file: in the data block that the inode names for it.
unfoldable pub file_byte : FileSystem → ℕ → ℕ → ℕ
file_byte fs inode k =
    fs.image (fs.data_arr + four_kb * inode_dblk fs inode (k / four_kb) + k % four_kb)

-- `m` with `n` bytes of the file, from byte `k` on, at `buf`
abbrev pub file_copied : FileSystem → ℕ → ℕ → ℕ → Bytes → ℕ → Bytes
file_copied fs inode k n m buf i =
    if within buf n i then file_byte fs inode (k + (i - buf)) else m i

file_byte_in_block :
    (fs : FileSystem) (inode cur j k : ℕ)
    → k ≡ four_kb * cur + j
    → j < four_kb
    → file_byte fs inode k ≡ fs.image (fs.data_arr + four_kb * inode_dblk fs inode cur + j)
unfolding file_byte
file_byte_in_block fs inode cur j k e h =
    ap₂ (λ (c t : ℕ). fs.image (fs.data_arr + four_kb * inode_dblk fs inode c + t)) (omega arith)
      (omega arith)

-- A copy from within one block is a copy of the file's bytes.
block-file_copied :
    (fs : FileSystem) (inode cur start n : ℕ) (m : Bytes) (buf a k i : ℕ)
    → start + n ≤ four_kb
    → a ≡ fs.data_arr + four_kb * inode_dblk fs inode cur + start
    → k ≡ four_kb * cur + start
    → memcpy n m buf fs.image a i ≡ file_copied fs inode k n m buf i
block-file_copied fs inode cur start n m buf a k i h ea ek =
    memcpy-copied n m buf fs.image a i ∙ elim (Bool-cases (within buf n i)) [
      | inr out ↦ rw out
      | inl at ↦ rw at (
          ap fs.image (omega arith)
          ∙ sym
              (file_byte_in_block fs inode cur (start + (i - buf)) _ (omega arith) (ground arith)))
    ]

-- Two copies that follow one another make one.
file_copied-append :
    (fs : FileSystem) (inode k n l k' b' : ℕ) (m m' : Bytes) (buf i : ℕ)
    → n ≤ l
    → ((j : ℕ) → m' j ≡ file_copied fs inode k n m buf j)
    → k' ≡ k + n
    → b' ≡ buf + n
    → file_copied fs inode k' (l - n) m' b' i ≡ file_copied fs inode k l m buf i
file_copied-append fs inode k n l k' b' m m' buf i h first ek eb = elim (dec_lt i (buf + n)) [
  | yes before ↦ ground (arith, first i)
  | no after ↦ elim (dec_lt i (buf + l)) [
    | yes inside ↦
        let same : k' + (i - b') ≡ k + (i - buf) = omega arith in
        ground (arith, first i, ap (file_byte fs inode) same)
    | no past ↦ ground (arith, first i)
  ]
]

-- What the loop leaves: the value that it returns, and the bytes that it has copied.
abbrev pub Copied : Option (ℤ × Bytes) → ℤ → Bytes → Type 0
Copied out ret spec = (m : Bytes) × (out ≡ some (ret, m)) × ((i : ℕ) → m i ≡ spec i)

whole_blocks :
    (fuel : ℕ) (fs : FileSystem) (inode length cur start left : ℕ) (m : Bytes) (buf : ℕ)
    → left < fuel
    → Copied
        (read_data_loop fuel fs inode length cur start 0 left m buf)
        (if left % four_kb == 0 then pos 0 else of_u32 length)
        (file_copied fs inode (four_kb * cur) left m buf)
unfolding read_data_loop
whole_blocks zero fs inode length cur start left m buf h = absurd (omega arith)
whole_blocks (suc fuel) fs inode length cur start left m buf h = elim (ℕ_discrete left 0) [
  | yes e ↦ (m, ground arith, λ i. ground arith)
  | no ne ↦ elim (dec_lt left four_kb) [
    | yes small ↦ (
      memcpy left m buf fs.image (fs.data_arr + four_kb * inode_dblk fs inode cur),
      ground arith,
      λ i.
          block-file_copied fs inode cur 0 left m buf _ _ i (omega arith) (omega arith)
            (omega arith),
    )
    | no big ↦
        let (r, run, is) =
          whole_blocks fuel fs inode length (cur + 1) start (left - four_kb)
            (memcpy four_kb m buf fs.image (fs.data_arr + four_kb * inode_dblk fs inode cur))
            (buf + four_kb) (omega arith) in
        (
          r,
          ground (arith, run),
          λ i.
              is i
              ∙ file_copied-append fs inode (four_kb * cur) four_kb left _ _ m _ buf i (omega arith)
                  (λ j.
                    block-file_copied fs inode cur 0 four_kb m buf _ _ j (omega arith) (omega arith)
                      (omega arith))
                  (omega arith) refl,
        )
  ]
]

-- The value that a read of `n` bytes from `offset` on returns.
abbrev pub returned : ℕ → ℕ → ℤ
returned offset n =
    if offset == 0
    then (if n % four_kb == 0 then pos 0 else of_u32 n)
    else if leb n (four_kb - offset % four_kb)
    then of_u32 n
    else if (offset + n) % four_kb == 0
    then pos 0
    else of_u32 n

pub loop-Copied :
    (fs : FileSystem) (inode n offset : ℕ) (m : Bytes) (buf : ℕ)
    → Copied
        (read_data_loop (suc n) fs inode n (offset / four_kb) (offset % four_kb) offset n m buf)
        (returned offset n)
        (file_copied fs inode offset n m buf)
unfolding read_data_loop
loop-Copied fs inode n zero m buf = whole_blocks (suc n) fs inode n 0 0 n m buf (omega arith)
loop-Copied fs inode n (suc o) m buf =
    let offset : ℕ = suc o in
    let start : ℕ = offset % four_kb in
    let room : ℕ = four_kb - start in
    let a : ℕ = fs.data_arr + four_kb * inode_dblk fs inode (offset / four_kb) + start in
    elim (dec_lt room n) [
      | no fits ↦ elim (ℕ_discrete n 0) [
        | yes e ↦ (m, ground arith, λ i. ground arith)
        | no ne ↦ (
          memcpy n m buf fs.image a,
          ground arith,
          λ i.
              block-file_copied fs inode (offset / four_kb) start n m buf a offset i (omega arith)
                refl (omega arith),
        )
      ]
      | yes more ↦
          let (r, run, is) =
            whole_blocks n fs inode n (offset / four_kb + 1) start (n - room)
              (memcpy room m buf fs.image a) (buf + room) (omega arith) in
          (
            r,
            ground (arith, run),
            λ i.
                is i
                ∙ file_copied-append fs inode offset room n _ _ m _ buf i (omega arith)
                    (λ j.
                      block-file_copied fs inode (offset / four_kb) start room m buf a offset j
                        (omega arith) refl (omega arith))
                    (omega arith) refl,
          )
    ]

-- `read_data` at an offset inside the file, whose end the sum of offset and length does not wrap
-- round: it always returns, and has copied exactly the bytes of the file from the offset on, as
-- many as were asked for and as the file still has, and changed nothing else. The value that it
-- returns is that number of bytes as an `int32_t`, which is negative from 2 ^ 31 on, but 0 where the copy ends with a whole block that is not the one
-- that it began with at an offset other than 0.
pub read_data-file_byte :
    (fs : FileSystem) (inode offset length : ℕ) (m : Bytes) (buf : ℕ)
    → inode < num_of_inodes fs
    → offset < inode_length fs inode
    → inode_length fs inode < u32_mod
    → length + offset < u32_mod
    → let n = min length (inode_length fs inode - offset) in
      (r : Bytes) × (read_data fs inode offset m buf length ≡ some (returned offset n, r))
      × ((i : ℕ) → r i ≡ (if within buf n i then file_byte fs inode (offset + (i - buf)) else m i))
unfolding read_data
read_data-file_byte fs inode offset length m buf hi ho hl hw =
    let n : ℕ = min length (inode_length fs inode - offset) in
    let (r, run, is) = loop-Copied fs inode n offset m buf in
    let same : clamped (inode_length fs inode) offset length ≡ n = ground arith in
    (r, rw same (ground (arith, run)), is)

-- `read_data` of an inode that the image does not have returns -1, and from an offset at or past
-- the end of the file 0; neither writes to the buffer.
pub read_data-outside :
    (fs : FileSystem) (inode offset length : ℕ) (m : Bytes) (buf : ℕ)
    → (num_of_inodes fs ≤ inode → read_data fs inode offset m buf length ≡ some (minus_one, m))
      × (inode < num_of_inodes fs
          → inode_length fs inode ≤ offset
          → read_data fs inode offset m buf length ≡ some (pos 0, m))
unfolding read_data
read_data-outside fs inode offset length m buf = (λ h. ground arith, λ h k. ground arith)
