-- ===== src/Programs/Image.antt =====
-- What a process that `execute` has started finds in its memory.
use ece391_linux_os.Base.{
  ℕ, ◌+◌, ◌-◌, ◌<◌, ◌≡◌, ◌∙◌, ap, sym, arith, Option, some, Bytes, ℤ, min, if◌then◌else◌, true,
  u32_mod,
}
use ece391_linux_os.CLib.Mem.Laws.{within}
use ece391_linux_os.Process.{process_count}
use ece391_linux_os.FileSys.{FileSystem, Dentry, num_of_inodes, inode_length, read_data}
use ece391_linux_os.FileSys.Data.{file_byte, read_data-file_byte}
use ece391_linux_os.Paging.{Paging}
use ece391_linux_os.Paging.Walk.{translate, translate-map_program}
use ece391_linux_os.Programs.{System, program_at}
use ece391_linux_os.Programs.Starting.{Starts}

some_snd :
    {x y : ℤ} {a b : Bytes} → ◌≡◌ {A = Option (ℤ × Bytes)} (some (x, a)) (some (y, b)) → a ≡ b
some_snd e = cc

-- The memory behind a whole read of a file.
whole_file :
    (fs : FileSystem) (inode : ℕ) (m m' : Bytes) (buf i : ℕ) (ret : ℤ)
    → inode < num_of_inodes fs
    → 0 < inode_length fs inode
    → inode_length fs inode < u32_mod
    → read_data fs inode 0 m buf (inode_length fs inode) ≡ some (ret, m')
    → m' i ≡ (if within buf (inode_length fs inode) i then file_byte fs inode (i - buf) else m i)
whole_file fs inode m m' buf i ret there some_bytes small run =
    let n : ℕ = inode_length fs inode in
    let (r, run', is) =
      read_data-file_byte fs inode 0 n m buf there some_bytes small (omega arith) in
    let same : m' ≡ r = some_snd (sym run ∙ run') in
    let all : min n (n - 0) ≡ n = omega arith in
    ap (λ (f : Bytes). f i) same
    ∙ is i
    ∙ rw all (ap (λ (k : ℕ). if within buf n i then file_byte fs inode k else m i) (omega arith))

-- A program that `execute` has started as one of the six processes is in memory where its code
-- expects it: user code finds byte `i` of the file at 0x8048000 + `i`, which is byte `i` behind the
-- start of the process's part of the memory. A byte of the memory in that part is the file's, and
-- every other one, those of the other processes with it, is as it was.
pub Starts-translate :
    (esp ebp pt p i a : ℕ) (s s' : System) (d : Dentry)
    → Starts esp ebp s p d s'
    → p < process_count
    → d.inode < num_of_inodes s.kernel.fs
    → i < inode_length s.kernel.fs d.inode
    → (translate pt s'.kernel.paging (0x8048000 + i)
        ≡ some (record { address = program_at p + i; user = true }))
      × (s'.kernel.console.mem (program_at p + i) ≡ file_byte s.kernel.fs d.inode i)
      × (s'.kernel.console.mem a ≡ (
          if within (program_at p) (inode_length s.kernel.fs d.inode) a
          then file_byte s.kernel.fs d.inode (a - program_at p)
          else s.kernel.console.mem a))
Starts-translate esp ebp pt p i a s s' d h small there inside =
    let (ret, run) = h.loads in
    let fits = h.fits there in
    let n : ℕ = inode_length s.kernel.fs d.inode in
    (
      ap (λ (q : Paging). translate pt q (0x8048000 + i)) h.pushes.paging_is
          ∙ (translate-map_program pt p (0x8048000 + i) s.kernel.paging small).0 (omega arith)
          ∙ ap (λ (x : ℕ). some (record { address = x; user = true })) (omega arith),
      whole_file s.kernel.fs d.inode _ _ (program_at p) (program_at p + i) ret there (omega arith)
            (omega arith) run
          ∙ (let at : program_at p + i - program_at p ≡ i = omega arith in
              let in_it : within (program_at p) n (program_at p + i) ≡ true = ground arith in
              rw (in_it, at)),
      whole_file s.kernel.fs d.inode _ _ (program_at p) a ret there (omega arith) (omega arith) run,
    )
