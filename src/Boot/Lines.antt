-- ===== src/Boot/Lines.antt =====
-- The first part of `entry` of student-distrib/kernel.c, which prints what the loader has left.
pub mod Processes
use ece391_linux_os.Base.{
  ℕ, zero, suc, ◌+◌, ◌-◌, ◌^◌, ◌*◌, ◌/◌, ◌%◌, ◌<◌, Bool, true, false, Option, none, some, Bytes,
  shift, update, List, [], ◌∷◌, ◌++◌, ◌==◌, ltb, ◌&&◌, if◌then◌else◌, u32_mod,
}
use ece391_linux_os.FileSys.{FileSystem, u32_at, fs_init}
use ece391_linux_os.Console.{Console}
use ece391_linux_os.Console.Print.{printf}
use ece391_linux_os.Boot.Text.{text}

-- `printf` with a list of arguments; `junk` is what is on the stack.
abbrev pub argument : List ℕ → ℕ → ℕ
argument [] i = 0
argument (x ∷ xs) zero = x
argument (x ∷ xs) (suc i) = argument xs i

unfoldable pub say : ℕ → Bytes → Bytes → List ℕ → Console → Option Console
say fuel junk format args c = elim (printf fuel c.mem junk format (argument args) c) [
  | none ↦ none
  | some (c', index) ↦ some c'
]

-- `CHECK_FLAG`
abbrev pub check_flag : ℕ → ℕ → Bool
check_flag flags bit = flags / 2 ^ bit % 2 == 1

-- A `char` as the argument of `printf`, with its sign.
abbrev pub signed_char : ℕ → ℕ
signed_char b = if ltb b 128 then b else b + (u32_mod - 256)

-- The console, or none when fuel runs out.
pub and_then : Option Console → (Console → Option Console) → Option Console
and_then none f = none
and_then (some c) f = f c

-- The first bytes of the module at `at`, from byte `i` on.
pub print_bytes : ℕ → ℕ → Bytes → (at i : ℕ) → Console → Option Console
print_bytes zero fuel junk at i c = some c
print_bytes (suc rounds) fuel junk at i c =
    and_then (say fuel junk (text "0x%x ") (signed_char (c.mem (u32_at c.mem at + i)) ∷ []) c)
      (λ c'. print_bytes rounds fuel junk at (i + 1) c')

-- One module, of number `mod_count` and at `mod`.
pub print_module : ℕ → Bytes → (mod_count at : ℕ) → Console → Option Console
print_module fuel junk mod_count at c =
    and_then
      (say fuel junk (text "Module %d loaded at address: 0x%#x\n")
        (mod_count ∷ u32_at c.mem at ∷ []) c)
      (λ c1.
        and_then
          (say fuel junk (text "Module %d ends at address: 0x%#x\n")
            (mod_count ∷ u32_at c1.mem (at + 4) ∷ []) c1)
          (λ c2. and_then (say fuel junk (text "First few bytes of module:\n") [] c2) (λ c3.
            and_then (print_bytes 16 fuel junk at 0 c3) (λ c4. say fuel junk (text "\n") [] c4))))

-- The loop over the modules.
pub print_modules : ℕ → Bytes → (mbi mod_count at : ℕ) → Console → Option Console
print_modules zero junk mbi mod_count at c = none
print_modules (suc fuel) junk mbi mod_count at c =
    let more =
      and_then (print_module fuel junk mod_count at c)
        (λ c'. print_modules fuel junk mbi (mod_count + 1) (at + 16) c') in
    if ltb mod_count (u32_at c.mem (mbi + 20)) then more else some c

-- The loop over the memory map, at `mmap`.
pub print_map : ℕ → Bytes → (mbi mmap : ℕ) → Console → Option Console
print_map zero junk mbi mmap c = none
print_map (suc fuel) junk mbi mmap c =
    let field : ℕ → ℕ = λ offset. u32_at c.mem (mmap + offset) in
    let more =
      and_then
        (say fuel junk
          (text "    size = 0x%x, base_addr = 0x%#x%#x\n    type = 0x%x,  length    = 0x%#x%#x\n")
          (field 0 ∷ field 8 ∷ field 4 ∷ field 20 ∷ field 16 ∷ field 12 ∷ []) c)
        (λ c'. print_map fuel junk mbi ((mmap + u32_at c'.mem mmap + 4) % u32_mod) c') in
    let end = (u32_at c.mem (mbi + 48) + u32_at c.mem (mbi + 44)) % u32_mod in
    if ltb mmap end then more else some c

-- The lines for the flags 0 to 2; `c` comes from the line with the flags.
pub print_fields : ℕ → Bytes → ℕ → Console → Option Console
print_fields fuel junk mbi c =
    let word : Console → ℕ → ℕ = λ c offset. u32_at c.mem (mbi + offset) in
    let said : Console → ℕ → Bytes → List ℕ → Option Console = λ c bit format args.
      if check_flag (word c 0) bit then say fuel junk format args c else some c in
    and_then (said c 0 (text "mem_lower = %uKB, mem_upper = %uKB\n") (word c 4 ∷ word c 8 ∷ []))
      (λ c1.
        and_then (said c1 1 (text "boot_device = 0x%#x\n") (word c1 12 ∷ []))
          (λ c2. said c2 2 (text "cmdline = %s\n") (word c2 16 ∷ [])))

-- The modules, the first of which is the file system.
pub load_modules : ℕ → Bytes → ℕ → FileSystem → Console → Option (FileSystem × Console)
load_modules fuel junk mbi fs c =
    let first = u32_at c.mem (mbi + 24) in
    let printed = print_modules fuel junk mbi 0 first c in
    if check_flag (u32_at c.mem mbi) 3
    then elim printed [
      | none ↦ none
      | some c' ↦ some (fs_init (shift c.mem (u32_at c.mem first)), c')
    ]
    else some (fs, c)

-- The ELF sections and the memory map.
pub print_sections : ℕ → Bytes → ℕ → Console → Option Console
print_sections fuel junk mbi c =
    let word : Console → ℕ → ℕ = λ c offset. u32_at c.mem (mbi + offset) in
    and_then
      (if check_flag (word c 0) 5
        then say fuel junk (text "elf_sec: num = %u, size = 0x%#x, addr = 0x%#x, shndx = 0x%#x\n")
            (word c 28 ∷ word c 32 ∷ word c 36 ∷ word c 40 ∷ []) c
        else some c)
      (λ c1.
        if check_flag (word c1 0) 6
        then and_then
            (say fuel junk (text "mmap_addr = 0x%#x, mmap_length = 0x%x\n")
              (word c1 48 ∷ word c1 44 ∷ []) c1)
            (λ c2. print_map fuel junk mbi (word c2 48) c2)
        else some c1)

-- What the loader's information comes to: the kernel returns, or it goes on.
pub data Report : Type 0 where
  stopped : FileSystem → Console → Report
  goes_on : FileSystem → Console → Report

abbrev stopping : FileSystem → Option Console → Option Report
stopping fs none = none
stopping fs (some c) = some (stopped fs c)

abbrev going_on : FileSystem → Option Console → Option Report
going_on fs none = none
going_on fs (some c) = some (goes_on fs c)

-- From the modules on.
abbrev report_rest : ℕ → Bytes → ℕ → Option (FileSystem × Console) → Option Report
report_rest fuel junk mbi none = none
report_rest fuel junk mbi (some (fs, c)) =
    let flags = u32_at c.mem mbi in
    if check_flag flags 4 && check_flag flags 5
    then stopping fs (say fuel junk (text "Both bits 4 and 5 are set.\n") [] c)
    else going_on fs (print_sections fuel junk mbi c)

-- The first part of `entry`, from the cleared screen on. The fuel is for the texts and the loops.
pub report : ℕ → Bytes → (magic addr : ℕ) → FileSystem → Console → Option Report
report fuel junk magic addr fs c =
    if magic == 0x2badb002
    then report_rest fuel junk addr
        (elim (and_then (say fuel junk (text "flags = 0x%#x\n") (u32_at c.mem addr ∷ []) c)
          (λ c1. print_fields fuel junk addr c1)) [
            | none ↦ none
            | some c2 ↦ load_modules fuel junk addr fs c2
          ])
    else stopping fs (say fuel junk (text "Invalid magic number: 0x%#x\n") (magic ∷ []) c)
