-- ===== src/Paging/Walk.antt =====
-- What the entries of student-distrib/paging.c mean: the processor's translation of an address.
use ece391_linux_os.Base.{
  ℕ, ◌+◌, ◌-◌, ◌*◌, ◌/◌, ◌%◌, ◌<◌, ◌≡◌, ◌≢◌, refl, ◌∙◌, ap, arith, ◌==◌, ◌&&◌, if◌then◌else◌,
  bit_or, Option, none, some, ==→eq, ==_iff, u32_mod, true, Bool,
}
use ece391_linux_os.Base.Bits.{all_below, all_below_sound, bit}
use ece391_linux_os.Paging.{Paging, map_program, pr, rw_flag, usr, page_4mb, four_mb, eight_mb}

-- The translation of an address: the physical address, and whether user code may use the page.
pub record Mapped : Type 0 where
  pub address : ℕ
  pub user : Bool

-- The translation through an entry of the page table at `pt`, under a directory entry.
abbrev pub walk_table : Paging → ℕ → ℕ → Option Mapped
walk_table p pde va =
    let pte = p.page_table (va / 4096 % 1024) in
    if bit pte 0 == 1
    then some (record {
      address = pte / 4096 * 4096 + va % 4096;
      user = bit pde 2 == 1 && bit pte 2 == 1;
    })
    else none

-- Two levels as the IA-32 manual has them, with 4 MB pages. The one page table is that at `pt`; a
-- present entry for another one has no translation here.
unfoldable pub translate : ℕ → Paging → ℕ → Option Mapped
translate pt p va =
    let pde = p.page_dir (va / 4194304) in
    if bit pde 0 == 1
    then (if bit pde 7 == 1
        then some
            (record { address = pde / 4194304 * 4194304 + va % 4194304; user = bit pde 2 == 1 })
        else if pde / 4096 * 4096 == pt
        then walk_table p pde va
        else none)
    else none

-- The entry that `map_program` writes.
abbrev program_entry : ℕ → ℕ
program_entry pid =
    bit_or (bit_or (bit_or (bit_or ((eight_mb + four_mb * pid) % u32_mod) page_4mb) usr) rw_flag) pr

program_entries :
    all_below 6 (λ pid. program_entry pid == (2 + pid) * 4194304 + 0x83 + 4 * 1) ≡ true
unfolding all_below
program_entries = refl

program_entry_lem : (pid : ℕ) → pid < 6 → program_entry pid ≡ (2 + pid) * 4194304 + 0x83 + 4 * 1
program_entry_lem pid h = ==→eq _ _ (all_below_sound 6 _ pid program_entries h)

-- A present 4 MB page, of the kernel's (`u` is 0) or the user's.
pub large_page :
    (pt : ℕ) (p : Paging) (va base u : ℕ)
    → u < 2
    → p.page_dir (va / 4194304) ≡ base * 4194304 + 0x83 + 4 * u
    → translate pt p va ≡ some (record { address = base * 4194304 + va % 4194304; user = u == 1 })
unfolding translate
large_page pt p va base u h e =
    let pde : ℕ = base * 4194304 + 0x83 + 4 * u in
    let present : bit pde 0 ≡ 1 = omega arith in
    let large : bit pde 7 ≡ 1 = omega arith in
    let user : bit pde 2 ≡ u = omega arith in
    let at : pde / 4194304 ≡ base = omega arith in rw e (rw (present, large, user, at))

-- A directory entry that names the page table.
pub small_page :
    (pt : ℕ) (p : Paging) (va u : ℕ)
    → u < 2
    → pt % 4096 ≡ 0
    → p.page_dir (va / 4194304) ≡ pt + 3 + 4 * u
    → translate pt p va ≡ walk_table p (pt + 3 + 4 * u) va
unfolding translate
small_page pt p va u h aligned e =
    let pde : ℕ = pt + 3 + 4 * u in
    let present : bit pde 0 ≡ 1 = omega arith in
    let small : bit pde 7 ≡ 0 = omega arith in
    let at : (pde / 4096 * 4096 == pt) ≡ true = (==_iff _ _).1 (omega arith) in
    rw e (rw (present, small, at))

pub absent_page :
    (pt : ℕ) (p : Paging) (va : ℕ) → p.page_dir (va / 4194304) ≡ 2 → translate pt p va ≡ none
unfolding translate
absent_page pt p va e = rw e

-- `map_program` for one of the six processes maps the 4 MB at 128 MB to the 4 MB from 8 MB + pid *
-- 4 MB on, for user code, and leaves the translation of every other address as it was.
pub translate-map_program :
    (pt pid va : ℕ) (p : Paging)
    → pid < 6
    → (va / 0x400000 ≡ 32
        → translate pt (map_program pid p) va
          ≡ some (record { address = 0x800000 + 0x400000 * pid + (va - 0x8000000); user = true }))
      × (va / 0x400000 ≢ 32 → translate pt (map_program pid p) va ≡ translate pt p va)
unfolding translate map_program
translate-map_program pt pid va p h = (
  λ e.
      large_page pt (map_program pid p) va (2 + pid) 1 (omega arith)
        (ground (arith, program_entry_lem pid h))
      ∙ ap (λ (a : ℕ). some (record { address = a; user = true })) (omega arith),
  λ ne. ground arith,
)
