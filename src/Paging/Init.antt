-- ===== src/Paging/Init.antt =====
-- What `paging_init` of student-distrib/paging.c maps.
use ece391_linux_os.Base.{
  ℕ, zero, suc, ◌+◌, ◌*◌, ◌/◌, ◌%◌, ◌<◌, ◌≡◌, refl, ◌∙◌, ap, arith, ◌==◌, ltb, leb, ◌&&◌,
  if◌then◌else◌, bit_or, none, some, u32_mod, ◌||◌, true, false, Bool-cases, inl, inr,
}
use native.Mathlib.Decide.{dec_lt}
use ece391_linux_os.Base.Bits.{bit, bit_or_aligned}
use ece391_linux_os.Paging.{Paging, init_entries, paging_init, rw_flag}
use ece391_linux_os.Paging.Walk.{walk_table, translate, large_page, small_page, absent_page}

init_entries_lem :
    (n : ℕ) (p : Paging) (i k : ℕ)
    → ((init_entries n p i).page_dir k
        ≡ (if leb i k && ltb k (i + n) then rw_flag else p.page_dir k))
      × ((init_entries n p i).page_table k
          ≡ (if leb i k && ltb k (i + n) then k * 4096 + 2 else p.page_table k))
unfolding init_entries
init_entries_lem zero p i k = (ground arith, ground arith)
init_entries_lem (suc n) p i k =
    let (dir, table) = init_entries_lem n _ (i + 1) k in
    let entry : bit_or (k * 4096) 2 ≡ k * 4096 + 2 =
      bit_or_aligned 12 (k * 4096) 2 (omega arith) (omega arith) in
    (dir ∙ ground arith, table ∙ ground (arith, entry))

-- The entries after `paging_init`.
init_dir :
    (pt k : ℕ) (p : Paging)
    → pt % 4096 ≡ 0
    → k < 1024
    → (paging_init pt p).page_dir k
      ≡ (if k == 0 then pt + 3 + 4 * 0 else if k == 1 then 1 * 4194304 + 0x83 + 4 * 0 else 2)
unfolding paging_init
init_dir pt k p aligned h =
    let two : bit_or pt 2 ≡ pt + 2 = bit_or_aligned 12 pt 2 aligned (omega arith) in
    let three : bit_or (pt + 2) 1 ≡ pt + 3 =
      bit_or_aligned 1 (pt + 2) 1 (omega arith) (omega arith) ∙ omega arith in
    ground (arith, two, three, (init_entries_lem 1024 p 0 k).0)

screen_entry :
    (p : Paging) (j : ℕ)
    → j < 1024
    → bit_or ((init_entries 1024 p 0).page_table j) 3 ≡ bit_or (j * 4096 + 2) 3
screen_entry p j h = ap (λ (t : ℕ). bit_or t 3) ((init_entries_lem 1024 p 0 j).1 ∙ ground arith)

or_table :
    (bit_or (184 * 4096 + 2) 3 ≡ 184 * 4096 + 3)
    × (bit_or (185 * 4096 + 2) 3 ≡ 185 * 4096 + 3)
    × (bit_or (186 * 4096 + 2) 3 ≡ 186 * 4096 + 3)
    × (bit_or (187 * 4096 + 2) 3 ≡ 187 * 4096 + 3)
or_table = (refl, refl, refl, refl)

init_table :
    (pt k : ℕ) (p : Paging)
    → k < 1024
    → (paging_init pt p).page_table k
      ≡ (if leb 184 k && ltb k 188 then k * 4096 + 3 else k * 4096 + 2)
unfolding paging_init
init_table pt k p h = ground (
  arith,
  (init_entries_lem 1024 p 0 k).1,
  screen_entry p 184 (omega arith),
  screen_entry p 185 (omega arith),
  screen_entry p 186 (omega arith),
  screen_entry p 187 (omega arith),
  or_table,
)

-- A page of the table under a directory entry of the kernel's.
kernel_walk :
    (pt : ℕ) (p : Paging) (va : ℕ)
    → pt % 4096 ≡ 0
    → walk_table p (pt + 3 + 4 * 0) va ≡ (
        if bit (p.page_table (va / 4096 % 1024)) 0 == 1
        then some (record {
          address = p.page_table (va / 4096 % 1024) / 4096 * 4096 + va % 4096;
          user = false;
        })
        else none)
kernel_walk pt p va aligned = let kernel : bit (pt + 3 + 4 * 0) 2 ≡ 0 = omega arith in rw kernel

low_pages :
    (pt va : ℕ) (p : Paging)
    → pt % 4096 ≡ 0
    → va < 0x400000
    → walk_table (paging_init pt p) (pt + 3 + 4 * 0) va ≡ (
        if leb 0xb8000 va && ltb va 0xbc000
        then some (record { address = va; user = false })
        else none)
low_pages pt va p aligned h =
    let k : ℕ = va / 4096 % 1024 in
    kernel_walk pt (paging_init pt p) va aligned
    ∙ rw (init_table pt k p (omega arith)) (elim (Bool-cases (leb 184 k && ltb k 188)) [
      | inl screen ↦
          let pte : bit (k * 4096 + 3) 0 ≡ 1 = omega arith in
          let at : (k * 4096 + 3) / 4096 * 4096 + va % 4096 ≡ va = omega arith in
          let range : (leb 0xb8000 va && ltb va 0xbc000) ≡ true = ground arith in
          rw (screen, range) (rw (pte, at))
      | inr hidden ↦
          let pte : bit (k * 4096 + 2) 0 ≡ 0 = omega arith in
          let range : (leb 0xb8000 va && ltb va 0xbc000) ≡ false = ground arith in
          rw (hidden, range) (rw pte)
    ])

-- After `paging_init` the kernel alone has the 4 MB page from 4 MB on and the four pages from
-- 0xB8000 on, each where it is in physical memory, and no other 32-bit address is mapped, address 0
-- and the rest of its page among them.
pub translate-paging_init :
    (pt va : ℕ) (p : Paging)
    → pt % 4096 ≡ 0
    → va < u32_mod
    → translate pt (paging_init pt p) va ≡ (
        if (leb 0x400000 va && ltb va 0x800000) || (leb 0xb8000 va && ltb va 0xbc000)
        then some (record { address = va; user = false })
        else none)
translate-paging_init pt va p aligned h =
    let dir = init_dir pt (va / 4194304) p aligned (omega arith) in
    elim (dec_lt va 0x400000) [
      | yes low ↦
          small_page pt (paging_init pt p) va 0 (omega arith) aligned (dir ∙ ground arith)
          ∙ low_pages pt va p aligned low
          ∙ ground arith
      | no high ↦ elim (dec_lt va 0x800000) [
        | yes kernel ↦
            large_page pt (paging_init pt p) va 1 0 (omega arith) (dir ∙ ground arith)
            ∙ (let at : 1 * 4194304 + va % 4194304 ≡ va = omega arith in ground arith)
        | no past ↦ absent_page pt (paging_init pt p) va (dir ∙ ground arith) ∙ ground arith
      ]
    ]
