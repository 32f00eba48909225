-- ===== src/Paging.antt =====
-- The page directory and the page table of student-distrib/paging.c. `pt` is the address of
-- `page_table`, which the linker gives and the `aligned` attribute makes a multiple of 4 KB.
pub mod Walk
pub mod Init
pub mod Video
mod Examples
use ece391_linux_os.Base.{ℕ, zero, suc, ◌+◌, ◌*◌, ◌%◌, update, bit_or, u32_mod}

abbrev pub pr : ℕ
pr = 0x01

abbrev pub rw_flag : ℕ
rw_flag = 0x02

abbrev pub usr : ℕ
usr = 0x04

abbrev pub page_4mb : ℕ
page_4mb = 0x80

abbrev pub vid_mem_idx : ℕ
vid_mem_idx = 184

abbrev pub four_mb : ℕ
four_mb = 0x400000

abbrev pub eight_mb : ℕ
eight_mb = 0x800000

pub record Paging : Type 0 where
  pub page_dir : ℕ → ℕ
  pub page_table : ℕ → ℕ

-- The loop over the entries, from entry `i` on.
pub init_entries : ℕ → Paging → ℕ → Paging
init_entries zero p i = p
init_entries (suc rounds) p i =
    init_entries rounds
      (record {
        page_dir = update p.page_dir i rw_flag;
        page_table = update p.page_table i (bit_or (i * 4096) rw_flag);
      })
      (i + 1)

-- `a[i] |= RW | PR`
abbrev pub make_present : (ℕ → ℕ) → ℕ → ℕ → ℕ
make_present a i = update a i (bit_or (a i) (bit_or rw_flag pr))

pub paging_init : ℕ → Paging → Paging
paging_init pt p =
    let q = init_entries 1024 p 0 in
    record {
      page_table =
          make_present
            (make_present (make_present (make_present q.page_table vid_mem_idx) (vid_mem_idx + 1))
              (vid_mem_idx + 2))
            (vid_mem_idx + 3);
      page_dir =
          update (update q.page_dir 0 (bit_or (bit_or pt rw_flag) pr)) 1
            (bit_or (bit_or (bit_or four_mb page_4mb) rw_flag) pr);
    }

-- `addr | PAGE_4MB | USR | RW | PR`
pub map_program : ℕ → Paging → Paging
map_program pid p = record p {
  page_dir = update p.page_dir 32 (
      bit_or (bit_or (bit_or (bit_or ((eight_mb + four_mb * pid) % u32_mod) page_4mb) usr) rw_flag)
        pr);
}

pub map_video : ℕ → Paging → Paging
map_video pt p = record p {
  page_dir = update p.page_dir 35 (bit_or (bit_or (bit_or pt usr) rw_flag) pr);
  page_table = update p.page_table 0 (bit_or (bit_or (bit_or 0xb8000 usr) rw_flag) pr);
}
