-- ===== src/Paging/Video.antt =====
-- What `map_video` of student-distrib/paging.c maps.
use ece391_linux_os.Base.{
  ℕ, ◌+◌, ◌*◌, ◌/◌, ◌%◌, ◌<◌, ◌≡◌, ◌≢◌, ◌∙◌, ap, arith, ◌==◌, bit_or, some, true, false,
}
use ece391_linux_os.Base.Bits.{bit, bit_or_aligned}
use ece391_linux_os.Paging.{Paging, map_video}
use ece391_linux_os.Paging.Walk.{walk_table, translate, small_page}

video_dir : (pt : ℕ) (p : Paging) → pt % 4096 ≡ 0 → (map_video pt p).page_dir 35 ≡ pt + 3 + 4 * 1
unfolding map_video
video_dir pt p aligned =
    let four : bit_or pt 4 ≡ pt + 4 = bit_or_aligned 12 pt 4 aligned (omega arith) in
    let six : bit_or (pt + 4) 2 ≡ pt + 4 + 2 =
      bit_or_aligned 2 (pt + 4) 2 (omega arith) (omega arith) in
    let seven : bit_or (pt + 4 + 2) 1 ≡ pt + 4 + 2 + 1 =
      bit_or_aligned 1 (pt + 4 + 2) 1 (omega arith) (omega arith) in
    rw four (rw six (rw seven (omega arith)))

same_dir :
    (pt : ℕ) (p : Paging) (va : ℕ)
    → va / 4194304 ≡ 0
    → (map_video pt p).page_dir (va / 4194304) ≡ p.page_dir 0
unfolding map_video
same_dir pt p va e = ground (arith, ap p.page_dir e)

-- The page of the table that shows the screen.
video_page :
    (pt : ℕ) (p : Paging) (va k u : ℕ)
    → pt % 4096 ≡ 0
    → u < 2
    → va / 4096 % 1024 ≡ 0
    → va % 4096 ≡ k
    → walk_table (map_video pt p) (pt + 3 + 4 * u) va
      ≡ some (record { address = 0xb8000 + k; user = u == 1 })
unfolding map_video
video_page pt p va k u aligned hu first at =
    let user : bit (pt + 3 + 4 * u) 2 ≡ u = omega arith in rw (first, at) (rw user (ground arith))

-- `map_video` over the kernel's table gives user code the text screen at 140 MB, and also maps
-- address 0 and the rest of its page, for the kernel alone, to the screen; every address outside the
-- 4 MB at 140 MB and not in the first page of its 4 MB keeps its translation.
pub translate-map_video :
    (pt va : ℕ) (p : Paging)
    → pt % 4096 ≡ 0
    → p.page_dir 0 ≡ pt + 3
    → (va < 4096
        → (translate pt (map_video pt p) (0x8c00000 + va)
            ≡ some (record { address = 0xb8000 + va; user = true }))
          × (translate pt (map_video pt p) va
              ≡ some (record { address = 0xb8000 + va; user = false })))
      × (va / 0x400000 ≢ 35
          → va / 4096 % 1024 ≢ 0
          → translate pt (map_video pt p) va ≡ translate pt p va)
unfolding translate map_video
translate-map_video pt va p aligned e = (
  λ h.
      let user_dir : (map_video pt p).page_dir ((0x8c00000 + va) / 4194304) ≡ pt + 3 + 4 * 1 =
        ground (arith, video_dir pt p aligned) in
      let kernel_dir : (map_video pt p).page_dir (va / 4194304) ≡ pt + 3 + 4 * 0 =
        ground (arith, same_dir pt p va) in
      (
        small_page pt (map_video pt p) (0x8c00000 + va) 1 (omega arith) aligned user_dir
            ∙ video_page pt p (0x8c00000 + va) va 1 aligned (omega arith) (omega arith)
                (omega arith),
        small_page pt (map_video pt p) va 0 (omega arith) aligned kernel_dir
            ∙ video_page pt p va va 0 aligned (omega arith) (omega arith) (omega arith),
      ),
  λ ne ne'. ground arith,
)
