-- ===== src/Paging/Examples.antt =====
-- The tables from zeros, with the page table at 0x403000.
use ece391_linux_os.Base.{ℕ, ◌≡◌, ◌≢◌, refl, arith, true, false, some}
use ece391_linux_os.Paging.{Paging, paging_init, map_program}
use ece391_linux_os.Paging.Walk.{translate, translate-map_program}
use ece391_linux_os.Paging.Init.{translate-paging_init}

abbrev zeros : Paging
zeros = record { page_dir = λ i. 0; page_table = λ i. 0 }

abbrev kernel : Paging
kernel = record { page_dir = λ i. 0x403003; page_table = λ i. 0 }

translate-map_program_example :
    (◌≡◌ {A = ℕ} 32 32
      → translate 0x403000 (map_program 2 zeros) 0x8048000
        ≡ some (record { address = 0x1048000; user = true }))
    × (◌≢◌ {A = ℕ} 32 32
        → translate 0x403000 (map_program 2 zeros) 0x8048000 ≡ translate 0x403000 zeros 0x8048000)
translate-map_program_example = translate-map_program 0x403000 2 0x8048000 zeros (omega arith)

translate-paging_init_example :
    translate 0x403000 (paging_init 0x403000 zeros) 0xb8010
    ≡ some (record { address = 0xb8010; user = false })
translate-paging_init_example = translate-paging_init 0x403000 0xb8010 zeros refl (omega arith)
