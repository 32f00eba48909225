-- ===== src/Process/Layout.antt =====
-- The blocks and kernel stacks of the six processes in the kernel's 4 MB page.
use ece391_linux_os.Base.{ℕ, ◌+◌, ◌≤◌, ◌<◌, ◌≡◌, ◌⊎◌, arith, pos}
use ece391_linux_os.Process.{get_pcb, kernel_stack, pcb_size, process_count, eight_kb, eight_mb}

-- Each of the six processes has its block and its kernel stack within the kernel's page, the
-- block below the whole of the stack that grows down from `kernel_stack`; and the 8 KB areas of two
-- processes do not overlap.
pub get_pcb-kernel_stack :
    (p q : ℕ)
    → p < process_count
    → q < process_count
    → (4194304 ≤ get_pcb (pos p))
      × (get_pcb (pos p) + pcb_size < kernel_stack (pos p))
      × (kernel_stack (pos p) + 4 ≡ get_pcb (pos p) + eight_kb)
      × (kernel_stack (pos p) + 4 ≤ eight_mb)
      × ((get_pcb (pos p) + eight_kb ≤ get_pcb (pos q))
          ⊎ ((get_pcb (pos q) + eight_kb ≤ get_pcb (pos p)) ⊎ (p ≡ q)))
unfolding get_pcb kernel_stack
get_pcb-kernel_stack p q hp hq = ground arith
