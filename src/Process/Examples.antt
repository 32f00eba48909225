-- ===== src/Process/Examples.antt =====
-- The areas of the first process and the last one.
use ece391_linux_os.Base.{ℕ, ◌+◌, ◌≤◌, ◌<◌, ◌≡◌, ◌⊎◌, arith, pos}
use ece391_linux_os.Process.{get_pcb, kernel_stack, pcb_size, eight_kb, eight_mb}
use ece391_linux_os.Process.Layout.{get_pcb-kernel_stack}

get_pcb-kernel_stack_example :
    (4194304 ≤ get_pcb (pos 0))
    × (get_pcb (pos 0) + pcb_size < kernel_stack (pos 0))
    × (kernel_stack (pos 0) + 4 ≡ get_pcb (pos 0) + eight_kb)
    × (kernel_stack (pos 0) + 4 ≤ eight_mb)
    × ((get_pcb (pos 0) + eight_kb ≤ get_pcb (pos 5))
        ⊎ ((get_pcb (pos 5) + eight_kb ≤ get_pcb (pos 0)) ⊎ (◌≡◌ {A = ℕ} 0 5)))
get_pcb-kernel_stack_example = get_pcb-kernel_stack 0 5 (omega arith) (omega arith)
