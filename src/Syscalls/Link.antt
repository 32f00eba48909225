-- ===== src/Syscalls/Link.antt =====
-- `sys_call_handler_link` of student-distrib/system_calls_wrapper.S, the handler of `int $0x80`.
use ece391_linux_os.Base.{Option, some, ◌==◌, ltb, if◌then◌else◌, ℤ, pos, negsuc, minus_one}
use ece391_linux_os.Syscalls.{Kernel}

-- The number in EAX is compared as a signed one. `table` is the jump through `sys_call_table` with
-- the arguments in EBX, ECX and EDX, which it is closed over; the other registers are restored.
unfoldable pub sys_call_link :
    (table : Kernel → ℤ → Option (ℤ × Kernel)) → Kernel → ℤ → Option (ℤ × Kernel)
sys_call_link table k (negsuc n) = some (minus_one, k)
sys_call_link table k (pos n) =
    if n == 0
    then some (minus_one, k)
    else if ltb 10 n
    then some (minus_one, k)
    else table k (pos n)
