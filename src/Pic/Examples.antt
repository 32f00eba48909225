-- ===== src/Pic/Examples.antt =====
-- The clock's interrupt line, with all interrupts masked.
use ece391_linux_os.Base.{ℕ}

abbrev masked : ℕ → ℕ
masked port = 0xff
