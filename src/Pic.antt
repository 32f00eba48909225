-- ===== src/Pic.antt =====
-- The interrupt controllers of student-distrib/i8259.c. A call gives the bytes that it sends, with
-- their ports, in order; `inb` is what the ports answer when it reads them.
pub mod Masks
mod Examples
use ece391_linux_os.Base.{
  ℕ, ◌+◌, ◌-◌, ◌*◌, ◌%◌, ◌^◌, List, [], ◌∷◌, ◌++◌, ltb, leb, if◌then◌else◌, bit_and, bit_or,
}

-- `outb(value, port)`
pub record Out : Type 0 where
  pub value : ℕ
  pub port : ℕ

abbrev pub outb : ℕ → ℕ → Out
outb v p = record { value = v % 256; port = p }

abbrev pub master_command : ℕ
master_command = 0x20

abbrev pub slave_command : ℕ
slave_command = 0xa0

abbrev pub max_pin : ℕ
max_pin = 8

-- The data port of the controller of an interrupt line, and the line there.
abbrev pub data_port : ℕ → ℕ
data_port irq_num = if ltb irq_num max_pin then master_command + 1 else slave_command + 1

abbrev pub pin : ℕ → ℕ
pin irq_num = if ltb irq_num max_pin then irq_num else irq_num - max_pin

pub enable_irq : (ℕ → ℕ) → ℕ → Out
enable_irq inb irq_num =
    let port = data_port irq_num in outb (bit_and (inb port) (2 ^ 32 - 1 - 2 ^ pin irq_num)) port

pub disable_irq : (ℕ → ℕ) → ℕ → Out
disable_irq inb irq_num =
    let port = data_port irq_num in outb (bit_or (inb port) (2 ^ pin irq_num)) port

pub send_eoi : ℕ → List Out
send_eoi irq_num =
    if leb max_pin irq_num
    then outb (bit_or (irq_num - max_pin) 0x60) slave_command
      ∷ outb (bit_or 2 0x60) master_command
      ∷ []
    else outb (bit_or irq_num 0x60) master_command ∷ []

-- `inb` is what the ports answer at the end, when `enable_irq` reads the mask.
pub i8259_init : (ℕ → ℕ) → List Out
i8259_init inb =
    outb 0xff (master_command + 1)
    ∷ outb 0xff (slave_command + 1)
    ∷ outb 0x11 master_command
    ∷ outb 0x11 slave_command
    ∷ outb 0x20 (master_command + 1)
    ∷ outb 0x28 (slave_command + 1)
    ∷ outb 0x04 (master_command + 1)
    ∷ outb 0x02 (slave_command + 1)
    ∷ outb 0x01 (master_command + 1)
    ∷ outb 0x01 (slave_command + 1)
    ∷ outb 0xff (master_command + 1)
    ∷ outb 0xff (slave_command + 1)
    ∷ enable_irq inb 2
    ∷ []
