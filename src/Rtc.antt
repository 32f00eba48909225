-- ===== src/Rtc.antt =====
-- The real-time clock's driver, student-distrib/rtc.c, and its interrupt handler in
-- student-distrib/idt_handlers.c. A call gives its port operations in order; what the data port
-- answers is an argument.
pub mod Rate
pub mod Wait
mod Examples
use ece391_linux_os.Base.{
  ℕ, zero, suc, ◌+◌, ◌-◌, ◌*◌, ◌/◌, ◌%◌, ◌^◌, List, [], ◌∷◌, ◌++◌, Bool, true, false, Option, none,
  some, Bytes, ◌==◌, leb, ◌&&◌, if◌then◌else◌, bit_and, bit_or, ℤ, pos, negsuc, minus_one, nat_eq,
}
use ece391_linux_os.Pic.{enable_irq, send_eoi}
use ece391_linux_os.Pic

-- `outb(value, port)` and `inb(port)`
pub data Io : Type 0 where
  outb : ℕ → ℕ → Io
  inb : ℕ → Io

abbrev pub select_reg : ℕ
select_reg = 0x70

abbrev pub data_reg : ℕ
data_reg = 0x71

abbrev pub nmi_reg_a : ℕ
nmi_reg_a = 0x8a

abbrev pub nmi_reg_b : ℕ
nmi_reg_b = 0x8b

abbrev pub two_hz_freq : ℕ
two_hz_freq = 0x0f

abbrev pub irq_rtc : ℕ
irq_rtc = 8

abbrev out_io : Pic.Out → Io
out_io o = outb o.value o.port

pub out_ios : List Pic.Out → List Io
out_ios [] = []
out_ios (o ∷ os) = out_io o ∷ out_ios os

-- `rtc_int_received`
abbrev pub Flag : Type 0
Flag = ℕ

-- `prev` is what the data port answers, and `mask` what the controllers' ports do. The flag is 0
-- afterwards.
pub initialize_rtc : (ℕ → ℕ) → ℕ → List Io × Flag
initialize_rtc mask prev = (
  outb nmi_reg_b select_reg
      ∷ outb nmi_reg_a select_reg
      ∷ inb data_reg
      ∷ outb nmi_reg_b select_reg
      ∷ outb (bit_or prev 0x40) data_reg
      ∷ out_io (enable_irq mask irq_rtc)
      ∷ [],
  0,
)

-- `(prev & HIGH_BIT_MASK) | rate`, written to register A
abbrev pub set_rate : ℕ → ℕ → List Io
set_rate prev rate =
    outb nmi_reg_a select_reg
    ∷ inb data_reg
    ∷ outb nmi_reg_a select_reg
    ∷ outb (bit_or (bit_and prev 0xf0) rate) data_reg
    ∷ []

pub rtc_open : (ℕ → ℕ) → ℕ → ℕ → ℤ × List Io × Flag
rtc_open mask prev_b prev_a =
    let (ios, flag) = initialize_rtc mask prev_b in
    (pos 0, ios ++ set_rate prev_a two_hz_freq, flag)

-- `while (freq >>= 1) ++pow;` on fuel
pub pow_loop : ℕ → ℕ → ℕ → Option ℕ
pow_loop zero freq pow = none
pow_loop (suc fuel) freq pow =
    let rest = pow_loop fuel (freq / 2) (pow + 1) in if freq / 2 == 0 then some pow else rest

-- `freq` is the `uint16_t` at `buf`: 16 rounds are enough for it.
pub rtc_write : Bytes → ℕ → ℤ → ℕ → Option (ℤ × List Io)
rtc_write m buf nbytes prev =
    let freq = m buf + 256 * m (buf + 1) in
    if freq == 0
    then some (minus_one, [])
    else if bit_and freq (freq - 1) == 0
    then (if nat_eq nbytes 4 && leb freq 1024
        then elim (pow_loop 16 freq 0) [
          | none ↦ none
          | some pow ↦ some (nbytes, set_rate prev (two_hz_freq - pow + 2))
        ]
        else some (minus_one, []))
    else some (minus_one, [])

pub rtc_close : ℤ → ℤ
rtc_close fd = if nat_eq fd 0 then minus_one else pos 0

-- The handler reads register C, sets the flag and acknowledges the interrupt.
pub rtc_handler : Flag → List Io × Flag
rtc_handler flag = (
  outb 0x0c select_reg ∷ inb data_reg ∷ out_ios (send_eoi irq_rtc),
  if flag == 0 then 1 else flag,
)

-- While `rtc_read` waits, interrupts come in: of the clock (`true`) or of another device. `none`
-- is a wait that the given interrupts do not end.
pub rtc_wait : List Bool → Flag → Option (List Bool × Flag)
rtc_wait [] flag = if flag == 0 then none else some ([], flag)
rtc_wait (clock ∷ later) flag =
    let rest = rtc_wait later (if clock then (rtc_handler flag).1 else flag) in
    if flag == 0 then rest else some (clock ∷ later, flag)

pub rtc_read : List Bool → Flag → Option (ℤ × List Bool × Flag)
rtc_read events _ = elim (rtc_wait events 0) [
  | none ↦ none
  | some (later, flag') ↦ some (pos 0, later, flag')
]
