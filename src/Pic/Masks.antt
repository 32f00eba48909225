-- ===== src/Pic/Masks.antt =====
-- The interrupt masks that student-distrib/i8259.c writes.
use ece391_linux_os.Base.{
  ℕ, ◌-◌, ◌%◌, ◌^◌, ◌<◌, ◌≡◌, refl, arith, Bool, true, ◌==◌, ◌&&◌, ltb, if◌then◌else◌, bit_and,
  bit_or, ==→eq,
}
use ece391_linux_os.Base.Bits.{all_below, all_below_sound, bit}
use ece391_linux_os.Pic.{data_port, pin, enable_irq, disable_irq}

-- The tables: every mask, line and bit.
abbrev cleared : ℕ → ℕ → ℕ → Bool
cleared v n k = bit (bit_and v (2 ^ 32 - 1 - 2 ^ n) % 256) k == (if k == n then 0 else bit v k)

abbrev raised : ℕ → ℕ → ℕ → Bool
raised v n k = bit (bit_or v (2 ^ n) % 256) k == (if k == n then 1 else bit v k)

masks_table :
    all_below 256 (λ v. all_below 8 (λ n. all_below 8 (λ k. cleared v n k && raised v n k))) ≡ true
unfolding all_below
masks_table = refl

and_true : (a b : Bool) → (a && b) ≡ true → (a ≡ true) × (b ≡ true)
and_true a b h = ground arith

masks_bit :
    (v n k : ℕ)
    → v < 256
    → n < 8
    → k < 8
    → (bit (bit_and v (2 ^ 32 - 1 - 2 ^ n) % 256) k ≡ (if k == n then 0 else bit v k))
      × (bit (bit_or v (2 ^ n) % 256) k ≡ (if k == n then 1 else bit v k))
masks_bit v n k hv hn hk =
    let (c, r) = and_true _ _ (
      all_below_sound 8 _ k (all_below_sound 8 _ n (all_below_sound 256 _ v masks_table hv) hn)
        hk) in
    (==→eq _ _ c, ==→eq _ _ r)

-- `enable_irq` and `disable_irq` of one of the 16 lines write to the data port of the controller
-- that has the line, the first for the lines below 8, and the byte that they write differs from the
-- mask that they read there only in that line's bit, which is 0 and 1.
pub enable_irq-disable_irq :
    (inb : ℕ → ℕ) (irq k : ℕ)
    → irq < 16
    → k < 8
    → inb (data_port irq) < 256
    → ((enable_irq inb irq).port ≡ (if ltb irq 8 then 0x21 else 0xa1))
      × ((disable_irq inb irq).port ≡ (if ltb irq 8 then 0x21 else 0xa1))
      × (bit (enable_irq inb irq).value k
          ≡ (if k == (if ltb irq 8 then irq else irq - 8) then 0 else bit (inb (data_port irq)) k))
      × (bit (disable_irq inb irq).value k
          ≡ (if k == (if ltb irq 8 then irq else irq - 8) then 1 else bit (inb (data_port irq)) k))
unfolding enable_irq disable_irq
enable_irq-disable_irq inb irq k hi hk hb =
    let (c, r) = masks_bit (inb (data_port irq)) (pin irq) k hb (ground arith) hk in
    (ground arith, ground arith, c, r)
