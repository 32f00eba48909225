-- ===== src/Rtc/Examples.antt =====
-- A request for 512 interrupts a second, and a wait with two interrupts of other devices.
use ece391_linux_os.Base.{
  ℕ, ◌*◌, ◌^◌, ◌≡◌, refl, arith, ◌++◌, [], ◌∷◌, true, false, none, some, Bytes, ◌==◌, if◌then◌else◌,
  pos,
}
use ece391_linux_os.Rtc.{outb, inb, initialize_rtc, rtc_open, rtc_write, rtc_read}
use ece391_linux_os.Rtc.Rate.{programmed, rtc_write-programmed}
use ece391_linux_os.Rtc.Wait.{rtc_read-others}

abbrev memory : Bytes
memory a = if a == 101 then 2 else 0

rtc_write-programmed_example :
    (v : ℕ) × (rtc_write memory 100 (pos 4) 0x26
      ≡ some (pos 4, outb 0x8a 0x70 ∷ inb 0x71 ∷ outb 0x8a 0x70 ∷ outb v 0x71 ∷ []))
    × (2 * programmed v ≡ 2 ^ 9)
    × ((mask : ℕ → ℕ) (prev_b : ℕ)
        → (w : ℕ) × ((rtc_open mask prev_b 0x26).1
            ≡ (initialize_rtc mask prev_b).0
              ++ (outb 0x8a 0x70 ∷ inb 0x71 ∷ outb 0x8a 0x70 ∷ outb w 0x71 ∷ []))
          × (programmed w ≡ 2))
rtc_write-programmed_example =
    rtc_write-programmed memory 100 0x26 9 (omega arith) (omega arith) (omega arith) refl

rtc_read-others_example :
    (rtc_read (false ∷ false ∷ true ∷ true ∷ []) 1 ≡ some (pos 0, true ∷ [], 1))
    × (rtc_read (false ∷ false ∷ []) 1 ≡ none)
rtc_read-others_example = rtc_read-others 2 (true ∷ []) 1
