-- ===== src/Rtc/Wait.antt =====
-- How `rtc_read` of student-distrib/rtc.c waits for the clock.
use ece391_linux_os.Base.{
  ℕ, zero, suc, ◌≡◌, refl, ◌∙◌, List, [], ◌∷◌, ◌++◌, Bool, true, false, none, some, pos,
}
use ece391_linux_os.Rtc.{Flag, rtc_handler, rtc_wait, rtc_read}

-- `n` interrupts of other devices
abbrev pub others : ℕ → List Bool
others zero = []
others (suc n) = false ∷ others n

rtc_wait-others : (n : ℕ) (later : List Bool) → rtc_wait (others n ++ later) 0 ≡ rtc_wait later 0
unfolding rtc_wait
rtc_wait-others zero later = refl
rtc_wait-others (suc n) later = rtc_wait-others n later

rtc_wait-clock : (later : List Bool) → rtc_wait (true ∷ later) 0 ≡ some (later, 1)
unfolding rtc_wait rtc_handler
rtc_wait-clock [] = refl
rtc_wait-clock (e ∷ later) = refl

rtc_wait-none : rtc_wait [] 0 ≡ none
unfolding rtc_wait
rtc_wait-none = refl

-- `rtc_read` returns 0 at the first clock interrupt after the call, whether or not one came before
-- it: an interrupt from before does not count, those of other devices do not end the wait, and
-- without one of the clock it does not return.
pub rtc_read-others :
    (n : ℕ) (later : List Bool) (flag : Flag)
    → (rtc_read (others n ++ (true ∷ later)) flag ≡ some (pos 0, later, 1))
      × (rtc_read (others n ++ []) flag ≡ none)
unfolding rtc_read
rtc_read-others n later flag = (
  rw (rtc_wait-others n (true ∷ later) ∙ rtc_wait-clock later, rtc_read),
  rw (rtc_wait-others n [] ∙ rtc_wait-none, rtc_read),
)
