-- ===== src/Keyboard/Cases.antt =====
-- The ways that the keyboard's handler may go, student-distrib/keyboard.c.
use ece391_linux_os.Base.{
  arith, ◌<◌, ℕ, ◌+◌, ◌*◌, ◌≡◌, refl, Bool, true, false, ◌==◌, if◌then◌else◌,
}
use ece391_linux_os.Console.{terminal_count, Console, visible, set_visible, putc, terminal_reset}
use ece391_linux_os.Keyboard.{
  KeyResult, done, switch_to, key_ascii, press_enter, press_backspace, append_key, other_key,
  keyboard_handler,
}

-- A result with a console that satisfies `P`, whether or not the handler goes on to switch.
pub data Kept (P : Console → Type 0) : KeyResult → Type 0 where
  kept_done : {b : Console} → P b → Kept P (done b)
  kept_switch : (tid : ℕ) {b : Console} → tid < terminal_count → P b → Kept P (switch_to tid b)

abbrev pub console_after : KeyResult → Console
console_after (done c) = c
console_after (switch_to tid c) = c

pub Kept-console_after : {P : Console → Type 0} {r : KeyResult} → Kept P r → P (console_after r)
Kept-console_after (kept_done p) = p
Kept-console_after (kept_switch tid lt p) = p

-- The terminal that a result asks for.
abbrev pub asked : KeyResult → ℕ
asked (done c) = 0
asked (switch_to tid c) = tid

Kept-asked : {P : Console → Type 0} {r : KeyResult} → Kept P r → asked r < terminal_count
Kept-asked (kept_done p) = omega arith
Kept-asked (kept_switch tid lt p) = lt

-- Whichever way a test goes.
branch :
    {P : Console → Type 0} (test : Bool) (a b : KeyResult)
    → Kept P a
    → Kept P b
    → Kept P (if test then a else b)
branch true a b p q = p
branch false a b p q = q

-- What a property of the console has to hold for, to hold after every key.
pub record KeyCases (past : ℕ → ℕ) (c : Console) (k : ℕ) (P : Console → Type 0) : Type 0 where
  pub flags : (b : Console) → b.t ≡ c.t → b.t_visible ≡ c.t_visible → b.mem ≡ c.mem → P b
  pub enter : P (press_enter c)
  pub backspace : P (press_backspace c)
  pub reset : P (terminal_reset c)
  pub typed : P (
      putc
        (set_visible c
          (append_key (visible c) (key_ascii past (c.caps_lock_flag * 2 + c.shift_flag) k)))
        (key_ascii past (c.caps_lock_flag * 2 + c.shift_flag) k))

other_key-Kept :
    (past : ℕ → ℕ) (c : Console) (k : ℕ) (P : Console → Type 0)
    → KeyCases past c k P
    → Kept P (other_key past c k)
unfolding other_key
other_key-Kept past c k P h =
    let same : P c = h.flags c refl refl refl in
    branch _ _ _
      (branch _ _ _ (kept_done h.reset) (branch _ _ _ (kept_done h.typed) (kept_done same)))
      (branch _ _ _ (kept_switch 0 (omega arith) same) (
        branch _ _ _ (kept_switch 1 (omega arith) same)
          (branch _ _ _ (kept_switch 2 (omega arith) same) (kept_done same))))

keyboard_handler-Kept :
    (past : ℕ → ℕ) (c : Console) (k : ℕ) (P : Console → Type 0)
    → KeyCases past c k P
    → Kept P (keyboard_handler past c k)
unfolding keyboard_handler
keyboard_handler-Kept past c k P h =
    branch _ _ _
      (kept_done (
        h.flags (record c { caps_lock_flag = if c.caps_lock_flag == 0 then 1 else 0 }) refl refl
          refl))
      (branch _ _ _ (kept_done (h.flags (record c { shift_flag = 1 }) refl refl refl)) (
        branch _ _ _ (kept_done (h.flags (record c { shift_flag = 0 }) refl refl refl)) (
          branch _ _ _ (kept_done (h.flags (record c { alt_flag = 1 }) refl refl refl)) (
            branch _ _ _ (kept_done (h.flags (record c { alt_flag = 0 }) refl refl refl)) (
              branch _ _ _ (kept_done (h.flags (record c { ctrl_flag = 1 }) refl refl refl)) (
                branch _ _ _ (kept_done (h.flags (record c { ctrl_flag = 0 }) refl refl refl)) (
                  branch _ _ _ (kept_done h.enter)
                    (branch _ _ _ (kept_done h.backspace) (other_key-Kept past c k P h)))))))))

-- The property then holds after every key.
pub keyboard_handler_cases :
    (past : ℕ → ℕ) (c : Console) (k : ℕ) (P : Console → Type 0)
    → KeyCases past c k P
    → P (console_after (keyboard_handler past c k))
keyboard_handler_cases past c k P h = Kept-console_after (keyboard_handler-Kept past c k P h)

-- The handler asks only for one of the three terminals.
pub keyboard_handler-asked :
    (past : ℕ → ℕ) (c : Console) (k : ℕ) → asked (keyboard_handler past c k) < terminal_count
keyboard_handler-asked past c k = Kept-asked (
    keyboard_handler-Kept past c k (λ b. Unit)
      (record { flags = λ b e ev m. tt; enter = tt; backspace = tt; reset = tt; typed = tt }))
