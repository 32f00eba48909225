-- ===== src/Keyboard/Terminals.antt =====
-- The keyboard does not touch what the terminals' records say of processes.
use ece391_linux_os.Base.{
  ℕ, ◌+◌, ◌-◌, ◌*◌, ◌≡◌, ◌⊎◌, refl, arith, Bytes, ℤ, Bool-cases, inl, inr, List, [], ◌∷◌, Option,
  some, ◌==◌, ltb, ◌&&◌, Option-cases, is_neg, ◌||◌,
}
use mathlib.Core.Path.{subst}
use ece391_linux_os.Console.{Console, visible, clear_buffer, buf_size}
use ece391_linux_os.Console.Processes.{
  SameProcesses, SameProcesses-refl, SameProcesses-trans, putc-SameProcesses,
  terminal_reset-SameProcesses,
}
use ece391_linux_os.Keyboard.{
  KeyResult, done, switch_to, key_ascii, press_enter, press_backspace, append_key, keyboard_handler,
  keyboard_init, wait_line, terminal_read, release_enter, get_enter_flag,
}
use ece391_linux_os.Keyboard.Cases.{console_after, keyboard_handler_cases}

press_backspace-SameProcesses : (c : Console) → SameProcesses c (press_backspace c)
unfolding press_backspace
press_backspace-SameProcesses c = elim (Bool-cases ((visible c).buffer_idx == 0)) [
  | inl empty ↦ rw empty (SameProcesses-refl c)
  | inr more ↦ rw more (
      SameProcesses-trans (record { same_visible = refl; same = λ i. ground arith })
        (putc-SameProcesses _ 8))
]

-- Every key keeps the processes of all terminals.
pub keyboard_handler-SameProcesses :
    (past : ℕ → ℕ) (c : Console) (k : ℕ)
    → SameProcesses c (console_after (keyboard_handler past c k))
unfolding press_enter append_key
keyboard_handler-SameProcesses past c k =
    keyboard_handler_cases past c k (SameProcesses c) (record {
      flags = λ b e ev _. record { same_visible = ev; same = λ i. rw e (refl, refl, refl) };
      enter =
          SameProcesses-trans (record { same_visible = refl; same = λ i. (refl, refl, refl) })
            (putc-SameProcesses _ 10);
      backspace = press_backspace-SameProcesses c;
      reset = terminal_reset-SameProcesses c;
      typed =
          SameProcesses-trans (record { same_visible = refl; same = λ i. ground arith })
            (putc-SameProcesses _ (key_ascii past (c.caps_lock_flag * 2 + c.shift_flag) k));
    })

KeyResult-cases :
    (r : KeyResult)
    → ((c : Console) × (r ≡ done c)) ⊎ ((tid : ℕ) × (c : Console) × (r ≡ switch_to tid c))
KeyResult-cases (done c) = inl (c, refl)
KeyResult-cases (switch_to tid c) = inr (tid, c, refl)

some_pair :
    {A B : Type 0} {a a' : A} {b b' : B}
    → ◌≡◌ {A = Option (A × B)} (some (a, b)) (some (a', b'))
    → b ≡ b'
some_pair e = cc

wait_line-SameProcesses :
    (past : ℕ → ℕ) (ks later : List ℕ) (c c' : Console)
    → wait_line past ks c ≡ some (later, c')
    → SameProcesses c c'
unfolding wait_line
wait_line-SameProcesses past [] later c c' e =
    elim (Bool-cases (ltb (visible c).buffer_idx (buf_size - 1) && get_enter_flag c == 0)) [
      | inl waits ↦ absurd (ground (arith, e))
      | inr ends ↦
          subst (λ (b : Console). SameProcesses c b) (ground (arith, e)) (SameProcesses-refl c)
    ]
wait_line-SameProcesses past (k ∷ ks) later c c' e =
    elim (Bool-cases (ltb (visible c).buffer_idx (buf_size - 1) && get_enter_flag c == 0)) [
      | inl waits ↦ elim (KeyResult-cases (keyboard_handler past c k)) [
        | inl (b, is) ↦
            SameProcesses-trans
              (subst (λ (r : KeyResult). SameProcesses c (console_after r)) is
                (keyboard_handler-SameProcesses past c k))
              (wait_line-SameProcesses past ks later b c' (rw (waits, is, wait_line) at e))
        | inr (tid, b, is) ↦ absurd (ground (arith, rw (waits, is, wait_line) at e))
      ]
      | inr ends ↦
          subst (λ (b : Console). SameProcesses c b) (ground (arith, e)) (SameProcesses-refl c)
    ]

console_part :
    {A B D : Type 0} {a a' : A} {c c' : Console} {b b' : B} {d d' : D}
    → ◌≡◌ {A = Option (A × Console × B × D)} (some (a, c, b, d)) (some (a', c', b', d'))
    → SameProcesses c c'
console_part {c = c} {c' = c'} e =
    let same : c ≡ c' = cc in subst (λ (b : Console). SameProcesses c b) same (SameProcesses-refl c)

clear_buffer-SameProcesses : (c : Console) → SameProcesses c (clear_buffer c)
unfolding clear_buffer
clear_buffer-SameProcesses c = record { same_visible = refl; same = λ i. ground arith }

release_enter-SameProcesses : (c : Console) → SameProcesses c (release_enter c)
unfolding release_enter
release_enter-SameProcesses c = record { same_visible = refl; same = λ i. (refl, refl, refl) }

-- Reading a line keeps the processes of all terminals.
pub terminal_read-SameProcesses :
    (past : ℕ → ℕ) (ks later : List ℕ) (c c' : Console) (m m' : Bytes) (buf : ℕ) (nbytes ret : ℤ)
    → terminal_read past ks c m buf nbytes ≡ some (ret, c', m', later)
    → SameProcesses c c'
unfolding terminal_read
terminal_read-SameProcesses past ks later c c' m m' buf nbytes ret e =
    elim (Bool-cases (buf == 0 || is_neg nbytes)) [
      | inl bad ↦ console_part (rw (bad, terminal_read) at e)
      | inr good ↦ elim (Option-cases (wait_line past ks (clear_buffer c))) [
        | inl never ↦ absurd (ground (arith, rw (good, never, terminal_read) at e))
        | inr ((rest, b), is) ↦
            SameProcesses-trans
              (SameProcesses-trans
                (SameProcesses-trans (clear_buffer-SameProcesses c)
                  (wait_line-SameProcesses past ks rest (clear_buffer c) b is))
                (SameProcesses-trans (release_enter-SameProcesses b)
                  (clear_buffer-SameProcesses (release_enter b))))
              (console_part (rw (good, is, terminal_read) at e))
      ]
    ]

pub keyboard_init-SameProcesses :
    (inb : ℕ → ℕ) (c : Console) → SameProcesses c (keyboard_init inb c).0
unfolding keyboard_init
keyboard_init-SameProcesses inb c = record { same_visible = refl; same = λ i. (refl, refl, refl) }
