-- ===== src/Keyboard/Typing/Keys.antt =====
-- A line that is typed, key by key, student-distrib/keyboard.c.
use mathlib.Core.Path.{subst}
use ece391_linux_os.Base.{
  ℕ, ◌+◌, ◌-◌, ◌*◌, ◌<◌, ◌≤◌, ◌≡◌, ◌≢◌, inl, inr, refl, ◌∙◌, ap, sym, arith, List, [], ◌∷◌, ◌++◌,
  some, update, ◌==◌, ltb, ◌&&◌, true, false, if◌then◌else◌, Bool-cases, ==→eq, ==→ne, update_self,
}
use ece391_linux_os.Programs.Stacks.{length}
use ece391_linux_os.Console.{Console, Terminal, visible, set_visible, putc, buf_size}
use ece391_linux_os.Console.Screen.{Touched, putc-Touched}
use ece391_linux_os.Keyboard.{
  done, key_ascii, press_enter, press_backspace, append_key, other_key, keyboard_handler,
  get_enter_flag, wait_line,
}
use ece391_linux_os.Keyboard.Typing.{
  IsTyping, is_character, AllTyping, drop_last, edited, Holds, Editing, putc-Editing,
  append_key-Holds,
}
use ece391_linux_os.Keyboard.Typing.Edited.{edited_length}

-- The handler on a character.
character-done :
    (past : ℕ → ℕ) (c : Console) (k row : ℕ) (line : List ℕ)
    → Editing c row line
    → is_character k ≡ true
    → key_ascii past row k ≢ 0
    → keyboard_handler past c k
      ≡ done (
          putc
            (set_visible c (append_key (visible c) (key_ascii past row k)))
            (key_ascii past row k))
unfolding keyboard_handler other_key
character-done past c k row line h is ne =
    let same : key_ascii past (c.caps_lock_flag * 2 + c.shift_flag) k ≡ key_ascii past row k =
      ap (λ (r : ℕ). key_ascii past r k) h.of_row in
    rw same (ground (arith, h.no_alt, h.no_ctrl, is, ne))

append_key-kept :
    (v : Terminal) (a : ℕ)
    → ((append_key v a).screen_x ≡ v.screen_x) × ((append_key v a).screen_y ≡ v.screen_y)
unfolding append_key
append_key-kept v a = (ground arith, ground arith)

backspace-done :
    (past : ℕ → ℕ) (c : Console) (k : ℕ)
    → k ≡ 0x0e
    → keyboard_handler past c k ≡ done (press_backspace c)
unfolding keyboard_handler
backspace-done past c k e = rw e refl

set_visible-Holds :
    (c : Console) (v : Terminal) (line : List ℕ)
    → Holds v line
    → Holds (visible (set_visible c v)) line
set_visible-Holds c v line h =
    subst (λ (w : Terminal). Holds w line) (sym (update_self c.t c.t_visible v)) h

drop_last-Holds :
    (v : Terminal) (line : List ℕ)
    → Holds v line
    → v.buffer_idx ≢ 0
    → Holds
        (record v { buffer_idx = v.buffer_idx - 1; buffer = update v.buffer (v.buffer_idx - 1) 0 })
        (drop_last line)
unfolding length
drop_last-Holds v [] h ne = absurd (ne h.count)
drop_last-Holds v (x ∷ line) h ne = record {
  count = omega (arith, h.count);
  chars = λ i l. ground (arith, h.count, h.chars i (omega arith));
}

press_backspace-Editing :
    (c : Console) (row : ℕ) (line : List ℕ)
    → Editing c row line
    → Editing (press_backspace c) row (drop_last line)
unfolding press_backspace length
press_backspace-Editing c row line h = elim (Bool-cases ((visible c).buffer_idx == 0)) [
  | inl empty ↦ rw empty (unchanged line h (sym h.holds.count ∙ ==→eq _ _ empty))
  | inr more ↦ rw more (
      putc-Editing c _ 8 row line (drop_last line) h refl (ground arith) (ground arith)
        (refl, refl, refl, refl, refl)
        (set_visible-Holds c _ (drop_last line)
          (drop_last-Holds (visible c) line h.holds (==→ne _ _ more))))
]
  where
    unchanged :
        (line : List ℕ) → Editing c row line → length line ≡ 0 → Editing c row (drop_last line)
    unchanged [] h e = h
    unchanged (x ∷ line) h e = absurd (omega (arith, e))

-- One key.
key-Editing :
    (past : ℕ → ℕ) (c : Console) (k row : ℕ) (line : List ℕ)
    → Editing c row line
    → IsTyping past row k
    → length line < 126
    → (c' : Console) × (keyboard_handler past c k ≡ done c')
      × Editing c' row (if k == 0x0e then drop_last line else key_ascii past row k ∷ line)
key-Editing past c k row line h (inl e) lt =
    let is : (k == 0x0e) ≡ true = ground arith in
    (press_backspace c, backspace-done past c k e, rw is (press_backspace-Editing c row line h))
key-Editing past c k row line h (inr (is, ne)) lt =
    let other : (k == 0x0e) ≡ false = ground (arith, is) in
    let a : ℕ = key_ascii past row k in
    let b : Console = set_visible c (append_key (visible c) a) in
    let (ex, ey) = append_key-kept (visible c) a in
    let new : visible b ≡ append_key (visible c) a =
      update_self c.t c.t_visible (append_key (visible c) a) in
    (
      putc b a,
      character-done past c k row line h is ne,
      rw other (
          putc-Editing c b a row line (a ∷ line) h refl (ap (λ (v : Terminal). v.screen_x) new ∙ ex)
            (ap (λ (v : Terminal). v.screen_y) new ∙ ey) (refl, refl, refl, refl, refl)
            (set_visible-Holds c _ (a ∷ line) (append_key-Holds (visible c) a line lt h.holds))),
    )

-- Enter, with the line as it is.
press_enter-Holds :
    (c : Console) (row : ℕ) (line : List ℕ)
    → Editing c row line
    → Holds (visible (press_enter c)) line × (get_enter_flag (press_enter c) ≡ 1)
unfolding press_enter get_enter_flag
press_enter-Holds c row line h =
    let b : Console = record c { enter_flag = update c.enter_flag c.t_visible 1 } in
    let t : Touched 79 b (putc b 10) =
      putc-Touched b 10 (record { column = h.on_screen.column; row = h.on_screen.row }) in
    let (kc, ks, ka, kt, ke) = t.keys in
    (
      record {
        count = rw t.terminal h.holds.count;
        chars = λ i l. rw t.terminal (h.holds.chars i l);
      },
      ap (λ (f : ℕ → ℕ). f (putc b 10).t_visible) ke
          ∙ ap b.enter_flag t.same_visible
          ∙ update_self c.enter_flag c.t_visible 1,
    )

enter-done : (past : ℕ → ℕ) (c : Console) → keyboard_handler past c 0x1c ≡ done (press_enter c)
unfolding keyboard_handler
enter-done past c = refl

-- The wait ends behind Enter.
wait_line-done :
    (past : ℕ → ℕ) (later : List ℕ) (c : Console)
    → get_enter_flag c ≡ 1
    → wait_line past later c ≡ some (later, c)
unfolding wait_line
wait_line-done past [] c e = rw e (ground arith)
wait_line-done past (k ∷ ks) c e = rw e (ground arith)

wait_line_step :
    (past : ℕ → ℕ) (k row : ℕ) (ks line : List ℕ) (c c' : Console)
    → Editing c row line
    → length line < 127
    → keyboard_handler past c k ≡ done c'
    → wait_line past (k ∷ ks) c ≡ wait_line past ks c'
unfolding wait_line get_enter_flag
wait_line_step past k row ks line c c' h lt run =
    let waits : (ltb (visible c).buffer_idx (buf_size - 1) && get_enter_flag c == 0) ≡ true =
      ground (arith, h.holds.count, h.waiting) in
    rw (waits, run, wait_line) refl

pub wait_line-Holds :
    (past : ℕ → ℕ) (row : ℕ) (ks later line : List ℕ) (c : Console)
    → Editing c row line
    → AllTyping past row ks
    → length line + length ks ≤ 126
    → (c' : Console) × (wait_line past (ks ++ 0x1c ∷ later) c ≡ some (later, c'))
      × Holds (visible c') (edited past row ks line)
unfolding length
wait_line-Holds past row [] later line c h all fits =
    let (held, flag) = press_enter-Holds c row line h in
    (
      press_enter c,
      wait_line_step past 0x1c row later line c (press_enter c) h (omega arith) (enter-done past c)
          ∙ wait_line-done past later (press_enter c) flag,
      held,
    )
wait_line-Holds past row (k ∷ ks) later line c h (is, all) fits =
    let (c1, run, h1) = key-Editing past c k row line h is (omega arith) in
    let (c', rest, held) =
      wait_line-Holds past row ks later
        (if k == 0x0e then drop_last line else key_ascii past row k ∷ line) c1 h1 all
        (omega (arith, edited_length (k == 0x0e) (key_ascii past row k) line)) in
    (c', wait_line_step past k row (ks ++ 0x1c ∷ later) line c c1 h (omega arith) run ∙ rest, held)
