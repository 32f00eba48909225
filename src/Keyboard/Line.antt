-- ===== src/Keyboard/Line.antt =====
-- The line buffer under the keyboard's handler, student-distrib/keyboard.c.
use ece391_linux_os.Base.{
  ℕ, zero, suc, ◌+◌, ◌*◌, ◌<◌, ◌≤◌, ◌≡◌, ◌≢◌, refl, ◌∙◌, arith, Bytes, update, ◌==◌, ltb, leb, ◌&&◌,
  if◌then◌else◌, Bool-cases, inl, inr,
}
use ece391_linux_os.Console.{
  Console, Terminal, visible, set_visible, putc, terminal_reset, clear_buffer, zero_buffer,
  update_cursor, buf_size,
}
use ece391_linux_os.Console.Screen.{InScreen, Touched, Touched-InScreen, putc-Touched}
use ece391_linux_os.Keyboard.Cases.{console_after, keyboard_handler_cases}
use ece391_linux_os.Keyboard.{key_ascii, press_enter, press_backspace, append_key, keyboard_handler}

-- The visible terminal has its cursor on the screen and its line within the buffer.
pub record IsValid (c : Console) : Type 0 where
  pub screen : InScreen c
  pub line : (visible c).buffer_idx < buf_size

-- What a key may not touch: the memory behind the line buffer, the other terminals and the choice
-- of the visible one. It keeps the console valid.
pub record KeyKeeps (c c' : Console) : Type 0 where
  pub valid : IsValid c'
  pub behind : (i : ℕ) → buf_size ≤ i → (visible c').buffer i ≡ (visible c).buffer i
  pub same_visible : c'.t_visible ≡ c.t_visible
  pub others : (i : ℕ) → i ≢ c.t_visible → c'.t i ≡ c.t i

-- A change of the line and then `putc`.
putc-KeyKeeps :
    (c b : Console) (ch : ℕ)
    → InScreen c
    → b.t_visible ≡ c.t_visible
    → ((visible b).screen_x ≡ (visible c).screen_x)
    → ((visible b).screen_y ≡ (visible c).screen_y)
    → (visible b).buffer_idx < buf_size
    → ((i : ℕ) → buf_size ≤ i → (visible b).buffer i ≡ (visible c).buffer i)
    → ((i : ℕ) → i ≢ c.t_visible → b.t i ≡ c.t i)
    → KeyKeeps c (putc b ch)
putc-KeyKeeps c b ch s ev ex ey line behind others =
    let in_b : InScreen b = record {
      column = omega (arith, s.column);
      row = omega (arith, s.row);
    } in
    let t : Touched 79 b (putc b ch) = putc-Touched b ch in_b in
    record {
      valid = record { screen = Touched-InScreen t; line = rw t.terminal line };
      behind = λ i ge. rw t.terminal (behind i ge);
      same_visible = t.same_visible ∙ ev;
      others = λ i ne. t.others i (λ e. ne (e ∙ ev)) ∙ others i ne;
    }

flags-KeyKeeps : (c b : Console) → IsValid c → b.t ≡ c.t → b.t_visible ≡ c.t_visible → KeyKeeps c b
flags-KeyKeeps c b v e ev = record {
  valid = record {
    screen = record { column = rw (e, ev) v.screen.column; row = rw (e, ev) v.screen.row };
    line = rw (e, ev) v.line;
  };
  behind = λ i ge. rw (e, ev);
  same_visible = ev;
  others = λ i ne. rw e;
}

press_enter-KeyKeeps : (c : Console) → IsValid c → KeyKeeps c (press_enter c)
unfolding press_enter
press_enter-KeyKeeps c v =
    putc-KeyKeeps c _ 10 v.screen refl refl refl v.line (λ i ge. refl) (λ i ne. refl)

press_backspace-KeyKeeps : (c : Console) → IsValid c → KeyKeeps c (press_backspace c)
unfolding press_backspace
press_backspace-KeyKeeps c v = elim (Bool-cases ((visible c).buffer_idx == 0)) [
  | inl empty ↦ rw empty (flags-KeyKeeps c c v refl refl)
  | inr more ↦ rw more (
      putc-KeyKeeps c _ 8 v.screen refl (ground arith) (ground arith) (ground (arith, v.line))
        (λ i ge. ground (arith, v.line)) (λ i ne. ground arith))
]

append_key-line :
    (v : Terminal) (ascii : ℕ)
    → v.buffer_idx < buf_size
    → ((append_key v ascii).buffer_idx < buf_size)
      × ((i : ℕ) → buf_size ≤ i → (append_key v ascii).buffer i ≡ v.buffer i)
      × ((append_key v ascii).screen_x ≡ v.screen_x)
      × ((append_key v ascii).screen_y ≡ v.screen_y)
unfolding append_key
append_key-line v ascii h = (ground arith, λ i ge. ground arith, ground arith, ground arith)

zero_buffer_lem :
    (n : ℕ) (b : Bytes) (i k : ℕ)
    → zero_buffer n b i k ≡ (if leb i k && ltb k (i + n) then 0 else b k)
unfolding zero_buffer
zero_buffer_lem zero b i k = ground arith
zero_buffer_lem (suc n) b i k = ground (arith, zero_buffer_lem n (update b i 0) (i + 1) k)

terminal_reset-KeyKeeps : (c : Console) → KeyKeeps c (terminal_reset c)
unfolding terminal_reset clear_buffer update_cursor
terminal_reset-KeyKeeps c = record {
  valid = record {
    screen = record { column = ground arith; row = ground arith };
    line = ground arith;
  };
  behind = λ i ge. ground (arith, zero_buffer_lem 128 (visible c).buffer 0 i);
  same_visible = refl;
  others = λ i ne. ground arith;
}

-- The keyboard's handler, for every scan code and state of the keys, with the cursor on the screen
-- and the line within its 128 bytes: so they are afterwards, no byte behind the buffer has
-- changed, and of the terminals only the visible one has.
pub keyboard_handler-KeyKeeps :
    (past : ℕ → ℕ) (c : Console) (k : ℕ)
    → IsValid c
    → KeyKeeps c (console_after (keyboard_handler past c k))
keyboard_handler-KeyKeeps past c k v =
    let ascii : ℕ = key_ascii past (c.caps_lock_flag * 2 + c.shift_flag) k in
    let (line, behind, ex, ey) = append_key-line (visible c) ascii v.line in
    keyboard_handler_cases past c k (KeyKeeps c) (record {
      flags = λ b e ev _. flags-KeyKeeps c b v e ev;
      enter = press_enter-KeyKeeps c v;
      backspace = press_backspace-KeyKeeps c v;
      reset = terminal_reset-KeyKeeps c;
      typed =
          putc-KeyKeeps c (set_visible c (append_key (visible c) ascii)) ascii v.screen refl
            (ground (arith, ex)) (ground (arith, ey)) (ground (arith, line))
            (λ i ge. ground (arith, behind i ge)) (λ i ne. ground arith);
    })
