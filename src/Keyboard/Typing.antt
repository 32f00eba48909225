-- ===== src/Keyboard/Typing.antt =====
-- A line that is typed, student-distrib/keyboard.c, against an editor of lists of characters.
pub mod Edited
pub mod Keys
use mathlib.Core.Path.{subst}
use native.Mathlib.Decide.{ℕ_discrete}
use ece391_linux_os.Base.{
  ℕ, ◌+◌, ◌-◌, ◌*◌, ◌<◌, ◌≤◌, ◌≡◌, ◌≢◌, ◌⊎◌, inl, inr, refl, ◌∙◌, ap, sym, arith, List, [], ◌∷◌,
  ◌++◌, some, update, ◌==◌, ltb, ◌&&◌, ◌||◌, Bool, true, false, if◌then◌else◌, Bool-cases, ==→eq,
  ==→ne, update_self,
}
use ece391_linux_os.Programs.Stacks.{length}
use ece391_linux_os.Console.{Console, Terminal, visible, set_visible, putc, buf_size}
use ece391_linux_os.Console.Screen.{InScreen, Touched, Touched-InScreen, putc-Touched}
use ece391_linux_os.Keyboard.{
  done, key_ascii, press_enter, press_backspace, append_key, other_key, keyboard_handler,
  get_enter_flag, wait_line,
}

-- Not one of the keys that the handler takes for itself, and not the release of a key.
abbrev pub is_character : ℕ → Bool
is_character k =
    ltb k 0x80
    && (if k == 0x3a || k == 0x2a || k == 0x36 || k == 0x38 || k == 0x1d || k == 0x1c || k == 0x0e
        then false
        else true)

-- A character, or a backspace.
abbrev pub IsTyping : (ℕ → ℕ) → ℕ → ℕ → Type 0
IsTyping past row k = (k ≡ 0x0e) ⊎ ((is_character k ≡ true) × (key_ascii past row k ≢ 0))

abbrev pub AllTyping : (ℕ → ℕ) → ℕ → List ℕ → Type 0
AllTyping past row [] = Unit
AllTyping past row (k ∷ ks) = IsTyping past row k × AllTyping past row ks

abbrev pub drop_last : List ℕ → List ℕ
drop_last [] = []
drop_last (x ∷ line) = line

-- The line behind the keys, the last character first.
abbrev pub edited : (ℕ → ℕ) → ℕ → List ℕ → List ℕ → List ℕ
edited past row [] line = line
edited past row (k ∷ ks) line =
    edited past row ks (if k == 0x0e then drop_last line else key_ascii past row k ∷ line)

-- Character `i` of such a line.
abbrev pub character : List ℕ → ℕ → ℕ
character [] i = 0
character (x ∷ line) i = if i == length line then x else character line i

-- A terminal's buffer holds a line.
pub record Holds (v : Terminal) (line : List ℕ) : Type 0 where
  pub count : v.buffer_idx ≡ length line
  pub chars : (i : ℕ) → i < length line → v.buffer i ≡ character line i

-- The console while a line is typed.
pub record Editing (c : Console) (row : ℕ) (line : List ℕ) : Type 0 where
  pub on_screen : InScreen c
  pub no_alt : c.alt_flag ≡ 0
  pub no_ctrl : c.ctrl_flag ≡ 0
  pub of_row : c.caps_lock_flag * 2 + c.shift_flag ≡ row
  pub waiting : c.enter_flag c.t_visible ≡ 0
  pub holds : Holds (visible c) line

pub append_key-Holds :
    (v : Terminal) (a : ℕ) (line : List ℕ)
    → length line < 126
    → Holds v line
    → Holds (append_key v a) (a ∷ line)
unfolding append_key length
append_key-Holds v a line lt h =
    let fits : ltb v.buffer_idx (buf_size - 2) ≡ true = ground (arith, h.count) in
    record {
      count = rw fits (ground (arith, h.count));
      chars = λ i l. rw fits (elim (ℕ_discrete i (length line)) [
        | yes e ↦ ground (arith, h.count)
        | no ne ↦ ground (arith, h.count, h.chars i (omega arith))
      ]);
    }

-- A key that changes the line and prints.
pub putc-Editing :
    (c b : Console) (ch row : ℕ) (line line' : List ℕ)
    → Editing c row line
    → b.t_visible ≡ c.t_visible
    → (visible b).screen_x ≡ (visible c).screen_x
    → (visible b).screen_y ≡ (visible c).screen_y
    → (b.caps_lock_flag ≡ c.caps_lock_flag)
      × (b.shift_flag ≡ c.shift_flag)
      × (b.alt_flag ≡ c.alt_flag)
      × (b.ctrl_flag ≡ c.ctrl_flag)
      × (b.enter_flag ≡ c.enter_flag)
    → Holds (visible b) line'
    → Editing (putc b ch) row line'
putc-Editing c b ch row line line' h ev ex ey (caps, shift, alt, ctrl, enter) held =
    let in_b : InScreen b = record {
      column = omega (arith, h.on_screen.column);
      row = omega (arith, h.on_screen.row);
    } in
    let t : Touched 79 b (putc b ch) = putc-Touched b ch in_b in
    let (kc, ks, ka, kt, ke) = t.keys in
    record {
      on_screen = Touched-InScreen t;
      no_alt = ka ∙ alt ∙ h.no_alt;
      no_ctrl = kt ∙ ctrl ∙ h.no_ctrl;
      of_row = omega (arith, kc, ks, caps, shift, h.of_row);
      waiting =
          ap (λ (f : ℕ → ℕ). f (putc b ch).t_visible) (ke ∙ enter)
          ∙ ap c.enter_flag (t.same_visible ∙ ev)
          ∙ h.waiting;
      holds = record {
        count = rw t.terminal held.count;
        chars = λ i l. rw t.terminal (held.chars i l);
      };
    }
