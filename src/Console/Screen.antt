-- ===== src/Console/Screen.antt =====
-- `putc` of student-distrib/lib.c: the place where it writes, and what it leaves alone.
use ece391_linux_os.Base.{
  ℕ, ◌+◌, ◌-◌, ◌*◌, ◌<◌, ◌≤◌, ◌≡◌, ◌≢◌, refl, ◌∙◌, ap, arith, Bytes, ◌==◌, ltb, leb, ◌||◌, true,
  false, add32, inl, inr, Bool-cases,
}
use ece391_linux_os.CLib.Mem.Laws.{within}
use ece391_linux_os.Console.{
  Console, Terminal, num_cols, num_rows, vid_mem, visible, set_xy, put_cell, scroll_up,
  update_cursor, wrap_line, put_newline, put_char, put_backspace, putc,
}
use ece391_linux_os.Console.Video.{scroll_up-cell}

-- The cursor of the visible terminal is on the screen.
pub record InScreen (c : Console) : Type 0 where
  pub column : (visible c).screen_x < num_cols
  pub row : (visible c).screen_y < num_rows

-- Between `c` and `c'` only the visible terminal's cursor and the screen have changed: the cursor
-- may stand at most in column `last`.
pub record Touched (last : ℕ) (c c' : Console) : Type 0 where
  pub column : (visible c').screen_x ≤ last
  pub row : (visible c').screen_y < num_rows
  pub same_visible : c'.t_visible ≡ c.t_visible
  pub terminal :
      visible c'
      ≡ record (visible c) { screen_x = (visible c').screen_x; screen_y = (visible c').screen_y }
  pub others : (i : ℕ) → i ≢ c.t_visible → c'.t i ≡ c.t i
  pub outside : (a : ℕ) → within vid_mem (2 * (num_rows * num_cols)) a ≡ false → c'.mem a ≡ c.mem a
  pub keys :
      (c'.caps_lock_flag ≡ c.caps_lock_flag)
      × (c'.shift_flag ≡ c.shift_flag)
      × (c'.alt_flag ≡ c.alt_flag)
      × (c'.ctrl_flag ≡ c.ctrl_flag)
      × (c'.enter_flag ≡ c.enter_flag)

-- The form of every change that `putc` makes before it sets the cursor.
set_xy-Touched :
    (last : ℕ) (c : Console) (m : Bytes) (x y : ℕ)
    → x ≤ last
    → y < num_rows
    → ((a : ℕ) → within vid_mem (2 * (num_rows * num_cols)) a ≡ false → m a ≡ c.mem a)
    → Touched last c (set_xy (record c { mem = m }) x y)
set_xy-Touched last c m x y hx hy h = record {
  column = ground arith;
  row = ground arith;
  same_visible = refl;
  terminal = ground arith;
  others = λ i ne. ground arith;
  outside = h;
  keys = (refl, refl, refl, refl, refl);
}

cell_outside :
    (m : Bytes) (x y ch a : ℕ)
    → x < num_cols
    → y < num_rows
    → within vid_mem (2 * (num_rows * num_cols)) a ≡ false
    → put_cell m (num_cols * y + x) ch a ≡ m a
cell_outside m x y ch a hx hy out = ground arith

module _ (c : Console) (s : InScreen c) where
  put_newline-Touched : Touched num_cols c (put_newline c)
  unfolding put_newline
  put_newline-Touched =
      let y : ℕ = (visible c).screen_y in
      elim (Bool-cases (leb num_rows (add32 y 1))) [
        | inl last ↦ rw last (
            set_xy-Touched num_cols c (scroll_up c.mem) 0 (add32 y 1 - 1) (omega arith)
              (ground arith) (scroll_up-cell c.mem).2)
        | inr more ↦ rw more (
            set_xy-Touched num_cols c c.mem 0 (add32 y 1) (omega arith) (ground arith)
              (λ a out. refl))
      ]

  put_char-Touched : (ch : ℕ) → Touched num_cols c (put_char c ch)
  unfolding put_char
  put_char-Touched ch =
      let x : ℕ = (visible c).screen_x in
      let y : ℕ = (visible c).screen_y in
      set_xy-Touched num_cols c _ (add32 x 1) y (omega (arith, s.column)) s.row
        (λ a out. cell_outside c.mem x y ch a s.column s.row out)

put_backspace-Touched :
    (c : Console) (x y : ℕ) → x < num_cols → y < num_rows → Touched num_cols c (put_backspace c x y)
unfolding put_backspace
put_backspace-Touched c x y hx hy =
    set_xy-Touched num_cols c _ x y (omega arith) hy
      (λ a out. cell_outside c.mem x y b' ' a hx hy out)

pub Touched-trans : {n l : ℕ} {a b c : Console} → Touched n a b → Touched l b c → Touched l a c
Touched-trans {a} {b} {c} p q = record {
  column = q.column;
  row = q.row;
  same_visible = q.same_visible ∙ p.same_visible;
  terminal = q.terminal ∙ at_xy p.terminal;
  others = λ i ne. q.others i (λ e. ne (e ∙ p.same_visible)) ∙ p.others i ne;
  outside = λ i out. q.outside i out ∙ p.outside i out;
  keys = (
    q.keys.0 ∙ p.keys.0,
    q.keys.1 ∙ p.keys.1,
    q.keys.2 ∙ p.keys.2,
    q.keys.3 ∙ p.keys.3,
    q.keys.4 ∙ p.keys.4,
  );
}
  where
    x : ℕ
    x = (visible c).screen_x

    y : ℕ
    y = (visible c).screen_y

    at_xy :
        visible b
          ≡ record (visible a) { screen_x = (visible b).screen_x; screen_y = (visible b).screen_y }
        → record (visible b) { screen_x = x; screen_y = y }
          ≡ record (visible a) { screen_x = x; screen_y = y }
    at_xy e = ap (λ (v : Terminal). record v { screen_x = x; screen_y = y }) e

-- Setting the cursor's registers touches nothing else.
update_cursor-Touched : {l : ℕ} {a b : Console} → Touched l a b → Touched l a (update_cursor b)
unfolding update_cursor
update_cursor-Touched p = record {
  column = p.column;
  row = p.row;
  same_visible = p.same_visible;
  terminal = p.terminal;
  others = p.others;
  outside = p.outside;
  keys = p.keys;
}

wrap_line-Touched :
    (c : Console)
    → (visible c).screen_x ≤ num_cols
    → (visible c).screen_y < num_rows
    → Touched (num_cols - 1) c (wrap_line c)
unfolding wrap_line
wrap_line-Touched c hx hy =
    let x : ℕ = (visible c).screen_x in
    let y : ℕ = (visible c).screen_y in
    elim (Bool-cases (x == num_cols)) [
      | inr inside ↦ rw inside (record {
        column = ground arith;
        row = hy;
        same_visible = refl;
        terminal = refl;
        others = λ i ne. refl;
        outside = λ a out. refl;
        keys = (refl, refl, refl, refl, refl);
      })
      | inl full ↦ elim (Bool-cases (ltb y (num_rows - 1))) [
        | inl more ↦
            rw (full, more)
              (set_xy-Touched 79 c c.mem 0 (add32 y 1) (omega arith) (ground arith) (λ a out. refl))
        | inr last ↦
            let bottom : leb (num_rows - 1) y ≡ true = ground arith in
            rw (full, last, bottom)
              (set_xy-Touched 79 c (scroll_up c.mem) 0 (add32 y 1 - 1) (omega arith) (ground arith)
                (scroll_up-cell c.mem).2)
      ]
    ]

finish-Touched :
    {c c' : Console}
    → Touched num_cols c c'
    → Touched (num_cols - 1) c (update_cursor (wrap_line c'))
finish-Touched p = update_cursor-Touched (Touched-trans p (wrap_line-Touched _ p.column p.row))

pub Touched-refl : (c : Console) → InScreen c → Touched (num_cols - 1) c c
Touched-refl c s = record {
  column = omega (arith, s.column);
  row = s.row;
  same_visible = refl;
  terminal = refl;
  others = λ i ne. refl;
  outside = λ a out. refl;
  keys = (refl, refl, refl, refl, refl);
}

-- `putc` of any byte, with the cursor on the screen: it leaves the cursor on the screen, and
-- changes nothing but that cursor, the registers that show it and the 4000 bytes of the screen.
pub putc-Touched : (c : Console) (ch : ℕ) → InScreen c → Touched (num_cols - 1) c (putc c ch)
unfolding putc
putc-Touched c ch s = elim (Bool-cases (ch == 0)) [
  | inl nul ↦ rw nul (Touched-refl c s)
  | inr some_char ↦ elim (Bool-cases (ch == 10 || ch == 13)) [
    | inl newline ↦ rw (some_char, newline) (finish-Touched (put_newline-Touched c s))
    | inr in_line ↦ elim (Bool-cases (ch == 8)) [
      | inr printed ↦ rw (some_char, in_line, printed) (finish-Touched (put_char-Touched c s ch))
      | inl back ↦ elim (Bool-cases ((visible c).screen_x == 0)) [
        | inr right ↦
            rw (some_char, in_line, back, right)
              (finish-Touched (put_backspace-Touched c _ _ (omega (arith, s.column)) s.row))
        | inl left ↦ elim (Bool-cases ((visible c).screen_y == 0)) [
          | inl top ↦ rw (some_char, in_line, back, left, top) (Touched-refl c s)
          | inr below ↦
              rw (some_char, in_line, back, left, below)
                (finish-Touched (put_backspace-Touched c _ _ (omega arith) (omega (arith, s.row))))
        ]
      ]
    ]
  ]
]

pub Touched-InScreen : {c c' : Console} → Touched (num_cols - 1) c c' → InScreen c'
Touched-InScreen p = record { column = omega (arith, p.column); row = p.row }
