-- ===== src/Console/Write.antt =====
-- What appears on the screen: `putc` of student-distrib/lib.c for a printed character and a
-- backspace, and `terminal_write` of student-distrib/terminal.c.
use ece391_linux_os.Base.{
  ℕ, zero, suc, ◌+◌, ◌-◌, ◌*◌, ◌<◌, ◌≤◌, ◌≡◌, ◌≢◌, refl, ◌∙◌, sym, arith, Bytes, ◌==◌, ◌||◌, true,
  false, ℤ, minus_one, is_neg, to_nat, inl, inr, Bool-cases,
}
use ece391_linux_os.Console.{
  Console, num_cols, num_rows, attrib, vid_mem, visible, put_cell, update_cursor, wrap_line,
  put_char, put_backspace, putc, put_bytes, terminal_write,
}
use ece391_linux_os.Console.Screen.{
  InScreen, Touched, Touched-trans, Touched-refl, Touched-InScreen, putc-Touched,
}

-- The index of the cell at the cursor, which the registers of the VGA controller are to hold.
abbrev pub position : Console → ℕ
position c = num_cols * (visible c).screen_y + (visible c).screen_x

abbrev pub shown : Console → ℕ
shown c = 256 * c.cursor_high + c.cursor_low

-- A byte that `putc` prints.
abbrev pub Printed : ℕ → Type 0
Printed ch = (ch ≢ 0) × (ch ≢ 8) × (ch ≢ 10) × (ch ≢ 13)

-- Wrapping at the end of a line, but for the last, moves the cursor to the same cell.
wrap_line-position :
    (c : Console)
    → (visible c).screen_x ≤ num_cols
    → position c < num_cols * num_rows
    → (position (wrap_line c) ≡ position c) × ((wrap_line c).mem ≡ c.mem)
unfolding wrap_line
wrap_line-position c hx room = (ground arith, ground arith)

update_cursor-shown :
    (c : Console)
    → position c < num_cols * num_rows
    → (shown (update_cursor c) ≡ position c)
      × (position (update_cursor c) ≡ position c)
      × ((update_cursor c).mem ≡ c.mem)
unfolding update_cursor
update_cursor-shown c room = (omega arith, refl, refl)

put_char-position :
    (c : Console) (ch : ℕ)
    → InScreen c
    → (position (put_char c ch) ≡ position c + 1)
      × ((visible (put_char c ch)).screen_x ≤ num_cols)
      × ((put_char c ch).mem ≡ put_cell c.mem (position c) ch)
unfolding put_char
put_char-position c ch s = (ground (arith, s.column), ground (arith, s.column), refl)

putc-Printed :
    (c : Console) (ch : ℕ) → Printed ch → putc c ch ≡ update_cursor (wrap_line (put_char c ch))
unfolding putc
putc-Printed c ch p = ground arith

-- What a backspace to column `x` of row `y` leaves.
abbrev Erased : Console → Console → Type 0
Erased c c' =
    (position c' + 1 ≡ position c)
    × (shown c' ≡ position c')
    × (c'.mem ≡ put_cell c.mem (position c') b' ')

put_backspace-position :
    (c : Console) (x y : ℕ)
    → x < num_cols
    → y < num_rows
    → (position (put_backspace c x y) ≡ num_cols * y + x)
      × ((visible (put_backspace c x y)).screen_x ≡ x)
      × ((put_backspace c x y).mem ≡ put_cell c.mem (num_cols * y + x) b' ')
unfolding put_backspace
put_backspace-position c x y hx hy = (ground arith, ground arith, refl)

put_backspace-Erased :
    (c : Console) (x y : ℕ)
    → x < num_cols
    → y < num_rows
    → num_cols * y + x + 1 ≡ position c
    → Erased c (update_cursor (wrap_line (put_backspace c x y)))
put_backspace-Erased c x y hx hy e =
    let (moved, at, wrote) = put_backspace-position c x y hx hy in
    let (wrapped, kept) = wrap_line-position (put_backspace c x y) (omega arith) (omega arith) in
    let (cursor, still, same) =
      update_cursor-shown (wrap_line (put_backspace c x y)) (omega arith) in
    let there : position (update_cursor (wrap_line (put_backspace c x y))) ≡ num_cols * y + x =
      still ∙ wrapped ∙ moved in
    (omega arith, cursor ∙ sym still, rw there (same ∙ kept ∙ wrote))

putc-Erased : (c : Console) → InScreen c → 0 < position c → Erased c (putc c 8)
unfolding putc
putc-Erased c s room =
    let x : ℕ = (visible c).screen_x in
    let y : ℕ = (visible c).screen_y in
    elim (Bool-cases (x == 0)) [
      | inr right ↦
          rw right (put_backspace-Erased c (x - 1) y (omega (arith, s.column)) s.row (ground arith))
      | inl left ↦
          let below : (y == 0) ≡ false = ground arith in
          rw (left, below)
            (put_backspace-Erased c (num_cols - 1) (y - 1) (omega arith) (omega (arith, s.row))
              (ground arith))
    ]

-- `putc` of a printed character with the cursor on the screen, but not in the last cell: the
-- character appears in the cell at the cursor, no other memory changes, and the cursor, on the
-- screen and in the controller's registers, is at the next cell.
pub putc-position :
    (c : Console) (ch : ℕ)
    → InScreen c
    → Printed ch
    → position c + 1 < num_cols * num_rows
    → let c' = putc c ch in
      (position c' ≡ position c + 1)
      × (shown c' ≡ position c')
      × (c'.mem (vid_mem + 2 * position c) ≡ ch)
      × (c'.mem (vid_mem + 2 * position c + 1) ≡ attrib)
      × ((a : ℕ)
          → a ≢ vid_mem + 2 * position c
          → a ≢ vid_mem + 2 * position c + 1
          → c'.mem a ≡ c.mem a)
putc-position c ch s p room =
    let (moved, line, wrote) = put_char-position c ch s in
    let (wrapped, kept) = wrap_line-position (put_char c ch) line (omega arith) in
    let (cursor, still, same) = update_cursor-shown (wrap_line (put_char c ch)) (omega arith) in
    let mem : (update_cursor (wrap_line (put_char c ch))).mem ≡ put_cell c.mem (position c) ch =
      same ∙ kept ∙ wrote in
    rw (putc-Printed c ch p) (
      still ∙ wrapped ∙ moved,
      cursor ∙ sym still,
      rw mem (ground arith),
      rw mem (ground arith),
      λ a ne ne'. rw mem (ground arith),
    )

-- A printed character and then a backspace, with the cursor on the screen but not in the last cell:
-- the cursor is back where it was, on the screen and in the controller's registers, the cell at it is
-- blank, and no other memory has changed.
pub putc-putc_backspace :
    (c : Console) (ch : ℕ)
    → InScreen c
    → Printed ch
    → position c + 1 < num_cols * num_rows
    → let c' = putc (putc c ch) 8 in
      (position c' ≡ position c)
      × (shown c' ≡ position c)
      × (c'.mem (vid_mem + 2 * position c) ≡ b' ')
      × (c'.mem (vid_mem + 2 * position c + 1) ≡ attrib)
      × ((a : ℕ)
          → a ≢ vid_mem + 2 * position c
          → a ≢ vid_mem + 2 * position c + 1
          → c'.mem a ≡ c.mem a)
putc-putc_backspace c ch s p room =
    let (moved, registers, char, colour, others) = putc-position c ch s p room in
    let s' : InScreen (putc c ch) = Touched-InScreen (putc-Touched c ch s) in
    let (back, cursor, wrote) = putc-Erased (putc c ch) s' (omega arith) in
    let there : position (putc (putc c ch) 8) ≡ position c = omega arith in
    let mem : (putc (putc c ch) 8).mem ≡ put_cell (putc c ch).mem (position c) b' ' =
      rw there at wrote in
    (
      there,
      cursor ∙ there,
      rw mem (ground arith),
      rw mem (ground arith),
      λ a ne ne'. rw mem (ground (arith, others a ne ne')),
    )

pub put_bytes-Touched :
    (n : ℕ) (c : Console) (buf : Bytes) (i : ℕ)
    → InScreen c
    → Touched (num_cols - 1) c (put_bytes n c buf i)
unfolding put_bytes
put_bytes-Touched zero c buf i s = Touched-refl c s
put_bytes-Touched (suc n) c buf i s =
    let first = putc-Touched c (buf i) s in
    Touched-trans first (put_bytes-Touched n (putc c (buf i)) buf (i + 1) (Touched-InScreen first))

-- `terminal_write`, with the cursor on the screen: it fails with -1 exactly for a NULL buffer or a
-- negative count, and then changes nothing; else it returns the count. Whatever the bytes are, it
-- leaves the cursor on the screen and changes nothing but the cursor and the screen.
pub terminal_write-Touched :
    (c : Console) (m : Bytes) (buf : ℕ) (nbytes : ℤ)
    → InScreen c
    → ((buf == 0 || is_neg nbytes) ≡ true → terminal_write c m buf nbytes ≡ (minus_one, c))
      × ((buf == 0 || is_neg nbytes) ≡ false → (terminal_write c m buf nbytes).0 ≡ nbytes)
      × Touched (num_cols - 1) c (terminal_write c m buf nbytes).1
unfolding terminal_write
terminal_write-Touched c m buf nbytes s = (
  λ bad. rw bad,
  λ good. rw good,
  elim (Bool-cases (buf == 0 || is_neg nbytes)) [
    | inl bad ↦ rw bad (Touched-refl c s)
    | inr good ↦ rw good (put_bytes-Touched (to_nat nbytes) c m buf s)
  ],
)
