-- ===== src/Console/Video.antt =====
-- The text screen: what `clear` and `scroll_up` of student-distrib leave in each cell.
use ece391_linux_os.Base.{
  ℕ, zero, suc, ◌+◌, ◌-◌, ◌*◌, ◌%◌, ◌<◌, ◌≡◌, ◌∙◌, ap, arith, Bytes, ◌==◌, if◌then◌else◌, false,
}
use ece391_linux_os.CLib.Mem.Laws.{within, memmove-copied}
use ece391_linux_os.Console.{
  num_cols, num_rows, attrib, vid_mem, put_cell, blank_cells, clear, scroll_up,
}

blank_cells_lem :
    (n : ℕ) (m : Bytes) (i a : ℕ)
    → blank_cells n m i a
      ≡ (if within (vid_mem + 2 * i) (2 * n) a then (if a % 2 == 0 then b' ' else attrib) else m a)
unfolding blank_cells
blank_cells_lem zero m i a = ground arith
blank_cells_lem (suc n) m i a = ground (arith, blank_cells_lem n (put_cell m i b' ') (i + 1) a)

-- Byte `k` of the cell in row `y` and column `x`.
abbrev pub cell : Bytes → ℕ → ℕ → ℕ → ℕ
cell m y x k = m (vid_mem + 2 * (num_cols * y + x) + k)

-- `clear` leaves a blank in each cell of the screen, and changes no other memory.
pub clear-cell :
    (m : Bytes)
    → ((y x : ℕ)
        → y < num_rows
        → x < num_cols
        → (cell (clear m) y x 0 ≡ b' ') × (cell (clear m) y x 1 ≡ attrib))
      × ((a : ℕ) → within vid_mem (2 * (num_rows * num_cols)) a ≡ false → clear m a ≡ m a)
unfolding clear
clear-cell m = (
  λ y x hy hx.
      (blank_cells_lem 2000 m 0 _ ∙ ground arith, blank_cells_lem 2000 m 0 _ ∙ ground arith),
  λ a out. blank_cells_lem 2000 m 0 a ∙ ground arith,
)

-- `scroll_up` moves each row but the first up by one, leaves the last row blank, and changes no
-- other memory.
pub scroll_up-cell :
    (m : Bytes)
    → ((y x k : ℕ)
        → y + 1 < num_rows
        → x < num_cols
        → k < 2
        → cell (scroll_up m) y x k ≡ cell m (y + 1) x k)
      × ((x : ℕ)
          → x < num_cols
          → (cell (scroll_up m) (num_rows - 1) x 0 ≡ b' ')
            × (cell (scroll_up m) (num_rows - 1) x 1 ≡ attrib))
      × ((a : ℕ) → within vid_mem (2 * (num_rows * num_cols)) a ≡ false → scroll_up m a ≡ m a)
unfolding scroll_up
scroll_up-cell m = (
  λ y x k hy hx hk.
      let a : ℕ = vid_mem + 2 * (num_cols * y + x) + k in
      let from : vid_mem + 160 + (a - vid_mem) ≡ vid_mem + 2 * (num_cols * (y + 1) + x) + k =
        omega arith in
      blank_cells_lem 80 _ 1920 a
      ∙ ground (arith, memmove-copied m vid_mem (vid_mem + 160) 3840 a, ap m from),
  λ x hx. (blank_cells_lem 80 _ 1920 _ ∙ ground arith, blank_cells_lem 80 _ 1920 _ ∙ ground arith),
  λ a out.
      blank_cells_lem 80 _ 1920 a ∙ ground (arith, memmove-copied m vid_mem (vid_mem + 160) 3840 a),
)
