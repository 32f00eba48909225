-- ===== src/Console/Processes.antt =====
-- The screen's functions do not touch what the terminals' records say of processes.
use ece391_linux_os.Base.{
  ℕ, zero, suc, ◌+◌, ◌≡◌, refl, ◌∙◌, arith, Bytes, ℤ, ◌==◌, inl, inr, Bool-cases, ◌||◌, is_neg,
  to_nat,
}
use ece391_linux_os.Console.{
  Console, wrap_line, put_newline, put_char, put_backspace, putc, put_bytes, terminal_write,
  terminal_reset, clear_buffer, update_cursor,
}

-- The same terminal is visible, and all run the same processes.
pub record SameProcesses (c c' : Console) : Type 0 where
  pub same_visible : c'.t_visible ≡ c.t_visible
  pub same :
      (i : ℕ)
      → ((c'.t i).running_process ≡ (c.t i).running_process)
        × ((c'.t i).process_ct ≡ (c.t i).process_ct)
        × ((c'.t i).shell_flag ≡ (c.t i).shell_flag)

pub SameProcesses-trans :
    {c c' c'' : Console} → SameProcesses c c' → SameProcesses c' c'' → SameProcesses c c''
SameProcesses-trans h k = record {
  same_visible = k.same_visible ∙ h.same_visible;
  same = λ i. let (r, n, f) = h.same i in let (r', n', f') = k.same i in (r' ∙ r, n' ∙ n, f' ∙ f);
}

pub SameProcesses-refl : (c : Console) → SameProcesses c c
SameProcesses-refl c = record { same_visible = refl; same = λ i. (refl, refl, refl) }

pub putc-SameProcesses : (c : Console) (ch : ℕ) → SameProcesses c (putc c ch)
unfolding putc wrap_line put_newline put_char put_backspace update_cursor
putc-SameProcesses c ch = record { same_visible = ground arith; same = λ i. ground arith }

pub put_bytes-SameProcesses :
    (n : ℕ) (c : Console) (buf : Bytes) (i : ℕ) → SameProcesses c (put_bytes n c buf i)
unfolding put_bytes
put_bytes-SameProcesses zero c buf i = SameProcesses-refl c
put_bytes-SameProcesses (suc n) c buf i =
    SameProcesses-trans (putc-SameProcesses c (buf i))
      (put_bytes-SameProcesses n (putc c (buf i)) buf (i + 1))

pub terminal_reset-SameProcesses : (c : Console) → SameProcesses c (terminal_reset c)
unfolding terminal_reset clear_buffer update_cursor
terminal_reset-SameProcesses c = record { same_visible = refl; same = λ i. ground arith }

pub terminal_write-SameProcesses :
    (c : Console) (m : Bytes) (buf : ℕ) (nbytes : ℤ)
    → SameProcesses c (terminal_write c m buf nbytes).1
unfolding terminal_write
terminal_write-SameProcesses c m buf nbytes = elim (Bool-cases (buf == 0 || is_neg nbytes)) [
  | inl bad ↦ rw (bad, terminal_write) (SameProcesses-refl c)
  | inr ok ↦ rw (ok, terminal_write) (put_bytes-SameProcesses (to_nat nbytes) c m buf)
]
