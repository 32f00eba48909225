-- ===== src/Console/Rounds.antt =====
-- The loop of `terminal_write` in student-distrib/terminal.c, by the characters that it prints.
use native.Mathlib.Numerals.{unary_clauses}
use ece391_linux_os.Base.{ℕ, zero, suc, ◌+◌, ◌<◌, ◌≡◌, ◌≢◌, refl, ◌∙◌, ap, arith, Bytes, pos}
use ece391_linux_os.Console.{Console, putc, put_bytes, terminal_write}

-- Characters are printed by what they are, wherever they stand.
pub put_bytes_ext :
    (n : ℕ) (c : Console) (b b' : Bytes) (j j' : ℕ)
    → ((i : ℕ) → i < n → b (j + i) ≡ b' (j' + i))
    → put_bytes n c b j ≡ put_bytes n c b' j'
unfolding put_bytes
put_bytes_ext zero c b b' j j' h = refl
put_bytes_ext (suc n) c b b' j j' h =
    let first : b j ≡ b' j' = simp unary_clauses at (h 0 (omega arith)) in
    ap (λ (ch : ℕ). put_bytes n (putc c ch) b (j + 1)) first
    ∙ put_bytes_ext n (putc c (b' j')) b b' (j + 1) (j' + 1) (λ i lt.
      let e : j + 1 + i ≡ j + (1 + i) = omega arith in
      let e' : j' + (1 + i) ≡ j' + 1 + i = omega arith in
      ap b e ∙ h (1 + i) (omega arith) ∙ ap b' e')

-- What is printed in two parts is printed at once.
pub put_bytes-append :
    (n l : ℕ) (c : Console) (b : Bytes) (j : ℕ)
    → put_bytes l (put_bytes n c b j) b (j + n) ≡ put_bytes (n + l) c b j
unfolding put_bytes
put_bytes-append zero l c b j =
    let e : j + 0 ≡ j = omega arith in let e' : 0 + l ≡ l = omega arith in rw (e, e') refl
put_bytes-append (suc n) l c b j =
    let e : j + suc n ≡ j + 1 + n = omega arith in
    let e' : suc n + l ≡ suc (n + l) = omega arith in
    rw (e, e') (put_bytes-append n l (putc c (b j)) b (j + 1))

-- No characters.
pub put_bytes-none : (n : ℕ) (c : Console) (b : Bytes) (j : ℕ) → n ≡ 0 → put_bytes n c b j ≡ c
unfolding put_bytes
put_bytes-none n c b j e = rw e refl

-- One character.
pub put_bytes-putc : (c : Console) (b : Bytes) (j : ℕ) → put_bytes 1 c b j ≡ putc c (b j)
unfolding put_bytes
put_bytes-putc c b j = refl

pub terminal_write-put_bytes :
    (c : Console) (m : Bytes) (buf n : ℕ)
    → buf ≢ 0
    → terminal_write c m buf (pos n) ≡ (pos n, put_bytes n c m buf)
unfolding terminal_write
terminal_write-put_bytes c m buf n there = ground (arith, there)
