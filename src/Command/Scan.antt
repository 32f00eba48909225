-- ===== src/Command/Scan.antt =====
-- Where the loops of `execute` over a command line stop.
use ece391_linux_os.Base.{
  ℕ, zero, suc, ◌+◌, ◌-◌, ◌%◌, ◌<◌, ◌≤◌, ◌≡◌, ◌≢◌, ◌⊎◌, inl, inr, ◌∙◌, ap, arith, some, Bytes,
  update, ◌==◌, ltb, leb, ◌&&◌, if◌then◌else◌, Bool-cases,
}
use ece391_linux_os.Command.{skip_spaces, word_end, line_end, copy_chars}

-- The loops stop at the first index that ends them.
pub skip_spaces_lem :
    (rounds : ℕ) (command : Bytes) (i n : ℕ)
    → ((j : ℕ) → i ≤ j → j < n → command j ≡ b' ')
    → command n ≢ b' '
    → i ≤ n
    → n < i + rounds
    → n < 256
    → skip_spaces rounds command i ≡ some n
unfolding skip_spaces
skip_spaces_lem zero command i n spaces stop le lt small = absurd (omega arith)
skip_spaces_lem (suc rounds) command i n spaces stop le lt small = elim (Bool-cases (i == n)) [
  | inl e ↦
      let here : i ≡ n = ground arith in
      let char : command i ≡ command n = ap command here in ground arith
  | inr ne ↦
      let space : command i ≡ b' ' = spaces i (omega arith) (ground arith) in
      let next : (i + 1) % 256 ≡ i + 1 = ground arith in
      ground (
        arith,
        ap (skip_spaces rounds command) next,
        skip_spaces_lem rounds command (i + 1) n (λ j a b. spaces j (omega arith) b) stop
            (ground arith) (omega arith) small,
      )
]

pub word_end_lem :
    (rounds : ℕ) (command : Bytes) (i n : ℕ)
    → ((j : ℕ) → i ≤ j → j < n → (command j ≢ b' ') × (command j ≢ 0) × (command j ≢ 10))
    → (command n ≡ b' ') ⊎ ((command n ≡ 0) ⊎ (command n ≡ 10))
    → i ≤ n
    → n < i + rounds
    → n < 256
    → word_end rounds command i ≡ some n
unfolding word_end
word_end_lem zero command i n chars stop le lt small = absurd (omega arith)
word_end_lem (suc rounds) command i n chars stop le lt small = elim (Bool-cases (i == n)) [
  | inl e ↦
      let here : i ≡ n = ground arith in
      let char : command i ≡ command n = ap command here in ground arith
  | inr ne ↦
      let plain : (command i ≢ b' ') × (command i ≢ 0) × (command i ≢ 10) =
        chars i (omega arith) (ground arith) in
      let next : (i + 1) % 256 ≡ i + 1 = ground arith in
      ground (
        arith,
        ap (word_end rounds command) next,
        word_end_lem rounds command (i + 1) n (λ j a b. chars j (omega arith) b) stop (ground arith)
            (omega arith) small,
      )
]

pub line_end_lem :
    (rounds : ℕ) (command : Bytes) (i n : ℕ)
    → ((j : ℕ) → i ≤ j → j < n → (command j ≢ 0) × (command j ≢ 10))
    → (command n ≡ 0) ⊎ (command n ≡ 10)
    → i ≤ n
    → n < i + rounds
    → n < 256
    → line_end rounds command i ≡ some n
unfolding line_end
line_end_lem zero command i n chars stop le lt small = absurd (omega arith)
line_end_lem (suc rounds) command i n chars stop le lt small = elim (Bool-cases (i == n)) [
  | inl e ↦
      let here : i ≡ n = ground arith in
      let char : command i ≡ command n = ap command here in ground arith
  | inr ne ↦
      let plain : (command i ≢ 0) × (command i ≢ 10) = chars i (omega arith) (ground arith) in
      let next : (i + 1) % 256 ≡ i + 1 = ground arith in
      ground (
        arith,
        ap (line_end rounds command) next,
        line_end_lem rounds command (i + 1) n (λ j a b. chars j (omega arith) b) stop (ground arith)
            (omega arith) small,
      )
]

pub copy_chars_lem :
    (rounds : ℕ) (dest command : Bytes) (from i k : ℕ)
    → from ≤ i
    → copy_chars rounds dest command from i k
      ≡ (if leb i (from + k) && ltb (from + k) (i + rounds) then command (from + k) else dest k)
unfolding copy_chars
copy_chars_lem zero dest command from i k le = ground arith
copy_chars_lem (suc rounds) dest command from i k le =
    copy_chars_lem rounds (update dest (i - from) (command i)) command from (i + 1) k (omega arith)
    ∙ elim (Bool-cases (from + k == i)) [
      | inl e ↦ let at : from + k ≡ i = ground arith in ground (arith, ap command at)
      | inr ne ↦ ground arith
    ]
