-- ===== src/CLib/Str/Ends.antt =====
-- A region with a zero byte in it holds a string.
use ece391_linux_os.Base.{
  ℕ, zero, suc, ◌+◌, ◌<◌, ◌≤◌, ◌≡◌, ◌≢◌, ap, sym, ◌∙◌, arith, Bytes, ◌==◌, Bool-cases, inl, inr,
  ==→eq, ==→ne,
}
use ece391_linux_os.CLib.Str.Laws.{IsString}
use native.Mathlib.Decide.{ℕ_discrete}

first_zero :
    (rounds : ℕ) (s : Bytes) (i : ℕ)
    → ((j : ℕ) → j < i → s j ≢ 0)
    → s (i + rounds) ≡ 0
    → (n : ℕ) × (n ≤ i + rounds) × IsString s n
first_zero zero s i seen stop =
    (i, omega arith, record { chars = seen; stop = ap s (omega arith) ∙ stop })
first_zero (suc rounds) s i seen stop = elim (Bool-cases (s i == 0)) [
  | inl here ↦ (i, omega arith, record { chars = seen; stop = ==→eq _ _ here })
  | inr more ↦
      let (n, le, is) =
        first_zero rounds s (i + 1)
          (λ j lt. elim (ℕ_discrete j i) [
            | yes e ↦ λ z. ==→ne _ _ more (ap s (sym e) ∙ z)
            | no ne ↦ seen j (omega arith)
          ])
          (ap s (omega arith) ∙ stop) in
      (n, omega arith, is)
]

-- A string ends at the first zero byte.
pub zero-IsString : (s : Bytes) (b : ℕ) → s b ≡ 0 → (n : ℕ) × (n ≤ b) × IsString s n
zero-IsString s b e =
    let (n, le, is) = first_zero b s 0 (λ j lt. absurd (omega arith)) (ap s (omega arith) ∙ e) in
    (n, omega arith, is)
