-- ===== src/Base/Bits.antt =====
-- Facts about `bit_and` and `bit_or`: tables over small ranges, and the union of disjoint fields.
use Prim.Native.Nat.{
  ℕ, zero, suc, ◌+◌, ◌*◌, ◌/◌, ◌%◌, ◌^◌, ◌≤◌, ◌<◌, max, bit_or, digits, bit_or-bitwise,
}
use mathlib.Core.Path.{◌≡◌, ap, ◌∙◌}
use mathlib.Core.Bool.{Bool, true, false}
use native.Mathlib.Nat.{pow-suc}
use native.Mathlib.Omega.{arith}
use ece391_linux_os.Base.Tests.{if◌then◌else◌}

-- A table: the test at each number below the bound. It is checked by evaluation.
unfoldable pub all_below : ℕ → (ℕ → Bool) → Bool
all_below zero test = true
all_below (suc bound) test =
    let smaller = all_below bound test in if test bound then smaller else false

pub all_below_sound :
    (bound : ℕ) (test : ℕ → Bool) (k : ℕ) → all_below bound test ≡ true → k < bound → test k ≡ true
unfolding all_below
all_below_sound zero test k table below = absurd (omega arith)
all_below_sound (suc bound) test k table below = ground (arith, all_below_sound bound test k)

-- Bit `k` of a number.
abbrev pub bit : ℕ → ℕ → ℕ
bit v k = v / 2 ^ k % 2

double_pow : (q k : ℕ) → q * 2 ^ suc k ≡ 2 * (q * 2 ^ k)
double_pow q k = omega (arith, ap (λ (t : ℕ). q * t) (pow-suc 2 k))

-- A multiple of 2 ^ k, or-ed with a number below 2 ^ k, with any number of rounds that is enough.
disjoint_digits :
    (rounds k high low q : ℕ)
    → high ≤ rounds
    → high ≡ q * 2 ^ k
    → low < 2 ^ k
    → digits (λ t. t) max rounds high low ≡ high + low
disjoint_digits zero k zero low q enough multiple fits = omega arith
disjoint_digits zero k (suc high) low q enough multiple fits = absurd (omega arith)
disjoint_digits (suc rounds) k zero low q enough multiple fits = omega arith
disjoint_digits (suc rounds) zero (suc high) low q enough multiple fits = omega (
  arith,
  disjoint_digits rounds zero (suc high / 2) (low / 2) (suc high / 2) (omega arith) (omega arith)
      (omega arith),
)
disjoint_digits (suc rounds) (suc k) (suc high) low q enough multiple fits =
    let doubled = double_pow q k in
    let halves = pow-suc 2 k in
    omega (
      arith,
      doubled,
      disjoint_digits rounds k (suc high / 2) (low / 2) q (omega arith) (omega (arith, doubled))
          (omega (arith, halves)),
    )

-- A number with `k` zero bits at its end, or-ed with one that fits them.
pub bit_or_aligned : (k a r : ℕ) → a % 2 ^ k ≡ 0 → r < 2 ^ k → bit_or a r ≡ a + r
bit_or_aligned k a r e h =
    let multiple : a ≡ a / 2 ^ k * 2 ^ k = grind arith in
    bit_or-bitwise a r ∙ disjoint_digits a k a r (a / 2 ^ k) (omega arith) multiple h
