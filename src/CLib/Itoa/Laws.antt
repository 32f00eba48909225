-- ===== src/CLib/Itoa/Laws.antt =====
-- `itoa` of student-distrib/lib.c writes the numeral of its value.
use ece391_linux_os.Base.{
  ℕ, zero, suc, ◌+◌, ◌-◌, ◌*◌, ◌/◌, ◌%◌, ◌<◌, ◌≤◌, ◌≡◌, ◌≢◌, ◌⊎◌, ◌^◌, refl, ◌∙◌, ap, arith, some,
  Bytes, update, update_self, update_ne, ltb, leb, ◌&&◌, if◌then◌else◌, false, inl, inr, Bool-cases,
}
use Prim.Native.Nat.{max}
use native.Mathlib.Decide.{ℕ_discrete, dec_lt}
use native.Mathlib.Nat.{pow-suc}
use ece391_linux_os.CLib.Str.Laws.{IsString, strlen-IsString}
use ece391_linux_os.CLib.Itoa.{strrev_loop, strrev, lookup, digits_loop, itoa}

-- `s` with the part from `beg` to `end` turned round
abbrev turned : Bytes → ℕ → ℕ → Bytes
turned s beg end i = if leb beg i && leb i end then s (beg + end - i) else s i

-- Turning round what lies between the ends, after a swap of the ends.
swap :
    (s : Bytes) (beg end i : ℕ)
    → beg < end
    → turned (update (update s end (s beg)) beg (s end)) (beg + 1) (end - 1) i ≡ turned s beg end i
swap s beg end i h = elim (dec_lt beg i) [
  | no low ↦ elim (ℕ_discrete i beg) [
    | yes e ↦ let j : beg + end - i ≡ end = omega arith in ground (arith, ap s j)
    | no ne ↦ ground arith
  ]
  | yes above ↦ elim (dec_lt i end) [
    | yes below ↦
        let j : beg + 1 + (end - 1) - i ≡ beg + end - i = omega arith in ground (arith, ap s j)
    | no high ↦ elim (ℕ_discrete i end) [
      | yes e ↦ let j : beg + end - i ≡ beg = omega arith in ground (arith, ap s j)
      | no ne ↦ ground arith
    ]
  ]
]

from_zero :
    (s : Bytes) (n i : ℕ) → turned s 0 n i ≡ (if ltb i (suc n) then s (suc n - 1 - i) else s i)
from_zero s n i = let j : 0 + n - i ≡ suc n - 1 - i = omega arith in ground (arith, ap s j)

strrev_loop-turned :
    (rounds : ℕ) (s : Bytes) (beg end i : ℕ)
    → end < beg + rounds
    → strrev_loop rounds s beg end i ≡ turned s beg end i
unfolding strrev_loop
strrev_loop-turned zero s beg end i h = ground arith
strrev_loop-turned (suc rounds) s beg end i h = elim (Bool-cases (ltb beg end)) [
  | inr met ↦ rw met (
      let mid : (beg + end - i ≡ i) ⊎ ((leb beg i && leb i end) ≡ false) = ground arith in
      elim mid [ inl e ↦ ground (arith, ap s e) | inr out ↦ ground arith ])
  | inl apart ↦ rw apart (
      strrev_loop-turned rounds (update (update s end (s beg)) beg (s end)) (beg + 1) (end - 1) i
        (ground arith)
      ∙ swap s beg end i (ground arith))
]

-- `strrev` of a string turns its characters round in place, and changes nothing else.
pub strrev-IsString :
    (fuel : ℕ) (s : Bytes) (n : ℕ)
    → IsString s n
    → n < fuel
    → (r : Bytes) × (strrev fuel s ≡ some r)
      × ((i : ℕ) → r i ≡ (if ltb i n then s (n - 1 - i) else s i))
unfolding strrev
strrev-IsString fuel s zero h lt =
    (s, ground (arith, (strlen-IsString fuel s 0).0 h lt), λ i. ground arith)
strrev-IsString fuel s (suc n) h lt = (
  strrev_loop (suc n) s 0 n,
  ground (arith, (strlen-IsString fuel s (suc n)).0 h lt),
  λ i. strrev_loop-turned (suc n) s 0 n i (omega arith) ∙ from_zero s n i,
)

-- The value of a digit of `lookup`, and of a numeral of `n` digits, the highest place first.
abbrev pub digit_value : ℕ → ℕ
digit_value c = if ltb c b'A' then c - b'0' else c - b'A' + 10

abbrev pub numeral_value : ℕ → Bytes → ℕ → ℕ
numeral_value radix s zero = 0
numeral_value radix s (suc n) = numeral_value radix s n * radix + digit_value (s n)

-- The same of the digits from `from` on, the lowest place first.
abbrev low_value : ℕ → Bytes → ℕ → ℕ → ℕ
low_value radix b from zero = 0
low_value radix b from (suc n) = low_value radix b (from + 1) n * radix + digit_value (b from)

digit_value-lookup : (d : ℕ) → d < 36 → (digit_value (lookup d) ≡ d) × (lookup d ≢ 0)
unfolding lookup
digit_value-lookup d h = (ground arith, λ e. ground arith)

numeral_value-low_value :
    (radix : ℕ) (r b : Bytes) (n from : ℕ)
    → ((i : ℕ) → i < n → r i ≡ b (from + (n - 1 - i)))
    → numeral_value radix r n ≡ low_value radix b from n
numeral_value-low_value radix r b zero from h = refl
numeral_value-low_value radix r b (suc n) from h =
    let last : r n ≡ b from = h n (omega arith) ∙ ap b (omega arith) in
    rw (
      last,
      numeral_value-low_value radix r b n (from + 1)
          (λ i lt. h i (omega arith) ∙ ap b (omega arith)),
    )

-- What the loop over the places has written when it ends: `n` digits from `at` on.
record Places (radix v at : ℕ) (buf b : Bytes) (n : ℕ) : Type 0 where
  value : low_value radix b at n ≡ v
  chars : (i : ℕ) → at ≤ i → i < at + n → b i ≢ 0
  before : (i : ℕ) → i < at → b i ≡ buf i

place_bound : (q radix v b : ℕ) → q * radix ≤ v → 2 ≤ radix → v < 2 * b → q < b
place_bound q radix v b h lo small = let le : q * 2 ≤ q * radix = grind arith in omega arith

place_split : (v radix : ℕ) → 2 ≤ radix → (v / radix * radix + v % radix ≡ v) × (v % radix < radix)
place_split v radix lo = (grind arith, omega arith)

digits_loop-Places :
    (p fuel radix v at : ℕ) (buf : Bytes)
    → 2 ≤ radix
    → radix ≤ 36
    → v < 2 ^ p
    → p < fuel
    → (b : Bytes) × (n : ℕ) × (digits_loop fuel v buf at radix ≡ some (b, at + n))
      × (n ≤ p)
      × Places radix v at buf b n
unfolding digits_loop
digits_loop-Places p zero radix v at buf lo hi small h = absurd (omega arith)
digits_loop-Places p (suc fuel) radix zero at buf lo hi small h = (
  buf,
  0,
  ground arith,
  omega arith,
  record { value = refl; chars = λ i a b. absurd (omega arith); before = λ i lt. refl },
)
digits_loop-Places zero (suc fuel) radix (suc v) at buf lo hi small h = absurd (omega arith)
digits_loop-Places (suc p) (suc fuel) radix (suc v) at buf lo hi small h =
    let w : ℕ = suc v in
    let (split, low) = place_split w radix lo in
    let (digit, nonzero) = digit_value-lookup (w % radix) (omega arith) in
    let (b, n, run, short, places) =
      digits_loop-Places p fuel radix (w / radix) (at + 1) (update buf at (lookup (w % radix))) lo
        hi (place_bound (w / radix) radix w (2 ^ p) (omega arith) lo (omega (arith, pow-suc 2 p)))
        (omega arith) in
    let here : b at ≡ lookup (w % radix) =
      places.before at (omega arith) ∙ update_self buf at (lookup (w % radix)) in
    (
      b,
      suc n,
      ground (arith, run),
      omega arith,
      record {
        value = rw (places.value, here, digit) split;
        chars = λ i ge lt. elim (ℕ_discrete i at) [
          | yes e ↦ rw (e, here) nonzero
          | no ne ↦ places.chars i (omega arith) (omega arith)
        ];
        before = λ i lt. places.before i (omega arith) ∙ update_ne buf at _ i (omega arith);
      },
    )

low_value_pos : (radix : ℕ) (b : Bytes) (n v : ℕ) → low_value radix b 0 n ≡ suc v → 0 < n
low_value_pos radix b zero v h = absurd (omega arith)
low_value_pos radix b (suc n) v h = omega arith

-- `itoa` in a radix from 2 to 36 of a number below 2 ^ p, with fuel for more than `p` places: it
-- returns a string of at most `p` characters, and of one for the number 0, whose value as a numeral
-- in that radix is the number. So a `uint32_t` takes at most 32 characters and the zero byte.
pub itoa-numeral_value :
    (fuel p value radix : ℕ) (buf : Bytes)
    → 2 ≤ radix
    → radix ≤ 36
    → value < 2 ^ p
    → p < fuel
    → (r : Bytes) × (n : ℕ) × (itoa fuel value buf radix ≡ some r)
      × IsString r n
      × (0 < n)
      × (n ≤ max p 1)
      × (numeral_value radix r n ≡ value)
unfolding itoa
itoa-numeral_value fuel p zero radix buf lo hi small h = (
  update (update buf 0 b'0') 1 0,
  1,
  ground arith,
  record { chars = λ i lt. ground arith; stop = refl },
  omega arith,
  omega arith,
  omega arith,
)
itoa-numeral_value fuel p (suc v) radix buf lo hi small h =
    let (b, n, run, short, places) = digits_loop-Places p fuel radix (suc v) 0 buf lo hi small h in
    let e : 0 + n ≡ n = omega arith in
    let ended : IsString (update b n 0) n = record {
      chars =
          λ i lt. rw (update_ne b n 0 i (omega arith)) (places.chars i (omega arith) (omega arith));
      stop = update_self b n 0;
    } in
    let (r, reversed, is) = strrev-IsString fuel (update b n 0) n ended (omega arith) in
    let turned_digit : (i : ℕ) → i < n → r i ≡ b (n - 1 - i) = λ i lt. is i ∙ ground arith in
    (
      r,
      n,
      ground (arith, rw e at run, reversed),
      record {
        chars = λ i lt. rw (turned_digit i lt) (places.chars _ (omega arith) (omega arith));
        stop = is n ∙ ground arith;
      },
      low_value_pos radix b n v places.value,
      omega arith,
      numeral_value-low_value radix r b n 0 (λ i lt. turned_digit i lt ∙ ap b (omega arith))
          ∙ places.value,
    )
