-- ===== src/Rtc/Rate.antt =====
-- Which frequencies `rtc_write` of student-distrib/rtc.c accepts, and the rate that it programs.
use ece391_linux_os.Base.{
  ℕ, zero, suc, ◌+◌, ◌-◌, ◌*◌, ◌/◌, ◌%◌, ◌^◌, ◌<◌, ◌≤◌, ◌≡◌, ◌≢◌, ◌⊎◌, inl, inr, refl, ◌∙◌, ap,
  arith, ◌++◌, [], Bool, true, false, Option, none, some, Bytes, ◌==◌, leb, ◌&&◌, ◌||◌,
  if◌then◌else◌, bit_and, bit_or, ℤ, pos, minus_one, nat_eq, Bool-cases, ==→eq, ==_iff, ◌∷◌,
}
use ece391_linux_os.Base.Bits.{all_below, all_below_sound}
use ece391_linux_os.Rtc.{
  two_hz_freq, outb, inb, initialize_rtc, rtc_open, set_rate, pow_loop, rtc_write,
}

-- The number of the two bytes at `buf`, which is what `rtc_write` takes for the frequency.
abbrev pub requested : Bytes → ℕ → ℕ
requested m buf = m buf + 256 * m (buf + 1)

-- The frequency is a power of two from 1 to 1024.
abbrev pub Accepted : ℕ → Type 0
Accepted freq = (k : ℕ) × (k ≤ 10) × (freq ≡ 2 ^ k)

any_below : ℕ → (ℕ → Bool) → Bool
any_below zero p = false
any_below (suc n) p = p n || any_below n p

any_below_sound : (n : ℕ) (p : ℕ → Bool) → any_below n p ≡ true → (k : ℕ) × (k < n) × (p k ≡ true)
unfolding any_below
any_below_sound zero p h = cc
any_below_sound (suc n) p h = elim (Bool-cases (p n)) [
  | inl yes_n ↦ (n, omega arith, yes_n)
  | inr no_n ↦ let (k, lt, e) = any_below_sound n p (ground arith) in (k, omega arith, e)
]

abbrev power_test : ℕ → Bool
power_test freq =
    if freq == 0
    then true
    else if bit_and freq (freq - 1) == 0
    then any_below 11 (λ k. freq == 2 ^ k)
    else true

power_table : all_below 1025 power_test ≡ true
unfolding all_below any_below
power_table = refl

power_of_two : (freq : ℕ) → freq ≤ 1024 → freq ≢ 0 → bit_and freq (freq - 1) ≡ 0 → Accepted freq
power_of_two freq le ne e =
    let found : any_below 11 (λ k. freq == 2 ^ k) ≡ true =
      ground (arith, all_below_sound 1025 power_test freq power_table (omega arith)) in
    let (k, lt, is) = any_below_sound 11 (λ k. freq == 2 ^ k) found in
    (k, omega arith, ==→eq _ _ is)

abbrev opt_eq : Option ℕ → ℕ → Bool
opt_eq none k = false
opt_eq (some n) k = n == k

abbrev accept_test : ℕ → Bool
accept_test k =
    (bit_and (2 ^ k) (2 ^ k - 1) == 0)
    && (opt_eq (pow_loop 16 (2 ^ k) 0) k
        && ((if 2 ^ k == 0 then false else true) && leb (2 ^ k) 1024))

accept_table : all_below 11 accept_test ≡ true
unfolding all_below pow_loop
accept_table = refl

opt_eq-some : (o : Option ℕ) (k : ℕ) → opt_eq o k ≡ true → o ≡ some k
opt_eq-some o k h = ground arith

-- What the table gives for one power.
abbrev Takes : ℕ → Type 0
Takes k =
    (bit_and (2 ^ k) (2 ^ k - 1) ≡ 0)
    × (pow_loop 16 (2 ^ k) 0 ≡ some k)
    × (2 ^ k ≢ 0)
    × (2 ^ k ≤ 1024)

takes : (k : ℕ) → k ≤ 10 → Takes k
takes k h =
    let row = all_below_sound 11 accept_test k accept_table (omega arith) in
    (ground arith, opt_eq-some _ k (ground arith), ground arith, ground arith)

==_false : (a b : ℕ) → a ≢ b → (a == b) ≡ false
==_false a b h = ground arith

le→leb : (a b : ℕ) → a ≤ b → leb a b ≡ true
le→leb a b h = ground arith

rejected :
    (m : Bytes) (buf prev : ℕ) (nbytes : ℤ)
    → (nat_eq nbytes 4 ≡ false) ⊎ ¬ Accepted (requested m buf)
    → rtc_write m buf nbytes prev ≡ some (minus_one, [])
unfolding rtc_write
rejected m buf prev nbytes bad =
    let freq : ℕ = requested m buf in
    elim (Bool-cases (freq == 0)) [
      | inl z ↦ rw z
      | inr nz ↦ elim (Bool-cases (bit_and freq (freq - 1) == 0)) [
        | inr many ↦ rw (nz, many)
        | inl one ↦ elim (Bool-cases (nat_eq nbytes 4 && leb freq 1024)) [
          | inr refused ↦ rw (nz, one, refused)
          | inl ok ↦ absurd (elim bad [
            | inl other ↦ ground arith
            | inr not_power ↦
                not_power (power_of_two freq (ground arith) (ground arith) (==→eq _ _ one))
          ])
        ]
      ]
    ]

pub rtc_write-Accepted :
    (m : Bytes) (buf prev : ℕ) (nbytes : ℤ)
    → ((k : ℕ)
        → k ≤ 10
        → requested m buf ≡ 2 ^ k
        → rtc_write m buf (pos 4) prev ≡ some (pos 4, set_rate prev (17 - k)))
      × ((nat_eq nbytes 4 ≡ false) ⊎ ¬ Accepted (requested m buf)
          → rtc_write m buf nbytes prev ≡ some (minus_one, []))
unfolding rtc_write
rtc_write-Accepted m buf prev nbytes = (
  λ k le e.
      let (power, pow, nonzero, small) = takes k le in
      let rate : 15 - k + 2 ≡ 17 - k = omega arith in
      rw e (
        rw (
          (==_false (2 ^ k) 0 nonzero),
          (==_iff _ _).1 power,
          le→leb (2 ^ k) 1024 small,
          pow,
          rate,
        )),
  λ bad. rejected m buf prev nbytes bad,
)

-- The documented frequency of the clock at a rate from 1 to 15 in the low half of register A.
abbrev pub programmed : ℕ → ℕ
programmed a = 2 ^ 15 / 2 ^ (a % 16 - 1)

-- The value for register A.
abbrev pub register_a : ℕ → ℕ → ℕ
register_a prev rate = bit_or (bit_and prev 0xf0) rate

rate_table :
    all_below 256 (λ prev.
      all_below 9 (λ j. 2 * programmed (register_a prev (15 - j)) == 2 ^ (j + 2))
      && (register_a prev 15 % 16 == 15))
    ≡ true
unfolding all_below
rate_table = refl

rate_lem :
    (prev j : ℕ)
    → prev < 256
    → j < 9
    → (2 * programmed (register_a prev (15 - j)) ≡ 2 ^ (j + 2)) × (register_a prev 15 % 16 ≡ 15)
rate_lem prev j hp hj =
    let row = all_below_sound 256 _ prev rate_table hp in
    let all : all_below 9 (λ j. 2 * programmed (register_a prev (15 - j)) == 2 ^ (j + 2)) ≡ true =
      ground arith in
    (==→eq _ _ (all_below_sound 9 _ j all hj), ==→eq _ _ (ground arith))

-- `rtc_write` of four bytes that ask for 2 ^ k interrupts a second, k from 2 to 10, programs register
-- A, whatever it held, to half as many by the clock's documentation; the rate that `rtc_open`
-- programs is 2 a second.
pub rtc_write-programmed :
    (m : Bytes) (buf prev k : ℕ)
    → prev < 256
    → 2 ≤ k
    → k ≤ 10
    → requested m buf ≡ 2 ^ k
    → (v : ℕ) × (rtc_write m buf (pos 4) prev
        ≡ some (pos 4, outb 0x8a 0x70 ∷ inb 0x71 ∷ outb 0x8a 0x70 ∷ outb v 0x71 ∷ []))
      × (2 * programmed v ≡ 2 ^ k)
      × ((mask : ℕ → ℕ) (prev_b : ℕ)
          → (w : ℕ) × ((rtc_open mask prev_b prev).1
              ≡ (initialize_rtc mask prev_b).0
                ++ (outb 0x8a 0x70 ∷ inb 0x71 ∷ outb 0x8a 0x70 ∷ outb w 0x71 ∷ []))
            × (programmed w ≡ 2))
unfolding rtc_open
rtc_write-programmed m buf prev k hp lo hi e =
    let j : 17 - k ≡ 15 - (k - 2) = omega arith in
    let k2 : k - 2 + 2 ≡ k = omega arith in
    let (half, two) = rate_lem prev (k - 2) hp (omega arith) in
    (
      register_a prev (17 - k),
      (rtc_write-Accepted m buf prev (pos 4)).0 k hi e,
      rw j (half ∙ ap (λ (n : ℕ). 2 ^ n) k2),
      λ mask prev_b. (register_a prev two_hz_freq, refl, rw two),
    )
