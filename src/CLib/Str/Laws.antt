-- ===== src/CLib/Str/Laws.antt =====
-- What the string functions of student-distrib/lib.c return.
use ece391_linux_os.Base.{
  ℕ, zero, suc, ◌+◌, ◌<◌, ◌≤◌, ◌≡◌, ◌≢◌, ◌↔◌, ◌⊎◌, ==_iff, refl, ◌∙◌, ap, sym, arith, Bytes, ltb,
  ◌==◌, if◌then◌else◌, inl, inr, Bool-cases, update, some, pos, ==→eq, ==→ne,
}
use ece391_linux_os.CLib.Str.{
  strlen_loop, strlen, strncmp_loop, strncmp, strcpy_loop, strcpy, strncpy_pad, strncpy_loop,
  strncpy, char_diff,
}
use mathlib.Core.Path.{subst}
use native.Mathlib.Decide.{ℕ_discrete, dec_lt}

-- `s` holds a string of `n` characters and its terminating zero byte.
pub record IsString (s : Bytes) (n : ℕ) : Type 0 where
  pub chars : (i : ℕ) → i < n → s i ≢ 0
  pub stop : s n ≡ 0

strlen_loop-some :
    (fuel : ℕ) {s : Bytes} {n : ℕ} (len : ℕ)
    → IsString s n
    → len ≤ n
    → n < len + fuel
    → strlen_loop fuel s len ≡ some n
unfolding strlen_loop
strlen_loop-some zero len h le lt = absurd (omega arith)
strlen_loop-some (suc fuel) {s} {n} len h le lt = elim (ℕ_discrete len n) [
  | yes e ↦ ground (arith, ap s e, h.stop)
  | no ne ↦ ground (
    arith,
    h.chars len (omega arith),
    strlen_loop-some fuel (len + 1) h (omega arith) (omega arith),
  )
]

strlen_loop-IsString :
    (fuel : ℕ) {s : Bytes} {n : ℕ} (len : ℕ)
    → ((i : ℕ) → i < len → s i ≢ 0)
    → strlen_loop fuel s len ≡ some n
    → IsString s n
unfolding strlen_loop
strlen_loop-IsString zero len seen e = cc
strlen_loop-IsString (suc fuel) {s} {n} len seen e = elim (Bool-cases (s len == 0)) [
  | inl z ↦
      let here : len ≡ n = ground arith in rw (← here) (record { chars = seen; stop = ==→eq _ _ z })
  | inr nz ↦
      strlen_loop-IsString fuel (len + 1)
        (λ i lt. elim (ℕ_discrete i len) [
          | yes same ↦ rw same (==→ne _ _ nz)
          | no other ↦ seen i (omega arith)
        ])
        (ground arith)
]

-- With fuel for the scan `strlen` returns the length of the string, and what it returns is always
-- the place of the first zero byte.
pub strlen-IsString :
    (fuel : ℕ) (s : Bytes) (n : ℕ)
    → (IsString s n → n < fuel → strlen fuel s ≡ some n) × (strlen fuel s ≡ some n → IsString s n)
unfolding strlen
strlen-IsString fuel s n = (
  λ h lt. strlen_loop-some fuel 0 h (omega arith) (omega arith),
  λ e. strlen_loop-IsString fuel 0 (λ i h. elim h [ ]) e,
)

-- Two strings agree up to their first zero byte, or for `n` bytes.
abbrev pub Agree : Bytes → Bytes → ℕ → Type 0
Agree s1 s2 n = (i : ℕ) → i < n → ((j : ℕ) → j < i → s1 j ≢ 0) → s1 i ≡ s2 i

char_diff_zero : (a b : ℕ) → a < 256 → b < 256 → char_diff a b ≡ pos 0 → a ≡ b
char_diff_zero a b ha hb e = ground arith

char_diff_self : (a : ℕ) → char_diff a a ≡ pos 0
char_diff_self a = ground arith

-- A fact about each index below `i`, and about `i`.
extend {ℓ} : {P : ℕ → Type ℓ} (i : ℕ) → ((j : ℕ) → j < i → P j) → P i → (j : ℕ) → j < i + 1 → P j
extend {P} i below here j lt = elim (ℕ_discrete j i) [
  | yes e ↦ subst P (sym e) here
  | no ne ↦ below j (omega arith)
]

module _ {s1 s2 : Bytes} (b1 : (i : ℕ) → s1 i < 256) (b2 : (i : ℕ) → s2 i < 256) where
  -- A round that does not report a difference saw equal bytes.
  strncmp_loop_round :
      (rounds i : ℕ)
      → strncmp_loop (suc rounds) s1 s2 i ≡ pos 0
      → (s1 i ≡ s2 i) × ((s1 i ≡ 0) ⊎ (strncmp_loop rounds s1 s2 (i + 1) ≡ pos 0))
  unfolding strncmp_loop
  strncmp_loop_round rounds i e = elim (Bool-cases (s1 i == s2 i)) [
    | inl same ↦ (
      ==→eq _ _ same,
      elim (Bool-cases (s1 i == 0)) [
        | inl z ↦ inl (==→eq _ _ z)
        | inr nz ↦ inr (rw (same, nz) at e)
      ],
    )
    | inr differ ↦ absurd (==→ne _ _ differ (char_diff_zero _ _ (b1 i) (b2 i) (rw differ at e)))
  ]

  strncmp_loop-Agree :
      (rounds i : ℕ)
      → ((j : ℕ) → j < i → s1 j ≡ s2 j)
      → strncmp_loop rounds s1 s2 i ≡ pos 0
      → Agree s1 s2 (i + rounds)
  strncmp_loop-Agree zero i seen e k lt pre = seen k (omega arith)
  strncmp_loop-Agree (suc rounds) i seen e k lt pre =
      let (same, tail) = strncmp_loop_round rounds i e in
      elim tail [
        | inr more ↦ strncmp_loop-Agree rounds (i + 1) (extend i seen same) more k (omega arith) pre
        | inl end ↦ elim (dec_lt i k) [
          | yes past ↦ absurd (pre i past end)
          | no upto ↦ extend i seen same k (omega arith)
        ]
      ]

strncmp_loop_zero :
    {s1 s2 : Bytes} (rounds i : ℕ)
    → Agree s1 s2 (i + rounds)
    → ((j : ℕ) → j < i → s1 j ≢ 0)
    → strncmp_loop rounds s1 s2 i ≡ pos 0
unfolding strncmp_loop
strncmp_loop_zero zero i h seen = refl
strncmp_loop_zero {s1} {s2} (suc rounds) i h seen =
    let same : s1 i ≡ s2 i = h i (omega arith) seen in
    rw (← same, (==_iff _ _).1 refl)
      (elim (Bool-cases (s1 i == 0)) [
        | inl z ↦ rw z (char_diff_self _)
        | inr nz ↦ rw nz (
            strncmp_loop_zero rounds (i + 1) (λ k lt. h k (omega arith))
              (extend i seen (==→ne _ _ nz)))
      ])

-- `strncmp` returns 0 exactly when the strings agree up to their first zero byte or for `n` bytes.
pub strncmp-Agree :
    (s1 s2 : Bytes) (n : ℕ)
    → ((i : ℕ) → s1 i < 256)
    → ((i : ℕ) → s2 i < 256)
    → (strncmp s1 s2 n ≡ pos 0) ↔ Agree s1 s2 n
unfolding strncmp
strncmp-Agree s1 s2 n b1 b2 = (
  λ e k lt. strncmp_loop-Agree b1 b2 n 0 (λ j h. elim h [ ]) e k (omega arith),
  λ h. strncmp_loop_zero n 0 (λ k lt. h k (omega arith)) (λ j h. elim h [ ]),
)

-- What a copy of `n` characters and the zero byte leaves in `dest`.
abbrev pub string_copied : Bytes → Bytes → ℕ → Bytes
string_copied dest src n i = if ltb i n then src i else if i == n then 0 else dest i

strcpy_loop-copied :
    (fuel : ℕ) (dest : Bytes) {src : Bytes} {n : ℕ} (i : ℕ)
    → IsString src n
    → i ≤ n
    → n < i + fuel
    → (r : Bytes) × (strcpy_loop fuel dest src i ≡ some r)
      × ((k : ℕ) → r k ≡ (if ltb k i then dest k else string_copied dest src n k))
unfolding strcpy_loop
strcpy_loop-copied zero dest i h le lt = absurd (omega arith)
strcpy_loop-copied (suc fuel) dest {src} {n} i h le lt = elim (ℕ_discrete i n) [
  | yes e ↦ (update dest i 0, ground (arith, ap src e, h.stop), λ k. ground arith)
  | no ne ↦
      let (r, run, is) =
        strcpy_loop-copied fuel (update dest i (src i)) (i + 1) h (omega arith) (omega arith) in
      (r, ground (arith, h.chars i (omega arith), run), λ k. ground (arith, is k))
]

-- With fuel for the string `strcpy` returns, and has copied its characters and the zero byte and
-- changed nothing else.
pub strcpy-copied :
    (fuel : ℕ) (dest src : Bytes) (n : ℕ)
    → IsString src n
    → n < fuel
    → (r : Bytes) × (strcpy fuel dest src ≡ some r) × ((k : ℕ) → r k ≡ string_copied dest src n k)
unfolding strcpy
strcpy-copied fuel dest src n h lt =
    let (r, run, is) = strcpy_loop-copied fuel dest 0 h (omega arith) (omega arith) in
    (r, run, λ k. is k ∙ ground arith)

strncpy_pad_lem :
    (rounds : ℕ) (dest : Bytes) (i k : ℕ)
    → strncpy_pad rounds dest i k
      ≡ (if ltb k i then dest k else if ltb k (i + rounds) then 0 else dest k)
unfolding strncpy_pad
strncpy_pad_lem zero dest i k = ground arith
strncpy_pad_lem (suc rounds) dest i k =
    ground (arith, strncpy_pad_lem rounds (update dest i 0) (i + 1) k)

-- What `strncpy` of a string of `len` characters leaves in `dest`.
abbrev pub padded : Bytes → Bytes → ℕ → ℕ → Bytes
padded dest src len n i = if ltb i n then (if ltb i len then src i else 0) else dest i

strncpy_loop-padded :
    (rounds : ℕ) (dest : Bytes) {src : Bytes} {len : ℕ} (i k : ℕ)
    → IsString src len
    → i ≤ len
    → strncpy_loop rounds dest src i k
      ≡ (if ltb k i then dest k else padded dest src len (i + rounds) k)
unfolding strncpy_loop
strncpy_loop-padded zero dest i k h le = ground arith
strncpy_loop-padded (suc rounds) dest {src} {len} i k h le = elim (ℕ_discrete i len) [
  | yes e ↦ ground (arith, ap src e, h.stop, strncpy_pad_lem (suc rounds) dest i k)
  | no ne ↦ ground (
    arith,
    h.chars i (omega arith),
    strncpy_loop-padded rounds (update dest i (src i)) (i + 1) k h (omega arith),
  )
]

-- `strncpy` writes exactly `n` bytes: the string as far as it fits, and zero bytes after it.
pub strncpy-padded :
    (dest src : Bytes) (n len k : ℕ)
    → IsString src len
    → strncpy dest src n k ≡ padded dest src len n k
unfolding strncpy
strncpy-padded dest src n len k h = strncpy_loop-padded n dest 0 k h (omega arith) ∙ ground arith
