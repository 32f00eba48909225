-- ===== src/User/Support/Laws.antt =====
-- The functions of syscalls/ece391support.c on strings.
use native.Mathlib.Decide.{dec_lt}
use ece391_linux_os.Base.{
  ℕ, zero, suc, ◌+◌, ◌<◌, ◌≤◌, ◌≡◌, ◌≢◌, ◌↔◌, refl, ◌∙◌, ap, sym, arith, Option, some, Bytes, ◌==◌,
  false, ℤ, pos, sub_ℕ, Bool-cases, inl, inr, ==→eq, ==→ne,
}
use ece391_linux_os.CLib.Str.Laws.{IsString}
use ece391_linux_os.User.Support.{ece391_strlen, strlen_from, ece391_strcmp, strcmp_from}

strlen_from_lem :
    (fuel : ℕ) (s : Bytes) (i n : ℕ)
    → IsString s n
    → i ≤ n
    → n < i + fuel
    → strlen_from fuel s i ≡ some n
unfolding strlen_from
strlen_from_lem zero s i n h le lt = absurd (omega arith)
strlen_from_lem (suc fuel) s i n h le lt = elim (dec_lt i n) [
  | yes inside ↦
      let more : (s i == 0) ≡ false = ground (arith, h.chars i inside) in
      rw more (strlen_from_lem fuel s (i + 1) n h (omega arith) (omega arith))
  | no last ↦
      let e : i ≡ n = omega arith in
      let stop : s i ≡ 0 = ap s e ∙ h.stop in rw stop (ap (λ (l : ℕ). some l) e)
]

-- A string's length is found with fuel for it.
pub ece391_strlen-IsString :
    (fuel : ℕ) (s : Bytes) (n : ℕ) → IsString s n → n < fuel → ece391_strlen fuel s ≡ some n
unfolding ece391_strlen
ece391_strlen-IsString fuel s n h lt = strlen_from_lem fuel s 0 n h (omega arith) (omega arith)

sub_ne : (a b : ℕ) → a ≢ b → sub_ℕ a b ≢ pos 0
sub_ne a b ne e = ground (arith, ne, e)

-- The comparison from `i` on, of strings that are equal before.
abbrev Compares : Option ℤ → Bytes → Bytes → ℕ → ℕ → Type 0
Compares out s1 s2 n1 n2 =
    (r : ℤ) × (out ≡ some r) × ((r ≡ pos 0) ↔ ((n1 ≡ n2) × ((j : ℕ) → j < n1 → s1 j ≡ s2 j)))

before_next :
    (s1 s2 : Bytes) (i : ℕ)
    → ((j : ℕ) → j < i → s1 j ≡ s2 j)
    → s1 i ≡ s2 i
    → (j : ℕ) → j < i + 1
    → s1 j ≡ s2 j
before_next s1 s2 i before e j lt = elim (dec_lt j i) [
  | yes p ↦ before j p
  | no p ↦ let same : j ≡ i = omega arith in ap s1 same ∙ e ∙ ap s2 (sym same)
]

-- A zero byte is the end of a string.
at_end : (s : Bytes) (n i : ℕ) → IsString s n → i ≤ n → s i ≡ 0 → i ≡ n
at_end s n i h le z = elim (dec_lt i n) [ yes p ↦ absurd (h.chars i p z) | no p ↦ omega arith ]

before_end : (s : Bytes) (n i : ℕ) → IsString s n → i ≤ n → s i ≢ 0 → i < n
before_end s n i h le ne = elim (dec_lt i n) [
  | yes p ↦ p
  | no p ↦ let e : i ≡ n = omega arith in absurd (ne (ap s e ∙ h.stop))
]

strcmp_from_lem :
    (fuel : ℕ) (s1 s2 : Bytes) (i n1 n2 : ℕ)
    → IsString s1 n1
    → IsString s2 n2
    → i ≤ n1
    → i ≤ n2
    → n1 < i + fuel
    → ((j : ℕ) → j < i → s1 j ≡ s2 j)
    → Compares (strcmp_from fuel s1 s2 i) s1 s2 n1 n2
unfolding strcmp_from
strcmp_from_lem zero s1 s2 i n1 n2 h1 h2 le1 le2 lt before = absurd (omega arith)
strcmp_from_lem (suc fuel) s1 s2 i n1 n2 h1 h2 le1 le2 lt before =
    elim (Bool-cases (s1 i == s2 i)) [
      | inr differ ↦ (
        sub_ℕ (s1 i) (s2 i),
        rw differ,
        (
          λ z. absurd (sub_ne (s1 i) (s2 i) (==→ne _ _ differ) z),
          λ (e, same). absurd (
              ==→ne _ _ differ (elim (dec_lt i n1) [
                | yes p ↦ same i p
                | no p ↦
                    let at1 : i ≡ n1 = omega arith in
                    let at2 : i ≡ n2 = omega arith in
                    ap s1 at1 ∙ h1.stop ∙ sym (ap s2 at2 ∙ h2.stop)
              ])),
        ),
      )
      | inl alike ↦
          let e : s1 i ≡ s2 i = ==→eq _ _ alike in
          elim (Bool-cases (s1 i == 0)) [
            | inl zero_byte ↦
                let end1 : i ≡ n1 = at_end s1 n1 i h1 le1 (==→eq _ _ zero_byte) in
                let end2 : i ≡ n2 = at_end s2 n2 i h2 le2 (sym e ∙ ==→eq _ _ zero_byte) in
                (
                  pos 0,
                  rw (alike, zero_byte),
                  (λ z. (sym end1 ∙ end2, λ j p. before j (omega arith)), λ same. refl),
                )
            | inr more ↦
                let in1 : i < n1 = before_end s1 n1 i h1 le1 (==→ne _ _ more) in
                let in2 : i < n2 = before_end s2 n2 i h2 le2 (λ z. ==→ne _ _ more (e ∙ z)) in
                let (r, run, iff) =
                  strcmp_from_lem fuel s1 s2 (i + 1) n1 n2 h1 h2 (omega arith) (omega arith)
                    (omega arith) (before_next s1 s2 i before e) in
                (r, rw (alike, more) run, iff)
          ]
    ]

-- With fuel for the first string `ece391_strcmp` returns, and 0 exactly for two strings of the same
-- length and the same characters.
pub ece391_strcmp-IsString :
    (fuel : ℕ) (s1 s2 : Bytes) (n1 n2 : ℕ)
    → IsString s1 n1
    → IsString s2 n2
    → n1 < fuel
    → (r : ℤ) × (ece391_strcmp fuel s1 s2 ≡ some r)
      × ((r ≡ pos 0) ↔ ((n1 ≡ n2) × ((j : ℕ) → j < n1 → s1 j ≡ s2 j)))
unfolding ece391_strcmp
ece391_strcmp-IsString fuel s1 s2 n1 n2 h1 h2 lt =
    strcmp_from_lem fuel s1 s2 0 n1 n2 h1 h2 (omega arith) (omega arith) (omega arith)
      (λ j p. absurd (omega arith))
