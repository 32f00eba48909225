-- ===== src/Keyboard/Typing/Edited.antt =====
-- The length and the characters of a line that the keys of student-distrib/keyboard.c edit.

use native.Mathlib.Decide.{ℕ_discrete}
use ece391_linux_os.Base.{
  ℕ, ◌+◌, ◌<◌, ◌≤◌, ◌≡◌, ◌≢◌, inl, inr, refl, arith, List, [], ◌∷◌, ◌==◌, Bool, true, false,
  if◌then◌else◌,
}
use ece391_linux_os.Programs.Stacks.{length}
use ece391_linux_os.Keyboard.{key_ascii}
use ece391_linux_os.Keyboard.Typing.{IsTyping, AllTyping, drop_last, edited, character}

pub edited_length :
    (test : Bool) (a : ℕ) (line : List ℕ)
    → length (if test then drop_last line else a ∷ line) ≤ 1 + length line
unfolding length
edited_length true a [] = omega arith
edited_length true a (x ∷ line) = omega arith
edited_length false a line = omega arith

-- No character of an edited line is a zero byte.
character_nonzero :
    (test : Bool) (a : ℕ) (line : List ℕ)
    → (test ≡ false → a ≢ 0)
    → ((i : ℕ) → i < length line → character line i ≢ 0)
    → (i : ℕ) → i < length (if test then drop_last line else a ∷ line)
    → character (if test then drop_last line else a ∷ line) i ≢ 0
unfolding length
character_nonzero true a [] ne h i lt = absurd (omega arith)
character_nonzero true a (x ∷ line) ne h i lt = ground (arith, h i (omega arith))
character_nonzero false a line ne h i lt = elim (ℕ_discrete i (length line)) [
  | yes e ↦ ground (arith, ne refl)
  | no other ↦ ground (arith, h i (omega arith))
]

typed_nonzero :
    (past : ℕ → ℕ) (row k : ℕ)
    → IsTyping past row k
    → (k == 0x0e) ≡ false
    → key_ascii past row k ≢ 0
typed_nonzero past row k (inl e) other = absurd (ground (arith, other))
typed_nonzero past row k (inr (is, ne)) other = ne

pub edited_nonzero :
    (past : ℕ → ℕ) (row : ℕ) (ks line : List ℕ)
    → AllTyping past row ks
    → ((i : ℕ) → i < length line → character line i ≢ 0)
    → (i : ℕ) → i < length (edited past row ks line)
    → character (edited past row ks line) i ≢ 0
edited_nonzero past row [] line all h = h
edited_nonzero past row (k ∷ ks) line (is, all) h =
    edited_nonzero past row ks (if k == 0x0e then drop_last line else key_ascii past row k ∷ line)
      all
      (character_nonzero (k == 0x0e) (key_ascii past row k) line (typed_nonzero past row k is) h)

pub edited-le :
    (past : ℕ → ℕ) (row : ℕ) (ks line : List ℕ)
    → length (edited past row ks line) ≤ length line + length ks
unfolding length
edited-le past row [] line = omega arith
edited-le past row (k ∷ ks) line = omega (
  arith,
  edited-le past row ks (if k == 0x0e then drop_last line else key_ascii past row k ∷ line),
  edited_length (k == 0x0e) (key_ascii past row k) line,
)
