-- ===== src/Programs/Search.antt =====
-- The searches of `execute`, for a free process and for a program.
use ece391_linux_os.Base.{
  ℕ, zero, suc, ◌+◌, ◌<◌, ◌≤◌, ◌≡◌, ◌⊎◌, inl, inr, refl, ◌∙◌, ap, arith, Bool, true, false, Option,
  none, some, Bytes, ◌==◌, ◌&&◌, Bool-cases, Option-cases, ℤ,
}
use native.Mathlib.Decide.{ℕ_discrete}
use ece391_linux_os.CLib.Str.{strlen}
use ece391_linux_os.CLib.Str.Laws.{IsString, strlen-IsString}
use ece391_linux_os.FileSys.{FileSystem, Dentry, find_dentry, read_data}
use ece391_linux_os.FileSys.Names.{read_dentry_by_name-find_dentry}
use ece391_linux_os.FileSys.Total.{read_data_returns}
use ece391_linux_os.Programs.{is_minus_one, find_process, find_program}

-- The search finds the first process that no stack has.
abbrev pub Finds : ℕ → (ℕ → ℤ) → ℕ → Type 0
Finds rounds status p =
    ((find_process rounds status p ≡ none)
      × ((q : ℕ) → p ≤ q → q < p + rounds → is_minus_one (status q) ≡ false))
    ⊎ ((j : ℕ) × (find_process rounds status p ≡ some j)
        × (p ≤ j)
        × (j < p + rounds)
        × (is_minus_one (status j) ≡ true)
        × ((q : ℕ) → p ≤ q → q < j → is_minus_one (status q) ≡ false))

taken_from :
    (status : ℕ → ℤ) (p end : ℕ)
    → is_minus_one (status p) ≡ false
    → ((q : ℕ) → p + 1 ≤ q → q < end → is_minus_one (status q) ≡ false)
    → (q : ℕ) → p ≤ q
    → q < end
    → is_minus_one (status q) ≡ false
taken_from status p end here later q le lt = elim (ℕ_discrete q p) [
  | yes e ↦ ap (λ (j : ℕ). is_minus_one (status j)) e ∙ here
  | no ne ↦ later q (omega arith) lt
]

pub find_process_lem : (rounds : ℕ) (status : ℕ → ℤ) (p : ℕ) → Finds rounds status p
unfolding find_process
find_process_lem zero status p = inl (refl, λ q le lt. absurd (omega arith))
find_process_lem (suc rounds) status p = elim (Bool-cases (is_minus_one (status p))) [
  | inl free ↦ inr (p, rw free, omega arith, omega arith, free, λ q le lt. absurd (omega arith))
  | inr used ↦ elim (find_process_lem rounds status (p + 1)) [
    | inl (e, all) ↦
        inl (rw (used, e), taken_from status p _ used (λ q le lt. all q le (omega arith)))
    | inr (j, e, le, lt, free, all) ↦
        inr (j, rw (used, e), omega arith, omega arith, free, taken_from status p j used all)
  ]
]

-- The mark of an executable in the first four bytes.
abbrev pub has_mark : Bytes → Bool
has_mark b = b 0 == 0x7f && (b 1 == 0x45 && (b 2 == 0x4c && b 3 == 0x46))

-- The name's file, and its first bytes; `n` is the length of the name.
pub data ProgramSearch (fs : FileSystem) (exec buffer : Bytes) (n : ℕ)
    : Option (Dentry × Bytes) → Type 0 where
  no_file : find_dentry fs exec n ≡ none → ProgramSearch fs exec buffer n none
  no_mark :
      (d : Dentry) (ret : ℤ) (b : Bytes)
      → find_dentry fs exec n ≡ some d
      → read_data fs d.inode 0 buffer 0 4 ≡ some (ret, b)
      → has_mark b ≡ false
      → ProgramSearch fs exec buffer n none
  executable :
      (d : Dentry) (ret : ℤ) (b : Bytes)
      → find_dentry fs exec n ≡ some d
      → read_data fs d.inode 0 buffer 0 4 ≡ some (ret, b)
      → has_mark b ≡ true
      → ProgramSearch fs exec buffer n (some (d, b))

pub find_program-ProgramSearch :
    (fs : FileSystem) (exec buffer : Bytes) (n : ℕ)
    → IsString exec n
    → n < 33
    → (found : Option (Dentry × Bytes)) × (find_program fs exec buffer ≡ some found)
      × ProgramSearch fs exec buffer n found
unfolding find_program
find_program-ProgramSearch fs exec buffer n h lt =
    let e : strlen 33 exec ≡ some n = (strlen-IsString 33 exec n).0 h lt in
    let search = read_dentry_by_name-find_dentry 33 fs exec n e in
    elim (Option-cases (find_dentry fs exec n)) [
      | inl missing ↦ (none, rw (search, missing, find_program), no_file missing)
      | inr (d, hit) ↦
          let (ret, b, run) = read_data_returns fs d.inode 0 buffer 0 4 in
          elim (Bool-cases (has_mark b)) [
            | inl mark ↦ (
              some (d, b),
              rw (search, hit, run, mark, find_program),
              executable d ret b hit run mark,
            )
            | inr other ↦
                (none, rw (search, hit, run, other, find_program), no_mark d ret b hit run other)
          ]
    ]
