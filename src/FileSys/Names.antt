-- ===== src/FileSys/Names.antt =====
-- The search of the directory by name, in student-distrib/filesys.c.
use ece391_linux_os.Base.{
  ℕ, zero, suc, ◌+◌, ◌<◌, ◌≤◌, ◌≡◌, ◌↔◌, refl, ◌∙◌, sym, arith, some, none, Option, Bytes, ◌==◌,
  ltb, if◌then◌else◌, true, pos, nat_eq, inl, inr, Bool-cases, ℤ,
}
use native.Mathlib.Decide.{ℕ_discrete, dec_lt}
use ece391_linux_os.CLib.Str.{strlen, strncmp}
use ece391_linux_os.CLib.Str.Laws.{IsString, Agree, strlen-IsString, strncmp-Agree}
use ece391_linux_os.FileSys.{
  FileSystem, Dentry, dir_entry, name_size, max_file_count, find_name, find_dentry,
  read_dentry_by_name,
}

-- The 32 bytes of an entry's name field hold the string `fname` of `len` characters, with a zero
-- byte after it unless it fills the field.
pub record NameIs (fname : Bytes) (len : ℕ) (name : Bytes) : Type 0 where
  pub chars : (j : ℕ) → j < len → name j ≡ fname j
  pub ends : len < name_size → name len ≡ 0

-- What a search by name may return: the first of the 63 entries with that name, or none.
pub data Search (fs : FileSystem) (fname : Bytes) (len : ℕ) : Option Dentry → Type 0 where
  found :
      (i : ℕ)
      → i < max_file_count
      → NameIs fname len (dir_entry fs i).file_name
      → ((j : ℕ) → j < i → ¬ NameIs fname len (dir_entry fs j).file_name)
      → Search fs fname len (some (dir_entry fs i))
  missing :
      ((j : ℕ) → j < max_file_count → ¬ NameIs fname len (dir_entry fs j).file_name)
      → Search fs fname len none
  too_long : name_size < len → Search fs fname len none

-- The count of bytes that the search compares.
abbrev compared : ℕ → ℕ
compared len = if len == name_size then len else len + 1

Agree-NameIs :
    (fname name : Bytes) (len : ℕ)
    → IsString fname len
    → len ≤ name_size
    → Agree fname name (compared len) ↔ NameIs fname len name
Agree-NameIs fname name len h small = (
  λ agree. record {
    chars = λ j lt. sym (agree j (ground arith) (λ i p. h.chars i (omega arith)));
    ends = λ lt. sym (agree len (ground arith) h.chars) ∙ h.stop;
  },
  λ is i lt pre. elim (dec_lt i len) [
    | yes p ↦ sym (is.chars i p)
    | no p ↦ elim (ℕ_discrete len name_size) [
      | yes full ↦ ground arith
      | no short ↦ let e : i ≡ len = ground arith in rw e (h.stop ∙ sym (is.ends (omega arith)))
    ]
  ],
)

nat_eq_zero : (z : ℤ) → (nat_eq z 0 ≡ true) ↔ (z ≡ pos 0)
nat_eq_zero z = ground arith

module _ (fs : FileSystem) {fname : Bytes} {len : ℕ} (string : IsString fname len)
    (small : len ≤ name_size) (bytes : (i : ℕ) → fname i < 256)
    (image : (i : ℕ) → fs.image i < 256) where
  compare-NameIs :
      (i : ℕ)
      → (nat_eq (strncmp fname (dir_entry fs i).file_name (compared len)) 0 ≡ true)
        ↔ NameIs fname len (dir_entry fs i).file_name
  unfolding dir_entry
  compare-NameIs i =
      let name : Bytes = (dir_entry fs i).file_name in
      let agree = strncmp-Agree fname name (compared len) bytes (λ k. image _) in
      let is = Agree-NameIs fname name len string small in
      (λ e. is.0 (agree.0 ((nat_eq_zero _).0 e)), λ e. (nat_eq_zero _).1 (agree.1 (is.1 e)))

  find_name-Search :
      (rounds i : ℕ)
      → i + rounds ≡ max_file_count
      → ((j : ℕ) → j < i → ¬ NameIs fname len (dir_entry fs j).file_name)
      → Search fs fname len (find_name rounds fs fname (compared len) i)
  unfolding find_name
  find_name-Search zero i e none_before = missing (λ j lt. none_before j (omega arith))
  find_name-Search (suc rounds) i e none_before =
      elim (Bool-cases (nat_eq (strncmp fname (dir_entry fs i).file_name (compared len)) 0)) [
        | inl hit ↦ rw hit (found i (omega arith) ((compare-NameIs i).0 hit) none_before)
        | inr miss ↦ rw miss (
            find_name-Search rounds (i + 1) (omega arith) λ j lt is. elim (dec_lt j i) [
              | yes p ↦ none_before j p is
              | no p ↦ let e' : j ≡ i = omega arith in cc ((compare-NameIs i).1 (rw e' at is))
            ])
      ]

find_dentry-Search :
    (fs : FileSystem) (fname : Bytes) (len : ℕ)
    → fs.present ≡ true
    → IsString fname len
    → ((i : ℕ) → fname i < 256)
    → ((i : ℕ) → fs.image i < 256)
    → Search fs fname len (find_dentry fs fname len)
unfolding find_dentry
find_dentry-Search fs fname len mounted string bytes image = elim (Bool-cases (ltb name_size len)) [
  | inl long ↦
      let none_found : find_dentry fs fname len ≡ none = ground arith in
      rw none_found (too_long (ground arith))
  | inr short ↦
      let searched : find_dentry fs fname len ≡ find_name max_file_count fs fname (compared len) 0 =
        ground arith in
      rw searched (
        find_name-Search fs string (ground arith) bytes image max_file_count 0 refl
          (λ j h. elim h [ ]))
]

-- With fuel for the scan of the name, `read_dentry_by_name` on a mounted image returns: the first
-- of the 63 entries whose name field holds exactly that string, and -1 only if there is none or the
-- string is longer than a name field.
pub read_dentry_by_name-Search :
    (fuel : ℕ) (fs : FileSystem) (fname : Bytes) (len : ℕ)
    → fs.present ≡ true
    → IsString fname len
    → len < fuel
    → ((i : ℕ) → fname i < 256)
    → ((i : ℕ) → fs.image i < 256)
    → (r : Option Dentry) × (read_dentry_by_name fuel fs fname ≡ some r) × Search fs fname len r
unfolding read_dentry_by_name
read_dentry_by_name-Search fuel fs fname len mounted string lt bytes image = (
  find_dentry fs fname len,
  ground (arith, (strlen-IsString fuel fname len).0 string lt),
  find_dentry-Search fs fname len mounted string bytes image,
)

pub read_dentry_by_name-find_dentry :
    (fuel : ℕ) (fs : FileSystem) (name : Bytes) (n : ℕ)
    → strlen fuel name ≡ some n
    → read_dentry_by_name fuel fs name ≡ some (find_dentry fs name n)
unfolding read_dentry_by_name
read_dentry_by_name-find_dentry fuel fs name n e = rw (e, read_dentry_by_name)
