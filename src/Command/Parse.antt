-- ===== src/Command/Parse.antt =====
-- What a command line means.
use ece391_linux_os.Base.{
  ℕ, ◌+◌, ◌-◌, ◌<◌, ◌≤◌, ◌≡◌, ◌≢◌, ◌⊎◌, inl, inr, ◌∙◌, sym, arith, true, false, some, Bytes, update,
  ◌==◌, ltb, if◌then◌else◌, Bool-cases,
}
use ece391_linux_os.Command.{
  skip_spaces, word_end, line_end, copy_chars, Parsed, refused, parsed, overrun, is_grep,
  parse_arguments, parse_command, cmd_max_len, max_kbuff_len,
}
use ece391_linux_os.Command.Scan.{skip_spaces_lem, word_end_lem, line_end_lem, copy_chars_lem}

-- A command line: `start` spaces, the name up to `name_end`, spaces up to `arg_start`, and the
-- arguments up to the end of the line at `arg_end`.
pub record IsLine (command : Bytes) (start name_end arg_start arg_end : ℕ) : Type 0 where
  pub before : (j : ℕ) → j < start → command j ≡ b' '
  pub begins : command start ≢ b' '
  pub name :
      (j : ℕ) → start ≤ j → j < name_end → (command j ≢ b' ') × (command j ≢ 0) × (command j ≢ 10)
  pub name_stop : (command name_end ≡ b' ') ⊎ ((command name_end ≡ 0) ⊎ (command name_end ≡ 10))
  pub gap : (j : ℕ) → name_end ≤ j → j < arg_start → command j ≡ b' '
  pub arg_begins : command arg_start ≢ b' '
  pub args : (j : ℕ) → arg_start ≤ j → j < arg_end → (command j ≢ 0) × (command j ≢ 10)
  pub stop : (command arg_end ≡ 0) ⊎ (command arg_end ≡ 10)
  pub ordered : (start ≤ name_end) × (name_end ≤ arg_start) × (arg_start ≤ arg_end)
  pub fits : arg_end < 256

-- The two arrays that a line is copied to.
abbrev pub name_array : Bytes → Bytes → ℕ → ℕ → Bytes
name_array command exec start name_end k =
    if k == name_end then 0 else if ltb k (name_end - start) then command (start + k) else exec k

abbrev pub arg_array : Bytes → Bytes → ℕ → ℕ → Bytes
arg_array command argb arg_start arg_end k =
    if k == arg_end - arg_start
    then 0
    else if ltb k (arg_end - arg_start)
    then command (arg_start + k)
    else argb k

-- The first four characters that the name is compared with.
abbrev pub IsGrep : Bytes → Type 0
IsGrep e = (e 0 ≡ b'g') × (e 1 ≡ b'r') × (e 2 ≡ b'e') × (e 3 ≡ b'p')

-- What a line gives. The outcomes exclude each other.
pub data LineOutcome (command exec argb : Bytes) (start name_end arg_start arg_end : ℕ)
    : Parsed → Type 0 where
  too_long :
      (cmd_max_len < name_end) ⊎ (max_kbuff_len < arg_end)
      → LineOutcome command exec argb start name_end arg_start arg_end refused
  args_too_long :
      name_end ≤ cmd_max_len
      → arg_end ≤ max_kbuff_len
      → cmd_max_len < arg_end - arg_start
      → LineOutcome command exec argb start name_end arg_start arg_end overrun
  grep_alone :
      (e : Bytes)
      → arg_end ≡ arg_start
      → IsGrep e
      → ((k : ℕ) → e k ≡ name_array command exec start name_end k)
      → LineOutcome command exec argb start name_end arg_start arg_end refused
  split :
      (e a : Bytes)
      → name_end ≤ cmd_max_len
      → arg_end ≤ max_kbuff_len
      → arg_end - arg_start ≤ cmd_max_len
      → (arg_end ≡ arg_start → ¬ IsGrep e)
      → ((k : ℕ) → e k ≡ name_array command exec start name_end k)
      → ((k : ℕ) → a k ≡ arg_array command argb arg_start arg_end k)
      → LineOutcome command exec argb start name_end arg_start arg_end (parsed e a)

module _ {command : Bytes} {start name_end arg_start arg_end : ℕ}
    (line : IsLine command start name_end arg_start arg_end) where
  line_start : skip_spaces 256 command 0 ≡ some start
  line_start =
      skip_spaces_lem 256 command 0 start (λ j a b. line.before j b) line.begins (omega arith)
        (omega (arith, line.ordered, line.fits)) (omega (arith, line.ordered, line.fits))

  line_name : word_end 256 command start ≡ some name_end
  line_name =
      word_end_lem 256 command start name_end line.name line.name_stop line.ordered.0
        (omega (arith, line.ordered, line.fits)) (omega (arith, line.ordered, line.fits))

  line_gap : skip_spaces 256 command name_end ≡ some arg_start
  line_gap =
      skip_spaces_lem 256 command name_end arg_start line.gap line.arg_begins line.ordered.1
        (omega (arith, line.ordered, line.fits)) (omega (arith, line.ordered, line.fits))

  line_args : line_end 256 command arg_start ≡ some arg_end
  line_args =
      line_end_lem 256 command arg_start arg_end line.args line.stop line.ordered.2
        (omega (arith, line.ordered, line.fits)) line.fits

  name_copied :
      (exec : Bytes) (k : ℕ)
      → update (copy_chars (name_end - start) exec command start start) name_end 0 k
        ≡ name_array command exec start name_end k
  name_copied exec k =
      ground (arith, copy_chars_lem (name_end - start) exec command start start k (omega arith))

  args_copied :
      (argb : Bytes) (k : ℕ)
      → update
          (copy_chars (arg_end - arg_start) argb command arg_start arg_start)
          (arg_end - arg_start)
          0
          k
        ≡ arg_array command argb arg_start arg_end k
  args_copied argb k =
      ground (
        arith,
        copy_chars_lem (arg_end - arg_start) argb command arg_start arg_start k (omega arith),
      )

grep_chars :
    (e a : Bytes)
    → is_grep e a ≡ true
    → (a 0 ≡ 0) × (e 0 ≡ b'g') × (e 1 ≡ b'r') × (e 2 ≡ b'e') × (e 3 ≡ b'p')
grep_chars e a h = ground arith

grep_alone_lem : (e a : Bytes) → is_grep e a ≡ false → a 0 ≡ 0 → ¬ IsGrep e
grep_alone_lem e a h z (g, r, e', p) = absurd (ground arith)

no_args :
    {command : Bytes} {start name_end arg_start arg_end : ℕ} (argb : Bytes)
    → IsLine command start name_end arg_start arg_end
    → arg_array command argb arg_start arg_end 0 ≡ 0
    → arg_end ≡ arg_start
no_args {command} {start} {name_end} {arg_start} {arg_end} argb line e =
    elim (Bool-cases (ltb arg_start arg_end)) [
      | inl more ↦ absurd ((line.args arg_start (omega arith) (ground arith)).0 (ground arith))
      | inr none_left ↦ ground (arith, line.ordered)
    ]

parse_arguments-LineOutcome :
    {command : Bytes} {start name_end arg_start arg_end : ℕ} (exec argb e : Bytes)
    → IsLine command start name_end arg_start arg_end
    → name_end ≤ cmd_max_len
    → ((k : ℕ) → e k ≡ name_array command exec start name_end k)
    → (p : Parsed) × (parse_arguments command e argb name_end ≡ some p)
      × LineOutcome command exec argb start name_end arg_start arg_end p
unfolding parse_arguments
parse_arguments-LineOutcome {command} {start} {name_end} {arg_start} {arg_end} exec argb e line
      short is =
    let len : ℕ = arg_end - arg_start in
    let a : Bytes = update (copy_chars len argb command arg_start arg_start) len 0 in
    let gap = line_gap line in
    let args = line_args line in
    let ordered : ltb arg_end arg_start ≡ false = ground (arith, line.ordered) in
    elim (Bool-cases (ltb max_kbuff_len arg_end)) [
      | inl long ↦ (refused, rw (gap, args, long, parse_arguments), too_long (inr (ground arith)))
      | inr fits ↦ elim (Bool-cases (ltb cmd_max_len len)) [
        | inl over ↦ (
          overrun,
          rw (gap, args, fits, ordered, over, parse_arguments),
          args_too_long short (ground arith) (ground arith),
        )
        | inr within ↦ elim (Bool-cases (is_grep e a)) [
          | inl grep ↦
              let (empty, g, r, e', p) = grep_chars e a grep in
              (
                refused,
                rw (gap, args, fits, ordered, within, parse_arguments) (rw grep),
                grep_alone e (no_args argb line (sym (args_copied line argb 0) ∙ empty))
                    (g, r, e', p) is,
              )
          | inr other ↦ (
            parsed e a,
            rw (gap, args, fits, ordered, within, parse_arguments) (rw other),
            split e a short (ground arith) (ground arith)
                (λ alone. grep_alone_lem e a other (args_copied line argb 0 ∙ ground arith)) is
                (args_copied line argb),
          )
        ]
      ]
    ]

-- A command line of less than 256 characters, with a program's name and arguments, is always
-- parsed. It is refused where the name ends behind character 32 or the line behind 128, or it is
-- `grep` alone; arguments of more than 32 characters overrun their array; else the arrays get the
-- name and the arguments, with a zero byte after the arguments, and after the name if no space
-- stands before it.
pub parse_command-LineOutcome :
    (command exec argb : Bytes) (start name_end arg_start arg_end : ℕ)
    → IsLine command start name_end arg_start arg_end
    → (p : Parsed) × (parse_command command exec argb ≡ some p)
      × LineOutcome command exec argb start name_end arg_start arg_end p
unfolding parse_command
parse_command-LineOutcome command exec argb start name_end arg_start arg_end line =
    let begins = line_start line in
    let ends = line_name line in
    elim (Bool-cases (ltb cmd_max_len name_end)) [
      | inl long ↦ (refused, rw (begins, ends, long, parse_command), too_long (inl (ground arith)))
      | inr short ↦
          let (p, run, is) =
            parse_arguments-LineOutcome exec argb
              (update (copy_chars (name_end - start) exec command start start) name_end 0) line
              (ground arith) (name_copied line exec) in
          (p, rw (begins, ends, short, parse_command) run, is)
    ]
