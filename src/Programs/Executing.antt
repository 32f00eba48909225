-- ===== src/Programs/Executing.antt =====
-- What `execute` of student-distrib/system_calls.c comes to for a command line.
use ece391_linux_os.Base.{
  ℕ, ◌-◌, ◌<◌, ◌≤◌, ◌≡◌, ◌≢◌, inl, inr, ◌∙◌, arith, true, false, Option, none, some, Bytes, update,
  Bool-cases, ℤ, ◌∷◌,
}
use ece391_linux_os.CLib.Str.Laws.{IsString}
use ece391_linux_os.CLib.Str.Ends.{zero-IsString}
use ece391_linux_os.Process.{process_count}
use ece391_linux_os.FileSys.{Dentry, u32_at, inode_length, num_of_inodes, read_data}
use ece391_linux_os.FileSys.Total.{read_data_returns}
use ece391_linux_os.Console.{visible}
use ece391_linux_os.Command.{Parsed, refused, parsed, overrun, parse_command}
use ece391_linux_os.Command.Parse.{IsLine, LineOutcome, split, parse_command-LineOutcome}
use ece391_linux_os.Programs.{
  System, Scratch, Outcome, failed, started, crashed, is_minus_one, over_limit, find_process,
  find_program, program_room, execute_program, execute,
}
use ece391_linux_os.Programs.Stacks.{Stacks, length, uses, Represents}
use ece391_linux_os.Programs.Stacks.Push.{Pushes-Represents}
use ece391_linux_os.Programs.Search.{find_process_lem, ProgramSearch, find_program-ProgramSearch}
use ece391_linux_os.Programs.Starting.{
  Starts, StartOutcome, too_big, running_now, start_process-StartOutcome,
}

-- What `execute` may come to, for a line with these stacks.
pub data ExecuteOutcome (scratch : Scratch) (esp ebp : ℕ) (s : System) (stacks : Stacks)
    (command : Bytes) (start name_end arg_start arg_end : ℕ) : Outcome → Type 0 where
  no_process :
      ((p : ℕ) → p < process_count → uses stacks p ≢ 0)
      → ExecuteOutcome scratch esp ebp s stacks command start name_end arg_start arg_end (failed s)
  terminal_full :
      length (stacks s.kernel.console.t_visible) ≡ 4
      → ExecuteOutcome scratch esp ebp s stacks command start name_end arg_start arg_end (failed s)
  bad_line :
      LineOutcome command scratch.exec scratch.argb start name_end arg_start arg_end refused
      → ExecuteOutcome scratch esp ebp s stacks command start name_end arg_start arg_end (failed s)
  long_arguments :
      LineOutcome command scratch.exec scratch.argb start name_end arg_start arg_end overrun
      → ExecuteOutcome scratch esp ebp s stacks command start name_end arg_start arg_end crashed
  no_program :
      (exec argb : Bytes) (n : ℕ)
      → LineOutcome command scratch.exec scratch.argb start name_end arg_start arg_end
          (parsed exec argb)
      → IsString exec n
      → ProgramSearch s.kernel.fs exec scratch.buffer n none
      → ExecuteOutcome scratch esp ebp s stacks command start name_end arg_start arg_end (failed s)
  big_program :
      (exec argb b : Bytes) (n : ℕ) (d : Dentry)
      → LineOutcome command scratch.exec scratch.argb start name_end arg_start arg_end
          (parsed exec argb)
      → IsString exec n
      → ProgramSearch s.kernel.fs exec scratch.buffer n (some (d, b))
      → d.inode < num_of_inodes s.kernel.fs
      → program_room < inode_length s.kernel.fs d.inode
      → ExecuteOutcome scratch esp ebp s stacks command start name_end arg_start arg_end crashed
  runs :
      (exec argb b b' : Bytes) (n p : ℕ) (d : Dentry) (ret : ℤ) (s' : System)
      → LineOutcome command scratch.exec scratch.argb start name_end arg_start arg_end
          (parsed exec argb)
      → IsString exec n
      → ProgramSearch s.kernel.fs exec scratch.buffer n (some (d, b))
      → read_data s.kernel.fs d.inode 24 b 0 4 ≡ some (ret, b')
      → (p < process_count) × (uses stacks p ≡ 0) × ((q : ℕ) → q < p → uses stacks q ≢ 0)
      → Starts esp ebp s p d s'
      → Represents s'
          (update stacks s.kernel.console.t_visible (p ∷ stacks s.kernel.console.t_visible))
      → ExecuteOutcome scratch esp ebp s stacks command start name_end arg_start arg_end
          (started (u32_at b' 0) s')

free-uses :
    (s : System) (stacks : Stacks) (p : ℕ)
    → Represents s stacks
    → p < process_count
    → (is_minus_one (s.process_status p) ≡ true → uses stacks p ≡ 0)
      × (is_minus_one (s.process_status p) ≡ false → uses stacks p ≢ 0)
free-uses s stacks p r lt = (λ e. ground (arith, r.status p lt), λ e. ground (arith, r.status p lt))

over_limit_lem :
    (s : System) (stacks : Stacks)
    → Represents s stacks
    → let n = length (stacks s.kernel.console.t_visible) in
      (over_limit (visible s.kernel.console).process_ct ≡ true → n ≡ 4)
      × (over_limit (visible s.kernel.console).process_ct ≡ false → n ≤ 3)
over_limit_lem s stacks r =
    let ct = r.count_is s.kernel.console.t_visible r.visible_is in
    let deep = r.depth s.kernel.console.t_visible r.visible_is in
    (λ e. ground (arith, ct, deep), λ e. ground (arith, ct))

-- Both arrays of a parsed line hold strings of at most 32 characters.
parsed-IsString :
    {command exec argb e a : Bytes} {start name_end arg_start arg_end : ℕ}
    → LineOutcome command exec argb start name_end arg_start arg_end (parsed e a)
    → ((n : ℕ) × (n < 33) × IsString e n) × ((n : ℕ) × (n < 33) × IsString a n)
parsed-IsString {name_end = name_end} {arg_start} {arg_end}
      (split e a short line short' other is is') =
    let (n, le, h) = zero-IsString e name_end (is name_end ∙ ground arith) in
    let (n', le', h') =
      zero-IsString a (arg_end - arg_start) (is' (arg_end - arg_start) ∙ ground arith) in
    ((n, omega arith, h), (n', omega arith, h'))

-- The process is the lowest one that is free.
abbrev IsLowest : Stacks → ℕ → Type 0
IsLowest stacks p =
    (p < process_count) × (uses stacks p ≡ 0) × ((q : ℕ) → q < p → uses stacks q ≢ 0)

module _ (scratch : Scratch) (esp ebp : ℕ) (s : System) (stacks : Stacks) (command : Bytes)
    (start name_end arg_start arg_end : ℕ) (r : Represents s stacks) where
  abbrev Line : Parsed → Type 0
  Line = LineOutcome command scratch.exec scratch.argb start name_end arg_start arg_end

  abbrev After : Outcome → Type 0
  After = ExecuteOutcome scratch esp ebp s stacks command start name_end arg_start arg_end

  -- From the start of the process on.
  started-After :
      (exec argb b b' : Bytes) (d : Dentry) {n p : ℕ} {ret : ℤ} {o : Outcome}
      → Line (parsed exec argb)
      → IsLowest stacks p
      → length (stacks s.kernel.console.t_visible) ≤ 3
      → IsString exec n
      → ProgramSearch s.kernel.fs exec scratch.buffer n (some (d, b))
      → read_data s.kernel.fs d.inode 24 b 0 4 ≡ some (ret, b')
      → StartOutcome esp ebp s p (u32_at b' 0) d o
      → After o
  started-After exec argb b b' d line free room name found entry (too_big there big) =
      big_program exec argb b _ d line name found there big
  started-After exec argb b b' d line (lt, fresh, lowest) room name found entry (running_now s' h) =
      runs exec argb b b' _ _ _ _ s' line name found entry (lt, fresh, lowest) h
        (Pushes-Represents r lt fresh room h.pushes)

  -- From the search for the program on.
  searched-After :
      (exec argb : Bytes) (p n n' : ℕ)
      → Line (parsed exec argb)
      → IsLowest stacks p
      → length (stacks s.kernel.console.t_visible) ≤ 3
      → IsString exec n
      → IsString argb n'
      → n' < 33
      → (found : Option (Dentry × Bytes))
      → find_program s.kernel.fs exec scratch.buffer ≡ some found
      → ProgramSearch s.kernel.fs exec scratch.buffer n found
      → (o : Outcome) × (execute_program scratch esp ebp s p exec argb ≡ some o) × After o
  unfolding execute_program
  searched-After exec argb p n n' line free room name args small none run found =
      (failed s, rw (run, execute_program), no_program exec argb n line name found)
  searched-After exec argb p n n' line free room name args small (some (d, b)) run found =
      let (ret, b', entry) = read_data_returns s.kernel.fs d.inode 24 b 0 4 in
      let (o, start_run, is) =
        start_process-StartOutcome scratch esp ebp s p argb d (u32_at b' 0) n' args small in
      (
        o,
        rw (run, entry, execute_program) start_run,
        started-After exec argb b b' d line free room name found entry is,
      )

  -- From the parsed line on.
  parsed-After :
      (p : ℕ)
      → find_process process_count s.process_status 0 ≡ some p
      → over_limit (visible s.kernel.console).process_ct ≡ false
      → IsLowest stacks p
      → (parse : Parsed) → parse_command command scratch.exec scratch.argb ≡ some parse
      → Line parse
      → (o : Outcome) × (execute scratch esp ebp s (some command) ≡ some o) × After o
  unfolding execute
  parsed-After p found ok free refused run line =
      (failed s, rw (found, ok, run, execute), bad_line line)
  parsed-After p found ok free overrun run line =
      (crashed, rw (found, ok, run, execute), long_arguments line)
  parsed-After p found ok free (parsed exec argb) run line =
      let ((n, small, name), (n', small', args)) = parsed-IsString line in
      let (program, program_run, is) =
        find_program-ProgramSearch s.kernel.fs exec scratch.buffer n name small in
      let (o, exec_run, outcome) =
        searched-After exec argb p n n' line free ((over_limit_lem s stacks r).1 ok) name args
          small' program program_run is in
      (o, rw (found, ok, run, execute) exec_run, outcome)

-- `execute` of a command line of less than 256 characters, in a system whose tables hold a stack of
-- processes for each terminal, always comes to an end. It returns -1 and changes nothing where all
-- six processes are taken, the visible terminal has four, or the line or the program is refused; or
-- it starts the program as the lowest free process, on top of the visible terminal's stack, which
-- the tables then hold; or it runs into arguments or a program that are too long for their place.
pub execute-ExecuteOutcome :
    (scratch : Scratch) (esp ebp : ℕ) (s : System) (stacks : Stacks) (command : Bytes)
    (start name_end arg_start arg_end : ℕ)
    → Represents s stacks
    → IsLine command start name_end arg_start arg_end
    → (o : Outcome) × (execute scratch esp ebp s (some command) ≡ some o)
      × ExecuteOutcome scratch esp ebp s stacks command start name_end arg_start arg_end o
unfolding execute
execute-ExecuteOutcome scratch esp ebp s stacks command start name_end arg_start arg_end r line =
    elim (find_process_lem process_count s.process_status 0) [
      | inl (full, all) ↦ (
        failed s,
        rw (full, execute),
        no_process (λ p lt. (free-uses s stacks p r lt).1 (all p (omega arith) lt)),
      )
      | inr (p, found, le, lt, free, below) ↦
          elim (Bool-cases (over_limit (visible s.kernel.console).process_ct)) [
            | inl over ↦ (
              failed s,
              rw (found, over, execute),
              terminal_full ((over_limit_lem s stacks r).0 over),
            )
            | inr ok ↦
                let (parse, run, outcome) =
                  parse_command-LineOutcome command scratch.exec scratch.argb start name_end
                    arg_start arg_end line in
                parsed-After scratch esp ebp s stacks command start name_end arg_start arg_end r p
                  found ok
                  (
                    lt,
                    (free-uses s stacks p r lt).0 free,
                    λ q q_lt. (free-uses s stacks q r (omega arith)).1 (below q (omega arith) q_lt),
                  )
                  parse run outcome
          ]
    ]
