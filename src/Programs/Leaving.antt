-- ===== src/Programs/Leaving.antt =====
-- What `execute` and `halt` leave, on every way that they go.
use ece391_linux_os.Base.{ℕ, ◌≡◌, refl, sym, ◌∙◌, arith, Bytes, Option, some, pos, List, [], ◌∷◌}
use mathlib.Core.Path.{subst}
use ece391_linux_os.Process.{Pcb}
use ece391_linux_os.Console.{visible}
use ece391_linux_os.Syscalls.Tables.{same_fields}
use ece391_linux_os.Command.Parse.{IsLine}
use ece391_linux_os.Programs.{
  System, Scratch, Outcome, failed, started, returned, crashed, execute, halt, return_to_parent,
  after_shell,
}
use ece391_linux_os.Programs.Stacks.{Stacks, Represents}
use ece391_linux_os.Programs.Stacks.Keep.{SameTables-Represents}
use ece391_linux_os.Programs.Executing.{
  ExecuteOutcome, no_process, terminal_full, bad_line, long_arguments, no_program, big_program,
  runs, execute-ExecuteOutcome,
}
use ece391_linux_os.Programs.Halting.{halt-Represents, halt-shell}

-- The system that an outcome leaves to go on with.
abbrev pub Leaves : Outcome → System → Type 0
Leaves (failed s) s' = s ≡ s'
Leaves (started entry_point s) s' = s ≡ s'
Leaves (returned status esp ebp s) s' = s ≡ s'
Leaves crashed s' = ⊥

abbrev pub HasStacks : System → Type 0
HasStacks s = (stacks : Stacks) × Represents s stacks

pub HasStacks-subst : {s s' : System} → s ≡ s' → HasStacks s → HasStacks s'
HasStacks-subst e h = subst HasStacks e h

pub some_injective : {A : Type 0} {a b : A} → ◌≡◌ {A = Option A} (some a) (some b) → a ≡ b
some_injective e = cc

outcome-HasStacks :
    {scratch : Scratch} {esp ebp : ℕ} {s : System} {stacks : Stacks} {command : Bytes}
    {start name_end arg_start arg_end : ℕ} {o : Outcome} {s' : System}
    → Represents s stacks
    → ExecuteOutcome scratch esp ebp s stacks command start name_end arg_start arg_end o
    → Leaves o s'
    → HasStacks s'
outcome-HasStacks {stacks = stacks} r (no_process all) e = HasStacks-subst e (stacks, r)
outcome-HasStacks {stacks = stacks} r (terminal_full full) e = HasStacks-subst e (stacks, r)
outcome-HasStacks {stacks = stacks} r (bad_line bad) e = HasStacks-subst e (stacks, r)
outcome-HasStacks r (long_arguments long) e = absurd e
outcome-HasStacks {stacks = stacks} r (no_program exec argb n line name found) e =
    HasStacks-subst e (stacks, r)
outcome-HasStacks r (big_program exec argb b n d line name found there big) e = absurd e
outcome-HasStacks r (runs exec argb b b' n p d ret t line name found entry low starts after) e =
    HasStacks-subst e (_, after)

pub execute-HasStacks :
    (scratch : Scratch) (esp ebp : ℕ) (s s' : System) (command : Bytes)
    (start name_end arg_start arg_end : ℕ) (o : Outcome)
    → HasStacks s
    → IsLine command start name_end arg_start arg_end
    → execute scratch esp ebp s (some command) ≡ some o
    → Leaves o s'
    → HasStacks s'
execute-HasStacks scratch esp ebp s s' command start name_end arg_start arg_end o (stacks, r) line e
      leaves =
    let (o', run, outcome) =
      execute-ExecuteOutcome scratch esp ebp s stacks command start name_end arg_start arg_end r
        line in
    outcome-HasStacks r outcome
      (subst (λ (x : Outcome). Leaves x s') (some_injective (sym e ∙ run)) leaves)

-- The end of `halt` keeps the stacks.
parent-HasStacks :
    {s s' : System} {stacks : Stacks} (status : ℕ) (block : Pcb)
    → Represents s stacks
    → Leaves (return_to_parent s status block) s'
    → HasStacks s'
unfolding return_to_parent
parent-HasStacks {s = s} {stacks = stacks} status block r e =
    HasStacks-subst e (stacks, SameTables-Represents (same_fields s.kernel _ refl refl) r)

-- A shell that is not started leaves the end of `halt` to run.
after_shell-HasStacks :
    {scratch : Scratch} {esp ebp : ℕ} {s : System} {stacks : Stacks} {command : Bytes}
    {start name_end arg_start arg_end : ℕ} {o : Outcome} {s' : System} (status : ℕ) (block : Pcb)
    → Represents s stacks
    → ExecuteOutcome scratch esp ebp s stacks command start name_end arg_start arg_end o
    → Leaves (after_shell o status block) s'
    → HasStacks s'
unfolding after_shell
after_shell-HasStacks status block r (no_process all) e = parent-HasStacks status block r e
after_shell-HasStacks status block r (terminal_full full) e = parent-HasStacks status block r e
after_shell-HasStacks status block r (bad_line bad) e = parent-HasStacks status block r e
after_shell-HasStacks status block r (long_arguments long) e = absurd e
after_shell-HasStacks status block r (no_program exec argb n line name found) e =
    parent-HasStacks status block r e
after_shell-HasStacks status block r (big_program exec argb b n d line name found there big) e =
    absurd e
after_shell-HasStacks status block r
      (runs exec argb b b' n p d ret t line name found entry low starts after) e =
    HasStacks-subst e (_, after)

-- `halt` of the process in front, whether or not it is alone.
pub halt-HasStacks :
    (scratch : Scratch) (esp ebp : ℕ) (s s' : System) (status : ℕ) (o : Outcome)
    → HasStacks s
    → (visible s.kernel.console).shell_flag ≡ pos 0
    → halt scratch esp ebp s status ≡ some o
    → Leaves o s'
    → HasStacks s'
halt-HasStacks scratch esp ebp s s' status o (stacks, r) shell e leaves =
    front (stacks s.kernel.console.t_visible) refl
  where
    front : (xs : List ℕ) → stacks s.kernel.console.t_visible ≡ xs → HasStacks s'
    front [] top =
        absurd (ground (arith, r.flag_is s.kernel.console.t_visible r.visible_is, top, shell))
    front (p ∷ []) top =
        let (idle, o', block, r', outcome, _, _, _, run) =
          halt-shell scratch esp ebp s stacks status p r top in
        after_shell-HasStacks status block r' outcome
          (subst (λ (x : Outcome). Leaves x s') (some_injective (sym e ∙ run)) leaves)
    front (p ∷ q ∷ rest) top =
        let (t, run, after, _, _, _) =
          halt-Represents scratch esp ebp s stacks status p q rest r top in
        HasStacks-subst (subst (λ (x : Outcome). Leaves x s') (some_injective (sym e ∙ run)) leaves)
          (_, after)
