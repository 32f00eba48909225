-- ===== src/Boot/Runs.antt =====
-- What runs after the boot.
use ece391_linux_os.Base.{
  [], ℕ, ◌≡◌, inl, inr, sym, arith, Bytes, Option, some, Option-cases, pos, update,
}
use mathlib.Core.Path.{subst}
use ece391_linux_os.Process.{get_pcb}
use ece391_linux_os.Console.{Console, clear}
use ece391_linux_os.Console.Processes.{SameProcesses}
use ece391_linux_os.Console.Start.{Fresh, same-Fresh}
use ece391_linux_os.Syscalls.{Kernel}
use ece391_linux_os.Programs.{System, with_kernel, Scratch, Outcome, shell_name, execute}
use ece391_linux_os.Programs.Stacks.{Stacks, Represents}
use ece391_linux_os.Programs.Halting.{shell-IsLine}
use ece391_linux_os.Programs.Leaving.{Leaves, HasStacks, execute-HasStacks}
use ece391_linux_os.Programs.Stacks.Keep.{SameTables-Represents}
use ece391_linux_os.Console.Print.Processes.{Same, kept}
use ece391_linux_os.Boot.Text.{text}
use ece391_linux_os.Machine.{Reach}
use ece391_linux_os.Machine.Invariant.{Reach-HasStacks}
use ece391_linux_os.Boot.{
  Platform, Computer, Ending, executes, initialize, start_shell, after_report, entry,
}
use ece391_linux_os.Boot.Lines.{say, Report, stopped, goes_on, report}
use ece391_linux_os.Boot.Descriptors.{SegDesc}
use ece391_linux_os.Boot.Lines.Processes.{
  report_console, SameReport, reported, say-Same, report-Same,
}
use ece391_linux_os.Boot.Start.{no_stacks, initialize-Represents}

report_kept :
    {c : Console} {r : Report} → SameReport c (some r) → SameProcesses c (report_console r)
report_kept (reported h) = h

Same-kept : {c d : Console} → Same c (some d) → SameProcesses c d
Same-kept (kept h) = h

-- The first process of a pair.
pair_first :
    {A B : Type 0} {a a' : A} {b b' : B}
    → ◌≡◌ {A = Option (A × B)} (some (a, b)) (some (a', b'))
    → a ≡ a'
pair_first e = cc

start_shell-HasStacks :
    (fuel : ℕ) (junk : Bytes) (scratch : Scratch) (esp ebp : ℕ) (b b' : Computer) (o : Outcome)
    (s : System)
    → HasStacks b.system
    → start_shell fuel junk scratch esp ebp b ≡ some (o, b')
    → Leaves o s
    → HasStacks s
unfolding start_shell
start_shell-HasStacks fuel junk scratch esp ebp b b' o s (stacks, r) e leaves =
    let k : Kernel = b.system.kernel in
    elim (Option-cases (say fuel junk (text "Enabling Interrupts\n") [] k.console)) [
      | inl never ↦ absurd (ground (arith, rw (never, start_shell) at e))
      | inr (c, said) ↦
          let k' : Kernel = record k {
            console = c;
            pcb =
                update k.pcb (get_pcb (pos 0))
                  (record (k.pcb (get_pcb (pos 0))) { cur_esp = esp; cur_ebp = ebp });
          } in
          let same : SameProcesses k.console c = Same-kept (
            subst (λ (x : Option Console). Same k.console x) said
              (say-Same fuel junk (text "Enabling Interrupts\n") [] k.console)) in
          let r' : HasStacks (with_kernel b.system k') = (
            stacks,
            SameTables-Represents {s = b.system} {stacks = stacks} {k = k'}
                (record { terminals = same; blocks = record { blocks = λ a. ground arith } }) r,
          ) in
          elim (Option-cases
            (execute scratch esp ebp (with_kernel b.system k') (some shell_name))) [
              | inl never ↦ absurd (ground (arith, rw (said, never, start_shell) at e))
              | inr (o', run) ↦
                  execute-HasStacks scratch esp ebp (with_kernel b.system k') s shell_name 0 5 5 5
                    o' r' shell-IsLine run
                    (subst (λ (x : Outcome). Leaves x s)
                      (sym (pair_first (rw (said, run, start_shell) at e))) leaves)
            ]
    ]

ending_outcome :
    {o o' : Outcome} {b b' : Computer}
    → ◌≡◌ {A = Option Ending} (some (executes o b)) (some (executes o' b'))
    → o ≡ o'
ending_outcome e = cc

module _ (fuel : ℕ) (junk : Bytes) (h : Platform) (junk_ldt junk_tss : SegDesc) (scratch : Scratch)
    (esp ebp : ℕ) where
  after_report-HasStacks :
      (b b' : Computer) (r : Report) (o : Outcome) (s : System)
      → Fresh (report_console r)
      → after_report fuel junk h junk_ldt junk_tss scratch esp ebp b r ≡ some (executes o b')
      → Leaves o s
      → HasStacks s
  after_report-HasStacks b b' (stopped fs c) o s f e leaves = absurd (ground (arith, e))
  after_report-HasStacks b b' (goes_on fs c) o s f e leaves =
      let b0 : Computer = record b {
        system = with_kernel b.system (record b.system.kernel { console = c; fs = fs });
      } in
      let ready : Computer = initialize h junk_ldt junk_tss b0 in
      let r : HasStacks ready.system =
        (no_stacks, initialize-Represents h junk_ldt junk_tss b0 f) in
      elim (Option-cases (start_shell fuel junk scratch esp ebp ready)) [
        | inl never ↦ absurd (ground (arith, rw (never, after_report) at e))
        | inr ((o', b''), run) ↦
            start_shell-HasStacks fuel junk scratch esp ebp ready b'' o' s r run (
              subst (λ (x : Outcome). Leaves x s)
                (sym (ending_outcome (rw (run, after_report) at e))) leaves)
      ]

-- Every state that the kernel comes to from its start, by system calls and keys in any order, has a
-- stack of processes for each of the three terminals, as its tables say: no process stands on two
-- of them or twice on one, a process is taken where it stands on one, no terminal has more than
-- four, each terminal's record names its front process, and each block names the process below it.
-- The terminals' counts are zero at the start.
pub entry-Reach :
    (fuel : ℕ) (junk : Bytes) (h : Platform) (junk_ldt junk_tss : SegDesc) (scratch : Scratch)
    (esp ebp magic addr : ℕ) (b b' : Computer) (o : Outcome) (s s' : System)
    → Fresh b.system.kernel.console
    → entry fuel junk h junk_ldt junk_tss scratch esp ebp magic addr b ≡ some (executes o b')
    → Leaves o s
    → Reach s s'
    → (stacks : Stacks) × Represents s' stacks
unfolding entry
entry-Reach fuel junk h junk_ldt junk_tss scratch esp ebp magic addr b b' o s s' f e leaves reach =
    let k : Kernel = b.system.kernel in
    let cleared : Console = record k.console { mem = clear k.console.mem } in
    elim (Option-cases (report fuel junk magic addr k.fs cleared)) [
      | inl never ↦ absurd (ground (arith, rw (never, entry) at e))
      | inr (r, is) ↦
          let same : SameProcesses cleared (report_console r) = report_kept (
            subst (λ (x : Option Report). SameReport cleared x) is
              (report-Same fuel junk magic addr k.fs cleared)) in
          let (stacks, r') =
            after_report-HasStacks fuel junk h junk_ldt junk_tss scratch esp ebp b b' r o s
              (same-Fresh same (record { visible_is = f.visible_is; count_is = f.count_is }))
              (rw (is, entry) at e) leaves in
          Reach-HasStacks s s' stacks r' reach
    ]
