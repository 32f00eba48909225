-- ===== src/Machine/Keys.antt =====
-- A key keeps a stack of processes for each terminal, whatever its handler goes on to do.
use ece391_linux_os.Base.{
  ℕ, ◌<◌, ◌≡◌, inl, inr, refl, sym, ◌∙◌, ap, arith, true, false, Bool-cases, Option-cases, Option,
  none, some, ℤ, pos, List, [], ◌∷◌, ◌==◌, if◌then◌else◌,
}
use native.Mathlib.Decide.{ℕ_discrete}
use mathlib.Core.Path.{subst}
use ece391_linux_os.Console.{Terminal, terminal_count}
use ece391_linux_os.Console.Processes.{SameProcesses}
use ece391_linux_os.Keyboard.{KeyResult, done, switch_to, keyboard_handler}
use ece391_linux_os.Keyboard.Cases.{console_after, asked, keyboard_handler-asked}
use ece391_linux_os.Keyboard.Terminals.{keyboard_handler-SameProcesses}
use ece391_linux_os.Display.{switch_display}
use ece391_linux_os.Display.Keep.{Shows, switch_display-Shows}
use ece391_linux_os.Syscalls.{Kernel}
use ece391_linux_os.Syscalls.Tables.{SameTables}
use ece391_linux_os.Programs.{System, with_kernel, Scratch, Outcome, is_minus_one, shell_name}
use ece391_linux_os.Programs.Stacks.{Stacks, Fronts, flag, Chain-frame, Represents}
use ece391_linux_os.Programs.Stacks.Keep.{moved-Represents, SameTables-Represents}
use ece391_linux_os.Programs.Halting.{shell-IsLine}
use ece391_linux_os.Programs.Leaving.{
  Leaves, HasStacks, HasStacks-subst, some_injective, execute-HasStacks,
}
use ece391_linux_os.Machine.{
  KeyOutcome, handled, executed, name_process, start_shell, after_switch, switch_terminal,
  press_key, KeyLeaves,
}

pub same-HasStacks :
    {s : System} {k : Kernel} → SameTables s.kernel k → HasStacks s → HasStacks (with_kernel s k)
same-HasStacks h (stacks, r) = (stacks, SameTables-Represents h r)

Fronts-empty : (xs : List ℕ) (running : ℤ) → xs ≡ [] → Fronts xs running
Fronts-empty [] running e = tt
Fronts-empty (x ∷ xs) running e = absurd (ground (arith, e))

flag_empty : (xs : List ℕ) → is_minus_one (flag xs) ≡ true → xs ≡ []
flag_empty [] e = refl
flag_empty (x ∷ xs) e = absurd (ground (arith, e))

-- The visible terminal has no shell, and its `running_process` is set to its number.
naming-Represents :
    (s : System) (stacks : Stacks) (esp ebp tid : ℕ)
    → Represents s stacks
    → stacks s.kernel.console.t_visible ≡ []
    → Represents (with_kernel s (name_process esp ebp s.kernel tid)) stacks
naming-Represents s stacks esp ebp tid r empty = record {
  visible_is = r.visible_is;
  status = r.status;
  single = r.single;
  bounded = r.bounded;
  front_is = λ i lt. elim (ℕ_discrete i s.kernel.console.t_visible) [
    | yes e ↦ Fronts-empty (stacks i) _ (ap stacks e ∙ empty)
    | no ne ↦ subst (λ (running : ℤ). Fronts (stacks i) running) (ground arith) (r.front_is i lt)
  ];
  count_is = λ i lt. ground arith ∙ r.count_is i lt;
  flag_is = λ i lt. ground arith ∙ r.flag_is i lt;
  depth = r.depth;
  chain = λ i lt.
      Chain-frame s.kernel.pcb (name_process esp ebp s.kernel tid).pcb (stacks i)
        (λ p _. ground arith) (r.chain i lt);
}

start_shell-HasStacks :
    (scratch : Scratch) (esp ebp : ℕ) (s s' : System) (tid : ℕ) (o : Outcome)
    → HasStacks s
    → s.kernel.console.t_visible ≡ tid
    → is_minus_one (s.kernel.console.t tid).shell_flag ≡ true
    → start_shell scratch esp ebp s tid ≡ some o
    → Leaves o s'
    → HasStacks s'
unfolding start_shell
start_shell-HasStacks scratch esp ebp s s' tid o (stacks, r) shown none_yet e leaves =
    execute-HasStacks scratch esp ebp _ s' shell_name 0 5 5 5 o
      (
        stacks,
        naming-Represents s stacks esp ebp tid r (
            flag_empty (stacks s.kernel.console.t_visible) (
              ap is_minus_one (
                sym (r.flag_is s.kernel.console.t_visible r.visible_is)
                ∙ ap (λ (i : ℕ). (s.kernel.console.t i).shell_flag) shown)
              ∙ none_yet)),
      )
      shell-IsLine e leaves

-- The part of the handler behind the switch.
after_switch-HasStacks :
    (scratch : Scratch) (esp ebp : ℕ) (s s' : System) (tid : ℕ) (registers : Option (ℕ × ℕ))
    (o : KeyOutcome)
    → HasStacks s
    → s.kernel.console.t_visible ≡ tid
    → after_switch scratch esp ebp s tid registers ≡ some o
    → KeyLeaves o s'
    → HasStacks s'
after_switch-HasStacks scratch esp ebp s s' tid (some (a, b)) o h shown e leaves =
    HasStacks-subst (subst (λ (x : KeyOutcome). KeyLeaves x s') (sym (some_injective e)) leaves) h
after_switch-HasStacks scratch esp ebp s s' tid none o h shown e leaves =
    elim (Bool-cases
      (if tid == 0 then false else is_minus_one (s.kernel.console.t tid).shell_flag)) [
        | inl starts ↦ elim (Option-cases (start_shell scratch esp ebp s tid)) [
          | inl never ↦ absurd (ground (arith, rw (starts, never, after_switch) at e))
          | inr (shell, run) ↦
              start_shell-HasStacks scratch esp ebp s s' tid shell h shown (ground (arith, starts))
                run
                (subst (λ (x : KeyOutcome). KeyLeaves x s')
                  (sym (some_injective {a = executed shell} (rw (starts, run, after_switch) at e)))
                  leaves)
        ]
        | inr stays ↦
            HasStacks-subst
              (subst (λ (x : KeyOutcome). KeyLeaves x s')
                (sym (some_injective {a = handled s} (rw (stays, after_switch) at e))) leaves)
              h
      ]

switch_terminal-HasStacks :
    (scratch : Scratch) (esp ebp : ℕ) (s s' : System) (tid : ℕ) (o : KeyOutcome)
    → HasStacks s
    → tid < terminal_count
    → switch_terminal scratch esp ebp s tid ≡ some o
    → KeyLeaves o s'
    → HasStacks s'
unfolding switch_terminal
switch_terminal-HasStacks scratch esp ebp s s' tid o (stacks, r) lt e leaves =
    let (k, registers) = switch_display esp ebp s.kernel (pos tid) in
    let shows : Shows tid s.kernel k = switch_display-Shows esp ebp tid s.kernel lt in
    after_switch-HasStacks scratch esp ebp (with_kernel s k) s' tid registers o
      (
        stacks,
        moved-Represents {s = s} {stacks = stacks} {k = k}
            (subst (λ (v : ℕ). v < terminal_count) (sym shows.visible_is) lt)
            (λ i. (
              ap (λ (t : ℕ → Terminal). (t i).running_process) shows.terminals,
              ap (λ (t : ℕ → Terminal). (t i).process_ct) shows.terminals,
              ap (λ (t : ℕ → Terminal). (t i).shell_flag) shows.terminals,
            ))
            shows.blocks r,
      )
      shows.visible_is e leaves

-- What the handler keeps, for its result.
key_tables :
    (past : ℕ → ℕ) (k : Kernel) (scan_code : ℕ) (r : KeyResult)
    → keyboard_handler past k.console scan_code ≡ r
    → SameTables k (record k { console = console_after r }) × (asked r < terminal_count)
key_tables past k scan_code r is = (
  record {
    terminals =
        subst (λ (x : KeyResult). SameProcesses k.console (console_after x)) is
          (keyboard_handler-SameProcesses past k.console scan_code);
    blocks = record { blocks = λ a. (refl, refl, refl) };
  },
  subst (λ (x : KeyResult). asked x < terminal_count) is
      (keyboard_handler-asked past k.console scan_code),
)

key_result-HasStacks :
    (past : ℕ → ℕ) (scratch : Scratch) (esp ebp : ℕ) (s s' : System) (scan_code : ℕ)
    (o : KeyOutcome) (r : KeyResult)
    → HasStacks s
    → keyboard_handler past s.kernel.console scan_code ≡ r
    → press_key past scratch esp ebp s scan_code ≡ some o
    → KeyLeaves o s'
    → HasStacks s'
unfolding press_key
key_result-HasStacks past scratch esp ebp s s' scan_code o (done c) h is e leaves =
    HasStacks-subst
      (subst (λ (x : KeyOutcome). KeyLeaves x s')
        (sym (
          some_injective {a = handled (with_kernel s (record s.kernel { console = c }))}
            (rw (is, press_key) at e)))
        leaves)
      (same-HasStacks (key_tables past s.kernel scan_code (done c) is).0 h)
key_result-HasStacks past scratch esp ebp s s' scan_code o (switch_to tid c) h is e leaves =
    let (kept, lt) = key_tables past s.kernel scan_code (switch_to tid c) is in
    switch_terminal-HasStacks scratch esp ebp (with_kernel s (record s.kernel { console = c })) s'
      tid o (same-HasStacks kept h) lt (rw (is, press_key) at e) leaves

-- A key keeps the stacks.
pub press_key-HasStacks :
    (past : ℕ → ℕ) (scratch : Scratch) (esp ebp : ℕ) (s s' : System) (scan_code : ℕ)
    (o : KeyOutcome)
    → HasStacks s
    → press_key past scratch esp ebp s scan_code ≡ some o
    → KeyLeaves o s'
    → HasStacks s'
press_key-HasStacks past scratch esp ebp s s' scan_code o h e leaves =
    key_result-HasStacks past scratch esp ebp s s' scan_code o
      (keyboard_handler past s.kernel.console scan_code) h refl e leaves
