-- ===== src/Programs/Stacks/Keep.antt =====
-- Where the processes' tables stay, the stacks do.
use ece391_linux_os.Base.{ℕ, ◌<◌, ◌≡◌, sym, ◌∙◌, List, [], ◌∷◌, ℤ, pos}
use mathlib.Core.Path.{subst}
use ece391_linux_os.Process.{get_pcb}
use ece391_linux_os.Console.{terminal_count}
use ece391_linux_os.Syscalls.{Kernel}
use ece391_linux_os.Syscalls.Tables.{SameBlocks, SameTables}
use ece391_linux_os.Programs.{System, with_kernel}
use ece391_linux_os.Programs.Stacks.{Stacks, Fronts, Chain-frame, Represents}

fronts :
    (xs : List ℕ) (running running' : ℤ)
    → running' ≡ running
    → Fronts xs running
    → Fronts xs running'
fronts [] running running' same h = h
fronts (x ∷ xs) running running' same h = same ∙ h

-- A terminal may become visible.
pub moved-Represents :
    {s : System} {stacks : Stacks} {k : Kernel}
    → k.console.t_visible < terminal_count
    → ((i : ℕ)
        → ((k.console.t i).running_process ≡ (s.kernel.console.t i).running_process)
          × ((k.console.t i).process_ct ≡ (s.kernel.console.t i).process_ct)
          × ((k.console.t i).shell_flag ≡ (s.kernel.console.t i).shell_flag))
    → SameBlocks s.kernel k
    → Represents s stacks
    → Represents (with_kernel s k) stacks
moved-Represents {s = s} {stacks = stacks} {k = k} v same h r = record {
  visible_is = v;
  status = r.status;
  single = r.single;
  bounded = r.bounded;
  front_is = λ i lt. fronts (stacks i) _ _ (same i).0 (r.front_is i lt);
  count_is = λ i lt. (same i).1 ∙ r.count_is i lt;
  flag_is = λ i lt. (same i).2 ∙ r.flag_is i lt;
  depth = r.depth;
  chain = λ i lt.
      Chain-frame s.kernel.pcb k.pcb (stacks i) (λ p _. h.blocks (get_pcb (pos p))) (r.chain i lt);
}

-- The stacks then stay.
pub SameTables-Represents :
    {s : System} {stacks : Stacks} {k : Kernel}
    → SameTables s.kernel k
    → Represents s stacks
    → Represents (with_kernel s k) stacks
SameTables-Represents {s = s} {stacks = stacks} {k = k} h r =
    moved-Represents {s = s} {stacks = stacks} {k = k}
      (subst (λ v. v < terminal_count) (sym h.terminals.same_visible) r.visible_is) h.terminals.same
      h.blocks r
