-- ===== src/Syscalls/Tables.antt =====
-- What a change of the kernel must keep for the processes' tables to stay.
use ece391_linux_os.Base.{ℕ, ◌≡◌, refl, sym, ◌∙◌, ap}
use mathlib.Core.Path.{subst}
use ece391_linux_os.Process.{Pcb}
use ece391_linux_os.Console.{Console}
use ece391_linux_os.Console.Processes.{SameProcesses, SameProcesses-refl, SameProcesses-trans}
use ece391_linux_os.Syscalls.{Kernel}

pub record SameBlocks (k k' : Kernel) : Type 0 where
  pub blocks :
      (a : ℕ)
      → ((k'.pcb a).pid ≡ (k.pcb a).pid)
        × ((k'.pcb a).parent_pid ≡ (k.pcb a).parent_pid)
        × ((k'.pcb a).esp0 ≡ (k.pcb a).esp0)

-- The terminals' records and the blocks say the same of the processes.
pub record SameTables (k k' : Kernel) : Type 0 where
  pub terminals : SameProcesses k.console k'.console
  pub blocks : SameBlocks k k'

pub SameBlocks-refl : (k : Kernel) → SameBlocks k k
SameBlocks-refl k = record { blocks = λ a. (refl, refl, refl) }

pub SameTables-refl : (k : Kernel) → SameTables k k
SameTables-refl k = record { terminals = SameProcesses-refl k.console; blocks = SameBlocks-refl k }

pub SameTables-trans : {k k' k'' : Kernel} → SameTables k k' → SameTables k' k'' → SameTables k k''
SameTables-trans h h' = record {
  terminals = SameProcesses-trans h.terminals h'.terminals;
  blocks = record {
    blocks = λ a.
        let (x, y, z) = h.blocks.blocks a in
        let (x', y', z') = h'.blocks.blocks a in (x' ∙ x, y' ∙ y, z' ∙ z);
  };
}

-- Neither the records of the terminals nor the blocks are touched.
pub same_fields : (k k' : Kernel) → k'.console ≡ k.console → k'.pcb ≡ k.pcb → SameTables k k'
same_fields k k' console pcb = record {
  terminals =
      subst (λ (c : Console). SameProcesses k.console c) (sym console)
        (SameProcesses-refl k.console);
  blocks = record {
    blocks = λ a. (
      ap (λ (b : ℕ → Pcb). (b a).pid) pcb,
      ap (λ (b : ℕ → Pcb). (b a).parent_pid) pcb,
      ap (λ (b : ℕ → Pcb). (b a).esp0) pcb,
    );
  };
}
