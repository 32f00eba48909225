-- ===== src/Programs/Stacks.antt =====
-- The abstract view of the processes: a stack of them for each terminal, the front one on top.
pub mod Changes
pub mod Push
pub mod Pop
pub mod Keep
use ece391_linux_os.Base.{
  ℕ, zero, suc, ◌+◌, ◌<◌, ◌≤◌, ◌≡◌, ◌≢◌, ◌⊎◌, inl, inr, refl, ◌∙◌, ap, sym, arith, List, [], ◌∷◌,
  Bool, true, false, update, ◌==◌, ltb, if◌then◌else◌, Bool-cases, ℤ, pos, minus_one, ==→eq,
}
use ece391_linux_os.Process.{Pcb, get_pcb, kernel_stack, process_count}
use ece391_linux_os.Console.{Console, Terminal, visible, terminal_count}
use ece391_linux_os.Syscalls.{Kernel}
use ece391_linux_os.Programs.{System, inc, dec, is_minus_one}

abbrev pub Stacks : Type 0
Stacks = ℕ → List ℕ

unfoldable pub count : ℕ → List ℕ → ℕ
count p [] = 0
count p (x ∷ xs) = (if p == x then 1 else 0) + count p xs

unfoldable pub length : List ℕ → ℕ
length [] = 0
length (x ∷ xs) = suc (length xs)

-- How often a process stands on the stacks of the three terminals.
abbrev pub uses : Stacks → ℕ → ℕ
uses stacks p = count p (stacks 0) + count p (stacks 1) + count p (stacks 2)

-- What a terminal's record holds for its stack. Without processes its `running_process` may be
-- anything: the keyboard's handler sets it before it starts a shell.
abbrev pub Fronts : List ℕ → ℤ → Type 0
Fronts [] running = Unit
Fronts (p ∷ rest) running = running ≡ pos p

abbrev pub flag : List ℕ → ℤ
flag [] = minus_one
flag (p ∷ rest) = pos 0

-- The parent of `p`, which stands on `rest`: a shell at the bottom is its own.
abbrev pub parent_of : ℕ → List ℕ → ℕ
parent_of p [] = p
parent_of p (q ∷ rest) = q

-- The blocks of the processes name the process below them, and its kernel stack.
abbrev pub Chain : (ℕ → Pcb) → List ℕ → Type 0
Chain pcb [] = Unit
Chain pcb (p ∷ rest) =
    ((pcb (get_pcb (pos p))).pid ≡ pos p)
    × ((pcb (get_pcb (pos p))).parent_pid ≡ pos (parent_of p rest))
    × ((pcb (get_pcb (pos p))).esp0 ≡ kernel_stack (pos (parent_of p rest)))
    × Chain pcb rest

-- The kernel's tables hold these stacks: a process is taken if it stands on one, and stands on one
-- only once; the terminals' records and the blocks fit; no stack has more than four processes.
pub record Represents (s : System) (stacks : Stacks) : Type 0 where
  pub visible_is : s.kernel.console.t_visible < terminal_count
  pub status :
      (p : ℕ)
      → p < process_count
      → s.process_status p ≡ (if uses stacks p == 0 then minus_one else pos 1)
  pub single : (p : ℕ) → uses stacks p ≤ 1
  pub bounded : (p : ℕ) → process_count ≤ p → uses stacks p ≡ 0
  pub front_is :
      (i : ℕ) → i < terminal_count → Fronts (stacks i) (s.kernel.console.t i).running_process
  pub count_is :
      (i : ℕ) → i < terminal_count → (s.kernel.console.t i).process_ct ≡ pos (length (stacks i))
  pub flag_is : (i : ℕ) → i < terminal_count → (s.kernel.console.t i).shell_flag ≡ flag (stacks i)
  pub depth : (i : ℕ) → i < terminal_count → length (stacks i) ≤ 4
  pub chain : (i : ℕ) → i < terminal_count → Chain s.kernel.pcb (stacks i)

-- The processes' blocks are apart.
pub get_pcb_injective :
    (p q : ℕ) → p < process_count → q < process_count → get_pcb (pos p) ≡ get_pcb (pos q) → p ≡ q
unfolding get_pcb
get_pcb_injective p q hp hq e = omega arith

-- A chain depends only on the blocks of its own processes.
pub Chain-frame :
    (pcb pcb' : ℕ → Pcb) (xs : List ℕ)
    → ((p : ℕ)
        → 0 < count p xs
        → ((pcb' (get_pcb (pos p))).pid ≡ (pcb (get_pcb (pos p))).pid)
          × ((pcb' (get_pcb (pos p))).parent_pid ≡ (pcb (get_pcb (pos p))).parent_pid)
          × ((pcb' (get_pcb (pos p))).esp0 ≡ (pcb (get_pcb (pos p))).esp0))
    → Chain pcb xs
    → Chain pcb' xs
unfolding count
Chain-frame pcb pcb' [] same h = h
Chain-frame pcb pcb' (p ∷ rest) same (pid, parent, esp0, h) =
    let (pid', parent', esp0') = same p (ground arith) in
    (
      pid' ∙ pid,
      parent' ∙ parent,
      esp0' ∙ esp0,
      Chain-frame pcb pcb' rest (λ q lt. same q (ground arith)) h,
    )

pub count-uses :
    (stacks : Stacks) (i p : ℕ) → i < terminal_count → count p (stacks i) ≤ uses stacks p
count-uses stacks zero p h = omega arith
count-uses stacks (suc zero) p h = omega arith
count-uses stacks (suc (suc zero)) p h = omega arith
count-uses stacks (suc (suc (suc i))) p h = absurd (omega arith)

-- How a push and a pop change the uses.
pub uses-update :
    (stacks : Stacks) (v p : ℕ) (xs : List ℕ)
    → v < terminal_count
    → uses (update stacks v xs) p + count p (stacks v) ≡ uses stacks p + count p xs
uses-update stacks zero p xs h = omega arith
uses-update stacks (suc zero) p xs h = omega arith
uses-update stacks (suc (suc zero)) p xs h = omega arith
uses-update stacks (suc (suc (suc v))) p xs h = absurd (omega arith)
