-- ===== src/Programs/Stacks/Changes.antt =====
-- A process more and a process less, for the tables and for the stacks.
use ece391_linux_os.Base.{
  ℕ, ◌+◌, ◌<◌, ◌≡◌, ◌≢◌, ◌⊎◌, inl, inr, ◌∙◌, ap, sym, arith, List, ◌∷◌, update, ◌==◌, if◌then◌else◌,
  pos, minus_one,
}
use native.Mathlib.Decide.{ℕ_discrete}
use ece391_linux_os.Process.{get_pcb, kernel_stack}
use ece391_linux_os.Console.{Console, Terminal, visible, terminal_count}
use ece391_linux_os.Paging.{map_program}
use ece391_linux_os.Programs.{System, inc, dec, is_minus_one}
use ece391_linux_os.Programs.Stacks.{Stacks, count, uses, Fronts, flag, uses-update}

-- Process `p` has been put in front of the visible terminal; its block has the registers of the
-- call.
pub record Pushes (esp ebp : ℕ) (s : System) (p : ℕ) (s' : System) : Type 0 where
  pub same_visible : s'.kernel.console.t_visible ≡ s.kernel.console.t_visible
  pub others :
      (i : ℕ) → i ≢ s.kernel.console.t_visible → s'.kernel.console.t i ≡ s.kernel.console.t i
  pub running_is : (visible s'.kernel.console).running_process ≡ pos p
  pub count_is : (visible s'.kernel.console).process_ct ≡ inc (visible s.kernel.console).process_ct
  pub flag_is : (visible s'.kernel.console).shell_flag ≡ (
      if is_minus_one (visible s.kernel.console).shell_flag
      then pos 0
      else (visible s.kernel.console).shell_flag)
  pub status_is : s'.process_status ≡ update s.process_status p (pos 1)
  pub blocks : (a : ℕ) → a ≢ get_pcb (pos p) → s'.kernel.pcb a ≡ s.kernel.pcb a
  pub pid_is : (s'.kernel.pcb (get_pcb (pos p))).pid ≡ pos p
  pub parent_is : (s'.kernel.pcb (get_pcb (pos p))).parent_pid ≡ (
      if is_minus_one (visible s.kernel.console).shell_flag
      then pos p
      else (visible s.kernel.console).running_process)
  pub esp0_is :
      (s'.kernel.pcb (get_pcb (pos p))).esp0
      ≡ kernel_stack (s'.kernel.pcb (get_pcb (pos p))).parent_pid
  pub saved :
      ((s'.kernel.pcb (get_pcb (pos p))).esp ≡ esp) × ((s'.kernel.pcb (get_pcb (pos p))).ebp ≡ ebp)
  pub paging_is : s'.kernel.paging ≡ map_program p s.kernel.paging
  pub stack_is : s'.kernel.tss_esp0 ≡ kernel_stack (pos p)

-- Process `p` has been taken from the front of the visible terminal, and `rest` is left.
pub record Pops (s : System) (p : ℕ) (rest : List ℕ) (s' : System) : Type 0 where
  pub same_visible : s'.kernel.console.t_visible ≡ s.kernel.console.t_visible
  pub others :
      (i : ℕ) → i ≢ s.kernel.console.t_visible → s'.kernel.console.t i ≡ s.kernel.console.t i
  pub running_is : Fronts rest (visible s'.kernel.console).running_process
  pub count_is : (visible s'.kernel.console).process_ct ≡ dec (visible s.kernel.console).process_ct
  pub flag_is : (visible s'.kernel.console).shell_flag ≡ flag rest
  pub status_is : s'.process_status ≡ update s.process_status p minus_one
  pub blocks :
      (a : ℕ)
      → ((s'.kernel.pcb a).pid ≡ (s.kernel.pcb a).pid)
        × ((s'.kernel.pcb a).parent_pid ≡ (s.kernel.pcb a).parent_pid)
        × ((s'.kernel.pcb a).esp0 ≡ (s.kernel.pcb a).esp0)

-- A terminal's field after a change of the visible terminal alone.
pub field_after {ℓ} :
    {A : Type ℓ} (f : Terminal → A) (c c' : Console) (of : ℕ → A)
    → c'.t_visible ≡ c.t_visible
    → ((i : ℕ) → i ≢ c.t_visible → c'.t i ≡ c.t i)
    → f (visible c') ≡ of c.t_visible
    → (i : ℕ) → (i ≢ c.t_visible → f (c.t i) ≡ of i)
    → f (c'.t i) ≡ of i
field_after f c c' of same others here i old = elim (ℕ_discrete i c.t_visible) [
  | yes e ↦ ap (λ (j : ℕ). f (c'.t j)) (e ∙ sym same) ∙ here ∙ ap of (sym e)
  | no ne ↦ ap f (others i ne) ∙ old ne
]

-- The stack of a terminal after a change of one.
pub at_update :
    (stacks : Stacks) (v i : ℕ) (xs : List ℕ)
    → ((i ≡ v) × (update stacks v xs i ≡ xs)) ⊎ ((i ≢ v) × (update stacks v xs i ≡ stacks i))
at_update stacks v i xs = elim (ℕ_discrete i v) [
  | yes e ↦ inl (e, ground arith)
  | no ne ↦ inr (ne, ground arith)
]

pub uses-push :
    (stacks : Stacks) (v p q : ℕ)
    → v < terminal_count
    → uses (update stacks v (p ∷ stacks v)) q ≡ (if q == p then 1 else 0) + uses stacks q
unfolding count
uses-push stacks v p q h = omega (arith, uses-update stacks v q (p ∷ stacks v) h)

pub uses-pop :
    (stacks : Stacks) (v p q : ℕ) (rest : List ℕ)
    → v < terminal_count
    → stacks v ≡ p ∷ rest
    → uses stacks q ≡ (if q == p then 1 else 0) + uses (update stacks v rest) q
unfolding count
uses-pop stacks v p q rest h e =
    let top : count q (stacks v) ≡ (if q == p then 1 else 0) + count q rest = ap (count q) e in
    omega (arith, top, uses-update stacks v q rest h)
