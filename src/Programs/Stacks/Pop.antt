-- ===== src/Programs/Stacks/Pop.antt =====
-- The tables after a process has been taken from the front.
use ece391_linux_os.Base.{ℕ, ◌≡◌, inl, inr, ◌∙◌, ap, sym, arith, List, ◌∷◌, update, pos}
use mathlib.Core.Path.{subst}
use ece391_linux_os.Process.{Pcb, get_pcb, kernel_stack}
use ece391_linux_os.Console.{Terminal}
use ece391_linux_os.Programs.{System, dec}
use ece391_linux_os.Programs.Stacks.{
  Stacks, length, Fronts, flag, parent_of, Chain, Represents, Chain-frame,
}
use ece391_linux_os.Programs.Stacks.Changes.{Pops, field_after, at_update, uses-pop}

-- What the chain says of the process in front.
pub Chain-top :
    (pcb : ℕ → Pcb) (xs : List ℕ) (p : ℕ) (rest : List ℕ)
    → xs ≡ p ∷ rest
    → Chain pcb xs
    → ((pcb (get_pcb (pos p))).pid ≡ pos p)
      × ((pcb (get_pcb (pos p))).parent_pid ≡ pos (parent_of p rest))
      × ((pcb (get_pcb (pos p))).esp0 ≡ kernel_stack (pos (parent_of p rest)))
      × Chain pcb rest
Chain-top pcb xs p rest e h = rw e at h

module _ {p : ℕ} {rest : List ℕ} {s s' : System} {stacks : Stacks} (r : Represents s stacks)
    (top : stacks s.kernel.console.t_visible ≡ p ∷ rest) (h : Pops s p rest s') where
  abbrev v : ℕ
  v = s.kernel.console.t_visible

  pop-Chain : (xs : List ℕ) → Chain s.kernel.pcb xs → Chain s'.kernel.pcb xs
  pop-Chain xs = Chain-frame s.kernel.pcb s'.kernel.pcb xs λ q lt. h.blocks (get_pcb (pos q))

  -- A process less in front keeps the tables in step with the stacks.
  pub Pops-Represents : Represents s' (update stacks s.kernel.console.t_visible rest)
  unfolding length
  Pops-Represents = record {
    visible_is = rw h.same_visible r.visible_is;
    status = λ q lt.
        rw h.status_is
          (ground (arith, uses-pop stacks v p q rest r.visible_is top, r.status q lt, r.single q));
    single = λ q. ground (arith, uses-pop stacks v p q rest r.visible_is top, r.single q);
    bounded = λ q le. ground (arith, uses-pop stacks v p q rest r.visible_is top, r.bounded q le);
    front_is = λ i lt. elim (at_update stacks v i rest) [
      | inl (e, at) ↦ rw at (
          subst (λ (j : ℕ). Fronts rest (s'.kernel.console.t j).running_process)
            (h.same_visible ∙ sym e) h.running_is)
      | inr (ne, same) ↦ rw same (
          subst (λ (t : Terminal). Fronts (stacks i) t.running_process) (sym (h.others i ne))
            (r.front_is i lt))
    ];
    count_is = λ i lt.
        field_after (λ t. t.process_ct) s.kernel.console s'.kernel.console
          (λ j. pos (length (update stacks v rest j))) h.same_visible h.others
          (h.count_is
            ∙ ap dec (r.count_is v r.visible_is ∙ ap (λ (xs : List ℕ). pos (length xs)) top)
            ∙ ground arith)
          i (λ ne. r.count_is i lt ∙ ground arith);
    flag_is = λ i lt.
        field_after (λ t. t.shell_flag) s.kernel.console s'.kernel.console
          (λ j. flag (update stacks v rest j)) h.same_visible h.others (h.flag_is ∙ ground arith) i
          (λ ne. r.flag_is i lt ∙ ground arith);
    depth = λ i lt. elim (at_update stacks v i rest) [
      | inl (e, at) ↦ rw at (omega (arith, ap length top, r.depth v r.visible_is))
      | inr (ne, same) ↦ rw same (r.depth i lt)
    ];
    chain = λ i lt. elim (at_update stacks v i rest) [
      | inl (e, at) ↦
          rw at (
            pop-Chain rest
              (Chain-top s.kernel.pcb (stacks v) p rest top (r.chain v r.visible_is)).3)
      | inr (ne, same) ↦ rw same (pop-Chain (stacks i) (r.chain i lt))
    ];
  }
