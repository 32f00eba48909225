-- ===== src/Programs/Stacks/Push.antt =====
-- The tables after a process has been put in front.
use ece391_linux_os.Base.{
  ℕ, ◌<◌, ◌≤◌, ◌≡◌, ◌≢◌, inl, inr, ◌∙◌, ap, sym, arith, List, [], ◌∷◌, update, pos,
}
use mathlib.Core.Path.{subst}
use ece391_linux_os.Process.{Pcb, get_pcb, kernel_stack, process_count}
use ece391_linux_os.Console.{Terminal, visible}
use ece391_linux_os.Programs.{System}
use ece391_linux_os.Programs.Stacks.{
  Stacks, count, length, uses, Fronts, flag, parent_of, Chain, Represents, get_pcb_injective,
  Chain-frame, count-uses,
}
use ece391_linux_os.Programs.Stacks.Changes.{Pushes, field_after, at_update, uses-push}

module _ {esp ebp p : ℕ} {s s' : System} {stacks : Stacks} (r : Represents s stacks)
    (small : p < process_count) (fresh : uses stacks p ≡ 0)
    (room : length (stacks s.kernel.console.t_visible) ≤ 3) (h : Pushes esp ebp s p s') where
  abbrev v : ℕ
  v = s.kernel.console.t_visible

  push-Chain_others :
      (xs : List ℕ)
      → ((q : ℕ) → count q xs ≤ uses stacks q)
      → Chain s.kernel.pcb xs
      → Chain s'.kernel.pcb xs
  push-Chain_others xs le = Chain-frame s.kernel.pcb s'.kernel.pcb xs λ q lt.
      let apart : get_pcb (pos q) ≢ get_pcb (pos p) = λ e.
        let used : 0 < uses stacks q = omega (arith, le q) in
        let q_small : q < process_count = ground (arith, r.bounded q) in
        let same = get_pcb_injective q p q_small small e in ground (arith, ap (uses stacks) same) in
      let block = h.blocks (get_pcb (pos q)) apart in
      (
        ap (λ (b : Pcb). b.pid) block,
        ap (λ (b : Pcb). b.parent_pid) block,
        ap (λ (b : Pcb). b.esp0) block,
      )

  push_parent :
      (xs : List ℕ)
      → (visible s.kernel.console).shell_flag ≡ flag xs
      → Fronts xs (visible s.kernel.console).running_process
      → (s'.kernel.pcb (get_pcb (pos p))).parent_pid ≡ pos (parent_of p xs)
  push_parent [] e f = h.parent_is ∙ rw e
  push_parent (q ∷ xs) e f = h.parent_is ∙ rw (e, f)

  push_flag :
      (xs : List ℕ)
      → (visible s.kernel.console).shell_flag ≡ flag xs
      → (visible s'.kernel.console).shell_flag ≡ pos 0
  push_flag [] e = h.flag_is ∙ rw e
  push_flag (q ∷ xs) e = h.flag_is ∙ rw e

  -- A new process in front keeps the tables in step with the stacks.
  pub Pushes-Represents :
      Represents s'
        (update stacks s.kernel.console.t_visible (p ∷ stacks s.kernel.console.t_visible))
  unfolding length
  Pushes-Represents = record {
    visible_is = rw h.same_visible r.visible_is;
    status =
        λ q lt. rw h.status_is (ground (arith, uses-push stacks v p q r.visible_is, r.status q lt));
    single = λ q. ground (arith, uses-push stacks v p q r.visible_is, r.single q);
    bounded = λ q le. ground (arith, uses-push stacks v p q r.visible_is, r.bounded q le);
    front_is = λ i lt. elim (at_update stacks v i (p ∷ stacks v)) [
      | inl (e, top) ↦ rw top (
          ap (λ (j : ℕ). (s'.kernel.console.t j).running_process) (e ∙ sym h.same_visible)
          ∙ h.running_is)
      | inr (ne, same) ↦ rw same (
          subst (λ (t : Terminal). Fronts (stacks i) t.running_process) (sym (h.others i ne))
            (r.front_is i lt))
    ];
    count_is = λ i lt.
        field_after (λ t. t.process_ct) s.kernel.console s'.kernel.console
          (λ j. pos (length (update stacks v (p ∷ stacks v) j))) h.same_visible h.others
          (h.count_is ∙ ground (arith, r.count_is v r.visible_is)) i
          (λ ne. r.count_is i lt ∙ ground arith);
    flag_is = λ i lt.
        field_after (λ t. t.shell_flag) s.kernel.console s'.kernel.console
          (λ j. flag (update stacks v (p ∷ stacks v) j)) h.same_visible h.others
          (push_flag (stacks v) (r.flag_is v r.visible_is) ∙ ground arith) i
          (λ ne. r.flag_is i lt ∙ ground arith);
    depth = λ i lt. elim (at_update stacks v i (p ∷ stacks v)) [
      | inl (e, top) ↦ rw top (omega (arith, room))
      | inr (ne, same) ↦ rw same (r.depth i lt)
    ];
    chain = λ i lt. elim (at_update stacks v i (p ∷ stacks v)) [
      | inl (e, top) ↦ rw top (
          let parent =
            push_parent (stacks v) (r.flag_is v r.visible_is) (r.front_is v r.visible_is) in
          (
            h.pid_is,
            parent,
            h.esp0_is ∙ ap kernel_stack parent,
            push-Chain_others (stacks v) (λ q. count-uses stacks v q r.visible_is)
                (r.chain v r.visible_is),
          ))
      | inr (ne, same) ↦
          rw same (push-Chain_others (stacks i) (λ q. count-uses stacks i q lt) (r.chain i lt))
    ];
  }
