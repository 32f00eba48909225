-- ===== src/Console/Start.antt =====
-- What `terminal_init` makes of the terminals' records.
use ece391_linux_os.Base.{ℕ, ◌<◌, ◌≡◌, sym, ◌∙◌, arith, pos, minus_one}
use mathlib.Core.Path.{subst}
use ece391_linux_os.Console.{Console, Terminal, terminal_count, terminal_init, init_terminals}
use ece391_linux_os.Console.Processes.{SameProcesses, terminal_reset-SameProcesses}

-- The memory of the kernel's image: no process is counted for a terminal.
pub record Fresh (c : Console) : Type 0 where
  pub visible_is : c.t_visible < terminal_count
  pub count_is : (i : ℕ) → i < terminal_count → (c.t i).process_ct ≡ pos 0

pub same-Fresh : {c c' : Console} → SameProcesses c c' → Fresh c → Fresh c'
same-Fresh h f = record {
  visible_is = subst (λ (v : ℕ). v < terminal_count) (sym h.same_visible) f.visible_is;
  count_is = λ i lt. (h.same i).1 ∙ f.count_is i lt;
}

init_terminals_lem :
    (t : ℕ → Terminal) (i : ℕ)
    → i < terminal_count
    → ((init_terminals terminal_count t 0 i).process_ct ≡ (t i).process_ct)
      × ((init_terminals terminal_count t 0 i).shell_flag ≡ minus_one)
unfolding init_terminals
init_terminals_lem t i lt = (ground arith, ground arith)

-- The terminals after `terminal_init`.
pub terminal_init_lem :
    (c : Console)
    → Fresh c
    → ((terminal_init c).t_visible < terminal_count)
      × ((i : ℕ)
          → i < terminal_count
          → (((terminal_init c).t i).process_ct ≡ pos 0)
            × (((terminal_init c).t i).shell_flag ≡ minus_one))
unfolding terminal_init
terminal_init_lem c f =
    let same =
      terminal_reset-SameProcesses (record c { t = init_terminals terminal_count c.t 0 }) in
    (
      subst (λ (v : ℕ). v < terminal_count) (sym same.same_visible) f.visible_is,
      λ i lt.
          let (n, flag) = init_terminals_lem c.t i lt in
          ((same.same i).1 ∙ n ∙ f.count_is i lt, (same.same i).2 ∙ flag),
    )
