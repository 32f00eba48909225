-- ===== src/Display/Keep.antt =====
-- A switch of the display keeps what the kernel has of the processes.
use ece391_linux_os.Base.{
  ℕ, ◌-◌, ◌<◌, ◌≡◌, refl, arith, true, false, ◌==◌, ltb, ◌&&◌, ◌||◌, pos, nat_eq, Bool-cases, inl,
  inr,
}
use ece391_linux_os.Console.{terminal_count, update_cursor}
use ece391_linux_os.Syscalls.{Kernel}
use ece391_linux_os.Syscalls.Tables.{SameBlocks}
use ece391_linux_os.Display.{show_terminal, resume_process, switch_display}

-- The terminals' records and the blocks' links stay, and terminal `tid` is visible.
pub record Shows (tid : ℕ) (k k' : Kernel) : Type 0 where
  pub visible_is : k'.console.t_visible ≡ tid
  pub terminals : k'.console.t ≡ k.console.t
  pub blocks : SameBlocks k k'

pub switch_display-Shows :
    (esp ebp tid : ℕ) (k : Kernel)
    → tid < terminal_count
    → Shows tid k (switch_display esp ebp k (pos tid)).0
unfolding switch_display resume_process show_terminal update_cursor
switch_display-Shows esp ebp tid k h = elim (Bool-cases (tid == k.console.t_visible)) [
  | inl same ↦
      let stays : (ltb (terminal_count - 1) tid || (tid == k.console.t_visible)) ≡ true =
        ground arith in
      rw (stays, switch_display)
        (record {
          visible_is = ground arith;
          terminals = refl;
          blocks = record { blocks = λ a. (refl, refl, refl) };
        })
  | inr other ↦
      let goes : (ltb (terminal_count - 1) tid || (tid == k.console.t_visible)) ≡ false =
        ground arith in
      rw (goes, switch_display)
        (elim (Bool-cases (
          nat_eq (k.console.t k.console.t_visible).shell_flag 0
          && nat_eq (k.console.t tid).shell_flag 0)) [
            | inl both ↦
                rw (both, switch_display)
                  (record {
                    visible_is = refl;
                    terminals = refl;
                    blocks = record { blocks = λ a. ground arith };
                  })
            | inr one ↦
                rw (one, switch_display)
                  (record {
                    visible_is = refl;
                    terminals = refl;
                    blocks = record { blocks = λ a. ground arith };
                  })
          ])
]
