-- ===== src/Display/Switch.antt =====
-- Switching the display to another terminal and back.
use ece391_linux_os.Base.{
  ℕ, ◌+◌, ◌-◌, ◌*◌, ◌<◌, ◌≡◌, ◌≢◌, refl, ◌∙◌, ap, sym, arith, false, some, pos, ◌==◌, ltb, ◌&&◌,
  ◌||◌, nat_eq, to_nat, Bool-cases, inl, inr, Bytes,
}
use ece391_linux_os.CLib.Mem.Laws.{copied, memcpy-copied}
use ece391_linux_os.Process.{get_pcb, kernel_stack}
use ece391_linux_os.Console.{Console, vid_mem, terminal_count, update_cursor}
use ece391_linux_os.Paging.{map_program}
use ece391_linux_os.Syscalls.{Kernel}
use ece391_linux_os.Display.{show_terminal, resume_process, switch_display}

-- The terminals have their pages where `terminal_init` puts them.
pub record Pages (c : Console) : Type 0 where
  pub visible_is : c.t_visible < terminal_count
  pub page : (i : ℕ) → i < terminal_count → (c.t i).video_mem ≡ vid_mem + (i + 1) * 4096

-- The screen's page and the page that a terminal has behind it.
abbrev pub on_screen : Console → ℕ → ℕ
on_screen c i = c.mem (vid_mem + i)

abbrev pub behind : Console → ℕ → ℕ → ℕ
behind c j i = c.mem (vid_mem + (j + 1) * 4096 + i)

-- Both copies, as `copied` has them.
abbrev swapped : Bytes → ℕ → ℕ → Bytes
swapped m v tid =
    copied 4096 (copied 4096 m (vid_mem + (v + 1) * 4096) m vid_mem) vid_mem
      (copied 4096 m (vid_mem + (v + 1) * 4096) m vid_mem) (vid_mem + (tid + 1) * 4096)

show_terminal-mem :
    (c : Console) (tid a : ℕ)
    → Pages c
    → tid < terminal_count
    → (show_terminal c tid).mem a ≡ swapped c.mem c.t_visible tid a
unfolding show_terminal update_cursor
show_terminal-mem c tid a p h =
    rw (p.page c.t_visible p.visible_is, p.page tid h)
      (memcpy-copied 4096 _ vid_mem _ (vid_mem + (tid + 1) * 4096) a
        ∙ ground (
          arith,
          memcpy-copied 4096 c.mem (vid_mem + (c.t_visible + 1) * 4096) c.mem vid_mem a,
          memcpy-copied 4096 c.mem (vid_mem + (c.t_visible + 1) * 4096) c.mem vid_mem
              (vid_mem + (tid + 1) * 4096 + (a - vid_mem)),
        ))

-- What the screen and the pages hold after a switch.
pub show_terminal-screen :
    (c : Console) (tid i : ℕ)
    → Pages c
    → tid < terminal_count
    → tid ≢ c.t_visible
    → i < 4096
    → (on_screen (show_terminal c tid) i ≡ behind c tid i)
      × (behind (show_terminal c tid) c.t_visible i ≡ on_screen c i)
show_terminal-screen c tid i p h ne lt = (
  show_terminal-mem c tid (vid_mem + i) p h ∙ ground arith,
  show_terminal-mem c tid (vid_mem + (c.t_visible + 1) * 4096 + i) p h ∙ ground arith,
)

show_terminal-Pages :
    (c : Console) (tid : ℕ) → Pages c → tid < terminal_count → Pages (show_terminal c tid)
unfolding show_terminal update_cursor
show_terminal-Pages c tid p h = record { visible_is = h; page = p.page }

switch_display-console :
    (esp ebp tid : ℕ) (k : Kernel)
    → tid < terminal_count
    → tid ≢ k.console.t_visible
    → (switch_display esp ebp k (pos tid)).0.console ≡ show_terminal k.console tid
unfolding switch_display resume_process
switch_display-console esp ebp tid k h ne =
    let goes : (ltb (terminal_count - 1) tid || (tid == k.console.t_visible)) ≡ false =
      ground arith in
    rw (goes, switch_display)
      (elim (Bool-cases (
        nat_eq (k.console.t k.console.t_visible).shell_flag 0
        && nat_eq (k.console.t tid).shell_flag 0)) [
          | inl both ↦ rw (both, switch_display) refl
          | inr one ↦ rw (one, switch_display) refl
        ])

show_terminal-terminals :
    (c : Console) (tid : ℕ)
    → ((show_terminal c tid).t ≡ c.t) × ((show_terminal c tid).t_visible ≡ tid)
unfolding show_terminal update_cursor
show_terminal-terminals c tid = (refl, refl)

-- `switch_display` to another of the three terminals shows the page that the terminal has behind
-- the screen, and a second call that goes back shows what was on the screen before the first;
-- neither of the two changes the terminals' records.
pub switch_display-screen :
    (esp ebp esp' ebp' tid : ℕ) (k : Kernel)
    → Pages k.console
    → tid < terminal_count
    → tid ≢ k.console.t_visible
    → let k1 = (switch_display esp ebp k (pos tid)).0 in
      let k2 = (switch_display esp' ebp' k1 (pos k.console.t_visible)).0 in
      (k1.console.t_visible ≡ tid)
      × (k2.console.t_visible ≡ k.console.t_visible)
      × (k1.console.t ≡ k.console.t)
      × (k2.console.t ≡ k.console.t)
      × ((i : ℕ)
          → i < 4096
          → (on_screen k1.console i ≡ behind k.console tid i)
            × (on_screen k2.console i ≡ on_screen k.console i))
switch_display-screen esp ebp esp' ebp' tid k p h ne =
    let c : Console = k.console in
    let k1 : Kernel = (switch_display esp ebp k (pos tid)).0 in
    let one : k1.console ≡ show_terminal c tid = switch_display-console esp ebp tid k h ne in
    let (same, visible) = show_terminal-terminals c tid in
    let back : c.t_visible ≢ k1.console.t_visible =
      λ e. ne (sym (e ∙ ap (λ (b : Console). b.t_visible) one ∙ visible)) in
    let two : (switch_display esp' ebp' k1 (pos c.t_visible)).0.console
        ≡ show_terminal (show_terminal c tid) c.t_visible =
      switch_display-console esp' ebp' c.t_visible k1 p.visible_is back
      ∙ ap (λ (b : Console). show_terminal b c.t_visible) one in
    let (same', visible') = show_terminal-terminals (show_terminal c tid) c.t_visible in
    rw (two, one)
      (
        visible,
        visible',
        same,
        same' ∙ same,
        λ i lt.
            let (shown, saved) = show_terminal-screen c tid i p h ne lt in
            (
              shown,
              (show_terminal-screen (show_terminal c tid) c.t_visible i
                    (show_terminal-Pages c tid p h) p.visible_is (λ e. ne (sym (e ∙ visible))) lt).0
                  ∙ saved,
            ),
      )

-- Between two terminals that both run a shell, of processes with different blocks, `switch_display`
-- makes the other terminal's process the one whose page and kernel stack are in use, and continues
-- at the registers saved for it. The call that goes back continues at the registers that the first
-- one saved.
pub switch_display-registers :
    (esp ebp esp' ebp' tid : ℕ) (k : Kernel)
    → tid < terminal_count
    → k.console.t_visible < terminal_count
    → tid ≢ k.console.t_visible
    → (k.console.t tid).shell_flag ≡ pos 0
    → (k.console.t k.console.t_visible).shell_flag ≡ pos 0
    → get_pcb (k.console.t tid).running_process
      ≢ get_pcb (k.console.t k.console.t_visible).running_process
    → let next = k.pcb (get_pcb (k.console.t tid).running_process) in
      let (k1, registers) = switch_display esp ebp k (pos tid) in
      (registers ≡ some (next.cur_esp, next.cur_ebp))
      × (k1.tss_esp0 ≡ kernel_stack next.pid)
      × (k1.paging ≡ map_program (to_nat next.pid) k.paging)
      × ((switch_display esp' ebp' k1 (pos k.console.t_visible)).1 ≡ some (esp, ebp))
unfolding switch_display resume_process show_terminal update_cursor
switch_display-registers esp ebp esp' ebp' tid k h hv ne s s' apart =
    let goes : (ltb (terminal_count - 1) tid || (tid == k.console.t_visible)) ≡ false =
      ground arith in
    let returns : (ltb (terminal_count - 1) k.console.t_visible || (k.console.t_visible == tid))
        ≡ false =
      ground arith in
    let other : (get_pcb (k.console.t tid).running_process
          == get_pcb (k.console.t k.console.t_visible).running_process)
        ≡ false =
      ground arith in
    let other' : (get_pcb (k.console.t k.console.t_visible).running_process
          == get_pcb (k.console.t tid).running_process)
        ≡ false =
      ground arith in
    rw (goes, s, s', other, returns, other', switch_display) (refl, refl, refl, ground arith)
