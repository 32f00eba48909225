-- ===== src/Display.antt =====
-- `switch_display` of student-distrib/paging.c, which shows another terminal on the screen.
pub mod Switch
pub mod Keep
mod Examples
use ece391_linux_os.Base.{
  ℕ, ◌-◌, ◌+◌, Bool, true, false, Option, none, some, update, ◌==◌, leb, ◌&&◌, if◌then◌else◌, ℤ,
  pos, nat_eq, to_nat, is_neg, ltb, ◌||◌,
}
use ece391_linux_os.CLib.Mem.{memcpy}
use ece391_linux_os.Process.{Pcb, get_pcb, kernel_stack}
use ece391_linux_os.Console.{Console, Terminal, vid_mem, terminal_count, update_cursor}
use ece391_linux_os.Paging.{map_program}
use ece391_linux_os.Syscalls.{Kernel}

-- The two copies, the choice of the terminal and the cursor.
unfoldable pub show_terminal : Console → ℕ → Console
show_terminal c tid =
    let saved = memcpy 4096 c.mem (c.t c.t_visible).video_mem c.mem vid_mem in
    update_cursor
      (record c { t_visible = tid; mem = memcpy 4096 saved vid_mem saved (c.t tid).video_mem })

-- The end, for the process `n_pcb` that the terminal runs.
pub resume_process : Kernel → Pcb → Kernel × Option (ℕ × ℕ)
resume_process k n_pcb = (
  record k {
    tss_ss0 = 0x18;
    tss_esp0 = kernel_stack n_pcb.pid;
    paging = map_program (to_nat n_pcb.pid) k.paging;
  },
  some (n_pcb.cur_esp, n_pcb.cur_ebp),
)

-- `esp` and `ebp` are the registers at the call; the result has the values that they are set to,
-- if they are.
pub switch_display : ℕ → ℕ → Kernel → ℤ → Kernel × Option (ℕ × ℕ)
switch_display esp ebp k tid =
    let c = k.console in
    if is_neg tid || (ltb (terminal_count - 1) (to_nat tid) || nat_eq tid c.t_visible)
    then (k, none)
    else (let old = get_pcb (c.t c.t_visible).running_process in
        let shown = record k {
          pcb = update k.pcb old (record (k.pcb old) { cur_esp = esp; cur_ebp = ebp });
          console = show_terminal c (to_nat tid);
        } in
        if nat_eq (c.t c.t_visible).shell_flag 0 && nat_eq (c.t (to_nat tid)).shell_flag 0
        then resume_process shown (shown.pcb (get_pcb (c.t (to_nat tid)).running_process))
        else (shown, none))
