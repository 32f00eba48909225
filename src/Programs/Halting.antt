-- ===== src/Programs/Halting.antt =====
-- What `halt` of student-distrib/system_calls.c comes to.
use ece391_linux_os.Base.{
  ℕ, ◌<◌, ◌≤◌, ◌≡◌, ◌≢◌, inl, inr, refl, ◌∙◌, ap, sym, arith, true, false, some, update, ◌==◌,
  if◌then◌else◌, ℤ, pos, minus_one, List, [], ◌∷◌, to_nat,
}
use ece391_linux_os.Process.{Pcb, get_pcb, kernel_stack, fd_start, fd_max}
use ece391_linux_os.Console.{Console, visible, set_visible}
use ece391_linux_os.Paging.{map_program}
use ece391_linux_os.Syscalls.{Kernel}
use ece391_linux_os.Command.Parse.{IsLine}
use ece391_linux_os.Programs.{
  System, Scratch, Outcome, returned, dec, close_all, leave_process, return_to_parent, shell_name,
  same_pid, after_shell, halt,
}
use ece391_linux_os.Programs.Stacks.{Stacks, count, count-uses, flag, Represents}
use ece391_linux_os.Programs.Stacks.Pop.{Chain-top, Pops-Represents}
use ece391_linux_os.Programs.Executing.{ExecuteOutcome, execute-ExecuteOutcome}
use ece391_linux_os.Programs.Closing.{close_all-SameFiles, close_all-flags}

leave_process_lem :
    (c : Console) (parent : ℤ)
    → ((leave_process c parent).t_visible ≡ c.t_visible)
      × ((i : ℕ) → i ≢ c.t_visible → (leave_process c parent).t i ≡ c.t i)
      × ((visible (leave_process c parent)).running_process ≡ parent)
      × ((visible (leave_process c parent)).process_ct ≡ dec (visible c).process_ct)
      × ((visible (leave_process c parent)).shell_flag ≡ (visible c).shell_flag)
unfolding leave_process
leave_process_lem c parent = (refl, λ i ne. ground arith, ground arith, ground arith, ground arith)

top_apart :
    (s : System) (stacks : Stacks) (p q : ℕ) (rest : List ℕ)
    → Represents s stacks
    → stacks s.kernel.console.t_visible ≡ p ∷ q ∷ rest
    → q ≢ p
unfolding count
top_apart s stacks p q rest r top e =
    let v : ℕ = s.kernel.console.t_visible in
    let twice : count p (stacks v) ≡ count p (p ∷ q ∷ rest) = ap (count p) top in
    ground (arith, twice, count-uses stacks v p r.visible_is, r.single p)

-- `halt` of a process that stands on another one, in a system whose tables hold a stack of
-- processes for each terminal, returns to the `execute` that started it, at the registers that its
-- block has, with the status, or with 256 for 255. The tables then hold the stack without the
-- process; its parent's page and kernel stack are in use, and its descriptors from 2 on are closed.
pub halt-Represents :
    (scratch : Scratch) (esp ebp : ℕ) (s : System) (stacks : Stacks) (status p q : ℕ)
    (rest : List ℕ)
    → Represents s stacks
    → stacks s.kernel.console.t_visible ≡ p ∷ q ∷ rest
    → let block = s.kernel.pcb (get_pcb (pos p)) in
      (s' : System) × (halt scratch esp ebp s status
        ≡ some (returned (if status == 255 then 256 else status) block.esp block.ebp s'))
      × Represents s' (update stacks s.kernel.console.t_visible (q ∷ rest))
      × (s'.kernel.paging ≡ map_program q s.kernel.paging)
      × (s'.kernel.tss_esp0 ≡ kernel_stack (pos q))
      × ((j : ℕ)
          → fd_start ≤ j
          → j < fd_max
          → ((s'.kernel.pcb (get_pcb (pos p))).fd_table j).flags ≡ 0)
unfolding halt return_to_parent
halt-Represents scratch esp ebp s stacks status p q rest r top =
    let v : ℕ = s.kernel.console.t_visible in
    let k : Kernel = close_all 6 s.kernel fd_start in
    let same = close_all-SameFiles 6 s.kernel fd_start in
    let front_p : (visible s.kernel.console).running_process ≡ pos p =
      rw top at (r.front_is v r.visible_is) in
    let (pid, parent, esp0, esp_is, ebp_is) = same.blocks (get_pcb (pos p)) in
    let (pid', parent', esp0', chain) =
      Chain-top s.kernel.pcb (stacks v) p (q ∷ rest) top (r.chain v r.visible_is) in
    let apart : same_pid (k.pcb (get_pcb (pos p))).parent_pid (k.pcb (get_pcb (pos p))).pid
        ≡ false =
      rw (parent, pid, parent', pid') (ground (arith, top_apart s stacks p q rest r top)) in
    let (lv, lo, lr, lc, lf) = leave_process_lem k.console (k.pcb (get_pcb (pos p))).parent_pid in
    let s' : System = record {
      kernel = record k {
        console = leave_process k.console (k.pcb (get_pcb (pos p))).parent_pid;
        paging = map_program (to_nat (k.pcb (get_pcb (pos p))).parent_pid) k.paging;
        tss_esp0 = (k.pcb (get_pcb (pos p))).esp0;
        tss_ss0 = 0x18;
      };
      process_status = update s.process_status p minus_one;
    } in
    (
      s',
      rw (front_p, apart, ← esp_is, ← ebp_is, halt) (ground arith),
      Pops-Represents r top (record {
        same_visible = lv ∙ ap (λ (c : Console). c.t_visible) same.console_is;
        others = λ i ne.
            lo i (λ e. ne (e ∙ ap (λ (c : Console). c.t_visible) same.console_is))
            ∙ ap (λ (c : Console). c.t i) same.console_is;
        running_is = lr ∙ parent ∙ parent';
        count_is = lc ∙ ap (λ (c : Console). dec (visible c).process_ct) same.console_is;
        flag_is =
            lf
            ∙ ap (λ (c : Console). (visible c).shell_flag) same.console_is
            ∙ r.flag_is v r.visible_is
            ∙ ap flag top;
        status_is = refl;
        blocks = λ a. let (x, y, z, _, _) = same.blocks a in (x, y, z);
      }),
      ap (λ (parent_pid : ℤ). map_program (to_nat parent_pid) k.paging) (parent ∙ parent')
          ∙ ap (map_program q) same.paging_is,
      esp0 ∙ esp0',
      λ j lo hi.
          ap (λ (pid : ℤ). ((k.pcb (get_pcb pid)).fd_table j).flags)
            (sym (ap (λ (c : Console). (visible c).running_process) same.console_is ∙ front_p))
          ∙ close_all-flags 6 s.kernel fd_start j (omega arith) (omega arith)
              (inr (lo, omega arith)),
    )

pub shell-IsLine : IsLine shell_name 0 5 5 5
shell-IsLine = record {
  before = λ j lt. absurd (omega arith);
  begins = omega arith;
  name = λ j lo hi. ground arith;
  name_stop = inr (inl refl);
  gap = λ j lo hi. absurd (omega arith);
  arg_begins = omega arith;
  args = λ j lo hi. absurd (omega arith);
  stop = inl refl;
  ordered = (omega arith, omega arith, omega arith);
  fits = omega arith;
}

pub halt-shell :
    (scratch : Scratch) (esp ebp : ℕ) (s : System) (stacks : Stacks) (status p : ℕ)
    → Represents s stacks
    → stacks s.kernel.console.t_visible ≡ p ∷ []
    → (idle : System) × (o : Outcome) × (block : Pcb) × Represents idle
        (update stacks s.kernel.console.t_visible [])
      × ExecuteOutcome scratch esp ebp idle
          (update stacks s.kernel.console.t_visible [])
          shell_name
          0
          5
          5
          5
          o
      × (block.parent_pid ≡ pos p)
      × (block.esp ≡ (s.kernel.pcb (get_pcb (pos p))).esp)
      × (block.ebp ≡ (s.kernel.pcb (get_pcb (pos p))).ebp)
      × (halt scratch esp ebp s status ≡ some (after_shell o status block))
unfolding halt leave_process
halt-shell scratch esp ebp s stacks status p r top =
    let v : ℕ = s.kernel.console.t_visible in
    let k : Kernel = close_all 6 s.kernel fd_start in
    let c : Console = k.console in
    let block : Pcb = k.pcb (get_pcb (pos p)) in
    let same = close_all-SameFiles 6 s.kernel fd_start in
    let front_p : (visible s.kernel.console).running_process ≡ pos p =
      rw top at (r.front_is v r.visible_is) in
    let (pid, parent, esp0, esp_is, ebp_is) = same.blocks (get_pcb (pos p)) in
    let (pid', parent', esp0', chain) =
      Chain-top s.kernel.pcb (stacks v) p [] top (r.chain v r.visible_is) in
    let own : same_pid block.parent_pid block.pid ≡ true =
      rw (parent, pid, parent', pid') (ground arith) in
    let idle : System = record {
      kernel = record k {
        console = set_visible c (record (visible (leave_process c block.parent_pid)) {
          running_process = minus_one;
          shell_flag = minus_one;
        });
      };
      process_status = update s.process_status p minus_one;
    } in
    let empty : Represents idle (update stacks v []) = Pops-Represents r top (record {
      same_visible = ap (λ (c : Console). c.t_visible) same.console_is;
      others = λ i ne.
          (let ne' : i ≢ c.t_visible =
              λ e. ne (e ∙ ap (λ (c : Console). c.t_visible) same.console_is) in
            ground arith)
          ∙ ap (λ (c : Console). c.t i) same.console_is;
      running_is = tt;
      count_is = ground arith ∙ ap (λ (c : Console). dec (visible c).process_ct) same.console_is;
      flag_is = ground arith;
      status_is = refl;
      blocks = λ a. let (x, y, z, _, _) = same.blocks a in (x, y, z);
    }) in
    let (o, run, outcome) =
      execute-ExecuteOutcome scratch esp ebp idle (update stacks v []) shell_name 0 5 5 5 empty
        shell-IsLine in
    (idle, o, block, empty, outcome, parent ∙ parent', esp_is, ebp_is, rw (front_p, own, run, halt))
