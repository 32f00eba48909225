-- ===== src/Programs/Examples.antt =====
-- The theorems on `execute` and `halt` at small systems.
use ece391_linux_os.Console.{terminal_count}
use ece391_linux_os.Base.{
  ℕ, zero, suc, ◌≤◌, ◌-◌, ◌<◌, ◌≡◌, refl, arith, some, true, Bytes, if◌then◌else◌, ℤ, pos, [], ◌∷◌,
  update, fun_ext,
}
use ece391_linux_os.CLib.Mem.Laws.{within}
use ece391_linux_os.Process.{get_pcb, kernel_stack}
use ece391_linux_os.FileSys.{u32_at, num_of_inodes, inode_length, read_data}
use ece391_linux_os.FileSys.Data.{file_byte}
use ece391_linux_os.FileSys.Total.{read_data_returns}
use ece391_linux_os.Paging.{map_program}
use ece391_linux_os.Paging.Walk.{translate}
use ece391_linux_os.Programs.{System, Outcome, returned, program_at, execute, halt, shell_name}
use ece391_linux_os.Programs.Stacks.{count, length, Represents}
use ece391_linux_os.Programs.Starting.{Starts}
use ece391_linux_os.Programs.Executing.{ExecuteOutcome, execute-ExecuteOutcome}
use ece391_linux_os.Programs.Halting.{shell-IsLine, halt-Represents}
use ece391_linux_os.Programs.Image.{Starts-translate}
use ece391_linux_os.Programs.Samples.{
  scratch, files, program, idle_system, shell_system, busy_system, idle_stacks, shell_stacks,
  busy_stacks,
}

each_terminal : (P : ℕ → Type 0) → P 0 → P 1 → P 2 → (i : ℕ) → i < terminal_count → P i
each_terminal P p q r zero lt = p
each_terminal P p q r (suc zero) lt = q
each_terminal P p q r (suc (suc zero)) lt = r
each_terminal P p q r (suc (suc (suc i))) lt = absurd (omega arith)

idle_system-Represents : Represents idle_system idle_stacks
unfolding count length get_pcb
idle_system-Represents = record {
  visible_is = omega arith;
  status = λ p lt. ground arith;
  single = λ p. ground arith;
  bounded = λ p le. ground arith;
  front_is = each_terminal _ tt tt tt;
  count_is = λ i lt. ground arith;
  flag_is = λ i lt. ground arith;
  depth = λ i lt. ground arith;
  chain = each_terminal _ tt tt tt;
}

pub shell_system-Represents : Represents shell_system shell_stacks
unfolding count length get_pcb
shell_system-Represents = record {
  visible_is = omega arith;
  status = λ p lt. ground arith;
  single = λ p. ground arith;
  bounded = λ p le. ground arith;
  front_is = each_terminal _ refl tt tt;
  count_is = λ i lt. ground arith;
  flag_is = λ i lt. ground arith;
  depth = λ i lt. ground arith;
  chain = each_terminal _ (refl, refl, refl, tt) tt tt;
}

busy_system-Represents : Represents busy_system busy_stacks
unfolding count length get_pcb
busy_system-Represents = record {
  visible_is = omega arith;
  status = λ p lt. ground arith;
  single = λ p. ground arith;
  bounded = λ p le. ground arith;
  front_is = each_terminal _ refl tt tt;
  count_is = λ i lt. ground arith;
  flag_is = λ i lt. ground arith;
  depth = λ i lt. ground arith;
  chain = each_terminal _ (refl, refl, refl, (refl, refl, refl, tt)) tt tt;
}

execute-ExecuteOutcome_example :
    (o : Outcome) × (execute scratch 7 8 idle_system (some shell_name) ≡ some o)
    × ExecuteOutcome scratch 7 8 idle_system idle_stacks shell_name 0 5 5 5 o
execute-ExecuteOutcome_example =
    execute-ExecuteOutcome scratch 7 8 idle_system idle_stacks shell_name 0 5 5 5
      idle_system-Represents shell-IsLine

halt-Represents_example :
    (s' : System) × (halt scratch 7 8 busy_system 255 ≡ some (returned 256 101 201 s'))
    × Represents s' (update busy_stacks 0 (0 ∷ []))
    × (s'.kernel.paging ≡ map_program 0 busy_system.kernel.paging)
    × (s'.kernel.tss_esp0 ≡ kernel_stack (pos 0))
    × ((j : ℕ) → 2 ≤ j → j < 8 → ((s'.kernel.pcb (get_pcb (pos 1))).fd_table j).flags ≡ 0)
unfolding get_pcb
halt-Represents_example =
    halt-Represents scratch 7 8 busy_system busy_stacks 255 1 0 [] busy_system-Represents refl

-- The first program, "a", as process 0.
abbrev loaded :
    (ret : ℤ) × (m : Bytes) × (read_data files 0 0 (λ a. 0) (program_at 0) (inode_length files 0)
      ≡ some (ret, m))
loaded = read_data_returns files 0 0 (λ a. 0) (program_at 0) (inode_length files 0)

abbrev started_system : System
started_system = record shell_system {
  kernel = record shell_system.kernel {
    console = record shell_system.kernel.console { mem = loaded.1 };
    paging = map_program 0 idle_system.kernel.paging;
    tss_esp0 = kernel_stack (pos 0);
    pcb =
        update idle_system.kernel.pcb (get_pcb (pos 0))
          (record (idle_system.kernel.pcb 0) { esp = 7; ebp = 8 });
  };
}

started_system-Starts : Starts 7 8 idle_system 0 program started_system
unfolding inode_length u32_at
started_system-Starts = record {
  pushes = record {
    same_visible = refl;
    others = λ i ne. ground arith;
    running_is = refl;
    count_is = refl;
    flag_is = refl;
    status_is = fun_ext (λ p. ground arith);
    blocks = λ a ne. ground arith;
    pid_is = ground arith;
    parent_is = ground arith;
    esp0_is = ground arith;
    saved = (ground arith, ground arith);
    paging_is = refl;
    stack_is = refl;
  };
  fits = omega arith;
  loads = (loaded.0, loaded.2);
  same_files = refl;
}

Starts-translate_example :
    (translate 0x1000 started_system.kernel.paging 0x8048002
      ≡ some (record { address = 0x848002; user = true }))
    × (started_system.kernel.console.mem 0x848002 ≡ file_byte files 0 2)
    × (started_system.kernel.console.mem 5 ≡ (
        if within (program_at 0) (inode_length files 0) 5
        then file_byte files 0 (5 - program_at 0)
        else 0))
unfolding num_of_inodes inode_length u32_at
Starts-translate_example =
    Starts-translate 7 8 0x1000 0 2 5 idle_system started_system program started_system-Starts
      (omega arith) (omega arith) (omega arith)
