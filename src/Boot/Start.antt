-- ===== src/Boot/Start.antt =====
-- What the end of `entry` of student-distrib/kernel.c comes to.
use ece391_linux_os.Base.{
  ℕ, zero, suc, ◌+◌, ◌<◌, ◌≤◌, ◌≡◌, ◌≢◌, ◌⊎◌, inl, inr, refl, arith, some, Bytes, update, [], ℤ,
  pos, minus_one,
}
use native.Mathlib.Decide.{ℕ_discrete}
use ece391_linux_os.CLib.Str.Laws.{IsString}
use ece391_linux_os.Process.{get_pcb, process_count}
use ece391_linux_os.Console.{put_bytes}
use ece391_linux_os.Console.Processes.{put_bytes-SameProcesses}
use ece391_linux_os.Console.Start.{Fresh, same-Fresh, terminal_init_lem}
use ece391_linux_os.Console.Print.Text.{printf-plain}
use ece391_linux_os.Paging.{paging_init}
use ece391_linux_os.Keyboard.{keyboard_init}
use ece391_linux_os.Keyboard.Terminals.{keyboard_init-SameProcesses}
use ece391_linux_os.Syscalls.{Kernel}
use ece391_linux_os.Programs.{System, with_kernel, Scratch, Outcome, shell_name}
use ece391_linux_os.Programs.Stacks.{Stacks, count, length, Represents}
use ece391_linux_os.Programs.Stacks.Keep.{SameTables-Represents}
use ece391_linux_os.Programs.Executing.{ExecuteOutcome, execute-ExecuteOutcome}
use ece391_linux_os.Programs.Halting.{shell-IsLine}
use ece391_linux_os.Boot.Text.{text, text-IsString}
use ece391_linux_os.Boot.{Platform, Computer, free_processes, initialize, start_shell}
use ece391_linux_os.Boot.Lines.{argument, say}
use ece391_linux_os.Boot.Descriptors.{SegDesc}

abbrev pub no_stacks : Stacks
no_stacks i = []

free_processes-status :
    (rounds : ℕ) (status : ℕ → ℤ) (p i : ℕ)
    → ((p ≤ i) × (i < p + rounds)) ⊎ (status i ≡ minus_one)
    → free_processes rounds status p i ≡ minus_one
unfolding free_processes
free_processes-status zero status p i (inl (le, lt)) = absurd (omega arith)
free_processes-status zero status p i (inr e) = e
free_processes-status (suc rounds) status p i (inl (le, lt)) = elim (ℕ_discrete i p) [
  | yes e ↦ free_processes-status rounds _ (p + 1) i (inr (ground arith))
  | no ne ↦ free_processes-status rounds _ (p + 1) i (inl (omega arith, omega arith))
]
free_processes-status (suc rounds) status p i (inr e) =
    free_processes-status rounds _ (p + 1) i (inr (ground arith))

pub initialize-Represents :
    (h : Platform) (junk_ldt junk_tss : SegDesc) (b : Computer)
    → Fresh b.system.kernel.console
    → Represents (initialize h junk_ldt junk_tss b).system no_stacks
unfolding initialize count length
initialize-Represents h junk_ldt junk_tss b f =
    let (v, t) =
      terminal_init_lem (keyboard_init h.mask b.system.kernel.console).0
        (same-Fresh (keyboard_init-SameProcesses h.mask b.system.kernel.console) f) in
    record {
      visible_is = v;
      status = λ p lt.
          free_processes-status process_count b.system.process_status 0 p
            (inl (omega arith, omega arith));
      single = λ p. omega arith;
      bounded = λ p le. refl;
      front_is = λ i lt. tt;
      count_is = λ i lt. (t i lt).0;
      flag_is = λ i lt. (t i lt).1;
      depth = λ i lt. omega arith;
      chain = λ i lt. tt;
    }

enabling_plain :
    IsString (text "Enabling Interrupts\n") 20
    × ((i : ℕ) → i < 20 → text "Enabling Interrupts\n" i ≢ b'%')
unfolding length
enabling_plain = text-IsString "Enabling Interrupts\n" refl

-- The end of `entry`, from the message that interrupts are enabled on, comes to an end after
-- `initialize`, on a computer whose terminals count no processes: it executes `shell` in a system
-- whose tables hold three empty stacks, with the same files, the page tables of `paging_init`, and
-- the interrupt table and the descriptors that `initialize` sets.
pub start_shell-ExecuteOutcome :
    (fuel : ℕ) (junk : Bytes) (scratch : Scratch) (h : Platform) (junk_ldt junk_tss : SegDesc)
    (esp ebp : ℕ) (b : Computer)
    → Fresh b.system.kernel.console
    → 20 < fuel
    → let ready = initialize h junk_ldt junk_tss b in
      (o : Outcome) × (s : System) × (start_shell fuel junk scratch esp ebp ready
        ≡ some (o, record ready { system = s }))
      × (s.kernel.fs ≡ b.system.kernel.fs)
      × (s.kernel.paging ≡ paging_init h.pt b.system.kernel.paging)
      × Represents s no_stacks
      × ExecuteOutcome scratch esp ebp s no_stacks shell_name 0 5 5 5 o
unfolding start_shell say initialize
start_shell-ExecuteOutcome fuel junk scratch h junk_ldt junk_tss esp ebp b f lt =
    let ready : Computer = initialize h junk_ldt junk_tss b in
    let k : Kernel = ready.system.kernel in
    let (is, plain) = enabling_plain in
    let said =
      printf-plain fuel 20 k.console.mem junk (text "Enabling Interrupts\n") (argument []) k.console
        is plain lt in
    let k' : Kernel = record k {
      console = put_bytes 20 k.console (text "Enabling Interrupts\n") 0;
      pcb =
          update k.pcb (get_pcb (pos 0))
            (record (k.pcb (get_pcb (pos 0))) { cur_esp = esp; cur_ebp = ebp });
    } in
    let r : Represents (with_kernel ready.system k') no_stacks =
      SameTables-Represents {s = ready.system} {stacks = no_stacks} {k = k'}
        (record {
          terminals = put_bytes-SameProcesses 20 k.console (text "Enabling Interrupts\n") 0;
          blocks = record { blocks = λ a. ground arith };
        })
        (initialize-Represents h junk_ldt junk_tss b f) in
    let (o, run, outcome) =
      execute-ExecuteOutcome scratch esp ebp (with_kernel ready.system k') no_stacks shell_name 0 5
        5 5 r shell-IsLine in
    (o, with_kernel ready.system k', rw (said, run, start_shell) refl, refl, refl, r, outcome)
