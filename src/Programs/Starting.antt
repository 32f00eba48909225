-- ===== src/Programs/Starting.antt =====
-- The start of a process in `execute` of student-distrib/system_calls.c.
use ece391_linux_os.Base.{
  ◌&&◌, ℕ, ◌<◌, ◌≤◌, ◌≡◌, ◌≢◌, inl, inr, refl, ap, arith, some, Bytes, update, ltb, if◌then◌else◌,
  Bool-cases, ℤ, pos,
}
use ece391_linux_os.CLib.Str.Laws.{IsString, strcpy-copied}
use ece391_linux_os.Process.{Pcb, get_pcb, kernel_stack}
use ece391_linux_os.FileSys.{Dentry, inode_length, num_of_inodes, read_data}
use ece391_linux_os.FileSys.Total.{read_data_returns}
use ece391_linux_os.Console.{Console, visible, set_visible}
use ece391_linux_os.Paging.{map_program}
use ece391_linux_os.Syscalls.{Kernel, pcb_init}
use ece391_linux_os.Programs.{
  System, Scratch, Outcome, started, crashed, is_minus_one, inc, program_at, program_room,
  new_block, enter_process, start_process,
}
use ece391_linux_os.Programs.Stacks.Changes.{Pushes}

-- The console and the block that a new process gets.
enter_process_lem :
    (c : Console) (p : ℕ)
    → ((enter_process c p).t_visible ≡ c.t_visible)
      × ((i : ℕ) → i ≢ c.t_visible → (enter_process c p).t i ≡ c.t i)
      × ((visible (enter_process c p)).running_process ≡ pos p)
      × ((visible (enter_process c p)).process_ct ≡ inc (visible c).process_ct)
      × ((visible (enter_process c p)).shell_flag
          ≡ (if is_minus_one (visible c).shell_flag then pos 0 else (visible c).shell_flag))
unfolding enter_process
enter_process_lem c p = (refl, λ i ne. ground arith, ground arith, ground arith, ground arith)

new_block_lem :
    (c : Console) (p : ℕ) (parent : ℤ) (esp ebp : ℕ) (arg : Bytes) (block : Pcb)
    → let naming = set_visible c (record (visible c) { running_process = pos p }) in
      let b = new_block naming parent esp ebp arg block in
      (b.pid ≡ pos p)
      × (b.parent_pid ≡ (if is_minus_one (visible c).shell_flag then pos p else parent))
      × (b.esp0 ≡ kernel_stack b.parent_pid)
      × (b.esp ≡ esp)
      × (b.ebp ≡ ebp)
unfolding new_block pcb_init
new_block_lem c p parent esp ebp arg block = (ground arith, ground arith, refl, refl, refl)

-- A process `p` has been started: it stands in and its program has been read to its page.
pub record Starts (esp ebp : ℕ) (s : System) (p : ℕ) (search : Dentry) (s' : System) : Type 0 where
  pub pushes : Pushes esp ebp s p s'
  pub fits :
      search.inode < num_of_inodes s.kernel.fs
      → inode_length s.kernel.fs search.inode ≤ program_room
  pub loads :
      (ret : ℤ) × (read_data s.kernel.fs search.inode 0 s.kernel.console.mem
          (program_at p)
          (inode_length s.kernel.fs search.inode)
        ≡ some (ret, s'.kernel.console.mem))
  pub same_files : s'.kernel.fs ≡ s.kernel.fs

-- What the start of a process comes to.
pub data StartOutcome (esp ebp : ℕ) (s : System) (p entry : ℕ) (search : Dentry)
    : Outcome → Type 0 where
  too_big :
      search.inode < num_of_inodes s.kernel.fs
      → program_room < inode_length s.kernel.fs search.inode
      → StartOutcome esp ebp s p entry search crashed
  running_now :
      (s' : System)
      → Starts esp ebp s p search s'
      → StartOutcome esp ebp s p entry search (started entry s')

pub start_process-StartOutcome :
    (scratch : Scratch) (esp ebp : ℕ) (s : System) (p : ℕ) (argb : Bytes) (search : Dentry)
    (entry n : ℕ)
    → IsString argb n
    → n < 33
    → (o : Outcome) × (start_process scratch esp ebp s p argb search entry ≡ some o)
      × StartOutcome esp ebp s p entry search o
unfolding start_process
start_process-StartOutcome scratch esp ebp s p argb search entry n h lt =
    let k : Kernel = s.kernel in
    let c : Console = k.console in
    let at : ℕ = get_pcb (pos p) in
    let (ret, mem, read) =
      read_data_returns k.fs search.inode 0 c.mem (program_at p) (inode_length k.fs search.inode) in
    let (arg, copy, chars) = strcpy-copied 33 (k.pcb at).arg argb n h lt in
    let block : Pcb =
      new_block (set_visible c (record (visible c) { running_process = pos p }))
        (visible c).running_process esp ebp arg (k.pcb at) in
    let (same, others, running, ct, shell) = enter_process_lem c p in
    let (pid, parent, esp0, saved, saved') =
      new_block_lem c p (visible c).running_process esp ebp arg (k.pcb at) in
    let here : update k.pcb at block at ≡ block = ground arith in
    elim (Bool-cases (
      ltb search.inode (num_of_inodes k.fs) && ltb program_room (inode_length k.fs search.inode))) [
        | inl big ↦ (crashed, rw (big, start_process), too_big (ground arith) (ground arith))
        | inr small ↦
            let s' : System = record {
              kernel = record k {
                console = record (enter_process c p) { mem = mem };
                paging = map_program p k.paging;
                pcb = update k.pcb at block;
                tss_esp0 = kernel_stack block.pid;
                tss_ss0 = 0x18;
              };
              process_status = update s.process_status p (pos 1);
            } in
            (
              started entry s',
              rw (small, read, copy, start_process),
              running_now s' (record {
                pushes = record {
                  same_visible = same;
                  others = others;
                  running_is = running;
                  count_is = ct;
                  flag_is = shell;
                  status_is = refl;
                  blocks = λ a ne. ground arith;
                  pid_is = rw here pid;
                  parent_is = rw here parent;
                  esp0_is = rw here esp0;
                  saved = (rw here saved, rw here saved');
                  paging_is = refl;
                  stack_is = ap kernel_stack pid;
                };
                fits = λ there. ground arith;
                loads = (ret, read);
                same_files = refl;
              }),
            )
      ]
