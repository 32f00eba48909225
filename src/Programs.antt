-- ===== src/Programs.antt =====
-- `execute` and `halt` of student-distrib/system_calls.c: programs and the processes that run them.
pub mod Stacks
pub mod Search
pub mod Starting
pub mod Executing
pub mod Closing
pub mod Halting
pub mod Leaving
pub mod Image
pub mod Samples
pub mod Examples
use ece391_linux_os.Base.{
  ℕ, zero, suc, ◌+◌, ◌-◌, ◌*◌, Bool, true, false, Option, none, some, Bytes, update, ◌==◌, ltb,
  ◌&&◌, if◌then◌else◌, ℤ, pos, negsuc, minus_one, to_nat,
}
use ece391_linux_os.CLib.Str.{strcpy}
use ece391_linux_os.Process.{Pcb, get_pcb, kernel_stack, process_count, fd_start}
use ece391_linux_os.FileSys.{
  FileSystem, Dentry, u32_at, inode_length, num_of_inodes, read_dentry_by_name, read_data,
}
use ece391_linux_os.Console.{Console, Terminal, visible, set_visible}
use ece391_linux_os.Paging.{map_program}
use ece391_linux_os.Syscalls.{Kernel, pcb_init, close}
use ece391_linux_os.Command.{Parsed, refused, parsed, overrun, parse_command}

-- The kernel with its table of processes.
pub record System : Type 0 where
  pub kernel : Kernel
  pub process_status : ℕ → ℤ

abbrev pub with_kernel : System → Kernel → System
with_kernel s k = record s { kernel = k }

-- What the arrays of `execute` on the stack hold before.
pub record Scratch : Type 0 where
  pub exec : Bytes
  pub argb : Bytes
  pub buffer : Bytes

-- How a call goes on: it returns -1; it enters user code at an address; it returns a status from
-- the `execute` that started the process, whose registers it restores; or it reads or writes outside
-- an array or a mapped page.
pub data Outcome : Type 0 where
  failed : System → Outcome
  started : ℕ → System → Outcome
  returned : (status esp ebp : ℕ) → System → Outcome
  crashed : Outcome

abbrev pub is_minus_one : ℤ → Bool
is_minus_one (pos n) = false
is_minus_one (negsuc n) = n == 0

-- `++` and `--`
abbrev pub inc : ℤ → ℤ
inc (pos n) = pos (n + 1)
inc (negsuc zero) = pos 0
inc (negsuc (suc n)) = negsuc n

abbrev pub dec : ℤ → ℤ
dec (pos zero) = minus_one
dec (pos (suc n)) = pos n
dec (negsuc n) = negsuc (n + 1)

abbrev pub max_proc_per_term : ℕ
max_proc_per_term = 3

abbrev pub over_limit : ℤ → Bool
over_limit (pos n) = ltb max_proc_per_term n
over_limit (negsuc n) = false

-- The loop over the table, from process `p` on.
pub find_process : ℕ → (ℕ → ℤ) → ℕ → Option ℕ
find_process zero status p = none
find_process (suc rounds) status p =
    let rest = find_process rounds status (p + 1) in
    if is_minus_one (status p) then some p else rest

-- 33 bytes are enough for the scan of `exec`, which has a zero byte among its first 33.
pub find_program : FileSystem → Bytes → Bytes → Option (Option (Dentry × Bytes))
find_program fs exec buffer = elim (read_dentry_by_name 33 fs exec) [
  | none ↦ none
  | some none ↦ some none
  | some (some search) ↦ elim (read_data fs search.inode 0 buffer 0 4) [
    | none ↦ none
    | some (ret, b) ↦ some (
        if b 0 == 0x7f && (b 1 == 0x45 && (b 2 == 0x4c && b 3 == 0x46))
        then some (search, b)
        else none)
  ]
]

-- The physical address of `PROG_IMG_ADDR` in the page of a process, and what fits behind it there.
abbrev pub program_at : ℕ → ℕ
program_at p = 0x800000 + 0x400000 * p + 0x48000

abbrev pub program_room : ℕ
program_room = 0x400000 - 0x48000

-- The block of the new process `p`, from what stood there; `esp` and `ebp` are the registers.
pub new_block : Console → ℤ → (esp ebp : ℕ) → Bytes → Pcb → Pcb
new_block c parent_process esp ebp arg block =
    let b = pcb_init c block in
    let parent = if is_minus_one (visible c).shell_flag then b.pid else parent_process in
    record b {
      parent_pid = parent;
      esp0 = kernel_stack parent;
      ss0 = 0x18;
      arg = arg;
      esp = esp;
      ebp = ebp;
    }

-- The visible terminal with process `p` in front, and one more process.
pub enter_process : Console → ℕ → Console
enter_process c p = set_visible c (record (visible c) {
  running_process = pos p;
  process_ct = inc (visible c).process_ct;
  shell_flag = if is_minus_one (visible c).shell_flag then pos 0 else (visible c).shell_flag;
})

-- From the entry point on, when nothing can fail any more but the copy of the program. An inode that
-- the image does not have is not copied.
pub start_process :
    Scratch → (esp ebp : ℕ) → System → (p : ℕ) → (argb : Bytes) → Dentry → ℕ → Option Outcome
start_process scratch esp ebp s p argb search entry_point =
    let k = s.kernel in
    let c = k.console in
    let parent_process = (visible c).running_process in
    let at = get_pcb (pos p) in
    let naming = set_visible c (record (visible c) { running_process = pos p }) in
    if ltb search.inode (num_of_inodes k.fs) && ltb program_room (inode_length k.fs search.inode)
    then some crashed
    else elim (read_data k.fs search.inode 0 c.mem (program_at p)
        (inode_length k.fs search.inode)) [
          | none ↦ none
          | some (ret, mem) ↦ elim (strcpy 33 (k.pcb at).arg argb) [
            | none ↦ none
            | some arg ↦
                let block = new_block naming parent_process esp ebp arg (k.pcb at) in
                some (
                  started entry_point (record {
                    kernel = record k {
                      console = record (enter_process c p) { mem = mem };
                      paging = map_program p k.paging;
                      pcb = update k.pcb at block;
                      tss_esp0 = kernel_stack block.pid;
                      tss_ss0 = 0x18;
                    };
                    process_status = update s.process_status p (pos 1);
                  }))
          ]
        ]

-- `execute` with the name and the arguments.
pub execute_program : Scratch → (esp ebp : ℕ) → System → ℕ → (exec argb : Bytes) → Option Outcome
execute_program scratch esp ebp s p exec argb =
    elim (find_program s.kernel.fs exec scratch.buffer) [
      | none ↦ none
      | some none ↦ some (failed s)
      | some (some (search, b)) ↦ elim (read_data s.kernel.fs search.inode 24 b 0 4) [
        | none ↦ none
        | some (ret, b') ↦ start_process scratch esp ebp s p argb search (u32_at b' 0)
      ]
    ]

-- `execute`; `command` is none for NULL. None is a loop that does not end.
pub execute : Scratch → (esp ebp : ℕ) → System → Option Bytes → Option Outcome
execute scratch esp ebp s command = elim (find_process process_count s.process_status 0) [
  | none ↦ some (failed s)
  | some p ↦
      if over_limit (visible s.kernel.console).process_ct then some (failed s) else elim command [
        | none ↦ some (failed s)
        | some line ↦ elim (parse_command line scratch.exec scratch.argb) [
          | none ↦ none
          | some refused ↦ some (failed s)
          | some overrun ↦ some crashed
          | some (parsed exec argb) ↦ execute_program scratch esp ebp s p exec argb
        ]
      ]
]

-- The loop of `halt` over the descriptors, from `i` on.
pub close_all : ℕ → Kernel → ℕ → Kernel
close_all zero k i = k
close_all (suc rounds) k i = close_all rounds (close k (pos i)).1 (i + 1)

-- The visible terminal without its front process.
pub leave_process : Console → ℤ → Console
leave_process c parent_pid =
    set_visible c
      (record (visible c) { running_process = parent_pid; process_ct = dec (visible c).process_ct })

abbrev pub user_prog_code : ℕ
user_prog_code = 255

-- The end of `halt`, with the block of the process that ends.
pub return_to_parent : System → ℕ → Pcb → Outcome
return_to_parent s status pcb =
    let code = if status == user_prog_code then status + 1 else status in
    returned code pcb.esp pcb.ebp (record s {
      kernel = record s.kernel {
        paging = map_program (to_nat pcb.parent_pid) s.kernel.paging;
        tss_esp0 = pcb.esp0;
        tss_ss0 = 0x18;
      };
    })

abbrev pub shell_name : Bytes
shell_name i =
    if i == 0
    then b's'
    else if i == 1
    then b'h'
    else if i == 2
    then b'e'
    else if i == 3
    then b'l'
    else if i == 4
    then b'l'
    else 0

abbrev same_pid : ℤ → ℤ → Bool
same_pid (pos a) (pos b) = a == b
same_pid (negsuc a) (negsuc b) = a == b
same_pid (pos a) (negsuc b) = false
same_pid (negsuc a) (pos b) = false

-- What `execute("shell")` in `halt` comes to; if it returns, the rest of `halt` is run.
pub after_shell : Outcome → ℕ → Pcb → Outcome
after_shell (failed s) status pcb = return_to_parent s status pcb
after_shell (started entry_point s) status pcb = started entry_point s
after_shell (returned st esp ebp s) status pcb = returned st esp ebp s
after_shell crashed status pcb = crashed

-- The process that the visible terminal runs is `n`; without one, the table of processes is
-- written outside.
pub halt : Scratch → (esp ebp : ℕ) → System → ℕ → Option Outcome
halt scratch esp ebp s status = elim (visible s.kernel.console).running_process [
  | negsuc n ↦ some crashed
  | pos n ↦
      let k = close_all 6 s.kernel fd_start in
      let pcb = k.pcb (get_pcb (pos n)) in
      let left : System = record {
        kernel = record k { console = leave_process k.console pcb.parent_pid };
        process_status = update s.process_status n minus_one;
      } in
      let v = visible (leave_process k.console pcb.parent_pid) in
      let idle : System = record {
        kernel = record k {
          console =
              set_visible k.console
                (record v { running_process = minus_one; shell_flag = minus_one });
        };
        process_status = update s.process_status n minus_one;
      } in
      let shell = execute scratch esp ebp idle (some shell_name) in
      if same_pid pcb.parent_pid pcb.pid
      then elim shell [ none ↦ none | some o ↦ some (after_shell o status pcb) ]
      else some (return_to_parent left status pcb)
]
