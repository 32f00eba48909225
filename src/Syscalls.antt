-- ===== src/Syscalls.antt =====
-- The system calls on files of student-distrib/system_calls.c, with the tables of function pointers
-- that they call through. The memory `m` is the caller's; a pointer to it is an address.
pub mod Link
pub mod Descriptors
pub mod Results
pub mod Tables
pub mod Keep
pub mod Steps
pub mod OpenFile
mod Examples
use ece391_linux_os.Base.{
  ℕ, zero, suc, ◌+◌, ◌-◌, List, ◌++◌, Bool, true, false, Option, none, some, Bytes, shift, update,
  ◌==◌, ltb, leb, ◌&&◌, ◌||◌, if◌then◌else◌, ℤ, pos, negsuc, minus_one, is_neg, to_nat,
}
use ece391_linux_os.CLib.Mem.{store4}
use ece391_linux_os.CLib.Str.{strlen, strncpy}
use ece391_linux_os.Process.{
  FileOps, fops_rtc, fops_dir, fops_file, std_in, std_out, FileDesc, Pcb, get_pcb, fd_start, fd_ok,
}
use ece391_linux_os.FileSys.{FileSystem, Dentry, read_dentry_by_name}
use ece391_linux_os.FileSys.Ops.{
  file_read, file_write, file_open, file_close, dir_read, dir_write, dir_open, dir_close,
}
use ece391_linux_os.Console.{Console, visible, terminal_write}
use ece391_linux_os.Keyboard.{terminal_read}
use ece391_linux_os.Rtc.{Io, Flag, rtc_open, rtc_close, rtc_read, rtc_write}
use ece391_linux_os.Paging.{Paging, map_video}

-- What the calls work on. `pcb` gives the process control block at an address, and `ports` the
-- port operations so far. The fields behind it are what comes from outside: the scan codes and the
-- interrupts to come, and what the devices answer.
pub record Kernel : Type 0 where
  pub console : Console
  pub fs : FileSystem
  pub pcb : ℕ → Pcb
  pub rtc_int_received : Flag
  pub paging : Paging
  pub tss_ss0 : ℕ
  pub tss_esp0 : ℕ
  pub ports : List Io
  pub keys : List ℕ
  pub interrupts : List Bool
  pub mask : ℕ → ℕ
  pub register_a : ℕ
  pub register_b : ℕ
  pub past_keys : ℕ → ℕ

-- `get_pcb(t[t_visible].running_process)`
abbrev pub running : Kernel → ℕ
running k = get_pcb (visible k.console).running_process

abbrev pub fd_table : Kernel → ℕ → FileDesc
fd_table k = (k.pcb (running k)).fd_table

abbrev pub set_fd_table : Kernel → (ℕ → FileDesc) → Kernel
set_fd_table k table = record k {
  pcb = update k.pcb (running k) (record (k.pcb (running k)) { fd_table = table });
}

pub bad_call : ℤ
bad_call = minus_one

-- The block of a new process.
unfoldable pub pcb_init : Console → Pcb → Pcb
pcb_init c p = record p {
  fd_table =
      update
        (update p.fd_table 0 (record { fops_ptr = std_in; inode = 0; file_pos = 0; flags = 1 })) 1
        (record { fops_ptr = std_out; inode = 0; file_pos = 0; flags = 1 });
  pid = (visible c).running_process;
}

-- The descriptor that the loop of `open` comes to, from `fd` on.
pub find_free : ℕ → (ℕ → FileDesc) → ℕ → Option ℕ
find_free zero table fd = none
find_free (suc rounds) table fd =
    let rest = find_free rounds table (fd + 1) in if (table fd).flags == 0 then some fd else rest

-- The switch on the type of the file.
pub type_ops : Dentry → Option (FileOps × ℕ)
type_ops file_block =
    let f_type = file_block.file_type in
    if f_type == 0
    then some (fops_rtc, 0)
    else if f_type == 1
    then some (fops_dir, 0)
    else if f_type == 2
    then some (fops_file, file_block.inode)
    else none

-- `fops_ptr->open(filename)`, whose result is not used
pub call_open : ℕ → FileOps → Kernel → Bytes → Option Kernel
call_open fuel fops_rtc k filename =
    let (ret, ios, flag) = rtc_open k.mask k.register_b k.register_a in
    some (record k { ports = k.ports ++ ios; rtc_int_received = flag })
call_open fuel fops_dir k filename = some (record k { fs = (dir_open k.fs).1 })
call_open fuel fops_file k filename = elim (file_open fuel k.fs filename) [
  | none ↦ none
  | some ret ↦ some k
]
call_open fuel std_in k filename = some k
call_open fuel std_out k filename = some k

-- The rest of `open`, with the entry that the name is found at.
pub open_entry : ℕ → Kernel → Bytes → Dentry → Option (ℤ × Kernel)
open_entry fuel k filename file_block = elim (find_free 6 (fd_table k) fd_start) [
  | none ↦ some (minus_one, k)
  | some fd ↦ elim (type_ops file_block) [
    | none ↦ some (minus_one, k)
    | some (ops, inode) ↦
        let desc : FileDesc = record { fops_ptr = ops; inode = inode; file_pos = 0; flags = 1 } in
        elim (call_open fuel ops (set_fd_table k (update (fd_table k) fd desc)) filename) [
          | none ↦ none
          | some k' ↦ some (pos fd, k')
        ]
  ]
]

-- `open`. The fuel is for the scans of `filename`.
pub sys_open : ℕ → Kernel → Bytes → ℕ → Option (ℤ × Kernel)
sys_open fuel k m filename =
    let name = shift m filename in
    if filename == 0 then some (minus_one, k) else elim (strlen fuel name) [
      | none ↦ none
      | some len ↦
          if len == 0 then some (minus_one, k) else elim (read_dentry_by_name fuel k.fs name) [
            | none ↦ none
            | some none ↦ some (minus_one, k)
            | some (some file_block) ↦ open_entry fuel k name file_block
          ]
    ]

-- `fops_ptr->close(fd)`, whose result is not used either; none of the functions changes anything
abbrev call_close : FileOps → ℤ → ℤ
call_close fops_rtc fd = rtc_close fd
call_close fops_dir fd = dir_close
call_close fops_file fd = file_close
call_close std_in fd = bad_call
call_close std_out fd = bad_call

unfoldable pub close : Kernel → ℤ → ℤ × Kernel
close k fd =
    let desc = fd_table k (to_nat fd) in
    if fd_ok fd_start fd
    then (if desc.flags == 0
        then (minus_one, k)
        else let ret = call_close desc.fops_ptr fd in
          (pos 0, set_fd_table k (update (fd_table k) (to_nat fd) (record desc { flags = 0 }))))
    else (minus_one, k)

-- The checks of `read` and `write`.
pub may_use : Kernel → ℤ → ℕ → ℤ → Bool
may_use k fd buf nbytes =
    if fd_ok 0 fd
    then (if buf == 0 || is_neg nbytes
        then false
        else if (fd_table k (to_nat fd)).flags == 0
        then false
        else true)
    else false

-- `fops_ptr->read(fd, buf, nbytes)`
pub call_read : ℕ → FileOps → Kernel → ℤ → Bytes → ℕ → ℤ → Option (ℤ × Kernel × Bytes)
call_read fuel fops_rtc k fd m buf nbytes = elim (rtc_read k.interrupts k.rtc_int_received) [
  | none ↦ none
  | some (ret, later, flag) ↦
      some (ret, record k { interrupts = later; rtc_int_received = flag }, m)
]
call_read fuel fops_dir k fd m buf nbytes = elim (dir_read fuel k.fs m buf) [
  | none ↦ none
  | some (ret, fs', m') ↦ some (ret, record k { fs = fs' }, m')
]
call_read fuel fops_file k fd m buf nbytes = elim (file_read k.fs (fd_table k) fd m buf nbytes) [
  | none ↦ none
  | some (ret, table, m') ↦ some (ret, set_fd_table k table, m')
]
call_read fuel std_in k fd m buf nbytes =
    elim (terminal_read k.past_keys k.keys k.console m buf nbytes) [
      | none ↦ none
      | some (ret, c, m', later) ↦ some (ret, record k { console = c; keys = later }, m')
    ]
call_read fuel std_out k fd m buf nbytes = some (bad_call, k, m)

pub read : ℕ → Kernel → ℤ → Bytes → ℕ → ℤ → Option (ℤ × Kernel × Bytes)
read fuel k fd m buf nbytes =
    if may_use k fd buf nbytes
    then call_read fuel (fd_table k (to_nat fd)).fops_ptr k fd m buf nbytes
    else some (minus_one, k, m)

-- `fops_ptr->write(fd, buf, nbytes)`
pub call_write : FileOps → Kernel → Bytes → ℕ → ℤ → Option (ℤ × Kernel)
call_write fops_rtc k m buf nbytes = elim (rtc_write m buf nbytes k.register_a) [
  | none ↦ none
  | some (ret, ios) ↦ some (ret, record k { ports = k.ports ++ ios })
]
call_write fops_dir k m buf nbytes = some (dir_write, k)
call_write fops_file k m buf nbytes = some (file_write, k)
call_write std_in k m buf nbytes = some (bad_call, k)
call_write std_out k m buf nbytes =
    let (ret, c) = terminal_write k.console m buf nbytes in some (ret, record k { console = c })

pub write : Kernel → ℤ → Bytes → ℕ → ℤ → Option (ℤ × Kernel)
write k fd m buf nbytes =
    if may_use k fd buf nbytes
    then call_write (fd_table k (to_nat fd)).fops_ptr k m buf nbytes
    else some (minus_one, k)

-- The memory with another content from `buf` on.
abbrev pub splice : Bytes → ℕ → Bytes → Bytes
splice m buf region a = if leb buf a then region (a - buf) else m a

-- `pcb->arg == '\0'` compares the address of the array with NULL, and is false.
pub getargs : ℕ → Kernel → Bytes → ℕ → ℤ → Option (ℤ × Bytes)
getargs fuel k m buf nbytes =
    let arg = (k.pcb (running k)).arg in
    if buf == 0 || leb (to_nat nbytes) 0 then some (minus_one, m) else elim (strlen fuel arg) [
      | none ↦ none
      | some len ↦
          if ltb (to_nat nbytes) (len + 1)
          then some (minus_one, m)
          else some (
            pos 0,
            update (splice m buf (strncpy (shift m buf) arg (to_nat nbytes))) (buf + len) 0,
          )
    ]

-- `pt` is the address of the page table; the pointer that is stored is 140 MB.
pub vidmap : ℕ → Kernel → Bytes → ℕ → ℤ × Kernel × Bytes
vidmap pt k m screen_start =
    if ltb screen_start 0x8000000 || ltb (0x8400000 - 4) screen_start then (minus_one, k, m) else (
      pos 0,
      record k { paging = map_video pt k.paging },
      store4 m screen_start 0x00 0x00 0xc0 0x08,
    )

pub set_handler : ℤ
set_handler = minus_one

pub sigreturn : ℤ
sigreturn = minus_one
