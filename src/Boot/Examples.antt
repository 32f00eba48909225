-- ===== src/Boot/Examples.antt =====
-- The end of the boot of a computer whose memory is zero.
use ece391_linux_os.Base.{◌≡◌, arith, some}
use ece391_linux_os.Console.Start.{Fresh}
use ece391_linux_os.Paging.{paging_init}
use ece391_linux_os.Programs.{System, Outcome, shell_name}
use ece391_linux_os.Programs.Stacks.{Represents}
use ece391_linux_os.Programs.Executing.{ExecuteOutcome}
use ece391_linux_os.Programs.Samples.{zeros, scratch, idle_system}
use ece391_linux_os.Boot.{Platform, Computer, initialize, start_shell}
use ece391_linux_os.Boot.Descriptors.{SegDesc}
use ece391_linux_os.Boot.Start.{no_stacks, start_shell-ExecuteOutcome}

abbrev junk : SegDesc
junk = record {
  seg_lim_15_00 = 1;
  base_15_00 = 2;
  base_23_16 = 3;
  seg_type = 4;
  sys = 1;
  dpl = 2;
  present = 0;
  seg_lim_19_16 = 3;
  avail = 1;
  reserved = 1;
  opsize = 0;
  granularity = 1;
  base_31_24 = 9;
}

abbrev platform : Platform
platform = record {
  ldt = 0x401000;
  ldt_size = 31;
  tss = 0x402000;
  tss_size = 103;
  pt = 0x403000;
  address = λ h. 0x400100;
  mask = λ p. 0xff;
  rtc_answer = 2;
}

abbrev computer : Computer
computer = record {
  system = idle_system;
  idt = λ i. record {
    offset_15_00 = 0;
    seg_selector = 0;
    reserved4 = 0;
    reserved3 = 0;
    reserved2 = 0;
    reserved1 = 0;
    size = 0;
    reserved0 = 0;
    dpl = 0;
    present = 0;
    offset_31_16 = 0;
  };
  ldt_desc_ptr = junk;
  tss_desc_ptr = junk;
  ldt_segment_selector = 0;
}

computer-Fresh : Fresh computer.system.kernel.console
computer-Fresh = record { visible_is = omega arith; count_is = λ i lt. ground arith }

start_shell-ExecuteOutcome_example :
    let ready = initialize platform junk junk computer in
    (o : Outcome) × (s : System) × (start_shell 21 zeros scratch 7 8 ready
      ≡ some (o, record ready { system = s }))
    × (s.kernel.fs ≡ idle_system.kernel.fs)
    × (s.kernel.paging ≡ paging_init 0x403000 idle_system.kernel.paging)
    × Represents s no_stacks
    × ExecuteOutcome scratch 7 8 s no_stacks shell_name 0 5 5 5 o
start_shell-ExecuteOutcome_example =
    start_shell-ExecuteOutcome 21 zeros scratch platform junk junk 7 8 computer computer-Fresh
      (omega arith)
