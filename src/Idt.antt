-- ===== src/Idt.antt =====
-- The interrupt descriptor table of student-distrib/idt_handlers.c and x86_desc.h. Where the
-- linker puts a handler is an argument.
pub mod Vectors
pub mod Exceptions
mod Examples
use ece391_linux_os.Base.{ℕ, zero, suc, ◌+◌, ◌/◌, ◌%◌, update, ◌==◌, if◌then◌else◌}

-- The functions that the table can name.
pub data Handler : Type 0 where
  divide_error_ex debug_ex nmi_interrupt_ex breakpoint_ex overflow_ex : Handler
  bound_range_ex invalid_opcode_ex device_not_avail_ex double_fault_ex coprocess_seg_ex : Handler
  invalid_tss_ex seg_not_pres_ex stack_fault_ex gen_prot_ex page_fault_ex reserved : Handler
  fpu_fp_ex align_check_ex machine_check_ex simd_fp_ex : Handler
  undefined_handler : Handler
  rtc_handler_link keyboard_handler_link pit_handler_link sys_call_handler_link : Handler

-- The fields of an entry, the lowest bits first.
pub record IdtDesc : Type 0 where
  pub offset_15_00 : ℕ
  pub seg_selector : ℕ
  pub reserved4 : ℕ
  pub reserved3 : ℕ
  pub reserved2 : ℕ
  pub reserved1 : ℕ
  pub size : ℕ
  pub reserved0 : ℕ
  pub dpl : ℕ
  pub present : ℕ
  pub offset_31_16 : ℕ

abbrev pub ex_arr_size : ℕ
ex_arr_size = 20

abbrev pub num_vec : ℕ
num_vec = 256

abbrev pub pit_idx : ℕ
pit_idx = 0x20

abbrev pub keyboard_idx : ℕ
keyboard_idx = 0x21

abbrev pub rtc_idx : ℕ
rtc_idx = 0x28

abbrev pub sys_call_idx : ℕ
sys_call_idx = 0x80

-- The array has 20 elements; the loop over it reads no others.
pub exception_arr : ℕ → Handler
exception_arr i =
    if i == 0
    then divide_error_ex
    else if i == 1
    then debug_ex
    else if i == 2
    then nmi_interrupt_ex
    else if i == 3
    then breakpoint_ex
    else if i == 4
    then overflow_ex
    else if i == 5
    then bound_range_ex
    else if i == 6
    then invalid_opcode_ex
    else if i == 7
    then device_not_avail_ex
    else if i == 8
    then double_fault_ex
    else if i == 9
    then coprocess_seg_ex
    else if i == 10
    then invalid_tss_ex
    else if i == 11
    then seg_not_pres_ex
    else if i == 12
    then stack_fault_ex
    else if i == 13
    then gen_prot_ex
    else if i == 14
    then page_fault_ex
    else if i == 15
    then reserved
    else if i == 16
    then fpu_fp_ex
    else if i == 17
    then align_check_ex
    else if i == 18
    then machine_check_ex
    else simd_fp_ex

-- `SET_IDT_ENTRY` is the two halves of the address.
pub install_interrupt_handler : (Handler → ℕ) → (ℕ → IdtDesc) → ℕ → Handler → ℕ → ℕ → ℕ → IdtDesc
install_interrupt_handler address idt idt_offset handler trap sys_call =
    update idt idt_offset (record {
      offset_15_00 = address handler % 65536;
      seg_selector = 0x10;
      reserved4 = 0;
      reserved3 = trap % 2;
      reserved2 = 1;
      reserved1 = 1;
      size = 1;
      reserved0 = 0;
      dpl = if sys_call == 0 then 0 else 3;
      present = 1;
      offset_31_16 = address handler / 65536 % 65536;
    })

-- The two loops, from entry `i` on.
pub install_exceptions : (Handler → ℕ) → ℕ → (ℕ → IdtDesc) → ℕ → ℕ → IdtDesc
install_exceptions address zero idt i = idt
install_exceptions address (suc rounds) idt i =
    install_exceptions address rounds
      (install_interrupt_handler address idt i (exception_arr i) 0 0) (i + 1)

pub install_undefined : (Handler → ℕ) → ℕ → (ℕ → IdtDesc) → ℕ → ℕ → IdtDesc
install_undefined address zero idt j = idt
install_undefined address (suc rounds) idt j =
    install_undefined address rounds (install_interrupt_handler address idt j undefined_handler 0 0)
      (j + 1)

pub initialize_idt : (Handler → ℕ) → (ℕ → IdtDesc) → ℕ → IdtDesc
initialize_idt address idt =
    let i1 = install_exceptions address ex_arr_size idt 0 in
    let i2 = install_undefined address 236 i1 ex_arr_size in
    let i3 = install_interrupt_handler address i2 rtc_idx rtc_handler_link 0 0 in
    let i4 = install_interrupt_handler address i3 keyboard_idx keyboard_handler_link 0 0 in
    let i5 = install_interrupt_handler address i4 pit_idx pit_handler_link 0 0 in
    install_interrupt_handler address i5 sys_call_idx sys_call_handler_link 0 1
