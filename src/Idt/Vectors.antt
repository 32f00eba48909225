-- ===== src/Idt/Vectors.antt =====
-- What each of the 256 vectors of the table of student-distrib/idt_handlers.c does.
use ece391_linux_os.Base.{
  ℕ, zero, suc, ◌+◌, ◌*◌, ◌/◌, ◌%◌, ◌<◌, ◌≡◌, refl, ◌∙◌, ap, arith, ◌==◌, ltb, leb, ◌&&◌,
  if◌then◌else◌, u32_mod, List, [], ◌∷◌,
}
use native.Mathlib.Decide.{ℕ_discrete}
use ece391_linux_os.Idt.{
  Handler, IdtDesc, exception_arr, install_interrupt_handler, install_exceptions, install_undefined,
  initialize_idt, num_vec, divide_error_ex, debug_ex, nmi_interrupt_ex, breakpoint_ex, overflow_ex,
  bound_range_ex, invalid_opcode_ex, device_not_avail_ex, double_fault_ex, coprocess_seg_ex,
  invalid_tss_ex, seg_not_pres_ex, stack_fault_ex, gen_prot_ex, page_fault_ex, reserved, fpu_fp_ex,
  align_check_ex, machine_check_ex, simd_fp_ex, sys_call_idx, undefined_handler, rtc_handler_link,
  keyboard_handler_link, pit_handler_link, sys_call_handler_link,
}

-- The exceptions by the numbers that the processor gives them (IA-32 manual, volume 3, 5.3).
abbrev pub exceptions : List Handler
exceptions =
    divide_error_ex ∷ debug_ex ∷ nmi_interrupt_ex ∷ breakpoint_ex ∷ overflow_ex ∷ bound_range_ex
    ∷ invalid_opcode_ex ∷ device_not_avail_ex ∷ double_fault_ex ∷ coprocess_seg_ex ∷ invalid_tss_ex
    ∷ seg_not_pres_ex ∷ stack_fault_ex ∷ gen_prot_ex ∷ page_fault_ex ∷ reserved ∷ fpu_fp_ex
    ∷ align_check_ex ∷ machine_check_ex ∷ simd_fp_ex ∷ []

abbrev pub nth : List Handler → ℕ → Handler
nth [] v = undefined_handler
nth (h ∷ hs) zero = h
nth (h ∷ hs) (suc v) = nth hs v

-- The handler that a vector is for, by these numbers.
abbrev pub handler_of : ℕ → Handler
handler_of v =
    if v == 0x80
    then sys_call_handler_link
    else if v == 0x20
    then pit_handler_link
    else if v == 0x21
    then keyboard_handler_link
    else if v == 0x28
    then rtc_handler_link
    else if ltb v 20
    then nth exceptions v
    else undefined_handler

-- An entry of a present 32-bit interrupt gate in the kernel's segment, for `handler` and for the
-- privilege level `level`.
pub record Gate (address : Handler → ℕ) (handler : Handler) (level : ℕ) (d : IdtDesc) : Type 0 where
  pub target : d.offset_31_16 * 65536 + d.offset_15_00 ≡ address handler
  pub segment : d.seg_selector ≡ 0x10
  pub kind :
      (d.size ≡ 1)
      × (d.reserved0 ≡ 0)
      × (d.reserved1 ≡ 1)
      × (d.reserved2 ≡ 1)
      × (d.reserved3 ≡ 0)
      × (d.reserved4 ≡ 0)
  pub level_is : d.dpl ≡ level
  pub is_present : d.present ≡ 1

-- The entry that the installer writes.
abbrev entry : (Handler → ℕ) → Handler → ℕ → IdtDesc
entry address handler level = record {
  offset_15_00 = address handler % 65536;
  seg_selector = 0x10;
  reserved4 = 0;
  reserved3 = 0;
  reserved2 = 1;
  reserved1 = 1;
  size = 1;
  reserved0 = 0;
  dpl = level;
  present = 1;
  offset_31_16 = address handler / 65536 % 65536;
}

entry-Gate :
    (address : Handler → ℕ) (handler : Handler) (level : ℕ)
    → address handler < u32_mod
    → Gate address handler level (entry address handler level)
entry-Gate address handler level h = record {
  target = omega arith;
  segment = refl;
  kind = (refl, refl, refl, refl, refl, refl);
  level_is = refl;
  is_present = refl;
}

install_lem :
    (address : Handler → ℕ) (idt : ℕ → IdtDesc) (k v : ℕ) (h : Handler)
    → install_interrupt_handler address idt k h 0 0 v
      ≡ (if v == k then entry address h 0 else idt v)
unfolding install_interrupt_handler
install_lem address idt k v h = refl

install_system :
    (address : Handler → ℕ) (idt : ℕ → IdtDesc) (k v : ℕ) (h : Handler)
    → install_interrupt_handler address idt k h 0 1 v
      ≡ (if v == k then entry address h 3 else idt v)
unfolding install_interrupt_handler
install_system address idt k v h = refl

install_exceptions_lem :
    (address : Handler → ℕ) (n : ℕ) (idt : ℕ → IdtDesc) (i v : ℕ)
    → install_exceptions address n idt i v
      ≡ (if leb i v && ltb v (i + n) then entry address (exception_arr v) 0 else idt v)
unfolding install_exceptions
install_exceptions_lem address zero idt i v = ground arith
install_exceptions_lem address (suc n) idt i v =
    install_exceptions_lem address n _ (i + 1) v
    ∙ rw (install_lem address idt i v (exception_arr i)) (elim (ℕ_discrete v i) [
      | yes e ↦ ground (arith, ap exception_arr e)
      | no ne ↦ ground arith
    ])

install_undefined_lem :
    (address : Handler → ℕ) (n : ℕ) (idt : ℕ → IdtDesc) (i v : ℕ)
    → install_undefined address n idt i v
      ≡ (if leb i v && ltb v (i + n) then entry address undefined_handler 0 else idt v)
unfolding install_undefined
install_undefined_lem address zero idt i v = ground arith
install_undefined_lem address (suc n) idt i v =
    install_undefined_lem address n _ (i + 1) v
    ∙ rw (install_lem address idt i v undefined_handler) (ground arith)

-- The array has the exceptions at their numbers.
exception_arr-nth : (v : ℕ) → v < 20 → exception_arr v ≡ nth exceptions v
unfolding exception_arr
exception_arr-nth v h = ground arith

initialize_idt-entry :
    (address : Handler → ℕ) (idt : ℕ → IdtDesc) (v : ℕ)
    → v < num_vec
    → initialize_idt address idt v ≡ entry address (handler_of v) (if v == 0x80 then 3 else 0)
unfolding initialize_idt install_interrupt_handler
initialize_idt-entry address idt v h = ground (
  arith,
  install_undefined_lem address 236 (install_exceptions address 20 idt 0) 20 v,
  install_exceptions_lem address 20 idt 0 v,
  exception_arr-nth v,
)

-- After `initialize_idt` each of the 256 vectors has a present 32-bit interrupt gate in the kernel's
-- segment: the first 20 for the exceptions that the processor gives these
-- numbers, 0x20, 0x21, 0x28 and 0x80 for the timer, the keyboard,
-- the clock and the system calls, and all others for the general handler. User code can raise only
-- the system call's.
pub initialize_idt-Gate :
    (address : Handler → ℕ) (idt : ℕ → IdtDesc) (v : ℕ)
    → v < num_vec
    → ((h : Handler) → address h < u32_mod)
    → Gate address
        (handler_of v)
        (if v == sys_call_idx then 3 else 0)
        (initialize_idt address idt v)
initialize_idt-Gate address idt v h small =
    rw (initialize_idt-entry address idt v h) (entry-Gate address (handler_of v) _ (small _))
