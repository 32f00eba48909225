-- ===== src/Idt/Exceptions.antt =====
-- The handlers of the exceptions and of the undefined interrupts in
-- student-distrib/idt_handlers.c: each prints a message and halts the running program.
use mathlib.Core.Path.{subst}
use ece391_linux_os.Base.{Option-cases, inl, inr, none}
use ece391_linux_os.Console.Processes.{SameProcesses}
use ece391_linux_os.Console.Print.Processes.{SameWith, kept_with, printf-Same}
use ece391_linux_os.Base.{
  ℕ, zero, suc, ◌<◌, ◌≤◌, ◌≡◌, ◌≢◌, refl, arith, List, [], ◌∷◌, Bool, true, false, Option, none,
  some, Bytes, ◌==◌, ◌&&◌, leb, if◌then◌else◌,
}
use ece391_linux_os.CLib.Str.Laws.{IsString}
use ece391_linux_os.Console.{Console, put_bytes}
use ece391_linux_os.Console.Screen.{InScreen, Touched}
use ece391_linux_os.Console.Print.{printf}
use ece391_linux_os.Console.Print.Text.{printf-puts}
use ece391_linux_os.Idt.{
  Handler, divide_error_ex, debug_ex, nmi_interrupt_ex, breakpoint_ex, overflow_ex, bound_range_ex,
  invalid_opcode_ex, device_not_avail_ex, double_fault_ex, coprocess_seg_ex, invalid_tss_ex,
  seg_not_pres_ex, stack_fault_ex, gen_prot_ex, page_fault_ex, reserved, fpu_fp_ex, align_check_ex,
  machine_check_ex, simd_fp_ex, undefined_handler, rtc_handler_link, keyboard_handler_link,
  pit_handler_link, sys_call_handler_link,
}

-- The message of a handler; the four links into assembly print none.
pub message : Handler → List ℕ
message divide_error_ex =
    b'D' ∷ b'i' ∷ b'v' ∷ b'i' ∷ b'd' ∷ b'e' ∷ b' ' ∷ b'E' ∷ b'r' ∷ b'r' ∷ b'o' ∷ b'r' ∷ b' ' ∷ b'E'
    ∷ b'x' ∷ b'c' ∷ b'e' ∷ b'p' ∷ b't' ∷ b'i' ∷ b'o' ∷ b'n' ∷ b' ' ∷ b'(' ∷ b'#' ∷ b'D' ∷ b'E'
    ∷ b')' ∷ 10 ∷ []
message debug_ex =
    b'D' ∷ b'e' ∷ b'b' ∷ b'u' ∷ b'g' ∷ b' ' ∷ b'E' ∷ b'x' ∷ b'c' ∷ b'e' ∷ b'p' ∷ b't' ∷ b'i' ∷ b'o'
    ∷ b'n' ∷ b' ' ∷ b'(' ∷ b'#' ∷ b'D' ∷ b'B' ∷ b')' ∷ 10 ∷ []
message nmi_interrupt_ex =
    b'N' ∷ b'M' ∷ b'I' ∷ b' ' ∷ b'I' ∷ b'n' ∷ b't' ∷ b'e' ∷ b'r' ∷ b'r' ∷ b'u' ∷ b'p' ∷ b't' ∷ 10
    ∷ []
message breakpoint_ex =
    b'B' ∷ b'r' ∷ b'e' ∷ b'a' ∷ b'k' ∷ b'p' ∷ b'o' ∷ b'i' ∷ b'n' ∷ b't' ∷ b' ' ∷ b'E' ∷ b'x' ∷ b'c'
    ∷ b'e' ∷ b'p' ∷ b't' ∷ b'i' ∷ b'o' ∷ b'n' ∷ b' ' ∷ b'(' ∷ b'#' ∷ b'B' ∷ b'P' ∷ b')' ∷ 10 ∷ []
message overflow_ex =
    b'O' ∷ b'v' ∷ b'e' ∷ b'r' ∷ b'f' ∷ b'l' ∷ b'o' ∷ b'w' ∷ b' ' ∷ b'E' ∷ b'x' ∷ b'c' ∷ b'e' ∷ b'p'
    ∷ b't' ∷ b'i' ∷ b'o' ∷ b'n' ∷ b' ' ∷ b'(' ∷ b'#' ∷ b'O' ∷ b'F' ∷ b')' ∷ 10 ∷ []
message bound_range_ex =
    b'B' ∷ b'O' ∷ b'U' ∷ b'N' ∷ b'D' ∷ b' ' ∷ b'R' ∷ b'a' ∷ b'n' ∷ b'g' ∷ b'e' ∷ b' ' ∷ b'E' ∷ b'x'
    ∷ b'c' ∷ b'e' ∷ b'e' ∷ b'd' ∷ b'e' ∷ b'd' ∷ b' ' ∷ b'E' ∷ b'x' ∷ b'c' ∷ b'e' ∷ b'p' ∷ b't'
    ∷ b'i' ∷ b'o' ∷ b'n' ∷ b' ' ∷ b'(' ∷ b'#' ∷ b'B' ∷ b'R' ∷ b')' ∷ 10 ∷ []
message invalid_opcode_ex =
    b'I' ∷ b'n' ∷ b'v' ∷ b'a' ∷ b'l' ∷ b'i' ∷ b'd' ∷ b' ' ∷ b'O' ∷ b'p' ∷ b'c' ∷ b'o' ∷ b'd' ∷ b'e'
    ∷ b' ' ∷ b'E' ∷ b'x' ∷ b'c' ∷ b'e' ∷ b'p' ∷ b't' ∷ b'i' ∷ b'o' ∷ b'n' ∷ b' ' ∷ b'(' ∷ b'#'
    ∷ b'U' ∷ b'D' ∷ b')' ∷ 10 ∷ []
message device_not_avail_ex =
    b'D' ∷ b'e' ∷ b'v' ∷ b'i' ∷ b'c' ∷ b'e' ∷ b' ' ∷ b'N' ∷ b'o' ∷ b't' ∷ b' ' ∷ b'A' ∷ b'v' ∷ b'a'
    ∷ b'i' ∷ b'l' ∷ b'a' ∷ b'b' ∷ b'l' ∷ b'e' ∷ b' ' ∷ b'E' ∷ b'x' ∷ b'c' ∷ b'e' ∷ b'p' ∷ b't'
    ∷ b'i' ∷ b'o' ∷ b'n' ∷ b' ' ∷ b'(' ∷ b'#' ∷ b'N' ∷ b'M' ∷ b')' ∷ 10 ∷ []
message double_fault_ex =
    b'D' ∷ b'o' ∷ b'u' ∷ b'b' ∷ b'l' ∷ b'e' ∷ b' ' ∷ b'F' ∷ b'a' ∷ b'u' ∷ b'l' ∷ b't' ∷ b' ' ∷ b'E'
    ∷ b'x' ∷ b'c' ∷ b'e' ∷ b'p' ∷ b't' ∷ b'i' ∷ b'o' ∷ b'n' ∷ b' ' ∷ b'(' ∷ b'#' ∷ b'D' ∷ b'F'
    ∷ b')' ∷ 10 ∷ []
message coprocess_seg_ex =
    b'C' ∷ b'o' ∷ b'p' ∷ b'r' ∷ b'o' ∷ b'c' ∷ b'e' ∷ b's' ∷ b's' ∷ b'o' ∷ b'r' ∷ b' ' ∷ b'S' ∷ b'e'
    ∷ b'g' ∷ b'm' ∷ b'e' ∷ b'n' ∷ b't' ∷ b' ' ∷ b'O' ∷ b'v' ∷ b'e' ∷ b'r' ∷ b'r' ∷ b'u' ∷ b'n' ∷ 10
    ∷ []
message invalid_tss_ex =
    b'I' ∷ b'n' ∷ b'v' ∷ b'a' ∷ b'l' ∷ b'i' ∷ b'd' ∷ b' ' ∷ b'T' ∷ b'S' ∷ b'S' ∷ b' ' ∷ b'E' ∷ b'x'
    ∷ b'c' ∷ b'e' ∷ b'p' ∷ b't' ∷ b'i' ∷ b'o' ∷ b'n' ∷ b' ' ∷ b'(' ∷ b'#' ∷ b'T' ∷ b'S' ∷ b')' ∷ 10
    ∷ []
message seg_not_pres_ex =
    b'S' ∷ b'e' ∷ b'g' ∷ b'm' ∷ b'e' ∷ b'n' ∷ b't' ∷ b' ' ∷ b'N' ∷ b'o' ∷ b't' ∷ b' ' ∷ b'P' ∷ b'r'
    ∷ b'e' ∷ b's' ∷ b'e' ∷ b'n' ∷ b't' ∷ b' ' ∷ b'(' ∷ b'#' ∷ b'N' ∷ b'P' ∷ b')' ∷ 10 ∷ []
message stack_fault_ex =
    b'S' ∷ b't' ∷ b'a' ∷ b'c' ∷ b'k' ∷ b' ' ∷ b'F' ∷ b'a' ∷ b'u' ∷ b'l' ∷ b't' ∷ b' ' ∷ b'E' ∷ b'x'
    ∷ b'c' ∷ b'e' ∷ b'p' ∷ b't' ∷ b'i' ∷ b'o' ∷ b'n' ∷ b' ' ∷ b'(' ∷ b'#' ∷ b'S' ∷ b'S' ∷ b')' ∷ 10
    ∷ []
message gen_prot_ex =
    b'G' ∷ b'e' ∷ b'n' ∷ b'e' ∷ b'r' ∷ b'a' ∷ b'l' ∷ b' ' ∷ b'P' ∷ b'r' ∷ b'o' ∷ b't' ∷ b'e' ∷ b'c'
    ∷ b't' ∷ b'i' ∷ b'o' ∷ b'n' ∷ b' ' ∷ b'E' ∷ b'x' ∷ b'c' ∷ b'e' ∷ b'p' ∷ b't' ∷ b'i' ∷ b'o'
    ∷ b'n' ∷ b' ' ∷ b'(' ∷ b'#' ∷ b'G' ∷ b'P' ∷ b')' ∷ 10 ∷ []
message page_fault_ex =
    b'P' ∷ b'a' ∷ b'g' ∷ b'e' ∷ b'-' ∷ b'F' ∷ b'a' ∷ b'u' ∷ b'l' ∷ b't' ∷ b' ' ∷ b'E' ∷ b'x' ∷ b'c'
    ∷ b'e' ∷ b'p' ∷ b't' ∷ b'i' ∷ b'o' ∷ b'n' ∷ b' ' ∷ b'(' ∷ b'#' ∷ b'P' ∷ b'F' ∷ b')' ∷ 10 ∷ []
message reserved =
    b'R' ∷ b'e' ∷ b's' ∷ b'e' ∷ b'r' ∷ b'v' ∷ b'e' ∷ b'd' ∷ b' ' ∷ b'b' ∷ b'y' ∷ b' ' ∷ b'I' ∷ b'n'
    ∷ b't' ∷ b'e' ∷ b'l' ∷ 10 ∷ []
message fpu_fp_ex =
    b'F' ∷ b'P' ∷ b'U' ∷ b' ' ∷ b'F' ∷ b'l' ∷ b'o' ∷ b'a' ∷ b't' ∷ b'i' ∷ b'n' ∷ b'g' ∷ b'-' ∷ b'P'
    ∷ b'o' ∷ b'i' ∷ b'n' ∷ b't' ∷ b' ' ∷ b'E' ∷ b'r' ∷ b'r' ∷ b'o' ∷ b'r' ∷ b' ' ∷ b'(' ∷ b'#'
    ∷ b'M' ∷ b'F' ∷ b')' ∷ 10 ∷ []
message align_check_ex =
    b'A' ∷ b'l' ∷ b'i' ∷ b'g' ∷ b'n' ∷ b'm' ∷ b'e' ∷ b'n' ∷ b't' ∷ b' ' ∷ b'C' ∷ b'h' ∷ b'e' ∷ b'c'
    ∷ b'k' ∷ b' ' ∷ b'E' ∷ b'x' ∷ b'c' ∷ b'e' ∷ b'p' ∷ b't' ∷ b'i' ∷ b'o' ∷ b'n' ∷ b' ' ∷ b'('
    ∷ b'#' ∷ b'A' ∷ b'C' ∷ b')' ∷ 10 ∷ []
message machine_check_ex =
    b'M' ∷ b'a' ∷ b'c' ∷ b'h' ∷ b'i' ∷ b'n' ∷ b'e' ∷ b'-' ∷ b'C' ∷ b'h' ∷ b'e' ∷ b'c' ∷ b'k' ∷ b' '
    ∷ b'E' ∷ b'x' ∷ b'c' ∷ b'e' ∷ b'p' ∷ b't' ∷ b'i' ∷ b'o' ∷ b'n' ∷ b' ' ∷ b'(' ∷ b'#' ∷ b'M'
    ∷ b'C' ∷ b')' ∷ 10 ∷ []
message simd_fp_ex =
    b'S' ∷ b'I' ∷ b'M' ∷ b'D' ∷ b' ' ∷ b'F' ∷ b'l' ∷ b'o' ∷ b'a' ∷ b't' ∷ b'i' ∷ b'n' ∷ b'g' ∷ b'-'
    ∷ b'P' ∷ b'o' ∷ b'i' ∷ b'n' ∷ b't' ∷ b' ' ∷ b'E' ∷ b'x' ∷ b'c' ∷ b'e' ∷ b'p' ∷ b't' ∷ b'i'
    ∷ b'o' ∷ b'n' ∷ b' ' ∷ b'(' ∷ b'#' ∷ b'X' ∷ b'F' ∷ b')' ∷ 10 ∷ []
message undefined_handler =
    b'G' ∷ b'e' ∷ b'n' ∷ b'e' ∷ b'r' ∷ b'a' ∷ b'l' ∷ b' ' ∷ b'h' ∷ b'a' ∷ b'n' ∷ b'd' ∷ b'l' ∷ b'e'
    ∷ b'r' ∷ b' ' ∷ b'i' ∷ b'm' ∷ b'p' ∷ b'l' ∷ b'e' ∷ b'm' ∷ b'e' ∷ b'n' ∷ b't' ∷ b'e' ∷ b'd' ∷ 10
    ∷ []
message rtc_handler_link = []
message keyboard_handler_link = []
message pit_handler_link = []
message sys_call_handler_link = []

-- A string constant.
pub chars : List ℕ → Bytes
chars [] i = 0
chars (x ∷ xs) zero = x
chars (x ∷ xs) (suc i) = chars xs i

abbrev pub user_prog_code : ℕ
user_prog_code = 255

-- A handler's run up to its `halt`, with the status that it passes on.
pub exception_handler : ℕ → Bytes → Bytes → (ℕ → ℕ) → Handler → Console → Option (Console × ℕ)
unfolding message chars
exception_handler fuel m junk args h c = elim (printf fuel m junk (chars (message h)) args c) [
  | none ↦ none
  | some (c', n) ↦ some (c', user_prog_code)
]

-- No character of a message is a zero byte or `%`.
plain_text : List ℕ → Bool
plain_text [] = true
plain_text (x ∷ xs) =
    let rest = plain_text xs in if x == 0 then false else if x == b'%' then false else rest

size : List ℕ → ℕ
size [] = 0
size (x ∷ xs) = suc (size xs)

chars-plain :
    (xs : List ℕ) (i : ℕ)
    → plain_text xs ≡ true
    → i < size xs
    → (chars xs i ≢ 0) × (chars xs i ≢ b'%')
unfolding plain_text chars size
chars-plain [] i e lt = absurd (omega arith)
chars-plain (x ∷ xs) zero e lt = (ground arith, ground arith)
chars-plain (x ∷ xs) (suc i) e lt = chars-plain xs i (ground arith) (omega arith)

chars-end : (xs : List ℕ) → chars xs (size xs) ≡ 0
unfolding chars size
chars-end [] = refl
chars-end (x ∷ xs) = chars-end xs

message-plain : (h : Handler) → (plain_text (message h) && leb (size (message h)) 60) ≡ true
unfolding message plain_text size
message-plain divide_error_ex = refl
message-plain debug_ex = refl
message-plain nmi_interrupt_ex = refl
message-plain breakpoint_ex = refl
message-plain overflow_ex = refl
message-plain bound_range_ex = refl
message-plain invalid_opcode_ex = refl
message-plain device_not_avail_ex = refl
message-plain double_fault_ex = refl
message-plain coprocess_seg_ex = refl
message-plain invalid_tss_ex = refl
message-plain seg_not_pres_ex = refl
message-plain stack_fault_ex = refl
message-plain gen_prot_ex = refl
message-plain page_fault_ex = refl
message-plain reserved = refl
message-plain fpu_fp_ex = refl
message-plain align_check_ex = refl
message-plain machine_check_ex = refl
message-plain simd_fp_ex = refl
message-plain undefined_handler = refl
message-plain rtc_handler_link = refl
message-plain keyboard_handler_link = refl
message-plain pit_handler_link = refl
message-plain sys_call_handler_link = refl

-- Every exception's handler, with the cursor on the screen, gets to its `halt`, with the status 255:
-- its message has no conversion that reads the stack. It writes no memory but the screen's.
pub exception_handler-Touched :
    (fuel : ℕ) (m junk : Bytes) (args : ℕ → ℕ) (h : Handler) (c : Console)
    → InScreen c
    → 60 < fuel
    → (c' : Console) × (exception_handler fuel m junk args h c ≡ some (c', 255)) × Touched 79 c c'
unfolding exception_handler
exception_handler-Touched fuel m junk args h c s lt =
    let plain : plain_text (message h) ≡ true = ground (arith, message-plain h) in
    let small : size (message h) ≤ 60 = ground (arith, message-plain h) in
    let text : IsString (chars (message h)) (size (message h)) = record {
      chars = λ i b. (chars-plain (message h) i plain b).0;
      stop = chars-end (message h);
    } in
    let (run, put, touched) =
      printf-puts fuel (size (message h)) m junk (chars (message h)) args c s text
        (λ i b. (chars-plain (message h) i plain b).1) (omega arith) in
    (put_bytes (size (message h)) c (chars (message h)) 0, rw (run, exception_handler), touched)

-- It keeps the processes of all terminals.
pub exception_handler-SameProcesses :
    (fuel : ℕ) (m junk : Bytes) (args : ℕ → ℕ) (h : Handler) (c c' : Console) (status : ℕ)
    → exception_handler fuel m junk args h c ≡ some (c', status)
    → SameProcesses c c'
unfolding exception_handler
exception_handler-SameProcesses fuel m junk args h c c' status e =
    elim (Option-cases (printf fuel m junk (chars (message h)) args c)) [
      | inl never ↦ absurd (ground (arith, rw (never, exception_handler) at e))
      | inr ((d, n), is) ↦
          let same : SameProcesses c d = kept_same (
            subst (λ (r : Option (Console × ℕ)). SameWith c r) is
              (printf-Same fuel m junk (chars (message h)) args c)) in
          subst (λ (x : Console). SameProcesses c x) (first (rw (is, exception_handler) at e)) same
    ]
  where
    kept_same : {d : Console} {n : ℕ} → SameWith c (some (d, n)) → SameProcesses c d
    kept_same (kept_with h) = h

    first :
        {d : Console} {n : ℕ}
        → ◌≡◌ {A = Option (Console × ℕ)} (some (d, n)) (some (c', status))
        → d ≡ c'
    first e = cc
