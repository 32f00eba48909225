-- ===== src/Scheduler/Round.antt =====
-- A call of student-distrib/scheduler.c from each of three terminals.
use ece391_linux_os.Base.{
  ℕ, zero, suc, ◌+◌, ◌%◌, ◌<◌, ◌≡◌, ◌≢◌, refl, ◌∙◌, sym, ap, arith, false, some, ◌==◌,
  if◌then◌else◌, ℤ, pos, to_nat,
}
use ece391_linux_os.Process.{Pcb, get_pcb, kernel_stack}
use ece391_linux_os.Console.{Console, terminal_count}
use ece391_linux_os.Paging.{map_program}
use ece391_linux_os.Programs.{System, Scratch}
use ece391_linux_os.Scheduler.{Scheduled, executed, skipped, switched, switch_process, schedule}

-- The block of the process that terminal `i` runs.
abbrev pub block_at : System → ℕ → ℕ
block_at s i = get_pcb (s.kernel.console.t i).running_process

schedule-switch_process :
    (i : ℕ) (scratch : Scratch) (esp ebp : ℕ) (s : System) (a : ℕ)
    → (s.kernel.console.t a).shell_flag ≡ pos 0
    → (s.kernel.console.t ((a + 1) % terminal_count)).shell_flag ≡ pos 0
    → i ≢ terminal_count
    → schedule i scratch esp ebp s a ≡ some (switch_process esp ebp s a ((a + 1) % terminal_count))
unfolding schedule
schedule-switch_process i scratch esp ebp s a here next ne =
    let stays : (i == terminal_count) ≡ false = ground arith in
    rw (here, next, stays, schedule) refl

-- The state that a switch leaves.
abbrev pub after : System → Scheduled → System
after s (executed o) = s
after s (skipped t_cur s') = s'
after s (switched esp ebp s') = s'

three : (P : ℕ → Type 0) → P 0 → P 1 → P 2 → (i : ℕ) → i < terminal_count → P i
three P p q r zero lt = p
three P p q r (suc zero) lt = q
three P p q r (suc (suc zero)) lt = r
three P p q r (suc (suc (suc i))) lt = absurd (omega arith)

-- A switch keeps the terminals' records and the links of the blocks, and saves the registers.
after_lem :
    (esp ebp : ℕ) (s0 s : System) (a b x : ℕ)
    → let s' = after s0 (switch_process esp ebp s a b) in
      (s'.kernel.console ≡ s.kernel.console)
      × ((s'.kernel.pcb x).pid ≡ (s.kernel.pcb x).pid)
      × ((s'.kernel.pcb x).cur_esp ≡ (if x == block_at s a then esp else (s.kernel.pcb x).cur_esp))
      × ((s'.kernel.pcb x).cur_ebp ≡ (if x == block_at s a then ebp else (s.kernel.pcb x).cur_ebp))
unfolding switch_process
after_lem esp ebp s0 s a b x = (refl, ground arith, ground arith, ground arith)

-- It goes on at the registers of the other terminal's process.
switch_process-resumes :
    (esp ebp : ℕ) (s : System) (a b : ℕ)
    → block_at s b ≢ block_at s a
    → let next = s.kernel.pcb (block_at s b) in
      (s' : System) × (switch_process esp ebp s a b ≡ switched next.cur_esp next.cur_ebp s')
      × (s'.kernel.tss_esp0 ≡ kernel_stack next.pid)
      × (s'.kernel.paging ≡ map_program (to_nat next.pid) s.kernel.paging)
unfolding switch_process
switch_process-resumes esp ebp s a b ne =
    let other : (block_at s b == block_at s a) ≡ false = ground arith in
    (after s (switch_process esp ebp s a b), rw other refl, rw other refl, rw other refl)

-- Where three terminals all have a shell, and the process of the first has a block of its own, a call
-- of `schedule` from each of them in turn goes back to the first one, at the registers that its
-- call had, with the process's page and kernel stack in use. The second and third call find `t_cur`
-- at the terminal that the call before has gone to, which the source does not see to. The local
-- variable that is not initialised must not hold 3 in any of the calls.
pub schedule-round :
    (i j k : ℕ) (scratch : Scratch) (esp ebp esp' ebp' esp'' ebp'' : ℕ) (s : System) (a : ℕ)
    → a < terminal_count
    → (s.kernel.console.t 0).shell_flag ≡ pos 0
    → (s.kernel.console.t 1).shell_flag ≡ pos 0
    → (s.kernel.console.t 2).shell_flag ≡ pos 0
    → (s.kernel.pcb (block_at s a)).pid ≡ (s.kernel.console.t a).running_process
    → block_at s a ≢ block_at s ((a + 1) % 3)
    → block_at s a ≢ block_at s ((a + 2) % 3)
    → i ≢ 3
    → j ≢ 3
    → k ≢ 3
    → let b = (a + 1) % 3 in
      let c = (a + 2) % 3 in
      let one = switch_process esp ebp s a b in
      let two = switch_process esp' ebp' (after s one) b c in
      let front = (s.kernel.console.t a).running_process in
      (schedule i scratch esp ebp s a ≡ some one)
      × (schedule j scratch esp' ebp' (after s one) b ≡ some two)
      × (s' : System) × (schedule k scratch esp'' ebp'' (after s two) c
          ≡ some (switched esp ebp s'))
      × (s'.kernel.tss_esp0 ≡ kernel_stack front)
      × (s'.kernel.paging ≡ map_program (to_nat front) (after s two).kernel.paging)
schedule-round i j k scratch esp ebp esp' ebp' esp'' ebp'' s a lt f0 f1 f2 own nb nc ni nj nk =
    let flag : (i : ℕ) → i < terminal_count → (s.kernel.console.t i).shell_flag ≡ pos 0 =
      three (λ i. (s.kernel.console.t i).shell_flag ≡ pos 0) f0 f1 f2 in
    let b : ℕ = (a + 1) % 3 in
    let c : ℕ = (a + 2) % 3 in
    let s1 : System = after s (switch_process esp ebp s a b) in
    let s2 : System = after s (switch_process esp' ebp' s1 b c) in
    let (c1, pid1, esp1, ebp1) = after_lem esp ebp s s a b (block_at s a) in
    let (c2, pid2, esp2, ebp2) = after_lem esp' ebp' s s1 b c (block_at s a) in
    let same1 : (i : ℕ) → block_at s1 i ≡ block_at s i =
      λ i. ap (λ (x : Console). get_pcb (x.t i).running_process) c1 in
    let same2 : (i : ℕ) → block_at s2 i ≡ block_at s i =
      λ i. ap (λ (x : Console). get_pcb (x.t i).running_process) (c2 ∙ c1) in
    let own_block : block_at s a ≢ block_at s1 b = λ e. nb (e ∙ same1 b) in
    let not_c : block_at s2 a ≢ block_at s2 c = λ e. nc (sym (same2 a) ∙ e ∙ same2 c) in
    let (s', run, stack, pages) = switch_process-resumes esp'' ebp'' s2 c a not_c in
    let next : Pcb = s2.kernel.pcb (block_at s2 a) in
    let saved_esp : next.cur_esp ≡ esp =
      ap (λ (x : ℕ). (s2.kernel.pcb x).cur_esp) (same2 a)
      ∙ esp2
      ∙ ground (arith, own_block)
      ∙ esp1
      ∙ ground arith in
    let saved_ebp : next.cur_ebp ≡ ebp =
      ap (λ (x : ℕ). (s2.kernel.pcb x).cur_ebp) (same2 a)
      ∙ ebp2
      ∙ ground (arith, own_block)
      ∙ ebp1
      ∙ ground arith in
    let owner : next.pid ≡ (s.kernel.console.t a).running_process =
      ap (λ (x : ℕ). (s2.kernel.pcb x).pid) (same2 a) ∙ pid2 ∙ pid1 ∙ own in
    let flag1 : (i : ℕ) → i < terminal_count → (s1.kernel.console.t i).shell_flag ≡ pos 0 =
      λ i h. ap (λ (x : Console). (x.t i).shell_flag) c1 ∙ flag i h in
    let flag2 : (i : ℕ) → i < terminal_count → (s2.kernel.console.t i).shell_flag ≡ pos 0 =
      λ i h. ap (λ (x : Console). (x.t i).shell_flag) (c2 ∙ c1) ∙ flag i h in
    let b_next : (b + 1) % terminal_count ≡ c = omega arith in
    let c_next : (c + 1) % terminal_count ≡ a = omega arith in
    (
      schedule-switch_process i scratch esp ebp s a (flag a lt) (flag b (omega arith)) ni,
      schedule-switch_process j scratch esp' ebp' s1 b (flag1 b (omega arith))
            (flag1 ((b + 1) % terminal_count) (omega arith)) nj
          ∙ ap (λ (x : ℕ). some (switch_process esp' ebp' s1 b x)) b_next,
      s',
      schedule-switch_process k scratch esp'' ebp'' s2 c (flag2 c (omega arith))
            (flag2 ((c + 1) % terminal_count) (omega arith)) nk
          ∙ ap (λ (x : ℕ). some (switch_process esp'' ebp'' s2 c x)) c_next
          ∙ ap (λ (x : Scheduled). some x)
              (run
                ∙ ap (λ (x : ℕ). switched x next.cur_ebp s') saved_esp
                ∙ ap (λ (x : ℕ). switched esp x s') saved_ebp),
      stack ∙ ap kernel_stack owner,
      pages ∙ ap (λ (x : ℤ). map_program (to_nat x) s2.kernel.paging) owner,
    )
