-- ===== src/Programs/Closing.antt =====
-- The loop of `halt` of student-distrib/system_calls.c that closes the descriptors.
use ece391_linux_os.Base.{
  ℕ, zero, suc, ◌+◌, ◌<◌, ◌≤◌, ◌≡◌, ◌⊎◌, inl, inr, refl, ◌∙◌, ap, arith, pos,
}
use native.Mathlib.Decide.{ℕ_discrete}
use ece391_linux_os.Process.{fd_start, fd_max}
use ece391_linux_os.Syscalls.{Kernel, fd_table, close}
use ece391_linux_os.Programs.{close_all}

-- Only descriptor tables have changed.
pub record SameFiles (k k' : Kernel) : Type 0 where
  pub console_is : k'.console ≡ k.console
  pub paging_is : k'.paging ≡ k.paging
  pub files_are : k'.fs ≡ k.fs
  pub blocks :
      (a : ℕ)
      → ((k'.pcb a).pid ≡ (k.pcb a).pid)
        × ((k'.pcb a).parent_pid ≡ (k.pcb a).parent_pid)
        × ((k'.pcb a).esp0 ≡ (k.pcb a).esp0)
        × ((k'.pcb a).esp ≡ (k.pcb a).esp)
        × ((k'.pcb a).ebp ≡ (k.pcb a).ebp)

close-SameFiles : (k : Kernel) (i : ℕ) → SameFiles k (close k (pos i)).1
unfolding close
close-SameFiles k i = record {
  console_is = ground arith;
  paging_is = ground arith;
  files_are = ground arith;
  blocks = λ a. ground arith;
}

pub close_all-SameFiles : (rounds : ℕ) (k : Kernel) (i : ℕ) → SameFiles k (close_all rounds k i)
unfolding close_all
close_all-SameFiles zero k i = record {
  console_is = refl;
  paging_is = refl;
  files_are = refl;
  blocks = λ a. (refl, refl, refl, refl, refl);
}
close_all-SameFiles (suc rounds) k i =
    let one = close-SameFiles k i in
    let more = close_all-SameFiles rounds (close k (pos i)).1 (i + 1) in
    record {
      console_is = more.console_is ∙ one.console_is;
      paging_is = more.paging_is ∙ one.paging_is;
      files_are = more.files_are ∙ one.files_are;
      blocks = λ a.
          let (pid, parent, esp0, esp, ebp) = one.blocks a in
          let (pid', parent', esp0', esp', ebp') = more.blocks a in
          (pid' ∙ pid, parent' ∙ parent, esp0' ∙ esp0, esp' ∙ esp, ebp' ∙ ebp);
    }

-- After the loop no descriptor from 2 on is open.
close-flags :
    (k : Kernel) (i j : ℕ)
    → fd_start ≤ i
    → i < fd_max
    → ((fd_table (close k (pos i)).1 i).flags ≡ 0)
      × ((fd_table k j).flags ≡ 0 → (fd_table (close k (pos i)).1 j).flags ≡ 0)
unfolding close
close-flags k i j lo hi = (ground arith, λ e. ground arith)

pub close_all-flags :
    (rounds : ℕ) (k : Kernel) (i j : ℕ)
    → fd_start ≤ i
    → i + rounds ≤ fd_max
    → ((fd_table k j).flags ≡ 0) ⊎ ((i ≤ j) × (j < i + rounds))
    → (fd_table (close_all rounds k i) j).flags ≡ 0
unfolding close_all
close_all-flags zero k i j lo hi (inl closed) = closed
close_all-flags zero k i j lo hi (inr (le, lt)) = absurd (omega arith)
close_all-flags (suc rounds) k i j lo hi (inl closed) =
    close_all-flags rounds (close k (pos i)).1 (i + 1) j (omega arith) (omega arith)
      (inl ((close-flags k i j lo (omega arith)).1 closed))
close_all-flags (suc rounds) k i j lo hi (inr (le, lt)) = elim (ℕ_discrete j i) [
  | yes e ↦ close_all-flags rounds (close k (pos i)).1 (i + 1) j (omega arith) (omega arith) (
      inl (
        ap (λ (n : ℕ). (fd_table (close k (pos i)).1 n).flags) e
        ∙ (close-flags k i j lo (omega arith)).0))
  | no ne ↦
      close_all-flags rounds (close k (pos i)).1 (i + 1) j (omega arith) (omega arith)
        (inr (omega arith, omega arith))
]
