-- ===== src/User.antt =====
-- The programs of syscalls/, which run on the kernel. A program is a function of the system calls
-- that it makes, a `Calls`, and of the state that they change; `none` says that it does not end. An
-- array is what stands at each index; a call is given the array that it works on, the index in it
-- that the pointer is at, and gives the array back.
pub mod Support
pub mod Basic
pub mod Grep
pub mod Syserr
pub mod OnKernel
mod Examples
use ece391_linux_os.Base.{ℕ, Option, none, some, Bytes, ◌==◌, Bool, true, false, ℤ, pos, negsuc}

infixl 5 ◌>>=◌
abbrev pub ◌>>=◌ {ℓ κ} : {A : Type ℓ} {B : Type κ} → Option A → (A → Option B) → Option B
none >>= f = none
some a >>= f = f a

-- The calls of syscalls/ece391syscall.h that the programs make. `raw` is `int $0x80` with a number
-- in EAX, and `video` is `vidmap` with an address.
pub record Calls (S : Type 0) : Type 0 where
  pub execute : S → Bytes → Option (ℤ × S)
  pub read_to : S → ℤ → Bytes → ℕ → ℤ → Option (ℤ × S × Bytes)
  pub write_from : S → ℤ → Bytes → ℕ → ℤ → Option (ℤ × S)
  pub open_named : S → Bytes → Option (ℤ × S)
  pub close_fd : S → ℤ → Option (ℤ × S)
  pub arguments_to : S → Bytes → ℤ → Option (ℤ × Bytes)
  pub video : S → ℕ → Option (ℤ × S)
  pub raw : S → ℤ → Option (ℤ × S)

-- `==` of two `int32_t`
abbrev pub int_eq : ℤ → ℤ → Bool
int_eq (pos a) (pos b) = a == b
int_eq (pos a) (negsuc b) = false
int_eq (negsuc a) (pos b) = false
int_eq (negsuc a) (negsuc b) = a == b

abbrev pub not : Bool → Bool
not true = false
not false = true
