-- ===== src/Base/Store.antt =====
-- Arrays and regions of memory: what stands at each index. `s i` is `s[i]`, and the pointer
-- `s + k` is `shift s k`.
use Prim.Native.Nat.{ℕ, ◌+◌}
use mathlib.Core.Path.{◌≡◌}
use mathlib.Core.Logic.{◌≢◌}
use native.Mathlib.Omega.{arith}
use ece391_linux_os.Base.Tests.{◌==◌, if◌then◌else◌}

abbrev pub Bytes : Type 0
Bytes = ℕ → ℕ

abbrev pub shift : Bytes → ℕ → Bytes
shift s k i = s (k + i)

-- `a[k] = v`
abbrev pub update {ℓ} : {A : Type ℓ} (array : ℕ → A) (k : ℕ) (v : A) → ℕ → A
update array k v i = if i == k then v else array i

module _ {ℓ} {A : Type ℓ} where
  pub update_self : (f : ℕ → A) (k : ℕ) (v : A) → update f k v k ≡ v
  update_self f k v = ground arith

  pub update_ne : (f : ℕ → A) (k : ℕ) (v : A) (i : ℕ) → i ≢ k → update f k v i ≡ f i
  update_ne f k v i h = ground arith
