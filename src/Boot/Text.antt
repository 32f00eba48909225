-- ===== src/Boot/Text.antt =====
-- The texts that the kernel prints, as arrays of characters with a zero byte at the end.
use Prim.Native.String.{String}
use Prim.Native.Char.{code}
use ece391_linux_os.Base.{
  ℕ, zero, suc, ◌<◌, ◌≡◌, ◌≢◌, refl, arith, List, [], ◌∷◌, Bytes, Bool, true, ◌==◌, ◌||◌, false,
  if◌then◌else◌,
}
use ece391_linux_os.CLib.Str.Laws.{IsString}
use ece391_linux_os.Programs.Stacks.{length}

abbrev pub codes : String → List ℕ
codes String.[] = []
codes (String.◌∷◌ c s) = code c ∷ codes s

abbrev pub element : List ℕ → Bytes
element [] i = 0
element (x ∷ xs) zero = x
element (x ∷ xs) (suc i) = element xs i

abbrev pub text : String → Bytes
text s = element (codes s)

-- No character ends the text or starts a conversion.
abbrev pub plain : List ℕ → Bool
plain [] = true
plain (x ∷ xs) = if x == 0 || x == b'%' then false else plain xs

element-plain :
    (xs : List ℕ) (i : ℕ)
    → plain xs ≡ true
    → i < length xs
    → (element xs i ≢ 0) × (element xs i ≢ b'%')
unfolding length
element-plain [] i e lt = absurd (omega arith)
element-plain (x ∷ xs) zero e lt = (ground (arith, e), ground (arith, e))
element-plain (x ∷ xs) (suc i) e lt = element-plain xs i (ground (arith, e)) (omega arith)

element_end : (xs : List ℕ) → element xs (length xs) ≡ 0
unfolding length
element_end [] = refl
element_end (x ∷ xs) = element_end xs

-- A text without those is a string of its length.
pub text-IsString :
    (s : String)
    → plain (codes s) ≡ true
    → IsString (text s) (length (codes s)) × ((i : ℕ) → i < length (codes s) → text s i ≢ b'%')
text-IsString s e = (
  record { chars = λ i lt. (element-plain (codes s) i e lt).0; stop = element_end (codes s) },
  λ i lt. (element-plain (codes s) i e lt).1,
)
