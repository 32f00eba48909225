-- ===== src/CLib/Examples.antt =====
-- The theorems on the library at small buffers.
use ece391_linux_os.Base.{ℕ, ◌<◌, ◌≤◌, ◌≡◌, refl, arith, some, Bytes, update}
use ece391_linux_os.CLib.Mem.{memcpy}
use ece391_linux_os.CLib.Mem.Laws.{copied, memcpy-copied}
use ece391_linux_os.CLib.Itoa.{itoa}
use ece391_linux_os.CLib.Itoa.Laws.{numeral_value, itoa-numeral_value}
use ece391_linux_os.CLib.Str.Laws.{IsString}

abbrev zeros : Bytes
zeros i = 0

-- "ab"
abbrev text : Bytes
text = update (update zeros 0 b'a') 1 b'b'

text-IsString : IsString text 2
text-IsString = record { chars = λ i lt. ground arith; stop = refl }

memcpy-copied_example : memcpy 7 zeros 103 text 0 104 ≡ copied 7 zeros 103 text 0 104
memcpy-copied_example = memcpy-copied 7 zeros 103 text 0 104

itoa-numeral_value_example :
    (r : Bytes) × (n : ℕ) × (itoa 33 48879 zeros 16 ≡ some r)
    × IsString r n
    × (0 < n)
    × (n ≤ 32)
    × (numeral_value 16 r n ≡ 48879)
itoa-numeral_value_example =
    itoa-numeral_value 33 32 48879 16 zeros (omega arith) (omega arith) (omega arith) (omega arith)
