-- ===== src/Base/Hex.antt =====
-- The parts of `encoding/hex` that the program uses.
use Prim.Native.Nat.{ℕ, zero, suc, ◌+◌, ◌-◌, ◌*◌, ◌/◌, ◌%◌, ◌<◌, ◌≤◌}
use Prim.Native.Char.{Char, code}
use Prim.Native.String.{String}
use mathlib.Core.Path.{◌≡◌, refl}
use mathlib.Core.Bool.{Bool, true, false, ◌&&◌}
use mathlib.Core.Option.{Option, none, some}
use mathlib.Core.List.{List, [], ◌∷◌}
use native.Mathlib.Omega.{arith}
use omnicore_proxy.Base.Tests.{leb, ◌==◌, if◌then◌else◌}

-- The character of a hexadecimal digit below 16, in lower case.
unfoldable pub digit : ℕ → Char
digit n =
    if n == 0
    then "0"
    else if n == 1
    then "1"
    else if n == 2
    then "2"
    else if n == 3
    then "3"
    else if n == 4
    then "4"
    else if n == 5
    then "5"
    else if n == 6
    then "6"
    else if n == 7
    then "7"
    else if n == 8
    then "8"
    else if n == 9
    then "9"
    else if n == 10
    then "a"
    else if n == 11
    then "b"
    else if n == 12
    then "c"
    else if n == 13
    then "d"
    else if n == 14
    then "e"
    else "f"

-- `hex.EncodeToString` of the bytes.
unfoldable pub hex_encode : List ℕ → String
unfolding digit
hex_encode [] = String.[]
hex_encode (b ∷ bs) = String.◌∷◌ (digit (b / 16)) (String.◌∷◌ (digit (b % 16)) (hex_encode bs))

-- The value of a hexadecimal digit in either case.
hex_value : Char → Option ℕ
hex_value c =
    let n = code c in
    if leb 48 n && leb n 57
    then some (n - 48)
    else if leb 97 n && leb n 102
    then some (n - 87)
    else if leb 65 n && leb n 70
    then some (n - 55)
    else none

-- `hex.DecodeString`: the bytes in front of the first error, and whether there was none.
unfoldable pub hex_decode : String → List ℕ × Bool
unfolding hex_value
hex_decode String.[] = ([], true)
hex_decode (String.◌∷◌ c String.[]) = ([], false)
hex_decode (String.◌∷◌ c (String.◌∷◌ d s)) =
    let (bs, good) = hex_decode s in
    elim (hex_value c) [
      | none ↦ ([], false)
      | some a ↦ elim (hex_value d) [ none ↦ ([], false) | some b ↦ ((a * 16 + b) ∷ bs, good) ]
    ]

hex_value-digit : (n : ℕ) → n < 16 → hex_value (digit n) ≡ some n
unfolding digit hex_value
hex_value-digit zero h = refl
hex_value-digit (suc zero) h = refl
hex_value-digit (suc (suc zero)) h = refl
hex_value-digit (suc (suc (suc zero))) h = refl
hex_value-digit (suc (suc (suc (suc zero)))) h = refl
hex_value-digit (suc (suc (suc (suc (suc zero))))) h = refl
hex_value-digit (suc (suc (suc (suc (suc (suc zero)))))) h = refl
hex_value-digit (suc (suc (suc (suc (suc (suc (suc zero))))))) h = refl
hex_value-digit (suc (suc (suc (suc (suc (suc (suc (suc zero)))))))) h = refl
hex_value-digit (suc (suc (suc (suc (suc (suc (suc (suc (suc zero))))))))) h = refl
hex_value-digit (suc (suc (suc (suc (suc (suc (suc (suc (suc (suc zero)))))))))) h = refl
hex_value-digit (suc (suc (suc (suc (suc (suc (suc (suc (suc (suc (suc zero))))))))))) h = refl
hex_value-digit (suc (suc (suc (suc (suc (suc (suc (suc (suc (suc (suc (suc zero)))))))))))) h =
    refl
hex_value-digit (suc (suc (suc (suc (suc (suc (suc (suc (suc (suc (suc (suc (suc zero)))))))))))))
      h =
    refl
hex_value-digit
      (suc (suc (suc (suc (suc (suc (suc (suc (suc (suc (suc (suc (suc (suc zero)))))))))))))) h =
    refl
hex_value-digit
      (suc (suc (suc (suc (suc (suc (suc (suc (suc (suc (suc (suc (suc (suc (suc zero)))))))))))))))
      h =
    refl
hex_value-digit
      (suc (
        suc
          (suc (suc (suc (suc (suc (suc (suc (suc (suc (suc (suc (suc (suc (suc (n)))))))))))))))))
      h =
    absurd (omega arith)

-- Bytes, each below 256.
abbrev pub AreBytes : List ℕ → Type 0
AreBytes [] = Unit
AreBytes (b ∷ bs) = (b < 256) × AreBytes bs

-- What `EncodeToString` writes `DecodeString` reads back.
pub hex_decode-hex_encode : (bs : List ℕ) → AreBytes bs → hex_decode (hex_encode bs) ≡ (bs, true)
unfolding hex_decode hex_encode
hex_decode-hex_encode [] h = refl
hex_decode-hex_encode (b ∷ bs) (h, hs) =
    ground (arith, hex_value-digit (b / 16), hex_value-digit (b % 16), hex_decode-hex_encode bs hs)

hex_value-range : (c : Char) (n : ℕ) → hex_value c ≡ some n → (48 ≤ code c) × (code c ≤ 102)
unfolding hex_value
hex_value-range c n h = ground arith

-- The text of some bytes begins with a hexadecimal digit.
pub hex_encode-first :
    (b : ℕ) (bs : List ℕ)
    → b < 256
    → (c : Char) × (s : String) × (hex_encode (b ∷ bs) ≡ String.◌∷◌ c s)
      × (48 ≤ code c)
      × (code c ≤ 102)
unfolding hex_encode
hex_encode-first b bs h =
    let (low, high) =
      hex_value-range (digit (b / 16)) (b / 16) (hex_value-digit (b / 16) (omega arith)) in
    (digit (b / 16), String.◌∷◌ (digit (b % 16)) (hex_encode bs), refl, low, high)
