-- ===== src/Base/Text.antt =====
-- The parts of `strconv` and of `unicode` that the program uses, and the bytes of a text.
use Prim.Native.Nat.{ℕ, zero, suc, ◌+◌, ◌-◌, ◌*◌, ◌/◌, ◌%◌, ◌^◌, ◌<◌}
use Prim.Native.Char.{Char, code}
use Prim.Native.String.{String, ◌++◌ as ◌<>◌}
use mathlib.Core.Path.{◌≡◌, refl, ap, ◌∙◌}
use mathlib.Core.Bool.{Bool, true, false, not, ◌&&◌, ◌||◌}
use mathlib.Core.Option.{Option, none, some}
use mathlib.Core.List.{List, [], ◌∷◌}
use native.Mathlib.Omega.{arith}
use text.Mathlib.TextLemmas.{nil-append, cons-append}
use omnicore_proxy.Base.Tests.{ltb, leb, ◌==◌, if◌then◌else◌}
use omnicore_proxy.Base.Int.{ℤ, pos, negsuc}
use omnicore_proxy.Base.Hex.{digit}

-- The decimal digits of a number in front of a text, on fuel above the number.
itoa_onto : ℕ → ℕ → String → String
unfolding digit
itoa_onto zero n acc = acc
itoa_onto (suc fuel) n acc =
    let here = String.◌∷◌ (digit (n % 10)) acc in
    let rest = itoa_onto fuel (n / 10) here in if ltb n 10 then here else rest

-- `strconv.Itoa` of a number that is not negative.
unfoldable pub itoa : ℕ → String
unfolding itoa_onto
itoa n = itoa_onto (suc n) n String.[]

-- `fmt` prints a signed number with a leading minus sign.
unfoldable pub itoa_ℤ : ℤ → String
unfolding itoa
itoa_ℤ (pos n) = itoa n
itoa_ℤ (negsuc n) = "-" <> itoa (suc n)

-- The number that a run of decimal digits denotes behind a number that was read before it.
digits_from : ℕ → String → Option ℕ
digits_from acc String.[] = some acc
digits_from acc (String.◌∷◌ c s) =
    let d = code c in
    let rest = digits_from (acc * 10 + (d - 48)) s in if leb 48 d && leb d 57 then rest else none

atoi_of : Option ℕ → ℕ
atoi_of none = 0
atoi_of (some n) = if ltb n (2 ^ 63) then n else 2 ^ 63 - 1

-- `strconv.Atoi` of a text with no sign, the error dropped as its caller does: 0 for a text that
-- is no number, and the largest int for a number out of range.
unfoldable pub atoi : String → ℕ
unfolding digits_from atoi_of
atoi s = atoi_of (digits_from 0 s)

code-digit : (n : ℕ) → n < 10 → code (digit n) ≡ 48 + n
unfolding digit
code-digit zero h = refl
code-digit (suc zero) h = refl
code-digit (suc (suc zero)) h = refl
code-digit (suc (suc (suc zero))) h = refl
code-digit (suc (suc (suc (suc zero)))) h = refl
code-digit (suc (suc (suc (suc (suc zero))))) h = refl
code-digit (suc (suc (suc (suc (suc (suc zero)))))) h = refl
code-digit (suc (suc (suc (suc (suc (suc (suc zero))))))) h = refl
code-digit (suc (suc (suc (suc (suc (suc (suc (suc zero)))))))) h = refl
code-digit (suc (suc (suc (suc (suc (suc (suc (suc (suc zero))))))))) h = refl
code-digit (suc (suc (suc (suc (suc (suc (suc (suc (suc (suc n)))))))))) h = absurd (omega arith)

digits_from-digit :
    (acc n : ℕ) (s : String)
    → n < 10
    → digits_from acc (String.◌∷◌ (digit n) s) ≡ digits_from (acc * 10 + n) s
unfolding digits_from
digits_from-digit acc n s h = ground (arith, code-digit n h)

digits_from-nil : (n : ℕ) → digits_from n String.[] ≡ some n
unfolding digits_from
digits_from-nil n = refl

digits_from-itoa_onto :
    (fuel n : ℕ) (acc : String)
    → n < fuel
    → digits_from 0 (itoa_onto fuel n acc) ≡ digits_from n acc
unfolding itoa_onto
digits_from-itoa_onto zero n acc h = absurd (omega arith)
digits_from-itoa_onto (suc fuel) n acc h = ground (
  arith,
  digits_from-digit 0 (n % 10) acc,
  digits_from-digit (n / 10) (n % 10) acc,
  digits_from-itoa_onto fuel (n / 10) (String.◌∷◌ (digit (n % 10)) acc),
)

digits_from-itoa : (n : ℕ) → digits_from 0 (itoa n) ≡ some n
unfolding itoa
digits_from-itoa n = digits_from-itoa_onto (suc n) n String.[] (omega arith) ∙ digits_from-nil n

-- What `Itoa` prints `Atoi` reads back.
pub atoi-itoa : (n : ℕ) → n < 2 ^ 63 → atoi (itoa n) ≡ n
unfolding atoi
atoi-itoa n h = rw (digits_from-itoa n) (ground arith)

-- `[]byte(s)` of an ASCII text.
unfoldable pub bytes_of : String → List ℕ
bytes_of String.[] = []
bytes_of (String.◌∷◌ c s) = code c ∷ bytes_of s

-- `unicode.IsSpace`
unfoldable pub is_space : Char → Bool
is_space c =
    let n = code c in
    (leb 9 n && leb n 13)
    || n == 32
    || n == 133
    || n == 160
    || n == 5760
    || (leb 8192 n && leb n 8202)
    || n == 8232
    || n == 8233
    || n == 8239
    || n == 8287
    || n == 12288

-- A text without a space in it.
unfoldable pub is_word : String → Bool
is_word String.[] = true
is_word (String.◌∷◌ c s) = not (is_space c) && is_word s

is_space-digit : (n : ℕ) → n < 10 → is_space (digit n) ≡ false
unfolding is_space
is_space-digit n h = ground (arith, code-digit n h)

is_word-itoa_onto :
    (fuel n : ℕ) (acc : String) → is_word acc ≡ true → is_word (itoa_onto fuel n acc) ≡ true
unfolding itoa_onto is_word
is_word-itoa_onto zero n acc h = h
is_word-itoa_onto (suc fuel) n acc h = ground (
  arith,
  is_space-digit (n % 10),
  is_word-itoa_onto fuel (n / 10) (String.◌∷◌ (digit (n % 10)) acc),
)

-- A number is printed without a space.
pub itoa_ℤ-is_word : (a : ℤ) → is_word (itoa_ℤ a) ≡ true
unfolding itoa_ℤ itoa is_word is_space
itoa_ℤ-is_word (pos n) = is_word-itoa_onto (suc n) n String.[] refl
itoa_ℤ-is_word (negsuc n) =
    let digits = itoa (suc n) in
    rw (cons-append "-" String.[] digits ∙ ap (String.◌∷◌ "-") (nil-append digits))
      (is_word-itoa_onto (suc (suc n)) (suc n) String.[] refl)
