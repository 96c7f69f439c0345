-- ===== src/Base/Effects.antt =====
-- A Go call that returns `(value, error)` and may change the state that it can reach. The state
-- comes back after an error too, since what was written stays written.
use Prim.Native.String.{String}
use mathlib.Core.Path.{◌≡◌, refl}
use mathlib.Core.Logic.{◌⊎◌, inl, inr}
use mathlib.Core.Option.{Option, none, some}
use mathlib.Core.Bool.{Bool, true, false}

-- An error is its text, `err.Error()`.
pub data Result {ℓ} (A : Type ℓ) : Type ℓ where
  ok : A → Result A
  err : String → Result A

pub Result-cases {ℓ} :
    {A : Type ℓ} (r : Result A) → ((a : A) × (r ≡ ok a)) ⊎ ((e : String) × (r ≡ err e))
Result-cases (ok a) = inl (a, refl)
Result-cases (err e) = inr (e, refl)

-- `if err != nil { return …, err }` on a call that changes nothing.
abbrev pub and_then {ℓ κ} : {A : Type ℓ} {B : Type κ} → Result A → (A → Result B) → Result B
and_then (ok a) f = f a
and_then (err e) f = err e

pub and_then-eq-ok {ℓ κ} :
    {A : Type ℓ} {B : Type κ} (m : Result A) (f : A → Result B) {b : B}
    → and_then m f ≡ ok b
    → (a : A) × (m ≡ ok a) × (f a ≡ ok b)
and_then-eq-ok (ok a) f h = (a, refl, h)
and_then-eq-ok (err e) f h = cc

-- `if … { return nil, errors.New(…) }`
abbrev pub unless {ℓ} : {A : Type ℓ} → Option String → Result A → Result A
unless none r = r
unless (some e) r = err e

pub unless-eq-ok {ℓ} :
    {A : Type ℓ} (o : Option String) (r : Result A) {a : A}
    → unless o r ≡ ok a
    → (o ≡ none) × (r ≡ ok a)
unless-eq-ok none r h = (refl, h)
unless-eq-ok (some e) r h = cc

-- The error under another text, as `fmt.Errorf("…: %v", err)` makes it.
abbrev pub map_err {ℓ} : {A : Type ℓ} → (String → String) → Result A → Result A
map_err f (ok a) = ok a
map_err f (err e) = err (f e)

abbrev pub is_ok {ℓ} : {A : Type ℓ} → Result A → Bool
is_ok (ok a) = true
is_ok (err e) = false

abbrev pub Action : Type 0 → Type 0 → Type 0
Action W A = W → Result A × W

abbrev pub pure : {W A : Type 0} → A → Action W A
pure a w = (ok a, w)

abbrev pub fail : {W A : Type 0} → String → Action W A
fail e w = (err e, w)

infixl 5 ◌>>=◌ ◌>>◌
abbrev pub ◌>>=◌ : {W A B : Type 0} → Action W A → (A → Action W B) → Action W B
◌>>=◌ m f w = let (r, w') = m w in elim r [ ok a ↦ f a w' | err e ↦ (err e, w') ]

abbrev pub ◌>>◌ : {W A B : Type 0} → Action W A → Action W B → Action W B
m >> k = m >>= λ _. k

-- `return …, err` when the test holds.
abbrev pub fail_if : {W : Type 0} → Bool → String → Action W (Unit {0})
fail_if true e w = (err e, w)
fail_if false e w = (ok tt, w)

-- The result of a read.
abbrev pub lift : {W A : Type 0} → (W → Result A) → Action W A
lift f w = (f w, w)

-- The error as a value, for a call whose error is tested and not returned.
abbrev pub attempt : {W A : Type 0} → Action W A → Action W (Result A)
attempt m w = let (r, w') = m w in (ok r, w')
