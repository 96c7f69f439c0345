-- ===== src/Base/Lists.antt =====
-- Lists measured and searched over the native numbers.
use Prim.Native.Nat.{ℕ, suc}
use mathlib.Core.Path.{◌≡◌}
use mathlib.Core.Bool.{Bool, true}
use mathlib.Core.Option.{Option, none, some}
use mathlib.Core.List.{List, [], ◌∷◌, ◌++◌}
use native.Mathlib.Omega.{arith}
use omnicore_proxy.Base.Tests.{if◌then◌else◌}

module _ {ℓ} {A : Type ℓ} where
  abbrev pub length : List A → ℕ
  length [] = 0
  length (x ∷ xs) = suc (length xs)

  abbrev pub head? : List A → Option A
  head? [] = none
  head? (x ∷ xs) = some x

  -- The rows that a query selects, in the table's order.
  abbrev pub select : (A → Bool) → List A → List A
  select p [] = []
  select p (x ∷ xs) = if p x then x ∷ select p xs else select p xs

  -- The first row that a query selects.
  abbrev pub find_first : (A → Bool) → List A → Option A
  find_first p [] = none
  find_first p (x ∷ xs) = if p x then some x else find_first p xs

  abbrev pub All {κ} : (A → Type κ) → List A → Type κ
  All P [] = Unit
  All P (x ∷ xs) = P x × All P xs

  pub All-append {κ} : (P : A → Type κ) (xs ys : List A) → All P xs → All P ys → All P (xs ++ ys)
  All-append P [] ys h k = k
  All-append P (x ∷ xs) ys (p, h) k = (p, All-append P xs ys h k)

  pub find_first-holds :
      (p : A → Bool) (xs : List A) (x : A) → find_first p xs ≡ some x → p x ≡ true
  find_first-holds p [] x h = ground arith
  find_first-holds p (y ∷ ys) x h = ground (arith, find_first-holds p ys x)

  pub select-All : (p : A → Bool) (xs : List A) → All (λ x. p x ≡ true) (select p xs)
  select-All p [] = tt
  select-All p (x ∷ xs) = ground (arith, select-All p xs)
