-- ===== src/Toolrpc/Table/Put.antt =====
-- How a write changes what is found in a table and what is summed over it.
use omnicore_proxy.Base.{
  ℕ, ◌+◌, ◌≡◌, ◌≢◌, refl, Bool, false, ◌==◌, if◌then◌else◌, List, [], ◌∷◌, Option, none, some,
  arith, find_first, select, map,
}
use omnicore_proxy.Toolrpc.Table.{put, NodupIds}

abbrev pub sum_by : {Row : Type 0} → (Row → ℕ) → List Row → ℕ
sum_by f [] = 0
sum_by f (x ∷ xs) = f x + sum_by f xs

-- The weight of the row that a write replaces.
abbrev pub weight_of : {Row : Type 0} → (Row → ℕ) → Option Row → ℕ
weight_of f none = 0
weight_of f (some x) = f x

module _ {Row : Type 0} (id : Row → ℕ) where
  pub find_first-put :
      (j : ℕ) (r : Row) (xs : List Row)
      → find_first (λ x. id x == j) (put id r xs)
        ≡ (if id r == j then some r else find_first (λ x. id x == j) xs)
  find_first-put j r [] = refl
  find_first-put j r (x ∷ xs) = ground (arith, find_first-put j r xs)

  pub put-NodupIds : (r : Row) (xs : List Row) → NodupIds id xs → NodupIds id (put id r xs)
  put-NodupIds r [] h = (refl, tt)
  put-NodupIds r (x ∷ xs) h = ground (arith, put-NodupIds r xs h.1, find_first-put (id x) r xs)

  pub sum_by-put :
      (f : Row → ℕ) (r : Row) (xs : List Row)
      → weight_of f (find_first (λ x. id x == id r) xs) + sum_by f (put id r xs) ≡ f r + sum_by f xs
  sum_by-put f r [] = omega arith
  sum_by-put f r (x ∷ xs) = ground (arith, sum_by-put f r xs)

  find_first-none :
      (p : Row → Bool) (j : ℕ) (xs : List Row) (x : Row)
      → find_first (λ y. id y == j) xs ≡ none
      → find_first p xs ≡ some x
      → id x ≢ j
  find_first-none p j [] x h k = cc
  find_first-none p j (y ∷ ys) x h k = ground (arith, find_first-none p j ys x)

  -- What a query finds first is also what its identifier finds.
  pub find_first_by_id :
      (p : Row → Bool) (xs : List Row) (x : Row)
      → NodupIds id xs
      → find_first p xs ≡ some x
      → find_first (λ y. id y == id x) xs ≡ some x
  find_first_by_id p [] x h k = cc
  find_first_by_id p (y ∷ ys) x h k =
      ground (arith, find_first_by_id p ys x h.1, find_first-none p (id y) ys x h.0)

  -- The rows of one identifier changed in place.
  pub find_first-map :
      (j k : ℕ) (g : Row → Row) (xs : List Row)
      → ((x : Row) → id (g x) ≡ id x)
      → find_first (λ x. id x == j) (map (λ x. if id x == k then g x else x) xs) ≡ (
          if j == k
          then elim (find_first (λ x. id x == j) xs) [ none ↦ none | some x ↦ some (g x) ]
          else find_first (λ x. id x == j) xs)
  find_first-map j k g [] e = ground arith
  find_first-map j k g (x ∷ xs) e = ground (arith, e x, find_first-map j k g xs e)

  pub find_first-select-none :
      (p : Row → Bool) (j : ℕ) (xs : List Row)
      → find_first (λ x. id x == j) xs ≡ none
      → find_first (λ x. id x == j) (select p xs) ≡ none
  find_first-select-none p j [] h = refl
  find_first-select-none p j (x ∷ xs) h = ground (arith, find_first-select-none p j xs)

  -- A query does not give the identifier of a row that does not meet its condition.
  pub find_first-select :
      (p : Row → Bool) (j : ℕ) (xs : List Row) (x : Row)
      → NodupIds id xs
      → find_first (λ y. id y == j) xs ≡ some x
      → p x ≡ false
      → find_first (λ y. id y == j) (select p xs) ≡ none
  find_first-select p j [] x u h k = refl
  find_first-select p j (y ∷ ys) x u h k =
      ground (arith, find_first-select p j ys x u.1, find_first-select-none p (id y) ys u.0)
