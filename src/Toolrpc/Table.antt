-- ===== src/Toolrpc/Table.antt =====
-- A table of the database, as the program uses it through gorm: an unknown state, queries by a
-- condition on rows, and writes. A write returns the struct that the call leaves in memory.
pub mod Put
use omnicore_proxy.Base.{
  ℕ, String, Bool, List, [], ◌∷◌, ◌++◌, ◌≡◌, ok, err, Option, some, none, Result, select,
  find_first, ◌==◌, if◌then◌else◌, map, ◌≢◌,
}

pub record Table (Row : Type 0) : Type 1 where
  pub State : Type 0
  -- `db.Find(&rows, …)` and `db.First(row, …)`
  pub find : (Row → Bool) → State → Result (List Row)
  pub first : (Row → Bool) → State → Result Row
  -- `db.Model(Row{}).Where(…).Count(&n)`
  pub count : (Row → Bool) → State → Result ℕ
  -- `db.Save(row)` and `db.Create(row)`
  pub save : Row → State → Result Row × State
  pub create : Row → State → Result Row × State
  -- `db.Model(row).Updates(fields)`: the fields that are not zero are written
  pub updates : Row → Row → State → Result Row × State

-- The struct in memory behind a write whose error is not looked at.
abbrev pub kept : {Row S : Type 0} → Row → Result Row × S → Row × S
kept r (result, s) = (elim result [ ok r' ↦ r' | err e ↦ r ], s)

-- The row with the same identifier replaced, or a new row at the end.
abbrev pub put : {Row : Type 0} → (Row → ℕ) → Row → List Row → List Row
put id r [] = r ∷ []
put id r (x ∷ xs) = if id x == id r then r ∷ xs else x ∷ put id r xs

-- No two rows share an identifier.
abbrev pub NodupIds : {Row : Type 0} → (Row → ℕ) → List Row → Type 0
NodupIds id [] = Unit
NodupIds id (x ∷ xs) = (find_first (λ y. id y == id x) xs ≡ none) × NodupIds id xs

-- What gorm and the database document of the calls that succeed, over the rows that a state holds.
-- `Save` of a row with no identifier gives it a fresh one. A call that fails writes nothing.
pub record IsLawful {Row : Type 0} (T : Table Row) (rows : T.State → List Row) (id : Row → ℕ)
    (with_id : ℕ → Row → Row) : Type 0 where
  pub first-rows :
      (p : Row → Bool) (s : T.State) (r : Row) → T.first p s ≡ ok r → find_first p (rows s) ≡ some r
  pub save-rows :
      (r r' : Row) (s : T.State)
      → (T.save r s).0 ≡ ok r'
      → (rows (T.save r s).1 ≡ put id r' (rows s))
        × (id r ≢ 0 → r' ≡ r)
        × (id r ≡ 0
            → (id r' ≢ 0)
              × (r' ≡ with_id (id r') r)
              × (find_first (λ x. id x == id r') (rows s) ≡ none))
  pub save-rows_failed :
      (r : Row) (e : String) (s : T.State) → (T.save r s).0 ≡ err e → rows (T.save r s).1 ≡ rows s

-- The same of `Updates`. `overlay x u` is the row `x` with the fields of `u` that are not zero.
pub record IsUpdatable {Row : Type 0} (T : Table Row) (rows : T.State → List Row) (id : Row → ℕ)
    (overlay : Row → Row → Row) : Type 0 where
  pub find-rows :
      (p : Row → Bool) (s : T.State) (rs : List Row) → T.find p s ≡ ok rs → rs ≡ select p (rows s)
  pub updates-rows :
      (r u r' : Row) (s : T.State)
      → (T.updates r u s).0 ≡ ok r'
      → (r' ≡ overlay r u)
        × (rows (T.updates r u s).1 ≡ map (λ x. if id x == id r then overlay x u else x) (rows s))
  pub updates-rows_failed :
      (r u : Row) (e : String) (s : T.State)
      → (T.updates r u s).0 ≡ err e
      → rows (T.updates r u s).1 ≡ rows s
