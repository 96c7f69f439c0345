-- ===== src/Tests/Memory.antt =====
-- A table in memory: its rows in a list, and every call succeeds but a query that finds no row.
use omnicore_proxy.Base.{
  ℕ, ◌+◌, ◌<◌, ◌≡◌, refl, ◌==◌, if◌then◌else◌, List, [], ◌∷◌, none, some, ok, err, length, select,
  find_first, map, arith, Option-cases, inl, inr, Bool-cases,
}
use omnicore_proxy.Toolrpc.Table.{Table, put, IsLawful, IsUpdatable}
use omnicore_proxy.Toolrpc.Channels.Matched.{Creates}
use omnicore_proxy.Toolrpc.Monitor.Past.{IsDependable}
use omnicore_proxy.Toolrpc.Table.Put.{sum_by}

module _ {Row : Type 0} (id : Row → ℕ) (with_id : ℕ → Row → Row) (overlay : Row → Row → Row) where
  -- An identifier above all of the table.
  abbrev fresh : List Row → ℕ
  fresh xs = 1 + sum_by id xs

  abbrev save_row : Row → List Row → Row
  save_row r xs = if id r == 0 then with_id (fresh xs) r else r

  abbrev pub memory : Table Row
  memory = record {
    State = List Row;
    find = λ p xs. ok (select p xs);
    first = λ p xs. elim (find_first p xs) [ none ↦ err "record not found" | some x ↦ ok x ];
    count = λ p xs. ok (length (select p xs));
    save = λ r xs. (ok (save_row r xs), put id (save_row r xs) xs);
    create = λ r xs. (ok (save_row r xs), put id (save_row r xs) xs);
    updates = λ r u xs. (ok (overlay r u), map (λ x. if id x == id r then overlay x u else x) xs);
  }

  fresh_lem : (n : ℕ) (xs : List Row) → sum_by id xs < n → find_first (λ x. id x == n) xs ≡ none
  fresh_lem n [] h = refl
  fresh_lem n (x ∷ xs) h = ground (arith, fresh_lem n xs)

  pub memory-IsLawful :
      ((n : ℕ) (r : Row) → id (with_id n r) ≡ n) → IsLawful memory (λ xs. xs) id with_id
  memory-IsLawful e = record {
    first-rows = λ p s r h. elim (Option-cases (find_first p s)) [
      | inl n ↦ ground arith
      | inr (x, f) ↦ ground arith
    ];
    save-rows = λ r r' s h. elim (Bool-cases (id r == 0)) [
      | inr old ↦ (ground arith, λ n. ground arith, λ n. ground arith)
      | inl new ↦ (
        ground arith,
        λ n. ground arith,
        λ n. (
          λ z. ground (arith, e (fresh s) r),
          ground (arith, e (fresh s) r),
          ground (arith, e (fresh s) r, fresh_lem (fresh s) s),
        ),
      )
    ];
    save-rows_failed = λ r e s h. ground arith;
  }

  pub memory-IsUpdatable : IsUpdatable memory (λ xs. xs) id overlay
  memory-IsUpdatable = record {
    find-rows = λ p s rs h. ground arith;
    updates-rows = λ r u r' s h. (ground arith, refl);
    updates-rows_failed = λ r u e s h. ground arith;
  }

  pub memory-IsDependable : IsDependable memory (λ xs. xs) id overlay
  memory-IsDependable = record {
    first-rows = λ p s r h. elim (Option-cases (find_first p s)) [
      | inl n ↦ ground arith
      | inr (x, f) ↦ ground arith
    ];
    first-finds = λ p s r h. rw (h, memory) refl;
    updates-succeed = λ r u s. (_, refl);
    updatable = memory-IsUpdatable;
  }

  pub memory-Creates :
      ((n : ℕ) (r : Row) → id (with_id n r) ≡ n) → Creates memory (λ xs. xs) id with_id
  memory-Creates e = record {
    create-rows = λ r r' s h z. (ground arith, ground (arith, e (fresh s) r));
    create-fresh = λ r r' s h z. ground (arith, e (fresh s) r, fresh_lem (fresh s) s);
    create-rows_failed = λ r e s h. ground arith;
  }
