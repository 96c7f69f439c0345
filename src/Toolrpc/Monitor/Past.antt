-- ===== src/Toolrpc/Monitor/Past.antt =====
-- A row that a query finds first, and that has left its initial state, over the writes of a table.
use omnicore_proxy.Base.{
  ℕ, String, ◌≡◌, refl, Bool, false, ◌==◌, if◌then◌else◌, List, [], ◌∷◌, none, some, ok, err, arith,
  find_first, map, Option-cases, inl, inr,
}
use omnicore_proxy.Toolrpc.Table.{Table, IsUpdatable}

-- What the loops need of a table: a query finds the first row that there is, and no update fails.
pub record IsDependable {Row : Type 0} (T : Table Row) (rows : T.State → List Row) (id : Row → ℕ)
    (overlay : Row → Row → Row) : Type 0 where
  pub first-rows :
      (p : Row → Bool) (s : T.State) (r : Row) → T.first p s ≡ ok r → find_first p (rows s) ≡ some r
  pub first-finds :
      (p : Row → Bool) (s : T.State) (r : Row) → find_first p (rows s) ≡ some r → T.first p s ≡ ok r
  pub updates-succeed : (r u : Row) (s : T.State) → (r' : Row) × ((T.updates r u s).0 ≡ ok r')
  pub updatable : IsUpdatable T rows id overlay

module _ {Row : Type 0} (initial : Row → Bool) where
  -- The first row that meets a condition is past its initial state, if there is one.
  abbrev pub IsPast : (Row → Bool) → List Row → Type 0
  IsPast p xs = (r : Row) → find_first p xs ≡ some r → initial r ≡ false

  -- A change of rows that keeps the condition changes what is found, and nothing else.
  find_first-map_keep :
      (p : Row → Bool) (g : Row → Row) (xs : List Row)
      → ((x : Row) → p (g x) ≡ p x)
      → find_first p (map g xs) ≡ elim (find_first p xs) [ none ↦ none | some x ↦ some (g x) ]
  find_first-map_keep p g [] e = refl
  find_first-map_keep p g (x ∷ xs) e = ground (arith, e x, find_first-map_keep p g xs e)

  map-IsPast :
      (p : Row → Bool) (g : Row → Row) (xs : List Row)
      → ((x : Row) → p (g x) ≡ p x)
      → ((x : Row) → find_first p xs ≡ some x → initial (g x) ≡ false)
      → IsPast p (map g xs)
  map-IsPast p g xs e past r' h = elim (Option-cases (find_first p xs)) [
    | inl absent ↦ ground (arith, find_first-map_keep p g xs e)
    | inr (r, found) ↦ ground (arith, find_first-map_keep p g xs e, past r found)
  ]

  module _ (T : Table Row) (rows : T.State → List Row) (id : Row → ℕ) (overlay : Row → Row → Row)
      (D : IsDependable T rows id overlay) where
    -- A query that fails finds no row.
    pub failed-IsPast :
        (p : Row → Bool) (s : T.State) (e : String) → T.first p s ≡ err e → IsPast p (rows s)
    failed-IsPast p s e failed r h = ground (arith, D.first-finds p s r h)

    pub ok-IsPast :
        (p : Row → Bool) (s : T.State) (r : Row)
        → T.first p s ≡ ok r
        → initial r ≡ false
        → IsPast p (rows s)
    ok-IsPast p s r found past r' h = ground (arith, D.first-rows p s r found)

    -- `Updates` with fields that neither touch the condition nor lead back to the initial state.
    pub updates-IsPast :
        (p : Row → Bool) (r u : Row) (s : T.State)
        → ((x : Row) → p (overlay x u) ≡ p x)
        → ((x : Row) → initial x ≡ false → initial (overlay x u) ≡ false)
        → IsPast p (rows s)
        → IsPast p (rows (T.updates r u s).1)
    updates-IsPast p r u s same keeps past =
        let (r', written) = D.updates-succeed r u s in
        rw (D.updatable.updates-rows r u r' s written).1 (
          map-IsPast p (λ x. if id x == id r then overlay x u else x) (rows s)
            (λ x. ground (arith, same x))
            (λ x found. let kept = past x found in ground (arith, kept, keeps x kept)))

    -- The row that the query found leaves its initial state when the fields lead out of it.
    pub updates-IsPast_found :
        (p : Row → Bool) (r u : Row) (s : T.State)
        → ((x : Row) → p (overlay x u) ≡ p x)
        → T.first p s ≡ ok r
        → initial (overlay r u) ≡ false
        → IsPast p (rows (T.updates r u s).1)
    updates-IsPast_found p r u s same found leaves =
        let (r', written) = D.updates-succeed r u s in
        rw (D.updatable.updates-rows r u r' s written).1 (
          map-IsPast p (λ x. if id x == id r then overlay x u else x) (rows s)
            (λ x. ground (arith, same x)) (λ x h. ground (arith, D.first-rows p s r found)))
