-- ===== src/WhitelistProxy/Handler.antt =====
-- Which requests `mainHttpHandler` of whitelist_proxy/whitelist_proxy.go lets through.
use mathlib.Core.List.{Memᴰ}
use text.Mathlib.TextBridge.{IsPrefix}
use text.Mathlib.TextEquality.{starts_with_iff}
use omnicore_proxy.Base.{
  ℕ, zero, suc, ◌+◌, ◌%◌, ◌<◌, ◌^◌, ◌≡◌, ◌≢◌, refl, sym, ◌⊎◌, inl, inr, true, String, str_eq,
  starts_with, eq_iff, List, [], ◌∷◌, Result, ok, err, arith, Result-cases, Bool-cases,
}
use omnicore_proxy.WhitelistProxy.{
  Request, Backend, body, contains, is_allowed, white_list_methods, handle, raw_request, next_id,
}

contains-Memᴰ : (xs : List String) (m : String) → contains xs m ≡ true → Memᴰ m xs
unfolding contains
contains-Memᴰ [] m h = ground arith
contains-Memᴰ (x ∷ xs) m h = elim (Bool-cases (str_eq x m)) [
  | inl e ↦ Memᴰ.head (sym ((eq_iff x m).0 e))
  | inr e ↦ Memᴰ.tail (contains-Memᴰ xs m (ground arith))
]

-- The proxy's policy: a method of the list, or one whose name begins with `omni_get` or
-- `omni_list`.
abbrev pub IsPublic : String → Type 0
IsPublic m = Memᴰ m white_list_methods ⊎ (IsPrefix "omni_get" m ⊎ IsPrefix "omni_list" m)

is_allowed-IsPublic : (m : String) → is_allowed m ≡ true → IsPublic m
unfolding is_allowed
is_allowed-IsPublic m h = elim (Bool-cases (contains white_list_methods m)) [
  | inl listed ↦ inl (contains-Memᴰ white_list_methods m listed)
  | inr other ↦ elim (Bool-cases (starts_with m "omni_get")) [
    | inl get ↦ inr (inl ((starts_with_iff m "omni_get").0 get))
    | inr more ↦ inr (inr ((starts_with_iff m "omni_list").0 (ground arith)))
  ]
]

module _ (B : Backend) where
  -- A reply with a body of the full node was asked for with a method that the policy allows, and
  -- the node was sent the client's method and parameters under the proxy's own identifier.
  pub handle-IsPublic :
      (read : Result (List ℕ)) (reqid reqid' : ℕ) (bytes : List ℕ)
      → handle B read reqid ≡ (body bytes, reqid')
      → (raw : List ℕ) × (req : Request) × (read ≡ ok raw)
        × (B.unmarshal raw ≡ ok req)
        × IsPublic req.method
        × ((raw_request B req reqid).0 ≡ ok bytes)
  unfolding handle
  handle-IsPublic (err e) reqid reqid' bytes h = ground arith
  handle-IsPublic (ok raw) reqid reqid' bytes h = elim (Result-cases (B.unmarshal raw)) [
    | inr (e, u) ↦ ground arith
    | inl (req, u) ↦
        (raw, req, refl, u, is_allowed-IsPublic req.method (ground arith), ground arith)
  ]

-- The identifiers of the requests in order, from the counter's value on.
unfoldable pub ids : ℕ → ℕ → ℕ
unfolding next_id
ids zero reqid = reqid
ids (suc k) reqid = next_id (ids k reqid)

ids-eq-mod : (reqid k : ℕ) → reqid < 2 ^ 64 → ids k reqid ≡ (reqid + k) % 2 ^ 64
unfolding ids
ids-eq-mod reqid zero r = omega arith
ids-eq-mod reqid (suc k) r = rw (ids-eq-mod reqid k r) (omega arith)

-- No identifier comes again within 2 ^ 64 requests, wherever the counter stands.
ids_distinct : (reqid j k : ℕ) → reqid < 2 ^ 64 → j < k → k < j + 2 ^ 64 → ids j reqid ≢ ids k reqid
ids_distinct reqid j k r h b e = omega (arith, ids-eq-mod reqid j r, ids-eq-mod reqid k r)
