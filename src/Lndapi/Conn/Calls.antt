-- ===== src/Lndapi/Conn/Calls.antt =====
-- `GetLndClient` and `GetRouterClient` of lndapi/conn.go in any order: the two maps of clients.
use omnicore_proxy.Base.{
  ◌≡◌, refl, ap, ◌∙◌, subst, String, List, [], ◌∷◌, Option, none, some, Result, ok, arith, eq_iff,
  Option-cases, Result-cases, inl, inr,
}
use omnicore_proxy.Lndapi.Conn.{
  Host, Clients, lookup_client, get_lnd_client, get_router_client, get_client_conn,
}

module _ (H : Host) where
  -- The maps `lndClients` and `lnRouterClients`.
  pub record Caches : Type 0 where
    pub lnd : Clients H
    pub router : Clients H

  -- A call, with the address, the network and the directory.
  pub data Call : Type 0 where
    lnd_call : String → String → String → Call
    router_call : String → String → String → Call

  unfoldable pub call_client : Call → Caches → Option (Result H.Conn × Caches)
  unfolding get_lnd_client get_router_client
  call_client (lnd_call a n d) s = elim (get_lnd_client H a n d s.lnd) [
    | none ↦ none
    | some (r, c) ↦ some (r, record s { lnd = c })
  ]
  call_client (router_call a n d) s = elim (get_router_client H a n d s.router) [
    | none ↦ none
    | some (r, c) ↦ some (r, record s { router = c })
  ]

  -- Calls one behind the other, with their results, as long as none of them ends the program.
  unfoldable pub call_clients : List Call → Caches → Option (List (Result H.Conn) × Caches)
  unfolding call_client
  call_clients [] s = some ([], s)
  call_clients (c ∷ cs) s = elim (call_client c s) [
    | none ↦ none
    | some (r, s') ↦ elim (call_clients cs s') [ none ↦ none | some (rs, s2) ↦ some (r ∷ rs, s2) ]
  ]

  -- The client that is kept for a call.
  abbrev pub kept_for : Call → Caches → Option H.Conn
  kept_for (lnd_call a n d) s = lookup_client H a s.lnd.kept_clients
  kept_for (router_call a n d) s = lookup_client H a s.router.kept_clients

  -- There is a result for each call, and a call that gave a client gave the one that is kept for
  -- its address.
  abbrev pub AllKept : List Call → List (Result H.Conn) → Caches → Type 0
  AllKept [] [] s = Unit
  AllKept [] (r ∷ rs) s = ⊥
  AllKept (c ∷ cs) [] s = ⊥
  AllKept (c ∷ cs) (r ∷ rs) s =
      ((conn : H.Conn) → r ≡ ok conn → kept_for c s ≡ some conn) × AllKept cs rs s

  -- A call gives what is kept afterwards, and keeps what was kept.
  get_lnd_client-kept :
      (a n d : String) (s s' : Clients H) (conn : H.Conn)
      → get_lnd_client H a n d s ≡ some (ok conn, s')
      → lookup_client H a s'.kept_clients ≡ some conn
  unfolding get_lnd_client lookup_client
  get_lnd_client-kept a n d s s' conn h = elim (Option-cases (lookup_client H a s.kept_clients)) [
    | inr (c, k) ↦ ground arith
    | inl k ↦ elim (Option-cases (get_client_conn H a n d)) [
      | inl p ↦ ground arith
      | inr (r, g) ↦ elim (Result-cases r) [
        | inr (e, q) ↦ ground arith
        | inl (new, q) ↦ ground (arith, eq_iff a a)
      ]
    ]
  ]

  get_lnd_client-keeps :
      (a n d b : String) (s s' : Clients H) (r : Result H.Conn) (conn : H.Conn)
      → get_lnd_client H a n d s ≡ some (r, s')
      → lookup_client H b s.kept_clients ≡ some conn
      → lookup_client H b s'.kept_clients ≡ some conn
  unfolding get_lnd_client lookup_client
  get_lnd_client-keeps a n d b s s' r conn h k =
      elim (Option-cases (lookup_client H a s.kept_clients)) [
        | inr (c, there) ↦ ground arith
        | inl absent ↦ elim (Option-cases (get_client_conn H a n d)) [
          | inl p ↦ ground arith
          | inr (r', g) ↦ elim (Result-cases r') [
            | inr (e, q) ↦ ground arith
            | inl (new, q) ↦ ground (arith, (eq_iff a b).0)
          ]
        ]
      ]

  get_router_client_lem :
      (a n d : String) (s : Clients H) → get_router_client H a n d s ≡ get_lnd_client H a n d s
  unfolding get_router_client get_lnd_client
  get_router_client_lem a n d s = refl

  call_client-kept :
      (c : Call) (s s' : Caches) (conn : H.Conn)
      → call_client c s ≡ some (ok conn, s')
      → kept_for c s' ≡ some conn
  unfolding call_client
  call_client-kept (lnd_call a n d) s s' conn h =
      elim (Option-cases (get_lnd_client H a n d s.lnd)) [
        | inl p ↦ ground arith
        | inr ((r, t), g) ↦ ground (arith, get_lnd_client-kept a n d s.lnd t conn)
      ]
  call_client-kept (router_call a n d) s s' conn h =
      elim (Option-cases (get_router_client H a n d s.router)) [
        | inl p ↦ ground arith
        | inr ((r, t), g) ↦
            ground (
              arith,
              get_lnd_client-kept a n d s.router t conn,
              get_router_client_lem a n d s.router,
            )
      ]

  call_client-keeps :
      (c c' : Call) (s s' : Caches) (r : Result H.Conn) (conn : H.Conn)
      → call_client c s ≡ some (r, s')
      → kept_for c' s ≡ some conn
      → kept_for c' s' ≡ some conn
  unfolding call_client
  call_client-keeps (lnd_call a n d) (lnd_call a' n' d') s s' r conn h k =
      elim (Option-cases (get_lnd_client H a n d s.lnd)) [
        | inl p ↦ ground arith
        | inr ((q, t), g) ↦ ground (arith, get_lnd_client-keeps a n d a' s.lnd t q conn)
      ]
  call_client-keeps (lnd_call a n d) (router_call a' n' d') s s' r conn h k =
      elim (Option-cases (get_lnd_client H a n d s.lnd)) [
        | inl p ↦ ground arith
        | inr ((q, t), g) ↦ ground arith
      ]
  call_client-keeps (router_call a n d) (lnd_call a' n' d') s s' r conn h k =
      elim (Option-cases (get_router_client H a n d s.router)) [
        | inl p ↦ ground arith
        | inr ((q, t), g) ↦ ground arith
      ]
  call_client-keeps (router_call a n d) (router_call a' n' d') s s' r conn h k =
      elim (Option-cases (get_router_client H a n d s.router)) [
        | inl p ↦ ground arith
        | inr ((q, t), g) ↦ ground (
          arith,
          get_lnd_client-keeps a n d a' s.router t q conn,
          get_router_client_lem a n d s.router,
        )
      ]

  call_clients-keeps :
      (cs : List Call) (c' : Call) (s s' : Caches) (rs : List (Result H.Conn)) (conn : H.Conn)
      → call_clients cs s ≡ some (rs, s')
      → kept_for c' s ≡ some conn
      → kept_for c' s' ≡ some conn
  unfolding call_clients
  call_clients-keeps [] c' s s' rs conn h k =
      subst (λ u. kept_for c' u ≡ some conn) (ground arith) k
  call_clients-keeps (c ∷ cs) c' s s' rs conn h k = elim (Option-cases (call_client c s)) [
    | inl p ↦ ground arith
    | inr ((r, t), g) ↦ elim (Option-cases (call_clients cs t)) [
      | inl p ↦ ground arith
      | inr ((rs', s2), g') ↦
          let last : s2 ≡ s' = ground arith in
          subst (λ u. kept_for c' u ≡ some conn) last
            (call_clients-keeps cs c' t s2 rs' conn g' (call_client-keeps c c' s t r conn g k))
    ]
  ]

  none_made :
      (rs : List (Result H.Conn)) (s s' : Caches) → call_clients [] s ≡ some (rs, s') → [] ≡ rs
  unfolding call_clients
  none_made rs s s' h = ground arith

  -- Whatever calls of the two functions come, for whatever networks and directories, if none of
  -- them ends the program: each call that
  -- gives a client gives the one that its function keeps for the address at the end: two calls of
  -- one function for one address never give different clients.
  pub call_clients-AllKept :
      (cs : List Call) (s s' : Caches) (rs : List (Result H.Conn))
      → call_clients cs s ≡ some (rs, s')
      → AllKept cs rs s'
  unfolding call_clients
  call_clients-AllKept [] s s' rs h = subst (λ r. AllKept [] r s') (none_made rs s s' h) tt
  call_clients-AllKept (c ∷ cs) s s' rs h = elim (Option-cases (call_client c s)) [
    | inl p ↦ ground arith
    | inr ((r, t), g) ↦ elim (Option-cases (call_clients cs t)) [
      | inl p ↦ ground arith
      | inr ((rs', s2), g') ↦
          let last : s2 ≡ s' = ground arith in
          let results : r ∷ rs' ≡ rs = ground arith in
          let all : AllKept (c ∷ cs) (r ∷ rs') s2 = (
            λ conn is.
                call_clients-keeps cs c t s2 rs' conn g'
                  (call_client-kept c s t conn (g ∙ ap (λ q. some (q, t)) is)),
            call_clients-AllKept cs t s2 rs' g',
          ) in
          subst (λ u. AllKept (c ∷ cs) rs u) last (subst (λ q. AllKept (c ∷ cs) q s2) results all)
    ]
  ]
