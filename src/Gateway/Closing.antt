-- ===== src/Gateway/Closing.antt =====
-- How `Run` of gateway/main.go ends: the goroutines that wait for the end of its context, and the
-- server.
use omnicore_proxy.Base.{
  ℕ, ◌+◌, ◌≡◌, refl, String, List, [], ◌∷◌, ◌++◌, Bool, true, false, if◌then◌else◌, Option, none,
  some, ok, arith, Option-cases, inl, inr,
}
use mathlib.Core.List.{append_assoc}
use omnicore_proxy.Gateway.{
  Options, Waiting, close_conn, shutdown_server, Event, listened, started, cancelled, Libraries,
  dial, new_gateway, serve_on, run,
}

-- The goroutines that the end of the context releases, with those that wait already: a goroutine
-- waits from its start on.
abbrev pub released : List Waiting → List Event → List Waiting
released waiting [] = []
released waiting (started g ∷ es) = released (waiting ++ g ∷ []) es
released waiting (cancelled ∷ es) = waiting ++ released [] es
released waiting (_ ∷ es) = released waiting es

-- How often the server listens.
abbrev pub listens : List Event → ℕ
listens [] = 0
listens (listened a ∷ es) = 1 + listens es
listens (_ ∷ es) = listens es

module _ (L : Libraries) where
  -- All registrations succeed.
  abbrev pub all_register : L.Conn → List (L.Conn → Option String) → Bool
  all_register conn [] = true
  all_register conn (f ∷ fs) = elim (f conn) [ some e ↦ false | none ↦ all_register conn fs ]

  -- The registrations start nothing and do not listen.
  new_gateway-events :
      (conn : L.Conn) (i : ℕ) (regs : List (L.Conn → Option String)) (waiting : List Waiting)
      (rest : List Event)
      → let (r, events) = new_gateway L conn i regs in
        (released waiting (events ++ rest) ≡ released waiting rest)
        × (listens (events ++ rest) ≡ listens rest)
        × (elim r [ some e ↦ false | none ↦ true ] ≡ all_register conn regs)
  unfolding new_gateway
  new_gateway-events conn i [] waiting rest = (refl, refl, refl)
  new_gateway-events conn i (f ∷ fs) waiting rest =
      let (a, b, c) = new_gateway-events conn (i + 1) fs waiting rest in
      elim (Option-cases (f conn)) [
        | inl succeeds ↦ rw (succeeds, new_gateway) (a, b, c)
        | inr (e, fails) ↦ rw (fails, new_gateway) (refl, refl, refl)
      ]

  -- Once the dial has succeeded, the end of the context releases, whichever way `Run` returns, the
  -- one goroutine that closes the connection, and behind it the one that shuts the server down if
  -- every registration succeeds, and no other; the server listens once if every registration
  -- succeeds, and never otherwise.
  pub run-releases :
      (opts : Options) (regs : List (L.Conn → Option String)) (conn : L.Conn)
      → dial L opts.grpc_server.network opts.grpc_server.addr ≡ ok conn
      → let (r, events) = run L opts regs in
        (released [] events
          ≡ close_conn ∷ (if all_register conn regs then shutdown_server ∷ [] else []))
        × (listens events ≡ (if all_register conn regs then 1 else 0))
  unfolding run serve_on
  run-releases opts regs conn h =
      let (r, events) = new_gateway L conn 0 regs in
      let failed = cancelled ∷ [] in
      let served = started shutdown_server ∷ listened opts.addr ∷ cancelled ∷ [] in
      elim (Option-cases r) [
        | inr (e, bad) ↦
            let (a, b, c) = new_gateway-events conn 0 regs (close_conn ∷ []) failed in
            rw (h, run, bad, serve_on) (ground (arith, a, c), ground (arith, b, c))
        | inl good ↦
            let (a, b, c) = new_gateway-events conn 0 regs (close_conn ∷ []) served in
            let joined =
              append_assoc events (started shutdown_server ∷ listened opts.addr ∷ []) failed in
            rw (h, run, good, serve_on, joined) (ground (arith, a, c), ground (arith, b, c))
      ]
