-- ===== src/Toolrpc/Spay/Create.antt =====
-- `CreateSpay` of toolrpc/luckPk.go: the invoice that the server asks for, and what it takes over
-- from the client.
use omnicore_proxy.Base.{
  ℕ, ◌+◌, ◌*◌, ◌/◌, ◌≤◌, ◌<◌, ◌^◌, ◌≡◌, ◌≢◌, refl, ◌==◌, true, List, some, none, ok, arith, inl,
  inr, find_first, Result-cases,
}
use omnicore_proxy.Base.Int.{ℤ, pos, ◌<ℤ◌}
use omnicore_proxy.Lndapi.Node.{PayReq}
use omnicore_proxy.Lndapi.Payment.{invoice_amount, invoice_req}
use omnicore_proxy.Toolrpc.Rows.{Spay, user_payed}
use omnicore_proxy.Toolrpc.Table.{IsLawful}
use omnicore_proxy.Toolrpc.Table.Put.{find_first-put}
use omnicore_proxy.Toolrpc.World.{Env, World}
use omnicore_proxy.Toolrpc.Spay.{create_spay, runs_for, with_server_invoice}

-- For a bitcoin invoice of a number of millisatoshis from 0 to 2 ^ 63 - 1 the server asks for the
-- whole satoshis of it, a multiple of a thousand millisatoshis: never more than the server will pay
-- out, and less by up to 999 millisatoshis.
pub invoice_req-rounds_down :
    (p : PayReq) (m : ℕ)
    → p.asset_id ≡ 0
    → p.amt_msat ≡ pos m
    → m < 2 ^ 63
    → let req = invoice_req p.asset_id (invoice_amount p) p.expiry in
      (v : ℕ) × (req.value_msat ≡ pos v)
      × (v ≡ m / 1000 * 1000)
      × (v ≤ m)
      × (m < v + 1000)
      × (req.amount ≡ pos 0)
unfolding invoice_req invoice_amount
invoice_req-rounds_down p m z e h =
    (m / 1000 * 1000, ground arith, refl, omega arith, omega arith, ground arith)

module _ (E : Env) (rows : E.spays.State → List Spay) where
  -- `CreateSpay` takes the identifier, the status and the expiry from the client. A spay that a
  -- client sends with the status `UserPayed`, no identifier and an expiry in the future is stored
  -- under a fresh identifier and is one that `runUserSpay` pays out, though nobody paid the
  -- server.
  pub create_spay_unpaid_runs :
      IsLawful E.spays rows (λ x. x.id) (λ n r. record r { id = n })
      → (user_id : ℕ) (sy row : Spay) (w : World E) (now : ℤ) → sy.id ≡ 0
      → sy.status ≡ user_payed
      → now <ℤ sy.expire
      → (create_spay E user_id sy w).0 ≡ ok row
      → (runs_for user_id now row ≡ true)
        × (row.user_invoice ≡ sy.user_invoice)
        × (row.id ≢ 0)
        × (find_first (λ x. x.id == row.id) (rows w.spays) ≡ none)
        × (find_first (λ x. x.id == row.id) (rows (create_spay E user_id sy w).1.spays) ≡ some row)
  unfolding create_spay runs_for
  create_spay_unpaid_runs L user_id sy row w now z st ex h =
      elim (Result-cases (E.node.decode_pay_req sy.user_invoice w.node)) [
        | inr (e, d) ↦ ground arith
        | inl (p, d) ↦
            elim (Result-cases
              (E.node.add_invoice (invoice_req p.asset_id (invoice_amount p) p.expiry) w.node).0) [
                | inr (e, a) ↦ ground arith
                | inl (res, a) ↦
                    let sy' = with_server_invoice E sy user_id p res in
                    let saved : (E.spays.save sy' w.spays).0 ≡ ok row = ground arith in
                    let (written, _, new) = L.save-rows sy' row w.spays saved in
                    let (nonzero, same, fresh) = new z in
                    (
                      ground arith,
                      ground arith,
                      λ e. nonzero e,
                      fresh,
                      ground (arith, find_first-put (λ x. x.id) row.id row (rows w.spays)),
                    )
              ]
      ]
