-- ===== src/Toolrpc/Spay.antt =====
-- The agency payments of toolrpc/luckPk.go: creating one, what the settled invoice does, the
-- payment to the user and the refund to the payer.
pub mod Create
pub mod Status
pub mod Moves
pub mod Monitor
pub mod Race
pub mod Life
use omnicore_proxy.Base.{
  ℕ, ◌+◌, ◌%◌, ◌^◌, String, List, [], ◌∷◌, Bool, true, false, not, ◌&&◌, ◌||◌, ◌==◌, str_eq,
  if◌then◌else◌, Option, none, some, Result, ok, err, is_ok, Action, pure, lift, ◌>>=◌,
}
use omnicore_proxy.Base.Int.{ℤ, pos, ◌+ℤ◌, ltb_ℤ, wrap}
use omnicore_proxy.Base.Hex.{hex_encode}
use omnicore_proxy.Lndapi.Node.{PayReq, AddInvoiceResponse}
use omnicore_proxy.Lndapi.Payment.{invoice_amount, add_invoice, send_payment}
use omnicore_proxy.Toolrpc.Rows.{
  Spay, SpayStatus, user_payed, pay_end, refunded, UserNode, no_spay, is_pay_init, is_user_payed,
}
use omnicore_proxy.Toolrpc.Table.{kept}
use omnicore_proxy.Toolrpc.World.{Env, World, on_node, on_spays}
use omnicore_proxy.Toolrpc.LuckPk.{
  InvoiceState, settled, canceled, InvoiceUpdate, update_luck_pk_by_invoide,
}

-- The conditions of the queries.
unfoldable pub by_si_pay_hash : String → Spay → Bool
by_si_pay_hash h spay = if str_eq h "" then true else str_eq spay.si_pay_hash h

unfoldable pub runs_for : ℕ → ℤ → Spay → Bool
runs_for user_id now spay =
    spay.user_id == user_id && is_user_payed spay.status && ltb_ℤ now spay.expire

unfoldable pub is_refundable : ℤ → Spay → Bool
is_refundable now spay =
    is_user_payed spay.status && ltb_ℤ spay.expire now && not (str_eq spay.payer_invoice "")

unfoldable pub refunds_for : String → ℤ → Spay → Bool
unfolding is_refundable
refunds_for user_key now spay =
    if str_eq user_key ""
    then is_refundable now spay
    else str_eq spay.payer_addr user_key && is_refundable now spay

-- The condition of `isOnline`: a zero field is no condition.
unfoldable pub is_online_row : ℕ → String → UserNode → Bool
is_online_row user_id user_key un =
    (user_id == 0 || un.id == user_id)
    && (str_eq user_key "" || str_eq un.user_id_key user_key)
    && un.online == 1

-- The fields that a final state of the invoice writes, if any.
unfoldable pub spay_update : InvoiceUpdate → Option Spay
spay_update invoice = elim invoice.state [
  | settled ↦ some (record no_spay {
    status = user_payed;
    payer_addr = hex_encode invoice.payer_addr;
    expire = wrap (invoice.settle_date +ℤ invoice.expiry);
  })
  | canceled ↦ some (record no_spay { status = SpayStatus.error; err_msg = "Invoice_CANCELED" })
  | _ ↦ none
]

-- What a payment writes of a spay, by how it ended. `final` is the status of a success.
unfoldable pub payment_update : SpayStatus → Spay → ℕ → Result Bool → Spay
payment_update final spay spend (ok _) = record no_spay { status = final; pay_spend = spend }
payment_update final spay spend (err e) = record no_spay {
  err_msg = e;
  err_times = spay.err_times + 1;
  pay_spend = spend;
}

module _ (E : Env) where
  -- The row that `CreateSpay` writes: the client's, with five fields filled in.
  unfoldable pub with_server_invoice : Spay → ℕ → PayReq → AddInvoiceResponse → Spay
  with_server_invoice sy user_id p res = record sy {
    serv_invoice = res.payment_request;
    si_pay_hash = hex_encode res.r_hash;
    user_id = user_id;
    asset_id = p.asset_id;
    amt = invoice_amount p;
  }

  unfoldable pub create_spay : ℕ → Spay → Action (World E) Spay
  unfolding with_server_invoice add_invoice
  create_spay user_id sy = do
    p ← on_node (lift (E.node.decode_pay_req sy.user_invoice))
    res ← on_node (add_invoice E.node p.asset_id (invoice_amount p) p.expiry)
    on_spays (E.spays.save (with_server_invoice sy user_id p res))

  unfoldable pub is_online : ℕ → String → World E → Bool
  unfolding is_online_row
  is_online user_id user_key w = is_ok (E.users.first (is_online_row user_id user_key) w.users)

  -- `updateSpayByInvoide`, with the spay that its goroutine goes on to pay, if any.
  unfoldable pub update_spay_of : Spay → InvoiceUpdate → World E → World E × Option Spay
  unfolding spay_update
  update_spay_of sp invoice w =
      if is_pay_init sp.status
      then elim (spay_update invoice) [
        | none ↦ (w, none)
        | some u ↦
            let (r, s) = E.spays.updates sp u w.spays in
            (
              record w { spays = s },
              elim r [
                | err e ↦ none
                | ok sp' ↦ if is_user_payed sp'.status then some sp' else none
              ],
            )
      ]
      else (w, none)

  unfoldable pub update_spay_by_invoide : InvoiceUpdate → World E → World E × Option Spay
  unfolding by_si_pay_hash
  update_spay_by_invoide invoice w =
      elim (E.spays.first (by_si_pay_hash (hex_encode invoice.r_hash)) w.spays) [
        | err e ↦ (w, none)
        | ok sp ↦ update_spay_of sp invoice w
      ]

  -- The goroutine of `updateSpayByInvoide`.
  unfoldable pub pay_settled_spay : Spay → World E → World E
  pay_settled_spay sp w =
      let (r, n) = send_payment E.node sp.user_invoice w.node in
      let w' = record w { node = n } in
      elim r [
        | err e ↦ w'
        | ok _ ↦ record w' {
          spays = (E.spays.updates sp (record no_spay { status = pay_end }) w.spays).1;
        }
      ]

  -- One payment of a loop over spays, with its write and whether that succeeded.
  unfoldable pub pay_one : SpayStatus → String → ℕ → Spay → World E → Result Bool × Bool × World E
  unfolding payment_update
  pay_one final invoice spend spay w =
      let (r, n) = send_payment E.node invoice w.node in
      let (written, s) = E.spays.updates spay (payment_update final spay spend r) w.spays in
      (r, is_ok written, record w { node = n; spays = s })

  -- The loop of `runUserSpay`: a failed payment goes on with the next spay, a failed write of a
  -- payment that went through ends the loop. `spend` is what the clock measures for each spay.
  unfoldable pub run_spays : (Spay → ℕ) → List Spay → World E → World E
  unfolding pay_one
  run_spays spend [] w = w
  run_spays spend (spay ∷ spays) w =
      let (r, written, w') = pay_one pay_end spay.user_invoice (spend spay) spay w in
      let rest = run_spays spend spays w' in if is_ok r && not written then w' else rest

  unfoldable pub run_user_spay : (Spay → ℕ) → ℤ → ℕ → World E → World E
  unfolding run_spays runs_for
  run_user_spay spend now user_id w = elim (E.spays.find (runs_for user_id now) w.spays) [
    | err e ↦ w
    | ok spays ↦ run_spays spend spays w
  ]

  -- The loop of `refund`: a spay whose payer is offline is passed over in the job over all users,
  -- and the first failure ends the loop.
  unfoldable pub refund_spays : (Spay → ℕ) → String → List Spay → World E → World E
  unfolding pay_one is_online
  refund_spays spend user_key [] w = w
  refund_spays spend user_key (spay ∷ spays) w =
      let skipped = refund_spays spend user_key spays w in
      let (r, written, w') = pay_one refunded spay.payer_invoice (spend spay) spay w in
      let rest = refund_spays spend user_key spays w' in
      if str_eq user_key "" && not (is_online 0 spay.payer_addr w)
      then skipped
      else if is_ok r && written
      then rest
      else w'

  -- `refund`, under its mutex. The job asks for every user by an empty key.
  unfoldable pub refund : (Spay → ℕ) → ℤ → String → World E → World E
  unfolding refund_spays refunds_for is_online
  refund spend now user_key w =
      if not (str_eq user_key "") && not (is_online 0 user_key w)
      then w
      else elim (E.spays.find (refunds_for user_key now) w.spays) [
        | err e ↦ w
        | ok spays ↦ refund_spays spend user_key spays w
      ]

  -- What `MonitorInvoice` does with one update of an invoice.
  unfoldable pub on_invoice : InvoiceUpdate → World E → World E × Option Spay
  unfolding update_spay_by_invoide update_luck_pk_by_invoide
  on_invoice invoice w = elim invoice.state [
    | settled ↦
        let (w', task) = update_spay_by_invoide invoice w in
        (update_luck_pk_by_invoide E invoice w', task)
    | _ ↦ (w, none)
  ]
