-- ===== src/Lndapi/Payment.antt =====
-- lndapi/rpc.go: invoices and payments through the node.
pub mod Laws
use omnicore_proxy.Base.{
  ℕ, String, ◌<>◌, List, [], Bool, true, false, ltb, ◌==◌, if◌then◌else◌, Result, ok, err, and_then,
  Action, pure, fail, lift, ◌>>=◌,
}
use omnicore_proxy.Base.Int.{ℤ, pos, ◌*ℤ◌, leb_ℤ, quot_ℤ, wrap}
use omnicore_proxy.Lndapi.Node.{
  Node, PayReq, InvoiceReq, AddInvoiceResponse, SendPaymentRequest, Payment,
}

abbrev pub routing_fee_100_percent_up_to : ℤ
routing_fee_100_percent_up_to = pos 1000000

abbrev pub default_routing_fee_percentage : ℕ
default_routing_fee_percentage = 5

-- The product is an int64, so it wraps around.
unfoldable pub default_routing_fee_limit_for_amount : ℤ → ℤ
default_routing_fee_limit_for_amount a =
    if leb_ℤ a routing_fee_100_percent_up_to
    then a
    else quot_ℤ (wrap (a *ℤ default_routing_fee_percentage)) 100

-- The amount of an invoice as the services compare it: units of the asset, or satoshis of the
-- millisatoshis that a bitcoin invoice states. `CreateSpay`, `HeartBeat` and `GiveLuckPk` each
-- compute it so.
unfoldable pub invoice_amount : PayReq → ℤ
invoice_amount p = if p.asset_id == 0 then quot_ℤ p.amt_msat 1000 else p.amount

-- The invoice that `AddInvoice` asks for. The product is an int64.
unfoldable pub invoice_req : ℕ → ℤ → ℤ → InvoiceReq
invoice_req asset_id amount expire_sec = record {
  asset_id = asset_id;
  value_msat = if ltb 0 asset_id then pos 0 else wrap (amount *ℤ 1000);
  amount = if ltb 0 asset_id then amount else pos 0;
  expiry = expire_sec;
  refundable = true;
}

module _ (N : Node) where
  unfoldable pub add_invoice : ℕ → ℤ → ℤ → Action N.State AddInvoiceResponse
  add_invoice asset_id amount expire_sec = N.add_invoice (invoice_req asset_id amount expire_sec)

  -- The amount that the fee limit is taken of.
  unfoldable pub routed_amount : PayReq → ℤ
  routed_amount p = if p.asset_id == N.btc_asset_id then p.amt_msat else p.amount

  -- The request that `Sendpayment` makes of a decoded invoice.
  unfoldable pub payment_of : String → PayReq → SendPaymentRequest
  unfolding routed_amount default_routing_fee_limit_for_amount
  payment_of pay_req p = record {
    asset_id = p.asset_id;
    payment_request = pay_req;
    amt_msat = pos 0;
    asset_amt = pos 0;
    dest = [];
    key_send = [];
    payment_hash = [];
    fee_limit_msat = default_routing_fee_limit_for_amount (routed_amount p);
    no_inflight_updates = true;
    timeout_seconds = 100;
  }

  unfoldable pub settled : Payment → Action N.State Bool
  settled p =
      if p.succeeded
      then pure true
      else fail ("err pay invoice with status " <> p.status <> ", reason " <> p.failure_reason)

  unfoldable pub send_payment : String → Action N.State Bool
  unfolding settled
  send_payment pay_req = do
    p ← lift (N.decode_pay_req pay_req)
    stream ← N.send_payment (payment_of pay_req p)
    payment ← N.recv stream
    settled payment

  -- `SendpaymentRefund`: a spontaneous payment of the invoice's amount to the refund address,
  -- which the caller hands over decoded. `preimage` is what `rand.Read` gives, and `hash` its hash.
  unfoldable pub refund_of : PayReq → List ℕ → List ℕ → List ℕ → SendPaymentRequest
  unfolding routed_amount default_routing_fee_limit_for_amount
  refund_of p dest preimage hash = record {
    asset_id = p.asset_id;
    payment_request = "";
    amt_msat = p.amt_msat;
    asset_amt = if p.asset_id == N.btc_asset_id then pos 0 else p.amount;
    dest = dest;
    key_send = preimage;
    payment_hash = hash;
    fee_limit_msat = default_routing_fee_limit_for_amount (routed_amount p);
    no_inflight_updates = true;
    timeout_seconds = 5;
  }

  unfoldable pub refunded : Payment → Action N.State Bool
  refunded p = if p.succeeded then pure true else fail ("err pay invoice with status " <> p.status)

  unfoldable pub send_payment_refund :
      (List ℕ → List ℕ) → Result (List ℕ) → String → List ℕ → Action N.State Bool
  unfolding refund_of refunded
  send_payment_refund hash rand raw_invoice refund_address = do
    p ← lift (N.decode_pay_req raw_invoice)
    preimage ← lift (λ _. rand)
    stream ← N.send_payment (refund_of p refund_address preimage (hash preimage))
    payment ← N.recv stream
    refunded payment
