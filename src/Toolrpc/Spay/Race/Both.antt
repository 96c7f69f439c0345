-- ===== src/Toolrpc/Spay/Race/Both.antt =====
-- The row of toolrpc/luckPk.go whose invoice expires while its user is being paid, and the one that
-- `HeartBeat` saves over a refund.
use omnicore_proxy.Base.{[], ◌∷◌, true}
use omnicore_proxy.Base.Int.{pos}
use omnicore_proxy.Toolrpc.Rows.{Spay, SpayStatus, user_payed, no_spay}
use omnicore_proxy.Toolrpc.LuckPk.{InvoiceUpdate, InvoiceState}
use omnicore_proxy.Toolrpc.Spay.Status.{overlay}
use omnicore_proxy.Toolrpc.Spay.Race.{on_settled, loaded, Shared, answered, created}

abbrev settlement : InvoiceUpdate
settlement = record {
  r_hash = [];
  state = InvoiceState.settled;
  payer_addr = 171 ∷ [];
  settle_date = pos 1;
  expiry = pos 0;
}

abbrev expiring : Spay
expiring = record no_spay { status = user_payed; payer_addr = "ab"; expire = pos 1 }

-- The settled row, and the one with the payer's invoice for the refund.
abbrev paid_row : Spay → Spay
paid_row row = overlay (record row { status = SpayStatus.pay_init }) expiring

abbrev due_row : Spay → Spay
due_row row = answered (paid_row row) "back" (paid_row row).amt (paid_row row).asset_id

-- The payer, who is online, has left an invoice for the refund behind the expiry, while the payment
-- to the user is under way.
abbrev due : Spay → Shared
due row = record (created (pos 0) row) {
  now = pos 2;
  row = due_row row;
  online = λ key. true;
  payouts = record { payer = on_settled; phase = loaded (paid_row row) } ∷ [];
}
