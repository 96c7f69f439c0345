-- ===== src/Tests/Loops.antt =====
-- The theorems on the loops of the payment server at concrete data.
use omnicore_proxy.Base.{◌+◌, ◌≤◌, ◌≡◌, refl, true, [], ◌∷◌, length, ok, some}
use omnicore_proxy.Base.Int.{pos}
use omnicore_proxy.Toolrpc.LuckPk.{InvoiceUpdate, InvoiceState}
use omnicore_proxy.Toolrpc.Spay.Status.{overlay}
use omnicore_proxy.Toolrpc.Rows.{Spay, SpayStatus, user_payed, refunded, no_spay}
use omnicore_proxy.Toolrpc.Spay.Race.{
  Shared, Steps, stay, and_then, clock, load_settled, settle_row, pay_user, refund_row, pay_payer,
  write_refund, created, counted, loaded, sent, on_settled, presence,
}
use omnicore_proxy.Toolrpc.Spay.Race.Once.{pending, refunds_at_most_once, refunds_for-unwritten}
use omnicore_proxy.Toolrpc.Spay.{
  payment_update, refunds_for, is_refundable, by_si_pay_hash, spay_update, update_spay_of,
  update_spay_by_invoide, on_invoice,
}
use omnicore_proxy.Base.Hex.{hex_encode}
use omnicore_proxy.Toolrpc.Monitor.{
  monitor_invoice, monitor, handle_all, handle_invoice, stream, broken, blocked,
}
use omnicore_proxy.Toolrpc.Monitor.Packets.{overlay_luck_pk}
use omnicore_proxy.Toolrpc.Monitor.Replay.{monitor_invoice_replay}
use omnicore_proxy.Tests.Memory.{memory-IsDependable}
use omnicore_proxy.Tests.Services.{env, world, waiting}

abbrev settlement : InvoiceUpdate
settlement = record {
  r_hash = 1 ∷ 2 ∷ [];
  state = InvoiceState.settled;
  payer_addr = 171 ∷ [];
  settle_date = pos 20;
  expiry = pos 3600;
}

abbrev later : InvoiceUpdate
later = record settlement { r_hash = 3 ∷ 4 ∷ [] }

monitor_invoice_replay_example :
    monitor_invoice env
      (stream (settlement ∷ []) broken ∷ stream (settlement ∷ later ∷ []) blocked ∷ [])
      world
    ≡ monitor_invoice env (stream (settlement ∷ later ∷ []) blocked ∷ []) world
monitor_invoice_replay_example =
    monitor_invoice_replay env (λ xs. xs) (λ xs. xs)
      (memory-IsDependable (λ x. x.id) (λ n r. record r { id = n }) overlay)
      (memory-IsDependable (λ x. x.id) (λ n r. record r { id = n }) overlay_luck_pk)
      (settlement ∷ []) (later ∷ []) blocked [] world

-- One payment is started.
monitor_invoice_once :
    length
      (monitor_invoice env
        (stream (settlement ∷ []) broken ∷ stream (settlement ∷ later ∷ []) blocked ∷ [])
        world).tasks
    ≡ 1
unfolding monitor_invoice monitor handle_all handle_invoice on_invoice update_spay_by_invoide
    update_spay_of hex_encode by_si_pay_hash spay_update overlay
monitor_invoice_once = refl

-- A row whose payer left an invoice for the refund.
abbrev refundable : Spay
refundable = record waiting { payer_invoice = "back"; amt = pos 5 }

-- What the settlement of an invoice that expires at once writes.
abbrev expiring : Spay
expiring = record no_spay { status = user_payed; payer_addr = "ab"; expire = pos 20 }

abbrev settled_row : Spay
settled_row = overlay (record refundable { status = SpayStatus.pay_init }) expiring

expiring-update : spay_update (record settlement { expiry = pos 0 }) ≡ some expiring
unfolding spay_update hex_encode
expiring-update = refl

settled_row-due : refunds_for "ab" (pos 21) settled_row ≡ true
unfolding overlay refunds_for is_refundable
settled_row-due = refl

abbrev settled_at_0 : Shared
settled_at_0 = record (created (pos 0) refundable) {
  row = settled_row;
  payouts = record { payer = on_settled; phase = loaded settled_row } ∷ [];
}

-- The invoice expires while the payment to the user is under way, and the payer is online.
abbrev expired : Shared
expired = record settled_at_0 { now = pos 21; online = λ key. true }

expired_run : Steps (created (pos 0) refundable) expired
unfolding overlay
expired_run =
    and_then
      (and_then
        (and_then (and_then stay (load_settled refl)) (
          settle_row (record settlement { expiry = pos 0 })
            (record refundable { status = SpayStatus.pay_init }) expiring refl refl
            expiring-update))
        (clock (pos 21) refl))
      (presence (λ key. true))

-- The payer gets the refund, and its write follows.
refunded_run : Steps (created (pos 0) refundable) (record expired {
  row = overlay settled_row (payment_update refunded settled_row 5 (ok true));
  payer_paid = 0 + counted (ok true);
})
refunded_run =
    and_then
      (and_then (and_then expired_run (refund_row "ab" refl refl refl settled_row-due))
        (pay_payer settled_row (ok true) refl))
      (write_refund settled_row 5 (ok true) refl)

refunds_at_most_once_example : 0 + counted (ok true) ≤ 0 + 0 + 1
refunds_at_most_once_example = refunds_at_most_once (pos 0) refundable _ refunded_run

-- The payment to the user has ended, and its write is to come.
abbrev unwritten : Shared
unwritten = record expired {
  payouts = record { payer = on_settled; phase = sent settled_row (ok true) } ∷ [];
  user_paid = 0 + counted (ok true);
}

unwritten_run : Steps (created (pos 0) refundable) unwritten
unwritten_run = and_then expired_run (pay_user [] [] on_settled settled_row (ok true) refl)

refunds_for-unwritten_example : unwritten.user_paid ≤ 0 + pending unwritten.payouts
refunds_for-unwritten_example =
    refunds_for-unwritten (pos 0) refundable unwritten "ab" unwritten_run refl settled_row-due
