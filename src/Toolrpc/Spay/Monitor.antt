-- ===== src/Toolrpc/Spay/Monitor.antt =====
-- `MonitorInvoice` of toolrpc/luckPk.go, one update of an invoice at a time.
use omnicore_proxy.Base.{◌≡◌, ◌≢◌, none, some, arith, Result-cases, Option-cases, ok, inl, inr}
use omnicore_proxy.Base.Hex.{hex_encode}
use omnicore_proxy.Toolrpc.Rows.{Spay, user_payed, pay_init}
use omnicore_proxy.Toolrpc.World.{Env, World}
use omnicore_proxy.Toolrpc.LuckPk.{InvoiceUpdate, settled}
use omnicore_proxy.Toolrpc.Spay.{
  by_si_pay_hash, spay_update, update_spay_of, update_spay_by_invoide, on_invoice,
}

module _ (E : Env) where
  -- An update that is not a settlement changes nothing, a cancellation included: the branches that
  -- write `Error` and `ErrorCreate` are not reached from the subscription.
  pub on_invoice_unsettled :
      (invoice : InvoiceUpdate) (w : World E)
      → invoice.state ≢ settled
      → on_invoice E invoice w ≡ (w, none)
  unfolding on_invoice
  on_invoice_unsettled invoice w h = ground arith

  -- The goroutine that pays the user is started only for a spay that was found by the invoice's
  -- hash with the status `PayINIT`, whose write succeeded and left it `UserPayed`.
  update_spay_by_invoide-task :
      (invoice : InvoiceUpdate) (w : World E) (sp' : Spay)
      → (update_spay_by_invoide E invoice w).1 ≡ some sp'
      → (sp : Spay) × (u : Spay) × (E.spays.first
            (by_si_pay_hash (hex_encode invoice.r_hash))
            w.spays
          ≡ ok sp)
        × (sp.status ≡ pay_init)
        × (spay_update invoice ≡ some u)
        × ((E.spays.updates sp u w.spays).0 ≡ ok sp')
        × (sp'.status ≡ user_payed)
  unfolding update_spay_by_invoide update_spay_of
  update_spay_by_invoide-task invoice w sp' h =
      elim (Result-cases (E.spays.first (by_si_pay_hash (hex_encode invoice.r_hash)) w.spays)) [
        | inr (e, f) ↦ ground arith
        | inl (sp, f) ↦ elim (Option-cases (spay_update invoice)) [
          | inl n ↦ ground arith
          | inr (u, s) ↦ (sp, u, f, ground arith, s, ground arith, ground arith)
        ]
      ]
