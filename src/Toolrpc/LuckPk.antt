-- ===== src/Toolrpc/LuckPk.antt =====
-- The lucky packets of toolrpc/luckPk.go: creating one, what the settled invoice does, the queries,
-- and giving a part. The mutex `payLock` makes each call of `GiveLuckPk` one step of its own.
pub mod Give
pub mod Books
pub mod Life
use omnicore_proxy.Base.{
  ℕ, ◌+◌, ◌*◌, ◌%◌, ◌^◌, String, List, [], Option, none, some, Bool, true, false, ◌&&◌, ◌==◌,
  str_eq, if◌then◌else◌, Result, ok, err, Action, pure, fail, lift, attempt, ◌>>=◌, ◌>>◌, length,
}
use omnicore_proxy.Base.Int.{ℤ, pos, signed}
use omnicore_proxy.Base.Hex.{hex_encode}
use omnicore_proxy.Lndapi.Node.{AddInvoiceResponse}
use omnicore_proxy.Lndapi.Payment.{add_invoice}
use omnicore_proxy.Toolrpc.Rows.{
  LuckPk, LuckItem, LuckPkStatus, init, work_ing, error_create, no_luck_pk, is_init,
}
use omnicore_proxy.Toolrpc.World.{Env, World, on_node, on_luck_pks, on_luck_items}

-- The state of an invoice that the node reports.
pub data InvoiceState : Type 0 where
  open_ settled canceled accepted : InvoiceState

-- The fields of `lnrpc.Invoice` that the service reads of an update.
pub record InvoiceUpdate : Type 0 where
  pub r_hash : List ℕ
  pub state : InvoiceState
  pub payer_addr : List ℕ
  pub settle_date : ℤ
  pub expiry : ℤ

-- The condition of `db.First(lk, lk)` on a struct that only has a payment hash: a zero field is no
-- condition.
unfoldable pub by_payment_hash : String → LuckPk → Bool
by_payment_hash h lk = if str_eq h "" then true else str_eq lk.payment_hash h

unfoldable pub by_luckpk_id : ℕ → LuckItem → Bool
by_luckpk_id i item = item.luckpk_id == i

module _ (E : Env) where
  -- The lucky packet that `CreateLuckPk` writes: the client's, with the invoice, the user and the
  -- balance filled in.
  unfoldable pub with_invoice : LuckPk → ℕ → AddInvoiceResponse → LuckPk
  with_invoice pk user_id res = record pk {
    invoice = res.payment_request;
    payment_hash = hex_encode res.r_hash;
    user_id = user_id;
    balance = pk.amt;
  }

  unfoldable pub create_luck_pk : ℕ → LuckPk → Action (World E) LuckPk
  unfolding with_invoice
  create_luck_pk user_id pk = do
    res ← on_node (add_invoice E.node (pk.asset_id % 2 ^ 32) (signed pk.amt) (pos (3600 * 24)))
    on_luck_pks (E.luck_pks.create (with_invoice pk user_id res))

  -- The fields that a final state of the invoice writes, if any.
  unfoldable pub luck_pk_update : InvoiceState → Option LuckPk
  luck_pk_update settled = some (record no_luck_pk { status = work_ing })
  luck_pk_update canceled =
      some (record no_luck_pk { status = error_create; error_create_msg = "Invoice_CANCELED" })
  luck_pk_update _ = none

  unfoldable pub update_luck_pk_of : LuckPk → InvoiceState → World E → World E
  unfolding luck_pk_update
  update_luck_pk_of lk state w =
      if is_init lk.status
      then elim (luck_pk_update state) [
        | none ↦ w
        | some u ↦ record w { luck_pks = (E.luck_pks.updates lk u w.luck_pks).1 }
      ]
      else w

  -- `updateLuckPkByInvoide`. It returns nothing: its errors are logged.
  unfoldable pub update_luck_pk_by_invoide : InvoiceUpdate → World E → World E
  unfolding update_luck_pk_of by_payment_hash
  update_luck_pk_by_invoide invoice w =
      elim (E.luck_pks.first (by_payment_hash (hex_encode invoice.r_hash)) w.luck_pks) [
        | err e ↦ w
        | ok lk ↦ update_luck_pk_of lk invoice.state w
      ]

  unfoldable pub get_luck_pk_info : ℕ → World E → Result LuckPk
  get_luck_pk_info i w = E.luck_pks.first (λ lk. lk.id == i) w.luck_pks

  unfoldable pub list_luck_item : ℕ → World E → Result (List LuckItem)
  unfolding by_luckpk_id
  list_luck_item i w = E.luck_items.find (by_luckpk_id i) w.luck_items

  -- The count, the items and the error of `ListLuckPk`: the result is returned beside an error.
  unfoldable pub list_luck_pk : ℕ → World E → ℕ × List LuckPk × Option String
  list_luck_pk user_id w = elim (E.luck_pks.count (λ lk. lk.user_id == user_id) w.luck_pks) [
    | err e ↦ (0, [], some e)
    | ok n ↦ elim (E.luck_pks.find (λ lk. lk.user_id == user_id) w.luck_pks) [
      | err e ↦ (n, [], some e)
      | ok items ↦ (n, items, none)
    ]
  ]

  unfoldable pub startup_luck_pk : LuckPk → World E → Result LuckPk × World E
  startup_luck_pk pk w =
      let pk' = record pk { status = work_ing } in
      let (_, s) = E.luck_pks.save pk' w.luck_pks in (ok pk', record w { luck_pks = s })
