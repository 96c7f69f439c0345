-- ===== src/Toolrpc/LuckPk/Give.antt =====
-- `GiveLuckPk` of toolrpc/luckPk.go: the checks before the payment, which only read, and the
-- payment with its writes.
pub mod Checks
pub mod Items
pub mod Balance
pub mod Given
pub mod Writes
pub mod Once
use omnicore_proxy.Base.{
  ℕ, ◌+◌, ◌-◌, ◌/◌, ◌%◌, ◌^◌, String, ◌<>◌, Bool, true, false, not, ◌&&◌, ◌||◌, ltb, leb, ◌==◌,
  if◌then◌else◌, Option, none, some, Result, ok, err, and_then, unless, Action,
}
use omnicore_proxy.Base.Int.{ℤ, pos, ◌-ℤ◌, ltb_ℤ, signed, unsigned, wrap}
use omnicore_proxy.Base.Text.{itoa}
use omnicore_proxy.Lndapi.Payment.{invoice_amount, send_payment}
use omnicore_proxy.Toolrpc.Rows.{
  LuckPk, LuckItem, LuckItemStatus, payed, paying, end, no_luck_item, is_work_ing, is_paying,
  is_payed, luck_pk_status_name,
}
use omnicore_proxy.Toolrpc.Table.{kept}
use omnicore_proxy.Toolrpc.World.{Env, World}

pub record GiveLuckPkReq : Type 0 where
  pub id : ℕ
  pub invoice : String

-- What the checks establish: the packet, the user's item and the amount to pay.
pub record Claim : Type 0 where
  pub lk : LuckPk
  pub item : LuckItem
  pub amt : ℤ

-- The condition of `db.First(litem, litem)`: a zero field is no condition.
unfoldable pub by_claim : ℕ → ℕ → LuckItem → Bool
by_claim user_id luckpk_id item =
    (user_id == 0 || item.user_id == user_id) && (luckpk_id == 0 || item.luckpk_id == luckpk_id)

-- The status, the number of parts and the time limit.
unfoldable pub packet_error : ℤ → LuckPk → Option String
packet_error now lk =
    if not (is_work_ing lk.status)
    then some
        ("luckyPacket status is " <> luck_pk_status_name lk.status <> " " <> lk.error_create_msg)
    else if leb lk.parts lk.gives
    then some ("Exceeded the total number of lucky packets, the total is " <> itoa lk.parts)
    else if ltb_ℤ (pos 0) lk.expired_time_sec && ltb_ℤ lk.expired_time_sec now
    then some "lucky packets expried"
    else none

-- An item that was found.
unfoldable pub item_error : LuckItem → Option String
item_error item =
    if is_paying item.status
    then some "your lucky packet is being paid, please wait a moment."
    else if is_payed item.status
    then some "You have already received the lucky packet, you cannot claim it twice."
    else none

-- The checks on the amount. The quotient and the difference are uint64, so the second test
-- compares an unsigned number with 0.
unfoldable pub amount_error : LuckPk → ℕ → ℤ → Option String
amount_error lk asset_id amt =
    if ltb_ℤ (wrap (signed lk.balance -ℤ amt)) (pos 0)
    then some "luckyPackge balance is insufficient"
    else if ltb ((lk.balance / lk.parts + 2 ^ 64 - unsigned amt) % 2 ^ 64) 0
    then some "single withdrawal amount exceeds"
    else if not (lk.asset_id == asset_id)
    then some ("missmatch assetid " <> itoa asset_id <> " " <> itoa lk.asset_id)
    else none

-- The packet after a payment of the amount.
unfoldable pub settle : LuckPk → ℤ → LuckPk
settle lk amt =
    let gives = (lk.gives + 1) % 2 ^ 64 in
    record lk {
      gives = gives;
      balance = (lk.balance + 2 ^ 64 - unsigned amt) % 2 ^ 64;
      status = if gives == lk.parts then end else lk.status;
    }

module _ (E : Env) where
  -- The user's item: the one found, unless it is being paid or was paid, or a new one. Any error
  -- of the query counts as not found.
  unfoldable pub claim_item : ℕ → ℕ → World E → Result LuckItem
  unfolding by_claim item_error
  claim_item user_id luckpk_id w =
      elim (E.luck_items.first (by_claim user_id luckpk_id) w.luck_items) [
        | ok item ↦ unless (item_error item) (ok item)
        | err e ↦ ok (record no_luck_item { user_id = user_id; luckpk_id = luckpk_id })
      ]

  unfoldable pub check_claim : ℤ → ℕ → GiveLuckPkReq → World E → Result Claim
  unfolding packet_error amount_error
  check_claim now user_id req w =
      and_then (E.luck_pks.first (λ lk. lk.id == req.id) w.luck_pks) λ lk.
        unless (packet_error now lk) (
          and_then (claim_item user_id req.id w) λ item.
            and_then (E.node.decode_pay_req req.invoice w.node) λ p.
              unless (amount_error lk p.asset_id (invoice_amount p))
                (ok (record { lk = lk; item = item; amt = invoice_amount p })))

  -- `db.Save(litem)`, its error dropped.
  unfoldable pub save_item : LuckItem → World E → LuckItem × World E
  save_item item w =
      let (item', s) = kept item (E.luck_items.save item w.luck_items) in
      (item', record w { luck_items = s })

  -- The writes behind the payment, by how it ended.
  unfoldable pub finish_claim :
      LuckPk → LuckItem → ℤ → Result Bool → World E → Result (Unit {0}) × World E
  unfolding save_item settle
  finish_claim lk item amt (err e) w =
      (err e, (save_item (record item { status = LuckItemStatus.error; err_msg = e }) w).1)
  finish_claim lk item amt (ok _) w =
      let w' = (save_item (record item { status = payed }) w).1 in
      let (r, s) = E.luck_pks.save (settle lk amt) w'.luck_pks in
      (and_then r (λ _. ok tt), record w' { luck_pks = s })

  unfoldable pub pay_claim : String → Claim → Action (World E) (Unit {0})
  unfolding finish_claim
  pay_claim invoice c w =
      let (item, w') = save_item (record c.item { status = paying; amt = c.amt }) w in
      let (r, n) = send_payment E.node invoice w'.node in
      finish_claim c.lk item c.amt r (record w' { node = n })

  unfoldable pub give_luck_pk : ℤ → ℕ → GiveLuckPkReq → Action (World E) (Unit {0})
  give_luck_pk now user_id req w = elim (check_claim now user_id req w) [
    | err e ↦ (err e, w)
    | ok c ↦ pay_claim req.invoice c w
  ]
