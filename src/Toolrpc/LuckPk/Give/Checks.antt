-- ===== src/Toolrpc/LuckPk/Give/Checks.antt =====
-- What a call of `GiveLuckPk` that pays has checked.
use omnicore_proxy.Base.{
  ℕ, ◌≤◌, ◌<◌, ◌^◌, ◌≡◌, ◌≢◌, ◌⊎◌, inl, inr, ◌==◌, ok, none, arith, Result-cases, Option-cases,
  subst, ◌∙◌,
}
use omnicore_proxy.Base.Int.{ℤ, pos, ◌≤ℤ◌}
use omnicore_proxy.Lndapi.Node.{PayReq}
use omnicore_proxy.Lndapi.Payment.{invoice_amount}
use omnicore_proxy.Toolrpc.Rows.{LuckPk, LuckItem, work_ing, payed, paying, no_luck_item}
use omnicore_proxy.Toolrpc.World.{Env, World}
use omnicore_proxy.Toolrpc.LuckPk.Give.{
  GiveLuckPkReq, Claim, packet_error, item_error, amount_error, claim_item, check_claim, by_claim,
}

-- The packet is working, has parts left and has not expired.
pub record IsOpen (now : ℤ) (lk : LuckPk) : Type 0 where
  pub working : lk.status ≡ work_ing
  pub parts_left : lk.gives < lk.parts
  pub in_time : (lk.expired_time_sec ≤ℤ pos 0) ⊎ (now ≤ℤ lk.expired_time_sec)

pub packet_error-IsOpen : (now : ℤ) (lk : LuckPk) → packet_error now lk ≡ none → IsOpen now lk
unfolding packet_error
packet_error-IsOpen now lk h = ground arith

-- The amount is covered by the balance, and the invoice is in the packet's asset.
pub amount_error-covered :
    (lk : LuckPk) (asset_id n : ℕ)
    → lk.balance < 2 ^ 63
    → n < 2 ^ 63
    → amount_error lk asset_id (pos n) ≡ none
    → (n ≤ lk.balance) × (lk.asset_id ≡ asset_id)
unfolding amount_error
amount_error-covered lk asset_id n hb hn h = ground arith

-- The second test of the amount never fails: no amount within the balance is too large for one
-- part, not even the whole balance of a packet with many parts.
amount_error_no_part_limit :
    (lk : LuckPk) (n : ℕ)
    → lk.balance < 2 ^ 63
    → n ≤ lk.balance
    → amount_error lk lk.asset_id (pos n) ≡ none
unfolding amount_error
amount_error_no_part_limit lk n hb hn = ground arith

-- The item is new or is one of the user's and the packet's that was neither paid nor is being paid.
pub item_error-unpaid :
    (item : LuckItem) → item_error item ≡ none → (item.status ≢ payed) × (item.status ≢ paying)
unfolding item_error
item_error-unpaid item h = (λ e. ground arith, λ e. ground arith)

module _ (E : Env) where
  -- What the checks of a call have established of its claim.
  pub record IsChecked (now : ℤ) (user_id : ℕ) (req : GiveLuckPkReq) (w : World E) (c : Claim)
      : Type 0 where
    pub found : E.luck_pks.first (λ lk. lk.id == req.id) w.luck_pks ≡ ok c.lk
    pub is_open : IsOpen now c.lk
    pub own_item : claim_item E user_id req.id w ≡ ok c.item
    pub decoded :
        (p : PayReq) × (E.node.decode_pay_req req.invoice w.node ≡ ok p)
        × (invoice_amount p ≡ c.amt)
        × (amount_error c.lk p.asset_id c.amt ≡ none)

  claim_item-unpaid :
      (user_id luckpk_id : ℕ) (w : World E) (item : LuckItem)
      → claim_item E user_id luckpk_id w ≡ ok item
      → ((E.luck_items.first (by_claim user_id luckpk_id) w.luck_items ≡ ok item)
          ⊎ (item ≡ record no_luck_item { user_id = user_id; luckpk_id = luckpk_id }))
        × (item.status ≢ payed)
        × (item.status ≢ paying)
  unfolding claim_item
  claim_item-unpaid user_id luckpk_id w item h =
      elim (Result-cases (E.luck_items.first (by_claim user_id luckpk_id) w.luck_items)) [
        | inl (old, f) ↦ elim (Option-cases (item_error old)) [
          | inr (e, bad) ↦ ground arith
          | inl good ↦
              let same : old ≡ item = ground arith in
              let (a, b) = item_error-unpaid item (subst (λ i. item_error i ≡ none) same good) in
              (inl (ground arith), a, b)
        ]
        | inr (e, f) ↦ (inr (ground arith), λ p. ground arith, λ p. ground arith)
      ]

  pub check_claim-IsChecked :
      (now : ℤ) (user_id : ℕ) (req : GiveLuckPkReq) (w : World E) (c : Claim)
      → check_claim E now user_id req w ≡ ok c
      → IsChecked now user_id req w c
  unfolding check_claim
  check_claim-IsChecked now user_id req w c h =
      elim (Result-cases (E.luck_pks.first (λ lk. lk.id == req.id) w.luck_pks)) [
        | inr (e, f) ↦ ground arith
        | inl (lk, f) ↦ elim (Result-cases (claim_item E user_id req.id w)) [
          | inr (e, i) ↦ ground arith
          | inl (item, i) ↦ elim (Result-cases (E.node.decode_pay_req req.invoice w.node)) [
            | inr (e, d) ↦ ground arith
            | inl (p, d) ↦ record {
              found = ground arith;
              is_open = ground (arith, packet_error-IsOpen now lk);
              own_item = ground arith;
              decoded = (p, d, ground arith, ground arith);
            }
          ]
        ]
      ]

  -- A claim that passes the checks, of an amount from 0 to 2 ^ 63 - 1 and on a packet whose balance
  -- is below 2 ^ 63, is for the packet of the request, which is open. Its item is the one that the
  -- query for the user and the packet found, or a new one of them where that query failed, and it
  -- is neither paid nor being paid. Its amount is the invoice's, in the asset of the packet, and at
  -- most the balance.
  pub check_claim-allowed :
      (now : ℤ) (user_id : ℕ) (req : GiveLuckPkReq) (w : World E) (c : Claim) (n : ℕ)
      → check_claim E now user_id req w ≡ ok c
      → c.amt ≡ pos n
      → n < 2 ^ 63
      → c.lk.balance < 2 ^ 63
      → (E.luck_pks.first (λ lk. lk.id == req.id) w.luck_pks ≡ ok c.lk)
        × IsOpen now c.lk
        × ((E.luck_items.first (by_claim user_id req.id) w.luck_items ≡ ok c.item)
            ⊎ (c.item ≡ record no_luck_item { user_id = user_id; luckpk_id = req.id }))
        × (c.item.status ≢ payed)
        × (c.item.status ≢ paying)
        × ((p : PayReq) × (E.node.decode_pay_req req.invoice w.node ≡ ok p)
            × (invoice_amount p ≡ pos n)
            × (c.lk.asset_id ≡ p.asset_id))
        × (n ≤ c.lk.balance)
  check_claim-allowed now user_id req w c n h amt small fits =
      let k = check_claim-IsChecked now user_id req w c h in
      let (p, d, a, cov) = k.decoded in
      let (le, asset) =
        amount_error-covered c.lk p.asset_id n fits small
          (subst (λ a. amount_error c.lk p.asset_id a ≡ none) amt cov) in
      let (own, unpaid, unpaying) = claim_item-unpaid user_id req.id w c.item k.own_item in
      (k.found, k.is_open, own, unpaid, unpaying, (p, d, a ∙ amt, asset), le)
