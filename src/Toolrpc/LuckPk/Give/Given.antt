-- ===== src/Toolrpc/LuckPk/Give/Given.antt =====
-- What a call of `GiveLuckPk` on balanced packets comes to.
use omnicore_proxy.Base.{
  ℕ, ◌≤◌, ◌<◌, ◌^◌, ◌≡◌, ◌≢◌, refl, inl, inr, ◌==◌, String, List, some, ok, arith, find_first,
  find_first-holds, Result-cases, sym, ◌∙◌, subst,
}
use omnicore_proxy.Base.Int.{ℤ, pos}
use omnicore_proxy.Lndapi.Node.{PayReq}
use omnicore_proxy.Lndapi.Payment.{invoice_amount}
use omnicore_proxy.Toolrpc.Rows.{LuckPk, LuckItem}
use omnicore_proxy.Toolrpc.World.{Env, World}
use omnicore_proxy.Toolrpc.LuckPk.Give.{GiveLuckPkReq, Claim, pay_claim, check_claim, give_luck_pk}
use omnicore_proxy.Toolrpc.LuckPk.Give.Checks.{
  IsChecked, check_claim-IsChecked, amount_error-covered,
}
use omnicore_proxy.Toolrpc.LuckPk.Give.Items.{IsOwn, claim_item-IsOwn}
use omnicore_proxy.Toolrpc.LuckPk.Give.Balance.{
  AllBalanced, IsReliable, Outcome, pay_claim-Outcome, Outcome-AllBalanced,
}

module _ (E : Env) (lk_rows : E.luck_pks.State → List LuckPk)
    (item_rows : E.luck_items.State → List LuckItem) where
  -- A call on balanced packets changes nothing, or is the payment of an amount that the packet
  -- covers, which has parts left.
  pub data Given (w w' : World E) : Type 0 where
    unchanged : w' ≡ w → Given w w'
    claimed :
        (lk : LuckPk) (n : ℕ)
        → find_first (λ x. x.id == lk.id) (lk_rows w.luck_pks) ≡ some lk
        → lk.gives < lk.parts
        → n ≤ lk.balance
        → Outcome E lk_rows item_rows lk n w w'
        → Given w w'

  -- The node decodes every invoice to an amount from 0 to 2 ^ 63 - 1.
  abbrev pub DecodesAmounts : Type 0
  DecodesAmounts =
      (p : PayReq) (r : String) (s : E.node.State)
      → E.node.decode_pay_req r s ≡ ok p
      → (n : ℕ) × (n < 2 ^ 63) × (invoice_amount p ≡ pos n)

  pay_claim-Given :
      IsReliable E lk_rows item_rows
      → DecodesAmounts
      → (now : ℤ) (user_id : ℕ) (req : GiveLuckPkReq) (w : World E) (c : Claim) → req.id ≢ 0
      → AllBalanced E lk_rows item_rows w
      → IsChecked E now user_id req w c
      → Given w (pay_claim E req.invoice c w).1
  pay_claim-Given R amounts now user_id req w c nz a k =
      let (p, d, am, cov) = k.decoded in
      let (n, small, e) = amounts p req.invoice w.node d in
      let amt : c.amt ≡ pos n = sym am ∙ e in
      let found = R.lks.first-rows (λ lk. lk.id == req.id) w.luck_pks c.lk k.found in
      let here : c.lk.id ≡ req.id =
        ground (arith, find_first-holds (λ lk. lk.id == req.id) _ c.lk found) in
      let found' : find_first (λ lk. lk.id == c.lk.id) (lk_rows w.luck_pks) ≡ some c.lk =
        subst (λ i. find_first (λ lk. lk.id == i) (lk_rows w.luck_pks) ≡ some c.lk) (sym here)
          found in
      let b = a.each req.id c.lk found in
      let covered =
        amount_error-covered c.lk p.asset_id n (omega (arith, b.amounts, b.fits)) small
          (rw amt at cov) in
      let own =
        subst (λ i. IsOwn E item_rows i c.item w.luck_items) (sym here)
          (claim_item-IsOwn E item_rows R.items user_id req.id w c.item nz a.unique k.own_item) in
      claimed c.lk n found' k.is_open.parts_left covered.0 (
        subst
          (λ m.
            Outcome E lk_rows item_rows c.lk n w
              (pay_claim E req.invoice (record { lk = c.lk; item = c.item; amt = m }) w).1)
          (sym amt)
          (pay_claim-Outcome E lk_rows item_rows R req.invoice c.lk c.item n w own a.unique
            (λ z. nz (sym here ∙ z))))

  pub give_luck_pk-Given :
      IsReliable E lk_rows item_rows
      → DecodesAmounts
      → (now : ℤ) (user_id : ℕ) (req : GiveLuckPkReq) (w : World E) → req.id ≢ 0
      → AllBalanced E lk_rows item_rows w
      → Given w (give_luck_pk E now user_id req w).1
  unfolding give_luck_pk
  give_luck_pk-Given R amounts now user_id req w nz a =
      elim (Result-cases (check_claim E now user_id req w)) [
        | inr (e, h) ↦ rw (h, give_luck_pk) (unchanged refl)
        | inl (c, h) ↦
            rw (h, give_luck_pk)
              (pay_claim-Given R amounts now user_id req w c nz a
                (check_claim-IsChecked E now user_id req w c h))
      ]

  pub Given-AllBalanced :
      {w w' : World E}
      → AllBalanced E lk_rows item_rows w
      → Given w w'
      → AllBalanced E lk_rows item_rows w'
  Given-AllBalanced a (unchanged same) = rw same a
  Given-AllBalanced a (claimed lk n f g c o) = Outcome-AllBalanced E lk_rows item_rows a f g c o
