-- ===== src/Toolrpc/LuckPk/Give/Balance.antt =====
-- The money of the lucky packets behind `GiveLuckPk` of toolrpc/luckPk.go: what the packets still
-- hold against what their items were paid.
use omnicore_proxy.Base.{
  ℕ, ◌+◌, ◌≤◌, ◌<◌, ◌^◌, ◌≡◌, ◌≢◌, refl, inl, inr, ◌==◌, if◌then◌else◌, String, Bool, List, some,
  Result, ok, err, arith, find_first, find_first-holds, Bool-cases, ap, sym, ◌∙◌,
}
use omnicore_proxy.Base.Int.{ℤ, pos, pos_part}
use omnicore_proxy.Lndapi.Payment.{send_payment}
use omnicore_proxy.Toolrpc.Rows.{LuckPk, LuckItem, LuckItemStatus, payed, paying}
use omnicore_proxy.Toolrpc.Table.{put, NodupIds, IsLawful}
use omnicore_proxy.Toolrpc.Table.Put.{sum_by, find_first-put}
use omnicore_proxy.Toolrpc.World.{Env, World}
use omnicore_proxy.Toolrpc.LuckPk.Give.{settle, save_item, finish_claim, pay_claim}
use omnicore_proxy.Toolrpc.LuckPk.Give.Checks.{}
use omnicore_proxy.Toolrpc.LuckPk.Give.Items.{
  paid_amount, paid_parts, AreReliable, Saved, IsOwn, Paid, save_item-Saved, both_writes-Paid,
}

-- A packet against the items: nothing is lost or paid twice.
pub record IsBalanced (items : List LuckItem) (lk : LuckPk) : Type 0 where
  pub amounts : lk.balance + sum_by (paid_amount lk.id) items ≡ lk.amt
  pub counted : lk.gives ≡ sum_by (paid_parts lk.id) items
  pub within : lk.gives ≤ lk.parts
  pub fits : lk.amt < 2 ^ 63
  pub parts_fit : lk.parts < 2 ^ 63

module _ (E : Env) (lk_rows : E.luck_pks.State → List LuckPk)
    (item_rows : E.luck_items.State → List LuckItem) where
  -- Every packet that can be found is balanced, and no two items share an identifier.
  pub record AllBalanced (w : World E) : Type 0 where
    pub each :
        (j : ℕ) (lk : LuckPk)
        → find_first (λ x. x.id == j) (lk_rows w.luck_pks) ≡ some lk
        → IsBalanced (item_rows w.luck_items) lk
    pub unique : NodupIds (λ x. x.id) (item_rows w.luck_items)

  -- The database does what it documents, and no write fails.
  pub record IsReliable : Type 0 where
    pub lks : IsLawful E.luck_pks lk_rows (λ x. x.id) (λ n r. record r { id = n })
    pub items : AreReliable E item_rows
    pub lk_saved :
        (r : LuckPk) (s : E.luck_pks.State) → (r' : LuckPk) × ((E.luck_pks.save r s).0 ≡ ok r')

  -- What a call that pays leaves behind: a failed payment changes no count and no packet, and a
  -- payment counts one part and its amount, in the items and in the packet.
  pub data Outcome (lk : LuckPk) (n : ℕ) (w w' : World E) : Type 0 where
    failed :
        Paid E item_rows lk.id 0 0 w.luck_items w'.luck_items
        → lk_rows w'.luck_pks ≡ lk_rows w.luck_pks
        → Outcome lk n w w'
    gave :
        Paid E item_rows lk.id 1 n w.luck_items w'.luck_items
        → lk_rows w'.luck_pks ≡ put (λ x. x.id) (settle lk (pos n)) (lk_rows w.luck_pks)
        → Outcome lk n w w'

  settle-id : (lk : LuckPk) (amt : ℤ) → (settle lk amt).id ≡ lk.id
  unfolding settle
  settle-id lk amt = refl

  finish_claim-Outcome :
      IsReliable
      → {item item' : LuckItem} (lk : LuckPk) (n : ℕ) (r : Result Bool) (w v : World E)
      → IsOwn E item_rows lk.id item w.luck_items
      → NodupIds (λ x. x.id) (item_rows w.luck_items)
      → Saved E item_rows
          (record item { status = paying; amt = pos n })
          w.luck_items
          item'
          v.luck_items
      → v.luck_pks ≡ w.luck_pks
      → lk.id ≢ 0
      → Outcome lk n w (finish_claim E lk item' (pos n) r v).1
  unfolding finish_claim
  finish_claim-Outcome R {item'} lk n (err e) w v o u s same nz =
      let item2 = record item' { status = LuckItemStatus.error; err_msg = e } in
      failed
        (both_writes-Paid E item_rows (pos n) o u s (save_item-Saved E item_rows R.items item2 v)
          refl refl)
        (ground arith)
  finish_claim-Outcome R {item'} lk n (ok b) w v o u s same nz =
      let item2 = record item' { status = payed } in
      let (w', e) = R.lk_saved (settle lk (pos n)) v.luck_pks in
      let (written, old, _) = R.lks.save-rows (settle lk (pos n)) w' v.luck_pks e in
      let as_is = old (λ z. nz (sym (settle-id lk (pos n)) ∙ z)) in
      gave
        (rw (ap pos_part (ap (λ x. x.amt) s.same)) at (
          both_writes-Paid E item_rows (pos n) o u s (save_item-Saved E item_rows R.items item2 v)
            refl refl))
        (written ∙ rw (as_is, same))

  pub pay_claim-Outcome :
      IsReliable
      → (invoice : String) (lk : LuckPk) (item : LuckItem) (n : ℕ) (w : World E)
      → IsOwn E item_rows lk.id item w.luck_items
      → NodupIds (λ x. x.id) (item_rows w.luck_items)
      → lk.id ≢ 0
      → Outcome lk n w (pay_claim E invoice (record { lk = lk; item = item; amt = pos n }) w).1
  unfolding pay_claim save_item
  pay_claim-Outcome R invoice lk item n w o u nz =
      let item1 = record item { status = paying; amt = pos n } in
      let (item', w1) = save_item E item1 w in
      let (r, node) = send_payment E.node invoice w1.node in
      finish_claim-Outcome R lk n r w (record w1 { node = node }) o u
        (save_item-Saved E item_rows R.items item1 w) refl nz

  -- One part of a packet that has parts and funds left keeps its balance.
  settle-IsBalanced :
      (lk : LuckPk) (n : ℕ) (s s' : E.luck_items.State)
      → IsBalanced (item_rows s) lk
      → lk.gives < lk.parts
      → n ≤ lk.balance
      → Paid E item_rows lk.id 1 n s s'
      → IsBalanced (item_rows s') (settle lk (pos n))
  unfolding settle
  settle-IsBalanced lk n s s' b g c p = ground (arith, p.amounts lk.id, p.counts lk.id)

  pub Outcome-AllBalanced :
      {lk : LuckPk} {n : ℕ} {w w' : World E}
      → AllBalanced w
      → find_first (λ x. x.id == lk.id) (lk_rows w.luck_pks) ≡ some lk
      → lk.gives < lk.parts
      → n ≤ lk.balance
      → Outcome lk n w w'
      → AllBalanced w'
  unfolding settle
  Outcome-AllBalanced {lk} {n} {w} {w'} a f g c (failed p same) = record {
    each = λ j x h. ground (arith, a.each j x (rw same at h), p.amounts x.id, p.counts x.id);
    unique = p.unique;
  }
  Outcome-AllBalanced {lk} {n} {w} {w'} a f g c (gave p wrote) = record {
    each = λ j x h. elim (Bool-cases (lk.id == j)) [
      | inl here ↦
          let e : settle lk (pos n) ≡ x = ground (arith, h, wrote, found_settled j) in
          rw e at (settle-IsBalanced lk n w.luck_items w'.luck_items (a.each lk.id lk f) g c p)
      | inr other ↦
          let old : find_first (λ y. y.id == j) (lk_rows w.luck_pks) ≡ some x =
            ground (arith, h, wrote, found_settled j) in
          ground (
            arith,
            find_first-holds (λ y. y.id == j) _ x old,
            a.each j x old,
            p.amounts x.id,
            p.counts x.id,
          )
    ];
    unique = p.unique;
  }
    where
      found_settled :
          (j : ℕ)
          → find_first (λ y. y.id == j) (put (λ y. y.id) (settle lk (pos n)) (lk_rows w.luck_pks))
            ≡ (if lk.id == j
                then some (settle lk (pos n))
                else find_first (λ y. y.id == j) (lk_rows w.luck_pks))
      found_settled j = find_first-put (λ y. y.id) j (settle lk (pos n)) _
