-- ===== src/Toolrpc/LuckPk/Give/Items.antt =====
-- The items of the lucky packets: what a call of `GiveLuckPk` writes of them, and how that changes
-- their sums.
use omnicore_proxy.Base.{
  ℕ, ◌+◌, ◌≡◌, ◌≢◌, refl, inl, inr, ◌==◌, if◌then◌else◌, ◌&&◌, true, false, List, some, none, ok,
  arith, find_first, find_first-holds, Result-cases, Bool-cases,
}
use omnicore_proxy.Base.Int.{ℤ, pos_part}
use omnicore_proxy.Toolrpc.Rows.{LuckItem, paying, is_payed}
use omnicore_proxy.Toolrpc.Table.{put, NodupIds, IsLawful}
use omnicore_proxy.Toolrpc.Table.Put.{
  sum_by, find_first-put, put-NodupIds, sum_by-put, find_first_by_id,
}
use omnicore_proxy.Toolrpc.World.{Env, World}
use omnicore_proxy.Toolrpc.LuckPk.Give.{by_claim, claim_item, save_item}
use omnicore_proxy.Toolrpc.LuckPk.Give.Checks.{}

-- What an item counts towards a packet: its amount and one part, once it is paid.
abbrev pub paid_amount : ℕ → LuckItem → ℕ
paid_amount j item = if item.luckpk_id == j && is_payed item.status then pos_part item.amt else 0

abbrev pub paid_parts : ℕ → LuckItem → ℕ
paid_parts j item = if item.luckpk_id == j && is_payed item.status then 1 else 0

module _ (E : Env) (item_rows : E.luck_items.State → List LuckItem) where
  -- The table does what it documents, and no write fails.
  pub record AreReliable : Type 0 where
    pub lawful : IsLawful E.luck_items item_rows (λ x. x.id) (λ n r. record r { id = n })
    pub saved :
        (r : LuckItem) (s : E.luck_items.State)
        → (r' : LuckItem) × ((E.luck_items.save r s).0 ≡ ok r')

  -- One write of an item.
  pub record Saved (item : LuckItem) (s : E.luck_items.State) (item' : LuckItem)
      (s' : E.luck_items.State) : Type 0 where
    pub written : item_rows s' ≡ put (λ x. x.id) item' (item_rows s)
    pub same : item' ≡ record item { id = item'.id }
    pub old_id : item.id ≢ 0 → item'.id ≡ item.id
    pub new_id : item.id ≡ 0 → find_first (λ x. x.id == item'.id) (item_rows s) ≡ none
    pub nonzero : item'.id ≢ 0

  pub save_item-Saved :
      AreReliable
      → (item : LuckItem) (w : World E)
      → Saved item w.luck_items (save_item E item w).0 (save_item E item w).1.luck_items
  unfolding save_item
  save_item-Saved R item w =
      let (r', e) = R.saved item w.luck_items in
      let (written, old, new) = R.lawful.save-rows item r' w.luck_items e in
      elim (Bool-cases (item.id == 0)) [
        | inl z ↦
            let (nonzero, same, fresh) = new (ground arith) in
            record {
              written = ground arith;
              same = ground arith;
              old_id = λ h. ground arith;
              new_id = λ h. ground arith;
              nonzero = λ h. ground arith;
            }
        | inr z ↦
            let same = old (λ h. ground arith) in
            record {
              written = ground arith;
              same = ground arith;
              old_id = λ h. ground arith;
              new_id = λ h. ground arith;
              nonzero = λ h. ground arith;
            }
      ]

  -- What the checks know of the item: it is new, or the row of its identifier, and unpaid.
  pub record IsOwn (luckpk_id : ℕ) (item : LuckItem) (s : E.luck_items.State) : Type 0 where
    pub packet : item.luckpk_id ≡ luckpk_id
    pub unpaid : is_payed item.status ≡ false
    pub stored : item.id ≢ 0 → find_first (λ x. x.id == item.id) (item_rows s) ≡ some item

  by_claim-packet :
      (user_id luckpk_id : ℕ) (item : LuckItem)
      → luckpk_id ≢ 0
      → by_claim user_id luckpk_id item ≡ true
      → item.luckpk_id ≡ luckpk_id
  unfolding by_claim
  by_claim-packet user_id luckpk_id item n h = ground arith

  pub claim_item-IsOwn :
      AreReliable
      → (user_id luckpk_id : ℕ) (w : World E) (item : LuckItem) → luckpk_id ≢ 0
      → NodupIds (λ x. x.id) (item_rows w.luck_items)
      → claim_item E user_id luckpk_id w ≡ ok item
      → IsOwn luckpk_id item w.luck_items
  unfolding claim_item
  claim_item-IsOwn R user_id luckpk_id w item n u h =
      elim (Result-cases (E.luck_items.first (by_claim user_id luckpk_id) w.luck_items)) [
        | inr (e, f) ↦ record {
          packet = ground arith;
          unpaid = ground arith;
          stored = λ k. ground arith;
        }
        | inl (found, f) ↦
            let row = R.lawful.first-rows (by_claim user_id luckpk_id) w.luck_items found f in
            let held = find_first-holds (by_claim user_id luckpk_id) _ found row in
            record {
              packet = ground (arith, by_claim-packet user_id luckpk_id found n held);
              unpaid = ground arith;
              stored = λ k. ground (arith, find_first_by_id (λ x. x.id) _ _ found u row);
            }
      ]

  -- The item's two writes, for a weight that only a paid item has.
  module _ (f : LuckItem → ℕ) (f-id : (n : ℕ) (r : LuckItem) → f (record r { id = n }) ≡ f r)
      (f-unpaid : (r : LuckItem) → is_payed r.status ≡ false → f r ≡ 0) where
    sum_by-paying :
        {luckpk_id : ℕ} {item : LuckItem} {s s' : E.luck_items.State} {item' : LuckItem} (amt : ℤ)
        → IsOwn luckpk_id item s
        → Saved (record item { status = paying; amt = amt }) s item' s'
        → sum_by f (item_rows s') ≡ sum_by f (item_rows s)
    sum_by-paying {item} {s} {item'} amt o v = rw v.written (
        ground (
          arith,
          sum_by-put (λ x. x.id) f item' (item_rows s),
          f-unpaid item,
          f-unpaid item',
          v.old_id,
          v.new_id,
          o.stored,
          Bool-cases (item.id == 0),
        ))

    -- The second write adds what the item then weighs.
    sum_by-final :
        {item item2 item' : LuckItem} {s s1 s2 : E.luck_items.State} {item2' : LuckItem}
        → Saved item s item' s1
        → is_payed item'.status ≡ false
        → item2.id ≡ item'.id
        → Saved item2 s1 item2' s2
        → sum_by f (item_rows s2) ≡ f item2 + sum_by f (item_rows s1)
    sum_by-final {item2} {item'} {s} {s1} {item2'} v u e v2 = rw v2.written (
        ground (
          arith,
          sum_by-put (λ x. x.id) f item2' (item_rows s1),
          f-unpaid item' u,
          f-id item2'.id item2,
          v2.same,
          v2.old_id,
          v.nonzero,
          v.written,
          find_first-put (λ x. x.id) item2'.id item' (item_rows s),
        ))

  -- What a call has done to the items, by the parts and the amount that it paid for one packet.
  pub record Paid (luckpk_id parts amount : ℕ) (s s' : E.luck_items.State) : Type 0 where
    pub amounts :
        (j : ℕ)
        → sum_by (paid_amount j) (item_rows s')
          ≡ (if luckpk_id == j then amount else 0) + sum_by (paid_amount j) (item_rows s)
    pub counts :
        (j : ℕ)
        → sum_by (paid_parts j) (item_rows s')
          ≡ (if luckpk_id == j then parts else 0) + sum_by (paid_parts j) (item_rows s)
    pub unique : NodupIds (λ x. x.id) (item_rows s')

  abbrev parts_of : LuckItem → ℕ
  parts_of item = if is_payed item.status then 1 else 0

  abbrev amount_of : LuckItem → ℕ
  amount_of item = if is_payed item.status then pos_part item.amt else 0

  pub both_writes-Paid :
      {luckpk_id : ℕ} {item item2 item' item2' : LuckItem} {s s1 s2 : E.luck_items.State} (amt : ℤ)
      → IsOwn luckpk_id item s
      → NodupIds (λ x. x.id) (item_rows s)
      → Saved (record item { status = paying; amt = amt }) s item' s1
      → Saved item2 s1 item2' s2
      → item2.id ≡ item'.id
      → item2.luckpk_id ≡ item'.luckpk_id
      → Paid luckpk_id (parts_of item2) (amount_of item2) s s2
  both_writes-Paid {luckpk_id} {item} {item2} {item'} {item2'} {s} {s1} {s2} amt o u v v2 e e' =
      record {
        amounts = λ j. ground (
          arith,
          v.same,
          o.packet,
          sum_by-paying (paid_amount j) (λ n r. refl) (λ r h. ground arith) amt o v,
          sum_by-final (paid_amount j) (λ n r. refl) (λ r h. ground arith) v
              (ground (arith, v.same)) e v2,
        );
        counts = λ j. ground (
          arith,
          v.same,
          o.packet,
          sum_by-paying (paid_parts j) (λ n r. refl) (λ r h. ground arith) amt o v,
          sum_by-final (paid_parts j) (λ n r. refl) (λ r h. ground arith) v (ground (arith, v.same))
              e v2,
        );
        unique =
            rw (v2.written, v.written)
              (put-NodupIds (λ x. x.id) item2' _ (put-NodupIds (λ x. x.id) item' _ u));
      }
