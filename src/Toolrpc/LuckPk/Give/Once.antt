-- ===== src/Toolrpc/LuckPk/Give/Once.antt =====
-- The items of the lucky packets over any sequence of calls of `GiveLuckPk`: who was paid for which
-- packet.
use omnicore_proxy.Base.{
  ℕ, ◌≡◌, sym, subst, ◌≢◌, refl, inl, inr, ◌==◌, Bool, false, List, [], ◌∷◌, none, Result, ok, err,
  String, arith, find_first, Result-cases, All,
}
use omnicore_proxy.Base.Int.{ℤ}
use omnicore_proxy.Lndapi.Payment.{send_payment}
use omnicore_proxy.Toolrpc.Rows.{LuckPk, LuckItem, LuckItemStatus, payed, paying, is_payed}
use omnicore_proxy.Toolrpc.Table.Put.{find_first_by_id}
use omnicore_proxy.Toolrpc.World.{Env, World}
use omnicore_proxy.Toolrpc.LuckPk.Give.{
  GiveLuckPkReq, Claim, by_claim, claim_item, save_item, finish_claim, pay_claim, check_claim,
  give_luck_pk,
}
use omnicore_proxy.Toolrpc.LuckPk.Give.Checks.{check_claim-IsChecked}
use omnicore_proxy.Toolrpc.LuckPk.Give.Items.{AreReliable, save_item-Saved}
use omnicore_proxy.Toolrpc.LuckPk.Give.Writes.{
  OnePerUser, Settles, IsWritable, none-belongs, write-OnePerUser, write-Settles,
  written-IsWritable,
}

-- One call, by when, by whom and for what.
pub record GiveCall : Type 0 where
  pub now : ℤ
  pub user_id : ℕ
  pub req : GiveLuckPkReq

abbrev pub IsKnown : GiveCall → Type 0
IsKnown call = (call.user_id ≢ 0) × (call.req.id ≢ 0)

-- Calls in a row, whatever each gives.
abbrev pub give_all : (E : Env) → List GiveCall → World E → World E
give_all E [] w = w
give_all E (call ∷ calls) w = give_all E calls (give_luck_pk E call.now call.user_id call.req w).1

module _ (E : Env) (item_rows : E.luck_items.State → List LuckItem) where
  -- The item that a call writes, and the rows behind its write.
  save_writable :
      AreReliable E item_rows
      → (item : LuckItem) (w : World E) → IsWritable item (item_rows w.luck_items)
      → OnePerUser (item_rows w.luck_items)
      → OnePerUser (item_rows (save_item E item w).1.luck_items)
        × Settles (item_rows w.luck_items) (item_rows (save_item E item w).1.luck_items)
  save_writable R item w i o =
      let v = save_item-Saved E item_rows R item w in
      (write-OnePerUser E item_rows i v o, write-Settles E item_rows i v)

  claim_item-IsWritable :
      AreReliable E item_rows
      → ((p : LuckItem → Bool) (s : E.luck_items.State) (e : String)
          → E.luck_items.first p s ≡ err e
          → find_first p (item_rows s) ≡ none)
      → (user_id luckpk_id : ℕ) (w : World E) (item : LuckItem) → user_id ≢ 0
      → luckpk_id ≢ 0
      → OnePerUser (item_rows w.luck_items)
      → claim_item E user_id luckpk_id w ≡ ok item
      → IsWritable item (item_rows w.luck_items) × (is_payed item.status ≡ false)
  unfolding claim_item
  claim_item-IsWritable R finds user_id luckpk_id w item nu nj o h =
      elim (Result-cases (E.luck_items.first (by_claim user_id luckpk_id) w.luck_items)) [
        | inr (e, f) ↦
            let nobody = finds (by_claim user_id luckpk_id) w.luck_items e f in
            (
              record {
                fresh = λ z u j a b.
                    none-belongs user_id luckpk_id u j (item_rows w.luck_items) nu nj nobody
                      (ground arith) (ground arith);
                replaces = λ nz. ground arith;
              },
              ground arith,
            )
        | inl (row, f) ↦
            let held = R.lawful.first-rows (by_claim user_id luckpk_id) w.luck_items row f in
            let at = find_first_by_id (λ x. x.id) _ _ row o.unique held in
            let same : row ≡ item = ground arith in
            let unpaid : is_payed row.status ≡ false = ground arith in
            rw (sym same) (
              record {
                fresh = λ z u j a b.
                    let nothing =
                      subst (λ n. find_first (λ y. y.id == n) (item_rows w.luck_items) ≡ none)
                        (sym z) o.stored in
                    ground (arith, nothing, at);
                replaces = λ nz. (row, at, refl, refl, unpaid);
              },
              unpaid,
            )
      ]

  -- The two writes of a call that pays, or the writes of one that fails.
  finish_claim-OnePerUser :
      AreReliable E item_rows
      → (lk : LuckPk) (item : LuckItem) (amt : ℤ) (r : Result Bool) (w : World E)
      → ((item2 : LuckItem)
          → item2.id ≡ item.id
          → item2.user_id ≡ item.user_id
          → item2.luckpk_id ≡ item.luckpk_id
          → IsWritable item2 (item_rows w.luck_items))
      → OnePerUser (item_rows w.luck_items)
      → let w' = (finish_claim E lk item amt r w).1 in
        OnePerUser (item_rows w'.luck_items)
        × Settles (item_rows w.luck_items) (item_rows w'.luck_items)
  unfolding finish_claim
  finish_claim-OnePerUser R lk item amt (err e) w again o =
      save_writable R (record item { status = LuckItemStatus.error; err_msg = e }) w
        (again _ refl refl refl) o
  finish_claim-OnePerUser R lk item amt (ok b) w again o =
      save_writable R (record item { status = payed }) w (again _ refl refl refl) o

  pay_claim-OnePerUser :
      AreReliable E item_rows
      → (invoice : String) (c : Claim) (w : World E) → IsWritable c.item (item_rows w.luck_items)
      → OnePerUser (item_rows w.luck_items)
      → let w' = (pay_claim E invoice c w).1 in
        OnePerUser (item_rows w'.luck_items)
        × Settles (item_rows w.luck_items) (item_rows w'.luck_items)
  unfolding pay_claim save_item
  pay_claim-OnePerUser R invoice c w i o =
      let item = record c.item { status = paying; amt = c.amt } in
      let i' : IsWritable item (item_rows w.luck_items) = record {
        fresh = i.fresh;
        replaces = i.replaces;
      } in
      let v = save_item-Saved E item_rows R item w in
      let (o1, s1) = save_writable R item w i' o in
      let (item', w') = save_item E item w in
      let (r, n) = send_payment E.node invoice w'.node in
      let (o2, s2) =
        finish_claim-OnePerUser R c.lk item' c.amt r (record w' { node = n })
          (λ item2 e user packet.
            written-IsWritable E item_rows i' v item2 e user packet (ground (arith, v.same)))
          o1 in
      (o2, λ k x found paid. s2 k x (s1 k x found paid) paid)

  -- The table of the items does what it documents, no write of it fails, and no query fails that
  -- has a row to find.
  pub record AnswersQueries : Type 0 where
    pub reliable : AreReliable E item_rows
    pub finds :
        (p : LuckItem → Bool) (s : E.luck_items.State) (e : String)
        → E.luck_items.first p s ≡ err e
        → find_first p (item_rows s) ≡ none

  give_luck_pk-OnePerUser :
      AnswersQueries
      → (now : ℤ) (user_id : ℕ) (req : GiveLuckPkReq) (w : World E) → user_id ≢ 0
      → req.id ≢ 0
      → OnePerUser (item_rows w.luck_items)
      → let w' = (give_luck_pk E now user_id req w).1 in
        OnePerUser (item_rows w'.luck_items)
        × Settles (item_rows w.luck_items) (item_rows w'.luck_items)
  unfolding give_luck_pk
  give_luck_pk-OnePerUser A now user_id req w nu nj o =
      elim (Result-cases (check_claim E now user_id req w)) [
        | inr (e, h) ↦ rw (h, give_luck_pk) (o, λ k x found paid. found)
        | inl (c, h) ↦
            let own = (check_claim-IsChecked E now user_id req w c h).own_item in
            let (i, unpaid) =
              claim_item-IsWritable A.reliable A.finds user_id req.id w c.item nu nj o own in
            rw (h, give_luck_pk) (pay_claim-OnePerUser A.reliable req.invoice c w i o)
      ]

  -- Whatever calls of `GiveLuckPk` come one behind the other, by known users for packets with an
  -- identifier, paid or failed: no user comes to have two items for one packet, and an item that was
  -- paid stays as it was. So no user is paid twice for one packet.
  pub give_all-OnePerUser :
      AnswersQueries
      → (calls : List GiveCall) (w : World E) → All IsKnown calls
      → OnePerUser (item_rows w.luck_items)
      → let w' = give_all E calls w in
        OnePerUser (item_rows w'.luck_items)
        × Settles (item_rows w.luck_items) (item_rows w'.luck_items)
  give_all-OnePerUser A [] w known o = (o, λ k x found paid. found)
  give_all-OnePerUser A (call ∷ calls) w ((nu, nj), known) o =
      let (o1, s1) = give_luck_pk-OnePerUser A call.now call.user_id call.req w nu nj o in
      let (o2, s2) = give_all-OnePerUser A calls _ known o1 in
      (o2, λ k x found paid. s2 k x (s1 k x found paid) paid)
