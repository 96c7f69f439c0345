-- ===== src/Toolrpc/LuckPk/Give/Writes.antt =====
-- The writes of the items of the lucky packets, and whose items there are.
use omnicore_proxy.Base.{
  ℕ, ◌≤◌, ◌≡◌, sym, subst, ◌≢◌, refl, inl, inr, ◌==◌, ◌&&◌, if◌then◌else◌, true, false, List, [],
  ◌∷◌, some, none, arith, find_first, Bool-cases,
}
use omnicore_proxy.Toolrpc.Rows.{LuckItem, is_payed}
use omnicore_proxy.Toolrpc.Table.{NodupIds}
use omnicore_proxy.Toolrpc.Table.Put.{sum_by, find_first-put, put-NodupIds, sum_by-put}
use omnicore_proxy.Toolrpc.World.{Env}
use omnicore_proxy.Toolrpc.LuckPk.Give.{by_claim}
use omnicore_proxy.Toolrpc.LuckPk.Give.Items.{Saved}

-- An item of one user and one packet.
abbrev pub belongs : ℕ → ℕ → LuckItem → ℕ
belongs u j item = if item.user_id == u && item.luckpk_id == j then 1 else 0

-- Every item has an identifier of its own, and no user has two for one packet.
pub record OnePerUser (rows : List LuckItem) : Type 0 where
  pub unique : NodupIds (λ x. x.id) rows
  pub stored : find_first (λ x. x.id == 0) rows ≡ none
  pub once : (u j : ℕ) → u ≢ 0 → j ≢ 0 → sum_by (belongs u j) rows ≤ 1

-- What was paid stays as it is.
abbrev pub Settles : List LuckItem → List LuckItem → Type 0
Settles rows rows' =
    (k : ℕ) (x : LuckItem)
    → find_first (λ y. y.id == k) rows ≡ some x
    → is_payed x.status ≡ true
    → find_first (λ y. y.id == k) rows' ≡ some x

-- An item that a call may write: it is new, and the user has none for the packet, or it stands for
-- the user's unpaid one.
pub record IsWritable (item : LuckItem) (rows : List LuckItem) : Type 0 where
  pub fresh :
      item.id ≡ 0
      → (u j : ℕ) → item.user_id ≡ u
      → item.luckpk_id ≡ j
      → sum_by (belongs u j) rows ≡ 0
  pub replaces :
      item.id ≢ 0
      → (old : LuckItem) × (find_first (λ x. x.id == item.id) rows ≡ some old)
        × (old.user_id ≡ item.user_id)
        × (old.luckpk_id ≡ item.luckpk_id)
        × (is_payed old.status ≡ false)

pub none-belongs :
    (u j u' j' : ℕ) (rows : List LuckItem)
    → u ≢ 0
    → j ≢ 0
    → find_first (by_claim u j) rows ≡ none
    → u ≡ u'
    → j ≡ j'
    → sum_by (belongs u' j') rows ≡ 0
unfolding by_claim
none-belongs u j u' j' [] nu nj h e k = refl
none-belongs u j u' j' (x ∷ xs) nu nj h e k = ground (arith, none-belongs u j u' j' xs nu nj)

module _ (E : Env) (item_rows : E.luck_items.State → List LuckItem) where
  -- One write of an item that may be written.
  module _ {item item' : LuckItem} {s s' : E.luck_items.State} (w : IsWritable item (item_rows s))
      (v : Saved E item_rows item s item' s') where
    write-once :
        (u j : ℕ) → sum_by (belongs u j) (item_rows s) ≤ 1 → sum_by (belongs u j) (item_rows s') ≤ 1
    write-once u j h = rw v.written (elim (Bool-cases (item.id == 0)) [
      | inl new ↦
          let z : item.id ≡ 0 = ground arith in
          ground (
            arith,
            sum_by-put (λ x. x.id) (belongs u j) item' (item_rows s),
            v.new_id z,
            v.same,
            w.fresh z u j,
          )
      | inr old ↦
          let nz : item.id ≢ 0 = λ h. ground arith in
          let (x, found, user, packet, unpaid) = w.replaces nz in
          ground
            (arith, sum_by-put (λ x. x.id) (belongs u j) item' (item_rows s), v.old_id nz, v.same)
    ])

    pub write-OnePerUser : OnePerUser (item_rows s) → OnePerUser (item_rows s')
    write-OnePerUser o = record {
      unique = rw v.written (put-NodupIds (λ x. x.id) item' _ o.unique);
      stored =
          rw v.written
            (ground (arith, find_first-put (λ x. x.id) 0 item' (item_rows s), v.nonzero, o.stored));
      once = λ u j nu nj. write-once u j (o.once u j nu nj);
    }

    pub write-Settles : Settles (item_rows s) (item_rows s')
    write-Settles k x found paid = rw v.written (elim (Bool-cases (item.id == 0)) [
      | inl new ↦
          ground (arith, find_first-put (λ x. x.id) k item' (item_rows s), v.new_id (ground arith))
      | inr old ↦
          let nz : item.id ≢ 0 = λ h. ground arith in
          let (row, at, user, packet, unpaid) = w.replaces nz in
          elim (Bool-cases (item.id == k)) [
            | inl here ↦
                let e : item.id ≡ k = ground arith in
                let same = subst (λ n. find_first (λ y. y.id == n) (item_rows s) ≡ some row) e at in
                ground (arith, same)
            | inr other ↦
                ground (arith, find_first-put (λ x. x.id) k item' (item_rows s), v.old_id nz)
          ]
    ])

    -- The row that a write leaves, where it is not paid, can be written again.
    pub written-IsWritable :
        (item2 : LuckItem)
        → item2.id ≡ item'.id
        → item2.user_id ≡ item'.user_id
        → item2.luckpk_id ≡ item'.luckpk_id
        → is_payed item'.status ≡ false
        → IsWritable item2 (item_rows s')
    written-IsWritable item2 e user packet unpaid = record {
      fresh = λ z u j. ground (arith, v.nonzero);
      replaces = λ nz. (
        item',
        rw v.written (ground (arith, find_first-put (λ x. x.id) item2.id item' (item_rows s))),
        sym user,
        sym packet,
        unpaid,
      );
    }
