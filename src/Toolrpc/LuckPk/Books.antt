-- ===== src/Toolrpc/LuckPk/Books.antt =====
-- The books of the lucky packets over the rows of the tables, and what keeps them right.
use omnicore_proxy.Base.{
  ℕ, ◌≡◌, ◌≢◌, ◌<◌, ◌^◌, inl, inr, ◌==◌, if◌then◌else◌, List, some, none, arith, find_first, map,
  Option-cases, Bool-cases,
}
use omnicore_proxy.Toolrpc.Rows.{LuckPk, LuckItem}
use omnicore_proxy.Toolrpc.Table.{put}
use omnicore_proxy.Toolrpc.Table.Put.{sum_by, find_first-put, find_first-map}
use omnicore_proxy.Toolrpc.World.{Env, World}
use omnicore_proxy.Toolrpc.LuckPk.{}
use omnicore_proxy.Toolrpc.LuckPk.Give.Items.{paid_amount, paid_parts}
use omnicore_proxy.Toolrpc.LuckPk.Give.Balance.{IsBalanced, AllBalanced}
use omnicore_proxy.Toolrpc.LuckPk.Give.Given.{}

module _ (E : Env) (lk_rows : E.luck_pks.State → List LuckPk)
    (item_rows : E.luck_items.State → List LuckItem) where
  -- The packets are balanced, and no item was paid for a packet that there is not.
  pub record IsSound (w : World E) : Type 0 where
    pub balanced : AllBalanced E lk_rows item_rows w
    pub owned :
        (j : ℕ)
        → find_first (λ x. x.id == j) (lk_rows w.luck_pks) ≡ none
        → (sum_by (paid_amount j) (item_rows w.luck_items) ≡ 0)
          × (sum_by (paid_parts j) (item_rows w.luck_items) ≡ 0)

  -- A write of a packet takes no row away.
  pub put-none :
      (j : ℕ) (lk : LuckPk) (rows : List LuckPk)
      → find_first (λ x. x.id == j) (put (λ x. x.id) lk rows) ≡ none
      → (lk.id ≢ j) × (find_first (λ x. x.id == j) rows ≡ none)
  put-none j lk rows h = (
    λ e. ground (arith, find_first-put (λ x. x.id) j lk rows),
    ground (arith, find_first-put (λ x. x.id) j lk rows),
  )

  -- A new packet, with the whole amount as its balance.
  pub new-IsSound :
      {w : World E} (lk : LuckPk) (s : E.luck_pks.State) (n : E.node.State)
      → IsSound w
      → lk_rows s ≡ put (λ x. x.id) lk (lk_rows w.luck_pks)
      → find_first (λ x. x.id == lk.id) (lk_rows w.luck_pks) ≡ none
      → lk.balance ≡ lk.amt
      → lk.gives ≡ 0
      → lk.amt < 2 ^ 63
      → lk.parts < 2 ^ 63
      → IsSound (record w { luck_pks = s; node = n })
  new-IsSound {w} lk s n i wrote fresh full none_given a p = record {
    balanced = record {
      each = λ j x h. elim (Bool-cases (lk.id == j)) [
        | inl here ↦
            let same : lk ≡ x =
              ground (arith, rw wrote at h, find_first-put (λ x. x.id) j lk (lk_rows w.luck_pks)) in
            let (no_amount, no_parts) = i.owned lk.id fresh in
            let balanced : IsBalanced (item_rows w.luck_items) lk = record {
              amounts = omega (arith, full, no_amount);
              counted = omega (arith, none_given, no_parts);
              within = omega (arith, none_given);
              fits = a;
              parts_fit = p;
            } in
            rw same at balanced
        | inr other ↦
            i.balanced.each j x
              (ground (arith, rw wrote at h, find_first-put (λ x. x.id) j lk (lk_rows w.luck_pks)))
      ];
      unique = i.balanced.unique;
    };
    owned = λ j h. i.owned j (put-none j lk (lk_rows w.luck_pks) (rw wrote at h)).1;
  }

  -- Packets that stay as they are.
  pub same-IsSound :
      {w : World E} (s : E.luck_pks.State) (n : E.node.State)
      → IsSound w
      → lk_rows s ≡ lk_rows w.luck_pks
      → IsSound (record w { luck_pks = s; node = n })
  same-IsSound s n i same = record {
    balanced = record {
      each = λ j x h. i.balanced.each j x (rw same at h);
      unique = i.balanced.unique;
    };
    owned = λ j h. i.owned j (rw same at h);
  }

  pub updated-IsSound :
      {w : World E} (k : ℕ) (g : LuckPk → LuckPk) (s : E.luck_pks.State)
      → IsSound w
      → ((x : LuckPk)
          → ((g x).id ≡ x.id)
            × ((g x).amt ≡ x.amt)
            × ((g x).balance ≡ x.balance)
            × ((g x).gives ≡ x.gives)
            × ((g x).parts ≡ x.parts))
      → lk_rows s ≡ map (λ x. if x.id == k then g x else x) (lk_rows w.luck_pks)
      → IsSound (record w { luck_pks = s })
  updated-IsSound {w} k g s i numbers wrote = record {
    balanced = record {
      each = λ j x h.
          let found = found_updated j in
          elim (Option-cases (find_first (λ y. y.id == j) (lk_rows w.luck_pks))) [
            | inl gone ↦ ground (arith, rw wrote at h, found)
            | inr (old, at) ↦ elim (Bool-cases (j == k)) [
              | inr other ↦ i.balanced.each j x (ground (arith, rw wrote at h, found))
              | inl here ↦
                  let same : g old ≡ x = ground (arith, rw wrote at h, found) in
                  rw same at (numbers_balanced old (i.balanced.each j old at))
            ]
          ];
      unique = i.balanced.unique;
    };
    owned = λ j h. i.owned j (ground (arith, rw wrote at h, found_updated j));
  }
    where
      found_updated :
          (j : ℕ)
          → find_first
              (λ x. x.id == j)
              (map (λ x. if x.id == k then g x else x) (lk_rows w.luck_pks))
            ≡ (if j == k
                then elim (find_first (λ x. x.id == j) (lk_rows w.luck_pks)) [
                  | none ↦ none
                  | some x ↦ some (g x)
                ]
                else find_first (λ x. x.id == j) (lk_rows w.luck_pks))
      found_updated j = find_first-map (λ x. x.id) j k g (lk_rows w.luck_pks) (λ x. (numbers x).0)

      numbers_balanced :
          (x : LuckPk)
          → IsBalanced (item_rows w.luck_items) x
          → IsBalanced (item_rows w.luck_items) (g x)
      numbers_balanced x b =
          let (id, amt, balance, gives, parts) = numbers x in
          record {
            amounts = rw (id, amt, balance) b.amounts;
            counted = rw (id, gives) b.counted;
            within = rw (gives, parts) b.within;
            fits = rw amt b.fits;
            parts_fit = rw parts b.parts_fit;
          }
