-- ===== src/Toolrpc/LuckPk/Life.antt =====
-- The lucky packets under all operations of toolrpc/luckPk.go that change them, one behind the
-- other: `CreateLuckPk`, `updateLuckPkByInvoide` and `GiveLuckPk`.
use omnicore_proxy.Base.{
  ℕ, ◌*◌, ◌%◌, ◌≡◌, ◌≢◌, ◌<◌, ◌^◌, refl, inl, inr, List, [], ◌∷◌, String, some, ok, err, arith, All,
  Result-cases, Option-cases, Bool-cases,
}
use omnicore_proxy.Base.Hex.{hex_encode}
use omnicore_proxy.Base.Int.{ℤ, pos, signed}
use omnicore_proxy.Lndapi.Node.{AddInvoiceResponse}
use omnicore_proxy.Lndapi.Payment.{add_invoice}
use omnicore_proxy.Toolrpc.Rows.{LuckPk, LuckItem, is_init}
use omnicore_proxy.Toolrpc.Table.{IsUpdatable}
use omnicore_proxy.Toolrpc.World.{Env, World}
use omnicore_proxy.Toolrpc.Channels.Matched.{Creates}
use omnicore_proxy.Toolrpc.Monitor.Packets.{overlay_luck_pk}
use omnicore_proxy.Toolrpc.LuckPk.{
  InvoiceUpdate, InvoiceState, by_payment_hash, with_invoice, create_luck_pk, luck_pk_update,
  update_luck_pk_of, update_luck_pk_by_invoide,
}
use omnicore_proxy.Toolrpc.LuckPk.Give.{GiveLuckPkReq, settle, give_luck_pk}
use omnicore_proxy.Toolrpc.LuckPk.Give.Balance.{IsReliable, failed, gave}
use omnicore_proxy.Toolrpc.LuckPk.Give.Given.{
  Given, unchanged, claimed, DecodesAmounts, give_luck_pk-Given, Given-AllBalanced,
}
use omnicore_proxy.Toolrpc.LuckPk.Books.{
  IsSound, put-none, new-IsSound, same-IsSound, updated-IsSound,
}

-- A call or an invoice that the node reports.
pub data PacketOperation : Type 0 where
  created : ℕ → LuckPk → PacketOperation
  invoiced : InvoiceUpdate → PacketOperation
  given : ℤ → ℕ → GiveLuckPkReq → PacketOperation

-- What the client must send for the books to be right: `CreateLuckPk` takes the identifier and the
-- count of the given parts over from the message.
abbrev pub IsProper : PacketOperation → Type 0
IsProper (created user_id pk) =
    (pk.id ≡ 0) × (pk.gives ≡ 0) × (pk.amt < 2 ^ 63) × (pk.parts < 2 ^ 63)
IsProper (invoiced invoice) = Unit
IsProper (given now user_id req) = req.id ≢ 0

module _ (E : Env) where
  abbrev pub perform : PacketOperation → World E → World E
  perform (created user_id pk) w = (create_luck_pk E user_id pk w).1
  perform (invoiced invoice) w = update_luck_pk_by_invoide E invoice w
  perform (given now user_id req) w = (give_luck_pk E now user_id req w).1

  abbrev pub perform_all : List PacketOperation → World E → World E
  perform_all [] w = w
  perform_all (op ∷ ops) w = perform_all ops (perform op w)

module _ (E : Env) (lk_rows : E.luck_pks.State → List LuckPk)
    (item_rows : E.luck_items.State → List LuckItem) where
  -- The tables and the node do what they document.
  pub record DoesItsPart : Type 0 where
    pub reliable : IsReliable E lk_rows item_rows
    pub creates : Creates E.luck_pks lk_rows (λ x. x.id) (λ n r. record r { id = n })
    pub updatable : IsUpdatable E.luck_pks lk_rows (λ x. x.id) overlay_luck_pk
    pub amounts : DecodesAmounts E lk_rows item_rows

  Given-IsSound :
      {w w' : World E}
      → IsSound E lk_rows item_rows w
      → Given E lk_rows item_rows w w'
      → IsSound E lk_rows item_rows w'
  unfolding settle
  Given-IsSound i (unchanged same) = rw same i
  Given-IsSound {w} {w'} i (claimed lk n f g c (failed p same)) = record {
    balanced =
        Given-AllBalanced E lk_rows item_rows i.balanced (claimed lk n f g c (failed p same));
    owned = λ j h. ground (arith, i.owned j (rw same at h), p.amounts j, p.counts j);
  }
  Given-IsSound {w} {w'} i (claimed lk n f g c (gave p wrote)) = record {
    balanced = Given-AllBalanced E lk_rows item_rows i.balanced (claimed lk n f g c (gave p wrote));
    owned = λ j h.
        let (other, gone) =
          put-none E lk_rows item_rows j (settle lk (pos n)) (lk_rows w.luck_pks) (rw wrote at h) in
        ground (arith, i.owned j gone, p.amounts j, p.counts j);
  }

  -- The world behind a creation whose invoice the node gave.
  create_luck_pk_world :
      (user_id : ℕ) (pk : LuckPk) (w : World E) (res : AddInvoiceResponse)
      → let (asked, node) =
          add_invoice E.node (pk.asset_id % 2 ^ 32) (signed pk.amt) (pos (3600 * 24)) w.node in
        asked ≡ ok res
        → (create_luck_pk E user_id pk w).1 ≡ record w {
          luck_pks = (E.luck_pks.create (with_invoice E pk user_id res) w.luck_pks).1;
          node = node;
        }
  unfolding create_luck_pk with_invoice
  create_luck_pk_world user_id pk w res good = ground (arith, good)

  create_luck_pk_failed :
      (user_id : ℕ) (pk : LuckPk) (w : World E) (e : String)
      → let (asked, node) =
          add_invoice E.node (pk.asset_id % 2 ^ 32) (signed pk.amt) (pos (3600 * 24)) w.node in
        asked ≡ err e → (create_luck_pk E user_id pk w).1 ≡ record w { node = node }
  unfolding create_luck_pk
  create_luck_pk_failed user_id pk w e bad = ground (arith, bad)

  create_luck_pk-IsSound :
      DoesItsPart
      → (user_id : ℕ) (pk : LuckPk) (w : World E) → IsProper (created user_id pk)
      → IsSound E lk_rows item_rows w
      → IsSound E lk_rows item_rows (create_luck_pk E user_id pk w).1
  unfolding with_invoice
  create_luck_pk-IsSound D user_id pk w (z, none_given, a, p) i =
      let (asked, node) =
        add_invoice E.node (pk.asset_id % 2 ^ 32) (signed pk.amt) (pos (3600 * 24)) w.node in
      elim (Result-cases asked) [
        | inr (e, bad) ↦
            rw (create_luck_pk_failed user_id pk w e bad)
              (same-IsSound E lk_rows item_rows w.luck_pks node i refl)
        | inl (res, good) ↦
            let pk' = with_invoice E pk user_id res in
            let (stored, s) = E.luck_pks.create pk' w.luck_pks in
            rw (create_luck_pk_world user_id pk w res good) (elim (Result-cases stored) [
              | inr (e, bad) ↦
                  same-IsSound E lk_rows item_rows s node i
                    (D.creates.create-rows_failed pk' e w.luck_pks bad)
              | inl (row, made) ↦
                  let (wrote, kept) = D.creates.create-rows pk' row w.luck_pks made z in
                  let fresh = D.creates.create-fresh pk' row w.luck_pks made z in
                  new-IsSound E lk_rows item_rows row s node i wrote fresh (ground (arith, kept))
                    (ground (arith, kept)) (ground (arith, kept)) (ground (arith, kept))
            ])
      ]

  -- An update changes none of the numbers that the books are made of.
  keeps_numbers :
      (state : InvoiceState) (u x : LuckPk)
      → luck_pk_update E state ≡ some u
      → let y = overlay_luck_pk x u in
        (y.id ≡ x.id)
        × (y.amt ≡ x.amt)
        × (y.balance ≡ x.balance)
        × (y.gives ≡ x.gives)
        × (y.parts ≡ x.parts)
  unfolding luck_pk_update overlay_luck_pk
  keeps_numbers state u x h = (ground arith, ground arith, ground arith, ground arith, ground arith)

  update_luck_pk_of-IsSound :
      DoesItsPart
      → (lk : LuckPk) (state : InvoiceState) (w : World E) → IsSound E lk_rows item_rows w
      → IsSound E lk_rows item_rows (update_luck_pk_of E lk state w)
  unfolding update_luck_pk_of
  update_luck_pk_of-IsSound D lk state w i = elim (Bool-cases (is_init lk.status)) [
    | inr past ↦ rw (update_luck_pk_of, past) i
    | inl waiting ↦ elim (Option-cases (luck_pk_update E state)) [
      | inl nothing ↦ rw (update_luck_pk_of, waiting, nothing) i
      | inr (u, found) ↦
          rw (update_luck_pk_of, waiting, found)
            (elim (Result-cases (E.luck_pks.updates lk u w.luck_pks).0) [
              | inr (e, bad) ↦
                  same-IsSound E lk_rows item_rows (E.luck_pks.updates lk u w.luck_pks).1 w.node i
                    (D.updatable.updates-rows_failed lk u e w.luck_pks bad)
              | inl (r, good) ↦
                  updated-IsSound E lk_rows item_rows lk.id (λ x. overlay_luck_pk x u) _ i
                    (λ x. keeps_numbers state u x found)
                    (D.updatable.updates-rows lk u r w.luck_pks good).1
            ])
    ]
  ]

  update_luck_pk_by_invoide-IsSound :
      DoesItsPart
      → (invoice : InvoiceUpdate) (w : World E) → IsSound E lk_rows item_rows w
      → IsSound E lk_rows item_rows (update_luck_pk_by_invoide E invoice w)
  unfolding update_luck_pk_by_invoide
  update_luck_pk_by_invoide-IsSound D invoice w i =
      elim (Result-cases
        (E.luck_pks.first (by_payment_hash (hex_encode invoice.r_hash)) w.luck_pks)) [
          | inr (e, lost) ↦ rw (update_luck_pk_by_invoide, lost) i
          | inl (lk, found) ↦
              rw (update_luck_pk_by_invoide, found)
                (update_luck_pk_of-IsSound D lk invoice.state w i)
        ]

  perform-IsSound :
      DoesItsPart
      → (op : PacketOperation) (w : World E) → IsProper op
      → IsSound E lk_rows item_rows w
      → IsSound E lk_rows item_rows (perform E op w)
  perform-IsSound D (created user_id pk) w h i = create_luck_pk-IsSound D user_id pk w h i
  perform-IsSound D (invoiced invoice) w h i = update_luck_pk_by_invoide-IsSound D invoice w i
  perform-IsSound D (given now user_id req) w h i =
      Given-IsSound i
        (give_luck_pk-Given E lk_rows item_rows D.reliable D.amounts now user_id req w h i.balanced)

  -- Whatever creations, reported invoices and calls of `GiveLuckPk` come one behind the other, paid
  -- or failed: every packet stays balanced, so that its balance and its paid items add up to its
  -- amount, and its count of gives is the number of its paid items and within its parts; and no item
  -- is paid for a packet that there is not. The tables do what they document, no write of
  -- `GiveLuckPk` fails, the node decodes to amounts from 0 to 2 ^ 63 - 1, a call is for an
  -- identifier other than 0, and a creation comes without an identifier, with no part given and with
  -- amount and parts below 2 ^ 63.
  pub perform_all-IsSound :
      DoesItsPart
      → (ops : List PacketOperation) (w : World E) → All IsProper ops
      → IsSound E lk_rows item_rows w
      → IsSound E lk_rows item_rows (perform_all E ops w)
  perform_all-IsSound D [] w h i = i
  perform_all-IsSound D (op ∷ ops) w (h, hs) i =
      perform_all-IsSound D ops (perform E op w) hs (perform-IsSound D op w h i)
