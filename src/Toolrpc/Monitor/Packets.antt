-- ===== src/Toolrpc/Monitor/Packets.antt =====
-- A packet whose settled invoice `updateLuckPkByInvoide` of toolrpc/luckPk.go has dealt with.
use omnicore_proxy.Base.{
  ℕ, ◌≡◌, inl, inr, refl, ◌==◌, Bool, false, if◌then◌else◌, str_eq, String, List, some, arith,
  Result-cases, Option-cases, Bool-cases,
}
use omnicore_proxy.Base.Hex.{hex_encode}
use omnicore_proxy.Base.Int.{pos, eqb_ℤ}
use omnicore_proxy.Toolrpc.Rows.{LuckPk, is_init}
use omnicore_proxy.Toolrpc.World.{Env, World}
use omnicore_proxy.Toolrpc.LuckPk.{
  InvoiceUpdate, settled, by_payment_hash, update_luck_pk_of, luck_pk_update,
  update_luck_pk_by_invoide,
}
use omnicore_proxy.Toolrpc.Spay.{}
use omnicore_proxy.Toolrpc.Monitor.Past.{
  IsDependable, IsPast, failed-IsPast, ok-IsPast, updates-IsPast, updates-IsPast_found,
}

-- The packet `x` with the fields of `u` that are not zero: what gorm writes for `Updates(u)`.
unfoldable pub overlay_luck_pk : LuckPk → LuckPk → LuckPk
overlay_luck_pk x u =
    let text = λ (a b : String). if str_eq b "" then a else b in
    let number = λ (a b : ℕ). if b == 0 then a else b in
    record {
      id = number x.id u.id;
      user_id = number x.user_id u.user_id;
      user_alias = text x.user_alias u.user_alias;
      asset_id = number x.asset_id u.asset_id;
      amt = number x.amt u.amt;
      balance = number x.balance u.balance;
      payment_hash = text x.payment_hash u.payment_hash;
      parts = number x.parts u.parts;
      gives = number x.gives u.gives;
      status = if is_init u.status then x.status else u.status;
      expired_time_sec =
          if eqb_ℤ u.expired_time_sec (pos 0) then x.expired_time_sec else u.expired_time_sec;
      invoice = text x.invoice u.invoice;
      error_create_msg = text x.error_create_msg u.error_create_msg;
    }

-- The fields that are written hold no hash, and a status that is not the initial one.
luck_pk_update-fields :
    (E : Env) (invoice : InvoiceUpdate) (u : LuckPk)
    → luck_pk_update E invoice.state ≡ some u
    → (u.payment_hash ≡ "") × (is_init u.status ≡ false)
unfolding luck_pk_update
luck_pk_update-fields E invoice u e = (ground arith, ground arith)

luck_pk_update-settled :
    (E : Env) (invoice : InvoiceUpdate)
    → invoice.state ≡ settled
    → (u : LuckPk) × (luck_pk_update E invoice.state ≡ some u)
unfolding luck_pk_update
luck_pk_update-settled E invoice e = rw e (_, refl)

-- Such fields keep what the query asks for, and lead out of the initial state.
overlay_luck_pk-by_payment_hash :
    (h : String) (x u : LuckPk)
    → u.payment_hash ≡ ""
    → by_payment_hash h (overlay_luck_pk x u) ≡ by_payment_hash h x
unfolding overlay_luck_pk by_payment_hash
overlay_luck_pk-by_payment_hash h x u e = rw e refl

overlay_luck_pk-past :
    (x u : LuckPk) → is_init u.status ≡ false → is_init (overlay_luck_pk x u).status ≡ false
unfolding overlay_luck_pk
overlay_luck_pk-past x u e = rw e e

abbrev is_new : LuckPk → Bool
is_new pk = is_init pk.status

module _ (E : Env) (rows : E.luck_pks.State → List LuckPk)
    (S : IsDependable E.luck_pks rows (λ x. x.id) overlay_luck_pk) where
  -- The packet behind a hash, if there is one, has left its initial state.
  abbrev pub LuckPkPast : String → World E → Type 0
  LuckPkPast h w = IsPast is_new (by_payment_hash h) (rows w.luck_pks)

  update_luck_pk_of-keeps :
      (h : String) (sp : LuckPk) (invoice : InvoiceUpdate) (w : World E)
      → LuckPkPast h w
      → LuckPkPast h (update_luck_pk_of E sp invoice.state w)
  unfolding update_luck_pk_of
  update_luck_pk_of-keeps h sp invoice w past =
      elim (Option-cases (luck_pk_update E invoice.state)) [
        | inl n ↦ elim (Bool-cases (is_init sp.status)) [
          | inl b ↦ rw (b, n) past
          | inr b ↦ rw b past
        ]
        | inr (u, e) ↦
            let (hash, status) = luck_pk_update-fields E invoice u e in
            let kept =
              updates-IsPast is_new E.luck_pks rows (λ x. x.id) overlay_luck_pk S
                (by_payment_hash h) sp u w.luck_pks
                (λ x. overlay_luck_pk-by_payment_hash h x u hash)
                (λ x _. overlay_luck_pk-past x u status) past in
            elim (Bool-cases (is_init sp.status)) [ inl b ↦ rw (b, e) kept | inr b ↦ rw b past ]
      ]

  pub update_luck_pk_by_invoide-keeps :
      (h : String) (invoice : InvoiceUpdate) (w : World E)
      → LuckPkPast h w
      → LuckPkPast h (update_luck_pk_by_invoide E invoice w)
  unfolding update_luck_pk_by_invoide
  update_luck_pk_by_invoide-keeps h invoice w past =
      elim (Result-cases
        (E.luck_pks.first (by_payment_hash (hex_encode invoice.r_hash)) w.luck_pks)) [
          | inl (sp, found) ↦
              rw (found, update_luck_pk_by_invoide) (update_luck_pk_of-keeps h sp invoice w past)
          | inr (e, failed) ↦ rw (failed, update_luck_pk_by_invoide) past
        ]

  pub update_luck_pk_by_invoide-leaves :
      (invoice : InvoiceUpdate) (w : World E)
      → invoice.state ≡ settled
      → LuckPkPast (hex_encode invoice.r_hash) (update_luck_pk_by_invoide E invoice w)
  unfolding update_luck_pk_by_invoide update_luck_pk_of
  update_luck_pk_by_invoide-leaves invoice w e =
      let h = hex_encode invoice.r_hash in
      elim (Result-cases (E.luck_pks.first (by_payment_hash h) w.luck_pks)) [
        | inr (msg, failed) ↦
            rw (failed, update_luck_pk_by_invoide)
              (failed-IsPast is_new E.luck_pks rows (λ x. x.id) overlay_luck_pk S
                (by_payment_hash h) w.luck_pks msg failed)
        | inl (sp, found) ↦ elim (Bool-cases (is_init sp.status)) [
          | inr b ↦
              rw (found, b, update_luck_pk_by_invoide)
                (ok-IsPast is_new E.luck_pks rows (λ x. x.id) overlay_luck_pk S (by_payment_hash h)
                  w.luck_pks sp found b)
          | inl b ↦
              let (u, written) = luck_pk_update-settled E invoice e in
              let (hash, status) = luck_pk_update-fields E invoice u written in
              rw (found, b, written, update_luck_pk_by_invoide)
                (updates-IsPast_found is_new E.luck_pks rows (λ x. x.id) overlay_luck_pk S
                  (by_payment_hash h) sp u w.luck_pks
                  (λ x. overlay_luck_pk-by_payment_hash h x u hash) found
                  (overlay_luck_pk-past sp u status))
        ]
      ]

  pub update_luck_pk_by_invoide-past :
      (invoice : InvoiceUpdate) (w : World E)
      → LuckPkPast (hex_encode invoice.r_hash) w
      → update_luck_pk_by_invoide E invoice w ≡ w
  unfolding update_luck_pk_by_invoide update_luck_pk_of
  update_luck_pk_by_invoide-past invoice w past =
      let h = hex_encode invoice.r_hash in
      elim (Result-cases (E.luck_pks.first (by_payment_hash h) w.luck_pks)) [
        | inr (msg, failed) ↦ rw (failed, update_luck_pk_by_invoide) refl
        | inl (sp, found) ↦
            rw
              (
                found,
                update_luck_pk_by_invoide,
                past sp (S.first-rows (by_payment_hash h) w.luck_pks sp found),
              )
              refl
      ]

  pub update_luck_pk_by_invoide-spays :
      (invoice : InvoiceUpdate) (w : World E)
      → (update_luck_pk_by_invoide E invoice w).spays ≡ w.spays
  unfolding update_luck_pk_by_invoide update_luck_pk_of
  update_luck_pk_by_invoide-spays invoice w = ground arith
