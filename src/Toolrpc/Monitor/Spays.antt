-- ===== src/Toolrpc/Monitor/Spays.antt =====
-- An agency payment whose settled invoice `updateSpayByInvoide` of toolrpc/luckPk.go has dealt with.
use omnicore_proxy.Base.{
  ◌≡◌, inl, inr, refl, Bool, false, String, List, none, some, arith, Result-cases, Option-cases,
  Bool-cases,
}
use omnicore_proxy.Base.Hex.{hex_encode}
use omnicore_proxy.Toolrpc.Rows.{Spay, is_pay_init}
use omnicore_proxy.Toolrpc.World.{Env, World}
use omnicore_proxy.Toolrpc.LuckPk.{InvoiceUpdate, settled}
use omnicore_proxy.Toolrpc.Spay.{
  by_si_pay_hash, update_spay_of, spay_update, update_spay_by_invoide,
}
use omnicore_proxy.Toolrpc.Spay.Status.{overlay}
use omnicore_proxy.Toolrpc.Monitor.Past.{
  IsDependable, IsPast, failed-IsPast, ok-IsPast, updates-IsPast, updates-IsPast_found,
}

-- The fields that are written hold no hash, and a status that is not the initial one.
spay_update-fields :
    (invoice : InvoiceUpdate) (u : Spay)
    → spay_update invoice ≡ some u
    → (u.si_pay_hash ≡ "") × (is_pay_init u.status ≡ false)
unfolding spay_update
spay_update-fields invoice u e = (ground arith, ground arith)

spay_update-settled :
    (invoice : InvoiceUpdate)
    → invoice.state ≡ settled
    → (u : Spay) × (spay_update invoice ≡ some u)
unfolding spay_update
spay_update-settled invoice e = rw e (_, refl)

-- Such fields keep what the query asks for, and lead out of the initial state.
overlay-by_si_pay_hash :
    (h : String) (x u : Spay)
    → u.si_pay_hash ≡ ""
    → by_si_pay_hash h (overlay x u) ≡ by_si_pay_hash h x
unfolding overlay by_si_pay_hash
overlay-by_si_pay_hash h x u e = rw e refl

overlay-past :
    (x u : Spay) → is_pay_init u.status ≡ false → is_pay_init (overlay x u).status ≡ false
unfolding overlay
overlay-past x u e = rw e e

abbrev is_new : Spay → Bool
is_new spay = is_pay_init spay.status

module _ (E : Env) (rows : E.spays.State → List Spay)
    (S : IsDependable E.spays rows (λ x. x.id) overlay) where
  -- The agency payment behind a hash, if there is one, has left its initial state.
  abbrev pub SpayPast : String → World E → Type 0
  SpayPast h w = IsPast is_new (by_si_pay_hash h) (rows w.spays)

  update_spay_of-keeps :
      (h : String) (sp : Spay) (invoice : InvoiceUpdate) (w : World E)
      → SpayPast h w
      → SpayPast h (update_spay_of E sp invoice w).0
  unfolding update_spay_of
  update_spay_of-keeps h sp invoice w past = elim (Option-cases (spay_update invoice)) [
    | inl n ↦ elim (Bool-cases (is_pay_init sp.status)) [
      | inl b ↦ rw (b, n) past
      | inr b ↦ rw b past
    ]
    | inr (u, e) ↦
        let (hash, status) = spay_update-fields invoice u e in
        let kept =
          updates-IsPast is_new E.spays rows (λ x. x.id) overlay S (by_si_pay_hash h) sp u w.spays
            (λ x. overlay-by_si_pay_hash h x u hash) (λ x _. overlay-past x u status) past in
        elim (Bool-cases (is_pay_init sp.status)) [ inl b ↦ rw (b, e) kept | inr b ↦ rw b past ]
  ]

  pub update_spay_by_invoide-keeps :
      (h : String) (invoice : InvoiceUpdate) (w : World E)
      → SpayPast h w
      → SpayPast h (update_spay_by_invoide E invoice w).0
  unfolding update_spay_by_invoide
  update_spay_by_invoide-keeps h invoice w past =
      elim (Result-cases (E.spays.first (by_si_pay_hash (hex_encode invoice.r_hash)) w.spays)) [
        | inl (sp, found) ↦
            rw (found, update_spay_by_invoide) (update_spay_of-keeps h sp invoice w past)
        | inr (e, failed) ↦ rw (failed, update_spay_by_invoide) past
      ]

  pub update_spay_by_invoide-leaves :
      (invoice : InvoiceUpdate) (w : World E)
      → invoice.state ≡ settled
      → SpayPast (hex_encode invoice.r_hash) (update_spay_by_invoide E invoice w).0
  unfolding update_spay_by_invoide update_spay_of
  update_spay_by_invoide-leaves invoice w e =
      let h = hex_encode invoice.r_hash in
      elim (Result-cases (E.spays.first (by_si_pay_hash h) w.spays)) [
        | inr (msg, failed) ↦
            rw (failed, update_spay_by_invoide)
              (failed-IsPast is_new E.spays rows (λ x. x.id) overlay S (by_si_pay_hash h) w.spays
                msg failed)
        | inl (sp, found) ↦ elim (Bool-cases (is_pay_init sp.status)) [
          | inr b ↦
              rw (found, b, update_spay_by_invoide)
                (ok-IsPast is_new E.spays rows (λ x. x.id) overlay S (by_si_pay_hash h) w.spays sp
                  found b)
          | inl b ↦
              let (u, written) = spay_update-settled invoice e in
              let (hash, status) = spay_update-fields invoice u written in
              rw (found, b, written, update_spay_by_invoide)
                (updates-IsPast_found is_new E.spays rows (λ x. x.id) overlay S (by_si_pay_hash h)
                  sp u w.spays (λ x. overlay-by_si_pay_hash h x u hash) found
                  (overlay-past sp u status))
        ]
      ]

  pub update_spay_by_invoide-past :
      (invoice : InvoiceUpdate) (w : World E)
      → SpayPast (hex_encode invoice.r_hash) w
      → update_spay_by_invoide E invoice w ≡ (w, none)
  unfolding update_spay_by_invoide update_spay_of
  update_spay_by_invoide-past invoice w past =
      let h = hex_encode invoice.r_hash in
      elim (Result-cases (E.spays.first (by_si_pay_hash h) w.spays)) [
        | inr (msg, failed) ↦ rw (failed, update_spay_by_invoide) refl
        | inl (sp, found) ↦
            rw
              (
                found,
                update_spay_by_invoide,
                past sp (S.first-rows (by_si_pay_hash h) w.spays sp found),
              )
              refl
      ]

  pub update_spay_by_invoide-luck_pks :
      (invoice : InvoiceUpdate) (w : World E)
      → (update_spay_by_invoide E invoice w).0.luck_pks ≡ w.luck_pks
  unfolding update_spay_by_invoide update_spay_of
  update_spay_by_invoide-luck_pks invoice w = ground arith
