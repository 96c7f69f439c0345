-- ===== src/Toolrpc/Spay/Life/Ids.antt =====
-- The writes of toolrpc/luckPk.go to agency payments keep the identifiers of the rows apart.
use omnicore_proxy.Base.{
  ℕ, ◌≡◌, refl, ◌==◌, if◌then◌else◌, str_eq, ◌&&◌, not, String, List, [], ◌∷◌, ok, err, is_ok,
  arith, map, Result-cases, Option-cases, Bool-cases, inl, inr, ◌⊎◌,
}
use omnicore_proxy.Base.Int.{ℤ}
use omnicore_proxy.Base.Hex.{hex_encode}
use omnicore_proxy.Lndapi.Payment.{send_payment}
use omnicore_proxy.Toolrpc.Rows.{Spay, SpayStatus, pay_end, refunded, is_pay_init}
use omnicore_proxy.Toolrpc.Table.{NodupIds, IsUpdatable}
use omnicore_proxy.Toolrpc.Table.Put.{find_first-map}
use omnicore_proxy.Toolrpc.World.{Env, World}
use omnicore_proxy.Toolrpc.LuckPk.{InvoiceUpdate, update_luck_pk_by_invoide, update_luck_pk_of}
use omnicore_proxy.Toolrpc.Spay.{
  payment_update, pay_one, run_spays, refund_spays, is_online, run_user_spay, refund, runs_for,
  refunds_for, by_si_pay_hash, spay_update, update_spay_of, update_spay_by_invoide, on_invoice,
}
use omnicore_proxy.Toolrpc.Spay.Status.{overlay, overlay-id}
use omnicore_proxy.Toolrpc.Spay.Moves.{spay_update-status}

map-NodupIds :
    {Row : Type 0} (id : Row → ℕ) (k : ℕ) (g : Row → Row) (xs : List Row)
    → ((x : Row) → id (g x) ≡ id x)
    → NodupIds id xs
    → NodupIds id (map (λ x. if id x == k then g x else x) xs)
map-NodupIds id k g [] e h = tt
map-NodupIds id k g (x ∷ xs) e h =
    ground (arith, e x, map-NodupIds id k g xs e h.1, find_first-map id (id x) k g xs e)

module _ (E : Env) (rows : E.spays.State → List Spay)
    (U : IsUpdatable E.spays rows (λ x. x.id) overlay) where
  abbrev pub IsDistinct : World E → Type 0
  IsDistinct w = NodupIds (λ x. x.id) (rows w.spays)

  pub updates-NodupIds :
      (spay u : Spay) (s : E.spays.State)
      → u.id ≡ 0
      → NodupIds (λ x. x.id) (rows s)
      → NodupIds (λ x. x.id) (rows (E.spays.updates spay u s).1)
  updates-NodupIds spay u s z h = elim (Result-cases (E.spays.updates spay u s).0) [
    | inr (e, failed) ↦ rw (U.updates-rows_failed spay u e s failed) h
    | inl (r', done) ↦
        rw (U.updates-rows spay u r' s done).1
          (map-NodupIds (λ x. x.id) spay.id (λ x. overlay x u) (rows s) (λ x. overlay-id x u z) h)
  ]

  pay_one-IsDistinct :
      (final : SpayStatus) (invoice : String) (spend : ℕ) (spay : Spay) (w : World E)
      → IsDistinct w
      → let (_, _, w') = pay_one E final invoice spend spay w in IsDistinct w'
  unfolding pay_one
  pay_one-IsDistinct final invoice spend spay w h =
      elim (Result-cases (send_payment E.node invoice w.node).0) [
        | inl (b, paid) ↦
            rw paid (updates-NodupIds spay (payment_update final spay spend (ok b)) w.spays refl h)
        | inr (e, failed) ↦
            rw failed
              (updates-NodupIds spay (payment_update final spay spend (err e)) w.spays refl h)
      ]

  run_spays-IsDistinct :
      (spend : Spay → ℕ) (spays : List Spay) (w : World E)
      → IsDistinct w
      → IsDistinct (run_spays E spend spays w)
  unfolding run_spays
  run_spays-IsDistinct spend [] w h = h
  run_spays-IsDistinct spend (spay ∷ spays) w h =
      let (r, written, w') = pay_one E pay_end spay.user_invoice (spend spay) spay w in
      let first = pay_one-IsDistinct pay_end spay.user_invoice (spend spay) spay w h in
      elim (Bool-cases (is_ok r && not written)) [
        | inl stop ↦ rw stop first
        | inr on ↦ rw on (run_spays-IsDistinct spend spays w' first)
      ]

  refund_spays-IsDistinct :
      (spend : Spay → ℕ) (key : String) (spays : List Spay) (w : World E)
      → IsDistinct w
      → IsDistinct (refund_spays E spend key spays w)
  unfolding refund_spays
  refund_spays-IsDistinct spend key [] w h = h
  refund_spays-IsDistinct spend key (spay ∷ spays) w h =
      let (r, written, w') = pay_one E refunded spay.payer_invoice (spend spay) spay w in
      let first = pay_one-IsDistinct refunded spay.payer_invoice (spend spay) spay w h in
      elim (Bool-cases (str_eq key "" && not (is_online E 0 spay.payer_addr w))) [
        | inl skip ↦ rw skip (refund_spays-IsDistinct spend key spays w h)
        | inr stay ↦ elim (Bool-cases (is_ok r && written)) [
          | inr stop ↦ rw (stay, stop) first
          | inl on ↦ rw (stay, on) (refund_spays-IsDistinct spend key spays w' first)
        ]
      ]

  pub run_user_spay-IsDistinct :
      (spend : Spay → ℕ) (now : ℤ) (user_id : ℕ) (w : World E)
      → IsDistinct w
      → IsDistinct (run_user_spay E spend now user_id w)
  unfolding run_user_spay
  run_user_spay-IsDistinct spend now user_id w h =
      elim (Result-cases (E.spays.find (runs_for user_id now) w.spays)) [
        | inr (e, failed) ↦ rw (failed, run_user_spay) h
        | inl (spays, found) ↦ rw (found, run_user_spay) (run_spays-IsDistinct spend spays w h)
      ]

  pub refund-IsDistinct :
      (spend : Spay → ℕ) (now : ℤ) (key : String) (w : World E)
      → IsDistinct w
      → IsDistinct (refund E spend now key w)
  unfolding refund
  refund-IsDistinct spend now key w h =
      elim (Bool-cases (not (str_eq key "") && not (is_online E 0 key w))) [
        | inl offline ↦ rw (offline, refund) h
        | inr on ↦ elim (Result-cases (E.spays.find (refunds_for key now) w.spays)) [
          | inr (e, failed) ↦ rw (on, failed, refund) h
          | inl (spays, found) ↦
              rw (on, found, refund) (refund_spays-IsDistinct spend key spays w h)
        ]
      ]

  update_spay_of-IsDistinct :
      (sp : Spay) (invoice : InvoiceUpdate) (w : World E)
      → IsDistinct w
      → IsDistinct (update_spay_of E sp invoice w).0
  unfolding update_spay_of
  update_spay_of-IsDistinct sp invoice w h = elim (Bool-cases (is_pay_init sp.status)) [
    | inr past ↦ rw past h
    | inl fresh ↦ elim (Option-cases (spay_update invoice)) [
      | inl keeps ↦ rw (fresh, keeps) h
      | inr (v, sets) ↦
          rw (fresh, sets) (updates-NodupIds sp v w.spays (spay_update-status invoice v sets).0 h)
    ]
  ]

  pub update_spay_by_invoide-IsDistinct :
      (invoice : InvoiceUpdate) (w : World E)
      → IsDistinct w
      → IsDistinct (update_spay_by_invoide E invoice w).0
  unfolding update_spay_by_invoide
  update_spay_by_invoide-IsDistinct invoice w h =
      elim (Result-cases (E.spays.first (by_si_pay_hash (hex_encode invoice.r_hash)) w.spays)) [
        | inr (e, failed) ↦ rw (failed, update_spay_by_invoide) h
        | inl (sp, found) ↦
            rw (found, update_spay_by_invoide) (update_spay_of-IsDistinct sp invoice w h)
      ]

-- `MonitorInvoice` does to the agency payments what `updateSpayByInvoide` does, or nothing.
pub on_invoice-spays :
    (E : Env) (invoice : InvoiceUpdate) (w : World E)
    → ((on_invoice E invoice w).0.spays ≡ w.spays)
      ⊎ ((on_invoice E invoice w).0.spays ≡ (update_spay_by_invoide E invoice w).0.spays)
unfolding on_invoice update_luck_pk_by_invoide update_luck_pk_of
on_invoice-spays E invoice w = ground arith
