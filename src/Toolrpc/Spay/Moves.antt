-- ===== src/Toolrpc/Spay/Moves.antt =====
-- What each operation on agency payments does to the status of every row, by its identifier.
use omnicore_proxy.Base.{
  ℕ, ◌≡◌, refl, ◌⊎◌, inl, inr, ◌==◌, true, not, ◌&&◌, str_eq, String, List, some, arith, find_first,
  Result-cases, Option-cases, Bool-cases,
}
use omnicore_proxy.Base.Int.{ℤ}
use omnicore_proxy.Base.Hex.{hex_encode}
use omnicore_proxy.Toolrpc.Rows.{
  Spay, SpayStatus, pay_init, user_payed, pay_end, refunded, is_pay_init,
}
use omnicore_proxy.Toolrpc.Table.{NodupIds, IsLawful, IsUpdatable}
use omnicore_proxy.Toolrpc.Table.Put.{find_first_by_id}
use omnicore_proxy.Toolrpc.World.{Env, World}
use omnicore_proxy.Toolrpc.LuckPk.{InvoiceUpdate}
use omnicore_proxy.Toolrpc.Spay.{
  by_si_pay_hash, runs_for, refunds_for, spay_update, run_user_spay, refund, update_spay_of,
  update_spay_by_invoide, is_online,
}
use omnicore_proxy.Toolrpc.Spay.Status.{
  overlay, status_in, MayMove, status_in-select, updates-status, run_spays-Touched,
  refund_spays-Touched,
}

runs_for-status :
    (user_id : ℕ) (now : ℤ) (x : Spay) → runs_for user_id now x ≡ true → x.status ≡ user_payed
unfolding runs_for
runs_for-status user_id now x h = ground arith

refunds_for-status :
    (key : String) (now : ℤ) (x : Spay) → refunds_for key now x ≡ true → x.status ≡ user_payed
unfolding refunds_for
refunds_for-status key now x h = ground arith

pub spay_update-status :
    (invoice : InvoiceUpdate) (v : Spay)
    → spay_update invoice ≡ some v
    → (v.id ≡ 0) × ((v.status ≡ user_payed) ⊎ (v.status ≡ SpayStatus.error))
unfolding spay_update
spay_update-status invoice v h = ground arith

module _ (E : Env) (rows : E.spays.State → List Spay)
    (L : IsLawful E.spays rows (λ x. x.id) (λ n r. record r { id = n }))
    (U : IsUpdatable E.spays rows (λ x. x.id) overlay) where
  -- Paying out a user's agency payments moves a status only from `UserPayed` to `PayEnd`, however
  -- the payments and the writes end. No two rows share an identifier.
  pub run_user_spay-MayMove :
      (spend : Spay → ℕ) (now : ℤ) (user_id : ℕ) (w : World E) (j : ℕ)
      → NodupIds (λ x. x.id) (rows w.spays)
      → MayMove user_payed pay_end
          (status_in j (rows w.spays))
          (status_in j (rows (run_user_spay E spend now user_id w).spays))
  unfolding run_user_spay
  run_user_spay-MayMove spend now user_id w j u =
      elim (Result-cases (E.spays.find (runs_for user_id now) w.spays)) [
        | inr (e, failed) ↦ inl (ground arith)
        | inl (spays, found) ↦ ground (
          arith,
          run_spays-Touched E rows U spend spays w j,
          U.find-rows (runs_for user_id now) w.spays spays found,
          status_in-select (runs_for user_id now) user_payed j (rows w.spays)
              (runs_for-status user_id now) u,
        )
      ]

  -- A refund, of one user or by the job over all, moves a status only from `UserPayed` to
  -- `Refunded`, however the payments and the writes end. No two rows share an identifier.
  pub refund-MayMove :
      (spend : Spay → ℕ) (now : ℤ) (key : String) (w : World E) (j : ℕ)
      → NodupIds (λ x. x.id) (rows w.spays)
      → MayMove user_payed refunded
          (status_in j (rows w.spays))
          (status_in j (rows (refund E spend now key w).spays))
  unfolding refund
  refund-MayMove spend now key w j u =
      elim (Bool-cases (not (str_eq key "") && not (is_online E 0 key w))) [
        | inl offline ↦ inl (ground arith)
        | inr on ↦ elim (Result-cases (E.spays.find (refunds_for key now) w.spays)) [
          | inr (e, failed) ↦ inl (ground arith)
          | inl (spays, found) ↦ ground (
            arith,
            refund_spays-Touched E rows U spend key spays w j,
            U.find-rows (refunds_for key now) w.spays spays found,
            status_in-select (refunds_for key now) user_payed j (rows w.spays)
                (refunds_for-status key now) u,
          )
        ]
      ]

  update_spay_of-MayMove :
      (sp : Spay) (invoice : InvoiceUpdate) (w : World E) (j : ℕ)
      → find_first (λ x. x.id == sp.id) (rows w.spays) ≡ some sp
      → let before = status_in j (rows w.spays) in
        let after = status_in j (rows (update_spay_of E sp invoice w).0.spays) in
        MayMove pay_init user_payed before after ⊎ MayMove pay_init SpayStatus.error before after
  unfolding update_spay_of
  update_spay_of-MayMove sp invoice w j here = elim (Bool-cases (is_pay_init sp.status)) [
    | inr past ↦ rw past (inl (inl refl))
    | inl fresh ↦ elim (Option-cases (spay_update invoice)) [
      | inl keeps ↦ rw (fresh, keeps) (inl (inl refl))
      | inr (v, sets) ↦
          let (z, final) = spay_update-status invoice v sets in
          rw (fresh, sets) (ground (arith, updates-status E rows U sp v w.spays j z, final))
    ]
  ]

  -- An update of the server's invoice moves a status only from `PayINIT` to `UserPayed` or to
  -- `Error`. No two rows share an identifier.
  pub update_spay_by_invoide-MayMove :
      (invoice : InvoiceUpdate) (w : World E) (j : ℕ)
      → NodupIds (λ x. x.id) (rows w.spays)
      → let before = status_in j (rows w.spays) in
        let after = status_in j (rows (update_spay_by_invoide E invoice w).0.spays) in
        MayMove pay_init user_payed before after ⊎ MayMove pay_init SpayStatus.error before after
  unfolding update_spay_by_invoide
  update_spay_by_invoide-MayMove invoice w j u =
      let cond = by_si_pay_hash (hex_encode invoice.r_hash) in
      elim (Result-cases (E.spays.first cond w.spays)) [
        | inr (e, failed) ↦ inl (inl (ground arith))
        | inl (sp, found) ↦
            let here =
              find_first_by_id (λ x. x.id) cond (rows w.spays) sp u
                (L.first-rows cond w.spays sp found) in
            rw (found, update_spay_by_invoide) (update_spay_of-MayMove sp invoice w j here)
      ]
