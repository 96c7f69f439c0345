-- ===== src/Toolrpc/Spay/Life/Saves.antt =====
-- The saves of whole rows in toolrpc/luckPk.go that leave the statuses of the agency payments alone:
-- `CreateSpay` without an identifier, and the invoice for a refund in `HeartBeat`.
use omnicore_proxy.Base.{
  ℕ, ◌≡◌, refl, ◌==◌, List, some, none, ok, arith, find_first, find_first-holds, Result-cases,
  Bool-cases, Option-cases, inl, inr, ◌⊎◌, sym, ◌∙◌, subst,
}
use omnicore_proxy.Base.Int.{pos, eqb_ℤ}
use omnicore_proxy.Toolrpc.Rows.{Spay, SpayStatus, UserNode}
use omnicore_proxy.Toolrpc.Table.{NodupIds, IsLawful, put}
use omnicore_proxy.Toolrpc.Table.Put.{find_first-put, put-NodupIds}
use omnicore_proxy.Toolrpc.World.{Env, World}
use omnicore_proxy.Toolrpc.Spay.{create_spay, with_server_invoice}
use omnicore_proxy.Lndapi.Payment.{invoice_amount, invoice_req}
use omnicore_proxy.Lndapi.Node.{PayReq, AddInvoiceResponse}
use omnicore_proxy.Toolrpc.Spay.Status.{status_in}
use omnicore_proxy.Toolrpc.HeartBeat.{
  GetInvoiceRes, HeartBeatMsg, empty, get_invoice, get_invoice_res, check_refund, owed, on_message,
  behind,
}

-- The statuses that there were are there as they were.
pub record KeepsStatuses (before after : List Spay) : Type 0 where
  pub distinct : NodupIds (λ x. x.id) before → NodupIds (λ x. x.id) after
  pub same : (j : ℕ) (s : SpayStatus) → status_in j before ≡ some s → status_in j after ≡ some s

keeps_refl : (xs : List Spay) → KeepsStatuses xs xs
keeps_refl xs = record { distinct = λ h. h; same = λ j s h. h }

some_injective : {s t : SpayStatus} → some s ≡ some t → s ≡ t
some_injective h = ground arith

-- A row that is new, or that has the status of the row of its identifier.
put-KeepsStatuses :
    (r : Spay) (xs : List Spay)
    → (find_first (λ x. x.id == r.id) xs ≡ none) ⊎ (status_in r.id xs ≡ some r.status)
    → KeepsStatuses xs (put (λ x. x.id) r xs)
put-KeepsStatuses r xs k = record {
  distinct = λ h. put-NodupIds (λ x. x.id) r xs h;
  same = λ j s h. elim (Bool-cases (r.id == j)) [
    | inr other ↦ ground (arith, find_first-put (λ x. x.id) j r xs, other, h)
    | inl here ↦
        let at : r.id ≡ j = ground arith in
        let h' : status_in r.id xs ≡ some s = subst (λ i. status_in i xs ≡ some s) (sym at) h in
        elim k [
          | inl fresh ↦ ground (arith, fresh, h')
          | inr old ↦
              let status : r.status ≡ s = some_injective (sym old ∙ h') in
              ground (arith, find_first-put (λ x. x.id) j r xs, here, status)
        ]
  ];
}

module _ (E : Env) (rows : E.spays.State → List Spay)
    (L : IsLawful E.spays rows (λ x. x.id) (λ n x. record x { id = n })) where
  save-KeepsStatuses :
      (r : Spay) (s : E.spays.State)
      → (r.id ≡ 0) ⊎ (status_in r.id (rows s) ≡ some r.status)
      → KeepsStatuses (rows s) (rows (E.spays.save r s).1)
  save-KeepsStatuses r s k = elim (Result-cases (E.spays.save r s).0) [
    | inr (e, bad) ↦ rw (L.save-rows_failed r e s bad) (keeps_refl (rows s))
    | inl (r', good) ↦
        let (written, old, new) = L.save-rows r r' s good in
        let put' = put-KeepsStatuses r' (rows s) (elim (Bool-cases (r.id == 0)) [
          | inl z ↦ let (nonzero, same, fresh) = new (ground arith) in inl fresh
          | inr z ↦ elim k [
            | inl zero ↦ ground arith
            | inr there ↦ inr (
                subst (λ x. status_in x.id (rows s) ≡ some x.status) (sym (old (λ e. ground arith)))
                  there)
          ]
        ]) in
        rw written put'
  ]

  -- `CreateSpay` saves the one row that it makes, or none.
  create_spay-saves :
      (user_id : ℕ) (sy : Spay) (w : World E)
      → ((create_spay E user_id sy w).1.spays ≡ w.spays)
        ⊎ ((p : PayReq) × (res : AddInvoiceResponse) × ((create_spay E user_id sy w).1.spays
              ≡ (E.spays.save (with_server_invoice E sy user_id p res) w.spays).1))
  unfolding create_spay
  create_spay-saves user_id sy w =
      elim (Result-cases (E.node.decode_pay_req sy.user_invoice w.node)) [
        | inr (e, d) ↦ inl (ground arith)
        | inl (p, d) ↦
            elim (Result-cases
              (E.node.add_invoice (invoice_req p.asset_id (invoice_amount p) p.expiry) w.node).0) [
                | inr (e, a) ↦ inl (ground arith)
                | inl (res, a) ↦ inr (p, res, ground arith)
              ]
      ]

  pub create_spay-KeepsStatuses :
      (user_id : ℕ) (sy : Spay) (w : World E)
      → sy.id ≡ 0
      → KeepsStatuses (rows w.spays) (rows (create_spay E user_id sy w).1.spays)
  unfolding with_server_invoice
  create_spay-KeepsStatuses user_id sy w z = elim (create_spay-saves user_id sy w) [
    | inl e ↦ rw e (keeps_refl (rows w.spays))
    | inr (p, res, e) ↦
        rw e (save-KeepsStatuses (with_server_invoice E sy user_id p res) w.spays (inl z))
  ]

  owed-row :
      (spay : Spay) (w : World E) (r : Spay)
      → owed E spay w ≡ ok r
      → (r.id ≡ spay.id) × (r.status ≡ spay.status)
  unfolding owed
  owed-row spay w r h = elim (Bool-cases (eqb_ℤ spay.amt (pos 0))) [
    | inr amount ↦ (ground arith, ground arith)
    | inl zero ↦ elim (Result-cases (E.node.decode_pay_req spay.user_invoice w.node)) [
      | inr (e, d) ↦ ground arith
      | inl (p, d) ↦ (ground arith, ground arith)
    ]
  ]

  checked-row :
      (res : GetInvoiceRes) (w : World E) (spay r : Spay)
      → E.spays.first (λ x. x.id == res.spay_id) w.spays ≡ ok spay
      → check_refund E res w ≡ ok r
      → (r.id ≡ spay.id) × (r.status ≡ spay.status)
  unfolding check_refund
  checked-row res w spay r f h = elim (Result-cases (E.node.decode_pay_req res.pay_req w.node)) [
    | inr (e, d) ↦ ground arith
    | inl (p, d) ↦ elim (Result-cases (owed E spay w)) [
      | inr (e, o) ↦ ground arith
      | inl (spay', o) ↦ let (id, status) = owed-row spay w spay' o in (ground arith, ground arith)
    ]
  ]

  check_refund-status :
      (res : GetInvoiceRes) (w : World E) (r : Spay)
      → check_refund E res w ≡ ok r
      → status_in r.id (rows w.spays) ≡ some r.status
  unfolding check_refund
  check_refund-status res w r h =
      elim (Result-cases (E.spays.first (λ x. x.id == res.spay_id) w.spays)) [
        | inr (e, f) ↦ ground arith
        | inl (spay, f) ↦
            let found = L.first-rows (λ x. x.id == res.spay_id) w.spays spay f in
            let here : spay.id ≡ res.spay_id =
              ground (arith, find_first-holds (λ x. x.id == res.spay_id) _ spay found) in
            let there : status_in spay.id (rows w.spays) ≡ some spay.status =
              subst (λ i. status_in i (rows w.spays) ≡ some spay.status) (sym here)
                (rw (found, status_in) refl) in
            let (id, status) = checked-row res w spay r f h in rw (id, status) there
      ]

  pub on_message-KeepsStatuses :
      (un : UserNode) (msg : HeartBeatMsg) (w : World E)
      → KeepsStatuses (rows w.spays) (rows (behind (on_message E un msg w)).spays)
  unfolding on_message
  on_message-KeepsStatuses un msg w =
      elim msg.action
        as (λ a.
          KeepsStatuses (rows w.spays)
            (rows (behind (on_message E un (record msg { action = a }) w)).spays)) [
              | empty ↦ keeps_refl (rows w.spays)
              | get_invoice ↦ keeps_refl (rows w.spays)
              | get_invoice_res ↦ elim (Option-cases msg.body) [
                | inl bad ↦ rw (bad, on_message) (keeps_refl (rows w.spays))
                | inr (res, there) ↦ elim (Result-cases (check_refund E res w)) [
                  | inr (e, c) ↦ rw (there, on_message, c) (keeps_refl (rows w.spays))
                  | inl (spay, c) ↦
                      rw (there, on_message, c)
                        (save-KeepsStatuses spay w.spays (inr (check_refund-status res w spay c)))
                ]
              ]
            ]
