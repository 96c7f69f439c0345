-- ===== src/Toolrpc/Spay/Status.antt =====
-- The status of an agency payment over the rows of the table, behind the writes of
-- toolrpc/luckPk.go.
use omnicore_proxy.Base.{
  ℕ, ◌≡◌, ◌≢◌, refl, ◌⊎◌, inl, inr, ◌==◌, if◌then◌else◌, str_eq, ◌&&◌, not, Bool, true, false,
  String, List, [], ◌∷◌, Option, none, some, ok, err, is_ok, arith, find_first, select,
  Result-cases, Option-cases, Bool-cases,
}
use omnicore_proxy.Base.Int.{pos, eqb_ℤ}
use omnicore_proxy.Lndapi.Payment.{send_payment}
use omnicore_proxy.Toolrpc.Rows.{Spay, SpayStatus, pay_end, refunded, is_pay_init}
use omnicore_proxy.Toolrpc.Table.{NodupIds, IsUpdatable}
use omnicore_proxy.Toolrpc.Table.Put.{find_first-map, find_first-select, find_first-select-none}
use omnicore_proxy.Toolrpc.World.{Env, World}
use omnicore_proxy.Toolrpc.Spay.{payment_update, pay_one, run_spays, refund_spays, is_online}

-- The row `x` with the fields of `u` that are not zero: what gorm writes for `Updates(u)`.
unfoldable pub overlay : Spay → Spay → Spay
overlay x u =
    let text = λ (a b : String). if str_eq b "" then a else b in
    let number = λ (a b : ℕ). if b == 0 then a else b in
    record {
      id = number x.id u.id;
      user_invoice = text x.user_invoice u.user_invoice;
      serv_invoice = text x.serv_invoice u.serv_invoice;
      si_pay_hash = text x.si_pay_hash u.si_pay_hash;
      payer_addr = text x.payer_addr u.payer_addr;
      expire = if eqb_ℤ u.expire (pos 0) then x.expire else u.expire;
      user_id = number x.user_id u.user_id;
      status = if is_pay_init u.status then x.status else u.status;
      err_msg = text x.err_msg u.err_msg;
      err_times = number x.err_times u.err_times;
      pay_spend = number x.pay_spend u.pay_spend;
      payer_invoice = text x.payer_invoice u.payer_invoice;
      asset_id = number x.asset_id u.asset_id;
      amt = if eqb_ℤ u.amt (pos 0) then x.amt else u.amt;
    }

-- The status of the first row with an identifier.
abbrev pub status_in : ℕ → List Spay → Option SpayStatus
status_in j xs = elim (find_first (λ x. x.id == j) xs) [ none ↦ none | some x ↦ some x.status ]

-- A status is unchanged, or it goes from the first status to the second.
abbrev pub MayMove : SpayStatus → SpayStatus → Option SpayStatus → Option SpayStatus → Type 0
MayMove from to before after = (after ≡ before) ⊎ ((before ≡ some from) × (after ≡ some to))

-- A query whose rows all have one status gives no row of another status.
pub status_in-select :
    (p : Spay → Bool) (status : SpayStatus) (j : ℕ) (xs : List Spay)
    → ((x : Spay) → p x ≡ true → x.status ≡ status)
    → NodupIds (λ x. x.id) xs
    → (status_in j xs ≡ some status) ⊎ (find_first (λ x. x.id == j) (select p xs) ≡ none)
status_in-select p status j xs only u = elim (Option-cases (find_first (λ x. x.id == j) xs)) [
  | inl absent ↦ inr (find_first-select-none (λ x. x.id) p j xs absent)
  | inr (x, found) ↦ elim (Bool-cases (p x)) [
    | inl hit ↦ inl (ground (arith, only x hit))
    | inr miss ↦ inr (find_first-select (λ x. x.id) p j xs x u found miss)
  ]
]

pub overlay-id : (x u : Spay) → u.id ≡ 0 → (overlay x u).id ≡ x.id
unfolding overlay
overlay-id x u z = ground arith

pub overlay-status :
    (x u : Spay) → (overlay x u).status ≡ (if is_pay_init u.status then x.status else u.status)
unfolding overlay
overlay-status x u = refl

module _ (E : Env) (rows : E.spays.State → List Spay)
    (U : IsUpdatable E.spays rows (λ x. x.id) overlay) where
  pub updates-status :
      (spay u : Spay) (s : E.spays.State) (j : ℕ)
      → u.id ≡ 0
      → let after = status_in j (rows (E.spays.updates spay u s).1) in
        let before = status_in j (rows s) in
        (after ≡ before)
        ⊎ ((j ≡ spay.id)
            × (before ≢ none)
            × (is_pay_init u.status ≡ false)
            × (after ≡ some u.status))
  updates-status spay u s j z = elim (Result-cases (E.spays.updates spay u s).0) [
    | inr (e, h) ↦ inl (rw (U.updates-rows_failed spay u e s h))
    | inl (r', h) ↦
        let written = (U.updates-rows spay u r' s h).1 in
        let row =
          find_first-map (λ x. x.id) j spay.id (λ x. overlay x u) (rows s)
            (λ x. overlay-id x u z) in
        elim (Option-cases (find_first (λ x. x.id == j) (rows s))) [
          | inl absent ↦ inl (ground (arith, written, row))
          | inr (x, found) ↦ elim (Bool-cases (j == spay.id)) [
            | inr other ↦ inl (ground (arith, written, row))
            | inl here ↦ elim (Bool-cases (is_pay_init u.status)) [
              | inl keeps ↦ inl (ground (arith, written, row, overlay-status x u))
              | inr sets ↦ inr (
                ground arith,
                λ e. ground arith,
                sets,
                ground (arith, written, row, overlay-status x u),
              )
            ]
          ]
        ]
  ]

  -- A loop over spays leaves a status alone, or the spay is one of them and gets the final status.
  abbrev pub Touched : SpayStatus → ℕ → List Spay → Option SpayStatus → Option SpayStatus → Type 0
  Touched final j spays before after =
      (after ≡ before) ⊎ ((find_first (λ x. x.id == j) spays ≢ none) × (after ≡ some final))

  pay_one-Touched :
      (final : SpayStatus) (invoice : String) (spend : ℕ) (spay : Spay) (w : World E) (j : ℕ)
      → let (_, _, w') = pay_one E final invoice spend spay w in
        Touched final j (spay ∷ []) (status_in j (rows w.spays)) (status_in j (rows w'.spays))
  unfolding pay_one
  pay_one-Touched final invoice spend spay w j =
      elim (Result-cases (send_payment E.node invoice w.node).0) [
        | inl (b, paid) ↦ rw paid (
            ground
              (arith, updates-status spay (payment_update final spay spend (ok b)) w.spays j refl))
        | inr (e, failed) ↦ rw failed (
            ground
              (arith, updates-status spay (payment_update final spay spend (err e)) w.spays j refl))
      ]

  -- One round of a loop, and the rounds behind it.
  Touched-cons :
      (final : SpayStatus) (j : ℕ) (spay : Spay) (spays : List Spay) (s t u : Option SpayStatus)
      → Touched final j (spay ∷ []) s t
      → Touched final j spays t u
      → Touched final j (spay ∷ spays) s u
  Touched-cons final j spay spays s t u a b = ground arith

  Touched-stop :
      (final : SpayStatus) (j : ℕ) (spay : Spay) (spays : List Spay) (s t : Option SpayStatus)
      → Touched final j (spay ∷ []) s t
      → Touched final j (spay ∷ spays) s t
  Touched-stop final j spay spays s t a = ground arith

  Touched-skip :
      (final : SpayStatus) (j : ℕ) (spay : Spay) (spays : List Spay) (s t : Option SpayStatus)
      → Touched final j spays s t
      → Touched final j (spay ∷ spays) s t
  Touched-skip final j spay spays s t a = ground arith

  pub run_spays-Touched :
      (spend : Spay → ℕ) (spays : List Spay) (w : World E) (j : ℕ)
      → Touched pay_end j spays
          (status_in j (rows w.spays))
          (status_in j (rows (run_spays E spend spays w).spays))
  unfolding run_spays
  run_spays-Touched spend [] w j = inl refl
  run_spays-Touched spend (spay ∷ spays) w j =
      let (r, written, w') = pay_one E pay_end spay.user_invoice (spend spay) spay w in
      let first = pay_one-Touched pay_end spay.user_invoice (spend spay) spay w j in
      elim (Bool-cases (is_ok r && not written)) [
        | inl stop ↦ rw stop (Touched-stop pay_end j spay spays _ _ first)
        | inr on ↦
            rw on
              (Touched-cons pay_end j spay spays _ _ _ first (run_spays-Touched spend spays w' j))
      ]

  pub refund_spays-Touched :
      (spend : Spay → ℕ) (key : String) (spays : List Spay) (w : World E) (j : ℕ)
      → Touched refunded j spays
          (status_in j (rows w.spays))
          (status_in j (rows (refund_spays E spend key spays w).spays))
  unfolding refund_spays
  refund_spays-Touched spend key [] w j = inl refl
  refund_spays-Touched spend key (spay ∷ spays) w j =
      let (r, written, w') = pay_one E refunded spay.payer_invoice (spend spay) spay w in
      let first = pay_one-Touched refunded spay.payer_invoice (spend spay) spay w j in
      elim (Bool-cases (str_eq key "" && not (is_online E 0 spay.payer_addr w))) [
        | inl skip ↦
            rw skip
              (Touched-skip refunded j spay spays _ _ (refund_spays-Touched spend key spays w j))
        | inr stay ↦ elim (Bool-cases (is_ok r && written)) [
          | inr stop ↦ rw (stay, stop) (Touched-stop refunded j spay spays _ _ first)
          | inl on ↦
              rw (stay, on)
                (Touched-cons refunded j spay spays _ _ _ first
                  (refund_spays-Touched spend key spays w' j))
        ]
      ]
