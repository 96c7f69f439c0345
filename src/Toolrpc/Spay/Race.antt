-- ===== src/Toolrpc/Spay/Race.antt =====
-- One row of the agency payments of toolrpc/luckPk.go under the goroutines that write it,
-- interleaved in any order: `updateSpayByInvoide`, which the one loop of `MonitorInvoice` calls, and
-- the goroutine that it starts, `runUserSpay` of each stream, `refund` for a user, whose mutex lets
-- one call run at a time, the answer to a `GETINVOICE` in `HeartBeat`, which loads the row and later
-- saves the whole of it, and `CreateSpay` with the identifier of the row. Between the query, the
-- payment and the write of a goroutine, the others and the clock go on. `refund` for all users is
-- only called by `Job`, which nothing starts.
pub mod Once
pub mod Both
use omnicore_proxy.Base.{
  ℕ, ◌+◌, ◌-◌, ◌≡◌, ◌⊎◌, String, str_eq, List, [], ◌∷◌, ◌++◌, Bool, true, false, Option, none, some,
  Result, ok, err,
}
use omnicore_proxy.Base.Int.{ℤ, pos, ltb_ℤ, eqb_ℤ}
use omnicore_proxy.Toolrpc.Rows.{
  Spay, pay_init, user_payed, pay_end, refunded, no_spay, is_pay_init, SpayStatus,
}
use omnicore_proxy.Toolrpc.LuckPk.{InvoiceUpdate, settled}
use omnicore_proxy.Toolrpc.Spay.{runs_for, refunds_for, spay_update, payment_update}
use omnicore_proxy.Toolrpc.Spay.Status.{overlay}

-- Which code pays the user: the goroutine of the settled invoice, or the loop of `runUserSpay` with
-- what its clock measures.
pub data Payer : Type 0 where
  on_settled : Payer
  on_run : ℕ → Payer

-- Where a payment stands: the row is loaded, or the payment has ended and its write is to come.
pub data Phase : Type 0 where
  loaded : Spay → Phase
  sent : Spay → Result Bool → Phase

pub record Payout : Type 0 where
  pub payer : Payer
  pub phase : Phase

-- 1 for a status that no query for payments or refunds selects any more.
abbrev pub closed : SpayStatus → ℕ
closed pay_init = 0
closed user_payed = 0
closed _ = 1

-- One more if a write puts a closed row back to an open one.
abbrev pub reopens : Spay → Spay → ℕ
reopens old new = closed old.status - closed new.status

-- The row, the clock, the users that are online by their keys, the payments under way, the rows
-- that `MonitorInvoice` and `HeartBeat` have loaded, what was paid, the writes behind a payment that
-- the database refused, and how often a write has put a closed row back to an open one.
pub record Shared : Type 0 where
  pub now : ℤ
  pub row : Spay
  pub online : String → Bool
  pub payouts : List Payout
  pub refunding : Option Phase
  pub settling : Option Spay
  pub answers : List Spay
  pub user_paid : ℕ
  pub payer_paid : ℕ
  pub lost_payouts : ℕ
  pub lost_refunds : ℕ
  pub reopened : ℕ

-- One more if a payment went through.
unfoldable pub counted : Result Bool → ℕ
counted (ok _) = 1
counted (err _) = 0

-- What a payment to the user writes, if anything.
unfoldable pub payout_fields : Payer → Spay → Result Bool → Option Spay
unfolding payment_update
payout_fields on_settled spay (ok _) = some (record no_spay { status = pay_end })
payout_fields on_settled spay (err _) = none
payout_fields (on_run spend) spay r = some (payment_update pay_end spay spend r)

unfoldable pub written : Spay → Option Spay → Spay
unfolding overlay
written row none = row
written row (some u) = overlay row u

-- The row with the invoice that `HeartBeat` has checked.
unfoldable pub answered : Spay → String → ℤ → ℕ → Spay
answered spay pay_req amt asset_id = record spay {
  payer_invoice = pay_req;
  amt = amt;
  asset_id = asset_id;
}

pub data Step (s : Shared) : Shared → Type 0 where
  clock : (t : ℤ) → ltb_ℤ t s.now ≡ false → Step s (record s { now = t })
  -- Users come and go.
  presence : (online : String → Bool) → Step s (record s { online = online })
  load_settled : is_pay_init s.row.status ≡ true → Step s (record s { settling = some s.row })
  settle_row :
      (invoice : InvoiceUpdate) (sp u : Spay)
      → invoice.state ≡ settled
      → s.settling ≡ some sp
      → spay_update invoice ≡ some u
      → Step s (record s {
        settling = none;
        row = overlay s.row u;
        payouts = record { payer = on_settled; phase = loaded (overlay sp u) } ∷ s.payouts;
        reopened = s.reopened + reopens s.row (overlay s.row u);
      })
  -- The write is refused.
  lose_settled : Step s (record s { settling = none })
  run :
      (user_id spend : ℕ)
      → runs_for user_id s.now s.row ≡ true
      → Step s
          (record s { payouts = record { payer = on_run spend; phase = loaded s.row } ∷ s.payouts })
  pay_user :
      (before after : List Payout) (payer : Payer) (spay : Spay) (r : Result Bool)
      → s.payouts ≡ before ++ record { payer = payer; phase = loaded spay } ∷ after
      → Step s (record s {
        payouts = before ++ record { payer = payer; phase = sent spay r } ∷ after;
        user_paid = s.user_paid + counted r;
      })
  write_payout :
      (before after : List Payout) (payer : Payer) (spay : Spay) (r : Result Bool)
      → s.payouts ≡ before ++ record { payer = payer; phase = sent spay r } ∷ after
      → Step s
          (record s { payouts = before ++ after; row = written s.row (payout_fields payer spay r) })
  lose_payout :
      (before after : List Payout) (payer : Payer) (spay : Spay) (r : Result Bool)
      → s.payouts ≡ before ++ record { payer = payer; phase = sent spay r } ∷ after
      → Step s (record s { payouts = before ++ after; lost_payouts = s.lost_payouts + counted r })
  leave_payout :
      (before after : List Payout) (payer : Payer) (spay : Spay)
      → s.payouts ≡ before ++ record { payer = payer; phase = loaded spay } ∷ after
      → Step s (record s { payouts = before ++ after })
  refund_row :
      (user_key : String)
      → s.refunding ≡ none
      → str_eq user_key "" ≡ false
      → s.online user_key ≡ true
      → refunds_for user_key s.now s.row ≡ true
      → Step s (record s { refunding = some (loaded s.row) })
  pay_payer :
      (spay : Spay) (r : Result Bool)
      → s.refunding ≡ some (loaded spay)
      → Step s (record s { refunding = some (sent spay r); payer_paid = s.payer_paid + counted r })
  write_refund :
      (spay : Spay) (spend : ℕ) (r : Result Bool)
      → s.refunding ≡ some (sent spay r)
      → Step s (record s {
        refunding = none;
        row = overlay s.row (payment_update refunded spay spend r);
      })
  lose_refund :
      (spay : Spay) (r : Result Bool)
      → s.refunding ≡ some (sent spay r)
      → Step s (record s { refunding = none; lost_refunds = s.lost_refunds + counted r })
  leave_refund :
      (spay : Spay) → s.refunding ≡ some (loaded spay) → Step s (record s { refunding = none })
  -- The row of the identifier that a client has answered with.
  load_answer : Step s (record s { answers = s.row ∷ s.answers })
  -- An old row has no amount, and takes the one of the user's invoice.
  save_answer :
      (before after : List Spay) (spay : Spay) (pay_req : String) (amt : ℤ) (asset_id : ℕ)
      → s.answers ≡ before ++ spay ∷ after
      → ((eqb_ℤ spay.amt (pos 0) ≡ true)
          ⊎ ((eqb_ℤ spay.amt (pos 0) ≡ false) × (amt ≡ spay.amt) × (asset_id ≡ spay.asset_id)))
      → Step s (record s {
        answers = before ++ after;
        row = answered spay pay_req amt asset_id;
        reopened = s.reopened + reopens s.row (answered spay pay_req amt asset_id);
      })
  -- A check fails, or the save does.
  leave_answer :
      (before after : List Spay) (spay : Spay)
      → s.answers ≡ before ++ spay ∷ after
      → Step s (record s { answers = before ++ after })
  -- `CreateSpay` takes the identifier from the client: any row may come over this one.
  save_created :
      (row : Spay)
      → row.id ≡ s.row.id
      → Step s (record s { row = row; reopened = s.reopened + reopens s.row row })

-- A row behind `CreateSpay` whose status is the initial one.
abbrev pub created : ℤ → Spay → Shared
created now row = record {
  now = now;
  row = record row { status = SpayStatus.pay_init };
  online = λ key. false;
  payouts = [];
  refunding = none;
  settling = none;
  answers = [];
  user_paid = 0;
  payer_paid = 0;
  lost_payouts = 0;
  lost_refunds = 0;
  reopened = 0;
}

pub data Steps (s : Shared) : Shared → Type 0 where
  stay : Steps s s
  and_then : {t u : Shared} → Steps s t → Step t u → Steps s u
