-- ===== src/Toolrpc/Spay/Race/Once.antt =====
-- How often one agency payment is paid, and refunded, under the goroutines of toolrpc/luckPk.go.
use omnicore_proxy.Base.{
  ℕ, ◌+◌, ◌≤◌, ◌≡◌, refl, String, List, [], ◌∷◌, ◌++◌, Bool, true, Option, none, some, Result, ok,
  err, arith,
}
use omnicore_proxy.Base.Int.{ℤ}
use omnicore_proxy.Toolrpc.Rows.{Spay, SpayStatus, refunded}
use omnicore_proxy.Toolrpc.Spay.{refunds_for, payment_update, is_refundable}
use omnicore_proxy.Toolrpc.Spay.Status.{overlay}
use omnicore_proxy.Toolrpc.Spay.Race.{
  Payer, on_settled, on_run, Phase, loaded, sent, Payout, Shared, counted, payout_fields, written,
  Step, clock, load_settled, settle_row, lose_settled, run, pay_user, write_payout, lose_payout,
  leave_payout, refund_row, pay_payer, write_refund, lose_refund, leave_refund, created, Steps,
  stay, and_then, closed, reopens, presence, load_answer, save_answer, leave_answer, save_created,
  answered,
}

-- The refund that may be ahead, on top of the refunds whose write was refused.
abbrev refund_room : SpayStatus → Option Phase → ℕ
refund_room status none = closed status
refund_room status (some (loaded _)) = 0
refund_room status (some (sent _ r)) = counted r

-- The payments to the user whose write is to come.
pending_of : Payout → ℕ
unfolding counted
pending_of p = elim p.phase [ loaded _ ↦ 0 | sent _ r ↦ counted r ]

pub pending : List Payout → ℕ
unfolding pending_of
pending [] = 0
pending (p ∷ ps) = pending_of p + pending ps

pending-insert :
    (before after : List Payout) (p : Payout)
    → pending (before ++ p ∷ after) ≡ pending_of p + pending (before ++ after)
unfolding pending
pending-insert [] after p = refl
pending-insert (b ∷ before) after p = ground (arith, pending-insert before after p)

-- The refunds are those that were lost, one for each time that the row was put back, and the one
-- that the row, or the call under way, accounts for. While the row is open and was never put back,
-- the payments to the user are those that were lost and those whose write is to come.
record IsPaidOnce (s : Shared) : Type 0 where
  refunds : s.payer_paid ≤ s.lost_refunds + s.reopened + refund_room s.row.status s.refunding
  payouts :
      s.reopened ≡ 0 → closed s.row.status ≡ 0 → s.user_paid ≤ s.lost_payouts + pending s.payouts

-- A write behind a payment leaves a status alone if the payment failed, and closes the row if it
-- went through.
written-status :
    (row : Spay) (payer : Payer) (spay : Spay) (r : Result Bool)
    → counted r ≤ closed (written row (payout_fields payer spay r)).status
      × closed row.status ≤ closed (written row (payout_fields payer spay r)).status
unfolding written payout_fields overlay payment_update counted
written-status row on_settled spay (ok b) = (omega arith, ground arith)
written-status row on_settled spay (err e) = (ground arith, ground arith)
written-status row (on_run n) spay (ok b) = (omega arith, ground arith)
written-status row (on_run n) spay (err e) = (ground arith, ground arith)

overlay-refunded :
    (row spay : Spay) (spend : ℕ) (r : Result Bool)
    → counted r ≤ closed (overlay row (payment_update refunded spay spend r)).status
      × closed row.status ≤ closed (overlay row (payment_update refunded spay spend r)).status
unfolding overlay payment_update counted
overlay-refunded row spay spend (ok b) = (omega arith, ground arith)
overlay-refunded row spay spend (err e) = (ground arith, ground arith)

refunds_for-open :
    (key : String) (now : ℤ) (row : Spay) → refunds_for key now row ≡ true → closed row.status ≡ 0
unfolding refunds_for is_refundable
refunds_for-open key now row h = ground arith

-- What is left of the room for refunds when the status closes or stays.
refund_room-grows :
    (before after : SpayStatus) (refunding : Option Phase)
    → closed before ≤ closed after
    → refund_room before refunding ≤ refund_room after refunding
refund_room-grows before after none h = h
refund_room-grows before after (some (loaded spay)) h = omega arith
refund_room-grows before after (some (sent spay r)) h = omega arith

-- What a save of the whole row takes from the room for refunds is counted.
refund_room-reopens :
    (old new : Spay) (refunding : Option Phase)
    → refund_room old.status refunding ≤ reopens old new + refund_room new.status refunding
refund_room-reopens old new none = omega arith
refund_room-reopens old new (some (loaded spay)) = omega arith
refund_room-reopens old new (some (sent spay r)) = omega arith

saved-IsPaidOnce :
    (s : Shared) (row : Spay) (answers : List Spay)
    → IsPaidOnce s
    → IsPaidOnce
        (record s { answers = answers; row = row; reopened = s.reopened + reopens s.row row })
saved-IsPaidOnce s row answers i = record {
  refunds = omega (arith, i.refunds, refund_room-reopens s.row row s.refunding);
  payouts = λ n z. i.payouts (omega arith) (omega arith);
}

Step-IsPaidOnce : {s t : Shared} → Step s t → IsPaidOnce s → IsPaidOnce t
unfolding pending_of pending counted
Step-IsPaidOnce (clock t h) i = record { refunds = i.refunds; payouts = i.payouts }
Step-IsPaidOnce (presence online) i = record { refunds = i.refunds; payouts = i.payouts }
Step-IsPaidOnce (load_settled h) i = record { refunds = i.refunds; payouts = i.payouts }
Step-IsPaidOnce {s} (settle_row invoice sp u s' l e) i =
    let saved = saved-IsPaidOnce s (overlay s.row u) s.answers i in
    record { refunds = saved.refunds; payouts = λ n z. ground (arith, saved.payouts n z) }
Step-IsPaidOnce lose_settled i = record { refunds = i.refunds; payouts = i.payouts }
Step-IsPaidOnce (run user_id spend h) i = record {
  refunds = i.refunds;
  payouts = λ n z. ground (arith, i.payouts n z);
}
Step-IsPaidOnce {s} (pay_user before after payer spay r e) i = record {
  refunds = i.refunds;
  payouts = λ n z. ground (
    arith,
    i.payouts n z,
    e,
    pending-insert before after (record { payer = payer; phase = loaded spay }),
    pending-insert before after (record { payer = payer; phase = sent spay r }),
  );
}
Step-IsPaidOnce {s} (write_payout before after payer spay r e) i =
    let (closes, grows) = written-status s.row payer spay r in
    let paid : Payout = record { payer = payer; phase = sent spay r } in
    record {
      refunds =
          let more =
            refund_room-grows s.row.status (written s.row (payout_fields payer spay r)).status
              s.refunding grows in
          ground (arith, i.refunds, more);
      payouts =
          λ n z. ground (arith, i.payouts n (omega arith), e, pending-insert before after paid);
    }
Step-IsPaidOnce {s} (lose_payout before after payer spay r e) i = record {
  refunds = i.refunds;
  payouts = λ n z. ground (
    arith,
    i.payouts n z,
    e,
    pending-insert before after (record { payer = payer; phase = sent spay r }),
  );
}
Step-IsPaidOnce {s} (leave_payout before after payer spay e) i = record {
  refunds = i.refunds;
  payouts = λ n z. ground (
    arith,
    i.payouts n z,
    e,
    pending-insert before after (record { payer = payer; phase = loaded spay }),
  );
}
Step-IsPaidOnce {s} (refund_row key e named on h) i = record {
  refunds = ground (arith, i.refunds, refunds_for-open key s.now s.row h);
  payouts = i.payouts;
}
Step-IsPaidOnce {s} (pay_payer spay r e) i = record {
  refunds = ground (arith, i.refunds);
  payouts = i.payouts;
}
Step-IsPaidOnce {s} (write_refund spay spend r e) i =
    let (closes, grows) = overlay-refunded s.row spay spend r in
    record { refunds = ground (arith, i.refunds); payouts = λ n z. i.payouts n (omega arith) }
Step-IsPaidOnce {s} (lose_refund spay r e) i = record {
  refunds = ground (arith, i.refunds);
  payouts = i.payouts;
}
Step-IsPaidOnce {s} (leave_refund spay e) i = record {
  refunds = ground (arith, i.refunds);
  payouts = i.payouts;
}
Step-IsPaidOnce load_answer i = record { refunds = i.refunds; payouts = i.payouts }
Step-IsPaidOnce {s} (save_answer before after spay pay_req amt asset_id e a) i =
    saved-IsPaidOnce s (answered spay pay_req amt asset_id) (before ++ after) i
Step-IsPaidOnce (leave_answer before after spay e) i = record {
  refunds = i.refunds;
  payouts = i.payouts;
}
Step-IsPaidOnce {s} (save_created row e) i = saved-IsPaidOnce s row s.answers i

Steps-IsPaidOnce : {s t : Shared} → Steps s t → IsPaidOnce s → IsPaidOnce t
Steps-IsPaidOnce stay i = i
Steps-IsPaidOnce (and_then ss h) i = Step-IsPaidOnce h (Steps-IsPaidOnce ss i)

created-IsPaidOnce : (now : ℤ) (row : Spay) → IsPaidOnce (created now row)
unfolding pending
created-IsPaidOnce now row = record { refunds = omega arith; payouts = λ n z. omega arith }

refund_room-one :
    (status : SpayStatus) (refunding : Option Phase) → refund_room status refunding ≤ 1
unfolding counted
refund_room-one status refunding = ground arith

-- However the goroutines and the clock are interleaved, the payer of an agency payment gets at most
-- one refund, one more for each time that the database refused the write behind a refund, and one
-- more for each time that a write put a row that was done with back to one that is open: a save of
-- the whole row by `HeartBeat` or `CreateSpay`, or a settlement that writes behind one.
pub refunds_at_most_once :
    (now : ℤ) (row : Spay) (t : Shared)
    → Steps (created now row) t
    → t.payer_paid ≤ t.lost_refunds + t.reopened + 1
refunds_at_most_once now row t ss =
    let i = Steps-IsPaidOnce ss (created-IsPaidOnce now row) in
    ground (arith, i.refunds, refund_room-one t.row.status t.refunding)

-- Where no write has put a row that was done with back to one that is open, a row
-- whose user was paid can be chosen for a refund only while a payment to the user has ended
-- and its write is still to come, or was refused: never when every payment has been written.
pub refunds_for-unwritten :
    (now : ℤ) (row : Spay) (t : Shared) (user_key : String)
    → Steps (created now row) t
    → t.reopened ≡ 0
    → refunds_for user_key t.now t.row ≡ true
    → t.user_paid ≤ t.lost_payouts + pending t.payouts
refunds_for-unwritten now row t user_key ss n h =
    let i = Steps-IsPaidOnce ss (created-IsPaidOnce now row) in
    i.payouts n (refunds_for-open user_key t.now t.row h)
