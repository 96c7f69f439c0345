-- ===== src/Toolrpc/Spay/Life.antt =====
-- The operations of toolrpc/luckPk.go on agency payments in any order, each one run to its end, and
-- the life of a payment that they follow.
pub mod Ids
pub mod Saves
pub mod Turns
pub mod Refine
use omnicore_proxy.Base.{ℕ, String, List, [], ◌∷◌}
use omnicore_proxy.Base.Int.{ℤ}
use omnicore_proxy.Toolrpc.Rows.{
  Spay, UserNode, SpayStatus, pay_init, user_payed, pay_end, refunded,
}
use omnicore_proxy.Toolrpc.World.{Env, World}
use omnicore_proxy.Toolrpc.LuckPk.{InvoiceUpdate}
use omnicore_proxy.Toolrpc.Spay.{run_user_spay, refund, pay_settled_spay, create_spay}
use omnicore_proxy.Toolrpc.HeartBeat.{HeartBeatMsg, on_message, behind}
use omnicore_proxy.Toolrpc.Monitor.{Session, Wake, monitor_invoice, job}

-- What a payment goes through: the payer pays the server, or the invoice fails; the server pays the
-- user, or gives the money back. The goroutine of the settled invoice pays the user without another
-- look at the row, and may write so over a refund.
pub data Turn : SpayStatus → SpayStatus → Type 0 where
  payer_pays : Turn pay_init user_payed
  invoice_fails : Turn pay_init SpayStatus.error
  user_is_paid : Turn user_payed pay_end
  payer_is_refunded : Turn user_payed refunded
  user_is_paid_late : Turn refunded pay_end

pub data Life (s : SpayStatus) : SpayStatus → Type 0 where
  begun : Life s s
  turned : {t u : SpayStatus} → Life s t → Turn t u → Life s u

-- One operation, with what it gets: `MonitorInvoice` runs over some subscriptions, `Job` over some
-- wakes of its timer, `runUserSpay` for a user, `refund` for a user's node or for all, the goroutine
-- of `updateSpayByInvoide` pays a settled row, `HeartBeat` handles a message, `CreateSpay` is called.
pub data Operation : Type 0 where
  monitored : List (Session InvoiceUpdate) → Operation
  job_ran : (Spay → ℕ) → List Wake → Operation
  ran : (Spay → ℕ) → ℤ → ℕ → Operation
  gave_back : (Spay → ℕ) → ℤ → String → Operation
  settled_paid : Spay → Operation
  told : UserNode → HeartBeatMsg → Operation
  spay_sent : ℕ → Spay → Operation

module _ (E : Env) where
  unfoldable pub perform : Operation → World E → World E
  unfolding monitor_invoice job run_user_spay refund pay_settled_spay on_message create_spay
  perform (monitored ss) w = (monitor_invoice E ss w).world
  perform (job_ran spend wakes) w = (job E spend wakes w).0
  perform (ran spend now user_id) w = run_user_spay E spend now user_id w
  perform (gave_back spend now key) w = refund E spend now key w
  perform (settled_paid sp) w = pay_settled_spay E sp w
  perform (told un msg) w = behind (on_message E un msg w)
  perform (spay_sent user_id sy) w = (create_spay E user_id sy w).1

  unfoldable pub perform_all : List Operation → World E → World E
  unfolding perform
  perform_all [] w = w
  perform_all (op ∷ ops) w = perform_all ops (perform op w)
