-- ===== src/Toolrpc/Monitor.antt =====
-- The loops of toolrpc/luckPk.go that last as long as the server: `MonitorInvoice`,
-- `MonitorChannel` and `Job`. What arrives is a list of subscriptions, each with its events.
pub mod Keeps
pub mod Past
pub mod Spays
pub mod Packets
pub mod Replay
use omnicore_proxy.Base.{
  ℕ, ◌+◌, String, List, [], ◌∷◌, ◌++◌, Bool, true, false, if◌then◌else◌, Result, Option, none, some,
}
use omnicore_proxy.Base.Int.{ℤ}
use omnicore_proxy.Toolrpc.Rows.{Spay}
use omnicore_proxy.Toolrpc.World.{Env, World}
use omnicore_proxy.Toolrpc.LuckPk.{InvoiceUpdate}
use omnicore_proxy.Toolrpc.Spay.{on_invoice, refund}
use omnicore_proxy.Toolrpc.Channels.{
  Hashes, OpenRequest, Received, PendingChannel, on_pending_channel,
}

-- How a stream goes on behind the events that it gave: `Recv` fails, the shutdown is seen, or
-- `Recv` blocks.
pub data Ending : Type 0 where
  broken shut_down blocked : Ending

-- One round of the outer loop: the subscription fails, or it gives a stream.
pub data Session (A : Type 0) : Type 0 where
  failed : String → Session A
  stream : List A → Ending → Session A

-- Where a monitor stands: the world, the goroutines that it started, the seconds that it slept, and
-- whether it has returned.
pub record Watch (W T : Type 0) : Type 0 where
  pub world : W
  pub tasks : List T
  pub slept : ℕ
  pub returned : Bool

-- The events of one stream, in order.
unfoldable pub handle_all : {A W T : Type 0} → (A → W → W × List T) → List A → W → W × List T
handle_all handle [] w = (w, [])
handle_all handle (a ∷ events) w =
    let (w', tasks) = handle a w in
    let (w2, more) = handle_all handle events w' in (w2, tasks ++ more)

-- The outer loop. `on_failed` and `on_broken` are the seconds slept behind a subscription that
-- fails and behind a stream that breaks.
unfoldable pub monitor :
    {A W T : Type 0} → (A → W → W × List T) → ℕ → ℕ → List (Session A) → W → Watch W T
unfolding handle_all
monitor handle on_failed on_broken [] w = record {
  world = w;
  tasks = [];
  slept = 0;
  returned = false;
}
monitor handle on_failed on_broken (failed e ∷ ss) w =
    let rest = monitor handle on_failed on_broken ss w in
    record rest { slept = on_failed + rest.slept }
monitor handle on_failed on_broken (stream events broken ∷ ss) w =
    let (w', tasks) = handle_all handle events w in
    let rest = monitor handle on_failed on_broken ss w' in
    record rest { tasks = tasks ++ rest.tasks; slept = on_broken + rest.slept }
monitor handle on_failed on_broken (stream events shut_down ∷ ss) w =
    let (w', tasks) = handle_all handle events w in
    record { world = w'; tasks = tasks; slept = 0; returned = true }
monitor handle on_failed on_broken (stream events blocked ∷ ss) w =
    let (w', tasks) = handle_all handle events w in
    record { world = w'; tasks = tasks; slept = 0; returned = false }

-- An event of `SubscribeChannelEvents`: a channel that is about to open, with what the node answers
-- if the server opens one in turn, or another event.
pub data ChannelEvent : Type 0 where
  pending_open : PendingChannel → (OpenRequest → Result (List Received)) → ChannelEvent
  other_event : ChannelEvent

-- What wakes `Job`: its timer, at a time, or the shutdown.
pub data Wake : Type 0 where
  tick : ℤ → Wake
  stop : Wake

module _ (E : Env) where
  unfoldable pub handle_invoice : InvoiceUpdate → World E → World E × List Spay
  unfolding on_invoice
  handle_invoice invoice w =
      let (w', task) = on_invoice E invoice w in (w', elim task [ none ↦ [] | some sp ↦ sp ∷ [] ])

  unfoldable pub monitor_invoice : List (Session InvoiceUpdate) → World E → Watch (World E) Spay
  unfolding monitor handle_invoice
  monitor_invoice = monitor handle_invoice 5 0

  unfoldable pub handle_channel : Hashes → ChannelEvent → World E → World E × List (Unit {0})
  unfolding on_pending_channel
  handle_channel hashes (pending_open c open_channel) w =
      (on_pending_channel hashes E open_channel c w, [])
  handle_channel hashes other_event w = (w, [])

  -- The pause stands inside the branch of a subscription that succeeded.
  unfoldable pub monitor_channel :
      Hashes → List (Session ChannelEvent) → World E → Watch (World E) (Unit {0})
  unfolding monitor handle_channel
  monitor_channel hashes = monitor (handle_channel hashes) 0 5

  -- `Job`: the refunds of all users at each tick. The second part says whether it has returned.
  unfoldable pub job : (Spay → ℕ) → List Wake → World E → World E × Bool
  unfolding refund
  job spend [] w = (w, false)
  job spend (tick now ∷ wakes) w = job spend wakes (refund E spend now "" w)
  job spend (stop ∷ wakes) w = (w, true)
