-- ===== src/Signal.antt =====
-- signal/signal.go: the interception of signals and the shutdown, as a state machine. The channels
-- are their state, and the goroutines interleave as steps.
pub mod Lifecycle
use omnicore_proxy.Base.{
  ℕ, ◌+◌, ◌≡◌, Bool, true, false, not, ◌&&◌, ◌==◌, String, ◌<>◌, if◌then◌else◌, Result, ok, err,
  List, [], ◌∷◌,
}

-- `started`, the flag of the package, and the channels of one interceptor: the signals waiting in
-- the buffered channel, which holds one, and whether the other two are closed. `is_shutdown` is
-- the variable of the main handler, `running` whether its goroutine runs, and `stops` counts the
-- notifications of systemd.
pub record Interceptor : Type 0 where
  pub started : Bool
  pub pending : ℕ
  pub quit_closed : Bool
  pub shutdown_closed : Bool
  pub is_shutdown : Bool
  pub running : Bool
  pub stops : ℕ

-- The channels that `Intercept` makes.
unfoldable pub fresh : Interceptor
fresh = record {
  started = true;
  pending = 0;
  quit_closed = false;
  shutdown_closed = false;
  is_shutdown = false;
  running = true;
  stops = 0;
}

-- `Intercept`, on the flag: a compare and swap.
unfoldable pub intercept : Bool → Result Interceptor
unfolding fresh
intercept started = if started then err "intercept already started" else ok fresh

-- The closure `shutdown` of the main handler.
unfoldable pub shutdown : Interceptor → Interceptor
shutdown c =
    if c.is_shutdown
    then c
    else record c { is_shutdown = true; stops = c.stops + 1; quit_closed = true }

-- The case of the closed `quit` channel, with the deferred store to the flag.
unfoldable pub finish : Interceptor → Interceptor
finish c = record c { shutdown_closed = true; running = false; started = false }

-- A signal of the system: it is dropped when the channel's one place is taken.
unfoldable pub deliver : Interceptor → Interceptor
deliver c = record c { pending = if c.pending == 0 then 1 else c.pending }

unfoldable pub alive : Interceptor → Bool
alive c = not c.quit_closed

unfoldable pub listening : Interceptor → Bool
unfolding alive
listening c = c.started && alive c

-- One step: a signal arrives; the handler takes a signal, a request for shutdown that a caller of
-- `RequestShutdown` hands over, or the closed `quit` channel, by any choice among those at hand.
pub data Step (c : Interceptor) : Interceptor → Type 0 where
  signalled : Step c (deliver c)
  take_signal :
      c.running ≡ true → (c.pending == 0) ≡ false → Step c (shutdown (record c { pending = 0 }))
  take_request : c.running ≡ true → Step c (shutdown c)
  take_quit : c.running ≡ true → c.quit_closed ≡ true → Step c (finish c)

pub data Reach : Interceptor → Type 0 where
  begin : Reach fresh
  next : {c d : Interceptor} → Reach c → Step c d → Reach d

-- How a call of `RequestShutdown` can end: the handler takes the request, or `quit` is closed.
pub data Requested (c : Interceptor) : Interceptor → Type 0 where
  taken : c.running ≡ true → Requested c (shutdown c)
  given_up : c.quit_closed ≡ true → Requested c c

-- `systemdNotifyReady`, for what `daemon.SdNotify` gives: systemd's absence is no error.
unfoldable pub systemd_notify_ready : Result Bool → Result (Unit {0})
systemd_notify_ready notified = elim notified [
  | err e ↦ err (
      "failed to notify systemd " <> e
      <> " (if you aren't running systemd clear the environment variable NOTIFY_SOCKET)")
  | ok _ ↦ ok tt
]

-- `Notifier`, with the messages that systemd gets.
pub record Notifier : Type 0 where
  pub notified_ready : Bool
  pub sent : List String

unfoldable pub notify_ready : Result Bool → Bool → Notifier → Result (Unit {0}) × Notifier
unfolding systemd_notify_ready
notify_ready notified wallet_unlocked n =
    let status = if wallet_unlocked then "STATUS=Wallet unlocked" else "STATUS=Wallet locked" in
    if n.notified_ready
    then (ok tt, record n { sent = status ∷ n.sent })
    else elim (systemd_notify_ready notified) [
      | err e ↦ (err e, n)
      | ok _ ↦ (ok tt, record n { notified_ready = true; sent = status ∷ "READY=1" ∷ n.sent })
    ]
