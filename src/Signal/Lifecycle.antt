-- ===== src/Signal/Lifecycle.antt =====
-- The life of an interceptor, over every interleaving of signals, requests and the main handler.
use omnicore_proxy.Base.{
  ◌≤◌, ◌≡◌, refl, inl, inr, true, false, ◌&&◌, not, if◌then◌else◌, ok, arith, Bool-cases, ◌∙◌,
}
use omnicore_proxy.Signal.{
  Interceptor, fresh, intercept, shutdown, finish, deliver, alive, listening, Step, signalled,
  take_signal, take_request, take_quit, Reach, begin, next, Requested, taken, given_up,
}

-- What holds between two steps.
pub record IsValid (c : Interceptor) : Type 0 where
  pub quit_by_shutdown : c.quit_closed ≡ c.is_shutdown
  pub stopped_once : c.stops ≡ (if c.is_shutdown then 1 else 0)
  pub ended : c.shutdown_closed ≡ not c.running
  pub quit_before_end : c.shutdown_closed ≡ true → c.quit_closed ≡ true
  pub flag : c.started ≡ c.running
  pub room : c.pending ≤ 1

Step-IsValid : {c d : Interceptor} → Step c d → IsValid c → IsValid d
unfolding deliver shutdown finish
Step-IsValid signalled v = ground arith
Step-IsValid (take_signal r p) v = ground arith
Step-IsValid (take_request r) v = ground arith
Step-IsValid (take_quit r q) v = ground arith

Reach-IsValid : {c : Interceptor} → Reach c → IsValid c
unfolding fresh
Reach-IsValid begin = ground arith
Reach-IsValid (next r s) = Step-IsValid s (Reach-IsValid r)

-- In every state that an interceptor can reach: `quit` is closed exactly by the first shutdown,
-- and systemd was notified exactly then and once; the channel of the shutdown is closed exactly
-- when the handler has ended, never before `quit`; and `Listening` holds until the shutdown begins
-- and not after.
pub Reach-lifecycle :
    (c : Interceptor)
    → Reach c
    → (c.quit_closed ≡ c.is_shutdown)
      × (c.stops ≡ (if c.is_shutdown then 1 else 0))
      × (c.shutdown_closed ≡ not c.running)
      × ((c.shutdown_closed && not c.quit_closed) ≡ false)
      × (listening c ≡ not c.is_shutdown)
unfolding listening alive
Reach-lifecycle c r = ground (arith, Reach-IsValid r)

shutdown_closes : {c : Interceptor} → IsValid c → (shutdown c).quit_closed ≡ true
unfolding shutdown
shutdown_closes v = ground (arith, v)

shutdown_runs : (c : Interceptor) → (shutdown c).running ≡ c.running
unfolding shutdown
shutdown_runs c = ground arith

stopped_closes : {c : Interceptor} → IsValid c → c.running ≡ false → c.quit_closed ≡ true
stopped_closes v e = v.quit_before_end (ground (arith, v.ended))

-- `RequestShutdown` never blocks for ever: in every state that can be reached a call can end, with
-- `quit` closed.
request_shutdown_ends :
    (c : Interceptor) → Reach c → (d : Interceptor) × Requested c d × (d.quit_closed ≡ true)
request_shutdown_ends c r = elim (Bool-cases c.running) [
  | inl run ↦ (shutdown c, taken run, shutdown_closes (Reach-IsValid r))
  | inr stopped ↦ let q = stopped_closes (Reach-IsValid r) stopped in (c, given_up q, q)
]

-- However a call of `RequestShutdown` ends, `quit` is closed afterwards.
Requested-closes_quit : (c d : Interceptor) → Reach c → Requested c d → d.quit_closed ≡ true
Requested-closes_quit c d r (taken run) = shutdown_closes (Reach-IsValid r)
Requested-closes_quit c d r (given_up q) = q

-- From every state that can be reached, at most one request and one more step of the handler end
-- it: a state is reached in which the channel of the shutdown is closed, and a new interceptor can
-- be started.
shutdown_completes :
    (c : Interceptor)
    → Reach c
    → (d : Interceptor) × Reach d × (d.shutdown_closed ≡ true) × (intercept d.started ≡ ok fresh)
unfolding finish intercept
shutdown_completes c r = elim (Bool-cases c.running) [
  | inl run ↦
      let s = next r (take_request run) in
      let q = take_quit (shutdown_runs c ∙ run) (shutdown_closes (Reach-IsValid r)) in
      (finish (shutdown c), next s q, refl, refl)
  | inr stopped ↦ let v = Reach-IsValid r in (c, r, ground (arith, v), ground (arith, v))
]
