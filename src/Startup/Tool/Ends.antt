-- ===== src/Startup/Tool/Ends.antt =====
-- How the process of main.go ends.
use omnicore_proxy.Base.{◌≡◌, refl, ◌⊎◌, inl, inr, arith, true, false, ◌==◌, none, Bool-cases, ◌∙◌}
use omnicore_proxy.Gateway.{Libraries}
use omnicore_proxy.Signal.{Interceptor, shutdown, finish, deliver}
use omnicore_proxy.Signal.Lifecycle.{Reach-lifecycle}
use omnicore_proxy.Startup.Tool.Process.{
  Stage, serving, sleeping, ended, Process, unended, signalled, take_signal, take_quit, woken,
  slept, ToolSteps, here, then_step, Runs,
}
use omnicore_proxy.Toolrpc.Rest.{Runtime, Tools}
use omnicore_proxy.Startup.Tool.Invariant.{Runs-IsSound}

Stage-cases : (x : Stage) → unended x ≡ true → (x ≡ serving) ⊎ (x ≡ sleeping)
unfolding unended
Stage-cases serving a = inl refl
Stage-cases sleeping a = inr refl
Stage-cases (ended e) a = cc

module _ (L : Libraries) (R : Runtime) {S : Type 0}
    (new_tools_client : L.Conn → Tools R.Context R.Message S) where
  -- A signal that arrives waits, and the handler that takes it closes `quit` and goes on.
  signal_taken :
      (c : Interceptor)
      → c.quit_closed ≡ c.is_shutdown
      → let d = shutdown (record (deliver c) { pending = 0 }) in
        (((deliver c).pending == 0) ≡ false)
        × ((deliver c).running ≡ c.running)
        × (d.running ≡ c.running)
        × (d.quit_closed ≡ true)
  unfolding deliver shutdown
  signal_taken c quit = (ground arith, refl, ground arith, ground arith)

  -- From in front of the shutdown's channel, once it is closed.
  end_behind :
      {p q : Process}
      → ToolSteps L R new_tools_client p q
      → q.phase ≡ serving
      → q.signals.shutdown_closed ≡ true
      → (r : Process) × ToolSteps L R new_tools_client p r
        × (r.phase ≡ ended none)
        × (r.gateway ≡ q.gateway)
  end_behind ss at closed = (_, then_step (then_step ss (woken at closed)) (slept refl), refl, refl)

  -- From every state that the tool server reaches and that has not ended, one signal of the system
  -- is enough for it to end by itself, and the gateway is then left as it was: nothing waits for it.
  pub tool_can_end :
      (p : Process)
      → Runs L R new_tools_client p
      → unended p.phase ≡ true
      → (q : Process) × ToolSteps L R new_tools_client p q
        × (q.phase ≡ ended none)
        × (q.gateway ≡ p.gateway)
  unfolding finish
  tool_can_end p r a = elim (Stage-cases p.phase a) [
    | inr at ↦ (_, then_step here (slept at), refl, refl)
    | inl at ↦
        let i = Runs-IsSound L R new_tools_client p r in
        let (quit, stops, closed, order, listening) = Reach-lifecycle p.signals i.reached in
        elim (Bool-cases p.signals.shutdown_closed) [
          | inl shut ↦ end_behind here at shut
          | inr unclosed ↦
              let run : p.signals.running ≡ true = ground (arith, closed, unclosed) in
              let (waits, runs, still, quits) = signal_taken p.signals quit in
              let arrived = then_step here (signalled a) in
              let taken = then_step arrived (take_signal a (runs ∙ run) waits) in
              end_behind (then_step taken (take_quit a (still ∙ run) quits)) at refl
        ]
  ]
