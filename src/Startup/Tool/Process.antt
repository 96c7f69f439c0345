-- ===== src/Startup/Tool/Process.antt =====
-- The goroutines of main.go behind its start, interleaved: the two servers, the main goroutine that
-- waits for the shutdown, and the handler of the signals.
use omnicore_proxy.Base.{
  ℕ, ◌+◌, ◌≡◌, Bool, true, false, ◌==◌, String, List, [], ◌∷◌, Option, none, some, ok, err,
}
use omnicore_proxy.Gateway.{Event, Libraries, run}
use omnicore_proxy.Signal.{Interceptor, intercept, shutdown, finish, deliver}
use omnicore_proxy.Startup.Tool.{gateway_options}
use omnicore_proxy.Toolrpc.Rest.{Runtime, Tools}
use omnicore_proxy.Toolrpc.Rest.Register.{register_tools_handler}

-- Where the main goroutine stands: in front of the shutdown's channel, in its sleep, or behind, with
-- the text of a `log.Fatal` if one ended the process.
pub data Stage : Type 0 where
  serving sleeping : Stage
  ended : Option String → Stage

-- The interceptor, the main goroutine, the seconds that it slept, how often it shut the client of
-- the full node down, and how `Run` of the gateway ended, if it did.
pub record Process : Type 0 where
  pub signals : Interceptor
  pub phase : Stage
  pub seconds : ℕ
  pub disconnects : ℕ
  pub gateway : Option (Option String × List Event)

-- The process behind the start, with the interceptor that `Intercept` gave.
unfoldable pub process_of : Interceptor → Process
process_of c = record { signals = c; phase = serving; seconds = 0; disconnects = 0; gateway = none }

unfoldable pub unended : Stage → Bool
unended serving = true
unended sleeping = true
unended (ended e) = false

module _ (L : Libraries) (R : Runtime) {S : Type 0}
    (new_tools_client : L.Conn → Tools R.Context R.Message S) where
  -- The one registration that the gateway gets, `RegisterToolsHandler`.
  unfoldable pub register : L.Conn → Option String
  unfolding register_tools_handler
  register conn = elim (register_tools_handler R new_tools_client conn []).0 [
    | ok _ ↦ none
    | err e ↦ some e
  ]

  -- What the goroutine of the gateway does. Its error is dropped.
  unfoldable pub run_gateway : Option String × List Event
  unfolding register gateway_options run
  run_gateway = run L gateway_options (register ∷ [])

  -- One step. Nothing in this process calls `RequestShutdown`.
  pub data ToolStep (p : Process) : Process → Type 0 where
    signalled : unended p.phase ≡ true → ToolStep p (record p { signals = deliver p.signals })
    take_signal :
        unended p.phase ≡ true
        → p.signals.running ≡ true
        → (p.signals.pending == 0) ≡ false
        → ToolStep p (record p { signals = shutdown (record p.signals { pending = 0 }) })
    take_quit :
        unended p.phase ≡ true
        → p.signals.running ≡ true
        → p.signals.quit_closed ≡ true
        → ToolStep p (record p { signals = finish p.signals })
    -- `log.Fatalln(s.Serve(lis))`
    serve_returned :
        (e : String) → unended p.phase ≡ true → ToolStep p (record p { phase = ended (some e) })
    gateway_returned :
        unended p.phase ≡ true
        → p.gateway ≡ none
        → ToolStep p (record p { gateway = some run_gateway })
    woken :
        p.phase ≡ serving
        → p.signals.shutdown_closed ≡ true
        → ToolStep p (record p { phase = sleeping })
    -- the end of the sleep, and the deferred `client.Shutdown()`
    slept :
        p.phase ≡ sleeping
        → ToolStep p (record p {
          phase = ended none;
          seconds = p.seconds + 23;
          disconnects = p.disconnects + 1;
        })

  -- ToolSteps in a row.
  pub data ToolSteps (p : Process) : Process → Type 0 where
    here : ToolSteps p p
    then_step : {q r : Process} → ToolSteps p q → ToolStep q r → ToolSteps p r

  -- What the process can reach. The flag of the interceptor is not set when it starts.
  abbrev pub Runs : Process → Type 0
  Runs p = (c : Interceptor) × (intercept false ≡ ok c) × ToolSteps (process_of c) p
