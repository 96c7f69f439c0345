-- ===== src/Startup/Tool/Invariant.antt =====
-- What holds in every state of the process of main.go.
use omnicore_proxy.Base.{
  ℕ, ◌*◌, ◌≡◌, refl, ◌⊎◌, inl, inr, arith, Bool, true, false, none, some, ok, subst,
}
use omnicore_proxy.Gateway.{Libraries}
use omnicore_proxy.Signal.{
  Interceptor, fresh, intercept, shutdown, finish, deliver, Reach, begin, next,
}
use omnicore_proxy.Signal
use omnicore_proxy.Startup.Tool.Process.{
  Stage, sleeping, ended, Process, process_of, unended, run_gateway, ToolStep, signalled,
  take_signal, take_quit, serve_returned, gateway_returned, woken, slept, ToolSteps, here,
  then_step, Runs,
}
use omnicore_proxy.Toolrpc.Rest.{Runtime, Tools}

-- The process has ended without `log.Fatal`.
abbrev pub completed : Stage → ℕ
completed (ended none) = 1
completed _ = 0

-- The main goroutine is past the shutdown's channel.
abbrev pub behind : Stage → Bool
behind sleeping = true
behind (ended none) = true
behind _ = false

module _ (L : Libraries) (R : Runtime) {S : Type 0}
    (new_tools_client : L.Conn → Tools R.Context R.Message S) where
  pub record IsSound (p : Process) : Type 0 where
    pub reached : Reach p.signals
    pub disconnected : p.disconnects ≡ completed p.phase
    pub slept_for : p.seconds ≡ 23 * completed p.phase
    pub closed : behind p.phase ≡ true → p.signals.shutdown_closed ≡ true
    pub left : (p.gateway ≡ none) ⊎ (p.gateway ≡ some (run_gateway L R new_tools_client))

  process_of-IsSound : (c : Interceptor) → intercept false ≡ ok c → IsSound (process_of c)
  unfolding process_of intercept
  process_of-IsSound c h = record {
    reached = subst Reach (ground arith) begin;
    disconnected = refl;
    slept_for = refl;
    closed = λ b. ground arith;
    left = inl refl;
  }

  ToolStep-IsSound : {p q : Process} → ToolStep L R new_tools_client p q → IsSound p → IsSound q
  unfolding deliver shutdown finish unended
  ToolStep-IsSound {p} (signalled a) i = record {
    reached = next i.reached Signal.signalled;
    disconnected = i.disconnected;
    slept_for = i.slept_for;
    closed = i.closed;
    left = i.left;
  }
  ToolStep-IsSound {p} (take_signal a r w) i = record {
    reached = next i.reached (Signal.take_signal r w);
    disconnected = i.disconnected;
    slept_for = i.slept_for;
    closed = λ b. ground (arith, i.closed b);
    left = i.left;
  }
  ToolStep-IsSound {p} (take_quit a r q) i = record {
    reached = next i.reached (Signal.take_quit r q);
    disconnected = i.disconnected;
    slept_for = i.slept_for;
    closed = λ b. refl;
    left = i.left;
  }
  ToolStep-IsSound {p} (serve_returned e a) i = record {
    reached = i.reached;
    disconnected = ground (arith, i.disconnected);
    slept_for = ground (arith, i.slept_for);
    closed = λ b. ground arith;
    left = i.left;
  }
  ToolStep-IsSound {p} (gateway_returned a n) i = record {
    reached = i.reached;
    disconnected = i.disconnected;
    slept_for = i.slept_for;
    closed = i.closed;
    left = inr refl;
  }
  ToolStep-IsSound {p} (woken w c) i = record {
    reached = i.reached;
    disconnected = ground (arith, i.disconnected);
    slept_for = ground (arith, i.slept_for);
    closed = λ b. c;
    left = i.left;
  }
  ToolStep-IsSound {p} (slept w) i = record {
    reached = i.reached;
    disconnected = ground (arith, i.disconnected);
    slept_for = ground (arith, i.slept_for);
    closed = λ b. i.closed (rw w refl);
    left = i.left;
  }

  ToolSteps-IsSound : {p q : Process} → ToolSteps L R new_tools_client p q → IsSound p → IsSound q
  ToolSteps-IsSound here i = i
  ToolSteps-IsSound (then_step ss s) i = ToolStep-IsSound s (ToolSteps-IsSound ss i)

  pub Runs-IsSound : (p : Process) → Runs L R new_tools_client p → IsSound p
  Runs-IsSound p (c, made, ss) = ToolSteps-IsSound ss (process_of-IsSound c made)
