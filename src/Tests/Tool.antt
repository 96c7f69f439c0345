-- ===== src/Tests/Tool.antt =====
-- The theorems on the process of the tool server at concrete data.
use omnicore_proxy.Base.{◌≡◌, refl, String, List, Option, none, some}
use omnicore_proxy.Gateway.{Event}
use omnicore_proxy.Signal.{fresh, intercept, shutdown, finish, deliver}
use omnicore_proxy.Startup.Tool.Process.{
  serving, ended, Process, process_of, unended, run_gateway, gateway_returned, ToolSteps, here,
  then_step, Runs,
}
use omnicore_proxy.Startup.Tool.Ends.{tool_can_end}
use omnicore_proxy.Tests.Rest.{runtime, tools}
use omnicore_proxy.Tests.Startups.{libraries}

abbrev InProcess : Process → Type 0
InProcess = Runs libraries runtime (λ conn. tools)

abbrev by_signal : Process
by_signal = record {
  signals = finish (shutdown (record (deliver fresh) { pending = 0 }));
  phase = ended none;
  seconds = 23;
  disconnects = 1;
  gateway = none;
}

abbrev gateway_run : Option String × List Event
gateway_run = run_gateway libraries runtime (λ conn. tools)

abbrev gateway_gone : Process
gateway_gone = record {
  signals = fresh;
  phase = serving;
  seconds = 0;
  disconnects = 0;
  gateway = some gateway_run;
}

gateway_gone-runs : InProcess gateway_gone
unfolding intercept process_of unended
gateway_gone-runs = (fresh, refl, then_step here (gateway_returned refl refl))

tool_can_end_example :
    (q : Process) × ToolSteps libraries runtime (λ conn. tools) gateway_gone q
    × (q.phase ≡ ended none)
    × (q.gateway ≡ some gateway_run)
unfolding unended
tool_can_end_example =
    tool_can_end libraries runtime (λ conn. tools) gateway_gone gateway_gone-runs refl
