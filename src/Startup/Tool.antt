-- ===== src/Startup/Tool.antt =====
-- The tool server: `main` of main.go with its goroutines, over the interceptor of signal/signal.go
-- and the gateway of gateway/main.go. `log.Fatal` ends the process without its deferred calls.
pub mod Process
pub mod Invariant
pub mod Ends
use omnicore_proxy.Base.{
  ℕ, String, ◌<>◌, str_eq, List, [], ◌∷◌, Bool, true, false, Option, none, some, Result, ok, err,
  map_err, Action, pure, fail_if, ◌>>=◌, ◌>>◌, ◌≡◌, ◌+◌,
}
use omnicore_proxy.Gateway
use omnicore_proxy.Gateway.{Libraries, Options}
use omnicore_proxy.Signal
use omnicore_proxy.Signal.{Interceptor, intercept}
use omnicore_proxy.Toolrpc.Rest.{Runtime, Tools}
use omnicore_proxy.Toolrpc.Rest.Register.{Route, register_tools_handler}
use omnicore_proxy.Toolrpc.Rest.Scripts.{RpcServer, new_rpc}
use omnicore_proxy.Toolrpc.Server.{OmniCmd}

-- The flags, as `flag.Parse` leaves them.
pub record ToolFlags : Type 0 where
  pub omni_host : String
  pub rpc_user : String
  pub rpc_passwd : String
  pub net_type : String

-- `rpcclient.ConnConfig`, as far as it is filled in.
pub record ConnConfig : Type 0 where
  pub host : String
  pub user : String
  pub pass : String
  pub http_post_mode : Bool
  pub disable_tls : Bool

-- What the start of the tool server asks for: `new_client` gives the client by what `SendCmd`
-- answers.
pub record ToolHost : Type 1 where
  pub libraries : Libraries
  pub new_client : ConnConfig → Result (OmniCmd → Result String)
  pub listen : String → String → Result (Unit {0})

unfoldable pub conn_config : ToolFlags → ConnConfig
conn_config flags = record {
  host = flags.omni_host;
  user = flags.rpc_user;
  pass = flags.rpc_passwd;
  http_post_mode = true;
  disable_tls = true;
}

unfoldable pub gateway_options : Options
gateway_options = record {
  addr = ":8090";
  grpc_server = record { network = "tcp"; addr = "0.0.0.0:8080" };
  open_api_dir = "swagger";
}

-- What the process changes outside, in order: the client of the full node, and its listener.
pub data ToolEvent : Type 0 where
  connected : ToolEvent
  listening_on : String → ToolEvent

abbrev read : {A : Type 0} → Result A → Action (List ToolEvent) A
read r es = (r, es)

abbrev emit : ToolEvent → Action (List ToolEvent) (Unit {0})
emit e es = (ok tt, e ∷ es)

-- `main` up to its goroutines, latest event first.
unfoldable pub start_tool : ToolHost → ToolFlags → Action (List ToolEvent) RpcServer
unfolding conn_config new_rpc
start_tool H flags = do
  client ← read (H.new_client (conn_config flags))
  emit connected
  fail_if (str_eq flags.net_type "") "miss net_type"
  read (map_err (λ e. "Failed to listen: " <> e) (H.listen "tcp" ":8080"))
  emit (listening_on ":8080")
  pure (new_rpc client flags.net_type)
