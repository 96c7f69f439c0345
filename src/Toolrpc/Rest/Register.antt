-- ===== src/Toolrpc/Rest/Register.antt =====
-- The registrations of toolrpc/proto.pb.gw.go: the routes that the multiplexer gets, in order, and
-- what each handler writes. The multiplexer itself is the runtime's affair.
use omnicore_proxy.Base.{
  ℕ, String, List, [], ◌∷◌, ◌++◌, Option, none, some, Result, ok, err, Action,
}
use omnicore_proxy.Toolrpc.Rest.{
  Runtime, Tools, PathParams, request_get_balance, request_send_coin, request_channel_send,
  request_mine, request_get_property, request_list_properties, request_create_property,
}

-- `runtime.NewPattern`, by its arguments: the version, the codes with their operands, the pool and
-- the verb.
pub record Pattern : Type 0 where
  pub version : ℕ
  pub ops : List ℕ
  pub pool : List String
  pub verb : String

-- "/api/<name>/{<param>}" and "/api/<name>".
abbrev pub with_param : String → String → Pattern
with_param name param = record {
  version = 1;
  ops = 2 ∷ 0 ∷ 2 ∷ 1 ∷ 1 ∷ 0 ∷ 4 ∷ 1 ∷ 5 ∷ 2 ∷ [];
  pool = "api" ∷ name ∷ param ∷ [];
  verb = "";
}

abbrev pub without_param : String → Pattern
without_param name = record {
  version = 1;
  ops = 2 ∷ 0 ∷ 2 ∷ 1 ∷ [];
  pool = "api" ∷ name ∷ [];
  verb = "";
}

unfoldable pub pattern_get_balance : Pattern
pattern_get_balance = with_param "GetBalance" "address"

unfoldable pub pattern_send_coin : Pattern
pattern_send_coin = with_param "SendCoin" "address"

unfoldable pub pattern_channel_send : Pattern
pattern_channel_send = with_param "ChannelSend" "address"

unfoldable pub pattern_mine : Pattern
pattern_mine = without_param "Mine"

unfoldable pub pattern_get_property : Pattern
pattern_get_property = with_param "Propertis" "property_id"

unfoldable pub pattern_list_properties : Pattern
pattern_list_properties = without_param "Propertis"

unfoldable pub pattern_create_property : Pattern
pattern_create_property = without_param "Propertis"

-- What `mux.Handle` gets. A handler always writes one response.
pub record Route (R : Runtime) (S : Type 0) : Type 0 where
  pub http_method : String
  pub pattern : Pattern
  pub handler : R.Request → PathParams → S → R.Answer × S

-- The body of a handler: the annotated context, the request function, and the response.
abbrev pub serve_route :
    (R : Runtime) {S : Type 0}
    → (R.Request → Result R.Context)
    → (R.Context → R.Request → PathParams → Action S R.Message)
    → R.Request
    → PathParams
    → S
    → R.Answer × S
serve_route R annotate request req params s = elim (annotate req) [
  | err e ↦ (R.write_error e, s)
  | ok ctx ↦
      let (r, s') = request ctx req params s in
      elim r [ err e ↦ (R.write_error e, s') | ok resp ↦ (R.forward_response_message resp, s') ]
]

-- When the connection of `RegisterToolsHandlerFromEndpoint` is closed: by its deferred function, or
-- by the goroutine that it leaves, when the context is done.
pub data Closing : Type 0 where
  at_once when_done : Closing

module _ (R : Runtime) {S : Type 0} where
  abbrev pub remote :
      String
      → String
      → (R.Context → R.Request → PathParams → Action S R.Message)
      → R.Request
      → PathParams
      → S
      → R.Answer × S
  remote rpc path = serve_route R (R.annotate_context rpc path)

  -- `RegisterToolsHandlerClient`, on the routes that the multiplexer has; its error is nil.
  unfoldable pub register_tools_handler_client :
      Tools R.Context R.Message S → List (Route R S) → Result (Unit {0}) × List (Route R S)
  unfolding request_get_balance request_send_coin request_channel_send request_mine
      request_get_property request_list_properties request_create_property pattern_get_balance
      pattern_send_coin pattern_channel_send pattern_mine pattern_get_property
      pattern_list_properties pattern_create_property
  register_tools_handler_client client mux = (
    ok tt,
    mux
        ++ record {
          http_method = "GET";
          pattern = pattern_get_balance;
          handler =
              remote "/toolrpc.Tools/GetBalance" "/api/GetBalance/{address}"
                (request_get_balance R client);
        }
          ∷ record {
            http_method = "GET";
            pattern = pattern_send_coin;
            handler =
                remote "/toolrpc.Tools/SendCoin" "/api/SendCoin/{address}"
                  (request_send_coin R client);
          }
          ∷ record {
            http_method = "GET";
            pattern = pattern_channel_send;
            handler =
                remote "/toolrpc.Tools/ChannelSend" "/api/ChannelSend/{address}"
                  (request_channel_send R client);
          }
          ∷ record {
            http_method = "GET";
            pattern = pattern_mine;
            handler = remote "/toolrpc.Tools/Mine" "/api/Mine" (request_mine R client);
          }
          ∷ record {
            http_method = "GET";
            pattern = pattern_get_property;
            handler =
                remote "/toolrpc.Tools/GetProperty" "/api/Propertis/{property_id}"
                  (request_get_property R client);
          }
          ∷ record {
            http_method = "GET";
            pattern = pattern_list_properties;
            handler =
                remote "/toolrpc.Tools/ListProperties" "/api/Propertis"
                  (request_list_properties R client);
          }
          ∷ record {
            http_method = "POST";
            pattern = pattern_create_property;
            handler =
                remote "/toolrpc.Tools/CreateProperty" "/api/Propertis"
                  (request_create_property R client);
          }
          ∷ [],
  )

  -- `RegisterToolsHandler`: `NewToolsClient` makes the client of a connection.
  unfoldable pub register_tools_handler :
      {Conn : Type 0}
      → (Conn → Tools R.Context R.Message S)
      → Conn
      → List (Route R S)
      → Result (Unit {0}) × List (Route R S)
  unfolding register_tools_handler_client
  register_tools_handler new_tools_client conn mux =
      register_tools_handler_client (new_tools_client conn) mux

  -- `RegisterToolsHandlerFromEndpoint`, with what becomes of the connection.
  unfoldable pub register_tools_handler_from_endpoint :
      {Conn : Type 0}
      → (String → Result Conn)
      → (Conn → Tools R.Context R.Message S)
      → String
      → List (Route R S)
      → Result (Unit {0}) × List (Route R S) × Option Closing
  unfolding register_tools_handler
  register_tools_handler_from_endpoint dial new_tools_client endpoint mux = elim (dial endpoint) [
    | err e ↦ (err e, mux, none)
    | ok conn ↦
        let (r, routes) = register_tools_handler new_tools_client conn mux in
        (r, routes, some (elim r [ ok _ ↦ when_done | err _ ↦ at_once ]))
  ]
