-- ===== src/Toolrpc/Rest/Calls.antt =====
-- The calls that a handler of the generated gateway can make.
use omnicore_proxy.Base.{
  ◌≡◌, refl, ◌⊎◌, inl, inr, String, some, Result, ok, err, Action, ◌>>=◌, arith, Result-cases,
  Option-cases,
}
use omnicore_proxy.Toolrpc.Rest.{
  Runtime, Tools, PathParams, path_param, call, filter_address, OmniGetbalanceReq,
  OmniGetPropertyReq, param_value, checked_argument,
}
use omnicore_proxy.Toolrpc.Rest.Register.{Pattern, with_param, without_param, Route, remote}
use omnicore_proxy.Toolrpc.Server.{OmniSendCoinReq, CreatePropertyReq}

-- The calls that a request can lead to.
pub data Call : Type 0 where
  get_balance_call : OmniGetbalanceReq → Call
  send_coin_call channel_send_call : OmniSendCoinReq → Call
  mine_call list_properties_call : Call
  get_property_call : OmniGetPropertyReq → Call
  create_property_call : CreatePropertyReq → Call

-- The annotations of the methods in toolrpc/proto.proto.
abbrev pub annotated : Call → String × Pattern
annotated (get_balance_call m) = ("GET", with_param "GetBalance" "address")
annotated (send_coin_call m) = ("GET", with_param "SendCoin" "address")
annotated (channel_send_call m) = ("GET", with_param "ChannelSend" "address")
annotated mine_call = ("GET", without_param "Mine")
annotated (get_property_call m) = ("GET", with_param "Propertis" "property_id")
annotated list_properties_call = ("GET", without_param "Propertis")
annotated (create_property_call m) = ("POST", without_param "Propertis")

module _ (R : Runtime) where
  -- What the runtime documents: a text is its own value, and a filtered field is left as it is.
  pub record IsDocumented : Type 0 where
    pub text : (v : String) → R.string_value v ≡ ok v
    pub balance_filter :
        (form : R.Form) (m m' : OmniGetbalanceReq)
        → R.populate_balance filter_address form m ≡ ok m'
        → m'.address ≡ m.address
    pub coin_filter :
        (form : R.Form) (m m' : OmniSendCoinReq)
        → R.populate_coin filter_address form m ≡ ok m'
        → m'.address ≡ m.address

  -- The message carries what the path names.
  abbrev pub IsNamed : PathParams → Call → Type 0
  IsNamed params (get_balance_call m) = path_param params "address" ≡ some m.address
  IsNamed params (send_coin_call m) = path_param params "address" ≡ some m.address
  IsNamed params (channel_send_call m) = path_param params "address" ≡ some m.address
  IsNamed params mine_call = Unit {0}
  IsNamed params (get_property_call m) =
      (v : String) × (path_param params "property_id" ≡ some v)
      × (R.int64_value v ≡ ok m.property_id)
  IsNamed params list_properties_call = Unit {0}
  IsNamed params (create_property_call m) = Unit {0}

  module _ {S : Type 0} (client : Tools R.Context R.Message S) where
    abbrev pub perform : Call → R.Context → Action S R.Message
    perform (get_balance_call m) ctx = client.rpc_get_balance ctx m
    perform (send_coin_call m) ctx = client.rpc_send_coin ctx m
    perform (channel_send_call m) ctx = client.rpc_channel_send ctx m
    perform mine_call ctx = client.rpc_mine ctx
    perform (get_property_call m) ctx = client.rpc_get_property ctx m
    perform list_properties_call ctx = client.rpc_list_properties ctx
    perform (create_property_call m) ctx = client.rpc_create_property ctx m

    abbrev pub reply : Result R.Message × S → R.Answer × S
    reply (r, s) = elim r [
      | ok m ↦ (R.forward_response_message m, s)
      | err e ↦ (R.write_error e, s)
    ]

    -- A request that fails in front of any call, or one call of the annotated kind.
    abbrev pub Requests :
        String × Pattern → PathParams → S → R.Context → Result R.Message × S → Type 0
    Requests kind params s ctx r =
        ((e : String) × (r ≡ (err e, s)))
        ⊎ ((c : Call) × (annotated c ≡ kind) × IsNamed params c × (r ≡ perform c ctx s))

    -- A route whose handler changes nothing and writes an error, or makes one call, of its own
    -- method and pattern and with what the path names, and writes what that gives.
    abbrev pub IsServed : Route R S → Type 0
    IsServed route =
        (req : R.Request) (params : PathParams) (s : S)
        → ((e : String) × (route.handler req params s ≡ (R.write_error e, s)))
          ⊎ ((ctx : R.Context) × (c : Call) × (annotated c ≡ (route.http_method, route.pattern))
              × IsNamed params c
              × (route.handler req params s ≡ reply (perform c ctx s)))

    pub handler-IsServed :
        (rpc path method : String) (pattern : Pattern)
        (f : R.Context → R.Request → PathParams → Action S R.Message)
        → ((ctx : R.Context) (req : R.Request) (params : PathParams) (s : S)
            → Requests (method, pattern) params s ctx (f ctx req params s))
        → IsServed
            (record { http_method = method; pattern = pattern; handler = remote R rpc path f })
    handler-IsServed rpc path method pattern f h req params s =
        elim (Result-cases (R.annotate_context rpc path req)) [
          | inr (e, bad) ↦ inl (e, ground arith)
          | inl (ctx, good) ↦ elim (h ctx req params s) [
            | inl (e, failed) ↦ inl (e, ground arith)
            | inr (c, kind, named, called) ↦ inr (ctx, c, kind, named, ground (arith, called))
          ]
        ]

    -- The three requests with an address and a query read them in the same way.
    pub addressed :
        {A : Type 0} (req : R.Request) (params : PathParams) (s : S)
        (populate : R.Form → String → Result A) (k : A → Action S R.Message)
        → IsDocumented
        → let r =
            (do
              address ← call (param_value R R.string_value "address" params)
              form ← call (checked_argument R (R.parse_form req))
              m ← call (checked_argument R (populate form address))
              k m)
              s in
          ((e : String) × (r ≡ (err e, s)))
          ⊎ ((v : String) × (form : R.Form) × (m : A) × (path_param params "address" ≡ some v)
              × (populate form v ≡ ok m)
              × (r ≡ k m s))
    addressed req params s populate k d = elim (Option-cases (path_param params "address")) [
      | inl missing ↦
          inl (R.invalid_argument (R.missing_parameter "address"), rw (param_value, missing) refl)
      | inr (v, found) ↦ elim (Result-cases (R.parse_form req)) [
        | inr (e, bad) ↦ inl (R.invalid_argument e, rw (param_value, found, d.text v, bad) refl)
        | inl (form, parsed) ↦ elim (Result-cases (populate form v)) [
          | inr (e, bad) ↦
              inl (R.invalid_argument e, rw (param_value, found, d.text v, parsed, bad) refl)
          | inl (m, populated) ↦ inr (
            v,
            form,
            m,
            found,
            populated,
            rw (param_value, found, d.text v, parsed, populated) refl,
          )
        ]
      ]
    ]
