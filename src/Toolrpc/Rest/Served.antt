-- ===== src/Toolrpc/Rest/Served.antt =====
-- What a handler of the generated gateway calls.
use omnicore_proxy.Base.{
  refl, ◌∙◌, ap, sym, inl, inr, String, List, some, Result-cases, Option-cases, All, All-append,
}
use omnicore_proxy.Base.Int.{pos}
use omnicore_proxy.Toolrpc.Rest.{
  Runtime, Tools, PathParams, path_param, filter_address, request_get_balance, request_send_coin,
  request_channel_send, request_mine, request_get_property, request_list_properties,
  request_create_property, param_value, body_message,
}
use omnicore_proxy.Toolrpc.Rest.Calls.{
  get_balance_call, send_coin_call, channel_send_call, mine_call, list_properties_call,
  get_property_call, create_property_call, IsDocumented, Requests, IsServed, handler-IsServed,
  addressed,
}
use omnicore_proxy.Toolrpc.Rest.Register.{
  with_param, without_param, Route, register_tools_handler_client, pattern_get_balance,
  pattern_send_coin, pattern_channel_send, pattern_mine, pattern_get_property,
  pattern_list_properties, pattern_create_property,
}

module _ (R : Runtime) {S : Type 0} (client : Tools R.Context R.Message S)
    (documented : IsDocumented R) where
  get_balance-Requests :
      (ctx : R.Context) (req : R.Request) (params : PathParams) (s : S)
      → Requests R client
          ("GET", with_param "GetBalance" "address")
          params
          s
          ctx
          (request_get_balance R client ctx req params s)
  unfolding request_get_balance
  get_balance-Requests ctx req params s =
      let populate = λ (form : R.Form). λ (address : String).
        R.populate_balance filter_address form
          (record { address = address; property_id = pos 0 }) in
      elim (addressed R client req params s populate (client.rpc_get_balance ctx) documented) [
        | inl failed ↦ inl failed
        | inr (v, form, m, found, populated, called) ↦
            let same = documented.balance_filter form _ m populated in
            inr (get_balance_call m, refl, found ∙ ap some (sym same), called)
      ]

  send_coin-Requests :
      (ctx : R.Context) (req : R.Request) (params : PathParams) (s : S)
      → Requests R client
          ("GET", with_param "SendCoin" "address")
          params
          s
          ctx
          (request_send_coin R client ctx req params s)
  unfolding request_send_coin
  send_coin-Requests ctx req params s =
      let populate = λ (form : R.Form). λ (address : String).
        R.populate_coin filter_address form (record { address = address; asset_id = pos 0 }) in
      elim (addressed R client req params s populate (client.rpc_send_coin ctx) documented) [
        | inl failed ↦ inl failed
        | inr (v, form, m, found, populated, called) ↦
            let same = documented.coin_filter form _ m populated in
            inr (send_coin_call m, refl, found ∙ ap some (sym same), called)
      ]

  channel_send-Requests :
      (ctx : R.Context) (req : R.Request) (params : PathParams) (s : S)
      → Requests R client
          ("GET", with_param "ChannelSend" "address")
          params
          s
          ctx
          (request_channel_send R client ctx req params s)
  unfolding request_channel_send
  channel_send-Requests ctx req params s =
      let populate = λ (form : R.Form). λ (address : String).
        R.populate_coin filter_address form (record { address = address; asset_id = pos 0 }) in
      elim (addressed R client req params s populate (client.rpc_channel_send ctx) documented) [
        | inl failed ↦ inl failed
        | inr (v, form, m, found, populated, called) ↦
            let same = documented.coin_filter form _ m populated in
            inr (channel_send_call m, refl, found ∙ ap some (sym same), called)
      ]

  get_property-Requests :
      (ctx : R.Context) (req : R.Request) (params : PathParams) (s : S)
      → Requests R client
          ("GET", with_param "Propertis" "property_id")
          params
          s
          ctx
          (request_get_property R client ctx req params s)
  unfolding request_get_property
  get_property-Requests ctx req params s = elim (Option-cases (path_param params "property_id")) [
    | inl missing ↦
        inl (R.invalid_argument (R.missing_parameter "property_id"), rw (param_value, missing) refl)
    | inr (v, found) ↦ elim (Result-cases (R.int64_value v)) [
      | inr (e, bad) ↦
          inl (
            R.invalid_argument (R.type_mismatch "property_id" e),
            rw (param_value, found, bad) refl,
          )
      | inl (id, parsed) ↦ inr (
        get_property_call (record { property_id = id }),
        refl,
        (v, found, parsed),
        rw (param_value, found, parsed) refl,
      )
    ]
  ]

  create_property-Requests :
      (ctx : R.Context) (req : R.Request) (params : PathParams) (s : S)
      → Requests R client
          ("POST", without_param "Propertis")
          params
          s
          ctx
          (request_create_property R client ctx req params s)
  unfolding request_create_property
  create_property-Requests ctx req params s = elim (Result-cases (R.read_body req)) [
    | inr (e, bad) ↦ inl (R.invalid_argument e, rw bad refl)
    | inl (body, read) ↦ elim (Result-cases (body_message R (R.decode_property body))) [
      | inr (e, bad) ↦ inl (e, rw (read, bad) refl)
      | inl (m, decoded) ↦ inr (create_property_call m, refl, tt, rw (read, decoded) refl)
    ]
  ]

  -- Every route that the generated gateway registers answers without a call and changes
  -- nothing, or makes one call, of the method that is annotated with its HTTP method and path,
  -- on the address or the property that the path names, whatever the query says.
  pub register-AllServed :
      (mux : List (Route R S))
      → All (IsServed R client) mux
      → All (IsServed R client) (register_tools_handler_client R client mux).1
  unfolding register_tools_handler_client request_mine request_list_properties pattern_get_balance
      pattern_send_coin pattern_channel_send pattern_mine pattern_get_property
      pattern_list_properties pattern_create_property
  register-AllServed mux h = All-append (IsServed R client) mux _ h (
    handler-IsServed R client _ _ "GET" _ _ get_balance-Requests,
    (
      handler-IsServed R client _ _ "GET" _ _ send_coin-Requests,
      (
        handler-IsServed R client _ _ "GET" _ _ channel_send-Requests,
        (
          handler-IsServed R client _ _ "GET" _ _
              (λ ctx req params s. inr (mine_call, refl, tt, refl)),
          (
            handler-IsServed R client _ _ "GET" _ _ get_property-Requests,
            (
              handler-IsServed R client _ _ "GET" _ _
                  (λ ctx req params s. inr (list_properties_call, refl, tt, refl)),
              (handler-IsServed R client _ _ "POST" _ _ create_property-Requests, tt),
            ),
          ),
        ),
      ),
    ),
  )
