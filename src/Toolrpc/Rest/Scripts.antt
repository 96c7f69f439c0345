-- ===== src/Toolrpc/Rest/Scripts.antt =====
-- The tool server of toolrpc/server/tools.go behind the generated gateway: `NewRpc` and the methods
-- of `RpcServer`.
use omnicore_proxy.Base.{
  ◌≡◌, ◌∙◌, ap, ◌⊎◌, inl, inr, String, List, [], ◌∷◌, true, Option, some, Result, ok, err, and_then,
  arith, subst, sym,
}
use omnicore_proxy.Base.Int.{ℤ, pos}
use omnicore_proxy.Base.Text.{is_word, itoa_ℤ}
use omnicore_proxy.Toolrpc.Rest.{
  Runtime, Tools, PathParams, path_param, filter_address, request_send_coin,
}
use omnicore_proxy.Toolrpc.Rest.Calls.{IsDocumented, addressed}
use omnicore_proxy.Toolrpc.Server.{
  OmniCmd, Ran, close, without_semicolons, result_of, send_coin_script, send_coin, channel_send,
  mine, omni_get_balance, omni_get_property, omni_list_properties, omni_create_property,
}
use omnicore_proxy.Toolrpc.Server.Args.{send_coin-fields}

-- `RpcServer`: its client, by `SendCmd` and what the future gives, and the network.
pub record RpcServer : Type 0 where
  pub btc_client : OmniCmd → Result String
  pub net_type : String

unfoldable pub new_rpc : (OmniCmd → Result String) → String → RpcServer
new_rpc btc_client net_type = record { btc_client = btc_client; net_type = net_type }

-- The results as messages: a nil pointer is a message too. `unmarshal_…` is the JSON library's.
pub record Messages (M : Type 0) : Type 1 where
  pub Balance : Type 0
  pub Property : Type 0
  pub ListPropertiesRes : Type 0
  pub unmarshal_balance : String → Result Balance
  pub unmarshal_property : String → Result Property
  pub unmarshal_properties : String → Result ListPropertiesRes
  pub balance_res : Option Balance → M
  pub property_res : Option Property → M
  pub properties_res : Option ListPropertiesRes → M
  pub create_res : Option String → M
  pub send_res : Option String → M
  pub mine_res : String → M

module _ {M S : Type 0} (messages : Messages M) (run : List String → S → Ran × S) where
  -- The methods of the server, which keeps no state. They do not look at the context. The answers
  -- of the full node come from the server's client; the scripts change what `run` changes.
  unfoldable pub rpc_tools : {Context : Type 0} → RpcServer → Tools Context M S
  rpc_tools server = record {
    rpc_get_balance = λ ctx req s. (
      and_then
          (omni_get_balance server.btc_client messages.unmarshal_balance req.address
            req.property_id)
          (λ r. ok (messages.balance_res r)),
      s,
    );
    rpc_send_coin = λ ctx req s.
        let (r, s') = send_coin run server.net_type req s in
        (and_then r (λ out. ok (messages.send_res (some out))), s');
    rpc_channel_send = λ ctx req s.
        let (r, s') = channel_send run server.net_type req s in
        (and_then r (λ out. ok (messages.send_res out)), s');
    rpc_mine =
        λ ctx s. let (r, s') = mine run s in (and_then r (λ out. ok (messages.mine_res out)), s');
    rpc_get_property = λ ctx req s. (
      and_then (omni_get_property server.btc_client messages.unmarshal_property req.property_id)
          (λ r. ok (messages.property_res r)),
      s,
    );
    rpc_list_properties = λ ctx s. (
      and_then (omni_list_properties server.btc_client messages.unmarshal_properties)
          (λ r. ok (messages.properties_res r)),
      s,
    );
    rpc_create_property = λ ctx req s. (
      and_then (omni_create_property server.btc_client req) (λ r. ok (messages.create_res r)),
      s,
    );
  }

module _ (R : Runtime) {S : Type 0} (messages : Messages R.Message)
    (run : List String → S → Ran × S) (documented : IsDocumented R) where
  -- A request to send coins whose path names an address without a space, semicolons aside, either
  -- fails with nothing that a script could change being changed, or it runs one command on the
  -- state as it was and answers what that gives. The command is the script of the network, with
  -- the address less its semicolons as one argument or, if that is empty, none, and with one number
  -- behind it. The query cannot change the address. On mainnet it is run as on any network but
  -- regtest.
  pub request_send_coin-script :
      (server : RpcServer) (ctx : R.Context) (req : R.Request) (params : PathParams) (s : S)
      (address : String)
      → path_param params "address" ≡ some address
      → is_word (without_semicolons address) ≡ true
      → let r = request_send_coin R (rpc_tools messages run server) ctx req params s in
        ((e : String) × (r ≡ (err e, s)))
        ⊎ ((asset_id : ℤ) × (let (ran, s') =
                run
                  (send_coin_script server.net_type
                    ∷ close (without_semicolons address) (close (itoa_ℤ asset_id) []))
                  s in
              r ≡ (and_then (result_of ran) (λ out. ok (messages.send_res (some out))), s')))
  unfolding request_send_coin rpc_tools
  request_send_coin-script server ctx req params s address named word =
      let tools = rpc_tools messages run server in
      let populate = λ (form : R.Form). λ (a : String).
        R.populate_coin filter_address form (record { address = a; asset_id = pos 0 }) in
      elim (addressed R tools req params s populate (tools.rpc_send_coin ctx) documented) [
        | inl failed ↦ inl failed
        | inr (v, form, m, found, populated, called) ↦
            let v_same : v ≡ address = ground (arith, named, found) in
            let same = documented.coin_filter form _ m populated ∙ v_same in
            let ran = λ (a : String).
              run
                (send_coin_script server.net_type
                  ∷ close (without_semicolons a) (close (itoa_ℤ m.asset_id) []))
                s in
            let answer : Result String × S → Result R.Message × S =
              λ p. (and_then p.0 (λ out. ok (messages.send_res (some out))), p.1) in
            let result : String → Result String × S = λ a. (result_of (ran a).0, (ran a).1) in
            let m_word = subst (λ a. is_word (without_semicolons a) ≡ true) (sym same) word in
            inr (
              m.asset_id,
              called ∙ ap answer (send_coin-fields run server.net_type m s m_word ∙ ap result same),
            )
      ]
