-- ===== src/Tests/Rest.antt =====
-- The theorems on the generated gateway at concrete data.
use omnicore_proxy.Base.{
  ◌≡◌, ◌⊎◌, refl, arith, String, ◌<>◌, List, [], ◌∷◌, All, none, some, ok, err, and_then,
}
use omnicore_proxy.Base.Int.{ℤ, pos}
use omnicore_proxy.Base.Text.{itoa_ℤ, is_word, is_space}
use omnicore_proxy.Toolrpc.Rest.{Runtime, Tools, path_param, request_send_coin}
use omnicore_proxy.Toolrpc.Rest.Calls.{IsDocumented, IsServed}
use omnicore_proxy.Toolrpc.Rest.Register.{register_tools_handler_client}
use omnicore_proxy.Toolrpc.Rest.Scripts.{RpcServer, Messages, rpc_tools, request_send_coin-script}
use omnicore_proxy.Toolrpc.Rest.Served.{register-AllServed}
use omnicore_proxy.Toolrpc.Server.{Ran, close, result_of, without_semicolons, send_coin_script}

-- A request is the asset of its query, a response is its text.
abbrev pub runtime : Runtime
runtime = record {
  Request = ℤ;
  Context = String;
  Form = ℤ;
  Body = String;
  Message = String;
  Answer = String;
  invalid_argument = λ e. "InvalidArgument: " <> e;
  missing_parameter = λ name. "missing parameter " <> name;
  type_mismatch = λ name e. name <> e;
  string_value = λ v. ok v;
  int64_value = λ v. ok (pos 31);
  parse_form = λ req. ok req;
  populate_balance = λ filter form m. ok (record m { property_id = form });
  populate_coin = λ filter form m. ok (record m { asset_id = form });
  read_body = λ req. err "no body";
  decode_property = λ body. (record { fromaddress = body; name = body; amount = body }, none);
  annotate_context = λ rpc path req. ok rpc;
  write_error = λ e. e;
  forward_response_message = λ m. m;
}

documented : IsDocumented runtime
documented = record {
  text = λ v. refl;
  balance_filter = λ form m m' h. ground arith;
  coin_filter = λ form m m' h. ground arith;
}

abbrev messages : Messages String
messages = record {
  Balance = String;
  Property = String;
  ListPropertiesRes = String;
  unmarshal_balance = λ s. ok s;
  unmarshal_property = λ s. ok s;
  unmarshal_properties = λ s. ok s;
  balance_res = λ o. "balance";
  property_res = λ o. "property";
  properties_res = λ o. "properties";
  create_res = λ o. "created";
  send_res = λ o. elim o [ none ↦ "nil" | some out ↦ out ];
  mine_res = λ out. out;
}

-- A shell that writes the name of the script, and keeps the commands that were run.
abbrev pub Shell : Type 0
Shell = List (List String)

abbrev shell : List String → Shell → Ran × Shell
shell [] s = (record { error = some "no command"; out = "" }, s)
shell (script ∷ args) s = (record { error = none; out = script }, (script ∷ args) ∷ s)

abbrev rpc : RpcServer
rpc = record { btc_client = λ cmd. ok "null"; net_type = "regtest" }

abbrev pub tools : Tools String String Shell
tools = rpc_tools messages shell rpc

abbrev params : List (String × String)
params = ("address", "02ab;") ∷ []

request_send_coin-script_example :
    let r = request_send_coin runtime tools "ctx" (pos 31) params [] in
    ((e : String) × (r ≡ (err e, [])))
    ⊎ ((asset_id : ℤ) × (let (ran, s') =
            shell ("scripts/send_coin.sh" ∷ close "02ab" (close (itoa_ℤ asset_id) [])) [] in
          r ≡ (and_then (result_of ran) (λ out. ok out), s')))
unfolding path_param is_word is_space without_semicolons send_coin_script
request_send_coin-script_example =
    request_send_coin-script runtime messages shell documented rpc "ctx" (pos 31) params [] "02ab;"
      refl refl

register-AllServed_example :
    All (IsServed runtime tools) (register_tools_handler_client runtime tools []).1
register-AllServed_example = register-AllServed runtime tools documented [] tt
