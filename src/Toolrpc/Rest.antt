-- ===== src/Toolrpc/Rest.antt =====
-- toolrpc/proto.pb.gw.go: what the generated gateway makes of an HTTP request. The functions of
-- grpc-gateway's runtime are parameters; the metadata of the answers is not modelled.
pub mod Register
pub mod Calls
pub mod Served
pub mod Scripts
use omnicore_proxy.Base.{
  ℕ, String, str_eq, List, [], ◌∷◌, if◌then◌else◌, Option, none, some, Result, ok, err, map_err,
  Action, pure, fail, ◌>>=◌, ◌>>◌,
}
use omnicore_proxy.Base.Int.{ℤ, pos}
use omnicore_proxy.Toolrpc.Server.{OmniSendCoinReq, CreatePropertyReq}

-- The messages that have no definition yet, with the fields that are read.
pub record OmniGetbalanceReq : Type 0 where
  pub address : String
  pub property_id : ℤ

pub record OmniGetPropertyReq : Type 0 where
  pub property_id : ℤ

-- `utilities.DoubleArray`, as it stands in the generated code.
pub record DoubleArray : Type 0 where
  pub encoding : List (String × ℕ)
  pub base : List ℕ
  pub check : List ℕ

-- The filters of `GetBalance`, `SendCoin` and `ChannelSend` are three equal values.
unfoldable pub filter_address : DoubleArray
filter_address = record {
  encoding = ("address", 0) ∷ [];
  base = 1 ∷ 1 ∷ 0 ∷ [];
  check = 0 ∷ 1 ∷ 2 ∷ [];
}

-- How a decoder fails: `io.EOF`, or an error by its text.
pub data DecodeError : Type 0 where
  eof : DecodeError
  bad_body : String → DecodeError

-- What is used of `runtime`, `utilities` and `status`. `invalid_argument` is the text of the error
-- that `status.Errorf` makes of `codes.InvalidArgument`; the messages are filled in as pointers, so
-- `decode_property` gives the message also beside an error.
pub record Runtime : Type 1 where
  pub Request : Type 0
  pub Context : Type 0
  pub Form : Type 0
  pub Body : Type 0
  pub Message : Type 0
  pub Answer : Type 0
  pub invalid_argument : String → String
  pub missing_parameter : String → String
  pub type_mismatch : String → String → String
  pub string_value : String → Result String
  pub int64_value : String → Result ℤ
  pub parse_form : Request → Result Form
  pub populate_balance : DoubleArray → Form → OmniGetbalanceReq → Result OmniGetbalanceReq
  pub populate_coin : DoubleArray → Form → OmniSendCoinReq → Result OmniSendCoinReq
  pub read_body : Request → Result Body
  pub decode_property : Body → CreatePropertyReq × Option DecodeError
  pub annotate_context : String → String → Request → Result Context
  pub write_error : String → Answer
  pub forward_response_message : Message → Answer

-- `ToolsClient` and `ToolsServer`: the same methods, over the state that they reach.
pub record Tools (Context Message S : Type 0) : Type 0 where
  pub rpc_get_balance : Context → OmniGetbalanceReq → Action S Message
  pub rpc_send_coin : Context → OmniSendCoinReq → Action S Message
  pub rpc_channel_send : Context → OmniSendCoinReq → Action S Message
  pub rpc_mine : Context → Action S Message
  pub rpc_get_property : Context → OmniGetPropertyReq → Action S Message
  pub rpc_list_properties : Context → Action S Message
  pub rpc_create_property : Context → CreatePropertyReq → Action S Message

-- The parameters that the pattern found in the path, a map.
abbrev pub PathParams : Type 0
PathParams = List (String × String)

unfoldable pub path_param : PathParams → String → Option String
path_param [] name = none
path_param ((k, v) ∷ params) name = if str_eq k name then some v else path_param params name

abbrev pub call : {S A : Type 0} → Result A → Action S A
call r s = (r, s)

module _ (R : Runtime) where
  -- An error that becomes an invalid argument.
  abbrev pub checked_argument : {A : Type 0} → Result A → Result A
  checked_argument = map_err R.invalid_argument

  -- A parameter of the path as a value of its type, as each of the functions reads it.
  abbrev pub param_value : {A : Type 0} → (String → Result A) → String → PathParams → Result A
  param_value parse name params = elim (path_param params name) [
    | none ↦ err (R.invalid_argument (R.missing_parameter name))
    | some val ↦ map_err (λ e. R.invalid_argument (R.type_mismatch name e)) (parse val)
  ]

  -- The message of a body: an empty body is no error.
  abbrev pub body_message : CreatePropertyReq × Option DecodeError → Result CreatePropertyReq
  body_message (m, none) = ok m
  body_message (m, some eof) = ok m
  body_message (m, some (bad_body e)) = err (R.invalid_argument e)

  -- The `request_Tools_…_0` functions, on a client.
  module _ {S : Type 0} (client : Tools R.Context R.Message S) where
    unfoldable pub request_get_balance : R.Context → R.Request → PathParams → Action S R.Message
    unfolding path_param filter_address
    request_get_balance ctx req params = do
      address ← call (param_value R.string_value "address" params)
      form ← call (checked_argument (R.parse_form req))
      m ← call (
          checked_argument (
            R.populate_balance filter_address form
              (record { address = address; property_id = pos 0 })))
      client.rpc_get_balance ctx m

    unfoldable pub request_send_coin : R.Context → R.Request → PathParams → Action S R.Message
    unfolding path_param filter_address
    request_send_coin ctx req params = do
      address ← call (param_value R.string_value "address" params)
      form ← call (checked_argument (R.parse_form req))
      m ← call (
          checked_argument
            (R.populate_coin filter_address form (record { address = address; asset_id = pos 0 })))
      client.rpc_send_coin ctx m

    unfoldable pub request_channel_send : R.Context → R.Request → PathParams → Action S R.Message
    unfolding path_param filter_address
    request_channel_send ctx req params = do
      address ← call (param_value R.string_value "address" params)
      form ← call (checked_argument (R.parse_form req))
      m ← call (
          checked_argument
            (R.populate_coin filter_address form (record { address = address; asset_id = pos 0 })))
      client.rpc_channel_send ctx m

    unfoldable pub request_mine : R.Context → R.Request → PathParams → Action S R.Message
    request_mine ctx req params = client.rpc_mine ctx

    unfoldable pub request_get_property : R.Context → R.Request → PathParams → Action S R.Message
    unfolding path_param
    request_get_property ctx req params = do
      id ← call (param_value R.int64_value "property_id" params)
      client.rpc_get_property ctx (record { property_id = id })

    unfoldable pub request_list_properties : R.Context → R.Request → PathParams → Action S R.Message
    request_list_properties ctx req params = client.rpc_list_properties ctx

    unfoldable pub request_create_property : R.Context → R.Request → PathParams → Action S R.Message
    request_create_property ctx req params = do
      body ← call (checked_argument (R.read_body req))
      m ← call (body_message (R.decode_property body))
      client.rpc_create_property ctx m
