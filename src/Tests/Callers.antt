-- ===== src/Tests/Callers.antt =====
-- The theorems on who calls and on the streams of the users at concrete data.
use omnicore_proxy.Base.{
  false, ℕ, ◌≡◌, refl, eq_iff, List, [], ◌∷◌, some, Result, ok, err, arith, true,
}
use omnicore_proxy.Base.Int.{pos}
use omnicore_proxy.Base.Hex.{hex_encode}
use omnicore_proxy.Base.Text.{itoa}
use omnicore_proxy.Toolrpc.Rows.{UserNode}
use omnicore_proxy.Toolrpc.Table.{IsUpdatable}
use omnicore_proxy.Toolrpc.World.{World}
use omnicore_proxy.Toolrpc.Auth.{
  Context, rsa, tls_info, userid_interceptor, userid_interceptor_stream, get_ctx_userid,
  stream_context, plain, wrapped, get_user_id_key, get_cert_pub, by_key_prefix, take_text,
  regist_method, set_grpc_header, with_context, wrap_server_stream,
}
use omnicore_proxy.Toolrpc.Auth.Identity.{
  SmallIds, IsUser, userid_interceptor-identity, userid_interceptor_stream-identity,
  get_user_id_key_same_bytes,
}
use omnicore_proxy.Toolrpc.Auth.Register.{
  Curve, RegistTlsKeyReq, regist_tls_key, rename, Registers, regist_tls_key-Registers,
}
use omnicore_proxy.Toolrpc.HeartBeat.{
  GetInvoice, GetInvoiceRes, heart_beat, greet, user_of, open_heart_beat,
}
use omnicore_proxy.Toolrpc.HeartBeat.Online.{
  overlay, online_in, UpdatesSucceed, heart_beat_failed_greeting,
}
use omnicore_proxy.Tests.Memory.{memory-IsUpdatable}
use omnicore_proxy.Tests.Services.{env, world, user}

-- An encoding that keeps the modulus as one byte behind the lengths, as DER does.
abbrev asn1 : ℕ → ℕ → Result (List ℕ)
asn1 n e = ok (48 ∷ 130 ∷ 10 ∷ 11 ∷ 12 ∷ 13 ∷ 14 ∷ 15 ∷ n ∷ [])

-- A client that sends a user identifier of its own choice.
abbrev caller : ℕ → Context
caller n = record {
  metadata = some (("userid", "77" ∷ []) ∷ []);
  peer = some (tls_info (rsa n 3 ∷ []));
}

abbrev admitted : Context
admitted = record (caller 5) { metadata = some (("userid", "1" ∷ []) ∷ []) }

small_ids : SmallIds asn1 env world
unfolding by_key_prefix
small_ids pre un h = ground (arith, eq_iff "30820a0b0c0d0e0" pre)

userid_interceptor-identity_example :
    (un : UserNode) × IsUser asn1 env (caller 5) world un × (get_ctx_userid admitted ≡ un.id)
unfolding userid_interceptor regist_method get_user_id_key get_cert_pub take_text hex_encode
    by_key_prefix set_grpc_header itoa
userid_interceptor-identity_example =
    userid_interceptor-identity asn1 env "/toolrpc.luckPkApi/GiveLuckPk" (caller 5) admitted world
      (λ e. ground (arith, (eq_iff "/toolrpc.luckPkApi/GiveLuckPk" regist_method).1 e)) small_ids
      refl

userid_interceptor_stream-identity_example :
    (un : UserNode) × IsUser asn1 env (stream_context (plain (caller 5))) world un
    × (get_ctx_userid (stream_context (wrapped admitted (plain (caller 5)))) ≡ un.id)
unfolding userid_interceptor_stream stream_context with_context wrap_server_stream get_user_id_key
    get_cert_pub take_text hex_encode by_key_prefix set_grpc_header itoa
userid_interceptor_stream-identity_example =
    userid_interceptor_stream-identity asn1 env (plain (caller 5))
      (wrapped admitted (plain (caller 5))) world small_ids refl

get_user_id_key_same_bytes_example :
    get_user_id_key asn1 env (caller 5) world ≡ get_user_id_key asn1 env (caller 6) world
get_user_id_key_same_bytes_example =
    get_user_id_key_same_bytes asn1 env (caller 5) (caller 6) world 5 6 3 3 [] [] 48 130 10 11 12 13
      14 15 (5 ∷ []) (6 ∷ []) refl refl refl refl

-- A curve whose signatures are all good.
abbrev curve : Curve
curve = record {
  PubKey = List ℕ;
  Sig = List ℕ;
  parse_pub_key = λ b. ok b;
  parse_der_signature = λ b. ok b;
  verify = λ s h k. true;
  sha256 = λ b. b;
}

abbrev request : RegistTlsKeyReq
request = record { user_node_key = 2 ∷ 3 ∷ []; sig = 9 ∷ []; alias = "alias" }

abbrev renamed_world : World env
renamed_world = record world {
  users = (env.users.save (record user { alias = "alias" }) world.users).1;
}

regist_tls_key-Registers_example :
    Registers curve asn1 env 1000 (caller 5) request world renamed_world
unfolding regist_tls_key rename get_cert_pub take_text hex_encode by_key_prefix
regist_tls_key-Registers_example =
    regist_tls_key-Registers curve asn1 env 1000 (caller 5) request world renamed_world (ok tt) refl

abbrev refund_invoice : GetInvoiceRes
refund_invoice = record { spay_id = 4; pay_req = "mine" }

-- The user with the key "payer" is not asked: any user will do.
abbrev stranger : UserNode
stranger = record user { id = 9; user_id_key = "stranger" }

users_updatable : IsUpdatable env.users (λ xs. xs) (λ x. x.id) overlay
users_updatable = memory-IsUpdatable (λ x. x.id) (λ n r. record r { id = n }) overlay

updates_succeed : UpdatesSucceed env (λ xs. xs) users_updatable
updates_succeed r u s = (_, refl)

abbrev send : GetInvoice → Result (Unit {0})
send body = err "broken"

heart_beat_failed_greeting_example :
    online_in 1 (heart_beat env false send (pos 200) (pos 300) "ip" 1 [] world).users ≡ some 1
unfolding greet user_of open_heart_beat
heart_beat_failed_greeting_example =
    heart_beat_failed_greeting env (λ xs. xs) users_updatable updates_succeed send (pos 200)
      (pos 300) "ip" 1 [] world "broken" (omega arith) (λ e. ground arith) refl
