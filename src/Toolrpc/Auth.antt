-- ===== src/Toolrpc/Auth.antt =====
-- Who calls: toolrpc/cert.go, toolrpc/util.go, the interceptors of spay/main.go, and
-- `GetUserIdKey`, `getCtxUserid` and `RegistTlsKey` of toolrpc/luckPk.go.
pub mod Identity
pub mod Register
use omnicore_proxy.Base.{
  ℕ, zero, suc, ◌+◌, ◌-◌, ◌%◌, String, ◌<>◌, str_eq, List, [], ◌∷◌, ◌++◌, length, Bool, true, false,
  not, ◌==◌, if◌then◌else◌, Option, none, some, Result, ok, err, and_then,
}
use omnicore_proxy.Base.Hex.{hex_encode}
use omnicore_proxy.Base.Text.{itoa, atoi, bytes_of}
use omnicore_proxy.Toolrpc.Rows.{UserNode, no_user_node}
use omnicore_proxy.Toolrpc.World.{Env, World}

-- `metadata.MD`: the values of each header.
abbrev pub Metadata : Type 0
Metadata = List (String × List String)

unfoldable pub lookup : String → Metadata → Option (List String)
lookup k [] = none
lookup k ((j, v) ∷ m) = if str_eq j k then some v else lookup k m

unfoldable pub insert : String → List String → Metadata → Metadata
insert k v [] = (k, v) ∷ []
insert k v ((j, u) ∷ m) = if str_eq j k then (k, v) ∷ m else (j, u) ∷ insert k v m

-- The public key of a certificate, by the cases of the type switch. The bytes of an ECDSA key are
-- its point as `elliptic.Marshal` writes it.
pub data PublicKey : Type 0 where
  rsa : ℕ → ℕ → PublicKey
  ecdsa : List ℕ → PublicKey
  ed25519 : List ℕ → PublicKey
  other : String → PublicKey

-- What the transport knows of the peer.
pub data AuthInfo : Type 0 where
  tls_info : List PublicKey → AuthInfo
  other_info : AuthInfo

-- A context: the incoming metadata and the peer, where they are there.
pub record Context : Type 0 where
  pub metadata : Option Metadata
  pub peer : Option AuthInfo

-- `status.Error(codes.Unauthenticated, text)`
abbrev pub unauthenticated : {A : Type 0} → String → Result A
unauthenticated e = err ("rpc error: code = Unauthenticated desc = " <> e)

unfoldable pub get_grpc_header : Context → String → Result String
unfolding lookup
get_grpc_header ctx header = elim ctx.metadata [
  | none ↦ unauthenticated "no headers in request"
  | some md ↦ elim (lookup header md) [
    | none ↦ unauthenticated "no header in request"
    | some values ↦ elim values [
      | [] ↦ unauthenticated "more than 1 header in request"
      | v ∷ vs ↦ elim vs [ [] ↦ ok v | _ ↦ unauthenticated "more than 1 header in request" ]
    ]
  ]
]

-- `none` is the panic of a write to a nil map.
unfoldable pub set_grpc_header : Context → String → String → Option Context
unfolding insert
set_grpc_header ctx header value = elim ctx.metadata [
  | none ↦ none
  | some md ↦ some (record ctx { metadata = some (insert header (value ∷ []) md) })
]

-- A stream, wrapped with a context of its own or not.
pub data ServerStream : Type 0 where
  plain : Context → ServerStream
  wrapped : Context → ServerStream → ServerStream

unfoldable pub stream_context : ServerStream → Context
stream_context (plain ctx) = ctx
stream_context (wrapped ctx inner) = ctx

unfoldable pub wrap_server_stream : ServerStream → ServerStream
unfolding stream_context
wrap_server_stream (plain ctx) = wrapped ctx (plain ctx)
wrap_server_stream (wrapped ctx inner) = wrapped ctx inner

-- `wrapped.WrappedContext = ctx` on a wrapped stream.
unfoldable pub with_context : Context → ServerStream → ServerStream
with_context ctx (plain old) = plain old
with_context ctx (wrapped old inner) = wrapped ctx inner

-- `getCtxUserid`: an error of the header leaves the empty text, which `Atoi` reads as 0.
unfoldable pub get_ctx_userid : Context → ℕ
unfolding get_grpc_header
get_ctx_userid ctx = elim (get_grpc_header ctx "userid") [ ok s ↦ atoi s | err e ↦ atoi "" ]

-- `s[:n]`: `none` is the panic of a text that is too short.
unfoldable pub take_text : ℕ → String → Option String
take_text zero s = some String.[]
take_text (suc n) String.[] = none
take_text (suc n) (String.◌∷◌ c s) = elim (take_text n s) [
  | none ↦ none
  | some t ↦ some (String.◌∷◌ c t)
]

-- The condition of `db.First(un, un)` on a prefix of the key: a zero field is no condition.
unfoldable pub by_key_prefix : String → UserNode → Bool
by_key_prefix pre un = if str_eq pre "" then true else str_eq un.tls_pub_key_pre pre

unfoldable pub regist_method : String
regist_method = "/toolrpc.luckPkApi/RegistTlsKey"

-- The interceptors call the handler with a context, return an error, or panic.
pub data Intercepted (C : Type 0) : Type 0 where
  calls : C → Intercepted C
  rejects : String → Intercepted C
  panics : Intercepted C

-- `asn1` is `asn1.Marshal` of an RSA key.
module _ (asn1 : ℕ → ℕ → Result (List ℕ)) where
  unfoldable pub pub_key_str : PublicKey → Result String
  pub_key_str (rsa n e) = elim (asn1 n e) [
    | ok bytes ↦ ok (hex_encode bytes)
    | err _ ↦ err "error rsa.PublicKey"
  ]
  pub_key_str (ecdsa bytes) = ok (hex_encode bytes)
  pub_key_str (ed25519 bytes) = ok (hex_encode bytes)
  pub_key_str (other type_name) = err ("x509: unsupported public key type: " <> type_name)

  unfoldable pub cert_key : List PublicKey → Result String
  unfolding pub_key_str
  cert_key [] = unauthenticated "getCertPub client miss tls cert"
  cert_key (key ∷ keys) = elim (pub_key_str key) [ ok s ↦ ok s | err e ↦ unauthenticated e ]

  unfoldable pub get_cert_pub : Context → Result String
  unfolding cert_key
  get_cert_pub ctx = elim ctx.peer [
    | none ↦ unauthenticated "getCertPub no peer found"
    | some info ↦ elim info [
      | tls_info keys ↦ cert_key keys
      | other_info ↦ unauthenticated "getCertPub unexpected peer transport credentials"
    ]
  ]

  module _ (E : Env) where
    -- `GetUserIdKey`: the identifier of the user as a text. `none` is a panic.
    unfoldable pub get_user_id_key : Context → World E → Option (Result String)
    get_user_id_key ctx w = elim (get_cert_pub ctx) [
      | err e ↦ some (err e)
      | ok key ↦ elim (take_text 15 key) [
        | none ↦ none
        | some pre ↦ elim (E.users.first (by_key_prefix pre) w.users) [
          | err e ↦ some (unauthenticated e)
          | ok un ↦ some (ok (itoa un.id))
        ]
      ]
    ]

    unfoldable pub userid_interceptor : String → Context → World E → Intercepted Context
    userid_interceptor full_method ctx w =
        if str_eq full_method regist_method then calls ctx else elim (get_user_id_key ctx w) [
          | none ↦ panics
          | some (err e) ↦ rejects e
          | some (ok userid) ↦ elim (set_grpc_header ctx "userid" userid) [
            | none ↦ panics
            | some ctx' ↦ calls ctx'
          ]
        ]

    unfoldable pub userid_interceptor_stream : ServerStream → World E → Intercepted ServerStream
    userid_interceptor_stream stream w =
        let ctx = stream_context stream in
        elim (get_user_id_key ctx w) [
          | none ↦ panics
          | some (err e) ↦ rejects e
          | some (ok userid) ↦ elim (set_grpc_header ctx "userid" userid) [
            | none ↦ panics
            | some ctx' ↦ calls (with_context ctx' (wrap_server_stream stream))
          ]
        ]
