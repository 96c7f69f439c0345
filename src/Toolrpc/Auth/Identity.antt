-- ===== src/Toolrpc/Auth/Identity.antt =====
-- Which user a handler sees.
use omnicore_proxy.Base.{
  ℕ, ◌<◌, ◌^◌, ◌≡◌, ◌≢◌, refl, ap, String, eq_iff, List, [], ◌∷◌, none, some, Result, ok, arith,
  Result-cases, Option-cases, inl, inr,
}
use omnicore_proxy.Base.Hex.{hex_encode}
use omnicore_proxy.Base.Text.{itoa, atoi-itoa}
use omnicore_proxy.Toolrpc.Rows.{UserNode}
use omnicore_proxy.Toolrpc.World.{Env, World}
use omnicore_proxy.Toolrpc.Auth.{
  Metadata, lookup, insert, Context, get_grpc_header, set_grpc_header, get_ctx_userid, take_text,
  by_key_prefix, get_cert_pub, get_user_id_key, userid_interceptor, userid_interceptor_stream,
  regist_method, calls, ServerStream, stream_context, plain, wrapped, PublicKey, rsa, tls_info,
  with_context, wrap_server_stream,
}

lookup-insert_self :
    (k : String) (v : List String) (m : Metadata) → lookup k (insert k v m) ≡ some v
unfolding lookup insert
lookup-insert_self k v [] = ground (arith, eq_iff k k)
lookup-insert_self k v ((j, u) ∷ m) =
    ground (arith, eq_iff k k, eq_iff j k, lookup-insert_self k v m)

-- What a header was set to is read back, whatever the client sent under that name.
get_grpc_header-set_grpc_header :
    (ctx ctx' : Context) (header value : String)
    → set_grpc_header ctx header value ≡ some ctx'
    → get_grpc_header ctx' header ≡ ok value
unfolding get_grpc_header set_grpc_header
get_grpc_header-set_grpc_header ctx ctx' header value h = elim (Option-cases ctx.metadata) [
  | inl absent ↦ ground arith
  | inr (md, e) ↦
      let e' : ctx'.metadata ≡ some (insert header (value ∷ []) md) = ground arith in
      ground (arith, lookup-insert_self header (value ∷ []) md)
]

get_ctx_userid-itoa :
    (ctx ctx' : Context) (n : ℕ)
    → n < 2 ^ 63
    → set_grpc_header ctx "userid" (itoa n) ≡ some ctx'
    → get_ctx_userid ctx' ≡ n
unfolding get_ctx_userid
get_ctx_userid-itoa ctx ctx' n h e =
    ground (arith, get_grpc_header-set_grpc_header ctx ctx' "userid" (itoa n) e, atoi-itoa n h)

stream_context-wrapped :
    (ctx : Context) (stream : ServerStream)
    → stream_context (with_context ctx (wrap_server_stream stream)) ≡ ctx
unfolding stream_context with_context wrap_server_stream
stream_context-wrapped ctx (plain old) = refl
stream_context-wrapped ctx (wrapped old inner) = refl

-- The first 15 hex digits of eight bytes.
prefix_of : ℕ → ℕ → ℕ → ℕ → ℕ → ℕ → ℕ → ℕ → String
prefix_of b0 b1 b2 b3 b4 b5 b6 b7 =
    elim (take_text 15 (hex_encode (b0 ∷ b1 ∷ b2 ∷ b3 ∷ b4 ∷ b5 ∷ b6 ∷ b7 ∷ []))) [
      | none ↦ ""
      | some t ↦ t
    ]

take_text-hex_encode :
    (b0 b1 b2 b3 b4 b5 b6 b7 : ℕ) (rest : List ℕ)
    → take_text 15 (hex_encode (b0 ∷ b1 ∷ b2 ∷ b3 ∷ b4 ∷ b5 ∷ b6 ∷ b7 ∷ rest))
      ≡ some (prefix_of b0 b1 b2 b3 b4 b5 b6 b7)
unfolding prefix_of take_text hex_encode
take_text-hex_encode b0 b1 b2 b3 b4 b5 b6 b7 rest = refl

module _ (asn1 : ℕ → ℕ → Result (List ℕ)) (E : Env) where
  -- The identifiers of the users fit an int64.
  abbrev pub SmallIds : World E → Type 0
  SmallIds w =
      (pre : String) (un : UserNode)
      → E.users.first (by_key_prefix pre) w.users ≡ ok un
      → un.id < 2 ^ 63

  -- The user that a certificate stands for, by the first 15 hex digits of its key.
  pub record IsUser (ctx : Context) (w : World E) (un : UserNode) : Type 0 where
    pub key : String
    pub pre : String
    pub presented : get_cert_pub asn1 ctx ≡ ok key
    pub cut : take_text 15 key ≡ some pre
    pub known : E.users.first (by_key_prefix pre) w.users ≡ ok un

  get_user_id_key-IsUser :
      (ctx : Context) (w : World E) (s : String)
      → get_user_id_key asn1 E ctx w ≡ some (ok s)
      → (un : UserNode) × IsUser ctx w un × (s ≡ itoa un.id)
  unfolding get_user_id_key
  get_user_id_key-IsUser ctx w s h = elim (Result-cases (get_cert_pub asn1 ctx)) [
    | inr (e, g) ↦ ground arith
    | inl (key, g) ↦ elim (Option-cases (take_text 15 key)) [
      | inl short ↦ ground arith
      | inr (pre, t) ↦ elim (Result-cases (E.users.first (by_key_prefix pre) w.users)) [
        | inr (e, f) ↦ ground arith
        | inl (un, f) ↦
            (un, record { key = key; pre = pre; presented = g; cut = t; known = f }, ground arith)
      ]
    ]
  ]

  -- Every method but the registration is handled only for a certificate that stands for a user,
  -- and the handler reads that user's identifier, whatever headers the client sent. The
  -- identifiers fit an int64.
  pub userid_interceptor-identity :
      (full_method : String) (ctx ctx' : Context) (w : World E)
      → full_method ≢ regist_method
      → SmallIds w
      → userid_interceptor asn1 E full_method ctx w ≡ calls ctx'
      → (un : UserNode) × IsUser ctx w un × (get_ctx_userid ctx' ≡ un.id)
  unfolding userid_interceptor
  userid_interceptor-identity full_method ctx ctx' w ne small h =
      elim (Option-cases (get_user_id_key asn1 E ctx w)) [
        | inl panic ↦ ground (arith, eq_iff full_method regist_method)
        | inr (r, e) ↦ elim (Result-cases r) [
          | inr (m, bad) ↦ ground (arith, eq_iff full_method regist_method)
          | inl (s, good) ↦
              let (un, user, text) = get_user_id_key-IsUser ctx w s (rw e (ap some good)) in
              (
                un,
                user,
                get_ctx_userid-itoa ctx ctx' un.id (small user.pre un user.known)
                    (ground (arith, eq_iff full_method regist_method)),
              )
        ]
      ]

  -- A stream is handled only for a certificate that stands for a user, and its handler reads that
  -- user's identifier, whatever headers the client sent. The identifiers fit an int64.
  pub userid_interceptor_stream-identity :
      (stream stream' : ServerStream) (w : World E)
      → SmallIds w
      → userid_interceptor_stream asn1 E stream w ≡ calls stream'
      → (un : UserNode) × IsUser (stream_context stream) w un
        × (get_ctx_userid (stream_context stream') ≡ un.id)
  unfolding userid_interceptor_stream
  userid_interceptor_stream-identity stream stream' w small h =
      let ctx = stream_context stream in
      elim (Option-cases (get_user_id_key asn1 E ctx w)) [
        | inl panic ↦ ground arith
        | inr (r, e) ↦ elim (Result-cases r) [
          | inr (m, bad) ↦ ground arith
          | inl (s, good) ↦
              let (un, user, text) = get_user_id_key-IsUser ctx w s (rw e (ap some good)) in
              elim (Option-cases (set_grpc_header ctx "userid" s)) [
                | inl panic ↦ ground arith
                | inr (ctx', set) ↦ (
                  un,
                  user,
                  ground (
                    arith,
                    stream_context-wrapped ctx' stream,
                    get_ctx_userid-itoa ctx ctx' un.id (small user.pre un user.known),
                  ),
                )
              ]
        ]
      ]

  get_user_id_key_of_prefix :
      (ctx ctx' : Context) (w : World E) (key key' pre : String)
      → get_cert_pub asn1 ctx ≡ ok key
      → get_cert_pub asn1 ctx' ≡ ok key'
      → take_text 15 key ≡ some pre
      → take_text 15 key' ≡ some pre
      → get_user_id_key asn1 E ctx w ≡ get_user_id_key asn1 E ctx' w
  unfolding get_user_id_key
  get_user_id_key_of_prefix ctx ctx' w key key' pre g g' t t' = ground arith

  get_cert_pub-rsa :
      (ctx : Context) (n m : ℕ) (keys : List PublicKey) (bytes : List ℕ)
      → ctx.peer ≡ some (tls_info (rsa n m ∷ keys))
      → asn1 n m ≡ ok bytes
      → get_cert_pub asn1 ctx ≡ ok (hex_encode bytes)
  unfolding get_cert_pub
  get_cert_pub-rsa ctx n m keys bytes p a = ground arith

  -- Two clients with RSA certificates whose encoded keys begin with the same eight bytes are the
  -- same user, in every state of the database: the first 15 hex digits of the key are all that is
  -- compared. The encodings of all keys of one common size begin so, with their lengths.
  pub get_user_id_key_same_bytes :
      (ctx ctx' : Context) (w : World E) (n n' m m' : ℕ) (keys keys' : List PublicKey)
      (b0 b1 b2 b3 b4 b5 b6 b7 : ℕ) (rest rest' : List ℕ)
      → ctx.peer ≡ some (tls_info (rsa n m ∷ keys))
      → ctx'.peer ≡ some (tls_info (rsa n' m' ∷ keys'))
      → asn1 n m ≡ ok (b0 ∷ b1 ∷ b2 ∷ b3 ∷ b4 ∷ b5 ∷ b6 ∷ b7 ∷ rest)
      → asn1 n' m' ≡ ok (b0 ∷ b1 ∷ b2 ∷ b3 ∷ b4 ∷ b5 ∷ b6 ∷ b7 ∷ rest')
      → get_user_id_key asn1 E ctx w ≡ get_user_id_key asn1 E ctx' w
  get_user_id_key_same_bytes ctx ctx' w n n' m m' keys keys' b0 b1 b2 b3 b4 b5 b6 b7 rest rest' p p'
        a a' =
      let first8 = λ (tail : List ℕ). b0 ∷ b1 ∷ b2 ∷ b3 ∷ b4 ∷ b5 ∷ b6 ∷ b7 ∷ tail in
      get_user_id_key_of_prefix ctx ctx' w (hex_encode (first8 rest)) (hex_encode (first8 rest'))
        (prefix_of b0 b1 b2 b3 b4 b5 b6 b7) (get_cert_pub-rsa ctx n m keys (first8 rest) p a)
        (get_cert_pub-rsa ctx' n' m' keys' (first8 rest') p' a')
        (take_text-hex_encode b0 b1 b2 b3 b4 b5 b6 b7 rest)
        (take_text-hex_encode b0 b1 b2 b3 b4 b5 b6 b7 rest')
