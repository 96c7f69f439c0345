-- ===== src/Toolrpc/Auth/Register.antt =====
-- `RegistTlsKey` of toolrpc/luckPk.go. The curve and the hash are parameters.
use omnicore_proxy.Base.{
  ℕ, ◌-◌, ◌%◌, ◌≡◌, String, str_eq, List, ◌++◌, Bool, true, if◌then◌else◌, Option, none, some,
  Result, ok, err, and_then, arith, Result-cases, Option-cases, Bool-cases, inl, inr,
}
use omnicore_proxy.Base.Hex.{hex_encode}
use omnicore_proxy.Base.Text.{itoa, bytes_of}
use omnicore_proxy.Toolrpc.Rows.{UserNode, no_user_node}
use omnicore_proxy.Toolrpc.World.{Env, World}
use omnicore_proxy.Toolrpc.Auth.{Context, get_cert_pub, take_text, by_key_prefix}

-- `btcec`, `ecdsa` and `sha256`.
pub record Curve : Type 1 where
  pub PubKey : Type 0
  pub Sig : Type 0
  pub parse_pub_key : List ℕ → Result PubKey
  pub parse_der_signature : List ℕ → Result Sig
  pub verify : Sig → List ℕ → PubKey → Bool
  pub sha256 : List ℕ → List ℕ

pub record RegistTlsKeyReq : Type 0 where
  pub user_node_key : List ℕ
  pub sig : List ℕ
  pub alias : String

module _ (C : Curve) where
  -- What is signed: the start of the current five minutes as a text, and the node's key.
  unfoldable pub challenge : ℕ → List ℕ → List ℕ
  challenge now key = C.sha256 (bytes_of (itoa (now - now % 300)) ++ key)

  unfoldable pub check_sig : ℕ → RegistTlsKeyReq → Result (Unit {0})
  unfolding challenge
  check_sig now req = and_then (C.parse_pub_key req.user_node_key) λ key.
      and_then (C.parse_der_signature req.sig) λ sig.
        if C.verify sig (challenge now req.user_node_key) key
        then ok tt
        else err "RegistTlsKey Verify fail"

  module _ (asn1 : ℕ → ℕ → Result (List ℕ)) (E : Env) where
    -- The row of a new user.
    unfoldable pub new_user : String → String → RegistTlsKeyReq → UserNode
    new_user key pre req = record no_user_node {
      tls_pub_key = key;
      tls_pub_key_pre = pre;
      user_id_key = hex_encode req.user_node_key;
      alias = req.alias;
    }

    -- The error of the save under an alias that changes is dropped.
    unfoldable pub rename : UserNode → String → World E → World E
    rename un alias w =
        if str_eq un.alias alias
        then w
        else record w { users = (E.users.save (record un { alias = alias }) w.users).1 }

    -- `none` is the panic of a key that is too short.
    unfoldable pub regist_tls_key :
        ℕ → Context → RegistTlsKeyReq → World E → Option (Result (Unit {0}) × World E)
    regist_tls_key now ctx req w = elim (get_cert_pub asn1 ctx) [
      | err e ↦ some (err e, w)
      | ok key ↦ elim (take_text 15 key) [
        | none ↦ none
        | some pre ↦ elim (E.users.first (by_key_prefix pre) w.users) [
          | ok un ↦ some (ok tt, rename un req.alias w)
          | err _ ↦ elim (check_sig now req) [
            | err e ↦ some (err e, w)
            | ok _ ↦
                let (r, s) = E.users.save (new_user key pre req) w.users in
                some (and_then r (λ _. ok tt), record w { users = s })
          ]
        ]
      ]
    ]

    -- The users change only in two ways: a certificate that already stands for a user renames that
    -- user, and no other row is written; or the query for its user fails, the node's signature over the
    -- current five minutes is good, and the new user has the node's key and the certificate's.
    pub data Registers (now : ℕ) (ctx : Context) (req : RegistTlsKeyReq) (w w' : World E)
        : Type 0 where
      nothing : w' ≡ w → Registers now ctx req w w'
      renamed :
          (key pre : String) (un : UserNode)
          → get_cert_pub asn1 ctx ≡ ok key
          → take_text 15 key ≡ some pre
          → E.users.first (by_key_prefix pre) w.users ≡ ok un
          → w' ≡ record w { users = (E.users.save (record un { alias = req.alias }) w.users).1 }
          → Registers now ctx req w w'
      added :
          (key pre : String) (node_key : C.PubKey) (sig : C.Sig)
          → get_cert_pub asn1 ctx ≡ ok key
          → take_text 15 key ≡ some pre
          → (e : String) → E.users.first (by_key_prefix pre) w.users ≡ err e
          → C.parse_pub_key req.user_node_key ≡ ok node_key
          → C.parse_der_signature req.sig ≡ ok sig
          → C.verify sig (challenge now req.user_node_key) node_key ≡ true
          → w' ≡ record w { users = (E.users.save (new_user key pre req) w.users).1 }
          → Registers now ctx req w w'

    check_sig-verified :
        (now : ℕ) (req : RegistTlsKeyReq)
        → check_sig now req ≡ ok tt
        → (node_key : C.PubKey) × (sig : C.Sig) × (C.parse_pub_key req.user_node_key ≡ ok node_key)
          × (C.parse_der_signature req.sig ≡ ok sig)
          × (C.verify sig (challenge now req.user_node_key) node_key ≡ true)
    unfolding check_sig
    check_sig-verified now req h = elim (Result-cases (C.parse_pub_key req.user_node_key)) [
      | inr (e, p) ↦ ground arith
      | inl (key, p) ↦ elim (Result-cases (C.parse_der_signature req.sig)) [
        | inr (e, s) ↦ ground arith
        | inl (sig, s) ↦ (key, sig, p, s, ground arith)
      ]
    ]

    -- A registration that does not panic changes the world in one of the three ways that
    -- `Registers` lists, whether it returns an error or not.
    pub regist_tls_key-Registers :
        (now : ℕ) (ctx : Context) (req : RegistTlsKeyReq) (w w' : World E) (r : Result (Unit {0}))
        → regist_tls_key now ctx req w ≡ some (r, w')
        → Registers now ctx req w w'
    unfolding regist_tls_key rename
    regist_tls_key-Registers now ctx req w w' r h = elim (Result-cases (get_cert_pub asn1 ctx)) [
      | inr (e, g) ↦ nothing (ground arith)
      | inl (key, g) ↦ elim (Option-cases (take_text 15 key)) [
        | inl short ↦ nothing (ground arith)
        | inr (pre, t) ↦ elim (Result-cases (E.users.first (by_key_prefix pre) w.users)) [
          | inl (un, f) ↦ elim (Bool-cases (str_eq un.alias req.alias)) [
            | inl same ↦ nothing (ground arith)
            | inr other ↦ renamed key pre un g t f (ground arith)
          ]
          | inr (e, f) ↦ elim (Result-cases (check_sig now req)) [
            | inr (e', bad) ↦ nothing (ground arith)
            | inl (u, good) ↦
                let (node_key, sig, p, s, v) = check_sig-verified now req (ground arith) in
                added key pre node_key sig g t e f p s v (ground arith)
          ]
        ]
      ]
    ]
