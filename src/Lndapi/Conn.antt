-- ===== src/Lndapi/Conn.antt =====
-- lndapi/conn.go: the profile of a node and the clients that are kept. Files, certificates, the
-- macaroons' constraints and the dialling are parameters.
pub mod Cache
pub mod Calls
use omnicore_proxy.Base.{
  ℕ, ◌*◌, String, ◌<>◌, str_eq, List, [], ◌∷◌, Bool, true, false, not, if◌then◌else◌, Option, none,
  some, Result, ok, err, and_then, map_err, find_first,
}
use omnicore_proxy.Base.Int.{ℤ, pos}
use omnicore_proxy.Lndapi.Macaroon.{
  Crypto, MacaroonEntry, MacaroonJar, load_macaroon, store_macaroon,
}

-- What is called and not implemented. `trim_suffix` and the functions on paths are those of
-- `strings`, `path` and `filepath`; `dial` gets the pool of certificates, if any, and the
-- credential, if any.
pub record Host : Type 1 where
  pub crypto : Crypto
  pub join : List String → String
  pub base_name : String → String
  pub ext : String → String
  pub trim_suffix : String → String → String
  pub read_file : String → Result (List ℕ)
  pub Pool : Type 0
  pub append_certs : List ℕ → Option Pool
  pub add_constraints : crypto.Mac → ℤ → String → Result crypto.Mac
  pub Credential : Type 0
  pub new_credential : crypto.Mac → Result Credential
  pub Conn : Type 0
  pub dial : String → Option Pool → Option Credential → Result Conn

-- `profileEntry`, with the bytes of the certificate.
pub record ProfileEntry : Type 0 where
  pub rpc_server : String
  pub lnd_dir : String
  pub chain : String
  pub network : String
  pub no_macaroons : Bool
  pub tls_cert : List ℕ
  pub macaroons : MacaroonJar

module _ (H : Host) where
  unfoldable pub cert : ProfileEntry → Result (Option H.Pool)
  cert e = elim e.tls_cert [
    | [] ↦ ok none
    | b ∷ bs ↦ elim (H.append_certs e.tls_cert) [
      | none ↦ err "credentials: failed to append certificate"
      | some pool ↦ ok (some pool)
    ]
  ]

  unfoldable pub mac_path : String → String → String
  mac_path net_type lnd_dir =
      H.join (lnd_dir ∷ "data" ∷ "chain" ∷ "bitcoin" ∷ net_type ∷ "admin.macaroon" ∷ [])

  -- The name of the macaroon in the jar.
  unfoldable pub mac_name : String → String
  mac_name path =
      let name = H.base_name path in
      if str_eq (H.ext name) "macaroon" then H.trim_suffix name ".macaroon" else name

  -- The profile around a stored macaroon.
  unfoldable pub profile_of : String → String → String → List ℕ → MacaroonEntry → ProfileEntry
  profile_of rpc_address net_type lnd_dir tls_cert entry = record {
    rpc_server = rpc_address;
    lnd_dir = lnd_dir;
    chain = "bitcoin";
    network = net_type;
    no_macaroons = false;
    tls_cert = tls_cert;
    macaroons = record {
      default = entry.name;
      timeout = pos (60 * 60 * 24 * 1000);
      ip = "";
      jar = entry ∷ [];
    };
  }

  -- The macaroon is stored with no password, under no name, and gets its name then.
  unfoldable pub profile_from_context : String → String → String → Result ProfileEntry
  unfolding mac_path mac_name profile_of
  profile_from_context rpc_address net_type lnd_dir =
      let path = mac_path net_type lnd_dir in
      and_then
        (map_err (λ e. "could not load TLS cert file: " <> e)
          (H.read_file (H.join (lnd_dir ∷ "tls.cert" ∷ []))))
        λ tls_cert.
          and_then
            (map_err (λ e. "unable to read macaroon path (check the network setting!): " <> e)
              (H.read_file path))
            λ bytes.
              and_then
                (map_err (λ e. "unable to decode macaroon: " <> e) (H.crypto.unmarshal bytes))
                λ mac.
                  and_then
                    (map_err (λ e. "unable to store macaroon: " <> e)
                      (store_macaroon H.crypto (record { name = ""; mac_data = "" }) mac []))
                    λ entry. ok (
                      profile_of rpc_address net_type lnd_dir tls_cert
                        (record entry { name = mac_name path }))

  -- The credential of a profile's macaroon: `none` is a panic.
  unfoldable pub mac_credential : ProfileEntry → Option (Result H.Credential)
  mac_credential profile =
      elim (find_first (λ entry. str_eq entry.name profile.macaroons.default)
        profile.macaroons.jar) [
          | none ↦ some (
              err ("macaroon with name '" <> profile.macaroons.default <> "' not found in profile"))
          | some entry ↦ elim (load_macaroon H.crypto entry none) [
            | none ↦ none
            | some r ↦ some (
                and_then (map_err (λ e. "could not load macaroon: " <> e) r) λ mac.
                  and_then (H.add_constraints mac profile.macaroons.timeout profile.macaroons.ip)
                    λ constrained.
                      map_err (λ e. "error cloning mac: " <> e) (H.new_credential constrained))
          ]
        ]

  unfoldable pub dial_profile : ProfileEntry → Option H.Pool → Option H.Credential → Result H.Conn
  dial_profile profile pool credential =
      map_err (λ e. "unable to connect to RPC server: " <> e)
        (H.dial profile.rpc_server pool credential)

  -- `getClientConn` behind the profile.
  unfoldable pub connect_profile : ProfileEntry → Option (Result H.Conn)
  unfolding cert mac_credential dial_profile
  connect_profile profile = elim (cert profile) [
    | err e ↦ some (err ("could not create cert pool: " <> e))
    | ok pool ↦
        if profile.no_macaroons
        then some (dial_profile profile pool none)
        else elim (mac_credential profile) [
          | none ↦ none
          | some r ↦ some (and_then r λ credential. dial_profile profile pool (some credential))
        ]
  ]

  unfoldable pub get_client_conn : String → String → String → Option (Result H.Conn)
  unfolding profile_from_context connect_profile
  get_client_conn rpc_address net_type lnd_dir =
      elim (profile_from_context rpc_address net_type lnd_dir) [
        | err e ↦ some (err ("profileFromContext err: " <> e))
        | ok profile ↦ connect_profile profile
      ]

  -- The clients that are kept, by the address, and the addresses that were connected to.
  pub record Clients : Type 0 where
    pub kept_clients : List (String × H.Conn)
    pub connected : List String

  unfoldable pub lookup_client : String → List (String × H.Conn) → Option H.Conn
  lookup_client a [] = none
  lookup_client a ((b, c) ∷ cs) = if str_eq b a then some c else lookup_client a cs

  -- `GetLndClient`, over the map `lndClients`. A client is its connection. The lock makes a call one
  -- step.
  unfoldable pub get_lnd_client :
      String → String → String → Clients → Option (Result H.Conn × Clients)
  unfolding lookup_client
  get_lnd_client rpc_address net_type lnd_dir s = elim (lookup_client rpc_address s.kept_clients) [
    | some cli ↦ some (ok cli, s)
    | none ↦ elim (get_client_conn rpc_address net_type lnd_dir) [
      | none ↦ none
      | some (err e) ↦ some (err e, s)
      | some (ok conn) ↦ some (
        ok conn,
        record {
          kept_clients = (rpc_address, conn) ∷ s.kept_clients;
          connected = rpc_address ∷ s.connected;
        },
      )
    ]
  ]

  -- `GetRouterClient`, over the map `lnRouterClients`, under a lock of its own.
  unfoldable pub get_router_client :
      String → String → String → Clients → Option (Result H.Conn × Clients)
  unfolding lookup_client
  get_router_client rpc_address net_type lnd_dir s =
      elim (lookup_client rpc_address s.kept_clients) [
        | some cli ↦ some (ok cli, s)
        | none ↦ elim (get_client_conn rpc_address net_type lnd_dir) [
          | none ↦ none
          | some (err e) ↦ some (err e, s)
          | some (ok conn) ↦ some (
            ok conn,
            record {
              kept_clients = (rpc_address, conn) ∷ s.kept_clients;
              connected = rpc_address ∷ s.connected;
            },
          )
        ]
      ]
