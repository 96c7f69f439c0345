-- ===== src/Startup/Serving.antt =====
-- When the payment server of spay/main.go comes to serve, and with what.
use omnicore_proxy.Base.{
  ℕ, ◌+◌, ◌<◌, ◌≡◌, refl, String, ◌<>◌, str_eq, List, [], ◌∷◌, Bool, false, Option, none, some, ok,
  err, arith, Result-cases, Option-cases, Bool-cases, inl, inr, ◌↔◌, sym, ap, subst, ◌∙◌,
}
use omnicore_proxy.Base.Paths.{join}
use omnicore_proxy.Startup.{
  opened_db, migrated, made_dir, bound, Flags, missing, Event, Host, LuckServer, served,
  file_exists, init_db, get_tls_cfg, wait_node, new_luck_pk_server, prepare, main,
}
use omnicore_proxy.Startup.Waiting.{wait_node_returns}

module _ (H : Host) where
  -- The certificate that is loaded, if it is.
  abbrev pub certificate_in : String → Option H.Certificate
  certificate_in dir = elim (H.load_cert (join dir "tls.cert") (join dir "tls.key")) [
    | ok c ↦ some c
    | err e ↦ none
  ]

  -- What the start needs of its flags and of the system.
  pub record IsPrepared (flags : Flags) : Type 0 where
    pub db_conn : str_eq flags.db_conn "" ≡ false
    pub database : H.open_db flags.db_conn ≡ ok tt
    pub net_type : str_eq flags.net_type "" ≡ false
    pub lnddir : str_eq flags.lnddir "" ≡ false
    pub port : H.listen (":" <> flags.luck_server_port) ≡ ok tt
    pub key_pair :
        H.stat (join flags.cert_dir "tls.cert") ≡ missing
        → H.gen_cert_pair (join flags.cert_dir "tls.cert") (join flags.cert_dir "tls.key") ≡ ok tt

  get_tls_cfg-ok :
      (dir : String) (es : List Event) (cert : Option H.Certificate)
      → (get_tls_cfg H dir es).0 ≡ ok cert
      → (cert ≡ certificate_in dir)
        × (H.stat (join dir "tls.cert") ≡ missing
            → H.gen_cert_pair (join dir "tls.cert") (join dir "tls.key") ≡ ok tt)
  unfolding get_tls_cfg file_exists
  get_tls_cfg-ok dir es cert h = (ground arith, λ m. ground arith)

  -- The steps in front of the certificate.
  IsBound : Flags → Type 0
  IsBound flags =
      (str_eq flags.db_conn "" ≡ false)
      × (H.open_db flags.db_conn ≡ ok tt)
      × (str_eq flags.net_type "" ≡ false)
      × (str_eq flags.lnddir "" ≡ false)
      × (H.listen (":" <> flags.luck_server_port) ≡ ok tt)

  prepare-IsBound :
      (flags : Flags) (cert : Option H.Certificate)
      → (prepare H flags []).0 ≡ ok cert
      → IsBound flags
  unfolding prepare init_db IsBound
  prepare-IsBound flags cert h =
      (ground arith, ground arith, ground arith, ground arith, ground arith)

  IsBound-prepare :
      (flags : Flags)
      → IsBound flags
      → (es : List Event) × ((prepare H flags []).0 ≡ (get_tls_cfg H flags.cert_dir es).0)
  unfolding prepare init_db IsBound
  IsBound-prepare flags (d, o, n, l, p) =
      let port = bound flags.luck_server_port in
      elim (Bool-cases (str_eq flags.cert_dir "")) [
        | inl here ↦ (opened_db flags.db_conn ∷ migrated ∷ port ∷ [], rw (d, o, n, l, here, p) refl)
        | inr dir ↦ (
          opened_db flags.db_conn ∷ migrated ∷ made_dir flags.cert_dir ∷ port ∷ [],
          rw (d, o, n, l, dir, p) refl,
        )
      ]

  get_tls_cfg_loads :
      (dir : String) (es : List Event)
      → (H.stat (join dir "tls.cert") ≡ missing
          → H.gen_cert_pair (join dir "tls.cert") (join dir "tls.key") ≡ ok tt)
      → (get_tls_cfg H dir es).0 ≡ ok (certificate_in dir)
  unfolding get_tls_cfg file_exists
  get_tls_cfg_loads dir es made = ground arith

  prepare_ok :
      (flags : Flags) (cert : Option H.Certificate)
      → ((prepare H flags []).0 ≡ ok cert)
        ↔ (IsPrepared flags × (cert ≡ certificate_in flags.cert_dir))
  unfolding IsBound
  prepare_ok flags cert = (
    λ h.
        let bound_first = prepare-IsBound flags cert h in
        let (d, o, n, l, p) = bound_first in
        let (es, e) = IsBound-prepare flags bound_first in
        let (loads, made) = get_tls_cfg-ok flags.cert_dir es cert (sym e ∙ h) in
        (
          record { db_conn = d; database = o; net_type = n; lnddir = l; port = p; key_pair = made },
          loads,
        ),
    λ (i, loads).
        let (es, e) = IsBound-prepare flags (i.db_conn, i.database, i.net_type, i.lnddir, i.port) in
        e ∙ get_tls_cfg_loads flags.cert_dir es i.key_pair ∙ ap ok (sym loads),
  )

  -- The server behind `k` failed attempts.
  pub record IsConnected (server : LuckServer H) : Type 0 where
    pub synced : Bool
    pub info : H.get_info server.lnd ≡ ok synced
    pub router : H.router_client ≡ ok server.router

  new_luck_pk_server_ok :
      (c : H.LndClient) (k : ℕ) (es : List Event) (server : LuckServer H)
      → ((new_luck_pk_server H c k es).0 ≡ ok server)
        ↔ ((server.lnd ≡ c) × (server.attempts ≡ k + 1) × IsConnected server)
  unfolding new_luck_pk_server
  new_luck_pk_server_ok c k es server = (
    λ h. elim (Result-cases (H.get_info c)) [
      | inr (e, bad) ↦ ground arith
      | inl (synced, info) ↦ elim (Result-cases H.router_client) [
        | inr (e, bad) ↦ ground arith
        | inl (router, connected) ↦ (
          ground arith,
          ground arith,
          record { synced = synced; info = ground arith; router = ground arith },
        )
      ]
    ],
    λ (a, b, i). ground (arith, i.info, i.router),
  )

  -- The node comes online within the fuel, behind the attempts that the server counts.
  pub record IsReached (fuel : ℕ) (server : LuckServer H) : Type 0 where
    pub failures : ℕ
    pub counted : server.attempts ≡ failures + 1
    pub in_time : failures < fuel
    pub answers : H.lnd_client failures ≡ ok server.lnd
    pub offline : (j : ℕ) → j < failures → (e : String) × (H.lnd_client j ≡ err e)

  main-cases :
      (fuel : ℕ) (flags : Flags) (cert : Option H.Certificate) (server : LuckServer H)
      → ((main H fuel flags).0 ≡ served (cert, server)) ↔ (
          ((prepare H flags []).0 ≡ ok cert)
          × (c : H.LndClient) × (k : ℕ) × (wait_node H fuel 0 ≡ some (c, k))
          × ((new_luck_pk_server H c k (prepare H flags []).1).0 ≡ ok server))
  unfolding main
  main-cases fuel flags cert server = (
    λ h. elim (Result-cases (prepare H flags []).0) [
      | inr (e, bad) ↦ ground arith
      | inl (cert', prepared) ↦ elim (Option-cases (wait_node H fuel 0)) [
        | inl still ↦ ground arith
        | inr ((c, k), online) ↦
            elim (Result-cases (new_luck_pk_server H c k (prepare H flags []).1).0) [
              | inr (e, bad) ↦ ground arith
              | inl (server', made) ↦ (ground arith, c, k, online, ground arith)
            ]
      ]
    ],
    λ (prepared, c, k, online, made). ground arith,
  )

  -- `main` serves exactly when the database, the network, the node's directory and the port are
  -- given and can be used, a missing certificate can be made, and the node comes online and
  -- answers: with the first client that `GetLndClient` gives, and with the certificate that is
  -- loaded, or with none at all if it cannot be loaded.
  pub main_serves :
      (fuel : ℕ) (flags : Flags) (cert : Option H.Certificate) (server : LuckServer H)
      → ((main H fuel flags).0 ≡ served (cert, server)) ↔ (
          IsPrepared flags
          × (cert ≡ certificate_in flags.cert_dir)
          × IsReached fuel server
          × IsConnected server)
  main_serves fuel flags cert server = (
    λ h.
        let (prepared, c, k, online, made) = (main-cases fuel flags cert server).0 h in
        let (i, loads) = (prepare_ok flags cert).0 prepared in
        let (less, answers, offline) = (wait_node_returns H fuel k c).0 online in
        let (same, counted, connected) = (new_luck_pk_server_ok c k _ server).0 made in
        (
          i,
          loads,
          record {
            failures = k;
            counted = counted;
            in_time = less;
            answers = subst (λ d. H.lnd_client k ≡ ok d) (sym same) answers;
            offline = offline;
          },
          connected,
        ),
    λ (i, loads, r, connected). (main-cases fuel flags cert server).1 (
      (prepare_ok flags cert).1 (i, loads),
      server.lnd,
      r.failures,
      (wait_node_returns H fuel r.failures server.lnd).1 (r.in_time, r.answers, r.offline),
      (new_luck_pk_server_ok server.lnd r.failures _ server).1 (refl, r.counted, connected),
    ),
  )
