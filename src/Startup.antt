-- ===== src/Startup.antt =====
-- The start of the payment server: spay/main.go, and `InitDb` and `NewLuckPkServer` of
-- toolrpc/luckPk.go. What the operating system, the database and the node answer is a parameter.
-- `log.Fatal` and `panic` both end the program, with a text.
pub mod Waiting
pub mod Serving
pub mod Tool
use omnicore_proxy.Base.{
  ℕ, zero, suc, ◌+◌, ◌*◌, String, ◌<>◌, str_eq, List, [], ◌∷◌, ◌++◌, Bool, true, false, not,
  if◌then◌else◌, Option, none, some, Result, ok, err, and_then, map_err, Action, pure, fail_if,
  ◌>>=◌, ◌>>◌, is_ok,
}
use omnicore_proxy.Base.Paths.{join}

-- The flags, as `flag.Parse` leaves them.
pub record Flags : Type 0 where
  pub net_type : String
  pub cert_dir : String
  pub luck_server_port : String
  pub lnddir : String
  pub node_address : String
  pub db_conn : String

-- What `os.Stat` says of a file: it is there, it is not there, or another error.
pub data Stat : Type 0 where
  found missing unreadable : Stat

-- What the program changes, in order.
pub data Event : Type 0 where
  opened_db : String → Event
  migrated : Event
  made_dir : String → Event
  bound : String → Event
  generated : String → String → Event
  slept : ℕ → Event
  started_monitors : Event
  serving : Event

-- What the start asks for. `lnd_client t` is what the call `t` of `GetLndClient` gives, and
-- `get_info` says whether the node is synchronised.
pub record Host : Type 1 where
  pub Certificate : Type 0
  pub LndClient : Type 0
  pub RouterClient : Type 0
  pub open_db : String → Result (Unit {0})
  pub listen : String → Result (Unit {0})
  pub stat : String → Stat
  pub gen_cert_pair : String → String → Result (Unit {0})
  pub load_cert : String → String → Result Certificate
  pub lnd_client : ℕ → Result LndClient
  pub get_info : LndClient → Result Bool
  pub router_client : Result RouterClient

-- The clients of the server, and the attempts that the node took.
pub record LuckServer (H : Host) : Type 0 where
  pub lnd : H.LndClient
  pub router : H.RouterClient
  pub attempts : ℕ

-- How a start ends: with a text, still waiting for the node, or serving until the shutdown.
pub data Outcome (A : Type 0) : Type 0 where
  stopped : String → Outcome A
  waiting : Outcome A
  served : A → Outcome A

abbrev call : {A : Type 0} → Result A → Action (List Event) A
call r es = (r, es)

abbrev emit : Event → Action (List Event) (Unit {0})
emit e es = (ok tt, es ++ e ∷ [])

abbrev when : Bool → Action (List Event) (Unit {0}) → Action (List Event) (Unit {0})
when true m es = m es
when false m es = (ok tt, es)

unfoldable pub file_exists : Stat → Bool
file_exists found = true
file_exists missing = false
file_exists unreadable = true

module _ (H : Host) where
  -- `InitDb`: the error of the migration is not looked at.
  unfoldable pub init_db : String → Action (List Event) (Unit {0})
  init_db connstr = do
    call (map_err (λ e. "failed to connect database") (H.open_db connstr))
    emit (opened_db connstr)
    emit migrated

  -- `getTlsCfg`: the certificate of the configuration, none if it is the zero value.
  unfoldable pub get_tls_cfg : String → Action (List Event) (Option H.Certificate)
  unfolding file_exists
  get_tls_cfg cert_dir = do
    let cert_path = join cert_dir "tls.cert"
    let key_path = join cert_dir "tls.key"
    when (not (file_exists (H.stat cert_path)))
        do call (H.gen_cert_pair cert_path key_path); emit (generated cert_path key_path)
    pure (elim (H.load_cert cert_path key_path) [ ok c ↦ some c | err e ↦ none ])

  -- The loop of `NewLuckPkServer` on fuel: the attempt that succeeds, and the seconds slept.
  unfoldable pub wait_node : ℕ → ℕ → Option (H.LndClient × ℕ)
  wait_node zero t = none
  wait_node (suc fuel) t =
      let rest = wait_node fuel (t + 1) in
      elim (H.lnd_client t) [ ok c ↦ some (c, t) | err e ↦ rest ]

  -- `NewLuckPkServer` behind its loop, with the attempts that failed.
  unfoldable pub new_luck_pk_server : H.LndClient → ℕ → Action (List Event) (LuckServer H)
  new_luck_pk_server c failures = do
    emit (slept (5 * failures))
    call (H.get_info c)
    router ← call H.router_client
    emit started_monitors
    pure (record { lnd = c; router = router; attempts = failures + 1 })

  -- `main` up to the call of `NewLuckPkServer`. The errors of `Intercept` and of `MkdirAll` are not
  -- looked at.
  unfoldable pub prepare : Flags → Action (List Event) (Option H.Certificate)
  unfolding init_db get_tls_cfg
  prepare flags = do
    fail_if (str_eq flags.db_conn "") "miss dbConnstr"
    init_db flags.db_conn
    fail_if (str_eq flags.net_type "") "miss net_type"
    fail_if (str_eq flags.lnddir "") "miss lnddir"
    when (not (str_eq flags.cert_dir "")) (emit (made_dir flags.cert_dir))
    call (map_err (λ e. "Failed to listen: " <> e) (H.listen (":" <> flags.luck_server_port)))
    emit (bound flags.luck_server_port)
    get_tls_cfg flags.cert_dir

  -- `main`, with the certificate and the clients that it serves with. What `Serve` itself gives and
  -- the wait for the open streams behind the shutdown are not modelled.
  unfoldable pub main : ℕ → Flags → Outcome (Option H.Certificate × LuckServer H) × List Event
  unfolding prepare wait_node new_luck_pk_server
  main fuel flags =
      let (r, es) = prepare flags [] in
      elim r [
        | err e ↦ (stopped e, es)
        | ok cert ↦ elim (wait_node fuel 0) [
          | none ↦ (waiting, es)
          | some (c, failures) ↦
              let (s, es') = new_luck_pk_server c failures es in
              elim s [
                | err e ↦ (stopped e, es')
                | ok server ↦ (served (cert, server), es' ++ serving ∷ [])
              ]
        ]
      ]
