-- ===== src/Tests/Startups.antt =====
-- The theorems on the start of the servers and on the gateway at concrete data.
use omnicore_proxy.Base.{
  ℕ, ◌<◌, ◌≡◌, ◌⊎◌, ◌↔◌, ◌==◌, refl, arith, String, ◌<>◌, [], ◌∷◌, true, if◌then◌else◌, none, some,
  ok, err,
}
use omnicore_proxy.Base.Paths.{IsForward, segments}
use omnicore_proxy.Gateway.{Options, Libraries, close_conn, dial, run}
use omnicore_proxy.Gateway.Closing.{released, listens, run-releases}
use omnicore_proxy.Gateway.Handlers.{
  HttpRequest, Response, empty_response, http_error, not_found, open_api_server,
}
use omnicore_proxy.Gateway.Files.{file_below, open_api_server-confined}
use omnicore_proxy.Startup.{Flags, Stat, Host, LuckServer, served, main, wait_node}
use omnicore_proxy.Startup.Waiting.{wait_node_returns}
use omnicore_proxy.Startup.Serving.{IsPrepared, certificate_in, IsReached, IsConnected, main_serves}

-- A node that is online from the third call on, and a certificate without a key.
abbrev host : Host
host = record {
  Certificate = ℕ;
  LndClient = ℕ;
  RouterClient = ℕ;
  open_db = λ s. ok tt;
  listen = λ s. ok tt;
  stat = λ s. Stat.found;
  gen_cert_pair = λ c k. err "no key pair";
  load_cert = λ c k. err "no key";
  lnd_client = λ t. if t == 0 then err "down" else if t == 1 then err "down" else ok 7;
  get_info = λ c. ok true;
  router_client = ok 8;
}

abbrev flags : Flags
flags = record {
  net_type = "regtest";
  cert_dir = "./cert";
  luck_server_port = "38332";
  lnddir = "lnd";
  node_address = "localhost:10001";
  db_conn = "mysql";
}

wait_node_returns_example : (wait_node host 4 0 ≡ some (7, 2)) ↔ (
    (2 < 4)
    × (host.lnd_client 2 ≡ ok 7)
    × ((j : ℕ) → j < 2 → (e : String) × (host.lnd_client j ≡ err e)))
wait_node_returns_example = wait_node_returns host 4 2 7

abbrev server : LuckServer host
server = record { lnd = 7; router = 8; attempts = 3 }

main_serves_example : ((main host 4 flags).0 ≡ served (none, server)) ↔ (
    IsPrepared host flags
    × (none ≡ certificate_in host flags.cert_dir)
    × IsReached host 4 server
    × IsConnected host server)
main_serves_example = main_serves host 4 flags none server

-- The server comes up without a certificate when the key is missing.
main_without_certificate : (main host 4 flags).0 ≡ served (none, server)
main_without_certificate = (main_serves host 4 flags none server).1 (
  record {
    db_conn = refl;
    database = refl;
    net_type = refl;
    lnddir = refl;
    port = refl;
    key_pair = λ m. ground arith;
  },
  refl,
  record {
    failures = 2;
    counted = refl;
    in_time = omega arith;
    answers = refl;
    offline = λ j h. ("down", ground arith);
  },
  record { synced = true; info = refl; router = refl },
)

abbrev pub libraries : Libraries
libraries = record {
  Conn = ℕ;
  dial_context = λ u addr. ok 1;
  quoted = λ s. s;
  listen_and_serve = λ addr. "http: Server closed";
}

abbrev options : Options
options = record {
  addr = ":8090";
  grpc_server = record { network = "tcp"; addr = "0.0.0.0:8080" };
  open_api_dir = "swagger";
}

run-releases_example :
    let (r, events) = run libraries options ((λ c. none) ∷ (λ c. some "bad") ∷ []) in
    (released [] events ≡ close_conn ∷ []) × (listens events ≡ 0)
unfolding dial
run-releases_example = run-releases libraries options ((λ c. none) ∷ (λ c. some "bad") ∷ []) 1 refl

abbrev file_request : HttpRequest
file_request = record {
  method = "GET";
  path = "/openapiv2/api/./tools.swagger.json";
  origin = "http://wallet";
  request_method = "";
}

abbrev send : String → Response → Response
send name w = record w { body = name ∷ [] }

open_api_server-confined_example :
    let response = open_api_server send "swagger" file_request empty_response in
    (response ≡ not_found empty_response)
    ⊎ ((response ≡ http_error "invalid URL path" 400 empty_response)
        ⊎ ((rest : String) × (file_request.path ≡ "/openapiv2/" <> rest)
            × IsForward (segments rest)
            × (response ≡ send (file_below "swagger" rest) empty_response)))
open_api_server-confined_example =
    open_api_server-confined send "swagger" file_request empty_response refl refl
