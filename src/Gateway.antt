-- ===== src/Gateway.antt =====
-- gateway/gateway.go and gateway/main.go: the HTTP server around the generated gateway. The gRPC
-- and HTTP libraries are parameters; what happens is a list of events.
pub mod Handlers
pub mod Slashes
pub mod Files
pub mod Closing
pub mod Cors
use omnicore_proxy.Base.{
  ℕ, ◌+◌, String, ◌<>◌, str_eq, List, [], ◌∷◌, ◌++◌, Bool, true, false, if◌then◌else◌, Option, none,
  some, Result, ok, err,
}

-- `Endpoint` and `Options`: the options of the multiplexer are the gateway's own affair.
pub record Endpoint : Type 0 where
  pub network : String
  pub addr : String

pub record Options : Type 0 where
  pub addr : String
  pub grpc_server : Endpoint
  pub open_api_dir : String

-- The goroutines of `Run`: each waits for the end of the context, and then closes the connection or
-- shuts the HTTP server down.
pub data Waiting : Type 0 where
  close_conn shutdown_server : Waiting

-- What `Run` does, in order; the last is the end of its context.
pub data Event : Type 0 where
  registered : ℕ → Event
  listened : String → Event
  started : Waiting → Event
  cancelled : Event

-- What `Run` calls: `grpc.DialContext` with the dialer of the operating system or the one for unix
-- sockets, the text of `%q`, and how `ListenAndServe` ends.
pub record Libraries : Type 1 where
  pub Conn : Type 0
  pub dial_context : Bool → String → Result Conn
  pub quoted : String → String
  pub listen_and_serve : String → String

-- The text of `http.ErrServerClosed`, which is compared as an error.
abbrev pub err_server_closed : String
err_server_closed = "http: Server closed"

module _ (L : Libraries) where
  unfoldable pub dial_tcp : String → Result L.Conn
  dial_tcp addr = L.dial_context false addr

  unfoldable pub dial_unix : String → Result L.Conn
  dial_unix addr = L.dial_context true addr

  unfoldable pub dial : String → String → Result L.Conn
  unfolding dial_tcp dial_unix
  dial network addr =
      if str_eq network "tcp"
      then dial_tcp addr
      else if str_eq network "unix"
      then dial_unix addr
      else err ("unsupported network type " <> L.quoted network)

  -- `newGateway`: the registrations in turn, up to the first that fails. They are numbered.
  unfoldable pub new_gateway :
      L.Conn → ℕ → List (L.Conn → Option String) → Option String × List Event
  new_gateway conn i [] = (none, [])
  new_gateway conn i (f ∷ fs) =
      let (r, events) = new_gateway conn (i + 1) fs in
      elim (f conn) [ some e ↦ (some e, registered i ∷ []) | none ↦ (r, registered i ∷ events) ]

  -- The part of `Run` behind the dial.
  unfoldable pub serve_on :
      Options → List (L.Conn → Option String) → L.Conn → Option String × List Event
  unfolding new_gateway
  serve_on opts regs conn =
      let (r, events) = new_gateway conn 0 regs in
      elim r [
        | some e ↦ (some e, started close_conn ∷ events)
        | none ↦
            let e = L.listen_and_serve opts.addr in
            (
              if str_eq e err_server_closed then none else some e,
              started close_conn ∷ events ++ started shutdown_server ∷ listened opts.addr ∷ [],
            )
      ]

  -- `Run`, with its error: whichever way it returns, its deferred `cancel` ends the context.
  unfoldable pub run : Options → List (L.Conn → Option String) → Option String × List Event
  unfolding dial serve_on
  run opts regs =
      let returned : Option String × List Event =
        elim (dial opts.grpc_server.network opts.grpc_server.addr) [
          | err e ↦ (some e, [])
          | ok conn ↦ serve_on opts regs conn
        ] in
      (returned.0, returned.1 ++ cancelled ∷ [])
