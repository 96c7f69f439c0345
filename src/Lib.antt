-- ===== src/Lib.antt =====
-- A model of omnicore-proxy: a payment service next to a lightning node, a proxy in front of a full
-- node, and the machinery that both share.
--
-- The parts and their files:
-- - Lndapi: the clients of the lightning node. Lndapi/Node is the node as an interface,
--   Lndapi/Payment is `AddInvoice`, `Sendpayment`, `SendpaymentRefund` and the fee limit of
--   lndapi/rpc.go. Lndapi/Macaroon is lndapi/macaroon_jar.go, and Lndapi/Conn
--   the profiles and the kept clients of lndapi/conn.go.
-- - Toolrpc: the payment service of toolrpc/luckPk.go. Toolrpc/Rows has the rows of the database,
--   from toolrpc/luckPk.pb.go and toolrpc/luckPk.go, Toolrpc/Table the calls of gorm as an
--   interface with its laws, and Toolrpc/World what the handlers reach. Toolrpc/LuckPk is the lucky
--   packets (`CreateLuckPk`, `updateLuckPkByInvoide`, the queries), its child Give is `GiveLuckPk`
--   and Life all of them one behind the other; Toolrpc/Spay is the agency payments (`CreateSpay`,
--   `updateSpayByInvoide`, `runUserSpay`, `refund`, `isOnline` and the body of `MonitorInvoice`);
--   Toolrpc/HeartBeat the stream `HeartBeat`; Toolrpc/Auth the interceptors of spay/main.go with
--   toolrpc/cert.go, toolrpc/util.go, `GetUserIdKey`, `getCtxUserid` and, in Register,
--   `RegistTlsKey`. Toolrpc/Channels is what
--   `MonitorChannel` does with one channel.
--   Toolrpc/Server is toolrpc/server: the scripts that are run and the calls of the full node. Toolrpc/Rest is the generated gateway of toolrpc/proto.pb.gw.go: the
--   requests over a connection, in Register the routes, and in Scripts the tool server behind them.
--   Toolrpc/HeartBeat/Receive is `ChanRecv` next to the loop of `HeartBeat`. Toolrpc/Monitor is the
--   loops of `MonitorInvoice`, `MonitorChannel` and `Job`, and Toolrpc/Spay/Race the goroutines
--   that write one row, interleaved; Toolrpc/Spay/Life runs the operations on agency payments one
--   behind the other, next to the life of one payment.
-- - Startup: `main`, `getTlsCfg` and `fileExists` of spay/main.go, with `InitDb` and
--   `NewLuckPkServer` of toolrpc/luckPk.go; Startup/Tool is `main` of main.go, with the goroutines
--   of its process interleaved in Startup/Tool/Process.
-- - Gateway: gateway/gateway.go and gateway/main.go (`dial`, `newGateway`, `Run`, with the
--   goroutines that wait for the end of its context), and in Handlers gateway/handlers.go.
-- - WhitelistProxy: whitelist_proxy/whitelist_proxy.go: the policy, `mainHttpHandler` and
--   `rawRequest` with its retry loop.
-- - Signal: signal/signal.go: the interceptor as a step relation, and `NotifyReady`.
-- - Base: what the parts share: `Result` for a Go value with an error, the actions that pass a
--   state on, Go's integers over the native numbers, and the texts of `strconv`, `encoding/hex` and
--   `path`.
-- - Tests: an in-memory database, a small node, and the theorems at concrete data.
--
-- How they interact: an interceptor of Toolrpc/Auth writes the user's identifier into the metadata,
-- where the handlers of Toolrpc/LuckPk, Toolrpc/Spay and Toolrpc/HeartBeat read it; these reach the
-- node through Lndapi and the tables through Toolrpc/World; the invoices that the node reports come
-- back through `on_invoice` of Toolrpc/Spay, which the loop of Toolrpc/Monitor calls. The process
-- of the tool server runs the interceptor of Signal and the gateway of Gateway, which registers the
-- routes of Toolrpc/Rest; these call the methods of Toolrpc/Server.
--
-- The conventions: a handler is a function of the world that returns its result and the new world,
-- also behind an error. A panic is `none` or a constructor of its own. An int64 whose sign is read
-- is a ℤ with the wrap-around of its products and differences written out, a uint64 is a number
-- modulo 2 ^ 64. The node, gorm, the curve, the JSON and HTTP libraries and asn1 are parameters;
-- what a theorem needs of the database are the hypotheses `IsLawful`, `IsUpdatable`,
-- `IsDependable`, `AnswersQueries` and `Creates`, which the table in memory of Tests meets. Times
-- are arguments. Goroutines are tasks that the handlers return or the steps of the interceptor, of
-- Toolrpc/Spay/Race, of Toolrpc/HeartBeat/Receive and of Startup/Tool/Process; `GiveLuckPk` runs
-- under a lock of the process and is one step.
--
-- The bounds: `itoa` runs on the number plus one as fuel, and no number has more digits; the retry
-- loop has the source's ten tries as its structure; the loop of `NewLuckPkServer` runs on fuel, and
-- one more than the calls that fail is enough. The loops of the monitors run over the list of the
-- subscriptions and their events; all other loops run over lists.
--
-- Not modelled: the `main` of the proxy (flags and one listener), generated code but for the
-- message types and the REST gateway over a connection, the registration of the tool server's
-- commands with btcjson, the metadata that the gateway passes on beside an answer, how its runtime
-- picks a route, logging, the timestamps that the database sets, the schema that the migration
-- makes, and the redirects of `http.ServeMux`.
pub mod Base
pub mod Gateway
pub mod Lndapi
pub mod Signal
pub mod Startup
pub mod Tests
pub mod Toolrpc
pub mod WhitelistProxy
