-- ===== src/WhitelistProxy.antt =====
-- whitelist_proxy/whitelist_proxy.go: the proxy in front of the full node. The HTTP client, the
-- JSON library and the node are parameters.
pub mod Retry
pub mod Handler
use omnicore_proxy.Base.{
  ℕ, zero, suc, ◌+◌, ◌-◌, ◌*◌, ◌%◌, ◌^◌, ltb, ◌==◌, String, ◌<>◌, str_eq, starts_with, List, [],
  ◌∷◌, ◌++◌, Bool, true, false, not, ◌&&◌, ◌||◌, if◌then◌else◌, Option, none, some, Result, ok, err,
  and_then, map_err,
}
use omnicore_proxy.Base.Text.{itoa}

abbrev pub white_list_methods : List String
white_list_methods =
    "getnetworkinfo" ∷ "getinfo" ∷ "getblockchaininfo" ∷ "gettransaction" ∷ "getrawtransaction"
    ∷ "gettxout" ∷ "help" ∷ "getbestblock" ∷ "getbestblockhash" ∷ "getblockhash" ∷ "getblockheader"
    ∷ "getblockstats" ∷ "getdifficulty" ∷ "sendrawtransaction" ∷ "getblock" ∷ "uptime"
    ∷ "getaddressbalance" ∷ "omni_listproperties" ∷ "omni_listtransactions" ∷ "omni_getbalance" ∷ []

-- A lookup in the map: absent is false.
unfoldable pub contains : List String → String → Bool
contains [] m = false
contains (x ∷ xs) m = str_eq x m || contains xs m

unfoldable pub is_allowed : String → Bool
unfolding contains
is_allowed m =
    contains white_list_methods m || starts_with m "omni_get" || starts_with m "omni_list"

-- `btcjson.Request`: the parameters are kept as they were read.
pub record Request : Type 0 where
  pub jsonrpc : String
  pub method : String
  pub params : List String
  pub id : Option ℕ

-- `btcjson.RpcVersion1`
abbrev pub rpc_version1 : String
rpc_version1 = "1.0"

-- A response of the full node: its body, or the error that reading it gives.
abbrev pub HttpResponse : Type 0
HttpResponse = Result (List ℕ)

-- What `http.DefaultClient.Do` gives: a response, or an error. `net/http` documents a response
-- beside the error where the check of a redirect fails, and none otherwise.
pub data Done : Type 0 where
  responded : HttpResponse → Done
  failed : String → Option HttpResponse → Done

-- What the proxy calls and does not implement. `send t bytes` is what `Do` gives at the attempt `t`.
pub record Backend : Type 0 where
  pub marshal : Request → Result (List ℕ)
  pub new_request : List ℕ → Result (Unit {0})
  pub send : ℕ → List ℕ → Done
  pub unmarshal : List ℕ → Result Request
  -- `btcjson.MarshalResponse` of the error response
  pub invalid_response : Result (List ℕ)

-- `nextID`, an atomic add on a uint64.
unfoldable pub next_id : ℕ → ℕ
next_id reqid = (reqid + 1) % 2 ^ 64

abbrev pub tries : ℕ
tries = 10

-- The wait after a failed attempt, in milliseconds.
unfoldable pub backoff : ℕ → ℕ
backoff i = let b = 500 * (i + 1) in if ltb 60000 b then 60000 else b

-- How the loop ends: a return out of it, or the response and the last error behind it, with the
-- attempts made and the milliseconds waited.
pub record LoopEnd : Type 0 where
  pub response : Option HttpResponse
  pub last_err : String
  pub attempts : ℕ
  pub waited : ℕ

-- What the client gets.
pub data Reply : Type 0 where
  too_large : Reply
  internal_error : Reply
  invalid : List ℕ → Reply
  body : List ℕ → Reply

module _ (B : Backend) where
  -- One attempt: the marshalling and the request are made anew each time.
  unfoldable pub attempt_once : ℕ → Request → Result Done
  attempt_once i req =
      and_then (B.marshal req) λ bs. and_then (B.new_request bs) λ _. ok (B.send i bs)

  -- The loop from the attempt `i` on, with `left` attempts left. The `err` inside is another
  -- variable than the one that is tested behind the loop, which stays nil. The last attempt ends
  -- the loop before its error is saved, and a response beside that error stays.
  unfoldable pub retry : ℕ → ℕ → Request → String → ℕ → Result LoopEnd
  unfolding attempt_once backoff
  retry zero i req last_err waited =
      ok (record { response = none; last_err = last_err; attempts = i; waited = waited })
  retry (suc left) i req last_err waited = elim (attempt_once i req) [
    | err e ↦ err e
    | ok (responded response) ↦ ok (record {
      response = some response;
      last_err = last_err;
      attempts = i + 1;
      waited = waited;
    })
    | ok (failed e beside) ↦
        let rest = retry left (i + 1) req e (waited + backoff i) in
        if left == 0
        then ok
            (record { response = beside; last_err = last_err; attempts = i + 1; waited = waited })
        else rest
  ]

  -- What is done with the end of the loop.
  unfoldable pub answer : Request → LoopEnd → Result (List ℕ)
  answer req l = elim l.response [
    | none ↦ err (
        "invalid http POST response (nil), method: "
        <> req.method
        <> ", id: "
        <> elim req.id [ none ↦ "%!d(<nil>)" | some n ↦ itoa n ]
        <> ", last error="
        <> l.last_err)
    | some response ↦ map_err (λ e. "error reading json reply: " <> e) response
  ]

  -- `rawRequest`, on the counter behind `nextID`. The request keeps its method and parameters and
  -- takes the proxy's identifier.
  unfoldable pub forwarded : ℕ → Request → Request
  unfolding next_id
  forwarded reqid req = record req { id = some (next_id reqid); jsonrpc = rpc_version1 }

  unfoldable pub raw_request : Request → ℕ → Result (List ℕ) × ℕ
  unfolding forwarded retry answer
  raw_request req reqid =
      let req' = forwarded reqid req in
      (and_then (retry tries 0 req' "<nil>" 0) (answer req'), next_id reqid)

  -- `mainHttpHandler`. The body is what `io.ReadAll` reads behind `http.MaxBytesReader`: an error
  -- when it is larger than the limit.
  unfoldable pub handle : Result (List ℕ) → ℕ → Reply × ℕ
  handle read reqid = elim read [
    | err e ↦ (too_large, reqid)
    | ok bytes ↦ elim (B.unmarshal bytes) [
      | err e ↦ elim B.invalid_response [
        | err e' ↦ (internal_error, reqid)
        | ok resp ↦ (invalid resp, reqid)
      ]
      | ok req ↦
          if str_eq req.method ""
          then (internal_error, reqid)
          else if is_allowed req.method
          then elim (raw_request req reqid).0 [
            | err e ↦ (internal_error, (raw_request req reqid).1)
            | ok res ↦ (body res, (raw_request req reqid).1)
          ]
          else (internal_error, reqid)
    ]
  ]

-- `strings.Replace(arg, "\n", "", -1)` over the bytes of an argument of `InlineStrLog`.
unfoldable pub without_newlines : List ℕ → List ℕ
without_newlines [] = []
without_newlines (b ∷ bs) = if b == 10 then without_newlines bs else b ∷ without_newlines bs
