-- ===== src/Tests/Proxy.antt =====
-- The theorems on the proxy, the payments of the node and the interceptor at concrete data.
use omnicore_proxy.Base.{
  ℕ, ◌≡◌, refl, true, false, not, ◌&&◌, if◌then◌else◌, ltb, List, [], ◌∷◌, none, some, ok, arith,
}
use omnicore_proxy.Base.Int.{pos, ◌≤ℤ◌}
use omnicore_proxy.Lndapi.Node.{PayReq, Payment}
use omnicore_proxy.Lndapi.Payment.{
  default_routing_fee_limit_for_amount, send_payment, payment_of, settled,
}
use omnicore_proxy.Lndapi.Payment.Laws.{send_payment-succeeds}
use omnicore_proxy.Lndapi.Fee.{fee_limit_le_amount}
use omnicore_proxy.WhitelistProxy.{
  Request, Backend, responded, failed, handle, is_allowed, contains, raw_request, retry, answer,
}
use omnicore_proxy.WhitelistProxy.Retry.Reference.{
  first_response_or_error, raw_request-first_response,
}
use omnicore_proxy.WhitelistProxy.Handler.{IsPublic, handle-IsPublic}
use omnicore_proxy.Signal.{
  Interceptor, fresh, shutdown, listening, Reach, begin, next, take_request,
}
use omnicore_proxy.Signal.Lifecycle.{Reach-lifecycle}
use omnicore_proxy.Tests.Services.{node}

abbrev get_info : Request
get_info = record { jsonrpc = "1.0"; method = "getinfo"; params = []; id = some 40 }

abbrev send_many : Request
send_many = record get_info { method = "sendmany" }

-- A full node that answers from the third attempt on. Every body of a request reads as `getinfo`,
-- but for the empty one.
abbrev backend : Backend
backend = record {
  marshal = λ r. ok (1 ∷ []);
  new_request = λ b. ok tt;
  send = λ t b. if ltb t 2 then failed "refused" none else responded (ok (123 ∷ 125 ∷ []));
  unmarshal = λ b. elim b [ [] ↦ ok send_many | x ∷ xs ↦ ok get_info ];
  invalid_response = ok (0 ∷ []);
}

raw_request-first_response_example :
    (raw_request backend get_info 7).0 ≡ first_response_or_error backend get_info 7 (1 ∷ [])
raw_request-first_response_example =
    raw_request-first_response backend get_info 7 (1 ∷ []) refl refl

handle-IsPublic_example :
    (raw : List ℕ) × (req : Request) × (ok (5 ∷ []) ≡ ok raw)
    × (backend.unmarshal raw ≡ ok req)
    × IsPublic req.method
    × ((raw_request backend req 7).0 ≡ ok (123 ∷ 125 ∷ []))
unfolding handle is_allowed contains raw_request retry answer
handle-IsPublic_example = handle-IsPublic backend (ok (5 ∷ [])) 7 8 (123 ∷ 125 ∷ []) refl

fee_limit_le_amount_example : default_routing_fee_limit_for_amount (pos 2000000) ≤ℤ pos 2000000
fee_limit_le_amount_example = fee_limit_le_amount (pos 2000000) (ground arith)

send_payment-succeeds_example :
    (p : PayReq) × (stream : ℕ) × (t : ℕ) × (payment : Payment) × (node.decode_pay_req "user" 0
      ≡ ok p)
    × (node.send_payment (payment_of node "user" p) 0 ≡ (ok stream, t))
    × (node.recv stream t ≡ (ok payment, 1))
    × (payment.succeeded ≡ true)
unfolding send_payment settled
send_payment-succeeds_example = send_payment-succeeds node "user" 0 1 refl

abbrev after_request : Interceptor
after_request = shutdown fresh

reached : Reach after_request
unfolding fresh
reached = next begin (take_request refl)

Reach-lifecycle_example :
    (after_request.quit_closed ≡ after_request.is_shutdown)
    × (after_request.stops ≡ (if after_request.is_shutdown then 1 else 0))
    × (after_request.shutdown_closed ≡ not after_request.running)
    × ((after_request.shutdown_closed && not after_request.quit_closed) ≡ false)
    × (listening after_request ≡ not after_request.is_shutdown)
Reach-lifecycle_example = Reach-lifecycle after_request reached
