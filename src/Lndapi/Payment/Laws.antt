-- ===== src/Lndapi/Payment/Laws.antt =====
-- What `AddInvoice` and `Sendpayment` of lndapi/rpc.go do with the amounts and the answers.
use omnicore_proxy.Base.{String, ◌≡◌, inl, inr, Result-cases, true, ok, arith}
use omnicore_proxy.Lndapi.Node.{Node, PayReq, Payment}
use omnicore_proxy.Lndapi.Payment.{send_payment, payment_of}

module _ (N : Node) where
  -- `Sendpayment` reports success only when the invoice decodes, the router accepts the request
  -- made of it, and the first update on the stream is a success.
  pub send_payment-succeeds :
      (pay_req : String) (s s' : N.State)
      → send_payment N pay_req s ≡ (ok true, s')
      → (p : PayReq) × (stream : N.Stream) × (t : N.State) × (payment : Payment) × (N.decode_pay_req
            pay_req s
          ≡ ok p)
        × (N.send_payment (payment_of N pay_req p) s ≡ (ok stream, t))
        × (N.recv stream t ≡ (ok payment, s'))
        × (payment.succeeded ≡ true)
  unfolding send_payment
  send_payment-succeeds pay_req s s' h = elim (Result-cases (N.decode_pay_req pay_req s)) [
    | inr (e, d) ↦ ground arith
    | inl (p, d) ↦ elim (Result-cases (N.send_payment (payment_of N pay_req p) s).0) [
      | inr (e, o) ↦ ground arith
      | inl (stream, o) ↦
          elim (Result-cases (N.recv stream (N.send_payment (payment_of N pay_req p) s).1).0) [
            | inr (e, r) ↦ ground arith
            | inl (payment, r) ↦ (
              p,
              stream,
              (N.send_payment (payment_of N pay_req p) s).1,
              payment,
              d,
              ground arith,
              ground arith,
              ground arith,
            )
          ]
    ]
  ]
