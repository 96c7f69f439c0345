-- ===== src/Lndapi/Node.antt =====
-- The lightning node behind `lnrpc.LightningClient` and `routerrpc.RouterClient`. The clients are
-- generated code of another repository, so they are an interface over an unknown state.
use omnicore_proxy.Base.{ℕ, String, List, Bool, Result}
use omnicore_proxy.Base.Int.{ℤ}

-- The fields of `lnrpc.PayReq` that are read.
pub record PayReq : Type 0 where
  pub asset_id : ℕ
  pub amount : ℤ
  pub amt_msat : ℤ
  pub expiry : ℤ

-- The fields of `lnrpc.Invoice` that are set to ask for an invoice.
pub record InvoiceReq : Type 0 where
  pub asset_id : ℕ
  pub value_msat : ℤ
  pub amount : ℤ
  pub expiry : ℤ
  pub refundable : Bool

pub record AddInvoiceResponse : Type 0 where
  pub payment_request : String
  pub r_hash : List ℕ

-- The fields of `routerrpc.SendPaymentRequest` that are set. `key_send` is the preimage in
-- `DestCustomRecords`, and it, `dest` and `payment_hash` are empty where they are not set.
pub record SendPaymentRequest : Type 0 where
  pub asset_id : ℕ
  pub payment_request : String
  pub amt_msat : ℤ
  pub asset_amt : ℤ
  pub dest : List ℕ
  pub key_send : List ℕ
  pub payment_hash : List ℕ
  pub fee_limit_msat : ℤ
  pub no_inflight_updates : Bool
  pub timeout_seconds : ℕ

-- What `stream.Recv()` gives of a payment: whether `Status` is `SUCCEEDED`, and the two texts
-- that an error message prints.
pub record Payment : Type 0 where
  pub succeeded : Bool
  pub status : String
  pub failure_reason : String

pub record Node : Type 1 where
  pub State : Type 0
  pub Stream : Type 0
  -- `lnwire.BtcAssetId`
  pub btc_asset_id : ℕ
  pub decode_pay_req : String → State → Result PayReq
  pub add_invoice : InvoiceReq → State → Result AddInvoiceResponse × State
  -- `OB_SendPaymentV2`, and the first `Recv` on its stream
  pub send_payment : SendPaymentRequest → State → Result Stream × State
  pub recv : Stream → State → Result Payment × State
