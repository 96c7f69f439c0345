-- ===== src/Toolrpc/Spay/Life/Turns.antt =====
-- The life of an agency payment, turn by turn.
use omnicore_proxy.Base.{◌≡◌, refl, Bool, true, false, arith}
use omnicore_proxy.Toolrpc.Rows.{SpayStatus, pay_init, user_payed, pay_end, refunded, error}
use omnicore_proxy.Toolrpc.Spay.Life.{
  payer_pays, invoice_fails, user_is_paid, payer_is_refunded, user_is_paid_late, Life, begun,
  turned,
}

pub Life-trans : {s t u : SpayStatus} → Life s t → Life t u → Life s u
Life-trans a begun = a
Life-trans a (turned b turn) = turned (Life-trans a b) turn

-- The statuses of a payment that was settled, and what the life makes of them.
abbrev pub is_settled : SpayStatus → Bool
is_settled user_payed = true
is_settled pay_end = true
is_settled refunded = true
is_settled _ = false

pub Life-is_settled : {s t : SpayStatus} → is_settled s ≡ true → Life s t → is_settled t ≡ true
Life-is_settled h begun = h
Life-is_settled h (turned l payer_pays) = refl
Life-is_settled h (turned l invoice_fails) = Life-is_settled h l
Life-is_settled h (turned l user_is_paid) = refl
Life-is_settled h (turned l payer_is_refunded) = refl
Life-is_settled h (turned l user_is_paid_late) = refl

pub settled-Life : (s : SpayStatus) → is_settled s ≡ true → Life s pay_end
settled-Life user_payed h = turned begun user_is_paid
settled-Life pay_end h = begun
settled-Life refunded h = turned begun user_is_paid_late
settled-Life pay_init h = ground arith
settled-Life error h = ground arith
