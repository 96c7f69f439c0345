-- ===== src/Lndapi/Fee.antt =====
-- The routing fee limit of lndapi/rpc.go, for every amount.
use omnicore_proxy.Base.{ℕ, ◌*◌, ◌/◌, ◌^◌, ◌≤◌, ◌<◌, ◌≡◌, ◌⊎◌, arith}
use omnicore_proxy.Base.Int.{ℤ, pos, ◌≤ℤ◌, IsInt64}
use omnicore_proxy.Lndapi.Payment.{default_routing_fee_limit_for_amount}

-- Every amount up to 1000000 may be spent whole on fees. Above it, and up to (2 ^ 63 - 1) / 5, the
-- limit is a twentieth, rounded down.
fee_limit_brackets :
    (n : ℕ)
    → n * 5 < 2 ^ 63
    → ((n ≤ 1000000) × (default_routing_fee_limit_for_amount (pos n) ≡ pos n))
      ⊎ ((1000000 < n) × (default_routing_fee_limit_for_amount (pos n) ≡ pos (n / 20)))
unfolding default_routing_fee_limit_for_amount
fee_limit_brackets n h = ground arith

-- No int64 amount gets a limit above the amount.
pub fee_limit_le_amount : (a : ℤ) → IsInt64 a → default_routing_fee_limit_for_amount a ≤ℤ a
unfolding default_routing_fee_limit_for_amount
fee_limit_le_amount a h = ground arith
