-- ===== src/Toolrpc/Channels/Amounts.antt =====
-- The amounts of the channels that the server opens.
use omnicore_proxy.Base.{
  ℕ, ◌+◌, ◌-◌, ◌*◌, ◌/◌, ◌≤◌, ◌<◌, ◌^◌, ◌≡◌, ◌∙◌, refl, ◌⊎◌, inl, inr, arith, Bool-cases, leb,
}
use omnicore_proxy.Base.Int.{pos}
use omnicore_proxy.Toolrpc.Channels.{PendingChannel, matched_btc, cut}

-- Below 2 ^ 58 nothing wraps around.
cut_above :
    (t n : ℕ) → t < n → t < 2 ^ 32 → n < 2 ^ 58 → cut t (pos n) ≡ pos (t + (n - t) * 20 / 100)
unfolding cut
cut_above t n h u g = ground arith

cut_below : (t n : ℕ) → n ≤ t → cut t (pos n) ≡ pos n
unfolding cut
cut_below t n h = ground arith

matched_btc-cut :
    (c : PendingChannel) (n : ℕ)
    → c.asset_id ≡ 0
    → c.btc_capacity ≡ pos n
    → matched_btc c ≡ cut 100000 (pos n)
unfolding matched_btc
matched_btc-cut c n z e = rw (z, e) refl

-- A bitcoin channel is answered with one of the same capacity up to 100000, and above that with
-- 100000 and a fifth of the rest, rounded down: never more than the other side put in. The
-- capacity is below 2 ^ 58.
matched_btc_bounds :
    (c : PendingChannel) (n : ℕ)
    → c.asset_id ≡ 0
    → c.btc_capacity ≡ pos n
    → n < 2 ^ 58
    → (k : ℕ) × (matched_btc c ≡ pos k)
      × (((n ≤ 100000) × (k ≡ n))
          ⊎ ((100000 ≤ k) × (k ≤ n) × (k * 5 ≤ n + 400000) × (n + 400000 < k * 5 + 5)))
matched_btc_bounds c n z e h = elim (Bool-cases (leb n 100000)) [
  | inl low ↦
      (n, matched_btc-cut c n z e ∙ cut_below 100000 n (ground arith), inl (ground arith, refl))
  | inr high ↦ (
    100000 + (n - 100000) * 20 / 100,
    matched_btc-cut c n z e ∙ cut_above 100000 n (ground arith) (omega arith) h,
    inr (ground arith, ground arith, ground arith, ground arith),
  )
]
