-- ===== src/Tests/Streams.antt =====
-- The theorems on the receiving goroutine at concrete data.
use omnicore_proxy.Base.{ℕ, ◌≡◌, refl, List, [], ◌∷◌, true, false, Result, ok, err}
use omnicore_proxy.Toolrpc.HeartBeat.Receive.{
  exited, sending, RecvStream, chan_recv, behind_send, Receive, receives_next, hand_over,
  close_channel, Receives, begin, next, EndsWithError, received_in_order, goroutine_blocks,
}

abbrev sent : List (Result ℕ)
sent = ok 1 ∷ err "EOF" ∷ []

-- The whole stream, read to its end.
abbrev read_up : RecvStream ℕ
read_up = record { left = []; goroutine = exited; closed = true; taken = sent; reading = false }

read_up-Receives : Receives sent read_up
unfolding chan_recv behind_send
read_up-Receives =
    next
      (next
        (next
          (next (next begin (receives_next (ok 1) (err "EOF" ∷ []) refl refl))
            (hand_over (ok 1) refl refl))
          (receives_next (err "EOF") [] refl refl))
        (hand_over (err "EOF") refl refl))
      (close_channel refl)

received_in_order_example :
    (sent ≡ sent) × (true ≡ true) × (true ≡ true → (false ≡ false) × EndsWithError sent)
received_in_order_example = received_in_order sent read_up read_up-Receives

goroutine_blocks_example :
    (p : RecvStream ℕ) × Receives sent p
    × (p.goroutine ≡ sending (ok 1))
    × ((q : RecvStream ℕ) → ¬ Receive p q)
goroutine_blocks_example = goroutine_blocks (ok 1) (err "EOF" ∷ [])
