-- ===== src/Toolrpc/HeartBeat/Receive.antt =====
-- `ChanRecv` of toolrpc/luckPk.go: the goroutine that receives for `HeartBeat`, and the loop of
-- `HeartBeat` that reads from its unbuffered channel, interleaved.
use mathlib.Core.List.{append_assoc}
use omnicore_proxy.Base.{
  ◌≡◌, refl, ◌∙◌, arith, List, [], ◌∷◌, ◌++◌, Bool, true, false, String, Result, ok, err, is_ok,
}

-- Where the goroutine stands: at `Recv`, at the send of what it received, at the close of the
-- channel, or behind its end.
pub data Goroutine (A : Type 0) : Type 0 where
  receiving : Goroutine A
  sending : Result A → Goroutine A
  closing exited : Goroutine A

-- What the client still sends, the goroutine, the channel, what `HeartBeat` took from it, in order,
-- and whether `HeartBeat` still reads.
pub record RecvStream (A : Type 0) : Type 0 where
  pub left : List (Result A)
  pub goroutine : Goroutine A
  pub closed : Bool
  pub taken : List (Result A)
  pub reading : Bool

module _ {A : Type 0} where
  unfoldable pub chan_recv : List (Result A) → RecvStream A
  chan_recv sent = record {
    left = sent;
    goroutine = receiving;
    closed = false;
    taken = [];
    reading = true;
  }

  -- Behind a send: the loop goes on behind a message, and the channel is closed behind an error.
  unfoldable pub behind_send : Result A → Goroutine A
  behind_send (ok m) = receiving
  behind_send (err e) = closing

  -- One step. `HeartBeat` returns behind an error that it takes, and at any time for the shutdown
  -- or an error of its own.
  pub data Receive (p : RecvStream A) : RecvStream A → Type 0 where
    receives_next :
        (x : Result A) (xs : List (Result A))
        → p.goroutine ≡ receiving
        → p.left ≡ x ∷ xs
        → Receive p (record p { goroutine = sending x; left = xs })
    hand_over :
        (x : Result A)
        → p.goroutine ≡ sending x
        → p.reading ≡ true
        → Receive p
            (record p { goroutine = behind_send x; taken = p.taken ++ x ∷ []; reading = is_ok x })
    close_channel :
        p.goroutine ≡ closing → Receive p (record p { goroutine = exited; closed = true })
    leave : p.reading ≡ true → Receive p (record p { reading = false })

  pub data Receives (sent : List (Result A)) : RecvStream A → Type 0 where
    begin : Receives sent (chan_recv sent)
    next : {p q : RecvStream A} → Receives sent p → Receive p q → Receives sent q

  -- What the goroutine has received and not yet handed over.
  abbrev pub in_hand : Goroutine A → List (Result A)
  in_hand (sending x) = x ∷ []
  in_hand _ = []

  -- The goroutine is behind its loop.
  abbrev pub is_behind : Goroutine A → Bool
  is_behind closing = true
  is_behind exited = true
  is_behind _ = false

  abbrev pub is_exited : Goroutine A → Bool
  is_exited exited = true
  is_exited _ = false

  order-Receive :
      {p q : RecvStream A}
      → Receive p q
      → q.taken ++ (in_hand q.goroutine ++ q.left) ≡ p.taken ++ (in_hand p.goroutine ++ p.left)
  unfolding behind_send
  order-Receive {p} (receives_next x xs at rest) = rw (at, rest) refl
  order-Receive {p} (hand_over (ok m) at reads) = rw at (append_assoc p.taken (ok m ∷ []) p.left)
  order-Receive {p} (hand_over (err m) at reads) = rw at (append_assoc p.taken (err m ∷ []) p.left)
  order-Receive {p} (close_channel at) = rw at refl
  order-Receive {p} (leave reads) = refl

  order-Receives :
      (sent : List (Result A)) (p : RecvStream A)
      → Receives sent p
      → p.taken ++ (in_hand p.goroutine ++ p.left) ≡ sent
  unfolding chan_recv
  order-Receives sent _ begin = refl
  order-Receives sent q (next {p} r s) = order-Receive s ∙ order-Receives sent p r

  -- What was taken ends with an error of the stream.
  abbrev pub EndsWithError : List (Result A) → Type 0
  EndsWithError taken = (before : List (Result A)) × (e : String) × (taken ≡ before ++ err e ∷ [])

  record IsOrderly (p : RecvStream A) : Type 0 where
    closes : p.closed ≡ is_exited p.goroutine
    by_error : is_behind p.goroutine ≡ true → (p.reading ≡ false) × EndsWithError p.taken

  Receive-IsOrderly : {p q : RecvStream A} → Receive p q → IsOrderly p → IsOrderly q
  unfolding behind_send
  Receive-IsOrderly {p} (receives_next x xs at rest) i = record {
    closes = ground (arith, i.closes);
    by_error = λ b. cc;
  }
  Receive-IsOrderly {p} (hand_over (ok m) at reads) i = record {
    closes = ground (arith, i.closes);
    by_error = λ b. cc;
  }
  Receive-IsOrderly {p} (hand_over (err e) at reads) i = record {
    closes = ground (arith, i.closes);
    by_error = λ b. (refl, (p.taken, e, refl));
  }
  Receive-IsOrderly {p} (close_channel at) i = record {
    closes = refl;
    by_error = λ b. i.by_error (rw at refl);
  }
  Receive-IsOrderly {p} (leave reads) i = record {
    closes = i.closes;
    by_error = λ b. (refl, (i.by_error b).1);
  }

  Receives-IsOrderly : (sent : List (Result A)) (p : RecvStream A) → Receives sent p → IsOrderly p
  unfolding chan_recv
  Receives-IsOrderly sent _ begin = record { closes = refl; by_error = λ b. cc }
  Receives-IsOrderly sent q (next {p} r s) = Receive-IsOrderly s (Receives-IsOrderly sent p r)

  -- However the goroutine and `HeartBeat` interleave, what `HeartBeat` has taken, what the goroutine
  -- holds and what the client still sends make up what the client sent, in that order; and the
  -- goroutine ends only behind an error of the stream that `HeartBeat` took.
  pub received_in_order :
      (sent : List (Result A)) (p : RecvStream A)
      → Receives sent p
      → (p.taken ++ (in_hand p.goroutine ++ p.left) ≡ sent)
        × (p.closed ≡ is_exited p.goroutine)
        × (is_behind p.goroutine ≡ true → (p.reading ≡ false) × EndsWithError p.taken)
  received_in_order sent p r =
      let i = Receives-IsOrderly sent p r in (order-Receives sent p r, i.closes, i.by_error)

  blocked :
      {p q : RecvStream A} (x : Result A)
      → p.goroutine ≡ sending x
      → p.reading ≡ false
      → ¬ Receive p q
  blocked x at gone (receives_next y ys at' rest) = ground arith
  blocked x at gone (hand_over y at' reads) = ground arith
  blocked x at gone (close_channel at') = ground arith
  blocked x at gone (leave reads) = ground arith

  -- Whatever a client sends first, a state can be reached in which `HeartBeat` has returned and the
  -- goroutine stands at its send, and from which there is no step: it never ends.
  pub goroutine_blocks :
      (x : Result A) (xs : List (Result A))
      → (p : RecvStream A) × Receives (x ∷ xs) p
        × (p.goroutine ≡ sending x)
        × ((q : RecvStream A) → ¬ Receive p q)
  unfolding chan_recv
  goroutine_blocks x xs = (
    record { left = xs; goroutine = sending x; closed = false; taken = []; reading = false },
    next (next begin (receives_next x xs refl refl)) (leave refl),
    refl,
    λ q. blocked x refl refl,
  )
