-- ===== src/Tests/Packets.antt =====
-- The books of the lucky packets over a run of all operations.
use omnicore_proxy.Base.{refl, arith, List, [], ◌∷◌}
use omnicore_proxy.Base.Int.{pos}
use omnicore_proxy.Toolrpc.Rows.{no_luck_pk}
use omnicore_proxy.Toolrpc.Monitor.Packets.{overlay_luck_pk}
use omnicore_proxy.Toolrpc.LuckPk.{settled}
use omnicore_proxy.Toolrpc.LuckPk.Books.{IsSound}
use omnicore_proxy.Toolrpc.LuckPk.Life.{
  PacketOperation, created, invoiced, given, DoesItsPart, perform_all, perform_all-IsSound,
}
use omnicore_proxy.Tests.Memory.{memory-Creates, memory-IsUpdatable}
use omnicore_proxy.Tests.Payments.{reliable, balanced, decoded_amount, give_req}
use omnicore_proxy.Tests.Services.{env, world}

does_its_part : DoesItsPart env (λ xs. xs) (λ xs. xs)
does_its_part = record {
  reliable = reliable;
  creates = memory-Creates (λ x. x.id) (λ n r. record r { id = n }) overlay_luck_pk (λ n r. refl);
  updatable = memory-IsUpdatable (λ x. x.id) (λ n r. record r { id = n }) overlay_luck_pk;
  amounts = decoded_amount;
}

-- A packet is created and paid, and a part of another one is given.
abbrev operations : List PacketOperation
operations =
    created 1 (record no_luck_pk { amt = 100; parts = 2 })
    ∷ invoiced (record {
      r_hash = 1 ∷ [];
      state = settled;
      payer_addr = [];
      settle_date = pos 9;
      expiry = pos 60;
    })
    ∷ given (pos 10) 1 give_req
    ∷ []

perform_all-IsSound_example : IsSound env (λ xs. xs) (λ xs. xs) (perform_all env operations world)
perform_all-IsSound_example =
    perform_all-IsSound env (λ xs. xs) (λ xs. xs) does_its_part operations world
      ((refl, refl, omega arith, omega arith), (tt, ((λ h. ground arith), tt)))
      (record { balanced = balanced; owned = λ j h. (refl, refl) })
