-- ===== src/Tests/Payments.antt =====
-- The theorems on packets, agency payments and streams at concrete data.
use omnicore_proxy.Toolrpc.LuckPk.Give.Once.{
  AnswersQueries, GiveCall, give_all, give_all-OnePerUser,
}
use omnicore_proxy.Toolrpc.LuckPk.Give.Writes.{OnePerUser, Settles}
use omnicore_proxy.Base.{
  ℕ, ◌+◌, ◌≤◌, ◌<◌, ◌^◌, ◌≡◌, ◌≢◌, refl, ◌==◌, true, ◌*◌, ◌/◌, none, String, List, [], ◌∷◌, some,
  ok, err, find_first, arith, ◌⊎◌, Option-cases, inl, inr,
}
use omnicore_proxy.Base.Int.{pos}
use omnicore_proxy.Lndapi.Node.{PayReq}
use omnicore_proxy.Lndapi.Payment.{invoice_amount, invoice_req}
use omnicore_proxy.Toolrpc.Rows.{
  Spay, SpayStatus, user_payed, pay_init, pay_end, refunded, no_luck_item, no_spay, payed, paying,
}
use omnicore_proxy.Toolrpc.Table.{NodupIds, IsLawful, IsUpdatable}
use omnicore_proxy.Toolrpc.LuckPk.{InvoiceUpdate, InvoiceState}
use omnicore_proxy.Toolrpc.LuckPk.Give.{GiveLuckPkReq, Claim, by_claim, check_claim, claim_item}
use omnicore_proxy.Toolrpc.LuckPk.Give.Checks.{IsOpen, check_claim-allowed}
use omnicore_proxy.Toolrpc.LuckPk.Give.Balance.{AllBalanced, IsBalanced, IsReliable}
use omnicore_proxy.Toolrpc.Spay.{
  run_user_spay, refund, update_spay_by_invoide, create_spay, runs_for,
}
use omnicore_proxy.Toolrpc.Spay.Status.{overlay, status_in, MayMove}
use omnicore_proxy.Toolrpc.Spay.Moves.{
  run_user_spay-MayMove, refund-MayMove, update_spay_by_invoide-MayMove,
}
use omnicore_proxy.Toolrpc.Spay.Create.{create_spay_unpaid_runs, invoice_req-rounds_down}
use omnicore_proxy.Toolrpc.Monitor.Packets.{overlay_luck_pk}
use omnicore_proxy.Toolrpc.Spay.Life.{
  Operation, monitored, job_ran, ran, gave_back, settled_paid, told, spay_sent, begun, perform_all,
}
use omnicore_proxy.Toolrpc.HeartBeat.{get_invoice_res}
use omnicore_proxy.Toolrpc.Spay.Life.Refine.{Follows, perform_all-Follows}
use omnicore_proxy.Toolrpc.Monitor.{stream, broken, blocked, tick, stop}
use omnicore_proxy.Tests.Memory.{memory-IsLawful, memory-IsUpdatable}
use omnicore_proxy.Tests.Services.{node, env, world, waiting, due, user, packet, decoded}

abbrev spays_lawful : IsLawful env.spays (λ xs. xs) (λ x. x.id) (λ n r. record r { id = n })
spays_lawful = memory-IsLawful (λ x. x.id) (λ n r. record r { id = n }) overlay (λ n r. refl)

abbrev spays_updatable : IsUpdatable env.spays (λ xs. xs) (λ x. x.id) overlay
spays_updatable = memory-IsUpdatable (λ x. x.id) (λ n r. record r { id = n }) overlay

distinct : NodupIds (λ (x : Spay). x.id) world.spays
distinct = (refl, (refl, tt))

pub reliable : IsReliable env (λ xs. xs) (λ xs. xs)
reliable = record {
  lks = memory-IsLawful (λ x. x.id) (λ n r. record r { id = n }) overlay_luck_pk (λ n r. refl);
  items = record {
    lawful = memory-IsLawful (λ x. x.id) (λ n r. record r { id = n }) (λ x u. u) (λ n r. refl);
    saved = λ r s. (_, refl);
  };
  lk_saved = λ r s. (_, refl);
}

packet-IsBalanced : IsBalanced [] packet
packet-IsBalanced = ground arith

pub balanced : AllBalanced env (λ xs. xs) (λ xs. xs) world
balanced = record { each = λ j lk h. ground (arith, packet-IsBalanced); unique = tt }

abbrev pub give_req : GiveLuckPkReq
give_req = record { id = 2; invoice = "user" }

pub decoded_amount :
    (p : PayReq) (r : String) (s : ℕ)
    → node.decode_pay_req r s ≡ ok p
    → (n : ℕ) × (n < 2 ^ 63) × (invoice_amount p ≡ pos n)
unfolding invoice_amount
decoded_amount p r s h = (5000, omega arith, ground arith)

answers_queries : AnswersQueries env (λ xs. xs)
answers_queries = record {
  reliable = reliable.items;
  finds = λ p s e h. elim (Option-cases (find_first p s)) [
    | inl nothing ↦ nothing
    | inr (x, found) ↦ ground arith
  ];
}

-- A user who asks twice, and another user.
abbrev claims : List GiveCall
claims =
    record { now = pos 10; user_id = 1; req = give_req }
    ∷ record { now = pos 11; user_id = 1; req = give_req }
    ∷ record { now = pos 11; user_id = 4; req = give_req }
    ∷ []

give_all-OnePerUser_example :
    OnePerUser (give_all env claims world).luck_items
    × Settles world.luck_items (give_all env claims world).luck_items
give_all-OnePerUser_example =
    give_all-OnePerUser env (λ xs. xs) answers_queries claims world
      (
        (λ h. ground arith, λ h. ground arith),
        ((λ h. ground arith, λ h. ground arith), ((λ h. ground arith, λ h. ground arith), tt)),
      )
      (record { unique = tt; stored = refl; once = λ u j nu nj. omega arith })

run_user_spay-MayMove_example :
    MayMove user_payed pay_end
      (some user_payed)
      (status_in 4 (run_user_spay env (λ _. 1) (pos 10) 1 world).spays)
run_user_spay-MayMove_example =
    run_user_spay-MayMove env (λ xs. xs) spays_lawful spays_updatable (λ _. 1) (pos 10) 1 world 4
      distinct

refund-MayMove_example :
    MayMove user_payed refunded
      (some user_payed)
      (status_in 4 (refund env (λ _. 1) (pos 200) "" world).spays)
refund-MayMove_example =
    refund-MayMove env (λ xs. xs) spays_lawful spays_updatable (λ _. 1) (pos 200) "" world 4
      distinct

abbrev settlement : InvoiceUpdate
settlement = record {
  r_hash = 1 ∷ 2 ∷ [];
  state = InvoiceState.settled;
  payer_addr = 171 ∷ [];
  settle_date = pos 20;
  expiry = pos 3600;
}

update_spay_by_invoide-MayMove_example :
    let after = status_in 3 (update_spay_by_invoide env settlement world).0.spays in
    MayMove pay_init user_payed (some pay_init) after
    ⊎ MayMove pay_init SpayStatus.error (some pay_init) after
update_spay_by_invoide-MayMove_example =
    update_spay_by_invoide-MayMove env (λ xs. xs) spays_lawful spays_updatable settlement world 3
      distinct

abbrev sent : Spay
sent = record waiting { id = 0; status = user_payed }

created : Spay
unfolding create_spay
created = elim (create_spay env 1 sent world).0 [ ok row ↦ row | err e ↦ sent ]

create_spay_unpaid_runs_example :
    (runs_for 1 (pos 10) created ≡ true)
    × (created.user_invoice ≡ "user")
    × (created.id ≢ 0)
    × (find_first (λ x. x.id == created.id) world.spays ≡ none)
    × (find_first (λ x. x.id == created.id) (create_spay env 1 sent world).1.spays ≡ some created)
unfolding created create_spay
create_spay_unpaid_runs_example =
    create_spay_unpaid_runs env (λ xs. xs) spays_lawful 1 sent created world (pos 10) refl refl
      (omega arith) refl

invoice_req-rounds_down_example :
    let req = invoice_req 0 (invoice_amount decoded) (pos 3600) in
    (v : ℕ) × (req.value_msat ≡ pos v)
    × (v ≡ 5000999 / 1000 * 1000)
    × (v ≤ 5000999)
    × (5000999 < v + 1000)
    × (req.amount ≡ pos 0)
invoice_req-rounds_down_example = invoice_req-rounds_down decoded 5000999 refl refl (omega arith)

abbrev moved : Spay
moved =
    overlay waiting (record no_spay { status = user_payed; payer_addr = "ab"; expire = pos 3620 })

abbrev claim : Claim
claim = record {
  lk = packet;
  item = record no_luck_item { user_id = 1; luckpk_id = 2 };
  amt = pos 5000;
}

check_claim-allowed_example :
    (env.luck_pks.first (λ lk. lk.id == 2) world.luck_pks ≡ ok claim.lk)
    × IsOpen (pos 10) claim.lk
    × ((env.luck_items.first (by_claim 1 2) world.luck_items ≡ ok claim.item)
        ⊎ (claim.item ≡ record no_luck_item { user_id = 1; luckpk_id = 2 }))
    × (claim.item.status ≢ payed)
    × (claim.item.status ≢ paying)
    × ((p : PayReq) × (env.node.decode_pay_req give_req.invoice world.node ≡ ok p)
        × (invoice_amount p ≡ pos 5000)
        × (claim.lk.asset_id ≡ p.asset_id))
    × (5000 ≤ claim.lk.balance)
unfolding check_claim claim_item invoice_amount
check_claim-allowed_example =
    check_claim-allowed env (pos 10) 1 give_req world claim 5000 refl refl (omega arith)
      (omega arith)

-- The second row is settled: its goroutine pays it, a client answers, and another sends a spay.
abbrev operations : List Operation
operations =
    settled_paid due
    ∷ monitored (stream (settlement ∷ []) broken ∷ stream (settlement ∷ []) blocked ∷ [])
    ∷ job_ran (λ _. 1) (tick (pos 200) ∷ stop ∷ [])
    ∷ told user (record {
      action = get_invoice_res;
      body = some (record { spay_id = 4; pay_req = "mine" });
    })
    ∷ spay_sent 1 sent
    ∷ ran (λ _. 1) (pos 10) 1
    ∷ gave_back (λ _. 1) (pos 200) ""
    ∷ []

perform_all-Follows_example :
    Follows pay_init (status_in 3 (perform_all env operations world).spays)
perform_all-Follows_example =
    perform_all-Follows env (λ xs. xs) spays_lawful spays_updatable operations world 3 pay_init
      distinct refl ((user_payed, refl, begun), (tt, (tt, (tt, (refl, (tt, (tt, tt)))))))
