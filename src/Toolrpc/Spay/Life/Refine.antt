-- ===== src/Toolrpc/Spay/Life/Refine.antt =====
-- The operations of toolrpc/luckPk.go on agency payments refine the life of a payment.
use omnicore_proxy.Base.{
  String, ℕ, ◌≡◌, refl, true, Result-cases, sym, subst, ◌∙◌, inl, inr, List, [], ◌∷◌, Option, some,
  arith,
}
use omnicore_proxy.Toolrpc.Rows.{Spay, SpayStatus, user_payed, pay_end, no_spay}
use omnicore_proxy.Toolrpc.Table.{IsLawful, IsUpdatable}
use omnicore_proxy.Toolrpc.World.{Env, World}
use omnicore_proxy.Base.Int.{ℤ}
use omnicore_proxy.Toolrpc.LuckPk.{InvoiceUpdate}
use omnicore_proxy.Toolrpc.Spay.{
  refund, run_user_spay, update_spay_by_invoide, pay_settled_spay, create_spay,
}
use omnicore_proxy.Toolrpc.HeartBeat.{on_message, behind}
use omnicore_proxy.Lndapi.Payment.{send_payment}
use omnicore_proxy.Toolrpc.Spay.Life.Turns.{is_settled, Life-is_settled, settled-Life, Life-trans}
use omnicore_proxy.Toolrpc.Spay.Life.Saves.{
  KeepsStatuses, create_spay-KeepsStatuses, on_message-KeepsStatuses,
}
use omnicore_proxy.Toolrpc.Monitor.{Wake, tick, stop, handle_invoice, monitor_invoice, job}
use omnicore_proxy.Toolrpc.Monitor.Keeps.{monitor_keeps}
use omnicore_proxy.Toolrpc.Spay.Status.{overlay, status_in, MayMove, updates-status}
use omnicore_proxy.Toolrpc.Spay.Moves.{
  run_user_spay-MayMove, refund-MayMove, update_spay_by_invoide-MayMove,
}
use omnicore_proxy.Toolrpc.Spay.Life.{
  Turn, payer_pays, invoice_fails, user_is_paid, payer_is_refunded, Life, begun, turned, Operation,
  monitored, job_ran, ran, gave_back, settled_paid, told, spay_sent, perform, perform_all,
}
use omnicore_proxy.Toolrpc.Spay.Life.Ids.{
  IsDistinct, run_user_spay-IsDistinct, refund-IsDistinct, update_spay_by_invoide-IsDistinct,
  on_invoice-spays, updates-NodupIds,
}

-- The status behind some operations is one that the life of the payment leads to.
abbrev pub Follows : SpayStatus → Option SpayStatus → Type 0
Follows s after = (t : SpayStatus) × (after ≡ some t) × Life s t

some_injective : {s t : SpayStatus} → some s ≡ some t → s ≡ t
some_injective h = ground arith

-- A move between two statuses that a turn joins.
MayMove-Follows :
    {from to : SpayStatus} (s : SpayStatus) (before after : Option SpayStatus)
    → Turn from to
    → before ≡ some s
    → MayMove from to before after
    → Follows s after
MayMove-Follows s before after turn is (inl same) = (s, same ∙ is, begun)
MayMove-Follows {from} {to} s before after turn is (inr (b, a)) =
    let e : from ≡ s = some_injective (sym b ∙ is) in
    (to, a, subst (λ x. Life x to) e (turned begun turn))

module _ (E : Env) (rows : E.spays.State → List Spay)
    (L : IsLawful E.spays rows (λ x. x.id) (λ n x. record x { id = n }))
    (U : IsUpdatable E.spays rows (λ x. x.id) overlay) where
  -- A world in which the status of a row follows on one that it had.
  abbrev IsLive : ℕ → SpayStatus → World E → Type 0
  IsLive j s w = IsDistinct E rows U w × Follows s (status_in j (rows w.spays))

  -- An operation keeps this when it keeps the rows apart and makes at most one move.
  IsLive-move :
      {from to : SpayStatus} (j : ℕ) (s : SpayStatus) (w w' : World E)
      → Turn from to
      → IsDistinct E rows U w'
      → MayMove from to (status_in j (rows w.spays)) (status_in j (rows w'.spays))
      → Follows s (status_in j (rows w.spays))
      → IsLive j s w'
  IsLive-move j s w w' turn d move (t, e, life) =
      let (t', e', more) = MayMove-Follows t _ _ turn e move in (d, (t', e', Life-trans life more))

  handle_invoice-IsLive :
      (j : ℕ) (s : SpayStatus) (invoice : InvoiceUpdate) (w : World E)
      → IsLive j s w
      → IsLive j s (handle_invoice E invoice w).0
  unfolding handle_invoice
  handle_invoice-IsLive j s invoice w (d, f) =
      let w' = (update_spay_by_invoide E invoice w).0 in
      let d' = update_spay_by_invoide-IsDistinct E rows U invoice w d in
      let live : IsLive j s w' = elim (update_spay_by_invoide-MayMove E rows L U invoice w j d) [
        | inl pays ↦ IsLive-move j s w w' payer_pays d' pays f
        | inr fails ↦ IsLive-move j s w w' invoice_fails d' fails f
      ] in
      elim (on_invoice-spays E invoice w) [ inl e ↦ rw e (d, f) | inr e ↦ rw e live ]

  refund-IsLive :
      (j : ℕ) (s : SpayStatus) (spend : Spay → ℕ) (now : ℤ) (key : String) (w : World E)
      → IsLive j s w
      → IsLive j s (refund E spend now key w)
  refund-IsLive j s spend now key w (d, f) =
      IsLive-move j s w (refund E spend now key w) payer_is_refunded
        (refund-IsDistinct E rows U spend now key w d)
        (refund-MayMove E rows L U spend now key w j d) f

  job-IsLive :
      (j : ℕ) (s : SpayStatus) (spend : Spay → ℕ) (wakes : List Wake) (w : World E)
      → IsLive j s w
      → IsLive j s (job E spend wakes w).0
  unfolding job
  job-IsLive j s spend [] w live = live
  job-IsLive j s spend (tick now ∷ wakes) w live =
      job-IsLive j s spend wakes (refund E spend now "" w) (refund-IsLive j s spend now "" w live)
  job-IsLive j s spend (stop ∷ wakes) w live = live

  -- When an operation can come: the goroutine of a settled invoice pays a row whose status is one
  -- that a settled payment comes to, since `updateSpayByInvoide` starts it behind the write of
  -- `UserPayed`; `CreateSpay` comes without an identifier.
  abbrev pub CanCome : Operation → World E → Type 0
  CanCome (settled_paid sp) w =
      (t : SpayStatus) × (status_in sp.id (rows w.spays) ≡ some t) × Life user_payed t
  CanCome (spay_sent user_id sy) w = sy.id ≡ 0
  CanCome _ w = Unit

  abbrev pub AllCanCome : List Operation → World E → Type 0
  AllCanCome [] w = Unit
  AllCanCome (op ∷ ops) w = CanCome op w × AllCanCome ops (perform E op w)

  saved-IsLive :
      (j : ℕ) (s : SpayStatus) (w w' : World E)
      → KeepsStatuses (rows w.spays) (rows w'.spays)
      → IsLive j s w
      → IsLive j s w'
  saved-IsLive j s w w' k (d, (t, e, life)) = (k.distinct d, (t, k.same j t e, life))

  -- The write of a payment to a settled row.
  ended-IsLive :
      (j : ℕ) (s : SpayStatus) (sp : Spay) (w : World E)
      → CanCome (settled_paid sp) w
      → IsLive j s w
      → IsLive j s (record w {
        spays = (E.spays.updates sp (record no_spay { status = pay_end }) w.spays).1;
      })
  ended-IsLive j s sp w (t, at, settled) (d, (v, e, life)) =
      let u : Spay = record no_spay { status = pay_end } in
      (
        updates-NodupIds E rows U sp u w.spays refl d,
        elim (updates-status E rows U sp u w.spays j refl) [
          | inl same ↦ (v, same ∙ e, life)
          | inr (here, known, sets, after) ↦
              let at_j : status_in j (rows w.spays) ≡ some t =
                subst (λ i. status_in i (rows w.spays) ≡ some t) (sym here) at in
              let v_t : t ≡ v = some_injective (sym at_j ∙ e) in
              let past : is_settled v ≡ true =
                subst (λ x. is_settled x ≡ true) v_t (Life-is_settled refl settled) in
              (pay_end, after, Life-trans life (settled-Life v past))
        ],
      )

  pay_settled_spay-IsLive :
      (j : ℕ) (s : SpayStatus) (sp : Spay) (w : World E)
      → CanCome (settled_paid sp) w
      → IsLive j s w
      → IsLive j s (pay_settled_spay E sp w)
  unfolding pay_settled_spay
  pay_settled_spay-IsLive j s sp w c live =
      elim (Result-cases (send_payment E.node sp.user_invoice w.node).0) [
        | inr (e, failed) ↦ rw (failed, pay_settled_spay) live
        | inl (b, paid) ↦
            rw (paid, pay_settled_spay)
              (ended-IsLive j s sp
                (record w { node = (send_payment E.node sp.user_invoice w.node).1 }) c live)
      ]

  perform-IsLive :
      (j : ℕ) (s : SpayStatus) (op : Operation) (w : World E)
      → CanCome op w
      → IsLive j s w
      → IsLive j s (perform E op w)
  unfolding perform monitor_invoice
  perform-IsLive j s (monitored ss) w c live =
      monitor_keeps (handle_invoice E) (IsLive j s) (handle_invoice-IsLive j s) 5 0 ss w live
  perform-IsLive j s (job_ran spend wakes) w c live = job-IsLive j s spend wakes w live
  perform-IsLive j s (ran spend now user_id) w c (d, f) =
      IsLive-move j s w (run_user_spay E spend now user_id w) user_is_paid
        (run_user_spay-IsDistinct E rows U spend now user_id w d)
        (run_user_spay-MayMove E rows L U spend now user_id w j d) f
  perform-IsLive j s (gave_back spend now key) w c live = refund-IsLive j s spend now key w live
  perform-IsLive j s (settled_paid sp) w c live = pay_settled_spay-IsLive j s sp w c live
  perform-IsLive j s (told un msg) w c live =
      saved-IsLive j s w (behind (on_message E un msg w))
        (on_message-KeepsStatuses E rows L un msg w) live
  perform-IsLive j s (spay_sent user_id sy) w c live =
      saved-IsLive j s w (create_spay E user_id sy w).1
        (create_spay-KeepsStatuses E rows L user_id sy w c) live

  perform_all-IsLive :
      (j : ℕ) (s : SpayStatus) (ops : List Operation) (w : World E)
      → AllCanCome ops w
      → IsLive j s w
      → IsLive j s (perform_all E ops w)
  unfolding perform_all
  perform_all-IsLive j s [] w c live = live
  perform_all-IsLive j s (op ∷ ops) w (c, cs) live =
      perform_all-IsLive j s ops (perform E op w) cs (perform-IsLive j s op w c live)

  -- Whatever operations on agency payments run one behind the other, each to its end, on a table
  -- that does what it documents and in which no two rows share an identifier, every row that is
  -- there at first is there at the end, with a status that the life of a payment leads to from the
  -- first one. The operations are the loops of `MonitorInvoice` and `Job`, `runUserSpay`, `refund`,
  -- the goroutine that pays a settled row, a message in `HeartBeat`, and `CreateSpay` without an
  -- identifier. The goroutine comes when the status is one that a settled payment comes to.
  pub perform_all-Follows :
      (ops : List Operation) (w : World E) (j : ℕ) (s : SpayStatus)
      → IsDistinct E rows U w
      → status_in j (rows w.spays) ≡ some s
      → AllCanCome ops w
      → Follows s (status_in j (rows (perform_all E ops w).spays))
  perform_all-Follows ops w j s d is c = (perform_all-IsLive j s ops w c (d, (s, is, begun))).1
