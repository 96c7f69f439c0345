-- ===== src/Toolrpc/Monitor/Replay.antt =====
-- What `MonitorInvoice` of toolrpc/luckPk.go does with invoices that a later subscription delivers
-- again: each subscription asks for all settled invoices from the first on (`SettleIndex: 1`).
use omnicore_proxy.Base.{
  ℕ, ◌+◌, ◌≡◌, ◌≢◌, ◌⊎◌, inl, inr, refl, List, [], ◌∷◌, ◌++◌, none, some, arith, All,
}
use mathlib.Core.List.{append_assoc}
use omnicore_proxy.Base.Hex.{hex_encode}
use omnicore_proxy.Toolrpc.Rows.{Spay, LuckPk}
use omnicore_proxy.Toolrpc.World.{Env, World}
use omnicore_proxy.Toolrpc.LuckPk.{
  InvoiceUpdate, InvoiceState, settled, open_, canceled, accepted, update_luck_pk_by_invoide,
}
use omnicore_proxy.Toolrpc.Spay.{update_spay_by_invoide, on_invoice}
use omnicore_proxy.Toolrpc.Spay.Status.{overlay}
use omnicore_proxy.Toolrpc.Spay.Monitor.{on_invoice_unsettled}
use omnicore_proxy.Toolrpc.Monitor.{
  handle_invoice, monitor_invoice, monitor, handle_all, Session, stream, Ending, broken, shut_down,
  blocked,
}
use omnicore_proxy.Toolrpc.Monitor.Past.{IsDependable}
use omnicore_proxy.Toolrpc.Monitor.Spays.{
  SpayPast, update_spay_by_invoide-keeps, update_spay_by_invoide-leaves,
  update_spay_by_invoide-past, update_spay_by_invoide-luck_pks,
}
use omnicore_proxy.Toolrpc.Monitor.Packets.{
  overlay_luck_pk, LuckPkPast, update_luck_pk_by_invoide-keeps, update_luck_pk_by_invoide-leaves,
  update_luck_pk_by_invoide-past, update_luck_pk_by_invoide-spays,
}

settled-cases : (s : InvoiceState) → (s ≡ settled) ⊎ (s ≢ settled)
settled-cases settled = inl refl
settled-cases open_ = inr (λ e. ground arith)
settled-cases canceled = inr (λ e. ground arith)
settled-cases accepted = inr (λ e. ground arith)

-- Two lists of events, one behind the other.
handle_all-append :
    {A W T : Type 0}
    → (handle : A → W → W × List T) (xs ys : List A) (w : W)
    → let (w', tasks) = handle_all handle xs w in
      let (w2, more) = handle_all handle ys w' in
      handle_all handle (xs ++ ys) w ≡ (w2, tasks ++ more)
unfolding handle_all
handle_all-append handle [] ys w = refl
handle_all-append handle (x ∷ xs) ys w =
    let (w', tasks) = handle x w in
    rw (handle_all-append handle xs ys w') (
      rw
        (append_assoc tasks (handle_all handle xs w').1
          (handle_all handle ys (handle_all handle xs w').0).1)
        refl)

no_pause : (n : ℕ) → 0 + n ≡ n
no_pause n = omega arith

module _ (E : Env) (rows : E.spays.State → List Spay) (packets : E.luck_pks.State → List LuckPk)
    (S : IsDependable E.spays rows (λ x. x.id) overlay)
    (L : IsDependable E.luck_pks packets (λ x. x.id) overlay_luck_pk) where
  -- Both rows behind an invoice have left their initial states, unless it is not settled.
  abbrev IsHandled : World E → InvoiceUpdate → Type 0
  IsHandled w invoice =
      invoice.state ≡ settled
      → SpayPast E rows S (hex_encode invoice.r_hash) w
        × LuckPkPast E packets L (hex_encode invoice.r_hash) w

  handle_invoice-settled :
      (invoice : InvoiceUpdate) (w : World E)
      → invoice.state ≡ settled
      → let (w', task) = update_spay_by_invoide E invoice w in
        handle_invoice E invoice w
        ≡ (update_luck_pk_by_invoide E invoice w', elim task [ none ↦ [] | some sp ↦ sp ∷ [] ])
  unfolding handle_invoice on_invoice
  handle_invoice-settled invoice w e = rw e refl

  handle_invoice-unsettled :
      (invoice : InvoiceUpdate) (w : World E)
      → invoice.state ≢ settled
      → handle_invoice E invoice w ≡ (w, [])
  unfolding handle_invoice
  handle_invoice-unsettled invoice w n = rw (on_invoice_unsettled E invoice w n) refl

  handle_invoice-handled :
      (invoice : InvoiceUpdate) (w : World E)
      → IsHandled w invoice
      → handle_invoice E invoice w ≡ (w, [])
  handle_invoice-handled invoice w handled = elim (settled-cases invoice.state) [
    | inr other ↦ handle_invoice-unsettled invoice w other
    | inl e ↦
        let (spay, packet) = handled e in
        rw
          (
            handle_invoice-settled invoice w e,
            update_spay_by_invoide-past E rows S invoice w spay,
            update_luck_pk_by_invoide-past E packets L invoice w packet,
          )
          refl
  ]

  handle_invoice-leaves :
      (invoice : InvoiceUpdate) (w : World E) → IsHandled (handle_invoice E invoice w).0 invoice
  handle_invoice-leaves invoice w e =
      let w' = (update_spay_by_invoide E invoice w).0 in
      rw (handle_invoice-settled invoice w e) (
        rw (update_luck_pk_by_invoide-spays E packets L invoice w')
            (update_spay_by_invoide-leaves E rows S invoice w e),
        update_luck_pk_by_invoide-leaves E packets L invoice w' e,
      )

  handle_invoice-keeps :
      (invoice other : InvoiceUpdate) (w : World E)
      → IsHandled w other
      → IsHandled (handle_invoice E invoice w).0 other
  handle_invoice-keeps invoice other w handled e =
      let w' = (update_spay_by_invoide E invoice w).0 in
      let h = hex_encode other.r_hash in
      elim (settled-cases invoice.state) [
        | inr n ↦ rw (handle_invoice-unsettled invoice w n) (handled e)
        | inl s ↦ rw (handle_invoice-settled invoice w s) (
          rw (update_luck_pk_by_invoide-spays E packets L invoice w')
              (update_spay_by_invoide-keeps E rows S h invoice w (handled e).0),
          update_luck_pk_by_invoide-keeps E packets L h invoice w'
              (rw (update_spay_by_invoide-luck_pks E rows S invoice w) (handled e).1),
        )
      ]

  handle_all-handled :
      (xs : List InvoiceUpdate) (w : World E)
      → All (IsHandled w) xs
      → handle_all (handle_invoice E) xs w ≡ (w, [])
  unfolding handle_all
  handle_all-handled [] w h = refl
  handle_all-handled (x ∷ xs) w (h, hs) =
      rw (handle_invoice-handled x w h, handle_all-handled xs w hs) refl

  handle_all-keeps :
      (xs : List InvoiceUpdate) (other : InvoiceUpdate) (w : World E)
      → IsHandled w other
      → IsHandled (handle_all (handle_invoice E) xs w).0 other
  unfolding handle_all
  handle_all-keeps [] other w h = h
  handle_all-keeps (x ∷ xs) other w h =
      handle_all-keeps xs other (handle_invoice E x w).0 (handle_invoice-keeps x other w h)

  handle_all-leaves :
      (xs : List InvoiceUpdate) (w : World E)
      → All (IsHandled (handle_all (handle_invoice E) xs w).0) xs
  unfolding handle_all
  handle_all-leaves [] w = tt
  handle_all-leaves (x ∷ xs) w =
      let w' = (handle_invoice E x w).0 in
      (handle_all-keeps xs x w' (handle_invoice-leaves x w), handle_all-leaves xs w')

  -- What was delivered before changes nothing when it comes again.
  handle_all-again :
      (xs ys : List InvoiceUpdate) (w : World E)
      → let (w', tasks) = handle_all (handle_invoice E) xs w in
        let (w2, more) = handle_all (handle_invoice E) (xs ++ ys) w' in
        handle_all (handle_invoice E) (xs ++ ys) w ≡ (w2, tasks ++ more)
  handle_all-again xs ys w =
      let (w', tasks) = handle_all (handle_invoice E) xs w in
      rw
        (
          handle_all-append (handle_invoice E) xs ys w,
          handle_all-append (handle_invoice E) xs ys w',
          handle_all-handled xs w' (handle_all-leaves xs w),
        )
        refl

  -- On tables whose queries find the rows that there are and whose updates do not fail: a
  -- subscription that breaks behind some settled or other invoices, and the next one, which
  -- delivers them again and goes on, leave what one unbroken subscription leaves: the same world,
  -- the same payments started, and the same time slept.
  pub monitor_invoice_replay :
      (xs ys : List InvoiceUpdate) (ending : Ending) (ss : List (Session InvoiceUpdate))
      (w : World E)
      → monitor_invoice E (stream xs broken ∷ stream (xs ++ ys) ending ∷ ss) w
        ≡ monitor_invoice E (stream (xs ++ ys) ending ∷ ss) w
  unfolding monitor_invoice monitor
  monitor_invoice_replay xs ys broken ss w =
      let (w', tasks) = handle_all (handle_invoice E) xs w in
      let (w2, more) = handle_all (handle_invoice E) (xs ++ ys) w' in
      let rest = monitor_invoice E ss w2 in
      rw (handle_all-again xs ys w, append_assoc tasks more rest.tasks, no_pause (0 + rest.slept))
        refl
  monitor_invoice_replay xs ys shut_down ss w = rw (handle_all-again xs ys w) refl
  monitor_invoice_replay xs ys blocked ss w = rw (handle_all-again xs ys w) refl
