-- ===== src/Toolrpc/HeartBeat.antt =====
-- `HeartBeat` of toolrpc/luckPk.go: the stream that a user holds while online. What its goroutines
-- do later are tasks that the calls return.
pub mod Online
pub mod Receive
use omnicore_proxy.Base.{
  ℕ, String, ◌<>◌, List, [], ◌∷◌, ◌++◌, Bool, true, false, not, ◌&&◌, ◌==◌, ltb, str_eq,
  if◌then◌else◌, Option, none, some, Result, ok, err, and_then,
}
use omnicore_proxy.Base.Int.{ℤ, pos, ◌-ℤ◌, ltb_ℤ, eqb_ℤ}
use omnicore_proxy.Base.Text.{itoa_ℤ}
use omnicore_proxy.Lndapi.Payment.{invoice_amount}
use omnicore_proxy.Toolrpc.Rows.{Spay, UserNode, HeartBeat, no_user_node, is_user_payed}
use omnicore_proxy.Toolrpc.Table.{kept}
use omnicore_proxy.Toolrpc.World.{Env, World}

-- `GetInvoiceBody` and `GetInvoiceResBody`
pub record GetInvoice : Type 0 where
  pub asset_id : ℕ
  pub amt : ℤ
  pub spay_id : ℕ

pub record GetInvoiceRes : Type 0 where
  pub spay_id : ℕ
  pub pay_req : String

-- A message of the client: its action, and the body where it is a `GetInvoiceRes`.
pub data Action : Type 0 where
  empty get_invoice get_invoice_res : Action

pub record HeartBeatMsg : Type 0 where
  pub action : Action
  pub body : Option GetInvoiceRes

-- What reaches the loop: a message, the end of the stream, or the shutdown.
pub data Event : Type 0 where
  recv : HeartBeatMsg → Event
  recv_err : String → Event
  shutdown : Event

-- A goroutine that was started: the payments and then the refund of a user, or the refund alone.
pub data Task : Type 0 where
  pay_and_refund : ℕ → String → Task
  refund_user : String → Task

-- How a message ends: the loop goes on, the handler returns an error, or the process panics.
pub data Handled (W : Type 0) : Type 0 where
  continues : List Task → W → Handled W
  returns : String → W → Handled W
  panics : W → Handled W

-- The state behind a message.
abbrev pub behind : {W : Type 0} → Handled W → W
behind (continues tasks w) = w
behind (returns e w) = w
behind (panics w) = w

unfoldable pub wants_invoice : String → ℤ → Spay → Bool
wants_invoice user_key now spay =
    str_eq spay.payer_addr user_key
    && is_user_payed spay.status
    && ltb_ℤ spay.expire now
    && str_eq spay.payer_invoice ""

unfoldable pub send_requests : (GetInvoice → Result (Unit {0})) → List Spay → Result (Unit {0})
send_requests send [] = ok tt
send_requests send (spay ∷ spays) =
    let rest = send_requests send spays in
    and_then (send (record { asset_id = spay.asset_id; amt = spay.amt; spay_id = spay.id }))
      (λ _. rest)

module _ (E : Env) where
  -- The user of the stream: a query that fails leaves the zero value.
  unfoldable pub user_of : ℕ → World E → UserNode
  user_of user_id w = elim (E.users.first (λ un. un.id == user_id) w.users) [
    | ok un ↦ un
    | err e ↦ no_user_node
  ]

  unfoldable pub set_online : ℕ → String → UserNode → World E → World E
  set_online online address un w = record w {
    users =
        (E.users.updates un (record no_user_node { online = online; ip_address = address })
          w.users).1;
  }

  unfoldable pub save_heart_beat : HeartBeat → World E → HeartBeat × World E
  save_heart_beat hb w =
      let (hb', s) = kept hb (E.heart_beats.save hb w.heart_beats) in
      (hb', record w { heart_beats = s })

  -- The part before the loop, for a user that is known: the user is online, and is asked for the
  -- invoices that the refunds need.
  unfoldable pub greet :
      (GetInvoice → Result (Unit {0}))
      → ℤ
      → String
      → ℕ
      → UserNode
      → World E
      → Result (List Task) × World E
  unfolding set_online wants_invoice send_requests
  greet send now address user_id un w =
      let w' = set_online 1 address un w in
      (
        and_then (E.spays.find (wants_invoice un.user_id_key now) w'.spays) (λ spays.
            and_then (send_requests send spays)
              (λ _. ok (pay_and_refund user_id un.user_id_key ∷ []))),
        w',
      )

  -- The amount that a refund must have: the spay's, or for an old row the user invoice's.
  unfoldable pub owed : Spay → World E → Result Spay
  owed spay w =
      if eqb_ℤ spay.amt (pos 0)
      then and_then (E.node.decode_pay_req spay.user_invoice w.node)
          (λ p. ok (record spay { amt = invoice_amount p; asset_id = p.asset_id }))
      else ok spay

  unfoldable pub check_refund : GetInvoiceRes → World E → Result Spay
  unfolding owed
  check_refund res w = and_then (E.spays.first (λ spay. spay.id == res.spay_id) w.spays) λ spay.
      and_then (E.node.decode_pay_req res.pay_req w.node) λ p. and_then (owed spay w) λ spay'.
        if eqb_ℤ (invoice_amount p) spay'.amt
        then ok (record spay' { payer_invoice = res.pay_req })
        else err
            ("err invoice amt except " <> itoa_ℤ spay'.amt <> " got " <> itoa_ℤ (invoice_amount p))

  -- One message. The body of another action is no `GetInvoiceRes`, and reading it is a nil
  -- dereference.
  unfoldable pub on_message : UserNode → HeartBeatMsg → World E → Handled (World E)
  unfolding check_refund
  on_message un msg w = elim msg.action [
    | get_invoice_res ↦ elim msg.body [
      | none ↦ panics w
      | some res ↦ elim (check_refund res w) [
        | err e ↦ returns e w
        | ok spay ↦
            continues (refund_user un.user_id_key ∷ [])
              (record w { spays = (E.spays.save spay w.spays).1 })
      ]
    ]
    | _ ↦ continues [] w
  ]

  -- The loop over what arrives. The end of the list is a stream that is still open.
  unfoldable pub serve : UserNode → List Event → World E → Option (Handled (World E))
  unfolding on_message
  serve un [] w = none
  serve un (shutdown ∷ events) w = some (continues [] w)
  serve un (recv_err e ∷ events) w = some (returns e w)
  serve un (recv msg ∷ events) w = elim (on_message un msg w) [
    | continues tasks w' ↦ serve un events w'
    | returns e w' ↦ some (returns e w')
    | panics w' ↦ some (panics w')
  ]

  -- The deferred function.
  unfoldable pub on_close : ℤ → HeartBeat → UserNode → World E → World E
  unfolding set_online save_heart_beat
  on_close now hb un w =
      let w' =
        (save_heart_beat (record hb { off_line_time = now; online_secs = now -ℤ hb.created_at })
          w).1 in
      if ltb 0 un.id then set_online 2 "" un w' else w'

  -- The heart beat that a new stream stores.
  unfoldable pub open_heart_beat : ℤ → String → ℕ → World E → HeartBeat × World E
  unfolding save_heart_beat
  open_heart_beat now address user_id w =
      save_heart_beat
        (record {
          id = 0;
          created_at = now;
          off_line_time = pos 0;
          online_secs = pos 0;
          user_id = user_id;
          ip_address = address;
        })
        w

  -- The part before the loop: the heart beat is stored, and a known user is greeted.
  unfoldable pub on_connect :
      (GetInvoice → Result (Unit {0}))
      → ℤ
      → String
      → ℕ
      → World E
      → Result (HeartBeat × UserNode × List Task) × World E
  unfolding greet open_heart_beat user_of
  on_connect send now address user_id w =
      let (hb, w') = open_heart_beat now address user_id w in
      let un = user_of user_id w' in
      let (r, w2) = greet send now address user_id un w' in
      if ltb 0 un.id then (and_then r (λ tasks. ok (hb, un, tasks)), w2) else (ok (hb, un, []), w')

  -- A whole stream, with whether the server is shutting down when it comes. An error of the first
  -- part returns before the function is deferred.
  unfoldable pub heart_beat :
      Bool → (GetInvoice → Result (Unit {0})) → ℤ → ℤ → String → ℕ → List Event → World E → World E
  unfolding on_connect serve on_close
  heart_beat true send now later address user_id events w = w
  heart_beat false send now later address user_id events w =
      let (r, w') = on_connect send now address user_id w in
      elim r [
        | err e ↦ w'
        | ok (hb, un, tasks) ↦ elim (serve un events w') [
          | none ↦ w'
          | some (continues _ w2) ↦ on_close later hb un w2
          | some (returns _ w2) ↦ on_close later hb un w2
          | some (panics w2) ↦ on_close later hb un w2
        ]
      ]
