-- ===== src/Toolrpc/Channels/Matched.antt =====
-- The table of channel pairs behind the whole loop of `MonitorChannel` in toolrpc/luckPk.go.
use omnicore_proxy.Base.{
  find_first, none, ℕ, ◌≡◌, refl, sym, subst, ◌⊎◌, inl, inr, List, [], ◌∷◌, arith, Result, ok, err,
  Result-cases, String, ◌<>◌, All, ◌==◌, Bool-cases,
}
use omnicore_proxy.Toolrpc.Rows.{ChannelPair}
use omnicore_proxy.Toolrpc.Table.{Table, IsLawful, put, kept}
use omnicore_proxy.Toolrpc.World.{Env, World}
use omnicore_proxy.Toolrpc.Channels.{
  Hashes, OpenRequest, PendingChannel, Received, eof, recv_err, received, chan_pending, chan_open,
  other_update, save_pair, opened, open_loop, get_pending_chain_point, get_chain_point,
  open_request, matched_btc, matched_asset, new_pair, on_pending_channel,
}
use omnicore_proxy.Toolrpc.Monitor.Keeps.{AllEvents, monitor_keeps_each}
use omnicore_proxy.Toolrpc.Monitor.{
  ChannelEvent, pending_open, other_event, Session, handle_channel, monitor_channel,
}

-- The pair of a channel: its fields are the channel's, and it is still waiting, or it is marked
-- ready with the amounts that the channel is to be matched with.
abbrev pub IsPairOf : PendingChannel → ChannelPair → Type 0
IsPairOf c cp =
    (cp.remote_pub_key ≡ c.remote_pub_key)
    × (cp.chan_id ≡ c.channel_point)
    × (cp.asset_id ≡ c.asset_id)
    × (cp.btc_cap ≡ c.btc_capacity)
    × (cp.asset_cap ≡ c.asset_capacity)
    × ((cp.status ≡ 0)
        ⊎ ((cp.status ≡ 1)
            × (cp.local_btc_cap ≡ matched_btc c)
            × (cp.local_asset_cap ≡ matched_asset c)))

-- It is the pair of one of the channels that came.
abbrev pub IsMatched : (PendingChannel → Type 0) → ChannelPair → Type 0
IsMatched Came cp = (c : PendingChannel) × Came c × IsPairOf c cp

-- The channel that an event reports, if any, is one of them.
abbrev pub Reports : (PendingChannel → Type 0) → ChannelEvent → Type 0
Reports Came (pending_open c open_channel) = Came c
Reports Came other_event = Unit

-- What `Create` of a new row documents.
pub record Creates {Row : Type 0} (T : Table Row) (rows : T.State → List Row) (id : Row → ℕ)
    (with_id : ℕ → Row → Row) : Type 0 where
  pub create-rows :
      (r r' : Row) (s : T.State)
      → (T.create r s).0 ≡ ok r'
      → id r ≡ 0
      → (rows (T.create r s).1 ≡ put id r' (rows s)) × (r' ≡ with_id (id r') r)
  pub create-fresh :
      (r r' : Row) (s : T.State)
      → (T.create r s).0 ≡ ok r'
      → id r ≡ 0
      → find_first (λ x. id x == id r') (rows s) ≡ none
  pub create-rows_failed :
      (r : Row) (e : String) (s : T.State)
      → (T.create r s).0 ≡ err e
      → rows (T.create r s).1 ≡ rows s

put-All :
    {Row : Type 0} (P : Row → Type 0) (id : Row → ℕ) (r : Row) (xs : List Row)
    → P r
    → All P xs
    → All P (put id r xs)
put-All P id r [] p h = (p, tt)
put-All P id r (x ∷ xs) p (h, hs) = elim (Bool-cases (id x == id r)) [
  | inl same ↦ rw same (p, hs)
  | inr other ↦ rw other (h, put-All P id r xs p hs)
]

module _ (H : Hashes) (E : Env) (rows : E.channel_pairs.State → List ChannelPair)
    (L : IsLawful E.channel_pairs rows (λ x. x.id) (λ n r. record r { id = n }))
    (C : Creates E.channel_pairs rows (λ x. x.id) (λ n r. record r { id = n }))
    (Came : PendingChannel → Type 0) where
  abbrev pub AllMatched : World E → Type 0
  AllMatched w = All (IsMatched Came) (rows w.channel_pairs)

  with_id-IsPairOf :
      (c : PendingChannel) (n : ℕ) (cp cp' : ChannelPair)
      → cp' ≡ record cp { id = n }
      → IsPairOf c cp
      → IsPairOf c cp'
  with_id-IsPairOf c n cp cp' e p = rw e p

  save_pair-AllMatched :
      (c : PendingChannel) (cp : ChannelPair) (w : World E)
      → Came c
      → IsPairOf c cp
      → AllMatched w
      → IsPairOf c (save_pair H E cp w).0 × AllMatched (save_pair H E cp w).1
  unfolding save_pair
  save_pair-AllMatched c cp w came p all =
      elim (Result-cases (E.channel_pairs.save cp w.channel_pairs).0) [
        | inr (e, bad) ↦ rw (bad, L.save-rows_failed cp e w.channel_pairs bad) (p, all)
        | inl (cp', good) ↦
            let (written, old, new) = L.save-rows cp cp' w.channel_pairs good in
            let p' : IsPairOf c cp' = elim (Bool-cases (cp.id == 0)) [
              | inl z ↦ with_id-IsPairOf c cp'.id cp cp' (new (ground arith)).1 p
              | inr z ↦ subst (IsPairOf c) (sym (old (λ e. ground arith))) p
            ] in
            rw (good, written)
              (
                p',
                put-All (IsMatched Came) (λ x. x.id) cp' (rows w.channel_pairs) (c, came, p') all,
              )
      ]

  opened-IsPairOf :
      (c : PendingChannel) (point : String) (cp : ChannelPair)
      → IsPairOf c cp
      → IsPairOf c (opened H E (open_request c) point cp)
  unfolding opened open_request
  opened-IsPairOf c point cp (k, i, a, b, d, s) = (k, i, a, b, d, inr (refl, refl, refl))

  open_loop-AllMatched :
      (c : PendingChannel) (rs : List Received) (cp : ChannelPair) (w : World E)
      → Came c
      → IsPairOf c cp
      → AllMatched w
      → AllMatched (open_loop H E (open_request c) rs cp w).1
  unfolding open_loop
  open_loop-AllMatched c [] cp w came p all = all
  open_loop-AllMatched c (eof ∷ rs) cp w came p all = (save_pair-AllMatched c _ w came p all).1
  open_loop-AllMatched c (recv_err e ∷ rs) cp w came p all =
      (save_pair-AllMatched c _ w came p all).1
  open_loop-AllMatched c (received other_update ∷ rs) cp w came p all =
      open_loop-AllMatched c rs cp w came p all
  open_loop-AllMatched c (received (chan_pending txid index) ∷ rs) cp w came p all =
      elim (Result-cases (get_pending_chain_point H txid index)) [
        | inr (e, h) ↦ rw (h, open_loop) all
        | inl (point, h) ↦
            rw (h, open_loop) (save_pair-AllMatched c _ w came (opened-IsPairOf c point cp p) all).1
      ]
  open_loop-AllMatched c (received (chan_open txid index) ∷ rs) cp w came p all =
      elim (Result-cases (get_chain_point H txid index)) [
        | inr (e, h) ↦ rw (h, open_loop) all
        | inl (point, h) ↦
            let (p', all') = save_pair-AllMatched c _ w came (opened-IsPairOf c point cp p) all in
            let (cp', w') = save_pair H E (opened H E (open_request c) point cp) w in
            rw (h, open_loop) (open_loop-AllMatched c rs cp' w' came p' all')
      ]

  new_pair-IsPairOf : (c : PendingChannel) → IsPairOf c (new_pair c)
  unfolding new_pair
  new_pair-IsPairOf c = (refl, refl, refl, refl, refl, inl refl)

  new_pair-id : (c : PendingChannel) → (new_pair c).id ≡ 0
  unfolding new_pair
  new_pair-id c = refl

  -- The row that `Create` leaves in memory, and the table behind it.
  create-AllMatched :
      (c : PendingChannel) (w : World E)
      → Came c
      → AllMatched w
      → let (cp, s) = kept (new_pair c) (E.channel_pairs.create (new_pair c) w.channel_pairs) in
        IsPairOf c cp × AllMatched (record w { channel_pairs = s })
  create-AllMatched c w came all =
      let p = new_pair-IsPairOf c in
      elim (Result-cases (E.channel_pairs.create (new_pair c) w.channel_pairs).0) [
        | inr (e, bad) ↦ rw (bad, C.create-rows_failed (new_pair c) e w.channel_pairs bad) (p, all)
        | inl (cp', good) ↦
            let (written, is) =
              C.create-rows (new_pair c) cp' w.channel_pairs good (new_pair-id c) in
            let p' = with_id-IsPairOf c cp'.id (new_pair c) cp' is p in
            rw (good, written)
              (
                p',
                put-All (IsMatched Came) (λ x. x.id) cp' (rows w.channel_pairs) (c, came, p') all,
              )
      ]

  on_pending_channel-AllMatched :
      (open_channel : OpenRequest → Result (List Received)) (c : PendingChannel) (w : World E)
      → Came c
      → AllMatched w
      → AllMatched (on_pending_channel H E open_channel c w)
  unfolding on_pending_channel
  on_pending_channel-AllMatched open_channel c w came all =
      let (cp, s) = kept (new_pair c) (E.channel_pairs.create (new_pair c) w.channel_pairs) in
      let w' : World E = record w { channel_pairs = s } in
      let (p, all') = create-AllMatched c w came all in
      elim (Bool-cases c.initiator) [
        | inl ours ↦ rw ours all
        | inr theirs ↦ elim (Result-cases (open_channel (open_request c))) [
          | inr (e, bad) ↦
              rw (theirs, bad)
                (save_pair-AllMatched c (record cp { last_err_msg = "openchannel err %v" <> e }) w'
                  came p all').1
          | inl (rs, good) ↦ rw (theirs, good) (open_loop-AllMatched c rs cp w' came p all')
        ]
      ]

  handle_channel-AllMatched :
      (event : ChannelEvent) (w : World E)
      → Reports Came event
      → AllMatched w
      → AllMatched (handle_channel E H event w).0
  unfolding handle_channel
  handle_channel-AllMatched (pending_open c open_channel) w came all =
      on_pending_channel-AllMatched open_channel c w came all
  handle_channel-AllMatched other_event w came all = all

  -- On a table that does what it documents, the whole loop of `MonitorChannel`, whatever channels of
  -- some kind, answers and broken subscriptions come, keeps every row of the table the row of a
  -- channel of that kind: it carries that channel's node, point, asset and amounts, and it is
  -- waiting, or it is marked ready with exactly the amounts that the channel is to be matched with.
  pub monitor_channel-AllMatched :
      (ss : List (Session ChannelEvent)) (w : World E)
      → AllEvents (Reports Came) ss
      → AllMatched w
      → AllMatched (monitor_channel E H ss w).world
  unfolding monitor_channel
  monitor_channel-AllMatched =
      monitor_keeps_each (handle_channel E H) (Reports Came) AllMatched handle_channel-AllMatched 0
        5
