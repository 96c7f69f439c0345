-- ===== src/Toolrpc/Channels/Pairs.antt =====
-- What the row of a channel pair says behind the stream of `OB_OpenChannel`.
use omnicore_proxy.Base.{
  ◌≡◌, ◌≢◌, refl, sym, ◌∙◌, ◌⊎◌, inl, inr, List, [], ◌∷◌, arith, Result-cases, String, ◌<>◌,
}
use omnicore_proxy.Toolrpc.Rows.{ChannelPair}
use omnicore_proxy.Toolrpc.Table.{IsLawful}
use omnicore_proxy.Toolrpc.World.{Env, World}
use omnicore_proxy.Toolrpc.Channels.{
  Hashes, OpenRequest, Received, eof, recv_err, received, chan_pending, chan_open, other_update,
  save_pair, opened, open_loop, get_pending_chain_point, get_chain_point,
}

-- A pair is still waiting, or both channels are there with the amounts that were asked for.
abbrev IsPaired : OpenRequest → ChannelPair → Type 0
IsPaired req cp =
    (cp.status ≡ 0)
    ⊎ ((cp.status ≡ 1)
        × (cp.local_btc_cap ≡ req.local_funding_btc_amount)
        × (cp.local_asset_cap ≡ req.local_funding_asset_amount))

module _ (H : Hashes) (E : Env) (rows : E.channel_pairs.State → List ChannelPair)
    (L : IsLawful E.channel_pairs rows (λ x. x.id) (λ n r. record r { id = n })) where
  save_pair-same : (cp : ChannelPair) (w : World E) → cp.id ≢ 0 → (save_pair H E cp w).0 ≡ cp
  unfolding save_pair
  save_pair-same cp w nz = elim (Result-cases (E.channel_pairs.save cp w.channel_pairs).0) [
    | inr (e, h) ↦ ground arith
    | inl (r', h) ↦ let (_, old, _) = L.save-rows cp r' w.channel_pairs h in ground (arith, old nz)
  ]

  opened-IsPaired :
      (req : OpenRequest) (point : String) (cp : ChannelPair)
      → IsPaired req (opened H E req point cp) × ((opened H E req point cp).id ≡ cp.id)
  unfolding opened
  opened-IsPaired req point cp = (inr (refl, refl, refl), refl)

  save_opened-IsPaired :
      (req : OpenRequest) (point : String) (cp : ChannelPair) (w : World E)
      → cp.id ≢ 0
      → let cp' = (save_pair H E (opened H E req point cp) w).0 in IsPaired req cp' × (cp'.id ≢ 0)
  save_opened-IsPaired req point cp w nz =
      let o = opened-IsPaired req point cp in
      let same = save_pair-same (opened H E req point cp) w (λ z. nz (sym o.1 ∙ z)) in
      rw same (o.0, (λ z. nz (sym o.1 ∙ z)))

  -- However the stream goes, a stored pair is at its end either waiting, as it was at first, or
  -- marked as ready with the amounts of the request.
  open_loop-IsPaired :
      (req : OpenRequest) (rs : List Received) (cp : ChannelPair) (w : World E)
      → cp.id ≢ 0
      → IsPaired req cp
      → IsPaired req (open_loop H E req rs cp w).0
  unfolding open_loop
  open_loop-IsPaired req [] cp w nz p = p
  open_loop-IsPaired req (eof ∷ rs) cp w nz p =
      let cp' = record cp { last_err_msg = "openchannel err with EOF" } in
      rw (save_pair-same cp' w nz) p
  open_loop-IsPaired req (recv_err e ∷ rs) cp w nz p =
      rw (save_pair-same (record cp { last_err_msg = "openchannel err %v" <> e }) w nz) p
  open_loop-IsPaired req (received other_update ∷ rs) cp w nz p =
      open_loop-IsPaired req rs cp w nz p
  open_loop-IsPaired req (received (chan_pending txid index) ∷ rs) cp w nz p =
      elim (Result-cases (get_pending_chain_point H txid index)) [
        | inr (e, h) ↦ rw (h, open_loop) p
        | inl (point, h) ↦ rw (h, open_loop) (save_opened-IsPaired req point cp w nz).0
      ]
  open_loop-IsPaired req (received (chan_open txid index) ∷ rs) cp w nz p =
      elim (Result-cases (get_chain_point H txid index)) [
        | inr (e, h) ↦ rw (h, open_loop) p
        | inl (point, h) ↦
            let (paired, id) = save_opened-IsPaired req point cp w nz in
            let (cp', w') = save_pair H E (opened H E req point cp) w in
            rw (h, open_loop) (open_loop-IsPaired req rs cp' w' id paired)
      ]
