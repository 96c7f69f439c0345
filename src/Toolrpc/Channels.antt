-- ===== src/Toolrpc/Channels.antt =====
-- `MonitorChannel` of toolrpc/luckPk.go: the channel that the server opens back. The node's calls
-- and the hashes of chainhash are parameters.
pub mod Amounts
pub mod Pairs
pub mod Matched
use omnicore_proxy.Base.{
  ℕ, zero, suc, String, ◌<>◌, List, [], ◌∷◌, Bool, true, false, ◌==◌, if◌then◌else◌, Result, ok,
  err, and_then,
}
use omnicore_proxy.Base.Int.{ℤ, pos, ◌+ℤ◌, ◌-ℤ◌, ◌*ℤ◌, ltb_ℤ, quot_ℤ, wrap}
use omnicore_proxy.Base.Hex.{hex_decode}
use omnicore_proxy.Base.Text.{itoa}
use omnicore_proxy.Toolrpc.Rows.{ChannelPair}
use omnicore_proxy.Toolrpc.Table.{kept}
use omnicore_proxy.Toolrpc.World.{Env, World}

-- `chainhash`: a hash from its bytes or from its text, and the text of a hash.
pub record Hashes : Type 0 where
  pub new_hash : List ℕ → Result (List ℕ)
  pub new_hash_from_str : String → Result (List ℕ)
  pub text : List ℕ → String

-- The funding transaction of a channel point.
pub data FundingTxid : Type 0 where
  txid_bytes : List ℕ → FundingTxid
  txid_str : String → FundingTxid
  no_txid : FundingTxid

-- An update of the stream of `OB_OpenChannel`.
pub data OpenUpdate : Type 0 where
  chan_pending : List ℕ → ℕ → OpenUpdate
  chan_open : FundingTxid → ℕ → OpenUpdate
  other_update : OpenUpdate

-- What `stream.Recv()` gives.
pub data Received : Type 0 where
  eof : Received
  recv_err : String → Received
  received : OpenUpdate → Received

-- `lnrpc.PendingUpdate`, as far as it is read.
pub record PendingChannel : Type 0 where
  pub initiator : Bool
  pub asset_id : ℕ
  pub btc_capacity : ℤ
  pub asset_capacity : ℤ
  pub remote_pub_key : String
  pub channel_point : String

-- The fields of `lnrpc.OpenChannelRequest` that are set.
pub record OpenRequest : Type 0 where
  pub min_confs : ℕ
  pub node_pubkey : List ℕ
  pub asset_id : ℕ
  pub local_funding_btc_amount : ℤ
  pub local_funding_asset_amount : ℤ

-- The amount above a threshold is cut to a fifth. The arithmetic is on int64.
unfoldable pub cut : ℕ → ℤ → ℤ
cut threshold a =
    if ltb_ℤ (pos threshold) a
    then wrap (pos threshold +ℤ quot_ℤ (wrap (wrap (a -ℤ pos threshold) *ℤ 20)) 100)
    else a

unfoldable pub matched_asset : PendingChannel → ℤ
unfolding cut
matched_asset c = if c.asset_id == 0 then c.asset_capacity else cut 3000000000 c.asset_capacity

unfoldable pub matched_btc : PendingChannel → ℤ
unfolding cut
matched_btc c = if c.asset_id == 0 then cut 100000 c.btc_capacity else c.btc_capacity

unfoldable pub open_request : PendingChannel → OpenRequest
unfolding matched_asset matched_btc
open_request c = record {
  min_confs = 1;
  node_pubkey = (hex_decode c.remote_pub_key).0;
  asset_id = c.asset_id;
  local_funding_btc_amount = matched_btc c;
  local_funding_asset_amount = matched_asset c;
}

-- The row of a new channel.
unfoldable pub new_pair : PendingChannel → ChannelPair
new_pair c = record {
  id = 0;
  status = 0;
  remote_pub_key = c.remote_pub_key;
  chan_id = c.channel_point;
  asset_id = c.asset_id;
  btc_cap = c.btc_capacity;
  asset_cap = c.asset_capacity;
  local_chan_id = "";
  local_btc_cap = pos 0;
  local_asset_cap = pos 0;
  last_err_msg = "";
}

module _ (H : Hashes) where
  unfoldable pub get_pending_chain_point : List ℕ → ℕ → Result String
  get_pending_chain_point txid index =
      and_then (H.new_hash txid) λ h. ok (H.text h <> ":" <> itoa index)

  unfoldable pub funding_hash : FundingTxid → Result (List ℕ)
  funding_hash (txid_bytes b) = ok b
  funding_hash (txid_str s) = H.new_hash_from_str s
  funding_hash no_txid = ok []

  unfoldable pub get_chain_point : FundingTxid → ℕ → Result String
  unfolding funding_hash
  get_chain_point txid index =
      and_then (funding_hash txid)
        λ b. and_then (H.new_hash b) λ h. ok (H.text h <> ":" <> itoa index)

  module _ (E : Env) where
    -- `db.Save(cp)`, its error dropped.
    unfoldable pub save_pair : ChannelPair → World E → ChannelPair × World E
    save_pair cp w =
        let (cp', s) = kept cp (E.channel_pairs.save cp w.channel_pairs) in
        (cp', record w { channel_pairs = s })

    -- The row of a channel that the node has opened.
    unfoldable pub opened : OpenRequest → String → ChannelPair → ChannelPair
    opened req chain_point cp = record cp {
      status = 1;
      local_chan_id = chain_point;
      local_btc_cap = req.local_funding_btc_amount;
      local_asset_cap = req.local_funding_asset_amount;
    }

    -- The loop over the stream. The end of the list is a stream that gives nothing more.
    unfoldable pub open_loop :
        OpenRequest → List Received → ChannelPair → World E → ChannelPair × World E
    unfolding save_pair opened
    open_loop req [] cp w = (cp, w)
    open_loop req (eof ∷ rs) cp w =
        save_pair (record cp { last_err_msg = "openchannel err with EOF" }) w
    open_loop req (recv_err e ∷ rs) cp w =
        save_pair (record cp { last_err_msg = "openchannel err %v" <> e }) w
    open_loop req (received (chan_pending txid index) ∷ rs) cp w =
        elim (get_pending_chain_point txid index) [
          | err e ↦ (cp, w)
          | ok point ↦ save_pair (opened req point cp) w
        ]
    open_loop req (received (chan_open txid index) ∷ rs) cp w = elim (get_chain_point txid index) [
      | err e ↦ (cp, w)
      | ok point ↦ let (cp', w') = save_pair (opened req point cp) w in open_loop req rs cp' w'
    ]
    open_loop req (received other_update ∷ rs) cp w = open_loop req rs cp w

    -- A pending channel: one that the other side opened is answered with a channel of ours.
    -- `open_channel` is `OB_OpenChannel` with all that its stream gives.
    unfoldable pub on_pending_channel :
        (OpenRequest → Result (List Received)) → PendingChannel → World E → World E
    unfolding open_loop open_request new_pair
    on_pending_channel open_channel c w =
        if c.initiator
        then w
        else let (cp, s) =
            kept (new_pair c) (E.channel_pairs.create (new_pair c) w.channel_pairs) in
          let w' = record w { channel_pairs = s } in
          elim (open_channel (open_request c)) [
            | err e ↦ (save_pair (record cp { last_err_msg = "openchannel err %v" <> e }) w').1
            | ok rs ↦ (open_loop (open_request c) rs cp w').1
          ]
