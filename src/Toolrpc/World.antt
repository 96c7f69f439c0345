-- ===== src/Toolrpc/World.antt =====
-- What the handlers of toolrpc/luckPk.go reach: the node and the tables of the database.
use omnicore_proxy.Base.{Action}
use omnicore_proxy.Lndapi.Node.{Node}
use omnicore_proxy.Toolrpc.Table.{Table}
use omnicore_proxy.Toolrpc.Rows.{Spay, LuckPk, LuckItem, UserNode, HeartBeat, ChannelPair}

pub record Env : Type 1 where
  pub node : Node
  pub spays : Table Spay
  pub luck_pks : Table LuckPk
  pub luck_items : Table LuckItem
  pub users : Table UserNode
  pub heart_beats : Table HeartBeat
  pub channel_pairs : Table ChannelPair

pub record World (E : Env) : Type 0 where
  pub node : E.node.State
  pub spays : E.spays.State
  pub luck_pks : E.luck_pks.State
  pub luck_items : E.luck_items.State
  pub users : E.users.State
  pub heart_beats : E.heart_beats.State
  pub channel_pairs : E.channel_pairs.State

-- A call on one part of the world.
module _ {E : Env} where
  abbrev pub on_node : {A : Type 0} → Action E.node.State A → Action (World E) A
  on_node m w = let (r, s) = m w.node in (r, record w { node = s })

  abbrev pub on_spays : {A : Type 0} → Action E.spays.State A → Action (World E) A
  on_spays m w = let (r, s) = m w.spays in (r, record w { spays = s })

  abbrev pub on_luck_pks : {A : Type 0} → Action E.luck_pks.State A → Action (World E) A
  on_luck_pks m w = let (r, s) = m w.luck_pks in (r, record w { luck_pks = s })

  abbrev pub on_luck_items : {A : Type 0} → Action E.luck_items.State A → Action (World E) A
  on_luck_items m w = let (r, s) = m w.luck_items in (r, record w { luck_items = s })

  abbrev pub on_users : {A : Type 0} → Action E.users.State A → Action (World E) A
  on_users m w = let (r, s) = m w.users in (r, record w { users = s })
