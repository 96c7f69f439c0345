-- ===== src/Tests/Services.antt =====
-- A node and a database for the tests. Every invoice asks for 5000999 millisatoshis but "bad", which
-- does not decode, and every payment succeeds.
use omnicore_proxy.Base.{ℕ, ◌+◌, if◌then◌else◌, str_eq, true, [], ◌∷◌, ok, err}
use omnicore_proxy.Base.Int.{pos}
use omnicore_proxy.Lndapi.Node.{Node, PayReq, Payment}
use omnicore_proxy.Toolrpc.Rows.{
  Spay, SpayStatus, LuckPk, LuckPkStatus, UserNode, no_spay, no_luck_pk, no_user_node,
}
use omnicore_proxy.Toolrpc.World.{Env, World}
use omnicore_proxy.Toolrpc.Spay.Status.{overlay as overlay_spay}
use omnicore_proxy.Toolrpc.HeartBeat.Online.{overlay as overlay_user}
use omnicore_proxy.Toolrpc.Monitor.Packets.{overlay_luck_pk}
use omnicore_proxy.Tests.Memory.{memory}

abbrev pub decoded : PayReq
decoded = record { asset_id = 0; amount = pos 0; amt_msat = pos 5000999; expiry = pos 3600 }

abbrev pub paid : Payment
paid = record { succeeded = true; status = "SUCCEEDED"; failure_reason = "" }

abbrev pub node : Node
node = record {
  State = ℕ;
  Stream = ℕ;
  btc_asset_id = 0;
  decode_pay_req = λ s n. if str_eq s "bad" then err "bad" else ok decoded;
  add_invoice = λ r n. (ok (record { payment_request = "server"; r_hash = 1 ∷ 2 ∷ [] }), n);
  send_payment = λ r n. (ok n, n + 1);
  recv = λ stream n. (ok paid, n);
}

abbrev pub env : Env
env = record {
  node = node;
  spays = memory (λ x. x.id) (λ n r. record r { id = n }) overlay_spay;
  luck_pks = memory (λ x. x.id) (λ n r. record r { id = n }) overlay_luck_pk;
  luck_items = memory (λ x. x.id) (λ n r. record r { id = n }) (λ x u. u);
  users = memory (λ x. x.id) (λ n r. record r { id = n }) overlay_user;
  heart_beats = memory (λ x. x.id) (λ n r. record r { id = n }) (λ x u. u);
  channel_pairs = memory (λ x. x.id) (λ n r. record r { id = n }) (λ x u. u);
}

abbrev pub waiting : Spay
waiting = record no_spay {
  id = 3;
  user_invoice = "user";
  si_pay_hash = "0102";
  user_id = 1;
  expire = pos 100;
  amt = pos 5000;
}

abbrev pub due : Spay
due = record no_spay {
  id = 4;
  user_invoice = "user";
  si_pay_hash = "0304";
  user_id = 1;
  expire = pos 100;
  amt = pos 5000;
  status = SpayStatus.user_payed;
  payer_addr = "payer";
}

abbrev pub packet : LuckPk
packet = record no_luck_pk {
  id = 2;
  amt = 10000;
  balance = 10000;
  parts = 2;
  status = LuckPkStatus.work_ing;
}

abbrev pub user : UserNode
user = record no_user_node { id = 1; tls_pub_key_pre = "30820a0b0c0d0e0"; user_id_key = "payer" }

abbrev pub world : World env
world = record {
  node = 0;
  spays = waiting ∷ due ∷ [];
  luck_pks = packet ∷ [];
  luck_items = [];
  users = user ∷ [];
  heart_beats = [];
  channel_pairs = [];
}
