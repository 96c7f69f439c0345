-- ===== src/Toolrpc/Rows.antt =====
-- The rows of the database: the messages of toolrpc/luckPk.proto, as toolrpc/luckPk.pb.go declares
-- them, and the tables that toolrpc/luckPk.go declares. An int64 whose sign the code reads is a ℤ,
-- an identifier is a number, and a field that only the database sets is left out.
use omnicore_proxy.Base.{ℕ, String, Bool, true, false}
use omnicore_proxy.Base.Int.{ℤ, pos}

pub data LuckPkStatus : Type 0 where
  init work_ing end expired error_create : LuckPkStatus

pub data SpayStatus : Type 0 where
  pay_init user_payed pay_end error refunded : SpayStatus

pub data LuckItemStatus : Type 0 where
  unknown paying payed error : LuckItemStatus

-- `pay_spend` is a float64 of seconds with one decimal: it is counted in tenths.
pub record Spay : Type 0 where
  pub id : ℕ
  pub user_invoice : String
  pub serv_invoice : String
  pub si_pay_hash : String
  pub payer_addr : String
  pub expire : ℤ
  pub user_id : ℕ
  pub status : SpayStatus
  pub err_msg : String
  pub err_times : ℕ
  pub pay_spend : ℕ
  pub payer_invoice : String
  pub asset_id : ℕ
  pub amt : ℤ

-- The uint64 fields are numbers below 2 ^ 64.
pub record LuckPk : Type 0 where
  pub id : ℕ
  pub user_id : ℕ
  pub user_alias : String
  pub asset_id : ℕ
  pub amt : ℕ
  pub balance : ℕ
  pub payment_hash : String
  pub parts : ℕ
  pub gives : ℕ
  pub status : LuckPkStatus
  pub expired_time_sec : ℤ
  pub invoice : String
  pub error_create_msg : String

pub record LuckItem : Type 0 where
  pub id : ℕ
  pub luckpk_id : ℕ
  pub user_id : ℕ
  pub user_alias : String
  pub amt : ℤ
  pub status : LuckItemStatus
  pub err_msg : String

-- `online` is 1 for a user with a heart beat, 2 for one whose heart beat ended.
pub record UserNode : Type 0 where
  pub id : ℕ
  pub online : ℕ
  pub tls_pub_key : String
  pub tls_pub_key_pre : String
  pub user_id_key : String
  pub alias : String
  pub ip_address : String

pub record HeartBeat : Type 0 where
  pub id : ℕ
  pub created_at : ℤ
  pub off_line_time : ℤ
  pub online_secs : ℤ
  pub user_id : ℕ
  pub ip_address : String

-- `status` is 1 when both channels are there.
pub record ChannelPair : Type 0 where
  pub id : ℕ
  pub status : ℕ
  pub remote_pub_key : String
  pub chan_id : String
  pub asset_id : ℕ
  pub btc_cap : ℤ
  pub asset_cap : ℤ
  pub local_chan_id : String
  pub local_btc_cap : ℤ
  pub local_asset_cap : ℤ
  pub last_err_msg : String

-- The zero values, `Spay{}`, `new(LuckItem)` and so on.
abbrev pub no_spay : Spay
no_spay = record {
  id = 0;
  user_invoice = "";
  serv_invoice = "";
  si_pay_hash = "";
  payer_addr = "";
  expire = pos 0;
  user_id = 0;
  status = SpayStatus.pay_init;
  err_msg = "";
  err_times = 0;
  pay_spend = 0;
  payer_invoice = "";
  asset_id = 0;
  amt = pos 0;
}

abbrev pub no_luck_pk : LuckPk
no_luck_pk = record {
  id = 0;
  user_id = 0;
  user_alias = "";
  asset_id = 0;
  amt = 0;
  balance = 0;
  payment_hash = "";
  parts = 0;
  gives = 0;
  status = init;
  expired_time_sec = pos 0;
  invoice = "";
  error_create_msg = "";
}

abbrev pub no_luck_item : LuckItem
no_luck_item = record {
  id = 0;
  luckpk_id = 0;
  user_id = 0;
  user_alias = "";
  amt = pos 0;
  status = LuckItemStatus.unknown;
  err_msg = "";
}

abbrev pub no_user_node : UserNode
no_user_node = record {
  id = 0;
  online = 0;
  tls_pub_key = "";
  tls_pub_key_pre = "";
  user_id_key = "";
  alias = "";
  ip_address = "";
}

-- The texts that `%s` prints of a status.
unfoldable pub luck_pk_status_name : LuckPkStatus → String
luck_pk_status_name init = "INIT"
luck_pk_status_name work_ing = "WorkIng"
luck_pk_status_name end = "End"
luck_pk_status_name expired = "Expired"
luck_pk_status_name error_create = "ErrorCreate"

-- `==` on a status.
abbrev pub is_work_ing : LuckPkStatus → Bool
is_work_ing work_ing = true
is_work_ing _ = false

abbrev pub is_init : LuckPkStatus → Bool
is_init init = true
is_init _ = false

abbrev pub is_pay_init : SpayStatus → Bool
is_pay_init pay_init = true
is_pay_init _ = false

abbrev pub is_user_payed : SpayStatus → Bool
is_user_payed user_payed = true
is_user_payed _ = false

abbrev pub is_paying : LuckItemStatus → Bool
is_paying paying = true
is_paying _ = false

abbrev pub is_payed : LuckItemStatus → Bool
is_payed payed = true
is_payed _ = false
