-- ===== src/Tests/Clients.antt =====
-- The theorems on the clients of the node and on the channels at concrete data.
use omnicore_proxy.Base.{
  ap, ◌∙◌, ◌<>◌, ◌==◌, if◌then◌else◌, zero, suc, true, ℕ, ◌+◌, ◌≡◌, refl, false, String, List, [],
  ◌∷◌, some, ok, err, arith, All,
}
use omnicore_proxy.Base.Int.{pos}
use omnicore_proxy.Base.Hex.{hex_encode}
use omnicore_proxy.Lndapi.Macaroon.{Crypto, MacaroonEntry, load_macaroon, store_macaroon}
use omnicore_proxy.Lndapi.Macaroon.Encrypted.{
  IsSound, has_no_colon, load_macaroon-store_macaroon_password,
}
use Prim.Native.Char.{code}
use omnicore_proxy.Lndapi.Conn.{Host, Clients, get_lnd_client, get_router_client, lookup_client}
use omnicore_proxy.Lndapi.Conn.Calls.{
  Caches, lnd_call, router_call, AllKept, call_client, call_clients, call_clients-AllKept,
}
use omnicore_proxy.Toolrpc.Channels.{
  Hashes, PendingChannel, Received, eof, received, chan_pending, other_update,
}
use omnicore_proxy.Toolrpc.Channels.Matched.{IsMatched, monitor_channel-AllMatched}
use omnicore_proxy.Toolrpc.Monitor.{
  Session, failed, broken, blocked, ChannelEvent, pending_open, other_event, monitor_channel,
}
use omnicore_proxy.Base.Text.{itoa, itoa_ℤ, is_space}
use omnicore_proxy.Toolrpc.Server.{close, words, without_semicolons, fields, command_line}
use omnicore_proxy.Tests.Memory.{memory-IsLawful, memory-Creates}
use omnicore_proxy.Tests.Services.{env, world}

-- A text for some numbers: each is a run of one letter, ended by another.
run_of : ℕ → String → String
run_of zero s = String.◌∷◌ "b" s
run_of (suc n) s = String.◌∷◌ "a" (run_of n s)

unary : List ℕ → String
unfolding run_of
unary [] = ""
unary (n ∷ ns) = run_of n (unary ns)

read : ℕ → String → List ℕ
read acc String.[] = []
read acc (String.◌∷◌ c s) = if code c == 97 then read (acc + 1) s else acc ∷ read 0 s

read-run_of : (acc n : ℕ) (s : String) → read acc (run_of n s) ≡ (acc + n) ∷ read 0 s
unfolding read run_of
read-run_of acc zero s = ground arith
read-run_of acc (suc n) s = ground (arith, read-run_of (acc + 1) n s)

read-unary : (ns : List ℕ) → read 0 (unary ns) ≡ ns
unfolding unary read
read-unary [] = refl
read-unary (n ∷ ns) = ground (arith, read-run_of 0 n (unary ns), read-unary ns)

has_no_colon-run_of : (n : ℕ) (s : String) → has_no_colon (run_of n s) ≡ has_no_colon s
unfolding has_no_colon run_of
has_no_colon-run_of zero s = refl
has_no_colon-run_of (suc n) s = has_no_colon-run_of n s

has_no_colon-unary : (ns : List ℕ) → has_no_colon (unary ns) ≡ true
unfolding has_no_colon unary
has_no_colon-unary [] = refl
has_no_colon-unary (n ∷ ns) = has_no_colon-run_of n (unary ns) ∙ has_no_colon-unary ns

-- A macaroon is one byte.
abbrev crypto : Crypto
crypto = record {
  Mac = ℕ;
  marshal = λ m. ok (m ∷ []);
  unmarshal = λ b. elim b [ [] ↦ err "empty" | x ∷ xs ↦ ok x ];
  Key = ℕ;
  new_secret_key = λ pw. ok 1;
  encrypt = λ k b. ok b;
  decrypt = λ k b. ok b;
  marshal_key = λ k. k ∷ [];
  unmarshal_key = λ b. ok 1;
  derive_key = λ k pw. ok k;
  b64_encode = unary;
  b64_decode = λ s. ok (read 0 s);
  hex_error = λ s. "encoding/hex: invalid";
}

crypto-IsSound : IsSound crypto
crypto-IsSound = record {
  reads_back = λ bytes. ap ok (read-unary bytes);
  no_colon = has_no_colon-unary;
  opens = λ pw bytes closed key made shut. (1, 1, refl, refl, ground arith);
}

stored_entry : MacaroonEntry
stored_entry = record {
  name = "a";
  mac_data = "snacl:" <> (unary (1 ∷ []) <> (":" <> unary (77 ∷ [])));
}

load_macaroon-store_macaroon_password_example :
    load_macaroon crypto stored_entry (some (λ prompt. ok (5 ∷ []))) ≡ some (ok 77)
unfolding store_macaroon stored_entry
load_macaroon-store_macaroon_password_example =
    load_macaroon-store_macaroon_password crypto crypto-IsSound
      (record { name = "a"; mac_data = "" }) stored_entry 77 77 [] (5 ∷ []) (λ prompt. ok (5 ∷ []))
      refl (omega arith, tt) refl refl refl

-- Every file is the byte 77, and a connection is its address.
abbrev host : Host
host = record {
  crypto = crypto;
  join = λ parts. "path";
  base_name = λ path. "admin.macaroon";
  ext = λ path. ".macaroon";
  trim_suffix = λ s t. s;
  read_file = λ path. ok (77 ∷ []);
  Pool = ℕ;
  append_certs = λ b. some 1;
  add_constraints = λ m t ip. ok m;
  Credential = ℕ;
  new_credential = λ m. ok m;
  Conn = String;
  dial = λ a p c. ok a;
}

abbrev kept : Clients host
kept = record { kept_clients = ("node", "node") ∷ []; connected = "node" ∷ [] }

abbrev caches : Caches host
caches = record {
  lnd = kept;
  router = record { kept_clients = ("node", "other") ∷ []; connected = "node" ∷ [] };
}

call_clients-AllKept_example :
    AllKept host
      (lnd_call "node" "mainnet" "other" ∷ router_call "node" "regtest" "dir" ∷ [])
      (ok "node" ∷ ok "other" ∷ [])
      caches
unfolding call_clients call_client get_lnd_client get_router_client lookup_client
call_clients-AllKept_example =
    call_clients-AllKept host
      (lnd_call "node" "mainnet" "other" ∷ router_call "node" "regtest" "dir" ∷ []) caches caches
      (ok "node" ∷ ok "other" ∷ []) refl

abbrev hashes : Hashes
hashes = record { new_hash = λ b. ok b; new_hash_from_str = λ s. ok []; text = hex_encode }

abbrev channel : PendingChannel
channel = record {
  initiator = false;
  asset_id = 0;
  btc_capacity = pos 600000;
  asset_capacity = pos 0;
  remote_pub_key = "02ab";
  channel_point = "00:1";
}

abbrev updates : List Received
updates = received other_update ∷ received (chan_pending (7 ∷ []) 0) ∷ eof ∷ []

-- A subscription that fails, one that breaks behind a channel, and one that gives the channel again.
abbrev sessions : List (Session ChannelEvent)
sessions =
    failed "down"
    ∷ Session.stream (pending_open channel (λ req. ok updates) ∷ []) broken
    ∷ Session.stream (other_event ∷ pending_open channel (λ req. err "no funds") ∷ []) blocked
    ∷ []

monitor_channel-AllMatched_example :
    All
      (IsMatched (λ c. c ≡ channel))
      (monitor_channel env hashes sessions world).world.channel_pairs
monitor_channel-AllMatched_example =
    monitor_channel-AllMatched hashes env (λ xs. xs)
      (memory-IsLawful (λ x. x.id) (λ n r. record r { id = n }) (λ x u. u) (λ n r. refl))
      (memory-Creates (λ x. x.id) (λ n r. record r { id = n }) (λ x u. u) (λ n r. refl))
      (λ c. c ≡ channel) sessions world ((refl, tt), ((tt, (refl, tt)), tt)) tt

-- An address with a space in it is split into two arguments.
split_address :
    fields (command_line "s" (record { address = "a b"; asset_id = pos 1 }))
    ≡ "s" ∷ "a" ∷ "b" ∷ "1" ∷ []
unfolding fields command_line itoa_ℤ is_space close words without_semicolons itoa
split_address = refl
