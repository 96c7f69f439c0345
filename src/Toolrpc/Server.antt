-- ===== src/Toolrpc/Server.antt =====
-- toolrpc/server/tools.go and toolrpc/server/omnicore_cmd.go: the tools around the full node. The
-- operating system, the RPC client and JSON are parameters.
pub mod Args
use Prim.Native.Char.{code}
use omnicore_proxy.Base.{
  ℕ, String, ◌<>◌, str_eq, List, [], ◌∷◌, Bool, true, false, ◌==◌, if◌then◌else◌, Option, none,
  some, Result, ok, err, and_then, Action,
}
use omnicore_proxy.Base.Int.{ℤ, pos}
use omnicore_proxy.Base.Text.{itoa_ℤ, is_space, bytes_of}

-- `strings.Replace(s, ";", "", -1)`
unfoldable pub without_semicolons : String → String
without_semicolons String.[] = String.[]
without_semicolons (String.◌∷◌ c s) =
    let rest = without_semicolons s in if code c == 59 then rest else String.◌∷◌ c rest

-- A word in front of the words behind it, unless it is empty.
unfoldable pub close : String → List String → List String
close String.[] ws = ws
close (String.◌∷◌ c w) ws = String.◌∷◌ c w ∷ ws

-- The characters up to the first space, and the words behind it.
unfoldable pub words : String → String × List String
unfolding close
words String.[] = (String.[], [])
words (String.◌∷◌ c s) =
    let (w, ws) = words s in if is_space c then (String.[], close w ws) else (String.◌∷◌ c w, ws)

-- `strings.Fields`
unfoldable pub fields : String → List String
unfolding words
fields s = let (w, ws) = words s in close w ws

-- The fields of the requests that are read.
pub record OmniSendCoinReq : Type 0 where
  pub address : String
  pub asset_id : ℤ

-- What a command leaves: its error, if any, and what it wrote.
pub record Ran : Type 0 where
  pub error : Option String
  pub out : String

-- The command line of a script, as `Sprintf` fills it in.
unfoldable pub command_line : String → OmniSendCoinReq → String
unfolding without_semicolons
command_line script req =
    script <> (" " <> (without_semicolons req.address <> (" " <> itoa_ℤ req.asset_id)))

unfoldable pub result_of : Ran → Result String
result_of r = elim r.error [ none ↦ ok r.out | some e ↦ err (e <> r.out) ]

-- The script of `SendCoin`.
unfoldable pub send_coin_script : String → String
send_coin_script net_type =
    if str_eq net_type "regtest" then "scripts/send_coin.sh" else "scripts/docker/send_coin.sh"

-- `run` runs a command of its name and arguments, which may change what it reaches.
module _ {S : Type 0} (run : List String → S → Ran × S) where
  unfoldable pub exec_cmd : String → Action S String
  unfolding fields result_of
  exec_cmd line s = let (ran, s') = run (fields line) s in (result_of ran, s')

  -- `none` is the nil result beside a nil error.
  unfoldable pub channel_send : String → OmniSendCoinReq → Action S (Option String)
  unfolding exec_cmd command_line
  channel_send net_type req s =
      if str_eq net_type "mainnet"
      then (ok none, s)
      else let (r, s') = exec_cmd (command_line "scripts/channel_send.sh" req) s in
        (and_then r (λ out. ok (some out)), s')

  unfoldable pub send_coin : String → OmniSendCoinReq → Action S String
  unfolding exec_cmd command_line send_coin_script
  send_coin net_type req = exec_cmd (command_line (send_coin_script net_type) req)

  unfoldable pub mine : Action S String
  unfolding exec_cmd
  mine = exec_cmd "mine.sh"

-- The commands that the RPC client sends.
pub data OmniCmd : Type 0 where
  omni_getbalance : String → ℤ → OmniCmd
  omni_getproperty : ℤ → OmniCmd
  omni_listproperties : OmniCmd
  -- the fields of `OmniCreatePropertyCmd`, in order
  omni_sendissuancefixed :
      String → ℕ → ℕ → ℕ → String → String → String → String → String → String → OmniCmd

pub record CreatePropertyReq : Type 0 where
  pub fromaddress : String
  pub name : String
  pub amount : String

unfoldable pub create_property_cmd : CreatePropertyReq → OmniCmd
create_property_cmd req =
    omni_sendissuancefixed req.fromaddress 2 2 0 "" "" req.name "" "" req.amount

-- `Receive` of a future, on the text of the answer: "null" gives neither a value nor an error.
unfoldable pub receive : {A : Type 0} → (String → Result A) → Result String → Result (Option A)
receive unmarshal answer =
    and_then answer
      λ res. if str_eq res "null" then ok none else and_then (unmarshal res) (λ a. ok (some a))

-- `send` is `SendCmd` with the answer that its future gives.
module _ (send : OmniCmd → Result String) where
  unfoldable pub omni_get_balance :
      {A : Type 0} → (String → Result A) → String → ℤ → Result (Option A)
  unfolding receive
  omni_get_balance unmarshal address property_id =
      receive unmarshal (send (omni_getbalance address property_id))

  unfoldable pub omni_get_property : {A : Type 0} → (String → Result A) → ℤ → Result (Option A)
  unfolding receive
  omni_get_property unmarshal property_id = receive unmarshal (send (omni_getproperty property_id))

  unfoldable pub omni_list_properties : {A : Type 0} → (String → Result A) → Result (Option A)
  unfolding receive
  omni_list_properties unmarshal = receive unmarshal (send omni_listproperties)

  -- The hash is the answer as it stands.
  unfoldable pub omni_create_property : CreatePropertyReq → Result (Option String)
  unfolding receive create_property_cmd
  omni_create_property req = receive (λ res. ok res) (send (create_property_cmd req))
