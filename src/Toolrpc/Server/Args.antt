-- ===== src/Toolrpc/Server/Args.antt =====
-- The arguments that the scripts get.
use omnicore_proxy.Base.{
  ◌≡◌, refl, ◌∙◌, ap, String, ◌<>◌, List, [], ◌∷◌, true, arith, Bool-cases, str_eq, inl, inr,
}
use text.Mathlib.TextLemmas.{nil-append, cons-append}
use omnicore_proxy.Base.Text.{is_space, is_word, itoa_ℤ, itoa_ℤ-is_word}
use omnicore_proxy.Toolrpc.Server.{
  OmniSendCoinReq, close, words, fields, command_line, without_semicolons, Ran, send_coin, exec_cmd,
  send_coin_script, result_of,
}

space-append : (s : String) → " " <> s ≡ String.◌∷◌ " " s
space-append s = cons-append " " String.[] s ∙ ap (String.◌∷◌ " ") (nil-append s)

words-space : (s : String) → words (String.◌∷◌ " " s) ≡ (String.[], fields s)
unfolding words fields is_space
words-space s = refl

words-word : (w s : String) → is_word w ≡ true → words (w <> (" " <> s)) ≡ (w, fields s)
unfolding words is_word
words-word String.[] s h = rw (nil-append (" " <> s), space-append s) (words-space s)
words-word (String.◌∷◌ c w) s h = rw (cons-append c w (" " <> s)) (ground (arith, words-word w s))

words_alone : (w : String) → is_word w ≡ true → words w ≡ (w, [])
unfolding words is_word
words_alone String.[] h = refl
words_alone (String.◌∷◌ c w) h = ground (arith, words_alone w)

-- The words of a word and a space are the word, unless it is empty, and the words behind it.
fields-word : (w s : String) → is_word w ≡ true → fields (w <> (" " <> s)) ≡ close w (fields s)
unfolding fields
fields-word w s h = rw (words-word w s h) refl

fields_alone : (w : String) → is_word w ≡ true → fields w ≡ close w []
unfolding fields
fields_alone w h = rw (words_alone w h) refl

fields-command_line :
    (script : String) (req : OmniSendCoinReq)
    → is_word script ≡ true
    → is_word (without_semicolons req.address) ≡ true
    → fields (command_line script req)
      ≡ close script (close (without_semicolons req.address) (close (itoa_ℤ req.asset_id) []))
unfolding command_line
fields-command_line script req h k =
    let id = itoa_ℤ req.asset_id in
    let address = without_semicolons req.address in
    fields-word script (address <> (" " <> id)) h
    ∙ ap (close script) (
        fields-word address id k
        ∙ ap (close address) (fields_alone id (itoa_ℤ-is_word req.asset_id)))

-- `SendCoin` runs the script of the network with the address, its semicolons removed, and the
-- asset as its arguments, if the address has no space in it; an empty address is left out.
pub send_coin-fields :
    {S : Type 0} (run : List String → S → Ran × S) (net_type : String) (req : OmniSendCoinReq)
    (s : S)
    → is_word (without_semicolons req.address) ≡ true
    → let (ran, s') =
        run
          (send_coin_script net_type
            ∷ close (without_semicolons req.address) (close (itoa_ℤ req.asset_id) []))
          s in
      send_coin run net_type req s ≡ (result_of ran, s')
unfolding send_coin exec_cmd send_coin_script is_word is_space close
send_coin-fields run net_type req s k = elim (Bool-cases (str_eq net_type "regtest")) [
  | inl regtest ↦ rw (regtest, fields-command_line "scripts/send_coin.sh" req refl k) refl
  | inr docker ↦ rw (docker, fields-command_line "scripts/docker/send_coin.sh" req refl k) refl
]
