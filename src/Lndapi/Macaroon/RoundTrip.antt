-- ===== src/Lndapi/Macaroon/RoundTrip.antt =====
-- `storeMacaroon` and `loadMacaroon` of lndapi/macaroon_jar.go, one behind the other.
use Prim.Native.Char.{Char, code}
use omnicore_proxy.Base.{
  ℕ, ◌≤◌, ◌≡◌, refl, String, List, [], ◌∷◌, false, Option, some, Result, ok, arith,
}
use omnicore_proxy.Base.Text.{is_space}
use omnicore_proxy.Base.Hex.{hex_encode, AreBytes, hex_decode-hex_encode, hex_encode-first}
use omnicore_proxy.Lndapi.Macaroon.{
  Crypto, MacaroonEntry, is_blank, has_prefix, plain_bytes, parse_macaroon, load_macaroon,
  store_macaroon,
}

-- A text that begins with a hexadecimal digit is not blank, and does not begin as an encrypted one.
is_blank_digit :
    (c : Char) (s : String) → 48 ≤ code c → code c ≤ 102 → is_blank (String.◌∷◌ c s) ≡ false
unfolding is_blank is_space
is_blank_digit c s h k = ground arith

has_prefix_digit :
    (c : Char) (s : String) → code c ≤ 102 → has_prefix (String.◌∷◌ c s) "snacl:" ≡ false
unfolding has_prefix
has_prefix_digit c s h = ground arith

module _ (C : Crypto) where
  pub load_macaroon_plain :
      (name : String) (b : ℕ) (bs : List ℕ) (callback : Option (String → Result (List ℕ)))
      (mac : C.Mac)
      → AreBytes (b ∷ bs)
      → C.unmarshal (b ∷ bs) ≡ ok mac
      → load_macaroon C (record { name = name; mac_data = hex_encode (b ∷ bs) }) callback
        ≡ some (ok mac)
  unfolding load_macaroon plain_bytes parse_macaroon
  load_macaroon_plain name b bs callback mac h u =
      let (c, s, e, low, high) = hex_encode-first b bs h.0 in
      let blank : is_blank (hex_encode (b ∷ bs)) ≡ false = rw e (is_blank_digit c s low high) in
      let prefix : has_prefix (hex_encode (b ∷ bs)) "snacl:" ≡ false =
        rw e (has_prefix_digit c s high) in
      rw (blank, prefix, hex_decode-hex_encode (b ∷ bs) h, u) refl

  -- A macaroon that is stored without a password is loaded again as it was, and the password is not
  -- asked for. The macaroon's bytes are not empty, and read back as the macaroon.
  load_macaroon-store_macaroon :
      (entry : MacaroonEntry) (mac : C.Mac) (b : ℕ) (bs : List ℕ)
      (callback : Option (String → Result (List ℕ)))
      → C.marshal mac ≡ ok (b ∷ bs)
      → AreBytes (b ∷ bs)
      → C.unmarshal (b ∷ bs) ≡ ok mac
      → (stored : MacaroonEntry) × (store_macaroon C entry mac [] ≡ ok stored)
        × (stored.name ≡ entry.name)
        × (load_macaroon C stored callback ≡ some (ok mac))
  unfolding store_macaroon
  load_macaroon-store_macaroon entry mac b bs callback m h u = (
    record entry { mac_data = hex_encode (b ∷ bs) },
    rw m refl,
    refl,
    load_macaroon_plain entry.name b bs callback mac h u,
  )
