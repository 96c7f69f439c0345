-- ===== src/Lndapi/Macaroon.antt =====
-- lndapi/macaroon_jar.go: macaroons as a profile keeps them. The macaroon library, snacl and base64
-- are parameters.
pub mod RoundTrip
pub mod Encrypted
use omnicore_proxy.Base.{
  ℕ, String, ◌<>◌, List, [], ◌∷◌, length, Bool, true, false, ◌&&◌, ◌||◌, ◌==◌, leb, if◌then◌else◌,
  Option, none, some, Result, ok, err, and_then, map_err,
}
use omnicore_proxy.Base.Int.{ℤ}
use omnicore_proxy.Base.Text.{is_space}
use omnicore_proxy.Base.Hex.{hex_encode, hex_decode}
use Prim.Native.Char.{Char, code}

-- `macaroon.v2`, `snacl` and `encoding/base64`. `new_secret_key` has its random salt fixed, and
-- `derive_key` gives the key that `DeriveKey` leaves behind.
pub record Crypto : Type 1 where
  pub Mac : Type 0
  pub marshal : Mac → Result (List ℕ)
  pub unmarshal : List ℕ → Result Mac
  pub Key : Type 0
  pub new_secret_key : List ℕ → Result Key
  pub encrypt : Key → List ℕ → Result (List ℕ)
  pub decrypt : Key → List ℕ → Result (List ℕ)
  pub marshal_key : Key → List ℕ
  pub unmarshal_key : List ℕ → Result Key
  pub derive_key : Key → List ℕ → Result Key
  pub b64_encode : List ℕ → String
  pub b64_decode : String → Result (List ℕ)
  -- the text of the error of `hex.DecodeString`
  pub hex_error : String → String

pub record MacaroonEntry : Type 0 where
  pub name : String
  pub mac_data : String

pub record MacaroonJar : Type 0 where
  pub default : String
  pub timeout : ℤ
  pub ip : String
  pub jar : List MacaroonEntry

-- `len(strings.TrimSpace(s)) == 0`
unfoldable pub is_blank : String → Bool
unfolding is_space
is_blank String.[] = true
is_blank (String.◌∷◌ c s) = is_space c && is_blank s

-- `strings.HasPrefix(s, prefix)`, over the codes of the characters.
unfoldable pub has_prefix : String → String → Bool
has_prefix s String.[] = true
has_prefix String.[] (String.◌∷◌ d t) = false
has_prefix (String.◌∷◌ c s) (String.◌∷◌ d t) = code c == code d && has_prefix s t

abbrev pub encryption_prefix : String
encryption_prefix = "snacl:"

-- A character in front of the first part.
on_first : Char → List String → List String
on_first c [] = String.◌∷◌ c String.[] ∷ []
on_first c (p ∷ ps) = String.◌∷◌ c p ∷ ps

-- `strings.Split(s, ":")`
unfoldable pub split_colon : String → List String
unfolding on_first
split_colon String.[] = "" ∷ []
split_colon (String.◌∷◌ c s) =
    let rest = split_colon s in if code c == 58 then "" ∷ rest else on_first c rest

module _ (C : Crypto) where
  unfoldable pub decrypt_macaroon : String → String → List ℕ → Result (List ℕ)
  decrypt_macaroon key_b64 data_b64 pw =
      and_then
        (map_err (λ e. "could not base64 decode encryption key: " <> e) (C.b64_decode key_b64))
        λ key_data.
          and_then
            (map_err (λ e. "could not base64 decode macaroon data: " <> e) (C.b64_decode data_b64))
            λ encrypted.
              and_then
                (map_err (λ e. "could not unmarshal encryption key: " <> e)
                  (C.unmarshal_key key_data))
                λ key.
                  and_then
                    (map_err
                      (λ e.
                        "could not derive encryption key, possibly due to incorrect password: "
                        <> e)
                      (C.derive_key key pw))
                    λ derived.
                      map_err (λ e. "could not decrypt macaroon data: " <> e)
                        (C.decrypt derived encrypted)

  -- The bytes of an encrypted entry. The password is what the callback gives; `none` is the panic
  -- of a nil callback.
  unfoldable pub encrypted_bytes :
      Option (String → Result (List ℕ)) → List String → Option (Result (List ℕ))
  unfolding decrypt_macaroon
  encrypted_bytes callback (first ∷ key_b64 ∷ data_b64 ∷ []) = elim callback [
    | none ↦ none
    | some ask ↦ some (
        and_then
          (map_err (λ e. "could not read password from terminal: " <> e)
            (ask "Enter macaroon encryption password: "))
          λ pw.
            map_err (λ e. "unable to decrypt macaroon: " <> e)
              (decrypt_macaroon key_b64 data_b64 pw))
  ]
  encrypted_bytes callback _ = some (
      err
        "invalid encrypted macaroon format, expected 'snacl:<key_base64>:<encrypted_macaroon_base64>'")

  -- The bytes of an entry in plain text.
  unfoldable pub plain_bytes : String → Result (List ℕ)
  plain_bytes text =
      let (bytes, good) = hex_decode text in
      if good then ok bytes else err ("unable to hex decode macaroon: " <> C.hex_error text)

  unfoldable pub parse_macaroon : Option (Result (List ℕ)) → Option (Result C.Mac)
  parse_macaroon none = none
  parse_macaroon (some r) =
      some
        (and_then r λ bytes. map_err (λ e. "unable to decode macaroon: " <> e) (C.unmarshal bytes))

  unfoldable pub load_macaroon :
      MacaroonEntry → Option (String → Result (List ℕ)) → Option (Result C.Mac)
  unfolding encrypted_bytes plain_bytes parse_macaroon is_blank has_prefix split_colon
  load_macaroon e callback =
      if is_blank e.mac_data
      then some (err "macaroon data is empty")
      else if has_prefix e.mac_data encryption_prefix
      then parse_macaroon (encrypted_bytes callback (split_colon e.mac_data))
      else parse_macaroon (some (plain_bytes e.mac_data))

  unfoldable pub store_macaroon : MacaroonEntry → C.Mac → List ℕ → Result MacaroonEntry
  store_macaroon e mac pw =
      and_then (map_err (λ m. "unable to marshal macaroon: " <> m) (C.marshal mac)) λ bytes.
        if length pw == 0
        then ok (record e { mac_data = hex_encode bytes })
        else and_then
            (map_err (λ m. "unable to create encryption key: " <> m) (C.new_secret_key pw))
            λ key.
              and_then (map_err (λ m. "unable to encrypt macaroon: " <> m) (C.encrypt key bytes))
                λ encrypted. ok (record e {
                  mac_data =
                      encryption_prefix
                      <> C.b64_encode (C.marshal_key key)
                      <> ":"
                      <> C.b64_encode encrypted;
                })
