-- ===== src/Lndapi/Macaroon/Encrypted.antt =====
-- `storeMacaroon` and `loadMacaroon` of lndapi/macaroon_jar.go with one password for both.
use Prim.Native.Char.{Char, code}
use text.Mathlib.TextLemmas.{cons-append, nil-append, append_assoc}
use omnicore_proxy.Base.{
  ℕ, ◌≡◌, refl, sym, ap, ◌∙◌, subst, String, ◌<>◌, List, [], ◌∷◌, Bool, true, false, some, Result,
  ok, arith, ◌==◌, if◌then◌else◌, length, Bool-cases, Result-cases, ◌⊎◌, inl, inr,
}
use omnicore_proxy.Base.Text.{is_space}
use omnicore_proxy.Base.Hex.{hex_encode, AreBytes}
use omnicore_proxy.Lndapi.Macaroon.{
  Crypto, MacaroonEntry, is_blank, has_prefix, split_colon, on_first, encryption_prefix,
  encrypted_bytes, decrypt_macaroon, parse_macaroon, load_macaroon, store_macaroon,
}
use omnicore_proxy.Lndapi.Macaroon.RoundTrip.{load_macaroon_plain}

-- A text without a colon.
unfoldable pub has_no_colon : String → Bool
has_no_colon String.[] = true
has_no_colon (String.◌∷◌ c s) = if code c == 58 then false else has_no_colon s

has_no_colon-cons :
    (c : Char) (s : String)
    → has_no_colon (String.◌∷◌ c s) ≡ true
    → ((code c == 58) ≡ false) × (has_no_colon s ≡ true)
unfolding has_no_colon
has_no_colon-cons c s h = (ground arith, ground arith)

split_colon_last : (s : String) → has_no_colon s ≡ true → split_colon s ≡ s ∷ []
unfolding split_colon on_first
split_colon_last String.[] h = refl
split_colon_last (String.◌∷◌ c s) h =
    let (other, rest) = has_no_colon-cons c s h in rw (other, split_colon_last s rest) refl

split_colon-append :
    (s t : String) → has_no_colon s ≡ true → split_colon (s <> (":" <> t)) ≡ s ∷ split_colon t
unfolding split_colon on_first
split_colon-append String.[] t h =
    rw (nil-append (":" <> t), cons-append ":" "" t, nil-append t) refl
split_colon-append (String.◌∷◌ c s) t h =
    let (other, rest) = has_no_colon-cons c s h in
    rw (cons-append c s (":" <> t), other, split_colon-append s t rest) refl

-- What `snacl` and `encoding/base64` document: the base64 text of some bytes reads back as them and
-- has no colon in it, and the key that is made of a password opens, once it is written, read and
-- derived by the same password again, what it has closed.
pub record IsSound (C : Crypto) : Type 0 where
  pub reads_back : (bytes : List ℕ) → C.b64_decode (C.b64_encode bytes) ≡ ok bytes
  pub no_colon : (bytes : List ℕ) → has_no_colon (C.b64_encode bytes) ≡ true
  pub opens :
      (pw bytes closed : List ℕ) (key : C.Key)
      → C.new_secret_key pw ≡ ok key
      → C.encrypt key bytes ≡ ok closed
      → (read : C.Key) × (derived : C.Key) × (C.unmarshal_key (C.marshal_key key) ≡ ok read)
        × (C.derive_key read pw ≡ ok derived)
        × (C.decrypt derived closed ≡ ok bytes)

has_prefix-append : (p s : String) → has_prefix (p <> s) p ≡ true
unfolding has_prefix
has_prefix-append String.[] s = refl
has_prefix-append (String.◌∷◌ c p) s =
    rw (cons-append c p s) (ground (arith, has_prefix-append p s))

is_blank_encrypted : (rest : String) → is_blank ("snacl:" <> rest) ≡ false
unfolding is_blank is_space
is_blank_encrypted rest = rw (cons-append "s" "nacl:" rest) refl

module _ (C : Crypto) (S : IsSound C) where
  -- The data that `storeMacaroon` writes with a password.
  abbrev written : C.Key → List ℕ → String
  written key closed =
      encryption_prefix <> (C.b64_encode (C.marshal_key key) <> (":" <> C.b64_encode closed))

  split_colon-written :
      (key : C.Key) (closed : List ℕ)
      → split_colon (written key closed)
        ≡ "snacl" ∷ C.b64_encode (C.marshal_key key) ∷ C.b64_encode closed ∷ []
  unfolding has_no_colon
  split_colon-written key closed =
      let k = C.b64_encode (C.marshal_key key) in
      let d = C.b64_encode closed in
      ap split_colon (append_assoc "snacl" ":" (k <> (":" <> d)))
      ∙ split_colon-append "snacl" (k <> (":" <> d)) refl
      ∙ ap (λ r. "snacl" ∷ r)
          (split_colon-append k d (S.no_colon (C.marshal_key key))
            ∙ ap (λ r. k ∷ r) (split_colon_last d (S.no_colon closed)))

  decrypt_macaroon-written :
      (pw bytes closed : List ℕ) (key : C.Key)
      → C.new_secret_key pw ≡ ok key
      → C.encrypt key bytes ≡ ok closed
      → decrypt_macaroon C (C.b64_encode (C.marshal_key key)) (C.b64_encode closed) pw ≡ ok bytes
  unfolding decrypt_macaroon
  decrypt_macaroon-written pw bytes closed key made shut =
      let (read, derived, u, d, o) = S.opens pw bytes closed key made shut in
      rw (S.reads_back (C.marshal_key key), S.reads_back closed, u, d, o) refl

  load_macaroon-written :
      (name : String) (pw bytes closed : List ℕ) (key : C.Key) (mac : C.Mac)
      (ask : String → Result (List ℕ))
      → C.new_secret_key pw ≡ ok key
      → C.encrypt key bytes ≡ ok closed
      → C.unmarshal bytes ≡ ok mac
      → ask "Enter macaroon encryption password: " ≡ ok pw
      → load_macaroon C (record { name = name; mac_data = written key closed }) (some ask)
        ≡ some (ok mac)
  unfolding load_macaroon encrypted_bytes parse_macaroon
  load_macaroon-written name pw bytes closed key mac ask made shut u a =
      let k = C.b64_encode (C.marshal_key key) in
      let rest = k <> (":" <> C.b64_encode closed) in
      rw
        (
          is_blank_encrypted rest,
          has_prefix-append "snacl:" rest,
          split_colon-written key closed,
          a,
          decrypt_macaroon-written pw bytes closed key made shut,
          u,
        )
        refl

  store_macaroon-eq-ok :
      (entry stored : MacaroonEntry) (mac : C.Mac) (bytes pw : List ℕ)
      → C.marshal mac ≡ ok bytes
      → store_macaroon C entry mac pw ≡ ok stored
      → (stored ≡ record entry { mac_data = hex_encode bytes })
        ⊎ ((key : C.Key) × (closed : List ℕ) × (C.new_secret_key pw ≡ ok key)
            × (C.encrypt key bytes ≡ ok closed)
            × (stored ≡ record entry { mac_data = written key closed }))
  unfolding store_macaroon
  store_macaroon-eq-ok entry stored mac bytes pw m s = elim (Bool-cases (length pw == 0)) [
    | inl empty ↦ inl (ground arith)
    | inr given ↦ elim (Result-cases (C.new_secret_key pw)) [
      | inr (e, bad) ↦ ground arith
      | inl (key, made) ↦ elim (Result-cases (C.encrypt key bytes)) [
        | inr (e, bad) ↦ ground arith
        | inl (closed, shut) ↦ inr (key, closed, made, shut, ground arith)
      ]
    ]
  ]

  -- A macaroon that is stored, with a password or with none, is loaded again as it was when that
  -- password is given. The macaroon's bytes are not empty and read back as the macaroon, and the
  -- libraries do what they document.
  pub load_macaroon-store_macaroon_password :
      (entry stored : MacaroonEntry) (mac : C.Mac) (b : ℕ) (bs pw : List ℕ)
      (ask : String → Result (List ℕ))
      → C.marshal mac ≡ ok (b ∷ bs)
      → AreBytes (b ∷ bs)
      → C.unmarshal (b ∷ bs) ≡ ok mac
      → ask "Enter macaroon encryption password: " ≡ ok pw
      → store_macaroon C entry mac pw ≡ ok stored
      → load_macaroon C stored (some ask) ≡ some (ok mac)
  load_macaroon-store_macaroon_password entry stored mac b bs pw ask m h u a s =
      elim (store_macaroon-eq-ok entry stored mac (b ∷ bs) pw m s) [
        | inl plain ↦
            subst (λ e. load_macaroon C e (some ask) ≡ some (ok mac)) (sym plain)
              (load_macaroon_plain C entry.name b bs (some ask) mac h u)
        | inr (key, closed, made, shut, e) ↦
            subst (λ e. load_macaroon C e (some ask) ≡ some (ok mac)) (sym e)
              (load_macaroon-written entry.name pw (b ∷ bs) closed key mac ask made shut u a)
      ]
