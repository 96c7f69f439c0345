-- ===== src/Lndapi/Conn/Cache.antt =====
-- The clients that are kept, and the macaroon that a connection presents.
use omnicore_proxy.Base.{
  ℕ, ◌≡◌, refl, String, eq_iff, List, [], ◌∷◌, none, some, ok, arith, Result-cases, Option-cases,
  inl, inr, and_then, map_err, ◌<>◌,
}
use omnicore_proxy.Base.Int.{pos}
use omnicore_proxy.Base.Hex.{hex_encode, AreBytes}
use omnicore_proxy.Lndapi.Macaroon.{store_macaroon}
use omnicore_proxy.Lndapi.Macaroon.RoundTrip.{load_macaroon_plain}
use omnicore_proxy.Lndapi.Conn.{
  Host, Clients, ProfileEntry, mac_path, mac_name, profile_of, profile_from_context, mac_credential,
  get_lnd_client, get_client_conn, lookup_client,
}

module _ (H : Host) where
  -- A call that gives a client keeps it: every later call for the address gives the same client,
  -- whatever network and directory it names, and connects to nothing.
  get_lnd_client_again :
      (address net_type dir net_type' dir' : String) (s s' : Clients H) (cli : H.Conn)
      → get_lnd_client H address net_type dir s ≡ some (ok cli, s')
      → get_lnd_client H address net_type' dir' s' ≡ some (ok cli, s')
  unfolding get_lnd_client lookup_client
  get_lnd_client_again address net_type dir net_type' dir' s s' cli h =
      elim (Option-cases (lookup_client H address s.kept_clients)) [
        | inr (c, k) ↦ ground arith
        | inl k ↦ elim (Option-cases (get_client_conn H address net_type dir)) [
          | inl p ↦ ground arith
          | inr (r, g) ↦ elim (Result-cases r) [
            | inr (e, q) ↦ ground arith
            | inl (conn, q) ↦ ground (arith, eq_iff address address)
          ]
        ]
      ]

  profile_from_context_lem :
      (address net_type dir : String) (tls bytes bs : List ℕ) (b : ℕ) (mac : H.crypto.Mac)
      → H.read_file (H.join (dir ∷ "tls.cert" ∷ [])) ≡ ok tls
      → H.read_file (mac_path H net_type dir) ≡ ok bytes
      → H.crypto.unmarshal bytes ≡ ok mac
      → H.crypto.marshal mac ≡ ok (b ∷ bs)
      → profile_from_context H address net_type dir
        ≡ ok (
            profile_of H address net_type dir tls (record {
              name = mac_name H (mac_path H net_type dir);
              mac_data = hex_encode (b ∷ bs);
            }))
  unfolding profile_from_context store_macaroon
  profile_from_context_lem address net_type dir tls bytes bs b mac t m u w = rw (t, m, u, w) refl

  mac_credential_lem :
      (address net_type dir name : String) (tls bs : List ℕ) (b : ℕ) (mac : H.crypto.Mac)
      → AreBytes (b ∷ bs)
      → H.crypto.unmarshal (b ∷ bs) ≡ ok mac
      → mac_credential H (
          profile_of H address net_type dir tls
            (record { name = name; mac_data = hex_encode (b ∷ bs) }))
        ≡ some (
            and_then (H.add_constraints mac (pos 86400000) "") λ constrained.
              map_err (λ e. "error cloning mac: " <> e) (H.new_credential constrained))
  unfolding mac_credential profile_of
  mac_credential_lem address net_type dir name tls bs b mac h u =
      ground (arith, (eq_iff name name).1 refl, load_macaroon_plain H.crypto name b bs none mac h u)

  -- A profile that is made of a node's files presents the file's macaroon, under a time limit of
  -- 86400000 seconds and with no address: it is found in the jar under its name, and no password
  -- is asked for. The macaroon's bytes are not empty and read back as the macaroon.
  mac_credential-profile_from_context :
      (address net_type dir : String) (tls bytes bs : List ℕ) (b : ℕ) (mac : H.crypto.Mac)
      → H.read_file (H.join (dir ∷ "tls.cert" ∷ [])) ≡ ok tls
      → H.read_file (mac_path H net_type dir) ≡ ok bytes
      → H.crypto.unmarshal bytes ≡ ok mac
      → H.crypto.marshal mac ≡ ok (b ∷ bs)
      → AreBytes (b ∷ bs)
      → H.crypto.unmarshal (b ∷ bs) ≡ ok mac
      → (profile : ProfileEntry) × (profile_from_context H address net_type dir ≡ ok profile)
        × (profile.rpc_server ≡ address)
        × (profile.tls_cert ≡ tls)
        × (mac_credential H profile
            ≡ some (
                and_then (H.add_constraints mac (pos 86400000) "") λ constrained.
                  map_err (λ e. "error cloning mac: " <> e) (H.new_credential constrained)))
  unfolding profile_of
  mac_credential-profile_from_context address net_type dir tls bytes bs b mac t m u w h r =
      let name = mac_name H (mac_path H net_type dir) in
      (
        profile_of H address net_type dir tls
            (record { name = name; mac_data = hex_encode (b ∷ bs) }),
        profile_from_context_lem address net_type dir tls bytes bs b mac t m u w,
        refl,
        refl,
        mac_credential_lem address net_type dir name tls bs b mac h r,
      )
