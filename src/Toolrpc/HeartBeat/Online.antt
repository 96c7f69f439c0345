-- ===== src/Toolrpc/HeartBeat/Online.antt =====
-- The online status of a user over a stream, in the rows of the table.
use omnicore_proxy.Base.{
  false, ℕ, ◌<◌, ◌≡◌, ◌≢◌, String, List, Option, none, some, Result, ok, err, ◌==◌, str_eq,
  if◌then◌else◌, ltb, arith, true, find_first, Option-cases, inl, inr,
}
use omnicore_proxy.Base.Int.{ℤ, ◌-ℤ◌}
use omnicore_proxy.Toolrpc.Rows.{UserNode, HeartBeat, no_user_node}
use omnicore_proxy.Toolrpc.Table.{IsUpdatable}
use omnicore_proxy.Toolrpc.Table.Put.{find_first-map}
use omnicore_proxy.Toolrpc.World.{Env, World}
use omnicore_proxy.Toolrpc.HeartBeat.{
  GetInvoice, Event, set_online, save_heart_beat, user_of, open_heart_beat, greet, on_connect,
  on_close, heart_beat,
}

-- The row `x` with the fields of `u` that are not zero: what gorm writes for `Updates(u)`.
unfoldable pub overlay : UserNode → UserNode → UserNode
overlay x u =
    let text = λ (a b : String). if str_eq b "" then a else b in
    let number = λ (a b : ℕ). if b == 0 then a else b in
    record {
      id = number x.id u.id;
      online = number x.online u.online;
      tls_pub_key = text x.tls_pub_key u.tls_pub_key;
      tls_pub_key_pre = text x.tls_pub_key_pre u.tls_pub_key_pre;
      user_id_key = text x.user_id_key u.user_id_key;
      alias = text x.alias u.alias;
      ip_address = text x.ip_address u.ip_address;
    }

overlay_online :
    (x : UserNode) (n : ℕ) (a : String)
    → n ≢ 0
    → let y = overlay x (record no_user_node { online = n; ip_address = a }) in
      (y.id ≡ x.id) × (y.online ≡ n)
unfolding overlay
overlay_online x n a h = ground arith

-- Whether the user with an identifier is marked online, 1, or offline, 2.
abbrev pub online_in : ℕ → List UserNode → Option ℕ
online_in j xs = elim (find_first (λ x. x.id == j) xs) [ none ↦ none | some x ↦ some x.online ]

module _ (E : Env) (rows : E.users.State → List UserNode)
    (U : IsUpdatable E.users rows (λ x. x.id) overlay) where
  -- No update of a user fails.
  abbrev pub UpdatesSucceed : Type 0
  UpdatesSucceed =
      (r u : UserNode) (s : E.users.State) → (r' : UserNode) × ((E.users.updates r u s).0 ≡ ok r')

  set_online_lem :
      UpdatesSucceed
      → (n : ℕ) (a : String) (un : UserNode) (w : World E) → n ≢ 0
      → online_in un.id (rows w.users) ≢ none
      → online_in un.id (rows (set_online E n a un w).users) ≡ some n
  unfolding set_online
  set_online_lem S n a un w nz known =
      let u = record no_user_node { online = n; ip_address = a } in
      let (r', e) = S un u w.users in
      let written = (U.updates-rows un u r' w.users e).1 in
      let row =
        find_first-map (λ x. x.id) un.id un.id (λ x. overlay x u) (rows w.users)
          (λ x. (overlay_online x n a nz).0) in
      elim (Option-cases (find_first (λ x. x.id == un.id) (rows w.users))) [
        | inl absent ↦ absurd (known (ground arith))
        | inr (x, found) ↦ ground (arith, written, row, overlay_online x n a nz)
      ]

  -- Behind the function that `HeartBeat` defers a known user is marked offline.
  on_close-offline :
      UpdatesSucceed
      → (now : ℤ) (hb : HeartBeat) (un : UserNode) (w : World E) → 0 < un.id
      → online_in un.id (rows w.users) ≢ none
      → online_in un.id (rows (on_close E now hb un w).users) ≡ some 2
  unfolding on_close save_heart_beat
  on_close-offline S now hb un w k known =
      let known_id : ltb 0 un.id ≡ true = ground arith in
      rw known_id (
        set_online_lem S 2 "" un
          (save_heart_beat E (record hb { off_line_time = now; online_secs = now -ℤ hb.created_at })
            w).1
          (omega arith) known)

  -- Outside a shutdown a user who is greeted is marked online, also where the greeting then fails: the deferred
  -- function that marks the user offline is not yet in place, so the stream ends and the user
  -- stays online.
  pub heart_beat_failed_greeting :
      UpdatesSucceed
      → (send : GetInvoice → Result (Unit {0})) (now later : ℤ) (address : String) (user_id : ℕ)
        (events : List Event) (w : World E) (e : String)
      → let un = user_of E user_id w in
        0 < un.id
        → online_in un.id (rows w.users) ≢ none
        → (greet E send now address user_id un (open_heart_beat E now address user_id w).1).0
          ≡ err e
        → online_in un.id (rows (heart_beat E false send now later address user_id events w).users)
          ≡ some 1
  unfolding heart_beat greet user_of open_heart_beat
  heart_beat_failed_greeting S send now later address user_id events w e k known failed =
      let un = user_of E user_id w in
      let known_id : ltb 0 un.id ≡ true = ground arith in
      let online =
        set_online_lem S 1 address un (open_heart_beat E now address user_id w).1 (omega arith)
          known in
      rw (known_id, heart_beat) (rw (failed, heart_beat) (rw (known_id, on_connect) online))
