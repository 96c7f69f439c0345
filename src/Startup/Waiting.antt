-- ===== src/Startup/Waiting.antt =====
-- The loop of `NewLuckPkServer` in toolrpc/luckPk.go that waits for the node.
use omnicore_proxy.Base.{
  ℕ, zero, suc, ◌+◌, ◌≤◌, ◌<◌, ◌≡◌, subst, String, some, ok, err, arith, Result-cases, inl, inr,
  sym, ◌↔◌, ◌⊎◌,
}
use omnicore_proxy.Startup.{Host, wait_node}

==_cases : (a b : ℕ) → (a ≡ b) ⊎ ((a < b) ⊎ (b < a))
==_cases a b = ground arith

module _ (H : Host) where
  -- The node answers first at the call `t + k`.
  record IsOnlineAfter (k t : ℕ) (c : H.LndClient) : Type 0 where
    answers : H.lnd_client (t + k) ≡ ok c
    offline : (j : ℕ) → j < k → (e : String) × (H.lnd_client (t + j) ≡ err e)

  wait_node-IsOnlineAfter :
      (fuel k t : ℕ) (c : H.LndClient)
      → IsOnlineAfter k t c
      → k < fuel
      → wait_node H fuel t ≡ some (c, t + k)
  unfolding wait_node
  wait_node-IsOnlineAfter zero k t c i h = absurd (omega arith)
  wait_node-IsOnlineAfter (suc fuel) zero t c i h =
      let here : H.lnd_client t ≡ ok c =
        subst (λ n. H.lnd_client n ≡ ok c) (omega arith) i.answers in
      rw (here, wait_node) (ground arith)
  wait_node-IsOnlineAfter (suc fuel) (suc k) t c i h =
      let (e, failed) = i.offline 0 (omega arith) in
      let first : H.lnd_client t ≡ err e =
        subst (λ n. H.lnd_client n ≡ err e) (omega arith) failed in
      let later : IsOnlineAfter k (t + 1) c = record {
        answers = subst (λ n. H.lnd_client n ≡ ok c) (omega arith) i.answers;
        offline = λ j less.
            let (e', f) = i.offline (j + 1) (omega arith) in
            (e', subst (λ n. H.lnd_client n ≡ err e') (omega arith) f);
      } in
      rw (first, wait_node)
        (ground (arith, wait_node-IsOnlineAfter fuel k (t + 1) c later (omega arith)))

  wait_node-first :
      (fuel t n : ℕ) (c : H.LndClient)
      → wait_node H fuel t ≡ some (c, n)
      → (t ≤ n)
        × (n < t + fuel)
        × (H.lnd_client n ≡ ok c)
        × ((j : ℕ) → t ≤ j → j < n → (e : String) × (H.lnd_client j ≡ err e))
  unfolding wait_node
  wait_node-first zero t n c h = ground arith
  wait_node-first (suc fuel) t n c h = elim (Result-cases (H.lnd_client t)) [
    | inl (c', here) ↦ (ground arith, ground arith, ground arith, λ j a b. ground arith)
    | inr (e, here) ↦
        let (a, b, answers, failed) = wait_node-first fuel (t + 1) n c (ground arith) in
        (
          omega arith,
          omega arith,
          answers,
          λ j from to. elim (==_cases j t) [
            | inl same ↦ (e, subst (λ m. H.lnd_client m ≡ err e) (sym same) here)
            | inr other ↦ failed j (omega arith) to
          ],
        )
  ]

  -- The loop returns a client behind `k` failures, on fuel above `k`, exactly when the call `k` of
  -- `GetLndClient` gives that client and every call in front of it fails: it ends when the node
  -- comes online, and not before.
  pub wait_node_returns :
      (fuel k : ℕ) (c : H.LndClient)
      → (wait_node H fuel 0 ≡ some (c, k)) ↔ (
          (k < fuel)
          × (H.lnd_client k ≡ ok c)
          × ((j : ℕ) → j < k → (e : String) × (H.lnd_client j ≡ err e)))
  wait_node_returns fuel k c = (
    λ h.
        let (a, b, answers, failed) = wait_node-first fuel 0 k c h in
        (omega arith, answers, λ j less. failed j (omega arith) less),
    λ (h, answers, offline).
        let i : IsOnlineAfter k 0 c = record {
          answers = subst (λ n. H.lnd_client n ≡ ok c) (omega arith) answers;
          offline = λ j less.
              let (e, f) = offline j less in
              (e, subst (λ n. H.lnd_client n ≡ err e) (omega arith) f);
        } in
        ground (arith, wait_node-IsOnlineAfter fuel k 0 c i h),
  )
