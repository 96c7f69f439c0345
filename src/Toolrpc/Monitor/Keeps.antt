-- ===== src/Toolrpc/Monitor/Keeps.antt =====
-- What a loop over subscriptions keeps, since each event keeps it.
use omnicore_proxy.Base.{ℕ, List, [], ◌∷◌, All}
use omnicore_proxy.Toolrpc.Monitor.{
  Session, failed, stream, broken, shut_down, blocked, handle_all, monitor,
}

-- Every event of the subscriptions satisfies a predicate.
abbrev pub AllEvents : {A : Type 0} → (A → Type 0) → List (Session A) → Type 0
AllEvents Q [] = Unit
AllEvents Q (failed e ∷ ss) = AllEvents Q ss
AllEvents Q (stream events how ∷ ss) = All Q events × AllEvents Q ss

module _ {A W T : Type 0} (handle : A → W → W × List T) (Q : A → Type 0) (P : W → Type 0)
    (keeps : (a : A) (w : W) → Q a → P w → P (handle a w).0) where
  handle_all_keeps :
      (events : List A) (w : W) → All Q events → P w → P (handle_all handle events w).0
  unfolding handle_all
  handle_all_keeps [] w q h = h
  handle_all_keeps (a ∷ events) w (q, qs) h =
      handle_all_keeps events (handle a w).0 qs (keeps a w q h)

  -- Where every event that comes satisfies `Q`.
  pub monitor_keeps_each :
      (on_failed on_broken : ℕ) (ss : List (Session A)) (w : W)
      → AllEvents Q ss
      → P w
      → P (monitor handle on_failed on_broken ss w).world
  unfolding monitor
  monitor_keeps_each on_failed on_broken [] w q h = h
  monitor_keeps_each on_failed on_broken (failed e ∷ ss) w q h =
      monitor_keeps_each on_failed on_broken ss w q h
  monitor_keeps_each on_failed on_broken (stream events broken ∷ ss) w (q, qs) h =
      monitor_keeps_each on_failed on_broken ss (handle_all handle events w).0 qs
        (handle_all_keeps events w q h)
  monitor_keeps_each on_failed on_broken (stream events shut_down ∷ ss) w (q, qs) h =
      handle_all_keeps events w q h
  monitor_keeps_each on_failed on_broken (stream events blocked ∷ ss) w (q, qs) h =
      handle_all_keeps events w q h

All-any : {A : Type 0} (xs : List A) → All (λ x. Unit {0}) xs
All-any [] = tt
All-any (x ∷ xs) = (tt, All-any xs)

AllEvents-any : {A : Type 0} (ss : List (Session A)) → AllEvents (λ a. Unit {0}) ss
AllEvents-any [] = tt
AllEvents-any (failed e ∷ ss) = AllEvents-any ss
AllEvents-any (stream events how ∷ ss) = (All-any events, AllEvents-any ss)

module _ {A W T : Type 0} (handle : A → W → W × List T) (P : W → Type 0)
    (keeps : (a : A) (w : W) → P w → P (handle a w).0) where
  pub monitor_keeps :
      (on_failed on_broken : ℕ) (ss : List (Session A)) (w : W)
      → P w
      → P (monitor handle on_failed on_broken ss w).world
  monitor_keeps on_failed on_broken ss w =
      monitor_keeps_each handle (λ a. Unit {0}) P (λ a w q h. keeps a w h) on_failed on_broken ss w
        (AllEvents-any ss)
