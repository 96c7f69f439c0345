-- ===== src/WhitelistProxy/Retry/Reference.antt =====
-- `rawRequest` of whitelist_proxy/whitelist_proxy.go against a description of what it gives.
use omnicore_proxy.Base.{
  ℕ, zero, suc, ◌+◌, ◌<◌, ◌≡◌, ◌⊎◌, refl, ap, subst, ◌<>◌, String, List, Option, none, some, Result,
  ok, err, map_err, arith, Option-cases, inl, inr, sym, ◌∙◌,
}
use omnicore_proxy.Base.Text.{itoa}
use omnicore_proxy.WhitelistProxy.{
  Request, Backend, HttpResponse, Done, responded, failed, raw_request, forwarded, tries, next_id,
}
use omnicore_proxy.WhitelistProxy.Retry.{
  Fail, IsWritten, raw_request_first_response, raw_request_exhausted,
}

-- The first response among `n` attempts from `i` on.
abbrev pub first_response : (ℕ → Done) → ℕ → ℕ → Option HttpResponse
first_response send zero i = none
first_response send (suc n) i =
    let rest = first_response send n (i + 1) in
    elim (send i) [ responded response ↦ some response | failed e beside ↦ rest ]

-- The error of an attempt that failed.
abbrev pub error_at : (ℕ → Done) → ℕ → String
error_at send t = elim (send t) [ responded response ↦ "" | failed e beside ↦ e ]

-- The response beside that error.
abbrev pub beside_at : (ℕ → Done) → ℕ → Option HttpResponse
beside_at send t = elim (send t) [ responded response ↦ none | failed e beside ↦ beside ]

Done-cases :
    (d : Done)
    → ((r : HttpResponse) × (d ≡ responded r))
      ⊎ ((e : String) × (b : Option HttpResponse) × (d ≡ failed e b))
Done-cases (responded r) = inl (r, refl)
Done-cases (failed e b) = inr (e, b, refl)

absent_or_not : {r : HttpResponse} → some r ≡ none → ⊥
absent_or_not h = ground arith

some_injective : {r q : HttpResponse} → some r ≡ some q → r ≡ q
some_injective h = ground arith

error_at-failed :
    (send : ℕ → Done) (t : ℕ) (e : String) (b : Option HttpResponse)
    → send t ≡ failed e b
    → send t ≡ failed (error_at send t) (beside_at send t)
error_at-failed send t e b h = rw (h, error_at, beside_at) refl

module _ (B : Backend) (req : Request) (bytes : List ℕ) where
  abbrev sent : ℕ → Done
  sent t = B.send t bytes

  now_of :
      (n i : ℕ) (r : HttpResponse) → sent i ≡ responded r → first_response sent (suc n) i ≡ some r
  now_of n i r h = rw (h, first_response) refl

  rest_of :
      (n i : ℕ) (e : String) (b : Option HttpResponse)
      → sent i ≡ failed e b
      → first_response sent n (i + 1) ≡ first_response sent (suc n) i
  rest_of n i e b h = rw (h, first_response) refl

  first_of :
      (n i : ℕ) (r response : HttpResponse)
      → sent i ≡ responded r
      → first_response sent (suc n) i ≡ some response
      → r ≡ response
  first_of n i r response here h = some_injective (sym (now_of n i r here) ∙ h)

  first_response_found :
      (n i : ℕ) (response : HttpResponse)
      → first_response sent n i ≡ some response
      → (k : ℕ) × (k < n)
        × Fail B req bytes (error_at sent) (beside_at sent) i k
        × (sent (i + k) ≡ responded response)
  first_response_found zero i response h = ground arith
  first_response_found (suc n) i response h = elim (Done-cases (sent i)) [
    | inl (r, here) ↦
        let now : sent i ≡ responded response =
          here ∙ ap responded (first_of n i r response here h) in
        (0, omega arith, tt, subst (λ m. sent m ≡ responded response) (omega arith) now)
    | inr (e, b, bad) ↦
        let (k, less, fails, found) =
          first_response_found n (i + 1) response (rest_of n i e b bad ∙ h) in
        (
          suc k,
          omega arith,
          (error_at-failed sent i e b bad, fails),
          subst (λ m. sent m ≡ responded response) (omega arith) found,
        )
  ]

  first_response_absent :
      (n i : ℕ)
      → first_response sent n i ≡ none
      → Fail B req bytes (error_at sent) (beside_at sent) i n
  first_response_absent zero i h = tt
  first_response_absent (suc n) i h = elim (Done-cases (sent i)) [
    | inl (r, here) ↦ absurd (absent_or_not (sym (now_of n i r here) ∙ h))
    | inr (e, b, bad) ↦
        (error_at-failed sent i e b bad, first_response_absent n (i + 1) (rest_of n i e b bad ∙ h))
  ]

module _ (B : Backend) (req : Request) (reqid : ℕ) (bytes : List ℕ) where
  -- What `rawRequest` is to give: the bytes of the first response without an error within ten
  -- attempts; where there is none, those of the response beside the error of the tenth; where that
  -- has none either, a failure that names the error of the ninth.
  abbrev pub first_response_or_error : Result (List ℕ)
  first_response_or_error = elim (first_response (λ t. B.send t bytes) tries 0) [
    | some response ↦ map_err (λ e. "error reading json reply: " <> e) response
    | none ↦ elim (beside_at (λ t. B.send t bytes) 9) [
      | some response ↦ map_err (λ e. "error reading json reply: " <> e) response
      | none ↦ err (
          "invalid http POST response (nil), method: "
          <> req.method
          <> ", id: "
          <> itoa (next_id reqid)
          <> ", last error="
          <> error_at (λ t. B.send t bytes) 8)
    ]
  ]

  -- A request that can be marshalled and made gives the bytes of the first response that comes
  -- without an error within ten attempts; when there is none, those of the response beside the error
  -- of the tenth attempt; when that has none, a failure with the error of the ninth. Where reading
  -- the response fails, it gives that error.
  pub raw_request-first_response :
      B.marshal (forwarded B reqid req) ≡ ok bytes
      → B.new_request bytes ≡ ok tt
      → (raw_request B req reqid).0 ≡ first_response_or_error
  raw_request-first_response marshalled made =
      let req' = forwarded B reqid req in
      let send : ℕ → Done = λ t. B.send t bytes in
      let W : IsWritten B req' bytes (error_at send) (beside_at send) = record {
        marshalled = marshalled;
        made = made;
      } in
      elim (Option-cases (first_response send tries 0)) [
        | inl absent ↦
            let fails = first_response_absent B req' bytes tries 0 absent in
            rw (absent, first_response_or_error)
              (raw_request_exhausted B req reqid bytes (error_at send) (beside_at send) W fails).1
        | inr (response, first) ↦
            let (k, less, fails, found) =
              first_response_found B req' bytes tries 0 response first in
            let now : B.send k bytes ≡ responded response =
              subst (λ n. B.send n bytes ≡ responded response) (omega arith) found in
            rw (first, first_response_or_error)
              (raw_request_first_response B req reqid bytes (error_at send) (beside_at send) W k
                response less fails now)
      ]
