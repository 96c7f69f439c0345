-- ===== src/WhitelistProxy/Retry.antt =====
-- The retry loop of `rawRequest` in whitelist_proxy/whitelist_proxy.go, against the outcomes of
-- the attempts.
pub mod Reference
use omnicore_proxy.Base.{
  ℕ, zero, suc, ◌+◌, ◌<◌, ◌≡◌, refl, ap, subst, ◌<>◌, String, List, Option, none, some, ok, err,
  map_err, arith, Option-cases, inl, inr,
}
use native.Mathlib.Nat.{add-zero}
use omnicore_proxy.Base.Text.{itoa}
use omnicore_proxy.WhitelistProxy.{
  Request, Backend, HttpResponse, responded, failed, backoff, retry, raw_request, forwarded, tries,
  next_id,
}

-- The milliseconds waited behind `k` failed attempts from the attempt `i` on.
waits : ℕ → ℕ → ℕ
unfolding backoff
waits i zero = 0
waits i (suc k) = backoff i + waits (i + 1) k

module _ (B : Backend) (req : Request) (bytes : List ℕ) (error_of : ℕ → String)
    (beside : ℕ → Option HttpResponse) where
  -- The attempts from `i` on, `k` of them, reach the node with these bytes and fail.
  abbrev pub Fail : ℕ → ℕ → Type 0
  Fail i zero = Unit
  Fail i (suc k) = (B.send i bytes ≡ failed (error_of i) (beside i)) × Fail (i + 1) k

  -- The request can be marshalled and made.
  pub record IsWritten : Type 0 where
    pub marshalled : B.marshal req ≡ ok bytes
    pub made : B.new_request bytes ≡ ok tt

  -- The error saved by the attempts before the one at `i + k`.
  abbrev saved : ℕ → ℕ → String → String
  saved i zero last = last
  saved i (suc k) last = error_of (i + k)

  saved-suc : (i k : ℕ) (last : String) → saved (i + 1) k (error_of i) ≡ saved i (suc k) last
  saved-suc i zero last = ap error_of (omega arith)
  saved-suc i (suc k) last = ap error_of (omega arith)

  retry-success :
      IsWritten
      → (k left i : ℕ) (response : HttpResponse) (last : String) (waited : ℕ) → k < left
      → Fail i k
      → B.send (i + k) bytes ≡ responded response
      → retry B left i req last waited
        ≡ ok (record {
          response = some response;
          last_err = saved i k last;
          attempts = i + k + 1;
          waited = waited + waits i k;
        })
  unfolding retry waits
  retry-success W zero zero i response last waited h f s = elim h [ ]
  retry-success W (suc k) zero i response last waited h f s = elim h [ ]
  retry-success W zero (suc left) i response last waited h f s =
      let here : B.send i bytes ≡ responded response =
        subst (λ n. B.send n bytes ≡ responded response) (add-zero i) s in
      rw (W.marshalled, retry) (rw (W.made, retry) (rw (here, retry) (ground arith)))
  retry-success W (suc k) (suc left) i response last waited h f s =
      let later : B.send (i + 1 + k) bytes ≡ responded response =
        subst (λ n. B.send n bytes ≡ responded response) (omega arith) s in
      let rest =
        retry-success W k left (i + 1) response (error_of i) (waited + backoff i) (omega arith) f.1
          later in
      rw (W.marshalled, retry)
        (rw (W.made, retry) (rw (f.0, retry) (ground (arith, rest, saved-suc i k last))))

  retry_fails :
      IsWritten
      → (k i : ℕ) (last : String) (waited : ℕ) → Fail i (suc k)
      → retry B (suc k) i req last waited
        ≡ ok (record {
          response = beside (i + k);
          last_err = saved i k last;
          attempts = i + k + 1;
          waited = waited + waits i k;
        })
  unfolding retry waits
  retry_fails W zero i last waited f =
      rw (W.marshalled, retry) (rw (W.made, retry) (rw (f.0, retry) (ground arith)))
  retry_fails W (suc k) i last waited f =
      let rest = retry_fails W k (i + 1) (error_of i) (waited + backoff i) f.1 in
      rw (W.marshalled, retry)
        (rw (W.made, retry) (rw (f.0, retry) (ground (arith, rest, saved-suc i k last))))

module _ (B : Backend) (req : Request) (reqid : ℕ) (bytes : List ℕ) (error_of : ℕ → String)
    (beside : ℕ → Option HttpResponse) where
  -- With fewer than ten failures in front, the first response ends the loop: `rawRequest` gives
  -- the bytes of that response, or the error of reading them, and no later attempt matters.
  pub raw_request_first_response :
      IsWritten B (forwarded B reqid req) bytes error_of beside
      → (k : ℕ) (response : HttpResponse) → k < tries
      → Fail B (forwarded B reqid req) bytes error_of beside 0 k
      → B.send k bytes ≡ responded response
      → (raw_request B req reqid).0 ≡ map_err (λ e. "error reading json reply: " <> e) response
  unfolding raw_request
  raw_request_first_response W k response h f s =
      rw
        (retry-success B (forwarded B reqid req) bytes error_of beside W k tries 0 response "<nil>"
          0 h f (subst (λ n. B.send n bytes ≡ responded response) (omega arith) s))
        refl

  -- When all ten attempts fail, the loop has waited 22.5 seconds and ends with what stands beside
  -- the error of the tenth. Where that is no response, `rawRequest` fails with the message for an
  -- absent response: it names the error of the ninth attempt, and the error of the tenth is lost.
  -- Where it is a response, `rawRequest` gives its bytes, or the error of reading them.
  pub raw_request_exhausted :
      IsWritten B (forwarded B reqid req) bytes error_of beside
      → Fail B (forwarded B reqid req) bytes error_of beside 0 tries
      → (retry B tries 0 (forwarded B reqid req) "<nil>" 0
          ≡ ok (record {
            response = beside 9;
            last_err = error_of 8;
            attempts = 10;
            waited = 22500;
          }))
        × ((raw_request B req reqid).0 ≡ elim (beside 9) [
          | some response ↦ map_err (λ e. "error reading json reply: " <> e) response
          | none ↦ err (
              "invalid http POST response (nil), method: "
              <> req.method
              <> ", id: "
              <> itoa (next_id reqid)
              <> ", last error="
              <> error_of 8)
        ])
  unfolding raw_request waits
  raw_request_exhausted W f =
      let e = retry_fails B (forwarded B reqid req) bytes error_of beside W 9 0 "<nil>" 0 f in
      (
        e,
        elim (Option-cases (beside 9)) [
          | inl absent ↦ rw (e, raw_request, absent) refl
          | inr (response, there) ↦ rw (e, raw_request, there) refl
        ],
      )
