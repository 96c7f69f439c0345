-- ===== src/Gateway/Cors.antt =====
-- The headers for other origins that `allowCORS` of gateway/handlers.go sets.
use text.Mathlib.TextEquality.{eq_iff}
use omnicore_proxy.Base.{
  ◌≡◌, refl, ◌∙◌, String, str_eq, List, [], ◌∷◌, true, false, not, ◌&&◌, if◌then◌else◌, arith,
  Bool-cases, inl, inr,
}
use omnicore_proxy.Gateway.Handlers.{
  HttpRequest, Response, Handler, set_header, get_header, with_header, preflight_handler,
  allow_cors,
}

str_eq_refl : (s : String) → str_eq s s ≡ true
str_eq_refl s = (eq_iff s s).1 refl

get_header-set_header :
    (k v : String) (hs : List (String × String)) → get_header k (set_header k v hs) ≡ v
unfolding get_header set_header
get_header-set_header k v [] = rw (str_eq_refl k) refl
get_header-set_header k v ((k', v') ∷ hs) =
    ground (arith, str_eq_refl k, get_header-set_header k v hs)

get_header-set_header_other :
    (k k' v : String) (hs : List (String × String))
    → str_eq k' k ≡ false
    → get_header k (set_header k' v hs) ≡ get_header k hs
unfolding get_header set_header
get_header-set_header_other k k' v [] h = rw h refl
get_header-set_header_other k k' v ((k2, v2) ∷ hs) h =
    ground (arith, get_header-set_header_other k k' v hs h, (eq_iff k2 k').0)

abbrev pub allow_origin : String
allow_origin = "Access-Control-Allow-Origin"

preflight_handler-allow_origin :
    (w : Response)
    → get_header allow_origin (preflight_handler w).headers ≡ get_header allow_origin w.headers
unfolding preflight_handler with_header
preflight_handler-allow_origin w =
    get_header-set_header_other allow_origin "Access-Control-Allow-Methods"
      "GET,HEAD,POST,PUT,DELETE" _ refl
    ∙ get_header-set_header_other allow_origin "Access-Control-Allow-Headers"
        "Content-Type,Accept,Authorization" _ refl

-- Any origin is allowed: the response to a request with an origin names that very origin, whatever
-- the path, the method and the inner handler, unless the inner handler sets that header itself.
-- Without an origin the header is the one that the response had.
allow_cors-any_origin :
    (h : Handler) (r : HttpRequest) (w : Response)
    → ((u : Response) → get_header allow_origin (h r u).headers ≡ get_header allow_origin u.headers)
    → get_header allow_origin (allow_cors h r w).headers
      ≡ (if str_eq r.origin "" then get_header allow_origin w.headers else r.origin)
unfolding allow_cors with_header
allow_cors-any_origin h r w keeps =
    let w' = with_header allow_origin r.origin w in
    let named = get_header-set_header allow_origin r.origin w.headers in
    elim (Bool-cases (str_eq r.origin "")) [
      | inl none ↦ rw none (keeps w)
      | inr some ↦
          elim (Bool-cases (str_eq r.method "OPTIONS" && not (str_eq r.request_method ""))) [
            | inl ask ↦ rw (some, ask) (preflight_handler-allow_origin w' ∙ named)
            | inr other ↦ rw (some, other) (keeps w' ∙ named)
          ]
    ]
