-- ===== src/Gateway/Handlers.antt =====
-- gateway/handlers.go: the handlers in front of the generated gateway, with the parts of `net/http`
-- that they call.
use omnicore_proxy.Base.{
  ℕ, String, ◌<>◌, str_eq, starts_with, List, [], ◌∷◌, ◌++◌, Bool, false, not, ◌&&◌, ◌||◌, ◌==◌,
  if◌then◌else◌, Option, none, some,
}
use Prim.Native.Char.{code}
use omnicore_proxy.Base.Paths.{join, onto_first}

-- The parts of a request that the handlers read: a header that is absent is empty.
pub record HttpRequest : Type 0 where
  pub method : String
  pub path : String
  pub origin : String
  pub request_method : String

-- A response: the headers that are set, the status, and the texts written.
pub record Response : Type 0 where
  pub headers : List (String × String)
  pub status : ℕ
  pub body : List String

-- What a handler gets: nothing is set, and the status is the one of a first write.
abbrev pub empty_response : Response
empty_response = record { headers = []; status = 200; body = [] }

abbrev pub Handler : Type 0
Handler = HttpRequest → Response → Response

-- `w.Header().Set` and a lookup. The names that the code writes are in canonical form.
unfoldable pub set_header : String → String → List (String × String) → List (String × String)
set_header k v [] = (k, v) ∷ []
set_header k v ((k', v') ∷ hs) = if str_eq k' k then (k, v) ∷ hs else (k', v') ∷ set_header k v hs

unfoldable pub get_header : String → List (String × String) → String
get_header k [] = ""
get_header k ((k', v) ∷ hs) = if str_eq k' k then v else get_header k hs

unfoldable pub with_header : String → String → Response → Response
unfolding set_header
with_header k v w = record w { headers = set_header k v w.headers }

-- `http.Error`
unfoldable pub http_error : String → ℕ → Response → Response
unfolding with_header
http_error text code w =
    let w' =
      with_header "X-Content-Type-Options" "nosniff"
        (with_header "Content-Type" "text/plain; charset=utf-8" w) in
    record w' { status = code; body = w'.body ++ (text <> "\n") ∷ [] }

-- `http.NotFound`
unfoldable pub not_found : Response → Response
unfolding http_error
not_found w = http_error "404 page not found" 404 w

-- `strings.HasSuffix`
unfoldable pub has_suffix : String → String → Bool
has_suffix String.[] suffix = str_eq String.[] suffix
has_suffix (String.◌∷◌ c s) suffix = str_eq (String.◌∷◌ c s) suffix || has_suffix s suffix

-- `strings.TrimPrefix`
unfoldable pub drop : String → String → String
drop String.[] s = s
drop (String.◌∷◌ c p) String.[] = String.[]
drop (String.◌∷◌ c p) (String.◌∷◌ d s) = drop p s

unfoldable pub trim_prefix : String → String → String
unfolding drop
trim_prefix s prefix = if starts_with s prefix then drop prefix s else s

-- What `openAPIServer` does with a path: no file of the API, or the file of that name.
unfoldable pub open_api_file : String → String → Option String
unfolding has_suffix trim_prefix join
open_api_file dir path =
    if not (has_suffix path ".swagger.json")
    then none
    else some (join dir (trim_prefix path "/openapiv2/"))

-- `preflightHandler`
unfoldable pub preflight_handler : Response → Response
unfolding with_header
preflight_handler w =
    with_header "Access-Control-Allow-Methods" "GET,HEAD,POST,PUT,DELETE"
      (with_header "Access-Control-Allow-Headers" "Content-Type,Accept,Authorization" w)

-- `allowCORS`
unfoldable pub allow_cors : Handler → Handler
unfolding with_header preflight_handler
allow_cors h r w =
    let w' = with_header "Access-Control-Allow-Origin" r.origin w in
    if str_eq r.origin ""
    then h r w
    else if str_eq r.method "OPTIONS" && not (str_eq r.request_method "")
    then preflight_handler w'
    else h r w'

-- `healthzServer`, for the state of the connection that the library reports.
unfoldable pub healthz_server : String → Handler
unfolding with_header http_error
healthz_server state r w =
    let w' = with_header "Content-Type" "text/plain" w in
    if str_eq state "READY"
    then record w' { body = w'.body ++ "ok\n" ∷ [] }
    else http_error ("grpc server is " <> state) 502 w'

-- The segments of a path between slashes of both kinds.
unfoldable pub segments_both : String → List String
segments_both String.[] = String.[] ∷ []
segments_both (String.◌∷◌ c s) =
    if code c == 47 || code c == 92
    then String.[] ∷ segments_both s
    else onto_first c (segments_both s)

unfoldable pub leads_back : List String → Bool
leads_back [] = false
leads_back (s ∷ ss) = str_eq s ".." || leads_back ss

-- `http.ServeFile` refuses a path with a ".." in it; the file system is a parameter.
module _ (send_file : String → Response → Response) where
  unfoldable pub serve_file : HttpRequest → String → Response → Response
  unfolding leads_back segments_both http_error
  serve_file r name w =
      if leads_back (segments_both r.path)
      then http_error "invalid URL path" 400 w
      else send_file name w

  -- `openAPIServer`
  unfoldable pub open_api_server : String → Handler
  unfolding open_api_file serve_file not_found
  open_api_server dir r w = elim (open_api_file dir r.path) [
    | none ↦ not_found w
    | some name ↦ serve_file r name w
  ]

  -- The handler of `Run`: `http.ServeMux` takes the longest pattern that fits. A path that it would
  -- clean is not modelled: it answers those with a redirect.
  unfoldable pub routes : String → String → Handler → Handler
  unfolding open_api_server healthz_server
  routes dir state gw r w =
      if starts_with r.path "/openapiv2/"
      then open_api_server dir r w
      else if str_eq r.path "/healthz"
      then healthz_server state r w
      else gw r w
