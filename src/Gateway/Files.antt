-- ===== src/Gateway/Files.antt =====
-- Which files `openAPIServer` of gateway/handlers.go serves.
use text.Mathlib.TextLemmas.{cons-append, nil-append, append_assoc}
use text.Mathlib.TextEquality.{starts_with_iff}
use omnicore_proxy.Base.{
  ◌≡◌, ◌⊎◌, inl, inr, refl, sym, ap, subst, ◌∙◌, String, ◌<>◌, str_eq, eq_iff, starts_with, [],
  true, false, some, Bool-cases,
}
use omnicore_proxy.Base.Paths.{
  segments, join, clean, printed, is_rooted, clean_onto, named, reversed_onto, IsForward,
  segments-slash, is_rooted-slash, clean_onto-append, clean_onto-forward,
}
use omnicore_proxy.Gateway.Slashes.{
  leads_back-IsForward, segments_both-IsForward, true_is_not_false,
}
use omnicore_proxy.Gateway.Handlers.{
  HttpRequest, Response, http_error, not_found, has_suffix, trim_prefix, drop, open_api_file,
  segments_both, leads_back, serve_file, open_api_server,
}

-- The file that a path below the pattern names.
abbrev pub file_below : String → String → String
file_below dir rest =
    printed (is_rooted dir)
      (reversed_onto (clean_onto (is_rooted dir) [] (segments dir)) (named (segments rest)))

join-below :
    (dir rest : String)
    → str_eq dir "" ≡ false
    → str_eq rest "" ≡ false
    → IsForward (segments rest)
    → join dir rest ≡ file_below dir rest
unfolding join clean
join-below dir rest d r h =
    let rooted = is_rooted dir in
    let start = clean_onto rooted [] (segments dir) in
    rw
      (
        d,
        r,
        is_rooted-slash dir ("/" <> rest) d,
        segments-slash dir rest,
        clean_onto-append rooted [] (segments dir) (segments rest),
        clean_onto-forward rooted start (segments rest) h,
      )
      refl

drop-append : (p s : String) → drop p (p <> s) ≡ s
unfolding drop
drop-append String.[] s = rw (nil-append s) refl
drop-append (String.◌∷◌ c p) s = rw (cons-append c p s) (drop-append p s)

segments-openapi :
    (rest : String) → IsForward (segments ("/openapiv2/" <> rest)) → IsForward (segments rest)
unfolding segments
segments-openapi rest h =
    let split = subst (λ p. IsForward (segments p)) (append_assoc "/openapiv2" "/" rest) h in
    let parts = subst IsForward (segments-slash "/openapiv2" rest) split in parts.1.1

open_api_file-swagger :
    (dir path : String)
    → has_suffix path ".swagger.json" ≡ true
    → open_api_file dir path ≡ some (join dir (trim_prefix path "/openapiv2/"))
unfolding open_api_file
open_api_file-swagger dir path h = rw h refl

trim_prefix-below :
    (rest path : String)
    → starts_with path "/openapiv2/" ≡ true
    → path ≡ "/openapiv2/" <> rest
    → trim_prefix path "/openapiv2/" ≡ rest
unfolding trim_prefix
trim_prefix-below rest path s e = rw s (ap (drop "/openapiv2/") e ∙ drop-append "/openapiv2/" rest)

module _ (send_file : String → Response → Response) (dir : String) where
  open_api_server_none :
      (r : HttpRequest) (w : Response)
      → has_suffix r.path ".swagger.json" ≡ false
      → open_api_server send_file dir r w ≡ not_found w
  unfolding open_api_server open_api_file
  open_api_server_none r w e = rw (e, open_api_server) refl

  open_api_server-swagger :
      (r : HttpRequest) (w : Response) (name : String)
      → open_api_file dir r.path ≡ some name
      → open_api_server send_file dir r w ≡ serve_file send_file r name w
  unfolding open_api_server
  open_api_server-swagger r w name e = rw (e, open_api_server) refl

  -- With a directory that is not empty, below the pattern "/openapiv2/", the server answers 404 or 400, or it sends a file whose name
  -- is the directory of the API, cleaned, followed by the segments of the path that name something:
  -- none of them leads back, whatever slashes the path has.
  pub open_api_server-confined :
      (r : HttpRequest) (w : Response)
      → str_eq dir "" ≡ false
      → starts_with r.path "/openapiv2/" ≡ true
      → (open_api_server send_file dir r w ≡ not_found w)
        ⊎ (open_api_server send_file dir r w ≡ http_error "invalid URL path" 400 w)
        ⊎ ((rest : String) × (r.path ≡ "/openapiv2/" <> rest)
            × IsForward (segments rest)
            × (open_api_server send_file dir r w ≡ send_file (file_below dir rest) w))
  unfolding has_suffix serve_file http_error
  open_api_server-confined r w d s =
      let (rest, e) = (starts_with_iff r.path "/openapiv2/").0 s in
      let at = sym e in
      let served = λ (swagger : has_suffix r.path ".swagger.json" ≡ true).
        open_api_server-swagger r w _ (open_api_file-swagger dir r.path swagger) in
      elim (Bool-cases (has_suffix r.path ".swagger.json")) [
        | inr other ↦ inl (open_api_server_none r w other)
        | inl swagger ↦ elim (Bool-cases (leads_back (segments_both r.path))) [
          | inl back ↦ inr (inl (rw (served swagger, serve_file, back) refl))
          | inr on ↦
              let forward = segments-openapi rest (
                subst (λ p. IsForward (segments p)) at
                  (segments_both-IsForward r.path
                    (leads_back-IsForward (segments_both r.path) on))) in
              elim (Bool-cases (str_eq rest "")) [
                | inl nothing ↦ absurd (
                    true_is_not_false (
                      sym swagger
                      ∙ ap (λ p. has_suffix p ".swagger.json")
                          (at ∙ ap (λ t. "/openapiv2/" <> t) ((eq_iff rest "").0 nothing))))
                | inr something ↦ inr (
                    inr (
                      rest,
                      at,
                      forward,
                      rw
                          (
                            served swagger,
                            serve_file,
                            on,
                            trim_prefix-below rest r.path s at,
                            join-below dir rest d something forward,
                          )
                          refl,
                    ))
              ]
        ]
      ]
