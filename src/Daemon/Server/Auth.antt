-- ===== src/Daemon/Server/Auth.antt =====
-- Authentication, and the header of every response.
use drover_runner.Base.{
  Text, ◌++◌, lit, eq_iff, strip_prefix, split, ℕ, List, [], ◌∷◌, true, Option, none, some, ◌≡◌,
  ◌≢◌, ◌↔◌, ◌⊎◌, arith,
}
use drover_runner.Host.{Log}
use drover_runner.Daemon.Types.{HypervisorDriver}
use drover_runner.Daemon.Writer.{Writer}
use drover_runner.Daemon.Server.{
  Codec, Request, Server, Served, is_refused, serve_http, route, handle_create_instance,
  handle_get_instance, handle_delete_instance, handle_get_instance_logs, serve_parts, serve_below,
}

-- A request is refused exactly when a token is configured and the header does not carry it.
pub is_refused_iff :
    (token : Text) (r : Request)
    → (is_refused token r ≡ true) ↔ ((token ≢ []) × (r.authorization ≢ lit "Bearer " ++ token))
unfolding is_refused
is_refused_iff token r =
    ground (arith, eq_iff token [], eq_iff r.authorization (lit "Bearer " ++ token))

abbrev pub json_type : Option Text
json_type = some (lit "application/json")

-- Sent, as JSON, with a status that is not 401.
abbrev pub IsAnswer : Option (ℕ × Option Text) → Type 0
IsAnswer none = ⊥
IsAnswer (some (code, t)) = (code ≢ 401) × (t ≡ json_type)

-- A writer whose content type is set and to which nothing was written.
abbrev pub ready : Writer
ready = record { content_type = json_type; sent = none; body = [] }

module _ (json : Codec) (driver : HypervisorDriver) (s : Server) (l : Log) where
  abbrev pub Answers : Served → Type 0
  Answers v = IsAnswer v.writer.sent

  handle_create-Answers : (r : Request) → Answers (handle_create_instance json driver r s ready l)
  unfolding handle_create_instance
  handle_create-Answers r = ground arith

  handle_get-Answers : (id : Text) → Answers (handle_get_instance json driver id s ready l)
  unfolding handle_get_instance
  handle_get-Answers id = ground arith

  handle_delete-Answers : (id : Text) → Answers (handle_delete_instance json driver id s ready l)
  unfolding handle_delete_instance
  handle_delete-Answers id = ground arith

  handle_logs-Answers : (id : Text) → Answers (handle_get_instance_logs json driver id s ready l)
  unfolding handle_get_instance_logs
  handle_logs-Answers id = ground arith

  serve_parts-Answers :
      (parts : List Text) (method : Text) → Answers (serve_parts json driver parts method s ready l)
  unfolding serve_parts
  serve_parts-Answers [] method = ground arith
  serve_parts-Answers (id ∷ []) method =
      ground (arith, handle_get-Answers id, handle_delete-Answers id)
  serve_parts-Answers (id ∷ part ∷ []) method = ground (arith, handle_logs-Answers id)
  serve_parts-Answers (id ∷ part ∷ p ∷ ps) method = ground arith

  serve_below-Answers :
      (rest : Option Text) (method : Text) → Answers (serve_below json driver rest method s ready l)
  unfolding serve_below
  serve_below-Answers none method = ground arith
  serve_below-Answers (some rest) method = serve_parts-Answers (split b'/' rest) method

  route-Answers : (r : Request) → Answers (route json driver r s ready l)
  unfolding route
  route-Answers r = ground (
    arith,
    handle_create-Answers r,
    serve_below-Answers (strip_prefix (lit "/v1/instances/") r.path) r.method,
  )

  -- With a token that the header does not carry, a request changes neither the server nor the
  -- host, and is answered by 401 with no content type of its own, though the code goes on to set
  -- one. Any other request is answered as JSON, by another status.
  pub serve_http-Auth :
      (token : Text) (r : Request)
      → ((token ≢ [])
          × (r.authorization ≢ lit "Bearer " ++ token)
          × ((serve_http json driver token r s l).server ≡ s)
          × ((serve_http json driver token r s l).log ≡ l)
          × ((serve_http json driver token r s l).writer.sent ≡ some (401, none)))
        ⊎ (((token ≡ []) ⊎ (r.authorization ≡ lit "Bearer " ++ token))
            × Answers (serve_http json driver token r s l))
  unfolding serve_http
  serve_http-Auth token r =
      ground
        (arith, eq_iff token [], eq_iff r.authorization (lit "Bearer " ++ token), route-Answers r)
