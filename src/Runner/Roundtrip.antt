-- ===== src/Runner/Roundtrip.antt =====
-- The client and the server together.
use drover_runner.Daemon.Writer.{write_header}
use drover_runner.Base.{
  if◌then◌else◌, nat_eq, nat_eq_iff, Bool-cases, Option-cases, inl, inr, Text, ◌++◌, lit, eq_refl,
  eq_iff, ◌==◌, ap, sym, ◌∙◌, ℕ, decimal, [], ◌∷◌, ◌<◌, ◌⊎◌, Option, none, some, ◌≡◌, refl, arith,
}
use drover_runner.Host.{ok, err, message, Log}
use drover_runner.Daemon.Types.{ActiveVm, VmInstance, HypervisorDriver}
use drover_runner.Daemon.Table.{load, delete, load-delete}
use drover_runner.Daemon.Server.{
  stopped, Codec, Request, Server, Served, serve_http, instance_of, is_refused,
}
use drover_runner.Daemon.Server.Routing.{instance_path}
use drover_runner.Daemon.Server.Lifecycle.{
  serve_http-get, serve_http-delete_active, IsAdmitted, instance_id-IsSegment,
}
use drover_runner.Daemon.Ids.{instance_id, instance_id_injective}
use drover_runner.Runner.{
  sent, Http, HttpResponse, Adapter, exchange, get_instance, delete_instance, reply, decoded,
}

abbrev pub World : Type 0
World = Server × Log

-- The status that is sent: 200 if the handler sets none.
abbrev pub status_of : Option (ℕ × Option Text) → ℕ
status_of none = 200
status_of (some p) = p.0

-- The path of the instance with a number; it holds no byte that a URL escapes.
abbrev pub path_of : ℕ → Text
path_of n = instance_path (instance_id n)

-- What the server makes of a request without a body, and what the client reads of it.
abbrev pub request_of : Text → ℕ → Text → Request
request_of method n authorization = record {
  method = method;
  path = path_of n;
  authorization = authorization;
  body = [];
}

abbrev pub response_of : Served → HttpResponse
response_of v = record { status = status_of v.writer.sent; body = v.writer.body }

-- The methods of the requests without a body.
abbrev pub IsVerb : Text → Type 0
IsVerb method = (method ≡ lit "GET") ⊎ (method ≡ lit "DELETE")

-- What net/http promises between this client and this server: a GET or DELETE of an instance under
-- the base URL, with the token of the client, is valid and is answered by the server.
pub record IsWired (http : Http World) (a : Adapter) (json : Codec) (driver : HypervisorDriver)
    (token : Text) : Type 0 where
  pub valid :
      (method : Text) (n : ℕ) → IsVerb method → http.invalid method (a.base_url ++ path_of n) ≡ none
  pub served :
      (method : Text) (n : ℕ) (s : Server) (l : Log)
      → IsVerb method
      → let v = serve_http json driver token (request_of method n (lit "Bearer " ++ token)) s l in
        http.send
          (record {
            method = method;
            url = a.base_url ++ path_of n;
            authorization = lit "Bearer " ++ token;
            body = [];
          })
          (s, l)
        ≡ (ok (response_of v), (v.server, v.log))

-- All bytes are ASCII.
abbrev pub IsAscii : Text → Type 0
IsAscii [] = Unit
IsAscii (b ∷ t) = (b < 128) × IsAscii t

abbrev pub IsPlain : VmInstance → Type 0
IsPlain v = IsAscii v.id × IsAscii v.state × IsAscii v.ip

-- What encoding/json promises: an instance whose fields are ASCII is decoded from its own text.
pub record IsDecoded (http : Http World) (json : Codec) : Type 0 where
  pub instance_text :
      (v : VmInstance) → IsPlain v → http.decode_instance (json.encode_instance v) ≡ ok v

-- Ids are compared as their numbers are.
instance_id-test : (n m : ℕ) → (instance_id n == instance_id m) ≡ nat_eq n m
instance_id-test n m = elim (Bool-cases (nat_eq n m)) [
  | inl same ↦
      (eq_iff (instance_id n) (instance_id m)).1 (ap instance_id ((nat_eq_iff n m).0 same))
      ∙ sym same
  | inr other ↦ ground (
    arith,
    other,
    eq_iff (instance_id n) (instance_id m),
    instance_id_injective n m,
    nat_eq_iff n m,
  )
]

request_of-IsAdmitted :
    (token method : Text) (n : ℕ) → IsAdmitted token (request_of method n (lit "Bearer " ++ token))
unfolding is_refused
request_of-IsAdmitted token method n = ground (arith, eq_refl (lit "Bearer " ++ token))

module _ (http : Http World) (a : Adapter) (json : Codec) (driver : HypervisorDriver)
    (w : IsWired http a json driver a.auth_token) where
  abbrev answer : Text → ℕ → Server → Log → Served
  answer method n s l =
      serve_http json driver a.auth_token (request_of method n (lit "Bearer " ++ a.auth_token)) s l

  exchange-served :
      (method : Text) (n : ℕ) (s : Server) (l : Log)
      → IsVerb method
      → exchange http a method (a.base_url ++ path_of n) [] (s, l) ≡ (
        ok (response_of (answer method n s l)),
        ((answer method n s l).server, (answer method n s l).log),
      )
  unfolding exchange sent
  exchange-served method n s l verb =
      rw (exchange, w.valid method n verb, w.served method n s l verb) refl

  -- GetInstance, up to what JSON decodes of the text of the instance.
  pub get_instance-text :
      (n : ℕ) (s : Server) (l : Log)
      → get_instance http a (instance_id n) (s, l) ≡ (
        elim (load (instance_id n) s.vms) [
          | some active ↦
              decoded http a (http.decode_instance (json.encode_instance (instance_of active)))
          | none ↦ err (message (lit "unexpected status code: " ++ decimal 404))
        ],
        (s, l),
      )
  unfolding get_instance reply
  get_instance-text n s l =
      let got : answer (lit "GET") n s l ≡ _ =
        serve_http-get json driver a.auth_token _ (instance_id n) s l
          (request_of-IsAdmitted a.auth_token (lit "GET") n) (instance_id-IsSegment n) refl refl in
      rw (get_instance, exchange-served (lit "GET") n s l (inl refl), got)
        (elim (Option-cases (load (instance_id n) s.vms)) [
          | inl none_there ↦ rw none_there refl
          | inr (active, found) ↦ rw found refl
        ])

  -- A client that has the server's token gets from GetInstance the instance that the table holds
  -- under the id, if there is one and its fields are ASCII, or else, if there is none, the error of
  -- status 404; the server and the host stay as they are. The HTTP library is taken to carry these
  -- requests and their responses unchanged, and JSON to decode what it encoded of ASCII fields.
  pub get_instance-load :
      (n : ℕ) (s : Server) (l : Log)
      → IsDecoded http json
      → ((active : ActiveVm)
          → load (instance_id n) s.vms ≡ some active
          → IsPlain (instance_of active))
      → get_instance http a (instance_id n) (s, l) ≡ (
        elim (load (instance_id n) s.vms) [
          | some active ↦ ok (instance_of active)
          | none ↦ err (message (lit "unexpected status code: " ++ decimal 404))
        ],
        (s, l),
      )
  unfolding decoded
  get_instance-load n s l codes plain =
      rw (get_instance-text n s l) (elim (Option-cases (load (instance_id n) s.vms)) [
        | inl none_there ↦ rw none_there refl
        | inr (active, found) ↦
            rw (found, codes.instance_text (instance_of active) (plain active found)) refl
      ])

  delete_instance-stops :
      (n : ℕ) (s : Server) (l l' : Log) (active : ActiveVm)
      → load (instance_id n) s.vms ≡ some active
      → active.stop l ≡ (ok tt, l')
      → delete_instance http a (instance_id n) (s, l)
        ≡ (ok tt, (record s { vms = delete (instance_id n) s.vms }, l'))
  unfolding delete_instance reply stopped write_header
  delete_instance-stops n s l l' active found stops =
      let gone : answer (lit "DELETE") n s l ≡ _ =
        serve_http-delete_active json driver a.auth_token _ (instance_id n) s l active
          (request_of-IsAdmitted a.auth_token (lit "DELETE") n) (instance_id-IsSegment n) refl refl
          found in
      rw (delete_instance, exchange-served (lit "DELETE") n s l (inr refl), gone, stops) refl

  -- A client that has the server's token deletes an instance of the table whose Stop succeeds; then
  -- GetInstance of the id reports the status 404, and of any other id what it would have reported.
  -- The HTTP library is taken to carry these requests and their responses unchanged.
  pub delete_instance-get_instance :
      (n m : ℕ) (s : Server) (l l' : Log) (active : ActiveVm)
      → load (instance_id n) s.vms ≡ some active
      → active.stop l ≡ (ok tt, l')
      → let r = delete_instance http a (instance_id n) (s, l) in
        (r.0 ≡ ok tt)
        × (r.1 ≡ (record s { vms = delete (instance_id n) s.vms }, l'))
        × ((get_instance http a (instance_id m) r.1).0 ≡ (
            if nat_eq n m
            then err (message (lit "unexpected status code: " ++ decimal 404))
            else (get_instance http a (instance_id m) (s, l)).0))
  delete_instance-get_instance n m s l l' active found stops =
      rw (delete_instance-stops n s l l' active found stops) (
        refl,
        refl,
        rw
            (
              get_instance-text m (record s { vms = delete (instance_id n) s.vms }) l',
              get_instance-text m s l,
              load-delete (instance_id m) (instance_id n) s.vms,
              instance_id-test n m,
            )
            (elim (Bool-cases (nat_eq n m)) [
              | inl same ↦ rw same refl
              | inr other ↦ rw other refl
            ]),
      )
