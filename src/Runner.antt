-- ===== src/Runner.antt =====
-- pkg/runner/sandbox.go: the client of the REST server. Its types VMConfig and VMInstance have the
-- fields of the server's, which stand for both. net/http and encoding/json are parameters.
pub mod Roundtrip
pub mod Creation
use drover_runner.Base.{
  Text, ◌++◌, lit, ℕ, nat_eq, decimal, List, [], Bool, ◌||◌, if◌then◌else◌, Option, none, some,
}
use drover_runner.Host.{Result, ok, err, Error, wrap, message}
use drover_runner.Daemon.Types.{VmConfig, VmInstance}

-- A request as it is sent, and what is read of a response.
pub record HttpRequest : Type 0 where
  pub method : Text
  pub url : Text
  pub authorization : Text
  pub body : Text

pub record HttpResponse : Type 0 where
  pub status : ℕ
  pub body : Text

-- The libraries, over a state of the world: the error of http.NewRequestWithContext, if there is
-- one, client.Do, and the JSON of the types that are sent.
pub record Http (W : Type 0) : Type 0 where
  pub invalid : Text → Text → Option Error
  pub send : HttpRequest → W → Result HttpResponse × W
  pub marshal_config : VmConfig → Result Text
  pub decode_instance : Text → Result VmInstance
  pub decode_logs : Text → Result Text

pub record Adapter : Type 0 where
  pub base_url : Text
  pub auth_token : Text

-- http.NewRequestWithContext, the Authorization header, and client.Do.
module _ {W : Type 0} (http : Http W) (a : Adapter) where
  unfoldable pub sent : Result HttpResponse → Result HttpResponse
  sent (ok r) = ok r
  sent (err e) = err (wrap (lit "http request failed") e)

  unfoldable pub exchange : Text → Text → Text → W → Result HttpResponse × W
  unfolding sent
  exchange method url body w = elim (http.invalid method url) [
    | some e ↦ (err (wrap (lit "failed to create http request") e), w)
    | none ↦
        let p =
          http.send
            (record {
              method = method;
              url = url;
              authorization = lit "Bearer " ++ a.auth_token;
              body = body;
            })
            w in
        (sent p.0, p.1)
  ]

  -- The test of the status, and the decoding of the body.
  unfoldable pub decoded {ℓ} : {A : Type ℓ} → Result A → Result A
  decoded (ok v) = ok v
  decoded (err e) = err (wrap (lit "failed to decode response") e)

  unfoldable pub reply {ℓ} :
      {A : Type ℓ} → (ℕ → Bool) → (Text → Result A) → Result HttpResponse → Result A
  reply accepts read (err e) = err e
  reply accepts read (ok r) =
      if accepts r.status
      then read r.body
      else err (message (lit "unexpected status code: " ++ decimal r.status))

  unfoldable pub create_instance : VmConfig → W → Result VmInstance × W
  unfolding exchange reply decoded
  create_instance config w = elim (http.marshal_config config) [
    | err e ↦ (err (wrap (lit "failed to marshal VMConfig") e), w)
    | ok body ↦
        let p = exchange (lit "POST") (a.base_url ++ lit "/v1/instances") body w in
        (reply (λ c. nat_eq c 201 || nat_eq c 200) (λ b. decoded (http.decode_instance b)) p.0, p.1)
  ]

  unfoldable pub get_instance : Text → W → Result VmInstance × W
  unfolding exchange reply decoded
  get_instance id w =
      let p = exchange (lit "GET") (a.base_url ++ (lit "/v1/instances/" ++ id)) [] w in
      (reply (λ c. nat_eq c 200) (λ b. decoded (http.decode_instance b)) p.0, p.1)

  unfoldable pub delete_instance : Text → W → Result (Unit {0}) × W
  unfolding exchange reply
  delete_instance id w =
      let p = exchange (lit "DELETE") (a.base_url ++ (lit "/v1/instances/" ++ id)) [] w in
      (reply (λ c. nat_eq c 204 || nat_eq c 200) (λ b. ok tt) p.0, p.1)

  unfoldable pub get_instance_logs : Text → W → Result Text × W
  unfolding exchange reply decoded
  get_instance_logs id w =
      let p =
        exchange (lit "GET") (a.base_url ++ (lit "/v1/instances/" ++ (id ++ lit "/logs"))) [] w in
      (reply (λ c. nat_eq c 200) (λ b. decoded (http.decode_logs b)) p.0, p.1)

-- ExecutionSandbox
pub record ExecutionSandbox (W : Type 0) : Type 0 where
  pub create : VmConfig → W → Result VmInstance × W
  pub get : Text → W → Result VmInstance × W
  pub delete : Text → W → Result (Unit {0}) × W
  pub logs : Text → W → Result Text × W

-- NewUnikraftCloudSandboxAdapter
abbrev pub new_sandbox : {W : Type 0} → Http W → Text → Text → ExecutionSandbox W
new_sandbox http base_url auth_token =
    let a : Adapter = record { base_url = base_url; auth_token = auth_token } in
    record {
      create = create_instance http a;
      get = get_instance http a;
      delete = delete_instance http a;
      logs = get_instance_logs http a;
    }
