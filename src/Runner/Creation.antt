-- ===== src/Runner/Creation.antt =====
-- The client that creates an instance, and the server.
use drover_runner.Base.{
  Text, ◌++◌, lit, eq_refl, ℕ, none, some, ◌≡◌, refl, ap, ◌∙◌, arith, if◌then◌else◌, nat_eq_iff,
  decimal,
}
use drover_runner.Host.{Log, ok, err, message}
use drover_runner.Daemon.Ids.{instance_id, next_seq}
use drover_runner.Daemon.Types.{ActiveVm, VmConfig, HypervisorDriver}
use drover_runner.Daemon.Table.{load, store, load-store}
use drover_runner.Daemon.Server.{Codec, Request, Server, serve_http, instance_of, is_refused}
use drover_runner.Daemon.Server.Routing.{collection_path}
use drover_runner.Daemon.Server.Lifecycle.{IsAdmitted, serve_http-create_ok}
use drover_runner.Runner.{
  Http, Adapter, ExecutionSandbox, new_sandbox, create_instance, get_instance, exchange, sent,
  reply, decoded,
}
use drover_runner.Runner.Roundtrip.{
  World, IsWired, IsPlain, IsDecoded, response_of, get_instance-text, delete_instance-get_instance,
}

abbrev pub adapter_of : Text → Text → Adapter
adapter_of base_url token = record { base_url = base_url; auth_token = token }

-- The POST request that the server gets.
abbrev pub post_of : Text → Text → Request
post_of token body = record {
  method = lit "POST";
  path = collection_path;
  authorization = lit "Bearer " ++ token;
  body = body;
}

-- What net/http promises of a POST to the collection under the base URL: it is valid, and it is
-- answered by the server.
pub record IsPosted (http : Http World) (base_url : Text) (json : Codec) (driver : HypervisorDriver)
    (token : Text) : Type 0 where
  pub valid : http.invalid (lit "POST") (base_url ++ collection_path) ≡ none
  pub served :
      (body : Text) (s : Server) (l : Log)
      → let v = serve_http json driver token (post_of token body) s l in
        http.send
          (record {
            method = lit "POST";
            url = base_url ++ collection_path;
            authorization = lit "Bearer " ++ token;
            body = body;
          })
          (s, l)
        ≡ (ok (response_of v), (v.server, v.log))

module _ (http : Http World) (base_url token : Text) (json : Codec) (driver : HypervisorDriver)
    (w : IsWired http (adapter_of base_url token) json driver token)
    (p : IsPosted http base_url json driver token) (codes : IsDecoded http json) where
  post_of-IsAdmitted : (body : Text) → IsAdmitted token (post_of token body)
  unfolding is_refused
  post_of-IsAdmitted body = ground (arith, eq_refl (lit "Bearer " ++ token))

  abbrev next_id : Server → Text
  next_id s = instance_id (next_seq s.vm_seq)

  create_instance-launched :
      (c : VmConfig) (body : Text) (s : Server) (l l' : Log) (active : ActiveVm)
      → http.marshal_config c ≡ ok body
      → json.decode_config body ≡ some c
      → driver.launch_vm (next_id s) c.image_name c.memory_mb c.env l ≡ (ok active, l')
      → IsPlain (instance_of active)
      → create_instance http (adapter_of base_url token) c (s, l) ≡ (
        ok (instance_of active),
        (record { vms = store (next_id s) active s.vms; vm_seq = next_seq s.vm_seq }, l'),
      )
  unfolding create_instance exchange sent reply decoded
  create_instance-launched c body s l l' active encoded decodes launched plain =
      rw
        (
          create_instance,
          encoded,
          exchange,
          p.valid,
          p.served body s l,
          serve_http-create_ok json driver token (post_of token body) c s l l' active
              (post_of-IsAdmitted body) refl refl decodes launched,
          codes.instance_text (instance_of active) plain,
        )
        refl

  abbrev sandbox : ExecutionSandbox World
  sandbox = new_sandbox http base_url token

  -- Through the sandbox of a client that has the server's token, a configuration that encodes and
  -- decodes to itself, when the driver launches its guest and the fields of the instance are ASCII:
  -- CreateInstance answers the instance, GetInstance of the new id answers the same, DeleteInstance
  -- succeeds if Stop does, and GetInstance then reports the status 404. The HTTP library is taken to
  -- carry these requests and their responses unchanged, and JSON to decode what it encoded of ASCII
  -- fields.
  pub new_sandbox_lifecycle :
      (c : VmConfig) (body : Text) (s : Server) (l l' l'' : Log) (active : ActiveVm)
      → http.marshal_config c ≡ ok body
      → json.decode_config body ≡ some c
      → driver.launch_vm (next_id s) c.image_name c.memory_mb c.env l ≡ (ok active, l')
      → active.stop l' ≡ (ok tt, l'')
      → IsPlain (instance_of active)
      → let created = sandbox.create c (s, l) in
        let got = sandbox.get (next_id s) created.1 in
        let deleted = sandbox.delete (next_id s) got.1 in
        (created.0 ≡ ok (instance_of active))
        × (got.0 ≡ ok (instance_of active))
        × (deleted.0 ≡ ok tt)
        × ((sandbox.get (next_id s) deleted.1).0
            ≡ err (message (lit "unexpected status code: " ++ decimal 404)))
  new_sandbox_lifecycle c body s l l' l'' active encoded decodes launched stops plain =
      let a = adapter_of base_url token in
      let n : ℕ = next_seq s.vm_seq in
      let t : Server = record { vms = store (next_id s) active s.vms; vm_seq = n } in
      let found : load (next_id s) t.vms ≡ some active =
        load-store (next_id s) (next_id s) active s.vms
        ∙ ap (λ b. if b then some active else load (next_id s) s.vms) (eq_refl (next_id s)) in
      let got : get_instance http a (next_id s) (t, l') ≡ (ok (instance_of active), (t, l')) =
        get_instance-text http a json driver w n t l'
        ∙ rw (found, codes.instance_text (instance_of active) plain) (unfold decoded in refl) in
      let (gone, left, after) =
        delete_instance-get_instance http a json driver w n n t l' l'' active found stops in
      rw (create_instance-launched c body s l l' active encoded decodes launched plain, got)
        (refl, refl, gone, after ∙ rw ((nat_eq_iff n n).1 refl) refl)
