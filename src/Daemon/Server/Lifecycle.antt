-- ===== src/Daemon/Server/Lifecycle.antt =====
-- Creating, reading and deleting an instance through the API.
use drover_runner.Base.{
  Text, lit, ◌==◌, eq_iff, eq_refl, ℕ, [], ◌∷◌, false, if◌then◌else◌, none, some, ◌≡◌, refl, ◌∙◌,
  arith,
}
use drover_runner.Host.{Log, ok, err, Error, error_text}
use drover_runner.Daemon.Ids.{instance_id, next_seq, instance_id-Lacks_slash, instance_id-ne-nil}
use drover_runner.Daemon.Types.{HypervisorDriver, ActiveVm, VmConfig}
use drover_runner.Daemon.Writer.{Writer}
use drover_runner.Daemon.Table.{load, store, load-store, load-delete}
use drover_runner.Daemon.Server.{
  Codec, Request, Server, serve_http, is_refused, serve_instance, handle_delete_instance,
  instance_of, created, stopped,
}
use drover_runner.Daemon.Server.Auth.{ready, json_type}
use drover_runner.Daemon.Server.Routing.{collection_path, instance_path, IsSegment, route-instance}

-- A response as JSON.
abbrev pub response : ℕ → Text → Writer
response code body = record { content_type = json_type; sent = some (code, json_type); body = body }

pub instance_id-IsSegment : (n : ℕ) → IsSegment (instance_id n)
instance_id-IsSegment n = (instance_id-ne-nil n, instance_id-Lacks_slash n)

delete-ne-get : (lit "DELETE" == lit "GET") ≡ false
unfolding lit ◌==◌
delete-ne-get = refl

-- A request that is let in.
abbrev pub IsAdmitted : Text → Request → Type 0
IsAdmitted token r = is_refused token r ≡ false

module _ (json : Codec) (driver : HypervisorDriver) (token : Text) where
  serve_http-instance :
      (r : Request) (id : Text) (s : Server) (l : Log)
      → IsAdmitted token r
      → IsSegment id
      → r.path ≡ instance_path id
      → serve_http json driver token r s l ≡ serve_instance json driver id r.method s ready l
  unfolding serve_http
  serve_http-instance r id s l admitted segment e =
      rw admitted (route-instance json driver s ready l r id segment e)

  -- GET of an instance in the table answers it; of any other, 404. Nothing changes.
  pub serve_http-get :
      (r : Request) (id : Text) (s : Server) (l : Log)
      → IsAdmitted token r
      → IsSegment id
      → r.path ≡ instance_path id
      → r.method ≡ lit "GET"
      → serve_http json driver token r s l ≡ record {
        server = s;
        writer = elim (load id s.vms) [
          | some active ↦ response 200 (json.encode_instance (instance_of active))
          | none ↦ response 404 (json.encode_map ((lit "error", lit "instance not found") ∷ []))
        ];
        log = l;
      }
  unfolding serve_instance
  serve_http-get r id s l admitted segment path method =
      serve_http-instance r id s l admitted segment path
      ∙ rw (method, eq_refl (lit "GET")) (ground arith)

  serve_http-create :
      (r : Request) (c : VmConfig) (s : Server) (l : Log)
      → IsAdmitted token r
      → r.path ≡ collection_path
      → r.method ≡ lit "POST"
      → json.decode_config r.body ≡ some c
      → serve_http json driver token r s l ≡ (
          let id = instance_id (next_seq s.vm_seq) in
          created json driver id
            (record s { vm_seq = next_seq s.vm_seq })
            ready
            (driver.launch_vm id c.image_name c.memory_mb c.env l))
  unfolding serve_http
  serve_http-create r c s l admitted path method decoded =
      rw admitted (ground (arith, eq_iff r.path collection_path, eq_iff r.method (lit "POST")))

  -- POST with a configuration that decodes, when the driver fails to launch the guest: the error
  -- is answered with 500 and no instance is added, but its number is used up.
  pub serve_http-create_failed :
      (r : Request) (c : VmConfig) (s : Server) (l l' : Log) (e : Error)
      → IsAdmitted token r
      → r.path ≡ collection_path
      → r.method ≡ lit "POST"
      → json.decode_config r.body ≡ some c
      → driver.launch_vm (instance_id (next_seq s.vm_seq)) c.image_name c.memory_mb c.env l
        ≡ (err e, l')
      → serve_http json driver token r s l ≡ record {
        server = record s { vm_seq = next_seq s.vm_seq };
        writer = response 500 (json.encode_map ((lit "error", error_text e) ∷ []));
        log = l';
      }
  unfolding created
  serve_http-create_failed r c s l l' e admitted path method decoded launched =
      serve_http-create r c s l admitted path method decoded ∙ rw launched

  pub serve_http-create_ok :
      (r : Request) (c : VmConfig) (s : Server) (l l' : Log) (active : ActiveVm)
      → IsAdmitted token r
      → r.path ≡ collection_path
      → r.method ≡ lit "POST"
      → json.decode_config r.body ≡ some c
      → driver.launch_vm (instance_id (next_seq s.vm_seq)) c.image_name c.memory_mb c.env l
        ≡ (ok active, l')
      → serve_http json driver token r s l ≡ record {
        server = record {
          vms = store (instance_id (next_seq s.vm_seq)) active s.vms;
          vm_seq = next_seq s.vm_seq;
        };
        writer = response 201 (json.encode_instance (instance_of active));
        log = l';
      }
  unfolding created
  serve_http-create_ok r c s l l' active admitted path method decoded launched =
      serve_http-create r c s l admitted path method decoded ∙ rw launched

  -- POST with a configuration that decodes, when the driver launches the guest: the instance is
  -- answered with 201, and a later GET of the new id answers the same instance.
  pub serve_http-create_get :
      (r g : Request) (c : VmConfig) (s : Server) (l l' k : Log) (active : ActiveVm)
      → IsAdmitted token r
      → r.path ≡ collection_path
      → r.method ≡ lit "POST"
      → json.decode_config r.body ≡ some c
      → driver.launch_vm (instance_id (next_seq s.vm_seq)) c.image_name c.memory_mb c.env l
        ≡ (ok active, l')
      → IsAdmitted token g
      → g.path ≡ instance_path (instance_id (next_seq s.vm_seq))
      → g.method ≡ lit "GET"
      → let after = serve_http json driver token r s l in
        (after.writer ≡ response 201 (json.encode_instance (instance_of active)))
        × (serve_http json driver token g after.server k ≡ record {
          server = after.server;
          writer = response 200 (json.encode_instance (instance_of active));
          log = k;
        })
  serve_http-create_get r g c s l l' k active ar pr mr decoded launched ag pg mg =
      rw (serve_http-create_ok r c s l l' active ar pr mr decoded launched) (
        refl,
        serve_http-get g (instance_id (next_seq s.vm_seq)) _ k ag
              (instance_id-IsSegment (next_seq s.vm_seq)) pg mg
            ∙ rw (load-store, eq_refl (instance_id (next_seq s.vm_seq))),
      )

  pub serve_http-delete_active :
      (r : Request) (id : Text) (s : Server) (l : Log) (active : ActiveVm)
      → IsAdmitted token r
      → IsSegment id
      → r.path ≡ instance_path id
      → r.method ≡ lit "DELETE"
      → load id s.vms ≡ some active
      → serve_http json driver token r s l ≡ stopped json driver id s ready (active.stop l)
  unfolding serve_instance
  serve_http-delete_active r id s l active admitted segment path method found =
      serve_http-instance r id s l admitted segment path
      ∙ rw (method, delete-ne-get, eq_refl (lit "DELETE")) (rw (found, handle_delete_instance))

  -- DELETE of an instance that stops is answered with 204 and no body. Then a GET of its id is
  -- answered with 404, and every other id is as it was.
  pub serve_http-delete_get :
      (r g : Request) (id : Text) (s : Server) (l l' k : Log) (active : ActiveVm)
      → IsAdmitted token r
      → IsSegment id
      → r.path ≡ instance_path id
      → r.method ≡ lit "DELETE"
      → load id s.vms ≡ some active
      → active.stop l ≡ (ok tt, l')
      → IsAdmitted token g
      → g.path ≡ instance_path id
      → g.method ≡ lit "GET"
      → let after = serve_http json driver token r s l in
        (after.writer ≡ response 204 [])
        × ((j : Text) → load j after.server.vms ≡ (if id == j then none else load j s.vms))
        × (serve_http json driver token g after.server k ≡ record {
          server = after.server;
          writer = response 404 (json.encode_map ((lit "error", lit "instance not found") ∷ []));
          log = k;
        })
  serve_http-delete_get r g id s l l' k active ar segment pr mr found done ag pg mg =
      rw (serve_http-delete_active r id s l active ar segment pr mr found, done)
        (unfold stopped in
          (
            refl,
            λ j. load-delete j id s.vms,
            serve_http-get g id _ k ag segment pg mg ∙ rw (load-delete, eq_refl id),
          ))
