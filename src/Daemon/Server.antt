-- ===== src/Daemon/Server.antt =====
-- pkg/daemon/server.go: the REST server. JSON is a parameter, `Codec`; the hypervisor driver is an
-- argument, as in the source. A request is served here as a whole; Concurrent interleaves the handlers.
pub mod Auth
pub mod Routing
pub mod Lifecycle
pub mod Changes
pub mod Invariant
pub mod Shutdown
pub mod Concurrent
use drover_runner.Base.{
  Text, ◌++◌, lit, ◌==◌, strip_prefix, split, ℕ, ◌+◌, List, [], ◌∷◌, Bool, true, false, ◌&&◌, not,
  if◌then◌else◌, Option, none, some,
}
use drover_runner.Host.{Error, error_text, Result, ok, err, M, Log}
use drover_runner.Daemon.Ids.{instance_id, next_seq}
use drover_runner.Daemon.Types.{VmConfig, VmInstance, ActiveVm, HypervisorDriver}
use drover_runner.Daemon.Table.{load, store, delete}
use drover_runner.Daemon.Writer.{Writer, fresh_writer, set_content_type, write_header, write}

-- encoding/json at the types that cross the wire. `none` is an error of Decode.
pub record Codec : Type 0 where
  pub decode_config : Text → Option VmConfig
  pub encode_instance : VmInstance → Text
  pub encode_map : List (Text × Text) → Text

pub record Request : Type 0 where
  pub method : Text
  pub path : Text
  pub authorization : Text
  pub body : Text

-- The table of instances, a sync.Map, and the counter vmSeq.
pub record Server : Type 0 where
  pub vms : List (Text × ActiveVm)
  pub vm_seq : ℕ

-- What serving a request leaves.
pub record Served : Type 0 where
  pub server : Server
  pub writer : Writer
  pub log : Log

unfoldable pub new_server : Server
new_server = record { vms = []; vm_seq = 0 }

unfoldable pub instance_of : ActiveVm → VmInstance
instance_of active = record { id = active.id; state = active.state; ip = active.ip }

-- s.cfg.AuthToken != "" && authHeader != expectedAuth
unfoldable pub is_refused : Text → Request → Bool
is_refused token r = not (token == []) && not (r.authorization == (lit "Bearer " ++ token))

module _ (json : Codec) (driver : HypervisorDriver) where
  unfoldable pub error_body : Text → Text
  error_body t = json.encode_map ((lit "error", t) ∷ [])

  -- `w.WriteHeader(code)` and the error as its body.
  unfoldable pub reject : ℕ → Text → Writer → Writer
  unfolding error_body write write_header
  reject code t w = write (error_body t) (write_header code w)

  unfoldable pub created : Text → Server → Writer → Result ActiveVm × Log → Served
  unfolding reject store write write_header instance_of
  created id s w p = elim p.0 [
    | err e ↦ record { server = s; writer = reject 500 (error_text e) w; log = p.1 }
    | ok active ↦ record {
      server = record s { vms = store id active s.vms };
      writer = write (json.encode_instance (instance_of active)) (write_header 201 w);
      log = p.1;
    }
  ]

  unfoldable pub handle_create_instance : Request → Server → Writer → Log → Served
  unfolding created next_seq
  handle_create_instance r s w l = elim (json.decode_config r.body) [
    | none ↦ record { server = s; writer = reject 400 (lit "invalid json body") w; log = l }
    | some req ↦
        let seq = next_seq s.vm_seq in
        let id = instance_id seq in
        created id (record s { vm_seq = seq }) w
          (driver.launch_vm id req.image_name req.memory_mb req.env l)
  ]

  unfoldable pub not_found : Server → Writer → Log → Served
  unfolding reject
  not_found s w l = record { server = s; writer = reject 404 (lit "instance not found") w; log = l }

  unfoldable pub handle_get_instance : Text → Server → Writer → Log → Served
  unfolding not_found load write instance_of
  handle_get_instance id s w l = elim (load id s.vms) [
    | none ↦ not_found s w l
    | some active ↦ record {
      server = s;
      writer = write (json.encode_instance (instance_of active)) w;
      log = l;
    }
  ]

  unfoldable pub stopped : Text → Server → Writer → Result (Unit {0}) × Log → Served
  unfolding reject delete write_header
  stopped id s w p = elim p.0 [
    | err e ↦ record {
      server = s;
      writer = reject 500 (lit "failed to stop instance: " ++ error_text e) w;
      log = p.1;
    }
    | ok _ ↦ record {
      server = record s { vms = delete id s.vms };
      writer = write_header 204 w;
      log = p.1;
    }
  ]

  unfoldable pub handle_delete_instance : Text → Server → Writer → Log → Served
  unfolding not_found load stopped
  handle_delete_instance id s w l = elim (load id s.vms) [
    | none ↦ not_found s w l
    | some active ↦ stopped id s w (active.stop l)
  ]

  unfoldable pub sent_logs : Server → Writer → Result Text × Log → Served
  unfolding reject write
  sent_logs s w p = elim p.0 [
    | err e ↦ record { server = s; writer = reject 500 (error_text e) w; log = p.1 }
    | ok logs ↦ record {
      server = s;
      writer = write (json.encode_map ((lit "logs", logs) ∷ [])) w;
      log = p.1;
    }
  ]

  unfoldable pub handle_get_instance_logs : Text → Server → Writer → Log → Served
  unfolding not_found load sent_logs
  handle_get_instance_logs id s w l = elim (load id s.vms) [
    | none ↦ not_found s w l
    | some active ↦ sent_logs s w (active.logs l)
  ]

  unfoldable pub bare : ℕ → Server → Writer → Log → Served
  unfolding write_header
  bare code s w l = record { server = s; writer = write_header code w; log = l }

  -- A path of one segment below /v1/instances/.
  unfoldable pub serve_instance : Text → Text → Server → Writer → Log → Served
  unfolding handle_get_instance handle_delete_instance bare
  serve_instance id method s w l =
      if method == lit "GET"
      then handle_get_instance id s w l
      else (if method == lit "DELETE" then handle_delete_instance id s w l else bare 405 s w l)

  unfoldable pub serve_logs : Text → Text → Server → Writer → Log → Served
  unfolding handle_get_instance_logs bare
  serve_logs id method s w l =
      if method == lit "GET" then handle_get_instance_logs id s w l else bare 405 s w l

  -- The tests of `parts`.
  unfoldable pub serve_parts : List Text → Text → Server → Writer → Log → Served
  unfolding serve_instance serve_logs bare
  serve_parts (id ∷ []) method s w l =
      if not (id == []) then serve_instance id method s w l else bare 404 s w l
  serve_parts (id ∷ part ∷ []) method s w l =
      if not (id == []) && part == lit "logs" then serve_logs id method s w l else bare 404 s w l
  serve_parts _ method s w l = bare 404 s w l

  unfoldable pub serve_below : Option Text → Text → Server → Writer → Log → Served
  unfolding serve_parts bare
  serve_below none method s w l = bare 404 s w l
  serve_below (some rest) method s w l = serve_parts (split b'/' rest) method s w l

  -- The router.
  unfoldable pub route : Request → Server → Writer → Log → Served
  unfolding serve_below handle_create_instance bare
  route r s w l =
      if r.path == lit "/v1/instances"
      then (if r.method == lit "POST" then handle_create_instance r s w l else bare 405 s w l)
      else serve_below (strip_prefix (lit "/v1/instances/") r.path) r.method s w l

  -- ServeHTTP. On a refusal the content type is set behind the status.
  unfoldable pub serve_http : Text → Request → Server → Log → Served
  unfolding is_refused route write write_header set_content_type
  serve_http token r s l =
      if is_refused token r
      then record {
        server = s;
        writer =
            write (error_body (lit "unauthorized"))
              (set_content_type (lit "application/json") (write_header 401 fresh_writer));
        log = l;
      }
      else route r s (set_content_type (lit "application/json") fresh_writer) l

-- StopAll: Range over the table, where each instance is stopped, whatever comes of it, and deleted.
unfoldable pub stop_each : List (Text × ActiveVm) → Server → Log → Server × Log
unfolding delete
stop_each [] s l = (s, l)
stop_each ((id, active) ∷ rest) s l =
    stop_each rest (record s { vms = delete id s.vms }) (active.stop l).1

unfoldable pub stop_all : Server → Log → Server × Log
unfolding stop_each
stop_all s l = stop_each s.vms s l
