-- ===== src/Examples/Server.antt =====
-- The server at concrete requests, over a driver that starts nothing.
use drover_runner.Base.{
  Text, decimal, lit, ◌++◌, ◌==◌, ◌≤◌, List, [], ◌∷◌, none, some, Option, ◌≡◌, ◌≢◌, refl, ◌⊎◌,
  arith, if◌then◌else◌,
}
use drover_runner.Base.Int.{pos}
use drover_runner.Host.{pure}
use drover_runner.Daemon.Ids.{instance_id, next_seq}
use drover_runner.Daemon.Types.{ActiveVm, HypervisorDriver, VmConfig}
use drover_runner.Daemon.Writer.{fresh_writer}
use drover_runner.Daemon.Table.{load}
use drover_runner.Daemon.Server.{
  Codec, Request, Server, new_server, serve_http, stop_all, instance_of, is_refused,
}
use drover_runner.Daemon.Server.Auth.{Answers, serve_http-Auth}
use drover_runner.Daemon.Server.Routing.{Routed, route-Routed, instance_path, collection_path}
use drover_runner.Daemon.Server.Lifecycle.{
  IsAdmitted, response, instance_id-IsSegment, serve_http-create_get, serve_http-delete_get,
}
use drover_runner.Daemon.Server.Changes.{Change, serve_http-Change}
use drover_runner.Daemon.Server.Invariant.{IsWellFormed, start, request, Reach-IsWellFormed}
use drover_runner.Daemon.Server.Shutdown.{stops, stop_all_lem}

abbrev decode : Text → Option VmConfig
decode [] = none
decode image = some (record { image_name = image; memory_mb = pos 64; env = [] })

abbrev first_value : List (Text × Text) → Text
first_value [] = []
first_value ((k, v) ∷ m) = v

abbrev pub json : Codec
json = record { decode_config = decode; encode_instance = λ v. v.id; encode_map = first_value }

abbrev pub vm : Text → ActiveVm
vm id = record {
  id = id;
  ip = lit "127.0.0.1";
  state = lit "running";
  stop = pure tt;
  logs = pure (lit "booted");
}

abbrev pub idle_driver : HypervisorDriver
idle_driver = record { launch_vm = λ id image memory_mb env. pure (vm id) }

abbrev pub token : Text
token = lit "secret"

abbrev pub request_of : Text → Text → Text → Request
request_of method path body = record {
  method = method;
  path = path;
  authorization = lit "Bearer " ++ token;
  body = body;
}

abbrev pub post : Request
post = request_of (lit "POST") collection_path (lit "img")

abbrev pub of_instance : Text → Request
of_instance method = request_of method (instance_path (instance_id 1)) []

abbrev intruder : Request
intruder = record post { authorization = [] }

pub post-IsAdmitted : IsAdmitted token post
unfolding is_refused lit ◌==◌
post-IsAdmitted = refl

pub instance-IsAdmitted : (method : Text) → IsAdmitted token (of_instance method)
unfolding is_refused lit ◌==◌
instance-IsAdmitted method = refl

abbrev pub server_with : ActiveVm → Server
server_with active = record { vms = (instance_id 1, active) ∷ []; vm_seq = 1 }

abbrev pub one_vm : Server
one_vm = server_with (vm (instance_id 1))

pub load_of_server_with : (a : ActiveVm) → load (instance_id 1) (server_with a).vms ≡ some a
unfolding load instance_id lit ◌==◌ decimal
load_of_server_with a = refl

serve_http-Auth_example :
    ((token ≢ [])
      × (intruder.authorization ≢ lit "Bearer " ++ token)
      × ((serve_http json idle_driver token intruder one_vm []).server ≡ one_vm)
      × ((serve_http json idle_driver token intruder one_vm []).log ≡ [])
      × ((serve_http json idle_driver token intruder one_vm []).writer.sent ≡ some (401, none)))
    ⊎ (((token ≡ []) ⊎ (intruder.authorization ≡ lit "Bearer " ++ token))
        × Answers json idle_driver one_vm [] (serve_http json idle_driver token intruder one_vm []))
serve_http-Auth_example = serve_http-Auth json idle_driver one_vm [] token intruder

route-Routed_example : Routed json idle_driver one_vm fresh_writer [] (of_instance (lit "GET"))
route-Routed_example =
    route-Routed json idle_driver one_vm fresh_writer [] (of_instance (lit "GET"))

abbrev get_new : Request
get_new = request_of (lit "GET") (instance_path (instance_id (next_seq 0))) []

get_new-IsAdmitted : IsAdmitted token get_new
unfolding is_refused lit ◌==◌
get_new-IsAdmitted = refl

serve_http-create_get_example :
    let after = serve_http json idle_driver token post new_server [] in
    (after.writer
      ≡ response 201 (json.encode_instance (instance_of (vm (instance_id (next_seq 0))))))
    × (serve_http json idle_driver token get_new after.server [] ≡ record {
      server = after.server;
      writer = response 200 (json.encode_instance (instance_of (vm (instance_id (next_seq 0)))));
      log = [];
    })
unfolding lit new_server
serve_http-create_get_example =
    serve_http-create_get json idle_driver token post get_new
      (record { image_name = lit "img"; memory_mb = pos 64; env = [] }) new_server [] [] []
      (vm (instance_id (next_seq 0))) post-IsAdmitted refl refl refl refl get_new-IsAdmitted refl
      refl

serve_http-delete_get_example :
    let after = serve_http json idle_driver token (of_instance (lit "DELETE")) one_vm [] in
    (after.writer ≡ response 204 [])
    × ((j : Text)
        → load j after.server.vms ≡ (if instance_id 1 == j then none else load j one_vm.vms))
    × (serve_http json idle_driver token (of_instance (lit "GET")) after.server [] ≡ record {
      server = after.server;
      writer = response 404 (json.encode_map ((lit "error", lit "instance not found") ∷ []));
      log = [];
    })
serve_http-delete_get_example =
    serve_http-delete_get json idle_driver token (of_instance (lit "DELETE"))
      (of_instance (lit "GET")) (instance_id 1) one_vm [] [] [] (vm (instance_id 1))
      (instance-IsAdmitted (lit "DELETE")) (instance_id-IsSegment 1) refl refl
      (load_of_server_with (vm (instance_id 1))) refl (instance-IsAdmitted (lit "GET")) refl refl

serve_http-Change_example :
    Change idle_driver one_vm (serve_http json idle_driver token post one_vm []).server
serve_http-Change_example = serve_http-Change idle_driver json token post one_vm []

abbrev after_post : Server
after_post = (serve_http json idle_driver token post new_server []).server

Reach-IsWellFormed_example : IsWellFormed after_post × (after_post.vm_seq ≤ 1)
Reach-IsWellFormed_example =
    Reach-IsWellFormed json idle_driver token (request post [] start) (omega arith)

stop_all_example : stop_all one_vm [] ≡ (record one_vm { vms = [] }, stops one_vm.vms [])
stop_all_example = stop_all_lem one_vm []
